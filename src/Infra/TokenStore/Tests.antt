-- ===== src/Infra/TokenStore/Tests.antt =====
-- crates/infrastructure/src/cache/memory_token_store.rs: a store with one session, and the theorems on it.
use longship_x.Prelude.{◌+◌, none, some, ltb, if◌then◌else◌, nat_eq, ◌==◌, ◌≡◌, refl, arith}
use longship_x.Prelude.Text.{text, text_eq}
use longship_x.Infra.TokenStore.{State, new, create, resolve, live_tokens, revoke_player}
use longship_x.Infra.TokenStore.Sessions.{
  IsValid, IsFresh, Owns, Lists, evict, create-resolve, revoke_player-resolve,
}
use longship_x.Infra.TokenStore.Invariant.{create-IsValid}

abbrev one_session : State
unfolding create new
one_session = (create new 7 60 (text "aa") 100 1000).1

new-IsValid : IsValid new
unfolding IsValid Owns Lists new
new-IsValid = (λ t. tt, λ p. tt)

new-IsFresh : IsFresh new (text "aa")
unfolding IsFresh new
new-IsFresh p = tt

one_session-IsValid : IsValid one_session
unfolding create new
one_session-IsValid = create-IsValid new 7 60 (text "aa") 100 1000 new-IsValid new-IsFresh

resolves : resolve one_session (text "aa") 159 ≡ some 7
unfolding resolve create new text
resolves = refl

expires : resolve one_session (text "aa") 160 ≡ none
unfolding resolve create new text
expires = refl

swept : (live_tokens one_session 160).0 ≡ 0
unfolding live_tokens create new text
swept = refl

create-IsValid_example : IsValid (create new 7 60 (text "aa") 100 1000).1
create-IsValid_example = create-IsValid new 7 60 (text "aa") 100 1000 new-IsValid new-IsFresh

create-resolve_example :
    resolve (create one_session 7 60 (text "bb") 120 1000).1 (text "aa") 130 ≡ (
      if text "bb" == text "aa"
      then (if ltb 130 (120 + 60) then some 7 else none)
      else evict 7 (resolve one_session (text "aa") 130))
create-resolve_example =
    create-resolve one_session 7 60 (text "bb") 120 1000 (text "aa") 130 one_session-IsValid
      (omega arith)

revoke_player-resolve_example :
    resolve (revoke_player one_session 7) (text "aa") 130
    ≡ evict 7 (resolve one_session (text "aa") 130)
revoke_player-resolve_example =
    revoke_player-resolve one_session 7 (text "aa") 130 one_session-IsValid
