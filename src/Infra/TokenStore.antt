-- ===== src/Infra/TokenStore.antt =====
-- crates/infrastructure/src/cache/memory_token_store.rs: the session tokens of the players. The lock
-- makes each method one step. The token that `random_token` draws and the instant that
-- `Instant::now` reads are arguments; `latest` is the last instant that the platform represents.
pub mod Sessions
pub mod Invariant
pub mod Logins
mod Tests
use longship_x.Prelude.{
  ℕ, ◌+◌, ◌≤◌, Bool, Option, none, some, Result, ok, err, List, [], ◌∷◌, ◌++◌, length, retain, ltb,
  if◌then◌else◌, nat_eq, ◌==◌,
}
use longship_x.Prelude.Map.{Map, lookup, insert, remove}
use longship_x.Prelude.Text.{Text, text, text_eq}
use longship_x.Domain.Error.{PlayerId}
use longship_x.App.Error.{AppError, validation}

abbrev pub Token : Type 0
Token = Text

abbrev pub Instant : Type 0
Instant = ℕ

pub record Entry : Type 0 where
  pub player_id : PlayerId
  pub expires_at : Instant

pub record State : Type 0 where
  pub by_token : Map Token Entry
  pub by_player : Map PlayerId (List Token)

unfoldable pub new : State
new = record { by_token = []; by_player = [] }

-- The loop that takes a player's tokens out of the index.
unfoldable pub remove_tokens : List Token → Map Token Entry → Map Token Entry
remove_tokens [] by_token = by_token
remove_tokens (old ∷ rest) by_token = remove_tokens rest (remove old by_token)

-- `entry(player).or_default().push(token)`.
abbrev pub push_token : PlayerId → Token → Map PlayerId (List Token) → Map PlayerId (List Token)
push_token player token by_player = elim (lookup player by_player) [
  | none ↦ insert player (token ∷ []) by_player
  | some tokens ↦ insert player (tokens ++ token ∷ []) by_player
]

unfoldable pub revoke_player : State → PlayerId → State
revoke_player st player = elim (lookup player st.by_player) [
  | none ↦ st
  | some tokens ↦ record {
    by_token = remove_tokens tokens st.by_token;
    by_player = remove player st.by_player;
  }
]

unfoldable pub create :
    State → PlayerId → ℕ → Token → Instant → Instant → Result Token AppError × State
create st player ttl token now latest =
    if ltb latest (now + ttl)
    then (err (validation (text "token TTL 过大")), st)
    else let kept : State = elim (lookup player st.by_player) [
      | none ↦ st
      | some tokens ↦ record {
        by_token = remove_tokens tokens st.by_token;
        by_player = remove player st.by_player;
      }
    ] in
      let entry : Entry = record { player_id = player; expires_at = now + ttl } in
      (
        ok token,
        record {
          by_token = insert token entry kept.by_token;
          by_player = push_token player token kept.by_player;
        },
      )

abbrev pub live : Instant → Option Entry → Option PlayerId
live now none = none
live now (some entry) = if ltb now entry.expires_at then some entry.player_id else none

unfoldable pub resolve : State → Token → Instant → Option PlayerId
resolve st token now = live now (lookup token st.by_token)

abbrev pub not_expired : Instant → Token × Entry → Bool
not_expired now (token, entry) = ltb now entry.expires_at

unfoldable pub live_tokens : State → Instant → ℕ × State
live_tokens st now =
    let by_token = retain (not_expired now) st.by_token in
    (length by_token, record st { by_token = by_token })
