-- ===== src/Infra/TokenStore/Invariant.antt =====
-- crates/infrastructure/src/cache/memory_token_store.rs: every method keeps the two maps in agreement.
use longship_x.Prelude.{
  ℕ, ◌+◌, Bool, true, false, Option, none, some, Option-cases, Bool-cases, List, [], ◌∷◌, contains,
  ltb, if◌then◌else◌, nat_eq, nat_beq_iff, ◌==◌, ◌≡◌, refl, sym, ◌∙◌, ap, subst, arith, inl, inr,
}
use longship_x.Prelude.Map.{Map, lookup, insert, lookup-insert, lookup-remove}
use longship_x.Prelude.Text.{text_eq, text_beq_iff}
use longship_x.Domain.Error.{PlayerId}
use longship_x.Infra.TokenStore.{Token, Instant, Entry, State, push_token, create, revoke_player}
use longship_x.Infra.TokenStore.Sessions.{
  Owns, Owner, Belongs, IsOnly, Lists, IsValid, IsFresh, Unlisted, lookup-remove_tokens, Owns-entry,
  Lists-contains, create-revoke_player, kept_for_others,
}

-- The entries that stay for other players, once a player is revoked.
revoke_player-lookup :
    (st : State) (p : PlayerId) (t : Token)
    → IsValid st
    → lookup t (revoke_player st p).by_token ≡ kept_for_others p (lookup t st.by_token)
unfolding revoke_player IsValid
revoke_player-lookup st p t (owns, lists) = elim (Option-cases (lookup t st.by_token)) [
  | inl ht ↦ elim (Option-cases (lookup p st.by_player)) [
    | inl hp ↦ ground arith
    | inr (tokens, hp) ↦ ground (arith, lookup-remove_tokens tokens st.by_token t)
  ]
  | inr (e, ht) ↦ elim (Option-cases (lookup p st.by_player)) [
    | inl hp ↦ ground (arith, Owns-entry st t e (owns t) ht, nat_beq_iff e.player_id p)
    | inr (tokens, hp) ↦ ground (
      arith,
      lookup-remove_tokens tokens st.by_token t,
      Lists-contains st p tokens t e (owns t) (lists p) hp ht,
    )
  ]
]

revoke_player-index :
    (st : State) (p q : PlayerId)
    → lookup q (revoke_player st p).by_player ≡ (if p == q then none else lookup q st.by_player)
unfolding revoke_player
revoke_player-index st p q = elim (Option-cases (lookup p st.by_player)) [
  | inl hp ↦ ground (arith, nat_beq_iff p q)
  | inr (tokens, hp) ↦ ground (arith, lookup-remove p q st.by_player)
]

Belongs-kept : (p q : PlayerId) (o : Option Entry) → Belongs q o → Belongs q (kept_for_others p o)
Belongs-kept p q none b = tt
Belongs-kept p q (some e) b = elim (Bool-cases (e.player_id == p)) [
  | inl h ↦ subst (λ c. Belongs q (if c then none else some e)) (sym h) tt
  | inr h ↦ subst (λ c. Belongs q (if c then none else some e)) (sym h) b
]

Owner-kept :
    (by_player by_player' : Map PlayerId (List Token)) (p : PlayerId) (t : Token) (o : Option Entry)
    → ((q : PlayerId) → lookup q by_player' ≡ (if p == q then none else lookup q by_player))
    → Owner by_player t o
    → Owner by_player' t (kept_for_others p o)
Owner-kept by_player by_player' p t none h owner = tt
Owner-kept by_player by_player' p t (some e) h owner = elim (Bool-cases (e.player_id == p)) [
  | inl q ↦ subst (λ c. Owner by_player' t (if c then none else some e)) (sym q) tt
  | inr q ↦
      subst (λ c. Owner by_player' t (if c then none else some e)) (sym q)
        (ground (arith, h e.player_id))
]

IsOnly-kept :
    (by_token by_token' : Map Token Entry) (p q : PlayerId) (o : Option (List Token))
    → ((t : Token) → lookup t by_token' ≡ kept_for_others p (lookup t by_token))
    → IsOnly by_token q o
    → IsOnly by_token' q o
IsOnly-kept by_token by_token' p q none h only = tt
IsOnly-kept by_token by_token' p q (some tokens) h (t, one, belongs) =
    (t, one, subst (Belongs q) (sym (h t)) (Belongs-kept p q (lookup t by_token) belongs))

-- A revoked player leaves a valid store.
revoke_player-IsValid : (st : State) (p : PlayerId) → IsValid st → IsValid (revoke_player st p)
unfolding IsValid Owns Lists
revoke_player-IsValid st p v = (owns, lists)
  where
    owns : (t : Token) → Owns (revoke_player st p) t
    owns t = subst (Owner (revoke_player st p).by_player t) (sym (revoke_player-lookup st p t v)) (
        Owner-kept st.by_player (revoke_player st p).by_player p t (lookup t st.by_token)
          (revoke_player-index st p) (v.0 t))

    lists : (q : PlayerId) → Lists (revoke_player st p) q
    lists q = elim (Bool-cases (p == q)) [
      | inl h ↦
          subst (IsOnly (revoke_player st p).by_token q)
            (sym
              (revoke_player-index st p q ∙ ap (λ c. if c then none else lookup q st.by_player) h))
            tt
      | inr h ↦
          subst (IsOnly (revoke_player st p).by_token q)
            (sym
              (revoke_player-index st p q ∙ ap (λ c. if c then none else lookup q st.by_player) h))
            (IsOnly-kept st.by_token (revoke_player st p).by_token p q (lookup q st.by_player)
              (λ t. revoke_player-lookup st p t v) (v.1 q))
    ]

push_token-index :
    (p q : PlayerId) (t : Token) (by_player : Map PlayerId (List Token))
    → lookup p by_player ≡ none
    → lookup q (push_token p t by_player) ≡ (if p == q then some (t ∷ []) else lookup q by_player)
push_token-index p q t by_player h = ground (arith, lookup-insert p q (t ∷ []) by_player, h)

Owner-pushed :
    (p : PlayerId) (token t : Token) (by_player : Map PlayerId (List Token)) (o : Option Entry)
    → lookup p by_player ≡ none
    → Owner by_player t o
    → Owner (push_token p token by_player) t o
Owner-pushed p token t by_player none h owner = tt
Owner-pushed p token t by_player (some e) h owner =
    ground (arith, push_token-index p e.player_id token by_player h, nat_beq_iff p e.player_id)

contains-other :
    (t x : Token) (tokens : List Token)
    → tokens ≡ x ∷ []
    → contains tokens t ≡ false
    → t == x ≡ false
contains-other t x tokens one h = ground (arith, one, text_beq_iff t x, text_beq_iff x t)

IsOnly-inserted :
    (q : PlayerId) (token : Token) (e : Entry) (by_token : Map Token Entry)
    (o : Option (List Token))
    → Unlisted token o
    → IsOnly by_token q o
    → IsOnly (insert token e by_token) q o
IsOnly-inserted q token e by_token none u only = tt
IsOnly-inserted q token e by_token (some tokens) u (x, one, belongs) = (
  x,
  one,
  subst (Belongs q)
      (sym (
        lookup-insert token x e by_token
        ∙ ap (λ c. if c then some e else lookup x by_token) (contains-other token x tokens one u)))
      belongs,
)

-- The two inserts of `create`, into a store that holds nothing of the player.
issue-IsValid :
    (st : State) (p : PlayerId) (token : Token) (until : Instant)
    → IsValid st
    → lookup p st.by_player ≡ none
    → ((q : PlayerId) → Unlisted token (lookup q st.by_player))
    → IsValid (record {
      by_token = insert token (record { player_id = p; expires_at = until }) st.by_token;
      by_player = push_token p token st.by_player;
    })
unfolding IsValid Owns Lists
issue-IsValid st p token until v none_of fresh = (owns, lists)
  where
    e : Entry
    e = record { player_id = p; expires_at = until }

    after : State
    after = record {
      by_token = insert token e st.by_token;
      by_player = push_token p token st.by_player;
    }

    owns : (t : Token) → Owns after t
    owns t = elim (Bool-cases (token == t)) [
      | inl h ↦
          subst (Owner after.by_player t)
            (sym (
              lookup-insert token t e st.by_token
              ∙ ap (λ c. if c then some e else lookup t st.by_token) h))
            (ground (
              arith,
              push_token-index p p token st.by_player none_of,
              nat_beq_iff p p,
              (text_beq_iff token t).0 h,
            ))
      | inr h ↦
          subst (Owner after.by_player t)
            (sym (
              lookup-insert token t e st.by_token
              ∙ ap (λ c. if c then some e else lookup t st.by_token) h))
            (Owner-pushed p token t st.by_player (lookup t st.by_token) none_of (v.0 t))
    ]

    lists : (q : PlayerId) → Lists after q
    lists q = elim (Bool-cases (p == q)) [
      | inl h ↦
          subst (IsOnly after.by_token q)
            (sym (
              push_token-index p q token st.by_player none_of
              ∙ ap (λ c. if c then some (token ∷ []) else lookup q st.by_player) h))
            (
              token,
              refl,
              subst (Belongs q)
                  (sym (
                    lookup-insert token token e st.by_token
                    ∙ ap (λ c. if c then some e else lookup token st.by_token)
                        ((text_beq_iff token token).1 refl)))
                  ((nat_beq_iff p q).0 h),
            )
      | inr h ↦
          subst (IsOnly after.by_token q)
            (sym (
              push_token-index p q token st.by_player none_of
              ∙ ap (λ c. if c then some (token ∷ []) else lookup q st.by_player) h))
            (IsOnly-inserted q token e st.by_token (lookup q st.by_player) (fresh q) (v.1 q))
    ]

Unlisted-kept :
    (b : Bool) (t : Token) (o : Option (List Token))
    → Unlisted t o
    → Unlisted t (if b then none else o)
Unlisted-kept true t o u = tt
Unlisted-kept false t o u = u

create-too_long :
    (st : State) (p : PlayerId) (ttl : ℕ) (token : Token) (now latest : Instant)
    → ltb latest (now + ttl) ≡ true
    → (create st p ttl token now latest).1 ≡ st
unfolding create
create-too_long st p ttl token now latest h = ground (arith, h)

-- In a valid store the index and the tokens agree: the entry of a token stands in the index as its
-- player's only token, and the one token that the index has of a player is nobody else's. `create`,
-- with a token that the index does not name, and whether it succeeds or not, leaves a valid store.
pub create-IsValid :
    (st : State) (p : PlayerId) (ttl : ℕ) (token : Token) (now latest : Instant)
    → IsValid st
    → IsFresh st token
    → IsValid (create st p ttl token now latest).1
unfolding IsFresh
create-IsValid st p ttl token now latest v fresh = elim (Bool-cases (ltb latest (now + ttl))) [
  | inl h ↦ subst IsValid (sym (create-too_long st p ttl token now latest h)) v
  | inr h ↦ subst IsValid (sym (create-revoke_player st p ttl token now latest (ground arith))) (
      issue-IsValid (revoke_player st p) p token (now + ttl) (revoke_player-IsValid st p v)
        (revoke_player-index st p p
          ∙ ap (λ c. if c then none else lookup p st.by_player) ((nat_beq_iff p p).1 refl))
        (λ q.
          subst (Unlisted token) (sym (revoke_player-index st p q))
            (Unlisted-kept (p == q) token (lookup q st.by_player) (fresh q))))
]
