-- ===== src/Infra/TokenStore/Sessions.antt =====
-- crates/infrastructure/src/cache/memory_token_store.rs: one session token per player. The index by
-- player and the tokens agree, and `create` and `revoke_player` turn the player's old token out.
use longship_x.Prelude.{
  ℕ, ◌+◌, ◌≤◌, true, false, Option, none, some, Option-cases, Bool-cases, List, [], ◌∷◌, contains,
  ltb, if◌then◌else◌, nat_eq, nat_beq_iff, ◌==◌, ◌≡◌, refl, ap, subst, arith, inl, inr,
}
use longship_x.Prelude.Map.{Map, lookup, insert, remove, lookup-insert, lookup-remove}
use longship_x.Prelude.Text.{text_eq, text_beq_iff}
use longship_x.Domain.Error.{PlayerId}
use longship_x.Infra.TokenStore.{
  Token, Instant, Entry, State, remove_tokens, push_token, create, revoke_player, resolve,
}

pub lookup-remove_tokens :
    (olds : List Token) (m : Map Token Entry) (t : Token)
    → lookup t (remove_tokens olds m) ≡ (if contains olds t then none else lookup t m)
unfolding remove_tokens
lookup-remove_tokens [] m t = refl
lookup-remove_tokens (old ∷ rest) m t =
    ground (arith, lookup-remove_tokens rest (remove old m) t, lookup-remove old t m)

-- The entry of a token stands in the index as its player's only token.
abbrev pub Owner : Map PlayerId (List Token) → Token → Option Entry → Type 0
Owner by_player t none = Unit {0}
Owner by_player t (some e) = lookup e.player_id by_player ≡ some (t ∷ [])

unfoldable pub Owns : State → Token → Type 0
Owns st t = Owner st.by_player t (lookup t st.by_token)

-- A player's list in the index is one token, which is the player's while it is in the store.
abbrev pub Belongs : PlayerId → Option Entry → Type 0
Belongs p none = Unit {0}
Belongs p (some e) = e.player_id ≡ p

abbrev pub IsOnly : Map Token Entry → PlayerId → Option (List Token) → Type 0
IsOnly by_token p none = Unit {0}
IsOnly by_token p (some tokens) = (t : Token) × (tokens ≡ t ∷ []) × Belongs p (lookup t by_token)

unfoldable pub Lists : State → PlayerId → Type 0
Lists st p = IsOnly st.by_token p (lookup p st.by_player)

unfoldable pub IsValid : State → Type 0
IsValid st = ((t : Token) → Owns st t) × ((p : PlayerId) → Lists st p)

abbrev pub Unlisted : Token → Option (List Token) → Type 0
Unlisted t none = Unit {0}
Unlisted t (some tokens) = contains tokens t ≡ false

-- The index does not name the token.
unfoldable pub IsFresh : State → Token → Type 0
IsFresh st t = (p : PlayerId) → Unlisted t (lookup p st.by_player)

-- A token's entry, and a token's answer, once the tokens of a player are out.
abbrev pub kept_for_others : PlayerId → Option Entry → Option Entry
kept_for_others p none = none
kept_for_others p (some e) = if e.player_id == p then none else some e

unfoldable pub evict : PlayerId → Option PlayerId → Option PlayerId
evict p none = none
evict p (some q) = if q == p then none else some q

pub Owns-entry :
    (st : State) (t : Token) (e : Entry)
    → Owns st t
    → lookup t st.by_token ≡ some e
    → lookup e.player_id st.by_player ≡ some (t ∷ [])
unfolding Owns
Owns-entry st t e o h = subst (Owner st.by_player t) h o

contains-one :
    (tokens : List Token) (x t : Token) → tokens ≡ x ∷ [] → contains tokens t ≡ true → x ≡ t
contains-one tokens x t one h = (text_beq_iff x t).0 (ground (arith, one, h))

Lists-Belongs :
    (st : State) (p : PlayerId) (tokens : List Token) (t : Token)
    → Lists st p
    → lookup p st.by_player ≡ some tokens
    → contains tokens t ≡ true
    → Belongs p (lookup t st.by_token)
unfolding Lists
Lists-Belongs st p tokens t l hp h =
    let (x, one, belongs) = subst (IsOnly st.by_token p) hp l in
    subst (λ y. Belongs p (lookup y st.by_token)) (contains-one tokens x t one h) belongs

pub Lists-contains :
    (st : State) (p : PlayerId) (tokens : List Token) (t : Token) (e : Entry)
    → Owns st t
    → Lists st p
    → lookup p st.by_player ≡ some tokens
    → lookup t st.by_token ≡ some e
    → contains tokens t ≡ (e.player_id == p)
Lists-contains st p tokens t e o l hp ht = elim (Bool-cases (contains tokens t)) [
  | inl h ↦ ground (arith, Lists-Belongs st p tokens t l hp h)
  | inr h ↦ elim (Bool-cases (e.player_id == p)) [
    | inl q ↦ ground (arith, Owns-entry st t e o ht, (text_beq_iff t t).1 refl)
    | inr q ↦ ground arith
  ]
]

-- Once a player is revoked no token resolves to the player, whatever the instant, and every other
-- token resolves as before.
pub revoke_player-resolve :
    (st : State) (p : PlayerId) (t : Token) (at : Instant)
    → IsValid st
    → resolve (revoke_player st p) t at ≡ evict p (resolve st t at)
unfolding revoke_player resolve evict IsValid
revoke_player-resolve st p t at (owns, lists) = elim (Option-cases (lookup t st.by_token)) [
  | inl ht ↦ elim (Option-cases (lookup p st.by_player)) [
    | inl hp ↦ ground arith
    | inr (tokens, hp) ↦ ground (arith, lookup-remove_tokens tokens st.by_token t)
  ]
  | inr (e, ht) ↦ elim (Option-cases (lookup p st.by_player)) [
    | inl hp ↦ ground (arith, Owns-entry st t e (owns t) ht, nat_beq_iff e.player_id p)
    | inr (tokens, hp) ↦ ground (
      arith,
      lookup-remove_tokens tokens st.by_token t,
      Lists-contains st p tokens t e (owns t) (lists p) hp ht,
    )
  ]
]

pub create-revoke_player :
    (st : State) (p : PlayerId) (ttl : ℕ) (token : Token) (now latest : Instant)
    → now + ttl ≤ latest
    → (create st p ttl token now latest).1 ≡ record {
      by_token =
          insert token
            (record { player_id = p; expires_at = now + ttl })
            (revoke_player st p).by_token;
      by_player = push_token p token (revoke_player st p).by_player;
    }
unfolding create revoke_player
create-revoke_player st p ttl token now latest h = ground (arith, h)

-- A token that is created for a player resolves to the player before the instant it expires and to
-- nothing from then on; the player's earlier tokens resolve to nothing any more; every other token
-- resolves as before.
pub create-resolve :
    (st : State) (p : PlayerId) (ttl : ℕ) (token : Token) (now latest : Instant) (t : Token)
    (at : Instant)
    → IsValid st
    → now + ttl ≤ latest
    → resolve (create st p ttl token now latest).1 t at ≡ (
        if token == t
        then (if ltb at (now + ttl) then some p else none)
        else evict p (resolve st t at))
unfolding resolve
create-resolve st p ttl token now latest t at v h = ground (
  arith,
  lookup-insert token t (record { player_id = p; expires_at = now + ttl })
      (revoke_player st p).by_token,
  revoke_player-resolve st p t at v,
  ap (λ s. s.by_token) (create-revoke_player st p ttl token now latest h),
)
