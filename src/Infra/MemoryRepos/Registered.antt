-- ===== src/Infra/MemoryRepos/Registered.antt =====
-- crates/infrastructure/src/persistence/repositories/memory_repos.rs: what a registration adds, and what
-- it keeps apart.
use longship_x.Prelude.{
  ℕ, Bool, true, false, none, some, ok, is_ok, is_some, List, [], ◌∷◌, any, if◌then◌else◌, nat_eq,
  ◌==◌, ◌≡◌, refl, arith, Bool-cases, Option-cases, PartialEq, subst, inl, inr,
}
use longship_x.Prelude.Map.{Map, lookup, insert, values, lookup-insert}
use longship_x.Prelude.Text.{Text, text_eq}
use longship_x.Domain.Error.{PlayerId, AccountId}
use longship_x.Domain.Account.{Account}
use longship_x.Domain.Player.{Player}
use longship_x.Infra.MemoryRepos.{Repos, find}
use longship_x.Infra.MemoryRepos.Accounts.{find_by_username}
use longship_x.Infra.MemoryRepos.Players.{find_by_account, find_by_id}
use longship_x.Infra.MemoryRepos.Registration.{register}

module _ {V : Type 0} where
  -- What a search finds once an entry with a new key has come.
  find-insert :
      (p : V → Bool) (k : ℕ) (v : V) (m : Map ℕ V)
      → is_some (lookup k m) ≡ false
      → find p (values (insert k v m))
        ≡ (elim (find p (values m)) [ none ↦ if p v then some v else none | some x ↦ some x ])
  find-insert p k v [] h = refl
  find-insert p k v ((j, w) ∷ m) h = ground (arith, find-insert p k v m)

  find-any : (p : V → Bool) (xs : List V) → any p xs ≡ false → find p xs ≡ none
  find-any p [] h = refl
  find-any p (x ∷ xs) h = ground (arith, find-any p xs)

-- Where no entry has the new entry's field, the field finds the new entry, and every other what it found.
find-field :
    {V K : Type 0} ⦃e : PartialEq K⦄ (field : V → K) (k : ℕ) (v : V) (m : Map ℕ V) (n : K)
    → is_some (lookup k m) ≡ false
    → any (λ s. field s == field v) (values m) ≡ false
    → find (λ s. field s == n) (values (insert k v m))
      ≡ (if field v == n then some v else find (λ s. field s == n) (values m))
find-field ⦃e⦄ field k v m n h none_of = elim (Bool-cases (field v == n)) [
  | inl b ↦ ground (
    arith,
    b,
    find-insert (λ s. field s == n) k v m h,
    subst (λ j. find (λ s. field s == j) (values m) ≡ none) ((e.same_iff (field v) n).0 b)
        (find-any (λ s. field s == field v) (values m) none_of),
  )
  | inr b ↦ elim (Option-cases (find (λ s. field s == n) (values m))) [
    | inl o ↦ ground (arith, b, o, find-insert (λ s. field s == n) k v m h)
    | inr (x, o) ↦ ground (arith, b, o, find-insert (λ s. field s == n) k v m h)
  ]
]

-- The four tests that a successful registration passed.
register-tests :
    (account : Account) (player : Player) (r : Repos)
    → is_ok (register account player r).0 ≡ true
    → (is_some (lookup account.id r.accounts) ≡ false)
      × (any (λ (stored : Account). stored.username == account.username) (values r.accounts)
          ≡ false)
      × (is_some (lookup player.id r.players) ≡ false)
      × (any (λ (stored : Player). stored.account_id == player.account_id) (values r.players)
          ≡ false)
      × ((register account player r).1 ≡ record {
        accounts = insert account.id account r.accounts;
        players = insert player.id player r.players;
      })
unfolding register
register-tests account player r h =
    (ground (arith, h), ground (arith, h), ground (arith, h), ground (arith, h), ground (arith, h))

-- After a successful registration the account's name finds the account, the account its player, and the
-- player's identifier the player; every other search finds what it found before.
pub register-find :
    (account : Account) (player : Player) (r : Repos) (name : Text) (owner : AccountId)
    (id : PlayerId)
    → is_ok (register account player r).0 ≡ true
    → ((find_by_username name (register account player r).1).0
        ≡ (if account.username == name then ok (some account) else (find_by_username name r).0))
      × ((find_by_account owner (register account player r).1).0
          ≡ (if player.account_id == owner then ok (some player) else (find_by_account owner r).0))
      × ((find_by_id id (register account player r).1).0
          ≡ (if player.id == id then ok (some player) else (find_by_id id r).0))
unfolding find_by_username find_by_account find_by_id
register-find account player r name owner id h =
    let (a, b, c, d, made) = register-tests account player r h in
    (
      ground (
        arith,
        made,
        find-field (λ (x : Account). x.username) account.id account r.accounts name a b,
      ),
      ground (
        arith,
        made,
        find-field (λ (x : Player). x.account_id) player.id player r.players owner c d,
      ),
      ground (arith, made, lookup-insert player.id id player r.players),
    )
