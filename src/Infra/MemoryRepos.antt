-- ===== src/Infra/MemoryRepos.antt =====
-- crates/infrastructure/src/persistence/repositories/memory_repos.rs: the repositories in memory. One
-- world holds the accounts and the players; a lock makes each method one step.
pub mod Accounts
pub mod Players
pub mod Registration
pub mod Registered
pub mod FirstLogin
mod Tests
use longship_x.Prelude.{Bool, Option, none, some, List, [], ◌∷◌, if◌then◌else◌}
use longship_x.Prelude.Map.{Map}
use longship_x.Domain.Error.{PlayerId, AccountId}
use longship_x.Domain.Account.{Account}
use longship_x.Domain.Player.{Player}

pub record Repos : Type 0 where
  pub accounts : Map AccountId Account
  pub players : Map PlayerId Player

-- `Iterator::find`.
abbrev pub find {ℓ} : {A : Type ℓ} → (A → Bool) → List A → Option A
find p [] = none
find p (x ∷ xs) = if p x then some x else find p xs
