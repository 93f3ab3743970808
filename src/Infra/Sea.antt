-- ===== src/Infra/Sea.antt =====
-- crates/infrastructure/src/persistence/repositories: the repositories on PostgreSQL. SeaORM and the
-- database are parameters: each query acts on the database and answers. A transaction that is dropped
-- without a commit is rolled back.
pub mod Players
pub mod Stored
mod Tests
use longship_x.Prelude.{
  ℕ, Bool, true, false, Option, none, some, is_some, Result, ok, err, map_err, List, [], ◌∷◌, leb,
  if◌then◌else◌,
}
use longship_x.Prelude.Integer.{ℤ, pos}
use longship_x.Prelude.Text.{Text, text}
use longship_x.Domain.Error.{Uuid, AccountId, DateTime, RepoError}
use longship_x.Domain.Account.{Account}
use longship_x.Domain.Player.{Player}
use longship_x.App.Error.{AppError}
use longship_x.Infra.Converters.{
  AccountModel, PlayerModel, account_to_domain, account_to_active, player_to_active,
}

-- `DbErr`: its text, and whether it tells of a unique constraint.
pub record DbErr : Type 0 where
  pub shown : Text
  pub unique : Bool

pub record Database (D : Type 0) : Type 0 where
  pub begin : D → Result (Unit {0}) DbErr × D
  pub commit : D → Result (Unit {0}) DbErr × D
  pub rollback : D → D
  pub find_account : AccountId → D → Result (Option AccountModel) DbErr × D
  pub find_username : Text → D → Result (Option AccountModel) DbErr × D
  pub insert_account : AccountModel → D → Result (Unit {0}) DbErr × D
  pub update_account : AccountModel → D → Result (Unit {0}) DbErr × D
  pub find_player : Uuid → D → Result (Option PlayerModel) DbErr × D
  pub lock_player : Uuid → D → Result (Option PlayerModel) DbErr × D
  pub find_player_of : AccountId → D → Result (Option PlayerModel) DbErr × D
  pub insert_player : PlayerModel → D → Result (Unit {0}) DbErr × D
  pub update_player : PlayerModel → D → Result (Unit {0}) DbErr × D
  pub update_growth : Uuid → ℤ → ℤ → D → Result (Unit {0}) DbErr × D
  pub update_login : Uuid → DateTime → D → Result (List PlayerModel) DbErr × D

-- `map(…).transpose()`.
abbrev pub transposed :
    {M A : Type 0} → (M → Result A RepoError) → Option M → Result (Option A) RepoError
transposed f none = ok none
transposed f (some model) = elim (f model) [ ok a ↦ ok (some a) | err e ↦ err e ]

module _ {D : Type 0} where
  -- `?` on a step that acts on the database.
  abbrev pub and_then {ℓ η κ} :
      {A : Type ℓ} {B : Type η} {E : Type κ}
      → Result A E × D
      → (A → D → Result B E × D)
      → Result B E × D
  and_then (ok a, d) f = f a d
  and_then (err e, d) f = (err e, d)

  -- `?` on a value.
  abbrev pub tried {ℓ η κ} :
      {A : Type ℓ} {B : Type η} {E : Type κ}
      → Result A E
      → D
      → (A → Result B E × D)
      → Result B E × D
  tried (ok a) d f = f a
  tried (err e) d f = (err e, d)

  -- A query's answer, with its error told as a storage error.
  abbrev pub asked {ℓ} : {A : Type ℓ} → Result A DbErr × D → Result A RepoError × D
  asked (r, d) = (map_err (λ e. RepoError.storage e.shown) r, d)

  module _ (db : Database D) (show_uuid : Uuid → Text) where
    unfoldable pub find_by_id : AccountId → D → Result (Option Account) RepoError × D
    unfolding account_to_domain
    find_by_id id d =
        and_then (asked (db.find_account id d))
          (λ found d'. (transposed (account_to_domain show_uuid) found, d'))

    unfoldable pub find_by_username : Text → D → Result (Option Account) RepoError × D
    unfolding account_to_domain
    find_by_username username d =
        and_then (asked (db.find_username username d))
          (λ found d'. (transposed (account_to_domain show_uuid) found, d'))

    unfoldable pub save : Account → D → Result (Unit {0}) RepoError × D
    unfolding account_to_active
    save account d = and_then (asked (db.find_account account.id d)) (λ found d'.
        if is_some found
        then asked (db.update_account (account_to_active account) d')
        else asked (db.insert_account (account_to_active account) d'))

    -- `map_error` of registration_store.rs.
    abbrev pub map_error : DbErr → AppError
    map_error e = if e.unique then AppError.conflict (text "注册数据已存在") else AppError.storage e.shown

    abbrev pub app : Result (Unit {0}) DbErr × D → Result (Unit {0}) AppError × D
    app (r, d) = (map_err map_error r, d)

    -- A transaction that has not been committed when its handle is dropped.
    abbrev pub or_rollback : Result (Unit {0}) AppError × D → Result (Unit {0}) AppError × D
    or_rollback (ok u, d) = (ok u, d)
    or_rollback (err e, d) = (err e, db.rollback d)

    unfoldable pub register : Account → Player → D → Result (Unit {0}) AppError × D
    unfolding account_to_active player_to_active
    register account player d = and_then (app (db.begin d)) (λ u d1. or_rollback (
        and_then (app (db.insert_account (account_to_active account) d1)) (λ u d2.
          and_then (app (db.insert_player (player_to_active player) d2))
            (λ u d3. app (db.commit d3)))))
