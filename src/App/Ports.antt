-- ===== src/App/Ports.antt =====
-- crates/application/src/ports.rs and the repository traits of crates/domain: what the use cases ask of
-- the infrastructure, each call taking the world that it acts on and returning the next.
use longship_x.Prelude.{ℕ, Bool, true, Option, Result, ok, err, is_ok, map_err, ◌≡◌, refl, arith}
use longship_x.Prelude.Text.{Text}
use longship_x.Domain.Error.{PlayerId, AccountId, RoomId, DateTime, RepoError}
use longship_x.Domain.Account.{Account}
use longship_x.Domain.Player.{Player}
use longship_x.App.Error.{AppError, from_repo}

-- A fallible step on a world; an error keeps what the steps before it did.
abbrev pub Action : Type 0 → Type 0 → Type 0
Action W A = W → Result A AppError × W

module _ {W : Type 0} where
  abbrev pub after :
      {A B : Type 0} → (A → Action W B) → Result A AppError × W → Result B AppError × W
  after f (ok a, w) = f a w
  after f (err e, w) = (err e, w)

  infixl 5 ◌>>=◌ ◌>>◌
  abbrev pub ◌>>=◌ : {A B : Type 0} → Action W A → (A → Action W B) → Action W B
  (m >>= f) w = after f (m w)

  abbrev pub ◌>>◌ : {A B : Type 0} → Action W A → Action W B → Action W B
  m >> k = m >>= λ _. k

  -- A result that touches nothing, and `?` on it.
  abbrev pub lift : {A : Type 0} → Result A AppError → Action W A
  lift r w = (r, w)

  -- `?` on a repository's answer.
  abbrev pub repo : {A : Type 0} → (W → Result A RepoError × W) → Action W A
  repo m w = let (r, w') = m w in (map_err from_repo r, w')

  -- A sequence that succeeds has a first step that did.
  pub after-ok :
      {A B : Type 0} (f : A → Action W B) (x : Result A AppError × W)
      → is_ok (after f x).0 ≡ true
      → (a : A) × (w : W) × (x ≡ (ok a, w)) × (is_ok (f a w).0 ≡ true)
  after-ok f (ok a, w) h = (a, w, refl, h)
  after-ok f (err e, w) h = absurd (ground (arith, h))

  pub after-lift-ok :
      {A B : Type 0} (f : A → Action W B) (r : Result A AppError) (w : W)
      → is_ok (after f (lift r w)).0 ≡ true
      → (a : A) × (r ≡ ok a) × (is_ok (f a w).0 ≡ true)
  after-lift-ok f (ok a) w h = (a, refl, h)
  after-lift-ok f (err e) w h = absurd (ground (arith, h))

pub record AccountRepository (W : Type 0) : Type 0 where
  pub find_by_id : AccountId → W → Result (Option Account) RepoError × W
  pub find_by_username : Text → W → Result (Option Account) RepoError × W
  pub save : Account → W → Result (Unit {0}) RepoError × W

pub record PlayerRepository (W : Type 0) : Type 0 where
  pub find_by_id : PlayerId → W → Result (Option Player) RepoError × W
  pub find_by_account : AccountId → W → Result (Option Player) RepoError × W
  pub save : Player → W → Result (Unit {0}) RepoError × W
  pub gain_exp : PlayerId → ℕ → W → Result (Option (Player × Option ℕ)) RepoError × W
  pub record_login : PlayerId → DateTime → W → Result (Option Player) RepoError × W

pub record RegistrationStore (W : Type 0) : Type 0 where
  pub register : Account → Player → Action W (Unit {0})

pub record SessionTokenStore (W : Type 0) : Type 0 where
  pub create : PlayerId → ℕ → Action W Text
  pub resolve : Text → Action W (Option PlayerId)
  pub revoke_player : PlayerId → Action W (Unit {0})

pub record PasswordHasher (W : Type 0) : Type 0 where
  pub hash : Text → Action W Text
  pub verify : Text → Text → Action W Bool

pub record AuditLogger (W : Type 0) : Type 0 where
  pub log : Option PlayerId → Text → Text → Action W (Unit {0})

pub data DomainEvent : Type 0 where
  player_leveled_up : PlayerId → ℕ → DateTime → DomainEvent
  player_joined_room : RoomId → PlayerId → DateTime → DomainEvent
  player_left_room : RoomId → PlayerId → Text → DateTime → DomainEvent
  room_closed : RoomId → Text → DateTime → DomainEvent

pub record EventPublisher (W : Type 0) : Type 0 where
  pub publish : DomainEvent → Action W (Unit {0})
