-- ===== src/Infra/MemoryRepos/FirstLogin.antt =====
-- crates/application/src/auth/register.rs and login.rs over the repositories in memory: an account that
-- was registered can log in.
use longship_x.Prelude.{
  ℕ, true, Option, some, Result, ok, err, is_ok, is_some, fail_if, map_err, nat_eq, nat_beq_iff,
  ◌==◌, ◌≡◌, refl, sym, ap, ◌∙◌, subst, arith,
}
use longship_x.Prelude.Map.{lookup, values}
use longship_x.Prelude.Text.{Text, text, text_eq, text_beq_iff}
use longship_x.Domain.Error.{PlayerId, DateTime, DomainError}
use longship_x.Domain.Value.{try_new_username, try_new_nickname, try_new_password}
use longship_x.Domain.Account.{Account, active, register as new_account, allows_login}
use longship_x.Domain.Player.{Player, create, record_login}
use longship_x.App.Error.{AppError, from_domain, conflict}
use longship_x.App.Ports.{Action, after, lift, SessionTokenStore, PasswordHasher, AuditLogger}
use longship_x.App.Login
use longship_x.App.Login.{
  issue, answer, audit_login, LoginCommand, LoginDependencies, authenticate, load_account,
  ensure_login_allowed, load_player,
}
use longship_x.App.Register.{
  RegisterCommand, RegisterResult, RegisterUseCase, Drawn, execute, audit_success,
}
use longship_x.Infra.MemoryRepos.{Repos, find}
use longship_x.Infra.MemoryRepos.Accounts.{accounts, find_by_username}
use longship_x.Infra.MemoryRepos.Players.{players, find_by_account, find_by_id, log_in}
use longship_x.Infra.MemoryRepos.Registration.{registration, register}
use longship_x.Infra.MemoryRepos.Registered.{register-find}

-- What a hasher and a log promise: a password is accepted for the hash that was made of it, and neither
-- changes the repositories.
pub record Faithful (hasher : PasswordHasher Repos) (audit : AuditLogger Repos) : Type 0 where
  pub verify-hash :
      (password hash : Text) (w w' v : Repos)
      → hasher.hash password w ≡ (ok hash, w')
      → hasher.verify password hash v ≡ (ok true, v)
  pub hash_lem : (password : Text) (w : Repos) → (hasher.hash password w).1 ≡ w
  pub log_lem :
      (id : Option PlayerId) (action detail : Text) (w : Repos)
      → (audit.log id action detail w).1 ≡ w

after_into :
    {W A B : Type 0} {out : B} {w' : W} (f : A → Action W B) (x : Result A AppError × W)
    → after f x ≡ (ok out, w')
    → (a : A) × (w : W) × (x ≡ (ok a, w)) × (f a w ≡ (ok out, w'))
after_into f (ok a, w) h = (a, w, refl, h)
after_into f (err e, w) h = absurd (ground (arith, h))

lift_into :
    {W A B : Type 0} {out : B} {w' : W} (f : A → Action W B) (x : Result A AppError) (w : W)
    → after f (lift x w) ≡ (ok out, w')
    → (a : A) × (x ≡ ok a) × (f a w ≡ (ok out, w'))
lift_into f (ok a) w h = (a, refl, h)
lift_into f (err e) w h = absurd (ground (arith, h))

answer-same :
    (x result : RegisterResult)
    → Path (Result RegisterResult AppError) (ok x) (ok result)
    → (result.player_id ≡ x.player_id) × (result.nickname ≡ x.nickname)
answer-same x result h = ground (arith, h)

from_domain-ok :
    {A : Type 0} (x : Result A DomainError) (a : A) → map_err from_domain x ≡ ok a → x ≡ ok a
from_domain-ok (ok b) a h = ground (arith, h)
from_domain-ok (err e) a h = absurd (ground (arith, h))

try_new_password-same : (raw p : Text) → try_new_password raw ≡ ok p → p ≡ raw
unfolding try_new_password
try_new_password-same raw p h = ground (arith, h)

-- The three searches of a login in the repositories that a registration has left.
found :
    (account : Account) (player : Player) (r r' : Repos)
    → register account player r ≡ (ok tt, r')
    → player.account_id ≡ account.id
    → (find (λ (a : Account). a.username == account.username) (values r'.accounts) ≡ some account)
      × (find (λ (p : Player). p.account_id == account.id) (values r'.players) ≡ some player)
      × (lookup player.id r'.players ≡ some player)
unfolding find_by_username find_by_account find_by_id
found account player r r' h owner =
    let (a, b, c) =
      register-find account player r account.username account.id player.id
        (ap (λ x. is_ok x.0) h) in
    let named = (text_beq_iff account.username account.username).1 refl in
    let owned = (nat_beq_iff player.account_id account.id).1 owner in
    let itself = (nat_beq_iff player.id player.id).1 refl in
    ground (arith, h, a, b, c, named, owned, itself)

module _ (hasher : PasswordHasher Repos) (audit : AuditLogger Repos) where
  abbrev pub registering : RegisterUseCase Repos
  registering = record {
    accounts = accounts;
    registration = registration;
    hasher = hasher;
    audit = audit;
  }

  abbrev made_account : RegisterCommand → Drawn → Text → Text → Account
  made_account cmd drawn username hash =
      new_account drawn.account_id username hash drawn.registered_at

  abbrev made_player : Drawn → Text → Player
  made_player drawn nickname = create drawn.player_id drawn.account_id nickname drawn.created_at

  w_same :
      Faithful hasher audit
      → (p : Text) (r : Repos) (hash : Text) (w : Repos) → hasher.hash p r ≡ (ok hash, w)
      → w ≡ r
  w_same f p r hash w h = sym (ap (λ x. x.1) h) ∙ f.hash_lem p r

  -- What a successful registration did.
  record Registered (cmd : RegisterCommand) (drawn : Drawn) (result : RegisterResult) (r r' : Repos)
      : Type 0 where
    username : Text
    nickname : Text
    hash : Text
    name : try_new_username cmd.username ≡ ok username
    hashed : (w : Repos) × (hasher.hash cmd.password r ≡ (ok hash, w))
    stored :
        register (made_account cmd drawn username hash) (made_player drawn nickname) r ≡ (ok tt, r')
    answer : (result.player_id ≡ drawn.player_id) × (result.nickname ≡ nickname)

  execute-Registered :
      (cmd : RegisterCommand) (drawn : Drawn) (r r' : Repos) (result : RegisterResult)
      → Faithful hasher audit
      → execute registering cmd drawn r ≡ (ok result, r')
      → Registered cmd drawn result r r'
  unfolding execute audit_success find_by_username new_account create
  execute-Registered cmd drawn r r' result f h =
      let (u, eu, h1) = lift_into _ (map_err from_domain (try_new_username cmd.username)) r h in
      let (n, en, h2) = lift_into _ (map_err from_domain (try_new_nickname cmd.nickname)) r h1 in
      let (p, ep, h3) = lift_into _ (map_err from_domain (try_new_password cmd.password)) r h2 in
      let (free, ef, h4) =
        lift_into _
          (fail_if (is_some (find (λ (a : Account). a.username == u) (values r.accounts)))
            (conflict (text "用户名已被占用")))
          r h3 in
      let (hash, w2, eh, h5) = after_into _ (hasher.hash p r) h4 in
      let (stored, w3, er, h6) =
        after_into _ (register (made_account cmd drawn u hash) (made_player drawn n) w2) h5 in
      let same : w2 ≡ r = w_same f p r hash w2 eh in
      let logged : w3 ≡ r' = sym (f.log_lem _ _ _ w3) ∙ ap (λ x. x.1) h6 in
      record {
        username = u;
        nickname = n;
        hash = hash;
        name = from_domain-ok (try_new_username cmd.username) u eu;
        hashed = (
          w2,
          subst (λ x. hasher.hash x r ≡ (ok hash, w2))
              (try_new_password-same cmd.password p
                (from_domain-ok (try_new_password cmd.password) p ep))
              eh,
        );
        stored =
            subst
              (λ x. register (made_account cmd drawn u hash) (made_player drawn n) x ≡ (ok tt, r'))
              same
              (subst
                (λ x.
                  register (made_account cmd drawn u hash) (made_player drawn n) w2 ≡ (ok tt, x))
                logged er);
        answer = answer-same _ result (ap (λ x. x.0) h6);
      }

  abbrev pub logging_in : {S : Type 0} → SessionTokenStore S → LoginDependencies Repos S
  logging_in tokens = record {
    accounts = accounts;
    players = players;
    tokens = tokens;
    hasher = hasher;
    audit = audit;
  }

  module _ {S : Type 0} (tokens : SessionTokenStore S) (ttl : ℕ) where
    let_in :
        (cmd : LoginCommand) (checked_at recorded_at : DateTime) (r : Repos) (u : Text)
        (account : Account) (player stored : Player)
        → try_new_username cmd.username ≡ ok u
        → find (λ (a : Account). a.username == u) (values r.accounts) ≡ some account
        → account.status ≡ active
        → hasher.verify cmd.password account.password_hash r ≡ (ok true, r)
        → find (λ (p : Player). p.account_id == account.id) (values r.players) ≡ some player
        → lookup player.id r.players ≡ some stored
        → (authenticate (logging_in tokens) ttl cmd checked_at recorded_at r).0
          ≡ ok (record_login stored recorded_at)
    unfolding authenticate load_account ensure_login_allowed load_player find_by_username
        find_by_account log_in allows_login
    let_in cmd checked_at recorded_at r u account player stored e1 e2 e3 e4 e5 e6 =
        ground (arith, e1, e2, e3, e4, e5, e6)

    -- Whoever has registered can log in with the name and the password given then, also in another
    -- spelling of the name, at any time: if the token store makes a token, the login answers
    -- with it, and for the player and the nickname of the registration. (The password hasher accepts
    -- what it has hashed, and neither it nor the log changes the repositories.)
    pub execute-execute :
        (cmd : RegisterCommand) (drawn : Drawn) (r r' : Repos) (result : RegisterResult)
        (login : LoginCommand) (checked_at recorded_at : DateTime) (s s' : S) (token : Text)
        → Faithful hasher audit
        → execute registering cmd drawn r ≡ (ok result, r')
        → try_new_username login.username ≡ try_new_username cmd.username
        → login.password ≡ cmd.password
        → tokens.create result.player_id ttl s ≡ (ok token, s')
        → (Login.execute (logging_in tokens) ttl login checked_at recorded_at (r', s)).0
          ≡ ok (record {
            token = token;
            player_id = result.player_id;
            nickname = result.nickname;
            expires_in_secs = ttl;
          })
    unfolding Login.execute issue answer audit_login record_login create new_account
    execute-execute cmd drawn r r' result login checked_at recorded_at s s' token f h names same
          made =
        let g = execute-Registered cmd drawn r r' result f h in
        let account = made_account cmd drawn g.username g.hash in
        let player = made_player drawn g.nickname in
        let (by_name, by_account, by_id) = found account player r r' g.stored refl in
        let accepted : hasher.verify login.password g.hash r' ≡ (ok true, r') =
          rw same (f.verify-hash cmd.password g.hash r g.hashed.0 r' g.hashed.1) in
        let entered =
          let_in login checked_at recorded_at r' g.username account player player (names ∙ g.name)
            by_name refl accepted by_account by_id in
        ground (arith, entered, made, g.answer)
