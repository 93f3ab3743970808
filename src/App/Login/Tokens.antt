-- ===== src/App/Login/Tokens.antt =====
-- crates/application/src/auth/login.rs: who gets a token, and what a login does to the tokens there are.
use longship_x.Prelude.{
  ℕ, Bool, true, false, not, Option, none, some, Result, ok, err, fail_if, map_err, ok_or, is_ok,
  subst, ◌≡◌, refl, ◌⊎◌, inl, inr, arith,
}
use longship_x.Prelude.Text.{Text, text}
use longship_x.Domain.Error.{PlayerId, DateTime, RepoError, DomainError}
use longship_x.Domain.Value.{Username, try_new_username}
use longship_x.Domain.Account.{Account, allows_login}
use longship_x.Domain.Player.{Player}
use longship_x.App.Error.{AppError, from_domain, from_repo, unauthorized}
use longship_x.App.Ports.{after, after-ok, after-lift-ok, lift, AuditLogger}
use longship_x.App.Login.{
  LoginCommand, LoginResult, LoginDependencies, load_account, ensure_login_allowed, load_player,
  audit_login, authenticate, answer, issue, execute,
}

module _ {W S : Type 0} (deps : LoginDependencies W S) (token_ttl : ℕ) where
  -- The one call of the token store: it made the token of the answer, or the login failed without it or
  -- by it.
  unfoldable pub Issued : S → Result LoginResult AppError × (W × S) → Type 0
  Issued s (ok res, (w, s')) = deps.tokens.create res.player_id token_ttl s ≡ (ok res.token, s')
  Issued s (err e, (w, s')) =
      (s' ≡ s) ⊎ ((p : PlayerId) × (deps.tokens.create p token_ttl s ≡ (err e, s')))

  answer-Issued :
      (player : Player) (w : W) (s : S) (x : Result Text AppError × S)
      → deps.tokens.create player.id token_ttl s ≡ x
      → Issued s (after (answer deps token_ttl player) (x.0, (w, x.1)))
  unfolding Issued answer audit_login
  answer-Issued player w s (ok token, s') h = h
  answer-Issued player w s (err e, s') h = inr (player.id, h)

  issue-Issued : (player : Player) (w : W) (s : S) → Issued s (issue deps token_ttl player (w, s))
  unfolding issue
  issue-Issued player w s = answer-Issued player w s (deps.tokens.create player.id token_ttl s) refl

  granted-Issued :
      (s : S) (x : Result Player AppError × W)
      → Issued s (after (issue deps token_ttl) (x.0, (x.1, s)))
  unfolding Issued
  granted-Issued s (ok player, w) = issue-Issued player w s
  granted-Issued s (err e, w) = inl refl

  -- A login calls the token store at most once: it succeeds exactly with the token that this call made for
  -- the player it names; it fails either without the call, the tokens left as they were, or by it.
  pub execute-Issued :
      (cmd : LoginCommand) (checked_at recorded_at : DateTime) (w : W) (s : S)
      → Issued s (execute deps token_ttl cmd checked_at recorded_at (w, s))
  unfolding execute
  execute-Issued cmd checked_at recorded_at w s =
      granted-Issued s (authenticate deps token_ttl cmd checked_at recorded_at w)

  granted_ok :
      (s : S) (x : Result Player AppError × W)
      → is_ok (after (issue deps token_ttl) (x.0, (x.1, s))).0 ≡ true
      → is_ok x.0 ≡ true
  granted_ok s (ok player, w) h = refl
  granted_ok s (err e, w) h = absurd (ground (arith, h))

  -- The evidence behind a token: the account that the normalised name finds is allowed to log in, and the
  -- hasher accepted the password for its hash.
  unfoldable pub Verified : LoginCommand → DateTime → W → Type 0
  Verified cmd checked_at w =
      (username : Username) × (account : Account) × (w1 w2 : W) × (try_new_username cmd.username
        ≡ ok username)
      × (deps.accounts.find_by_username username w ≡ (ok (some account), w1))
      × (allows_login account.status checked_at ≡ true)
      × (deps.hasher.verify cmd.password account.password_hash w1 ≡ (ok true, w2))

  valid_name :
      (r : Result Username DomainError) (username : Username)
      → map_err from_domain r ≡ ok username
      → r ≡ ok username
  valid_name (ok u) username h = ground (arith, h)
  valid_name (err e) username h = absurd (ground (arith, h))

  found-account :
      (x : Result (Option Account) RepoError × W) (e : AppError) (account : Account) (w : W)
      → after (λ found. lift (ok_or found e)) (map_err from_repo x.0, x.1) ≡ (ok account, w)
      → x ≡ (ok (some account), w)
  found-account (ok none, v) e account w h = absurd (ground (arith, h))
  found-account (ok (some a), v) e account w h = ground (arith, h)
  found-account (err r, v) e account w h = absurd (ground (arith, h))

  fail_if-ok : (b : Bool) (e : AppError) (u : Unit {0}) → fail_if (not b) e ≡ ok u → b ≡ true
  fail_if-ok true e u h = refl
  fail_if-ok false e u h = absurd (ground (arith, h))

  authenticate-Verified :
      (cmd : LoginCommand) (checked_at recorded_at : DateTime) (w : W)
      → is_ok (authenticate deps token_ttl cmd checked_at recorded_at w).0 ≡ true
      → Verified cmd checked_at w
  unfolding authenticate Verified load_account ensure_login_allowed
  authenticate-Verified cmd checked_at recorded_at w h =
      let (username, valid, h0) =
        after-lift-ok _ (map_err from_domain (try_new_username cmd.username)) w h in
      let (account, w1, loaded, h1) = after-ok _ (load_account deps token_ttl username w) h0 in
      let (u, allowed, h2) =
        after-lift-ok _ (ensure_login_allowed deps token_ttl account checked_at) w1 h1 in
      let (matches, w2, verified, h3) =
        after-ok _ (deps.hasher.verify cmd.password account.password_hash w1) h2 in
      let (v, matched, h4) =
        after-lift-ok _ (fail_if (not matches) (unauthorized (text "用户名或密码错误"))) w2 h3 in
      (
        username,
        account,
        w1,
        w2,
        valid_name (try_new_username cmd.username) username valid,
        found-account (deps.accounts.find_by_username username w) _ account w1 loaded,
        fail_if-ok (allows_login account.status checked_at) _ u allowed,
        subst (λ b. deps.hasher.verify cmd.password account.password_hash w1 ≡ (ok b, w2))
            (fail_if-ok matches _ v matched) verified,
      )

  -- Nobody gets a token without a name that is valid and found, an account that may log in at the instant of
  -- the check, and a password that the hasher accepts for that account's hash.
  pub execute-Verified :
      (cmd : LoginCommand) (checked_at recorded_at : DateTime) (w : W) (s : S)
      → is_ok (execute deps token_ttl cmd checked_at recorded_at (w, s)).0 ≡ true
      → Verified cmd checked_at w
  unfolding execute
  execute-Verified cmd checked_at recorded_at w s h =
      authenticate-Verified cmd checked_at recorded_at w
        (granted_ok s (authenticate deps token_ttl cmd checked_at recorded_at w) h)

  module _ (other : AuditLogger W) where
    abbrev logged_elsewhere : LoginDependencies W S
    logged_elsewhere = record deps { audit = other }

    answer_lem :
        (player : Player) (w : W) (x : Result Text AppError × S)
        → (after (answer logged_elsewhere token_ttl player) (x.0, (w, x.1))).0
          ≡ (after (answer deps token_ttl player) (x.0, (w, x.1))).0
    unfolding answer audit_login
    answer_lem player w (ok token, s) = refl
    answer_lem player w (err e, s) = refl

    granted_lem :
        (s : S) (x : Result Player AppError × W)
        → (after (issue logged_elsewhere token_ttl) (x.0, (x.1, s))).0
          ≡ (after (issue deps token_ttl) (x.0, (x.1, s))).0
    unfolding issue
    granted_lem s (ok player, w) = answer_lem player w (deps.tokens.create player.id token_ttl s)
    granted_lem s (err e, w) = refl

    -- The audit log does not decide a login: whatever another log answers, the result is the same.
    pub execute-logged_elsewhere :
        (cmd : LoginCommand) (checked_at recorded_at : DateTime) (w : W) (s : S)
        → (execute (record deps { audit = other }) token_ttl cmd checked_at recorded_at (w, s)).0
          ≡ (execute deps token_ttl cmd checked_at recorded_at (w, s)).0
    unfolding execute authenticate load_account load_player ensure_login_allowed
    execute-logged_elsewhere cmd checked_at recorded_at w s =
        granted_lem s (authenticate deps token_ttl cmd checked_at recorded_at w)
