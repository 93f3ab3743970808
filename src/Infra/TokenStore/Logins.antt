-- ===== src/Infra/TokenStore/Logins.antt =====
-- crates/application/src/auth/login.rs over crates/infrastructure/src/cache/memory_token_store.rs: what a
-- login does to the sessions.
use longship_x.Prelude.{
  ℕ, ◌+◌, ◌≤◌, none, some, Result, ok, err, ltb, if◌then◌else◌, ◌==◌, ◌≡◌, ap, arith, inl, inr,
  Bool-cases,
}
use longship_x.Prelude.Text.{text_eq}
use longship_x.Domain.Error.{PlayerId, DateTime}
use longship_x.App.Error.{AppError}
use longship_x.App.Ports.{SessionTokenStore}
use longship_x.App.Login.{LoginCommand, LoginResult, LoginDependencies, execute}
use longship_x.App.Login.Tokens.{Issued, execute-Issued}
use longship_x.Infra.TokenStore.{Token, Instant, State, create, resolve, revoke_player}
use longship_x.Infra.TokenStore.Sessions.{IsValid, evict, create-resolve}

-- The store as the port that the use cases take, with the token it would draw and the clock's reading.
unfoldable pub port : Token → Instant → Instant → SessionTokenStore State
port token now latest = record {
  create = λ player ttl st. create st player ttl token now latest;
  resolve = λ t st. (ok (resolve st t now), st);
  revoke_player = λ player st. (ok tt, revoke_player st player);
}

create-ok :
    (st s' : State) (p : PlayerId) (ttl : ℕ) (token made : Token) (now latest : Instant)
    → create st p ttl token now latest ≡ (ok made, s')
    → (made ≡ token) × (now + ttl ≤ latest)
unfolding create
create-ok st s' p ttl token made now latest h = elim (Bool-cases (ltb latest (now + ttl))) [
  | inl b ↦ absurd (ground (arith, b, h))
  | inr b ↦ (ground (arith, b, h), ground (arith, b))
]

create-err :
    (st s' : State) (p : PlayerId) (ttl : ℕ) (token : Token) (now latest : Instant) (e : AppError)
    → create st p ttl token now latest ≡ (err e, s')
    → s' ≡ st
unfolding create
create-err st s' p ttl token now latest e h = elim (Bool-cases (ltb latest (now + ttl))) [
  | inl b ↦ ground (arith, b, h)
  | inr b ↦ absurd (ground (arith, b, h))
]

-- What a token resolves to once a login has ended.
unfoldable pub Resolves :
    {W : Type 0}
    → State
    → ℕ
    → Instant
    → Token
    → Instant
    → Result LoginResult AppError × (W × State)
    → Type 0
Resolves st ttl now t at (ok res, (w, s')) = resolve s' t at ≡ (
    if res.token == t
    then (if ltb at (now + ttl) then some res.player_id else none)
    else evict res.player_id (resolve st t at))
Resolves st ttl now t at (err e, (w, s')) = resolve s' t at ≡ resolve st t at

Issued-Resolves :
    {W : Type 0} (deps : LoginDependencies W State) (ttl : ℕ) (token : Token) (now latest : Instant)
    (st : State) (t : Token) (at : Instant) (out : Result LoginResult AppError × (W × State))
    → IsValid st
    → Issued (record deps { tokens = port token now latest }) ttl st out
    → Resolves st ttl now t at out
unfolding Issued Resolves port
Issued-Resolves deps ttl token now latest st t at (ok res, (w, s')) v h =
    let (made, fits) = create-ok st s' res.player_id ttl token res.token now latest h in
    ground (
      arith,
      made,
      ap (λ x. x.1) h,
      create-resolve st res.player_id ttl token now latest t at v fits,
    )
Issued-Resolves deps ttl token now latest st t at (err e, (w, s')) v (inl h) =
    ap (λ x. resolve x t at) h
Issued-Resolves deps ttl token now latest st t at (err e, (w, s')) v (inr (p, h)) =
    ap (λ x. resolve x t at) (create-err st s' p ttl token now latest e h)

-- After a login that succeeds, its token resolves to its player until it expires, the player's earlier
-- sessions are over, and nobody else's changes; a login that fails, for whatever reason, changes no
-- session.
pub login-Resolves :
    {W : Type 0} (deps : LoginDependencies W State) (ttl : ℕ) (token : Token) (now latest : Instant)
    (cmd : LoginCommand) (checked_at recorded_at : DateTime) (w : W) (st : State) (t : Token)
    (at : Instant)
    → IsValid st
    → Resolves st ttl now t at (
        execute
          (record deps { tokens = port token now latest })
          ttl
          cmd
          checked_at
          recorded_at
          (w, st))
login-Resolves deps ttl token now latest cmd checked_at recorded_at w st t at v =
    Issued-Resolves deps ttl token now latest st t at _ v (
      execute-Issued (record deps { tokens = port token now latest }) ttl cmd checked_at recorded_at
        w st)
