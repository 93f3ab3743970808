-- ===== src/App/Progression/Published.antt =====
-- crates/application/src/player/progression.rs: what an error says of the gain.
use longship_x.Prelude.{
  ℕ, Bool, true, false, Option, none, some, Result, ok, err, fail_if, ok_or, map_err, nat_eq,
  nat_beq_iff, ◌==◌, ◌≡◌, refl, ◌⊎◌, inl, inr, subst, sym,
}
use longship_x.Prelude.Text.{Text, text}
use longship_x.Domain.Error.{PlayerId, DateTime, RepoError}
use longship_x.Domain.Player.{Player}
use longship_x.App.Error.{AppError, validation, not_found, post_commit, from_repo}
use longship_x.App.Ports.{
  after, ◌>>=◌, lift, repo, PlayerRepository, EventPublisher, player_leveled_up,
}
use longship_x.App.Progression.{PlayerProfile, profile_of, settle, announce, execute}

abbrev pub is_post_commit : AppError → Bool
is_post_commit (post_commit reason) = true
is_post_commit _ = false

module _ {W : Type 0} (players : PlayerRepository W) (events : EventPublisher W)
    (shown : AppError → Text) where
  -- What is behind an error. `PostCommit`: the repository has gained the experience, with a level that
  -- rose. Any other: there was nothing to gain, the repository knows no such player, or it failed; the
  -- world is as the repository left it, and the error says which.
  unfoldable pub Explained : PlayerId → ℕ → W → W → AppError → Bool → Type 0
  Explained id amount w w' e true =
      (player : Player) × (level : ℕ) × (between : W) × (players.gain_exp id amount w
        ≡ (ok (some (player, some level)), between))
  Explained id amount w w' e false =
      ((amount ≡ 0) × (w' ≡ w) × (e ≡ validation (text "经验值必须大于 0")))
      ⊎ (((players.gain_exp id amount w ≡ (ok none, w')) × (e ≡ not_found (text "玩家不存在")))
          ⊎ ((cause : RepoError) × (players.gain_exp id amount w ≡ (err cause, w'))
              × (e ≡ from_repo cause)))

  unfoldable pub Outcome : PlayerId → ℕ → W → Result PlayerProfile AppError × W → Type 0
  Outcome id amount w (ok profile, w') =
      (player : Player) × (level : Option ℕ) × (between : W) × (players.gain_exp id amount w
        ≡ (ok (some (player, level)), between))
      × (profile ≡ profile_of player)
  Outcome id amount w (err e, w') = Explained id amount w w' e (is_post_commit e)

  announced-Outcome :
      (id : PlayerId) (amount : ℕ) (w between : W) (player : Player) (level : ℕ)
      (x : Result (Unit {0}) AppError × W)
      → players.gain_exp id amount w ≡ (ok (some (player, some level)), between)
      → Outcome id amount w (
          after
            (λ _. lift (ok (profile_of player)))
            (map_err (λ e. post_commit (shown e)) x.0, x.1))
  unfolding Outcome Explained
  announced-Outcome id amount w between player level (ok u, v) h =
      (player, some level, between, h, refl)
  announced-Outcome id amount w between player level (err e, v) h = (player, level, between, h)

  settle-Outcome :
      (id : PlayerId) (amount : ℕ) (at : DateTime) (w between : W) (player : Player)
      (level : Option ℕ)
      → players.gain_exp id amount w ≡ (ok (some (player, level)), between)
      → Outcome id amount w (settle players events shown id at (player, level) between)
  unfolding Outcome settle announce
  settle-Outcome id amount at w between player none h = (player, none, between, h, refl)
  settle-Outcome id amount at w between player (some level) h =
      announced-Outcome id amount w between player level
        (events.publish (player_leveled_up id level at) between) h

  from_repo_lem : (e : RepoError) → is_post_commit (from_repo e) ≡ false
  unfolding from_repo
  from_repo_lem (RepoError.conflict reason) = refl
  from_repo_lem (RepoError.storage reason) = refl

  gained-Outcome :
      (id : PlayerId) (amount : ℕ) (at : DateTime) (w : W)
      (x : Result (Option (Player × Option ℕ)) RepoError × W)
      → players.gain_exp id amount w ≡ x
      → Outcome id amount w (
          after
            (λ found.
              lift (ok_or found (not_found (text "玩家不存在"))) >>= settle players events shown id at)
            (map_err from_repo x.0, x.1))
  unfolding Outcome Explained
  gained-Outcome id amount at w (ok none, v) h = inr (inl (h, refl))
  gained-Outcome id amount at w (ok (some (player, level)), v) h =
      settle-Outcome id amount at w v player level h
  gained-Outcome id amount at w (err e, v) h =
      subst (λ b. Explained id amount w v (from_repo e) b) (sym (from_repo_lem e))
        (inr (inr (e, h, refl)))

  -- A profile is that of the player that the repository answered after the gain. The error `PostCommit` is
  -- answered only when the repository has answered a gain with a level that rose. Every other error is
  -- the one of its cause: the amount was 0, which leaves the world as it was; the repository answered
  -- that there is no such player; or it answered an error. In the last two cases the world is
  -- as the repository left it.
  pub execute-Outcome :
      (id : PlayerId) (amount : ℕ) (at : DateTime) (w : W)
      → Outcome id amount w (execute players events shown id amount at w)
  unfolding execute Outcome Explained
  execute-Outcome id amount at w = by_amount (amount == 0) refl
    where
      by_amount :
          (b : Bool)
          → (amount == 0) ≡ b
          → Outcome id amount w (
              after
                (λ _. repo (players.gain_exp id amount) >>= λ found.
                  lift (ok_or found (not_found (text "玩家不存在")))
                  >>= settle players events shown id at)
                (fail_if b (validation (text "经验值必须大于 0")), w))
      by_amount true h = inl ((nat_beq_iff amount 0).0 h, refl, refl)
      by_amount false h = gained-Outcome id amount at w (players.gain_exp id amount w) refl
