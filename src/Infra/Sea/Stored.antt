-- ===== src/Infra/Sea/Stored.antt =====
-- crates/infrastructure/src/persistence/repositories: what an answer of the repositories says of the
-- database.
use longship_x.Prelude.{
  ℕ, ◌≤◌, ◌≡◌, refl, ◌∙◌, ap, subst, Option, none, some, Result, ok, err, arith,
}
use longship_x.Prelude.Integer.{ℤ, pos}
use longship_x.Prelude.Text.{Text}
use longship_x.Domain.Error.{Uuid, PlayerId, RepoError}
use longship_x.Domain.Player.{Player, gain_exp}
use longship_x.Infra.Converters.{PlayerModel, i32_max, i64_max, player_to_domain}
use longship_x.Infra.Sea.{DbErr, Database, and_then, tried, asked}
use longship_x.Infra.Sea.Players
use longship_x.Infra.Sea.Players.{try_from, Grown, grow, gain_exp_of}

module _ {D : Type 0} where
  -- A sequence that succeeds has a first step that did.
  and_then-ok :
      {A B E : Type 0} (x : Result A E × D) (f : A → D → Result B E × D) (b : B) (d : D)
      → and_then x f ≡ (ok b, d)
      → (a : A) × (d' : D) × (x ≡ (ok a, d')) × (f a d' ≡ (ok b, d))
  and_then-ok (ok a, d') f b d h = (a, d', refl, h)
  and_then-ok (err e, d') f b d h = absurd (ground (arith, h))

  tried-ok :
      {A B E : Type 0} (x : Result A E) (d : D) (f : A → Result B E × D) (b : B) (d' : D)
      → tried x d f ≡ (ok b, d')
      → (a : A) × (x ≡ ok a) × (f a ≡ (ok b, d'))
  tried-ok (ok a) d f b d' h = (a, refl, h)
  tried-ok (err e) d f b d' h = absurd (ground (arith, h))

  asked-ok :
      {A : Type 0} (x : Result A DbErr × D) (a : A) (d : D) → asked x ≡ (ok a, d) → x ≡ (ok a, d)
  asked-ok (ok b, d') a d h = ground (arith, h)
  asked-ok (err e, d') a d h = absurd (ground (arith, h))

pair_of : {A B : Type 0} {x : A × B} {a : A} {b : B} → x.0 ≡ a → x.1 ≡ b → x ≡ (a, b)
pair_of p q = cc

try_from-ok :
    (shown : Text) (limit n : ℕ) (z : ℤ) → try_from shown limit n ≡ ok z → (n ≤ limit) × (z ≡ pos n)
try_from-ok shown limit n z h = ground (arith, h)

module _ {D : Type 0} (db : Database D) (show_uuid : Uuid → Text) (out_of_range : Text) where
  -- What a growth that is reported stands on.
  abbrev pub GrownFrom : PlayerId → ℕ → D → Player → Option ℕ → D → Type 0
  GrownFrom id amount d player new_level d' =
      (model : PlayerModel) × (before : Player) × (d1 d2 d3 : D) × (db.begin d ≡ (ok tt, d1))
      × (db.lock_player id d1 ≡ (ok (some model), d2))
      × (player_to_domain show_uuid model ≡ ok before)
      × (gain_exp before amount ≡ (player, new_level))
      × (player.level ≤ i32_max)
      × (player.exp ≤ i64_max)
      × (db.update_growth id (pos player.level) (pos player.exp) d2 ≡ (ok tt, d3))
      × (db.commit d3 ≡ (ok tt, d'))

  abbrev GrownRow : PlayerId → ℕ → PlayerModel → D → Player → Option ℕ → D → Type 0
  GrownRow id amount model d player new_level d' =
      (before : Player) × (d3 : D) × (player_to_domain show_uuid model ≡ ok before)
      × (gain_exp before amount ≡ (player, new_level))
      × (player.level ≤ i32_max)
      × (player.exp ≤ i64_max)
      × (db.update_growth id (pos player.level) (pos player.exp) d ≡ (ok tt, d3))
      × (db.commit d3 ≡ (ok tt, d'))

  grow-ok :
      (id : PlayerId) (amount : ℕ) (model : PlayerModel) (d d' : D) (player : Player)
      (new_level : Option ℕ)
      → grow db show_uuid out_of_range id amount model d ≡ (ok (some (player, new_level)), d')
      → GrownRow id amount model d player new_level d'
  unfolding grow
  grow-ok id amount model d d' player new_level h =
      let (before, read, h1) = tried-ok (player_to_domain show_uuid model) d _ _ d' h in
      let (after, levelled) = gain_exp before amount in
      let (level, lfits, h2) = tried-ok (try_from out_of_range i32_max after.level) d _ _ d' h1 in
      let (exp, efits, h3) = tried-ok (try_from out_of_range i64_max after.exp) d _ _ d' h2 in
      let (u, d3, updated, h4) = and_then-ok (asked (db.update_growth id level exp d)) _ _ d' h3 in
      let (v, d4, committed, h5) = and_then-ok (asked (db.commit d3)) _ _ d' h4 in
      let (small_level, level_is) = try_from-ok out_of_range i32_max after.level level lfits in
      let (small_exp, exp_is) = try_from-ok out_of_range i64_max after.exp exp efits in
      let same : (after ≡ player) × (levelled ≡ new_level) × (d4 ≡ d') = ground (arith, h5) in
      let (update, commit) : ((db.update_growth id level exp d ≡ (ok tt, d3))
          × (db.commit d3 ≡ (ok tt, d4))) =
        (
          asked-ok (db.update_growth id level exp d) u d3 updated,
          asked-ok (db.commit d3) v d4 committed,
        ) in
      let (same_player, same_level, same_d) = same in
      let level' : level ≡ pos player.level =
        level_is ∙ ap (λ (p : Player). pos p.level) same_player in
      let exp' : exp ≡ pos player.exp = exp_is ∙ ap (λ (p : Player). pos p.exp) same_player in
      (
        before,
        d3,
        read,
        pair_of same_player same_level,
        subst (λ (p : Player). p.level ≤ i32_max) same_player small_level,
        subst (λ (p : Player). p.exp ≤ i64_max) same_player small_exp,
        subst (λ z. db.update_growth id z (pos player.exp) d ≡ (ok tt, d3)) level'
            (subst (λ z. db.update_growth id level z d ≡ (ok tt, d3)) exp' (update)),
        subst (λ x. db.commit d3 ≡ (ok tt, x)) same_d (commit),
      )

  or_rollback-ok :
      (x : Result (Grown db show_uuid out_of_range) RepoError × D) (player : Player)
      (new_level : Option ℕ) (d : D)
      → Players.or_rollback db show_uuid out_of_range x ≡ (ok (some (player, new_level)), d)
      → x ≡ (ok (some (player, new_level)), d)
  or_rollback-ok (ok (some g), d') player new_level d h = h
  or_rollback-ok (ok none, d') player new_level d h = absurd (ground (arith, h))
  or_rollback-ok (err e, d') player new_level d h = absurd (ground (arith, h))

  -- A growth is reported only after it has been stored: the row was locked inside a transaction, the
  -- player in it grew as the domain says, its new level and experience fit their columns and have been
  -- written exactly as they are, none cut off, and the transaction has been committed.
  pub gain_exp_of-GrownFrom :
      (id : PlayerId) (amount : ℕ) (d : D) (player : Player) (new_level : Option ℕ) (d' : D)
      → gain_exp_of db show_uuid out_of_range id amount d ≡ (ok (some (player, new_level)), d')
      → GrownFrom id amount d player new_level d'
  unfolding gain_exp_of
  gain_exp_of-GrownFrom id amount d player new_level d' h =
      let (u, d1, begun, h1) = and_then-ok (asked (db.begin d)) _ _ d' h in
      let h2 = or_rollback-ok _ player new_level d' h1 in
      let (found, d2, locked, h3) = and_then-ok (asked (db.lock_player id d1)) _ _ d' h2 in
      with_row found d1 d2 (asked-ok (db.begin d) u d1 begun)
        (asked-ok (db.lock_player id d1) found d2 locked) h3
    where
      with_row :
          (found : Option PlayerModel) (d1 d2 : D)
          → db.begin d ≡ (ok tt, d1)
          → db.lock_player id d1 ≡ (ok found, d2)
          → (elim found as (λ o. Result (Grown db show_uuid out_of_range) RepoError × D) [
            | none ↦ (ok none, d2)
            | some model ↦ grow db show_uuid out_of_range id amount model d2
          ])
            ≡ (ok (some (player, new_level)), d')
          → GrownFrom id amount d player new_level d'
      with_row none d1 d2 begun locked h = absurd (ground (arith, h))
      with_row (some model) d1 d2 begun locked h =
          let (before, d3, read, grew, small_level, small_exp, updated, committed) =
            grow-ok id amount model d2 d' player new_level h in
          (
            model, before, d1, d2, d3, begun, locked, read, grew, small_level, small_exp, updated,
            committed,
          )
