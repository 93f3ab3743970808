-- ===== src/Gateway/Http/Answers.antt =====
-- crates/gateway/src/http: who gets a profile.
use longship_x.Prelude.{
  ℕ, ◌≡◌, refl, ap, subst, inl, inr, Option, none, some, Result, ok, err, ok_or, [], ◌∷◌, ◌++◌,
  nat_eq, nat_beq_iff, arith, Option-cases,
}
use longship_x.Prelude.Text.{Text, text, text_eq, trim}
use longship_x.Domain.Error.{PlayerId}
use longship_x.App.Error.{AppError}
use longship_x.App.Ports.{SessionTokenStore, PlayerRepository}
use longship_x.App.Progression.{PlayerProfile, get_profile}
use longship_x.Gateway.Http.{
  ApiError, strip_prefix, profile, answer, resolved, looked_up, described, authorize, me_route,
}

strip_prefix-append :
    (prefix s rest : Text) → strip_prefix prefix s ≡ some rest → s ≡ prefix ++ rest
strip_prefix-append [] s rest h = ground (arith, h)
strip_prefix-append (c ∷ cs) [] rest h = absurd (ground (arith, h))
strip_prefix-append (c ∷ cs) (d ∷ s) rest h =
    ground (arith, strip_prefix-append cs s rest, nat_beq_iff c d, h)

module _ {W : Type 0} (tokens : SessionTokenStore W) (players : PlayerRepository W) where
  -- The evidence behind an answer with a profile.
  abbrev pub Authorized : Option Text → W → PlayerProfile → Type 0
  Authorized header w p =
      (token : Text) × (player : PlayerId) × (w' : W) × (header ≡ some (text "Bearer " ++ token))
      × (tokens.resolve (trim token) w ≡ (ok (some player), w'))
      × ((get_profile players player w').0 ≡ ok p)

  answer-ok :
      (out : Result PlayerProfile AppError) (status : ℕ) (p : PlayerProfile)
      → answer 200 profile out ≡ ok (status, profile p)
      → (status ≡ 200) × (out ≡ ok p)
  answer-ok (ok q) status p h = ground (arith, h)
  answer-ok (err e) status p h = absurd (ground (arith, h))

  described-ok :
      (x : Result PlayerId ApiError × W) (status : ℕ) (p : PlayerProfile)
      → (described players x).0 ≡ ok (status, profile p)
      → (status ≡ 200)
        × ((player : PlayerId) × (w' : W) × (x ≡ (ok player, w'))
            × ((get_profile players player w').0 ≡ ok p))
  described-ok (err e, w) status p h = absurd (ground (arith, h))
  described-ok (ok player, w) status p h =
      let (status_ok, found) = answer-ok (get_profile players player w).0 status p h in
      (status_ok, (player, w, refl, found))

  resolved-ok :
      (x : Result (Option PlayerId) AppError × W) (player : PlayerId) (w' : W)
      → resolved x.0 ≡ ok player
      → x.1 ≡ w'
      → x ≡ (ok (some player), w')
  resolved-ok (ok (some q), w) player w' h e = ground (arith, h, e)
  resolved-ok (ok none, w) player w' h e = absurd (ground (arith, h))
  resolved-ok (err x, w) player w' h e = absurd (ground (arith, h))

  authorize-ok :
      (header : Option Text) (w : W) (player : PlayerId) (w' : W)
      → authorize tokens header w ≡ (ok player, w')
      → (token : Text) × (header ≡ some (text "Bearer " ++ token))
        × (tokens.resolve (trim token) w ≡ (ok (some player), w'))
  unfolding authorize
  authorize-ok none w player w' h = absurd (ground (arith, h))
  authorize-ok (some s) w player w' h = elim (Option-cases (strip_prefix (text "Bearer ") s)) [
    | inl other ↦ absurd (ground (arith, no_bearer (strip_prefix (text "Bearer ") s) other h))
    | inr (token, found) ↦
        let same = with_bearer _ token found h in
        (
          token,
          ap some (strip_prefix-append (text "Bearer ") s token found),
          resolved-ok (tokens.resolve (trim token) w) player w' (ap (λ y. y.0) same)
              (ap (λ y. y.1) same),
        )
  ]
    where
      missing : ApiError
      missing = record { status = 401; message = text "Authorization 必须为 Bearer token" }

      no_bearer :
          (o : Option Text)
          → o ≡ none
          → looked_up tokens (ok_or o missing) w ≡ (ok player, w')
          → looked_up tokens (err missing) w ≡ (ok player, w')
      no_bearer o e h = subst (λ x. looked_up tokens (ok_or x missing) w ≡ (ok player, w')) e h

      with_bearer :
          (o : Option Text) (token : Text)
          → o ≡ some token
          → looked_up tokens (ok_or o missing) w ≡ (ok player, w')
          → looked_up tokens (ok token) w ≡ (ok player, w')
      with_bearer o token e h =
          subst (λ x. looked_up tokens (ok_or x missing) w ≡ (ok player, w')) e h

  -- A profile is answered only to a request whose header is `Bearer` with a token that the token store
  -- resolves, once trimmed, to a player, and it is the profile of that player.
  pub me_route-Authorized :
      (header : Option Text) (w : W) (status : ℕ) (p : PlayerProfile)
      → (me_route tokens players header w).0 ≡ ok (status, profile p)
      → (status ≡ 200) × Authorized header w p
  unfolding me_route
  me_route-Authorized header w status p h =
      let (status_ok, rest) = described-ok (authorize tokens header w) status p h in
      let (player, w', who, found) = rest in
      let (token, sent_as, resolves) = authorize-ok header w player w' who in
      (status_ok, (token, player, w', sent_as, resolves, found))
