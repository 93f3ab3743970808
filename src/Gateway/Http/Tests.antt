-- ===== src/Gateway/Http/Tests.antt =====
-- crates/gateway/src/http: requests for a profile, and redirects.
use longship_x.Prelude.{ℕ, ◌≡◌, refl, Option, none, some, ok, [], nat_eq}
use longship_x.Prelude.Text.{
  Text, text, text_eq, trim, trim_start, is_whitespace, decimal, decimal_loop,
}
use longship_x.App.Progression.{get_profile, profile_of}
use longship_x.Gateway.Admission.Tests.{tokens, players, hero}
use longship_x.Gateway.Http.{profile, authorize, me_route, Authority, acceptable, to_https}
use longship_x.Gateway.Http.Answers.{Authorized, me_route-Authorized}

asks : (me_route tokens players (some (text "Bearer aa")) 0).0 ≡ ok (200, profile (profile_of hero))
unfolding me_route authorize get_profile text trim trim_start is_whitespace
asks = refl

me_route-Authorized_example :
    (◌≡◌ {A = ℕ} 200 200) × Authorized tokens players (some (text "Bearer aa")) 0 (profile_of hero)
me_route-Authorized_example =
    me_route-Authorized tokens players (some (text "Bearer aa")) 0 200 (profile_of hero) asks

abbrev parse : Text → Option Authority
parse host = some (record { whole = host; host = host; suffix = []; port = none })

redirected :
    to_https 8443 parse (some (text "a.b")) (some (text "/x")) ≡ some (text "https://a.b:8443/x")
unfolding to_https acceptable decimal decimal_loop text
redirected = refl
