-- ===== src/Infra/Converters/RoundTrip.antt =====
-- crates/infrastructure/src/persistence/converters.rs: what is stored is what is read back.
use longship_x.Prelude.{ℕ, min, ◌≡◌, refl, ok, Result, arith}
use longship_x.Prelude.Text.{Text}
use longship_x.Domain.Error.{Uuid, RepoError}
use longship_x.Domain.Value.{try_new_username, try_new_nickname}
use longship_x.Domain.Value.Normal.{try_new_username-normal, try_new_nickname-normal}
use longship_x.Domain.Account.{Account, AccountStatus, active, suspended, banned}
use longship_x.Domain.Player.{Player}
use longship_x.Infra.Converters.{
  i32_max, i64_max, status_from_code, status_to_parts, account_to_domain, account_to_active,
  clamped, saturated, player_to_domain, player_to_active,
}

clamped-saturated : (limit n : ℕ) → clamped (saturated limit n) ≡ min n limit
clamped-saturated limit n = ground arith

module _ (show_uuid : Uuid → Text) where
  with_status :
      (account : Account) (status : AccountStatus)
      → try_new_username account.username ≡ ok account.username
      → account_to_domain show_uuid (account_to_active (record account { status = status }))
        ≡ ok (record account { status = status })
  unfolding account_to_domain account_to_active status_from_code status_to_parts
  with_status account active again = rw again refl
  with_status account suspended again = rw again refl
  with_status account (banned reason until) again = rw again refl

  -- An account whose user name the domain has accepted is read back exactly as it was stored, with its
  -- ban, the ban's reason and its end.
  pub account_to_domain-account_to_active :
      (account : Account) (raw : Text)
      → try_new_username raw ≡ ok account.username
      → account_to_domain show_uuid (account_to_active account) ≡ ok account
  account_to_domain-account_to_active account raw valid =
      let (shortest, longest, chars, lowered, again) =
        try_new_username-normal raw account.username valid in
      with_status account account.status again

  -- A player whose nickname the domain has accepted is read back as stored, except that a level above
  -- 2³¹ - 1 and an experience above 2⁶³ - 1 come back as those limits.
  pub player_to_domain-player_to_active :
      (player : Player) (raw : Text)
      → try_new_nickname raw ≡ ok player.nickname
      → player_to_domain show_uuid (player_to_active player)
        ≡ ok (record player { level = min player.level i32_max; exp = min player.exp i64_max })
  unfolding player_to_domain player_to_active
  player_to_domain-player_to_active player raw valid =
      let (trimmed, shortest, longest, shown, again) =
        try_new_nickname-normal raw player.nickname valid in
      rw again (ap2 (clamped-saturated i32_max player.level) (clamped-saturated i64_max player.exp))
    where
      stored : ℕ → ℕ → Result Player RepoError
      stored level exp = ok (record player { level = level; exp = exp })

      ap2 : {a b c d : ℕ} → a ≡ b → c ≡ d → stored a c ≡ stored b d
      ap2 p q = cc
