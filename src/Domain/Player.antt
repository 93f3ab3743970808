-- ===== src/Domain/Player.antt =====
-- crates/domain/src/player/aggregate.rs: the player aggregate and its level arithmetic.
-- `u32` and `u64` values are numbers; the saturating operations are written out.
pub mod Growth
mod Tests
use longship_x.Prelude.{
  ℕ, zero, suc, ◌+◌, ◌-◌, ◌*◌, min, Bool, true, false, ◌&&◌, Option, none, some, ltb, leb,
}
use longship_x.Prelude.Text.{Text}
use longship_x.Domain.Error.{PlayerId, AccountId, DateTime}

abbrev pub max_level : ℕ
max_level = 999

abbrev pub exp_per_level : ℕ
exp_per_level = 100

abbrev pub u32_max : ℕ
u32_max = 4294967295

abbrev pub u64_max : ℕ
u64_max = 18446744073709551615

pub record Player : Type 0 where
  pub id : PlayerId
  pub account_id : AccountId
  pub nickname : Text
  pub level : ℕ
  pub exp : ℕ
  pub last_login_at : Option DateTime
  pub created_at : DateTime

unfoldable pub create : PlayerId → AccountId → Text → DateTime → Player
create id account_id nickname now = record {
  id = id;
  account_id = account_id;
  nickname = nickname;
  level = 1;
  exp = 0;
  last_login_at = none;
  created_at = now;
}

abbrev pub exp_to_next : ℕ → ℕ
exp_to_next level = min (exp_per_level * level) u64_max

-- The condition of the `while` loop.
abbrev pub can_level : Player → Bool
can_level p = ltb p.level max_level && leb (exp_to_next p.level) p.exp

-- The body of the loop, without its last assignment.
abbrev pub level_up : Player → Player
level_up p = record p { exp = p.exp - exp_to_next p.level; level = min (p.level + 1) u32_max }

-- The loop, on fuel: `Growth.level_loop-done` shows how much is enough.
unfoldable pub level_loop : ℕ → Player → Option ℕ → Player × Option ℕ
level_loop zero p new_level = (p, new_level)
level_loop (suc fuel) p new_level = elim (can_level p) [
  | true ↦ level_loop fuel (level_up p) (some (level_up p).level)
  | false ↦ (p, new_level)
]

-- `self.exp.saturating_add(amount)`.
abbrev pub add_exp : Player → ℕ → Player
add_exp p amount = record p { exp = min (p.exp + amount) u64_max }

unfoldable pub gain_exp : Player → ℕ → Player × Option ℕ
gain_exp p amount = level_loop (suc max_level) (add_exp p amount) none

unfoldable pub record_login : Player → DateTime → Player
record_login p at = record p { last_login_at = some at }
