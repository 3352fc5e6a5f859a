-- ===== src/Game/Constants.antt =====
-- backend/src/game/constants.ts. The fractional factors are applied to whole numbers and rounded
-- at once, so each is written as a quotient of whole numbers.
pub mod Schedule
use mobile_final_project.Base.{
  ℕ, ◌+◌, ◌*◌, ◌-◌, ◌/◌, ◌%◌, ◌≤◌, ◌≡◌, Bool, arith, ◌==◌, leb, if◌then◌else◌,
}
use mobile_final_project.Game.Types.{UnitId, fighter, healer, ranger, tank, Star}

pub record UnitBaseStats : Type 0 where
  pub hp : ℕ
  pub atk : ℕ
  pub spd : ℕ

abbrev pub unit_base_stats : UnitId → UnitBaseStats
unit_base_stats fighter = record { hp = 100; atk = 15; spd = 20 }
unit_base_stats healer = record { hp = 70; atk = 6; spd = 50 }
unit_base_stats ranger = record { hp = 60; atk = 12; spd = 67 }
unit_base_stats tank = record { hp = 150; atk = 8; spd = 0 }

abbrev pub max_cycles : ℕ
max_cycles = 30

abbrev pub ticks_per_cycle : ℕ
ticks_per_cycle = 100

abbrev pub heal_amount : ℕ
heal_amount = 10

-- Math.floor(dmg * LIFESTEAL_RATE[star])
abbrev pub lifesteal_of : Star → ℕ → ℕ
lifesteal_of star dmg = if star == 1 then dmg / 20 else if star == 2 then dmg / 10 else 0

-- Math.floor(dmg * PIERCE_RATE)
abbrev pub pierce_of : ℕ → ℕ
pierce_of dmg = dmg / 10

-- Math.floor(maxHp * REVIVE_HP_FRACTION)
abbrev pub revive_hp : ℕ → ℕ
revive_hp max_hp = max_hp / 2

-- Math.floor(atk * mult), where mult is 1, 1.5 or 2
abbrev pub atk_for : UnitId → Star → ℕ
atk_for unit_id star =
    let atk = (unit_base_stats unit_id).atk in
    if star == 2 then atk * 2 else if star == 1 then atk * 3 / 2 else atk

abbrev pub spd_for : UnitId → ℕ
spd_for unit_id = (unit_base_stats unit_id).spd

-- Math.max(0, Math.round(spd * SLOW_MULTIPLIER)): `Math.round(x)` is the floor of x + 1/2.
abbrev pub slowed_spd : UnitId → ℕ
slowed_spd unit_id = (spd_for unit_id * 7 + 5) / 10

-- `cooldown <= 0` is `spd ≥ 100`.
unfoldable pub acts_on_tick : ℕ → ℕ → Bool
acts_on_tick spd tick =
    let cooldown = ticks_per_cycle - spd in
    if leb ticks_per_cycle spd then tick == ticks_per_cycle else tick % cooldown == 0
