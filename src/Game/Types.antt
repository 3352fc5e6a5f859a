-- ===== src/Game/Types.antt =====
-- backend/src/game/types.ts: units, boards and the events of a battle.
-- HP, ATK, SPD, slots and ticks are whole numbers there, and numbers `ℕ` here. A star is 0, 1 or 2.
use mobile_final_project.Base.{
  ℕ, ◌/◌, ◌%◌, String, Bool, true, false, Option, List, ◌++◌, map, ◌==◌,
}

pub data UnitId : Type 0 where
  fighter healer ranger tank : UnitId

pub data Side : Type 0 where
  p1 p2 : Side

abbrev pub Star : Type 0
Star = ℕ

-- `===` on archetypes and on sides.
abbrev pub unit_code : UnitId → ℕ
unit_code fighter = 0
unit_code healer = 1
unit_code ranger = 2
unit_code tank = 3

abbrev pub same_unit : UnitId → UnitId → Bool
same_unit a b = unit_code a == unit_code b

abbrev pub same_side : Side → Side → Bool
same_side p1 p1 = true
same_side p1 p2 = false
same_side p2 p1 = false
same_side p2 p2 = true

pub record Position : Type 0 where
  pub row : ℕ
  pub col : ℕ

abbrev pub slot_to_position : ℕ → Position
slot_to_position slot = record { row = slot / 3; col = slot % 3 }

pub record UnitInstance : Type 0 where
  pub instance_id : String
  pub unit_id : UnitId
  pub star : Star
  pub hp : ℕ
  pub max_hp : ℕ
  pub slot : ℕ
  pub side : Side
  pub alive : Bool
  pub revived_this_round : Option Bool
  pub slow_active : Option Bool
  pub slow_until_healer_act : Option String
  pub effective_spd : Option ℕ

pub record UnitSnapshot : Type 0 where
  pub instance_id : String
  pub unit_id : UnitId
  pub star : Star
  pub hp : ℕ
  pub max_hp : ℕ
  pub slot : ℕ
  pub side : Side
  pub alive : Bool

abbrev pub snapshot_unit : UnitInstance → UnitSnapshot
snapshot_unit u = record {
  instance_id = u.instance_id;
  unit_id = u.unit_id;
  star = u.star;
  hp = u.hp;
  max_hp = u.max_hp;
  slot = u.slot;
  side = u.side;
  alive = u.alive;
}

pub record BattleSim : Type 0 where
  pub p1_units : List UnitInstance
  pub p2_units : List UnitInstance

-- `rng` is the first value of a supplied generator, times 2 ^ 32: the engine draws one value.
pub record BattleState : Type 0 where
  pub p1_units : List UnitInstance
  pub p2_units : List UnitInstance
  pub round_seed : ℕ
  pub match_seed : String
  pub rng : Option ℕ

abbrev pub snapshot_all_units : BattleSim → List UnitSnapshot
snapshot_all_units sim = map snapshot_unit (sim.p1_units ++ sim.p2_units)

abbrev pub enemy_side_of : Side → Side
enemy_side_of p1 = p2
enemy_side_of p2 = p1

abbrev pub units_of : BattleSim → Side → List UnitInstance
units_of sim p1 = sim.p1_units
units_of sim p2 = sim.p2_units

-- The identity fields that an event repeats for each unit it names: `attacker`, `attackerSide`,
-- `attackerSlot`, `attackerUnitId`, `attackerStar`, and so for `target`, `unit` and `by`.
pub record Actor : Type 0 where
  pub id : String
  pub side : Side
  pub slot : ℕ
  pub unit_id : UnitId
  pub star : Star

abbrev pub actor : UnitInstance → Actor
actor u = record {
  id = u.instance_id;
  side = u.side;
  slot = u.slot;
  unit_id = u.unit_id;
  star = u.star;
}

-- The first two numbers are `cycle` and `tick`.
pub data CombatEvent : Type 0 where
  attack : (cycle tick : ℕ) (attacker target : Actor) (damage target_hp_after : ℕ) → CombatEvent
  death : (cycle tick : ℕ) (unit : Actor) → CombatEvent
  revive : (cycle tick : ℕ) (unit : Actor) (hp_after : ℕ) → CombatEvent
  heal : (cycle tick : ℕ) (target by : Actor) (amount target_hp_after : ℕ) → CombatEvent
  lifesteal : (cycle tick : ℕ) (unit : Actor) (amount hp_after : ℕ) → CombatEvent
  pierce : (cycle tick : ℕ) (attacker target : Actor) (damage : ℕ) → CombatEvent
  slow : (cycle tick : ℕ) (target by : Actor) → CombatEvent
  cycle_end : (cycle : ℕ) → CombatEvent
  battle_end : (cycle : ℕ) (winner : Option Side) → CombatEvent

-- An event with its `unitStates`, as the battle returns it.
pub record BoardEvent : Type 0 where
  pub event : CombatEvent
  pub unit_states : List UnitSnapshot
