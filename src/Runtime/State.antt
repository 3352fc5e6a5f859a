-- ===== src/Runtime/State.antt =====
-- backend/src/runtime/match.runtime-state.ts: what Redis holds of a match in play. The hash of
-- strings is the record that `parseRuntimeHash` reads from it; gold and HP are whole numbers.
pub mod Units
use mobile_final_project.Base.{
  ℕ, zero, suc, String, Bool, true, false, Option, none, some, List, [], ◌∷◌, ◌==◌, ltb, min,
  if◌then◌else◌, map, replicate, get_elem?,
}
use mobile_final_project.Game.Types.{Side, p1, p2, UnitId, Star, UnitInstance}
use mobile_final_project.Game.Constants.{unit_base_stats}

pub data MatchPhase : Type 0 where
  shop_place battle resolved finished : MatchPhase

abbrev pub phase_code : MatchPhase → ℕ
phase_code shop_place = 0
phase_code battle = 1
phase_code resolved = 2
phase_code finished = 3

abbrev pub same_phase : MatchPhase → MatchPhase → Bool
same_phase a b = phase_code a == phase_code b

-- `investedGold` is `none` where the field is missing or is no number of at least 0.
pub record RuntimeUnitState : Type 0 where
  pub instance_id : String
  pub unit_id : UnitId
  pub star : Star
  pub hp : ℕ
  pub max_hp : ℕ
  pub invested_gold : Option ℕ

abbrev pub Slots : Type 0
Slots = List (Option RuntimeUnitState)

pub record RuntimePlayerState : Type 0 where
  pub hp : ℕ
  pub gold : ℕ
  pub ready : Bool
  pub board : Slots
  pub bench : Slots

pub record OpponentBoardUnit : Type 0 where
  pub unit_id : UnitId
  pub star : Star

abbrev pub OpponentBoardSummary : Type 0
OpponentBoardSummary = List (Option OpponentBoardUnit)

pub record MatchRuntimeState : Type 0 where
  pub match_id : String
  pub player1_id : String
  pub player2_id : String
  pub player1_name : String
  pub player2_name : String
  pub match_seed : String
  pub phase : MatchPhase
  pub round : ℕ
  pub p1_state : RuntimePlayerState
  pub p2_state : RuntimePlayerState
  pub ready_p1 : Bool
  pub ready_p2 : Bool
  pub wipe_index_p1 : ℕ
  pub wipe_index_p2 : ℕ
  pub combat_round : Option ℕ
  pub scout_round : Option ℕ
  pub scout_p1_board : OpponentBoardSummary
  pub scout_p2_board : OpponentBoardSummary

abbrev board_size : ℕ
board_size = 9

abbrev summarize_slot : Option (Option RuntimeUnitState) → Option OpponentBoardUnit
summarize_slot none = none
summarize_slot (some none) = none
summarize_slot (some (some u)) = some (record { unit_id = u.unit_id; star = u.star })

-- `Array.from({ length: 9 }, (_, index) => …)`, from index `i` on
abbrev summarize_from : ℕ → ℕ → Slots → OpponentBoardSummary
summarize_from zero i board = []
summarize_from (suc n) i board = summarize_slot (get_elem? board i) ∷ summarize_from n (suc i) board

unfoldable pub summarize_board : Slots → OpponentBoardSummary
summarize_board board = summarize_from board_size 0 board

abbrev pub empty_board_summary : OpponentBoardSummary
empty_board_summary = replicate board_size none

pub record RosterView : Type 0 where
  pub username : String
  pub board : Slots
  pub bench : Slots
  pub gold : ℕ
  pub hp : ℕ

pub record OpponentView : Type 0 where
  pub username : String
  pub gold : ℕ
  pub hp : ℕ
  pub scout_round : Option ℕ
  pub board_summary : OpponentBoardSummary
  pub battle_board_summary : Option OpponentBoardSummary

pub record MatchStatePayload : Type 0 where
  pub match_id : String
  pub round : ℕ
  pub your_side : Side
  pub roster : RosterView
  pub opponent : OpponentView
  pub ready_count : ℕ

-- The value for the side that is told.
abbrev pub by_side {ℓ} : {A : Type ℓ} → Side → A → A → A
by_side p1 a b = a
by_side p2 a b = b

unfoldable pub match_state_payload :
    MatchRuntimeState → Side → RuntimePlayerState → RuntimePlayerState → ℕ → MatchStatePayload
match_state_payload runtime side own opponent ready_count = record {
  match_id = runtime.match_id;
  round = runtime.round;
  your_side = side;
  roster = record {
    username = by_side side runtime.player1_name runtime.player2_name;
    board = own.board;
    bench = own.bench;
    gold = own.gold;
    hp = own.hp;
  };
  opponent = record {
    username = by_side side runtime.player2_name runtime.player1_name;
    gold = opponent.gold;
    hp = opponent.hp;
    scout_round = runtime.scout_round;
    board_summary = by_side side runtime.scout_p2_board runtime.scout_p1_board;
    battle_board_summary =
        if same_phase runtime.phase battle then some (summarize_board opponent.board) else none;
  };
  ready_count = ready_count;
}

-- `finitePositive(entry.maxHp, base)` on a whole number
abbrev pub positive_or : ℕ → ℕ → ℕ
positive_or n fallback = if ltb 0 n then n else fallback

-- One entry of `unitsFromBoard`.
abbrev pub unit_from : RuntimeUnitState → Side → ℕ → UnitInstance
unit_from entry side slot =
    let max_hp = positive_or entry.max_hp (unit_base_stats entry.unit_id).hp in
    let hp = min max_hp entry.hp in
    record {
      instance_id = entry.instance_id;
      unit_id = entry.unit_id;
      star = entry.star;
      hp = hp;
      max_hp = max_hp;
      slot = slot;
      side = side;
      alive = ltb 0 hp;
      revived_this_round = none;
      slow_active = none;
      slow_until_healer_act = none;
      effective_spd = none;
    }

abbrev pub units_from : ℕ → Slots → Side → List UnitInstance
units_from slot [] side = []
units_from slot (none ∷ rest) side = units_from (suc slot) rest side
units_from slot (some entry ∷ rest) side =
    unit_from entry side slot ∷ units_from (suc slot) rest side

unfoldable pub units_from_board : Slots → Side → List UnitInstance
units_from_board board side = units_from 0 board side
