-- ===== src/Shop/Roster.antt =====
-- The slots of a player's board and bench, and the gold that is invested in their units.
pub mod Worth
use mobile_final_project.Base.{
  ℕ, suc, ◌+◌, ◌*◌, ◌^◌, String, Bool, true, false, Option, none, some, List, [], ◌∷◌, ◌++◌,
  get_elem?, set, length, ◌==◌,
}
use mobile_final_project.Game.Types.{UnitId, fighter, healer, ranger, tank, Star}
use mobile_final_project.Runtime.State.{RuntimeUnitState, Slots, RuntimePlayerState}

abbrev pub unit_cost : UnitId → ℕ
unit_cost fighter = 1
unit_cost healer = 1
unit_cost ranger = 2
unit_cost tank = 2

pub data Source : Type 0 where
  board bench : Source

abbrev pub source_code : Source → ℕ
source_code board = 0
source_code bench = 1

-- `state[source]`
abbrev pub slots_of : RuntimePlayerState → Source → Slots
slots_of st board = st.board
slots_of st bench = st.bench

-- `state[source] = slots`
abbrev pub with_slots : RuntimePlayerState → Source → Slots → RuntimePlayerState
with_slots st board slots = record st { board = slots }
with_slots st bench slots = record st { bench = slots }

-- `state[source][slot] = unit`, for a slot in range
unfoldable pub set_slot :
    RuntimePlayerState → Source → ℕ → Option RuntimeUnitState → RuntimePlayerState
set_slot st src slot unit = with_slots st src (set (slots_of st src) slot unit)

unfoldable pub slot_at : RuntimePlayerState → Source → ℕ → Option (Option RuntimeUnitState)
slot_at st src slot = get_elem? (slots_of st src) slot

pub record RosterEntry : Type 0 where
  pub source : Source
  pub slot : ℕ
  pub unit : RuntimeUnitState

abbrev pub entries_from : Source → ℕ → Slots → List RosterEntry
entries_from src i [] = []
entries_from src i (none ∷ rest) = entries_from src (suc i) rest
entries_from src i (some u ∷ rest) =
    record { source = src; slot = i; unit = u } ∷ entries_from src (suc i) rest

unfoldable pub roster_entries : RuntimePlayerState → List RosterEntry
roster_entries st = entries_from board 0 st.board ++ entries_from bench 0 st.bench

-- `investedGold(unit)`
abbrev pub gold_or : Option ℕ → ℕ → ℕ
gold_or none cost = cost
gold_or (some stored) cost = stored

unfoldable pub invested_gold : RuntimeUnitState → ℕ
invested_gold u = gold_or u.invested_gold (unit_cost u.unit_id * 2 ^ u.star)
