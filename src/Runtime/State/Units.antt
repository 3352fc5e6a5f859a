-- ===== src/Runtime/State/Units.antt =====
-- The units that a board sends into battle, and what a player is told of the other's board.
use mobile_final_project.Base.{
  ℕ, suc, ◌+◌, ◌≤◌, ◌<◌, ◌≡◌, ◌≢◌, refl, Option, none, some, [], ◌∷◌, arith, All, length,
}
use mobile_final_project.Game.Types.{Side, UnitId, fighter, healer, ranger, tank}
use mobile_final_project.Game.Constants.{unit_base_stats}
use mobile_final_project.Game.Change.{IsSound}
use mobile_final_project.Game.Evolution.{IsTeam}
use mobile_final_project.Runtime.State.{
  RuntimeUnitState, Slots, RuntimePlayerState, MatchRuntimeState, battle, match_state_payload,
  unit_from, units_from, units_from_board,
}

-- A stored unit whose maximum HP is not the one value that a revive would halve to nothing.
abbrev pub CanRevive : Option RuntimeUnitState → Type 0
CanRevive none = Unit
CanRevive (some u) = u.max_hp ≢ 1

base_hp : (k : UnitId) → 2 ≤ (unit_base_stats k).hp
base_hp fighter = omega arith
base_hp healer = omega arith
base_hp ranger = omega arith
base_hp tank = omega arith

unit_from-IsSound :
    (u : RuntimeUnitState) (side : Side) (slot : ℕ) → u.max_hp ≢ 1 → IsSound (unit_from u side slot)
unit_from-IsSound u side slot h = record {
  hp_fits = omega arith;
  alive_by_hp = refl;
  can_revive = ground (arith, base_hp u.unit_id);
  spd_capped = omega arith;
}

units_from-IsTeam :
    (slot : ℕ) (board : Slots) (side : Side)
    → All CanRevive board
    → IsTeam side (units_from slot board side)
units_from-IsTeam slot [] side h = tt
units_from-IsTeam slot (none ∷ rest) side h = units_from-IsTeam (suc slot) rest side h.1
units_from-IsTeam slot (some u ∷ rest) side h =
    ((unit_from-IsSound u side slot h.0, refl), units_from-IsTeam (suc slot) rest side h.1)

-- If no stored unit has a maximum HP of 1, then the units that enter a battle from a board are a
-- team in good order: sound, and of that side.
pub units_from_board-IsTeam :
    (board : Slots) (side : Side) → All CanRevive board → IsTeam side (units_from_board board side)
unfolding units_from_board
units_from_board-IsTeam board side h = units_from-IsTeam 0 board side h

units_from-slots :
    (slot n : ℕ) (board : Slots) (side : Side)
    → slot + length board ≤ n
    → All (λ u. u.slot < n) (units_from slot board side)
units_from-slots slot n [] side h = tt
units_from-slots slot n (none ∷ rest) side h = units_from-slots (suc slot) n rest side (omega arith)
units_from-slots slot n (some u ∷ rest) side h =
    (omega arith, units_from-slots (suc slot) n rest side (omega arith))

-- The runtime with these states of the two players in it.
abbrev pub with_states :
    RuntimePlayerState → RuntimePlayerState → MatchRuntimeState → MatchRuntimeState
with_states p1_state p2_state runtime = record runtime { p1_state = p1_state; p2_state = p2_state }

-- Outside the phase `battle` what a player is told of a runtime is the same whatever states of the
-- two players the runtime holds and for any two states of the opponent with the same gold and HP:
-- the opponent's present board and bench, wherever they stand, do not show.
pub payload_hides_board :
    (runtime : MatchRuntimeState) (side : Side)
    (own opponent other p1_before p2_before p1_after p2_after : RuntimePlayerState) (n : ℕ)
    → runtime.phase ≢ battle
    → other.gold ≡ opponent.gold
    → other.hp ≡ opponent.hp
    → match_state_payload (with_states p1_before p2_before runtime) side own opponent n
      ≡ match_state_payload (with_states p1_after p2_after runtime) side own other n
unfolding match_state_payload
payload_hides_board runtime side own opponent other p1_before p2_before p1_after p2_after n h g k =
    ground arith
