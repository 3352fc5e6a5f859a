-- ===== src/Game/Tests.antt =====
-- A small duel on which the theorems about the engine are applied and its functions run.
use Prim.Native.String.{compare as string_compare}
use mobile_final_project.Base.{
  ℕ, ◌≤◌, ◌<◌, String, Ordering, ◌≡◌, refl, true, false, none, some, List, [], ◌∷◌, ◌↔◌, arith, All,
  map, any, ◌%◌, ◌==◌,
}
use mobile_final_project.Game.Types.{
  Side, p1, p2, UnitId, fighter, healer, ranger, tank, UnitInstance, BattleSim, BattleState,
  BoardEvent, actor, cycle_end, battle_end, UnitSnapshot, snapshot_unit, units_of,
}
use mobile_final_project.Game.Constants.Schedule.{actions_until, acts_on_tick-evenly}
use mobile_final_project.Game.Store.{Handle, handles, get, ◌>>◌, with_unit, reads}
use mobile_final_project.Game.Engine.{
  run_battle, has_living, unit_act, run_cycles, run_ticks, run_tick, finish_cycle, order_for_tick,
  tick_order, acting, take_turns, take_turn, act_as, fighter_act,
}
use mobile_final_project.Game.Constants.{acts_on_tick}
use mobile_final_project.Game.Evolution.Battle.{IsReady, start_board, final_board}
use mobile_final_project.Game.Evolution.Battle.Boards.{
  IsSoundSnapshot, snapshot_actor, DeadAt, run_battle_boards_sound, run_battle_keeps_roster,
  run_battle_dead_stay_dead, start_units,
}
use mobile_final_project.Game.Timeline.Ending.{Course, run_battle-Course}
use mobile_final_project.Game.Targeting.{
  living, pick_target, choose, lowest_hp, by_position_then_id, base_target, prioritized,
  lane_candidates, first_non_empty_row, col_of,
}
use mobile_final_project.Game.Targeting.Sound.{IsTarget, pick_target-IsTarget}
use mobile_final_project.Game.Targeting.Choice.{OnBoard, pick_target-none_iff}
use mobile_final_project.Game.Targeting.Lanes.{
  IsFrontOf, IsPlain, pick_target_lowest_hp, pick_target_front,
}

-- Any order of texts may stand for the locale's.
abbrev by_text : String → String → Ordering
by_text = string_compare

abbrev recruit : String → UnitId → ℕ → ℕ → ℕ → Side → UnitInstance
recruit id kind star hp slot side = record {
  instance_id = id;
  unit_id = kind;
  star = star;
  hp = hp;
  max_hp = hp;
  slot = slot;
  side = side;
  alive = true;
  revived_this_round = none;
  slow_active = none;
  slow_until_healer_act = none;
  effective_spd = none;
}

abbrev sniper : UnitInstance
sniper = recruit "r" ranger 2 60 4 p1

abbrev squire : UnitInstance
squire = recruit "f" fighter 1 100 1 p1

abbrev wall : UnitInstance
wall = recruit "t" tank 1 20 1 p2

abbrev medic : UnitInstance
medic = recruit "h" healer 0 12 7 p2

abbrev duel : BattleState
duel = record {
  p1_units = sniper ∷ squire ∷ [];
  p2_units = wall ∷ medic ∷ [];
  round_seed = 7;
  match_seed = "seed";
  rng = none;
}

abbrev duel_board : BattleSim
duel_board = start_board duel

duel-IsReady : IsReady duel
duel-IsReady = ground arith

run_battle_boards_sound_example :
    All (λ e. All IsSoundSnapshot e.unit_states) (run_battle by_text duel)
run_battle_boards_sound_example = run_battle_boards_sound by_text duel duel-IsReady

run_battle_keeps_roster_example :
    All
      (λ e. map snapshot_actor e.unit_states ≡ map actor (start_units duel))
      (run_battle by_text duel)
run_battle_keeps_roster_example = run_battle_keeps_roster by_text duel duel-IsReady

run_battle-Course_example : Course (final_board by_text duel) 1 (run_battle by_text duel)
run_battle-Course_example = run_battle-Course by_text duel

-- The handles of the enemies, as the board of the duel gives them.
abbrev medic_handle : Handle
medic_handle = record { ref = record { side = p2; index = 1 }; unit = medic }

abbrev wall_handle : Handle
wall_handle = record { ref = record { side = p2; index = 0 }; unit = wall }

sniper-target : pick_target by_text sniper duel_board ≡ some medic_handle
unfolding pick_target choose living handles lowest_hp by_position_then_id
sniper-target = refl

squire-target : pick_target by_text squire duel_board ≡ some wall_handle
unfolding pick_target choose living handles lowest_hp by_position_then_id base_target prioritized
    lane_candidates first_non_empty_row
squire-target = refl

pick_target-IsTarget_example : IsTarget duel_board sniper medic_handle
pick_target-IsTarget_example =
    pick_target-IsTarget by_text sniper duel_board medic_handle sniper-target

pick_target_lowest_hp_example : All (λ e. 12 ≤ e.unit.hp) (living duel_board sniper)
pick_target_lowest_hp_example =
    pick_target_lowest_hp by_text sniper duel_board medic_handle refl refl sniper-target

duel-slots : All (λ u. u.slot < 9) (units_of duel_board p2)
duel-slots = ground arith

pick_target-none_iff_example :
    (pick_target by_text sniper duel_board ≡ none) ↔ (has_living (units_of duel_board p2) ≡ false)
pick_target-none_iff_example = pick_target-none_iff by_text sniper duel_board duel-slots

duel-OnBoard : All OnBoard (living duel_board squire)
unfolding living handles
duel-OnBoard = ground arith

squire-IsPlain : IsPlain squire (living duel_board squire)
unfolding living handles
squire-IsPlain = record { no_sniper = refl; no_tank = λ h. ground arith }

squire-lane : any (λ e. col_of e == squire.slot % 3) (living duel_board squire) ≡ true
unfolding living handles
squire-lane = refl

pick_target_front_example : IsFrontOf 1 (living duel_board squire) wall_handle
pick_target_front_example =
    pick_target_front by_text squire duel_board wall_handle duel-OnBoard squire-IsPlain squire-lane
      squire-target

acts_on_tick-evenly_example : actions_until 67 100 ≡ 3
acts_on_tick-evenly_example = acts_on_tick-evenly 67 100 (omega arith)

-- A battle in which the healer of the duel is dead from the start.
abbrev corpse : UnitInstance
corpse = record medic { hp = 0; alive = false }

abbrev rout : BattleState
rout = record duel { p1_units = squire ∷ []; p2_units = corpse ∷ [] }

rout-IsReady : IsReady rout
rout-IsReady = ground arith

abbrev rout_board : List UnitSnapshot
rout_board = snapshot_unit squire ∷ snapshot_unit corpse ∷ []

abbrev rout_end : BoardEvent
rout_end = record { event = cycle_end 1; unit_states = rout_board }

abbrev rout_over : BoardEvent
rout_over = record { event = battle_end 1 (some p1); unit_states = rout_board }

rout_events : run_battle by_text rout ≡ rout_end ∷ rout_over ∷ []
unfolding run_battle run_cycles run_ticks run_tick finish_cycle handles acts_on_tick order_for_tick
    tick_order acting take_turns take_turn get with_unit unit_act act_as reads pick_target choose
    living ◌>>◌ fighter_act
rout_events = refl

run_battle_dead_stay_dead_example : All (DeadAt 1 0) (rout_over ∷ [])
run_battle_dead_stay_dead_example =
    run_battle_dead_stay_dead by_text rout [] rout_end (rout_over ∷ []) 1 (snapshot_unit corpse)
      rout-IsReady rout_events refl refl
