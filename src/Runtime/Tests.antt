-- ===== src/Runtime/Tests.antt =====
-- A match between two players on which the theorems about the runtime are applied.
use Prim.Native.String.{compare as string_compare}
use mobile_final_project.Base.{
  ℕ, ◌<◌, ◌≡◌, ◌≢◌, refl, String, Ordering, true, false, Option, none, some, [], ◌∷◌, arith, ◌↔◌,
  ◌⊎◌, inl, replicate, All,
}
use mobile_final_project.Game.Types.{Side, p1, fighter, battle_end, BattleState}
use mobile_final_project.Game.Evolution.{IsTeam}
use mobile_final_project.Game.Evolution.Battle.{final_board}
use mobile_final_project.Game.Timeline.Ending.{Verdict}
use mobile_final_project.Game.Engine.{run_battle}
use mobile_final_project.Runtime.State.{
  MatchPhase, shop_place, battle, resolved, finished, RuntimeUnitState, RuntimePlayerState,
  MatchRuntimeState, Slots, empty_board_summary, match_state_payload, units_from_board,
}
use mobile_final_project.Runtime.State.Units.{
  CanRevive, units_from_board-IsTeam, with_states, payload_hides_board,
}
use mobile_final_project.Runtime.Rules.{battle_winner, resolve_winner, undecided}
use mobile_final_project.Runtime.Rules.Winner.{battle_winner-run_battle}
use mobile_final_project.Runtime.Rules.Damage.{
  Charge, resolve_winner-Charge, resolve_winner-decides,
}
use mobile_final_project.Runtime.Rules.Duration.{play_rounds, decided_by_21}
use mobile_final_project.Runtime.Store.{MatchStore, phase_flip}
use mobile_final_project.Runtime.Store.Keys.{phase_flip_once}
use mobile_final_project.Runtime.Flow.{apply_damage_and_advance}
use mobile_final_project.Runtime.Flow.Once.{Idle, apply_damage_once}
use mobile_final_project.Runtime.Flow.Outcome.{Settled}
use mobile_final_project.Runtime.Flow.Settlement.{apply_damage_settles}

abbrev by_text : String → String → Ordering
by_text = string_compare

abbrev pub squire : RuntimeUnitState
squire = record {
  instance_id = "f";
  unit_id = fighter;
  star = 0;
  hp = 70;
  max_hp = 70;
  invested_gold = some 1;
}

abbrev pub squires_board : Slots
squires_board = none ∷ some squire ∷ replicate 7 none

abbrev pub player : RuntimePlayerState
player = record {
  hp = 100;
  gold = 5;
  ready = false;
  board = squires_board;
  bench = replicate 8 none;
}

abbrev pub bare_player : RuntimePlayerState
bare_player = record player { board = replicate 9 none }

abbrev pub match_in : MatchPhase → MatchRuntimeState
match_in phase = record {
  match_id = "m";
  player1_id = "ann";
  player2_id = "bob";
  player1_name = "Ann";
  player2_name = "Bob";
  match_seed = "seed";
  phase = phase;
  round = 3;
  p1_state = player;
  p2_state = bare_player;
  ready_p1 = true;
  ready_p2 = true;
  wipe_index_p1 = 0;
  wipe_index_p2 = 1;
  combat_round = some 3;
  scout_round = none;
  scout_p1_board = empty_board_summary;
  scout_p2_board = empty_board_summary;
}

abbrev pub store_in : MatchPhase → MatchStore
store_in phase = record {
  runtime = some (match_in phase);
  shops = [];
  logs = [];
  acks = [];
  combat_result = some (record { event = battle_end 1 (some p1); unit_states = [] } ∷ []);
}

abbrev walkover : BattleState
walkover = record { p1_units = []; p2_units = []; round_seed = 7; match_seed = "seed"; rng = none }

battle_winner-run_battle_example :
    (n : ℕ) × (w : Option Side) × (battle_winner (run_battle by_text walkover) ≡ some w)
    × Verdict (final_board by_text walkover) n w
battle_winner-run_battle_example = battle_winner-run_battle by_text walkover

decided_by_21_example : play_rounds (match_in battle) 3 (replicate 21 none) ≢ undecided
decided_by_21_example =
    decided_by_21 (match_in battle) 3 (replicate 21 none) (omega arith) (omega arith) (omega arith)
      (omega arith) (omega arith)

resolve_winner-Charge_example :
    Charge (match_in battle) (some p1) (resolve_winner (match_in battle) 3 (some p1))
resolve_winner-Charge_example = resolve_winner-Charge (match_in battle) 3 (some p1)

resolve_winner-decides_example :
    let r = resolve_winner (match_in battle) 3 (some p1) in
    (r.winner_id ≡ undecided) ↔ ((0 < r.p1.hp) × (0 < r.p2.hp))
resolve_winner-decides_example = resolve_winner-decides (match_in battle) 3 (some p1)

payload_hides_board_example :
    match_state_payload
      (with_states player bare_player (match_in shop_place))
      p1
      player
      bare_player
      2
    ≡ match_state_payload (with_states player player (match_in shop_place)) p1 player player 2
payload_hides_board_example =
    payload_hides_board (match_in shop_place) p1 player bare_player player player bare_player player
      player 2 (λ h. cc) refl refl

squires-CanRevive : All CanRevive squires_board
squires-CanRevive = ground arith

units_from_board-IsTeam_example : IsTeam p1 (units_from_board squires_board p1)
units_from_board-IsTeam_example = units_from_board-IsTeam squires_board p1 squires-CanRevive

battle_flips : phase_flip battle resolved 3 none (store_in battle) ≡ (true, store_in resolved)
unfolding phase_flip
battle_flips = refl

phase_flip_once_example :
    phase_flip battle finished 3 none (store_in resolved) ≡ (false, store_in resolved)
phase_flip_once_example =
    phase_flip_once battle resolved finished 3 none none (store_in battle) (store_in resolved)
      (λ h. cc) battle_flips

apply_damage_settles_example :
    let out =
      apply_damage_and_advance 3 (store_in battle) (store_in battle) (λ s. s) (store_in battle) in
    Idle (store_in battle) out
    ⊎ Settled 3
        (some (match_in battle))
        (store_in battle).combat_result
        (λ s. s)
        (store_in battle)
        out
apply_damage_settles_example =
    apply_damage_settles 3 (store_in battle) (store_in battle) (λ s. s) (store_in battle)

apply_damage_once_example :
    Idle
      (store_in resolved)
      (apply_damage_and_advance 3 (store_in battle) (store_in battle) (λ s. s) (store_in resolved))
apply_damage_once_example =
    apply_damage_once 3 (store_in battle) (store_in battle) (λ s. s) (store_in resolved)
      (match_in resolved) refl (inl (λ h. cc))

-- The battle of round 3 has not been run.
abbrev unplayed : MatchStore
unplayed = record (store_in battle) {
  runtime = some (record (match_in battle) { combat_round = some 2 });
}

-- The planning phase of round 3.
abbrev planned : MatchRuntimeState
planned = record (match_in shop_place) { combat_round = none }
