-- ===== src/Runtime/Combat.antt =====
-- Who plays a battle, and how long the clients may watch it: backend/src/runtime/combat.coordinator.ts
-- and combat-timing.ts. The 32-bit number of the SHA-256 digest of match seed and round is a
-- parameter, and so is the number that COMBAT_DONE_TIMEOUT_MS is read as.
pub mod Cached
use mobile_final_project.Base.{
  ℕ, suc, ◌+◌, ◌*◌, ◌/◌, max, String, Bool, true, false, Option, none, some, List, [], ◌∷◌, ◌==◌,
  leb, ◌&&◌, ◌||◌, not, if◌then◌else◌, length, filter, Ordering,
}
use mobile_final_project.Game.Types.{
  Side, p1, p2, CombatEvent, attack, death, revive, heal, lifesteal, pierce, slow, cycle_end,
  battle_end, BoardEvent, BattleState,
}
use mobile_final_project.Game.Engine.{run_battle}
use mobile_final_project.Runtime.State.{
  MatchPhase, battle, same_phase, MatchRuntimeState, units_from_board,
}
use mobile_final_project.Runtime.Effects.{
  Effect, cache_combat_result, combat_events, append_round_events, schedule_combat_done_timeout,
}
use mobile_final_project.Runtime.Store.{MatchStore}
use mobile_final_project.Runtime.Flow.{hset, is_round}

abbrev pub real_combat_done_timeout_ms : ℕ
real_combat_done_timeout_ms = 60000

abbrev pub combat_event_playback_ms : ℕ
combat_event_playback_ms = 800

abbrev pub combat_playback_grace_ms : ℕ
combat_playback_grace_ms = 5000

-- `parsed` is none where the setting is missing, empty or no whole number from 0 on.
unfoldable pub combat_done_timeout_ms : (parsed : Option ℕ) → ℕ
combat_done_timeout_ms none = real_combat_done_timeout_ms
combat_done_timeout_ms (some n) =
    if leb 250 n && leb n 300000 then n else real_combat_done_timeout_ms

unfoldable pub combat_done_timeout_for_event_count : (count configured : ℕ) → ℕ
combat_done_timeout_for_event_count count configured =
    if configured == real_combat_done_timeout_ms
    then max real_combat_done_timeout_ms
        (count * combat_event_playback_ms + combat_playback_grace_ms)
    else configured

-- `Math.ceil(ms / 1000) + 30`
unfoldable pub combat_result_ttl_seconds : ℕ → ℕ
combat_result_ttl_seconds ms = (ms + 999) / 1000 + 30

abbrev pub is_visible : BoardEvent → Bool
is_visible e = elim e.event [
  | cycle_end cycle ↦ false
  | battle_end cycle winner ↦ false
  | death cycle tick unit ↦ false
  | attack cycle tick attacker target damage hp ↦ true
  | revive cycle tick unit hp ↦ true
  | heal cycle tick target by amount hp ↦ true
  | lifesteal cycle tick unit amount hp ↦ true
  | pierce cycle tick attacker target damage ↦ true
  | slow cycle tick target by ↦ true
]

unfoldable pub visible_event_count : List BoardEvent → ℕ
visible_event_count events = length (filter is_visible events)

abbrev pub cycle_of_end : CombatEvent → ℕ
cycle_of_end (battle_end cycle winner) = cycle
cycle_of_end (cycle_end cycle) = 0
cycle_of_end (death cycle tick unit) = 0
cycle_of_end (attack cycle tick attacker target damage hp) = 0
cycle_of_end (revive cycle tick unit hp) = 0
cycle_of_end (heal cycle tick target by amount hp) = 0
cycle_of_end (lifesteal cycle tick unit amount hp) = 0
cycle_of_end (pierce cycle tick attacker target damage) = 0
cycle_of_end (slow cycle tick target by) = 0

-- `events.at(-1)`
unfoldable pub cycle_count : List BoardEvent → ℕ
cycle_count [] = 0
cycle_count (e ∷ []) = cycle_of_end e.event
cycle_count (e ∷ f ∷ events) = cycle_count (f ∷ events)

-- DEL of the acknowledgements and of the cached result
abbrev pub forget_round : MatchStore → MatchStore
forget_round s = record s { acks = []; combat_result = none }

abbrev pub mark_combat_round : ℕ → MatchRuntimeState → MatchRuntimeState
mark_combat_round round r = record r { combat_round = some round }

abbrev pub Ran : Type 0
Ran = Bool × MatchStore × List Effect

abbrev pub ready_to_fight : MatchRuntimeState → ℕ → Bool
ready_to_fight r round = same_phase r.phase battle && (r.round == round)

module _ (lc : String → String → Ordering) (round_seed : String → ℕ → ℕ) (configured : ℕ) where
  abbrev pub battle_of : MatchRuntimeState → BattleState
  battle_of r = record {
    p1_units = units_from_board r.p1_state.board p1;
    p2_units = units_from_board r.p2_state.board p2;
    round_seed = round_seed r.match_seed r.round;
    match_seed = r.match_seed;
    rng = none;
  }

  abbrev pub timeout_for : List BoardEvent → ℕ
  timeout_for events = combat_done_timeout_for_event_count (visible_event_count events) configured

  -- The cached result is stored in `publish_combat`; its SET with an expiry is an effect too.
  abbrev pub combat_effects : MatchRuntimeState → List BoardEvent → List Effect
  combat_effects r events =
      append_round_events r.round events
      ∷ cache_combat_result events (combat_result_ttl_seconds (timeout_for events))
      ∷ combat_events r.round (cycle_count events) events r.p1_state.board r.p2_state.board
      ∷ schedule_combat_done_timeout r.round (timeout_for events)
      ∷ []

  -- `others n` is what other requests do before the access n of this one.
  abbrev pub publish_combat :
      (ℕ → MatchStore → MatchStore) → MatchRuntimeState → List BoardEvent → MatchStore → Ran
  publish_combat others r events s =
      let cached = record (others 3 s) { combat_result = some events } in
      (true, hset (mark_combat_round r.round) (others 4 cached), combat_effects r events)

  abbrev pub after_battle :
      (ℕ → MatchStore → MatchStore)
      → MatchRuntimeState
      → ℕ
      → List BoardEvent
      → MatchStore
      → Option MatchRuntimeState
      → Ran
  after_battle others r round events s none = (false, s, [])
  after_battle others r round events s (some current) =
      if ready_to_fight current round then publish_combat others r events s else (false, s, [])

  abbrev pub fight : (ℕ → MatchStore → MatchStore) → ℕ → MatchStore → Option MatchRuntimeState → Ran
  fight others round s none = (false, s, [])
  fight others round s (some r) =
      if ready_to_fight r round && not (is_round r.combat_round round)
      then (let now = others 2 (forget_round (others 1 s)) in
          after_battle others r round (run_battle lc (battle_of r)) now now.runtime)
      else (false, s, [])

  -- `runCombat`; `acquired` says whether the lock was free.
  unfoldable pub run_combat :
      (acquired : Bool) → (ℕ → MatchStore → MatchStore) → (round : ℕ) → MatchStore → Ran
  run_combat acquired others round s =
      if acquired then fight others round (others 0 s) (others 0 s).runtime else (false, s, [])
