-- ===== src/Runtime/Ready.antt =====
-- How a battle starts, in backend/src/runtime/match.runtime.adapter.ts: `markReadyAction`,
-- `markReady`, `tryStartCombat` with `publishDamagePreview`, and `getCombatResultForReconnect`.
pub mod Started
use mobile_final_project.Base.{
  ℕ, ◌+◌, String, Bool, true, false, Option, none, some, List, [], ◌∷◌, ◌++◌, ◌==◌, ◌&&◌,
  if◌then◌else◌, Ordering,
}
use mobile_final_project.Game.Types.{Side, p1, p2, BoardEvent}
use mobile_final_project.Runtime.State.{
  MatchPhase, shop_place, battle, same_phase, MatchRuntimeState, by_side,
}
use mobile_final_project.Runtime.Rules.{Resolution, resolve_round}
use mobile_final_project.Runtime.Effects.{
  ErrorCode, internal_error, runtime_not_found, not_your_turn, Result, ok, err, Effect, match_phase,
  match_damage, publish_state,
}
use mobile_final_project.Runtime.Store.{
  MatchStore, phase_flip, ready_flag, write_field, Recorded, recorded, duplicate, phase_mismatch,
  action_log,
}
use mobile_final_project.Runtime.Flow.{Answer, phase_payload, hset, is_round}
use mobile_final_project.Runtime.Rounds.{require_side, ready_count}
use mobile_final_project.Runtime.Combat.{run_combat, Ran}

abbrev pub preview_of : Option Resolution → MatchStore → Answer
preview_of none s = (err internal_error, s, [])
preview_of (some res) s = (ok true, s, match_damage res.payload ∷ [])

abbrev pub preview_from : MatchRuntimeState → ℕ → Option (List BoardEvent) → MatchStore → Answer
preview_from r round none s = (ok false, s, [])
preview_from r round (some events) s = preview_of (resolve_round r round events) s

-- `publishDamagePreview`
unfoldable pub publish_damage_preview : MatchRuntimeState → ℕ → MatchStore → Answer
publish_damage_preview r round s = preview_from r round s.combat_result s

-- The answer of `tryStartCombat` once the preview is out; an exception of it is passed on.
abbrev pub with_preview : List Effect → Answer → Answer
with_preview sent (err e, s, fx) = (err e, s, sent ++ fx)
with_preview sent (ok b, s, fx) = (ok true, s, sent ++ fx)

abbrev pub start_effects : MatchRuntimeState → List Effect
start_effects r = match_phase (phase_payload r 0) ∷ publish_state r p1 r.p1_state

module _ (lc : String → String → Ordering) (round_seed : String → ℕ → ℕ) (configured : ℕ)
    (acquired : Bool) (others : ℕ → MatchStore → MatchStore) where
  abbrev pub after_run : MatchRuntimeState → ℕ → Ran → Answer
  after_run r round (false, s, fx) = (ok false, s, start_effects r ++ fx)
  after_run r round (true, s, fx) =
      with_preview (start_effects r ++ fx) (publish_damage_preview r round (others 7 s))

  abbrev pub after_start : MatchRuntimeState → ℕ → Bool × MatchStore → Answer
  after_start r round (false, s) = (ok false, s, [])
  after_start r round (true, s) =
      let started = record r { phase = battle } in
      after_run started round
        (run_combat lc round_seed configured acquired (λ n. others (n + 2)) round s)

  abbrev pub start_from : ℕ → MatchStore → Option MatchRuntimeState → Answer
  start_from round s none = (ok false, s, [])
  start_from round s (some r) =
      if same_phase r.phase shop_place && (r.round == round)
      then after_start r round (phase_flip shop_place battle round none (others 1 s))
      else (ok false, s, [])

  -- `tryStartCombat`; `others n` is what other requests do before its access n.
  unfoldable pub try_start_combat : ℕ → MatchStore → Answer
  try_start_combat round s = start_from round (others 0 s) (others 0 s).runtime

-- A count of players that are ready, and what the request has done.
abbrev pub Counted : Type 0
Counted = Result (Bool × ℕ) × MatchStore × List Effect

abbrev pub counted : Bool → ℕ → List Effect → Answer → Counted
counted is_duplicate n sent (err e, s, fx) = (err e, s, sent ++ fx)
counted is_duplicate n sent (ok b, s, fx) = (ok (is_duplicate, n), s, sent ++ fx)

-- Two players that are ready start the battle.
abbrev pub start_if_both :
    Bool → List Effect → (MatchStore → Answer) → MatchRuntimeState → MatchStore → Counted
start_if_both is_duplicate sent start updated s =
    if ready_count updated == 2
    then counted is_duplicate (ready_count updated) sent (start s)
    else (ok (is_duplicate, ready_count updated), s, sent)

abbrev pub reread :
    Bool → (MatchStore → Answer) → Side → MatchStore → Option MatchRuntimeState → Counted
reread is_duplicate start side s none = (err runtime_not_found, s, [])
reread true start side s (some updated) = (ok (true, ready_count updated), s, [])
reread false start side s (some updated) =
    start_if_both false
      (publish_state updated side (by_side side updated.p1_state updated.p2_state)) start updated s

abbrev pub after_ready :
    (MatchStore → MatchStore) → (MatchStore → Answer) → Side → Recorded × MatchStore → Counted
after_ready between start side (Recorded.round_mismatch, s) = (err ErrorCode.round_mismatch, s, [])
after_ready between start side (phase_mismatch, s) = (err not_your_turn, s, [])
after_ready between start side (duplicate, s) =
    reread true start side (between s) (between s).runtime
after_ready between start side (recorded, s) =
    reread false start side (between s) (between s).runtime

abbrev pub ready_as :
    (MatchStore → MatchStore)
    → (MatchStore → Answer)
    → String
    → Bool
    → String
    → Result (MatchRuntimeState × Side)
    → MatchStore
    → Counted
ready_as between start user ready action (err e) s = (err e, s, [])
ready_as between start user ready action (ok (r, side)) s =
    after_ready between start side
      (action_log user action (ready_flag side ready) none shop_place r.round s)

-- `markReadyAction`: `seen` is what its first read finds, `between` runs before it reads again, and
-- `start` is `tryStartCombat`.
unfoldable pub mark_ready_action :
    (start : MatchStore → Answer)
    → (seen : MatchStore) → (between : MatchStore → MatchStore) → String
    → ℕ
    → Bool
    → String
    → MatchStore
    → Counted
mark_ready_action start seen between user round ready action s =
    ready_as between start user ready action (require_side user round shop_place seen.runtime) s

abbrev pub mark_again : (MatchStore → Answer) → MatchStore → Option MatchRuntimeState → Counted
mark_again start s none = (err runtime_not_found, s, [])
mark_again start s (some updated) = start_if_both false [] start updated s

abbrev pub mark_as :
    (MatchStore → MatchStore)
    → (MatchStore → Answer)
    → Result (MatchRuntimeState × Side)
    → MatchStore
    → Counted
mark_as between start (err e) s = (err e, s, [])
mark_as between start (ok (r, side)) s =
    let now = between (hset (write_field (ready_flag side true)) s) in
    mark_again start now now.runtime

-- `markReady`
unfoldable pub mark_ready :
    (start : MatchStore → Answer)
    → (seen : MatchStore) → (between : MatchStore → MatchStore) → String
    → ℕ
    → MatchStore
    → Counted
mark_ready start seen between user round s =
    mark_as between start (require_side user round shop_place seen.runtime) s

abbrev pub result_for : MatchRuntimeState → Option (List BoardEvent) → Option (ℕ × List BoardEvent)
result_for r none = none
result_for r (some events) = some (r.round, events)

abbrev pub reconnect_from : MatchStore → Option MatchRuntimeState → Option (ℕ × List BoardEvent)
reconnect_from later none = none
reconnect_from later (some r) =
    if same_phase r.phase battle && is_round r.combat_round r.round
    then result_for r later.combat_result
    else none

-- `getCombatResultForReconnect`, whose second read finds `later`
unfoldable pub get_combat_result_for_reconnect :
    (seen later : MatchStore) → Option (ℕ × List BoardEvent)
get_combat_result_for_reconnect seen later = reconnect_from later seen.runtime
