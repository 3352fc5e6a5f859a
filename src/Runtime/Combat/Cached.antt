-- ===== src/Runtime/Combat/Cached.antt =====
-- What a battle that was run leaves: its events, for long enough, and once.
use mobile_final_project.Base.{
  ℕ, ◌+◌, ◌*◌, ◌≤◌, String, ◌≡◌, ◌≢◌, true, Option, some, List, [], ◌∷◌, ◌==◌, Ordering,
}
use mobile_final_project.Game.Types.{Side, BoardEvent}
use mobile_final_project.Game.Engine.{run_battle}
use mobile_final_project.Runtime.State.{MatchRuntimeState}
use mobile_final_project.Runtime.Rules.{battle_winner}
use mobile_final_project.Runtime.Effects.{
  Effect, cache_combat_result, append_round_events, combat_events, schedule_combat_done_timeout,
}
use mobile_final_project.Runtime.Store.{MatchStore}
use mobile_final_project.Runtime.Combat.{
  real_combat_done_timeout_ms, visible_event_count, cycle_count, mark_combat_round, battle_of, Ran,
}

abbrev pub quiet : ℕ → MatchStore → MatchStore
quiet n s = s

module _ (lc : String → String → Ordering) (round_seed : String → ℕ → ℕ) (configured : ℕ) where
  abbrev pub events_of : MatchRuntimeState → List BoardEvent
  events_of r = run_battle lc (battle_of lc round_seed configured r)

  -- What is written with an expiry, appended, sent and scheduled for the battle of the runtime.
  pub record IsSent (r : MatchRuntimeState) (ttl_seconds ms : ℕ) (out : List Effect) : Type 0 where
    pub calls :
        out
        ≡ append_round_events r.round (events_of r)
          ∷ cache_combat_result (events_of r) ttl_seconds
          ∷ combat_events r.round
              (cycle_count (events_of r))
              (events_of r)
              r.p1_state.board
              r.p2_state.board
          ∷ schedule_combat_done_timeout r.round ms
          ∷ []
    pub outlives : ms + 30000 ≤ ttl_seconds * 1000
    pub at_least : configured ≡ real_combat_done_timeout_ms → 60000 ≤ ms
    pub covers :
        configured ≡ real_combat_done_timeout_ms
        → visible_event_count (events_of r) * 800 + 5000 ≤ ms
    pub as_set : configured ≢ real_combat_done_timeout_ms → ms ≡ configured

  -- What the run of a battle has left.
  abbrev pub HasRun : ℕ → Ran → Type 0
  HasRun round p =
      (r : MatchRuntimeState) × (p.1.runtime ≡ some (mark_combat_round r.round r))
      × ((r.round == round) ≡ true)
      × (p.1.combat_result ≡ some (events_of r))
      × (p.1.acks ≡ [])
      × ((w : Option Side) × (battle_winner (events_of r) ≡ some w))
      × ((ttl_seconds : ℕ) × (ms : ℕ) × IsSent r ttl_seconds ms p.2)
