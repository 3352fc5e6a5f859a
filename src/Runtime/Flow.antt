-- ===== src/Runtime/Flow.antt =====
-- How a match leaves a phase: `applyDamageAndAdvance` and `surrender` of
-- backend/src/runtime/match.runtime.adapter.ts. `seen` is the store that the first read finds, the
-- store `s` the one that the script phase_flip changes, and `between` what other requests do before
-- the write that follows the flip. Names that `findRuntime` fills in are taken to be there.
pub mod Once
pub mod Outcome
pub mod Settlement
use mobile_final_project.Base.{
  ℕ, suc, ◌+◌, String, Bool, true, false, Option, none, some, List, [], ◌∷◌, ◌++◌, ◌==◌, ◌&&◌, ◌||◌,
  not, if◌then◌else◌,
}
use mobile_final_project.Game.Types.{Side, p1, p2, BoardEvent}
use mobile_final_project.Runtime.State.{
  MatchPhase, shop_place, battle, resolved, finished, same_phase, RuntimePlayerState,
  MatchRuntimeState, summarize_board, by_side,
}
use mobile_final_project.Runtime.Rules.{Resolution, MatchResult, undecided, decided, resolve_round}
use mobile_final_project.Runtime.Effects.{
  ErrorCode, internal_error, runtime_not_found, not_your_match, Result, ok, err, PhasePayload,
  PhasePlayer, EndReason, hp_zero, forfeit, Effect, match_phase, match_damage, update_snapshot,
  finalize, publish_state, side_of,
}
use mobile_final_project.Runtime.Store.{MatchStore, phase_flip}

abbrev pub Answer : Type 0
Answer = Result Bool × MatchStore × List Effect

abbrev pub round_gold : ℕ
round_gold = 5

unfoldable pub phase_payload : MatchRuntimeState → ℕ → PhasePayload
phase_payload r timer = record {
  match_id = r.match_id;
  phase = r.phase;
  round = r.round;
  timer = timer;
  player1 = record {
    id = r.player1_id;
    username = r.player1_name;
    hp = r.p1_state.hp;
    gold = r.p1_state.gold;
    ready = r.ready_p1;
  };
  player2 = record {
    id = r.player2_id;
    username = r.player2_name;
    hp = r.p2_state.hp;
    gold = r.p2_state.gold;
    ready = r.ready_p2;
  };
}

-- HSET on the fields of the runtime hash, where there is one.
abbrev pub write_option :
    (MatchRuntimeState → MatchRuntimeState) → Option MatchRuntimeState → Option MatchRuntimeState
write_option f none = none
write_option f (some r) = some (f r)

unfoldable pub hset : (MatchRuntimeState → MatchRuntimeState) → MatchStore → MatchStore
hset f s = record s { runtime = write_option f s.runtime }

-- A player's state when the next round is near: `p1.gold += ROUND_GOLD; p1.ready = false`.
abbrev pub paid : RuntimePlayerState → RuntimePlayerState
paid st = record st { gold = st.gold + round_gold; ready = false }

-- The end of the match: the fields written, and what is sent.
unfoldable pub end_match : Resolution → Option String → MatchStore → Answer
end_match res winner s = (
  ok true,
  hset
      (λ r. record r {
        phase = finished;
        p1_state = res.p1;
        p2_state = res.p2;
        wipe_index_p1 = res.damage.wipe_index_p1;
        wipe_index_p2 = res.damage.wipe_index_p2;
      })
      s,
  update_snapshot res.p1 res.p2 res.damage.wipe_index_p1 res.damage.wipe_index_p2
      ∷ match_damage res.payload
      ∷ finalize winner hp_zero
      ∷ [],
)

-- The fields written when the match goes on.
abbrev pub settle : ℕ → Resolution → MatchRuntimeState → MatchRuntimeState
settle round res r = record r {
  p1_state = paid res.p1;
  p2_state = paid res.p2;
  ready_p1 = false;
  ready_p2 = false;
  wipe_index_p1 = res.damage.wipe_index_p1;
  wipe_index_p2 = res.damage.wipe_index_p2;
  combat_round = none;
  scout_round = some round;
  scout_p1_board = summarize_board (paid res.p1).board;
  scout_p2_board = summarize_board (paid res.p2).board;
}

unfoldable pub go_on : MatchRuntimeState → ℕ → Resolution → MatchStore → Answer
unfolding hset phase_payload
go_on runtime round res s =
    let now = record (settle round res runtime) { phase = resolved } in
    (
      ok true,
      hset (settle round res) s,
      update_snapshot (paid res.p1) (paid res.p2) res.damage.wipe_index_p1 res.damage.wipe_index_p2
          ∷ match_damage res.payload
          ∷ match_phase (phase_payload now 0)
          ∷ publish_state now p1 now.p1_state,
    )

abbrev pub settle_match : MatchRuntimeState → ℕ → Resolution → MatchResult → MatchStore → Answer
settle_match runtime round res (decided winner) s = end_match res winner s
settle_match runtime round res undecided s = go_on runtime round res s

-- What follows a flip, if it succeeded.
abbrev pub if_flipped : Bool × MatchStore → (MatchStore → Answer) → Answer
if_flipped (true, s) next = next s
if_flipped (false, s) next = (ok false, s, [])

-- `resolveRound` throws when the events have no `battle_end`.
abbrev pub after_resolve :
    MatchRuntimeState → ℕ → Option Resolution → (MatchStore → MatchStore) → MatchStore → Answer
after_resolve runtime round none between s = (err internal_error, s, [])
after_resolve runtime round (some res) between s =
    if_flipped (phase_flip battle resolved round none s)
      (λ t. settle_match runtime round res res.winner_id (between t))

abbrev pub is_round : Option ℕ → ℕ → Bool
is_round none round = false
is_round (some n) round = n == round

abbrev pub after_events :
    MatchRuntimeState
    → ℕ
    → Option (List BoardEvent)
    → (MatchStore → MatchStore)
    → MatchStore
    → Answer
after_events runtime round none between s = (ok false, s, [])
after_events runtime round (some events) between s =
    after_resolve runtime round (resolve_round runtime round events) between s

abbrev pub in_battle : MatchRuntimeState → ℕ → Bool
in_battle r round = same_phase r.phase battle && (r.round == round) && is_round r.combat_round round

abbrev pub after_read :
    ℕ
    → Option MatchRuntimeState
    → Option (List BoardEvent)
    → (MatchStore → MatchStore)
    → MatchStore
    → Answer
after_read round none cached between s = (ok false, s, [])
after_read round (some r) cached between s =
    if in_battle r round then after_events r round cached between s else (ok false, s, [])

-- The runtime is read in `seen`, and the events in `cache`.
unfoldable pub apply_damage_and_advance :
    ℕ → MatchStore → MatchStore → (MatchStore → MatchStore) → MatchStore → Answer
apply_damage_and_advance round seen cache between s =
    after_read round seen.runtime cache.combat_result between s

-- `side === 'p1' ? player2Id : player1Id`
abbrev pub other_id : MatchRuntimeState → Side → String
other_id r side = by_side side r.player2_id r.player1_id

abbrev surrender_as : MatchRuntimeState → ℕ → Bool → Option Side → MatchStore → Answer
surrender_as r round finalized none s = (err not_your_match, s, [])
surrender_as r round finalized (some side) s =
    if_flipped (phase_flip r.phase finished round none s)
      (λ t. (ok finalized, t, finalize (some (other_id r side)) forfeit ∷ []))

abbrev surrender_in : String → ℕ → Bool → Option MatchRuntimeState → MatchStore → Answer
surrender_in user round finalized none s = (err runtime_not_found, s, [])
surrender_in user round finalized (some r) s =
    if not (r.round == round) || same_phase r.phase finished
    then (ok false, s, [])
    else surrender_as r round finalized (side_of r user) s

-- `finalized` is what `matches.finalize` answers.
unfoldable pub surrender : String → ℕ → Bool → MatchStore → MatchStore → Answer
surrender user round finalized seen s = surrender_in user round finalized seen.runtime s
