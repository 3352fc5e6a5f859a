-- ===== src/Runtime/Place.antt =====
-- `place` of backend/src/runtime/match.runtime.adapter.ts: a unit moves between the slots of its
-- player, under the lock that the shop's requests take too; and `statePayloadForUser`.
pub mod Moves
use mobile_final_project.Base.{
  ℕ, String, Bool, true, false, Option, none, some, List, [], ◌∷◌, ◌==◌, ◌&&◌, not, find, str_eq,
  if◌then◌else◌,
}
use mobile_final_project.Game.Types.{Side}
use mobile_final_project.Runtime.State.{
  shop_place, RuntimeUnitState, RuntimePlayerState, MatchRuntimeState, by_side, match_state_payload,
  MatchStatePayload,
}
use mobile_final_project.Runtime.Effects.{
  ErrorCode, runtime_not_found, not_your_match, side_of, not_your_turn, slot_out_of_range,
  unit_not_owned, slot_occupied, action_busy, Result, ok, err, ◌>>=◌, ◌>>◌, guard, or_fail, Effect,
  update_state, publish_state,
}
use mobile_final_project.Runtime.Store.{
  MatchStore, is_logged, player_state, Recorded, recorded, duplicate, phase_mismatch, action_log,
}
use mobile_final_project.Runtime.Rounds.{require_side, ready_count}
use mobile_final_project.Shop.Roster.{
  Source, board, bench, source_code, set_slot, slot_at, RosterEntry, entries_from,
}
use mobile_final_project.Shop.Mutations.{is_unit}
use mobile_final_project.Shop.Action.{Outcome, action_lock_attempts, acquire_lock}

abbrev pub or_else_entry : Option RosterEntry → Option RosterEntry → Option RosterEntry
or_else_entry (some e) other = some e
or_else_entry none other = other

unfoldable pub find_roster_unit : RuntimePlayerState → String → Option RosterEntry
find_roster_unit st id =
    or_else_entry (find (is_unit id) (entries_from board 0 st.board))
      (find (is_unit id) (entries_from bench 0 st.bench))

-- `!(occupied && occupied.instanceId !== unitInstanceId)`
abbrev pub admits : String → Option RuntimeUnitState → Bool
admits id none = true
admits id (some u) = str_eq u.instance_id id

abbrev pub stands_at : RosterEntry → Source → ℕ → Bool
stands_at e target slot = (source_code e.source == source_code target) && (e.slot == slot)

unfoldable pub move_unit : RosterEntry → Source → ℕ → RuntimePlayerState → RuntimePlayerState
move_unit e target slot st =
    if stands_at e target slot
    then st
    else set_slot (set_slot st e.source e.slot none) target slot (some e.unit)

-- The checks of `place` on a player's state, and the state after the move.
unfoldable pub place_state : String → Source → ℕ → RuntimePlayerState → Result RuntimePlayerState
place_state id target slot st = do
  occupied ← or_fail (slot_at st target slot) slot_out_of_range
  source ← or_fail (find_roster_unit st id) unit_not_owned
  guard (admits id occupied) slot_occupied
  ok (move_unit source target slot st)

-- `commitRuntimeAction` has answered; the rest of `place`.
abbrev pub after_place :
    MatchRuntimeState → Side → RuntimePlayerState → Recorded × MatchStore → Outcome
after_place r side st (Recorded.round_mismatch, s) = (err ErrorCode.round_mismatch, s, [])
after_place r side st (phase_mismatch, s) = (err not_your_turn, s, [])
after_place r side st (duplicate, s) = (ok true, s, [])
after_place r side st (recorded, s) = (ok false, s, update_state side st ∷ publish_state r side st)

abbrev pub commit_place :
    String → String → MatchRuntimeState × Side → Result RuntimePlayerState → MatchStore → Outcome
commit_place user action (r, side) (err e) s = (err e, s, [])
commit_place user action (r, side) (ok st) s =
    after_place r side st (action_log user action (player_state side st) none shop_place r.round s)

abbrev pub place_as :
    String → String → Source → ℕ → String → Result (MatchRuntimeState × Side) → MatchStore → Outcome
place_as user id target slot action (err e) s = (err e, s, [])
place_as user id target slot action (ok (r, side)) s =
    commit_place user action (r, side)
      (place_state id target slot (by_side side r.p1_state r.p2_state)) s

-- `withPlayerActionLock`, whose lock is the one of the shop's requests.
unfoldable pub with_player_action_lock : (ℕ → Bool) → Outcome → MatchStore → Outcome
with_player_action_lock free action s =
    if acquire_lock action_lock_attempts 0 free then action else (err action_busy, s, [])

-- `logged` is the store that the look at the action log finds, `seen` the one of the runtime.
unfoldable pub place :
    String
    → ℕ
    → String
    → Source
    → ℕ
    → String
    → (ℕ → Bool)
    → MatchStore
    → MatchStore
    → MatchStore
    → Outcome
unfolding with_player_action_lock
place user round id target slot action free logged seen s =
    with_player_action_lock free
      (if is_logged logged user action
        then (ok true, s, [])
        else place_as user id target slot action (require_side user round shop_place seen.runtime)
            s)
      s

-- `statePayloadForUser`
unfoldable pub state_payload_for_user : String → MatchStore → Result MatchStatePayload
state_payload_for_user user seen = do
  runtime ← or_fail seen.runtime runtime_not_found
  side ← or_fail (side_of runtime user) not_your_match
  let own = by_side side runtime.p1_state runtime.p2_state
  let opponent = by_side side runtime.p2_state runtime.p1_state
  ok (match_state_payload runtime side own opponent (ready_count runtime))
