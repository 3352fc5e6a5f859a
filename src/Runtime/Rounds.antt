-- ===== src/Runtime/Rounds.antt =====
-- The requests of a match in battle and after it, in backend/src/runtime/match.runtime.adapter.ts:
-- `advanceResolvedRound`, `markRoundReady`, `handleCombatDone` and `handleDisconnect`, with
-- `rollOffersForMatch` of backend/src/shop/shop.service.ts. As in Flow, `seen` is what the first read
-- finds; the functions `between` and `later` are what other requests do in the meantime.
pub mod Fresh
use mobile_final_project.Base.{
  ℕ, suc, ◌+◌, ◌*◌, String, Bool, true, false, Option, none, some, List, [], ◌∷◌, ◌++◌, ◌==◌, leb,
  ◌&&◌, if◌then◌else◌,
}
use mobile_final_project.Game.Types.{Side, p1, p2}
use mobile_final_project.Runtime.State.{
  MatchPhase, shop_place, battle, resolved, finished, same_phase, MatchRuntimeState, by_side,
}
use mobile_final_project.Runtime.Effects.{
  ErrorCode, runtime_not_found, not_your_turn, not_your_match, Result, ok, err, ◌>>=◌, ◌>>◌, guard,
  or_fail, ShopOffer, StoredShop, Effect, match_phase, shop_offer, schedule_phase_start,
  schedule_round_ready_timeout, forfeit_disconnected, publish_state, side_of, count_of,
}
use mobile_final_project.Runtime.Store.{
  MatchStore, insert, phase_flip, combat_done, write_field, ready_flag,
}
use mobile_final_project.Runtime.Flow.{
  Answer, phase_payload, hset, if_flipped, apply_damage_and_advance,
}
use mobile_final_project.Shop.Offers.{generate_offers}

abbrev pub shop_phase_seconds : ℕ
shop_phase_seconds = 40

abbrev pub round_ready_grace_ms : ℕ
round_ready_grace_ms = 3000

-- One call after another: an exception ends the sequence.
abbrev pub then_do : Answer → (MatchStore → Answer) → Answer
then_do (err e, s, fx) next = (err e, s, fx)
then_do (ok b, s, fx) next = let (r, t, gx) = next s in (r, t, fx ++ gx)

-- A shop at the start of a phase.
abbrev pub new_shop : ℕ → List (Option ShopOffer) → StoredShop
new_shop round offers = record {
  round = round;
  refresh_count = 0;
  refresh_used = false;
  offers = offers;
}

abbrev pub store_shop :
    MatchRuntimeState → String → Result (List (Option ShopOffer)) → MatchStore → Answer
store_shop r player (err e) s = (err e, s, [])
store_shop r player (ok offers) s = (
  ok true,
  record s { shops = insert player (new_shop r.round offers) s.shops },
  shop_offer player r.round offers ∷ [],
)

-- The runtime of the next planning phase.
abbrev pub next_round : MatchRuntimeState → ℕ → MatchRuntimeState
next_round r round = record r {
  phase = shop_place;
  round = suc round;
  ready_p1 = false;
  ready_p2 = false;
  combat_round = none;
}

-- What other requests do before the later steps of a request.
pub record Meanwhile : Type 0 where
  pub before_reread : MatchStore → MatchStore
  pub before_advance : MatchStore → MatchStore
  pub before_flip : MatchStore → MatchStore
  pub before_write : MatchStore → MatchStore

unfoldable pub require_action_phase :
    ℕ → MatchPhase → Option MatchRuntimeState → Result MatchRuntimeState
require_action_phase round phase stored = do
  runtime ← or_fail stored runtime_not_found
  guard (runtime.round == round) ErrorCode.round_mismatch
  guard (same_phase runtime.phase phase) not_your_turn
  ok runtime

-- `requireActionPhase`, then `sideFor`
abbrev pub require_side :
    String → ℕ → MatchPhase → Option MatchRuntimeState → Result (MatchRuntimeState × Side)
require_side user round phase stored = do
  runtime ← require_action_phase round phase stored
  side ← or_fail (side_of runtime user) not_your_match
  ok (runtime, side)

abbrev pub ready_count : MatchRuntimeState → ℕ
ready_count r = count_of r.ready_p1 + count_of r.ready_p2

abbrev pub Counted : Type 0
Counted = Result (Bool × ℕ) × MatchStore × List Effect

-- The awaited call's exception goes on; else the answer is the count.
abbrev pub with_count : ℕ → Answer → Counted
with_count n (err e, s, fx) = (err e, s, fx)
with_count n (ok b, s, fx) = (ok (false, n), s, fx)

module _ (digest_word : String → ℕ) (digest_hex : String → String) where
  unfoldable pub reset_shop : MatchRuntimeState → String → MatchStore → Answer
  reset_shop r player s =
      store_shop r player (generate_offers digest_word digest_hex r.match_seed r.round player 0) s

  unfoldable pub roll_offers : MatchRuntimeState → MatchStore → Answer
  roll_offers r s = then_do (reset_shop r r.player1_id s) (reset_shop r r.player2_id)

  unfoldable pub open_shops : MatchRuntimeState → ℕ → MatchStore → Answer
  unfolding hset phase_payload
  open_shops r round s =
      let now = next_round r round in
      then_do
        (
          ok true,
          hset (λ q. record q { ready_p1 = false; ready_p2 = false; combat_round = none }) s,
          schedule_phase_start (suc round) (shop_phase_seconds * 1000)
              ∷ match_phase (phase_payload now shop_phase_seconds)
              ∷ publish_state now p1 now.p1_state,
        )
        (roll_offers now)

  abbrev pub advance_from :
      ℕ → Option MatchRuntimeState → (MatchStore → MatchStore) → MatchStore → Answer
  advance_from round none between s = (ok false, s, [])
  advance_from round (some r) between s =
      if same_phase r.phase resolved && (r.round == round)
      then if_flipped (phase_flip resolved shop_place round (some (suc round)) s)
          (λ t. open_shops r round (between t))
      else (ok false, s, [])

  unfoldable pub advance_resolved_round :
      ℕ → MatchStore → (MatchStore → MatchStore) → MatchStore → Answer
  advance_resolved_round round seen between s = advance_from round seen.runtime between s

  abbrev pub acknowledged : ℕ → Meanwhile → MatchStore → Option MatchRuntimeState → Counted
  acknowledged round m t none = (err runtime_not_found, t, [])
  acknowledged round m t (some u) =
      let a = m.before_advance t in
      if leb 2 (ready_count u)
      then with_count (ready_count u)
          (advance_resolved_round round a m.before_write (m.before_flip a))
      else (
        ok (false, ready_count u),
        t,
        schedule_round_ready_timeout round round_ready_grace_ms
            ∷ match_phase (phase_payload u 3)
            ∷ [],
      )

  abbrev pub mark_from : ℕ → Meanwhile → MatchStore → Result (MatchRuntimeState × Side) → Counted
  mark_from round m s (err e) = (err e, s, [])
  mark_from round m s (ok (r, side)) =
      let t = m.before_reread (hset (write_field (ready_flag side true)) s) in
      if by_side side r.ready_p1 r.ready_p2
      then (ok (true, ready_count r), s, [])
      else acknowledged round m t t.runtime

  unfoldable pub mark_round_ready : String → ℕ → MatchStore → Meanwhile → MatchStore → Counted
  mark_round_ready user round seen m s =
      mark_from round m s (require_side user round resolved seen.runtime)

abbrev done_from : String → ℕ → Meanwhile → MatchStore → Result (MatchRuntimeState × Side) → Counted
done_from user round m s (err e) = (err e, s, [])
done_from user round m s (ok (r, side)) =
    let (count, t) = combat_done user s in
    let a = m.before_advance t in
    if leb 2 count
    then with_count count (apply_damage_and_advance round a a m.before_write (m.before_flip a))
    else (ok (false, count), t, [])

-- The answer is the count; its Boolean is always false.
unfoldable pub handle_combat_done : String → ℕ → MatchStore → Meanwhile → MatchStore → Counted
handle_combat_done user round seen m s =
    done_from user round m s (require_side user round battle seen.runtime)

abbrev disconnect_side : String → Bool → MatchRuntimeState → Option Side → MatchStore → Answer
disconnect_side user forfeited r none s = (err not_your_match, s, [])
disconnect_side user forfeited r (some side) s =
    if same_phase r.phase finished
    then (ok false, s, [])
    else if_flipped (phase_flip r.phase finished r.round none s)
        (λ t. (ok forfeited, t, forfeit_disconnected user ∷ []))

abbrev disconnect_from : String → Bool → Option MatchRuntimeState → MatchStore → Answer
disconnect_from user forfeited none s = (ok forfeited, s, forfeit_disconnected user ∷ [])
disconnect_from user forfeited (some r) s = disconnect_side user forfeited r (side_of r user) s

-- `forfeited` is what `matches.forfeitDisconnectedPlayer` answers.
unfoldable pub handle_disconnect : String → Bool → MatchStore → MatchStore → Answer
handle_disconnect user forfeited seen s = disconnect_from user forfeited seen.runtime s
