-- ===== src/Shop/Action.antt =====
-- `withAction` of shop.service.ts, and the requests that run under it. Between its awaits other
-- requests may change the store, so each read has a store of its own, and so has the commit.
pub mod Once
use mobile_final_project.Base.{
  ℕ, zero, suc, ◌+◌, String, Bool, true, false, Option, none, some, List, [], ◌∷◌, ◌++◌, ◌==◌,
  str_eq, if◌then◌else◌,
}
use mobile_final_project.Game.Types.{Side, p1, p2, UnitId}
use mobile_final_project.Runtime.State.{
  MatchPhase, shop_place, same_phase, RuntimePlayerState, MatchRuntimeState, by_side,
  match_state_payload,
}
use mobile_final_project.Runtime.Effects.{
  ErrorCode, runtime_not_found, not_your_turn, not_participant, offers_not_found, shop_busy, Result,
  ok, err, ◌>>=◌, ◌>>◌, guard, or_fail, StoredShop, Effect, update_state, shop_offer, publish_state,
  side_of,
}
use mobile_final_project.Runtime.Store.{
  lookup, MatchStore, is_logged, RuntimeField, player_state, Recorded, recorded, duplicate,
  phase_mismatch, action_log,
}
use mobile_final_project.Shop.Roster.{Source}
use mobile_final_project.Shop.Mutations.{ActionContext, buy, sell, refresh, fuse}

-- What the reads of one request find: the two looks at the action log, the runtime and the shop.
pub record Views : Type 0 where
  pub before_lock : MatchStore
  pub under_lock : MatchStore
  pub at_runtime : MatchStore
  pub at_shop : MatchStore

abbrev pub action_lock_attempts : ℕ
action_lock_attempts = 40

-- `acquireLock` from one attempt on; `free` says whether SET NX answers OK at an attempt.
unfoldable pub acquire_lock : ℕ → ℕ → (ℕ → Bool) → Bool
acquire_lock zero attempt free = false
acquire_lock (suc left) attempt free =
    let later = acquire_lock left (suc attempt) free in if free attempt then true else later

unfoldable pub action_context :
    String → ℕ → Option MatchRuntimeState → Option StoredShop → Result ActionContext
action_context user round stored_runtime stored_shop = do
  runtime ← or_fail stored_runtime runtime_not_found
  guard (runtime.round == round) ErrorCode.round_mismatch
  guard (same_phase runtime.phase shop_place) not_your_turn
  side ← or_fail (side_of runtime user) not_participant
  shop ← or_fail stored_shop offers_not_found
  guard (shop.round == round) offers_not_found
  ok (record {
    runtime = runtime;
    side = side;
    state = by_side side runtime.p1_state runtime.p2_state;
    shop = shop;
  })

-- The answer, with `ok true` for a duplicate; the store after it; what is sent.
abbrev pub Outcome : Type 0
Outcome = Result Bool × MatchStore × List Effect

abbrev shop_offers : Bool → String → ActionContext → List Effect
shop_offers true user c = shop_offer user c.runtime.round c.shop.offers ∷ []
shop_offers false user c = []

-- The rest of `persistAction` and of `withAction` after the script has answered.
abbrev pub after_commit : String → ActionContext → Bool → Recorded × MatchStore → Outcome
after_commit user c emit (Recorded.round_mismatch, s) = (err ErrorCode.round_mismatch, s, [])
after_commit user c emit (phase_mismatch, s) = (err not_your_turn, s, [])
after_commit user c emit (duplicate, s) = (ok true, s, [])
after_commit user c emit (recorded, s) = (
  ok false,
  s,
  update_state c.side c.state ∷ publish_state c.runtime c.side c.state ++ shop_offers emit user c,
)

-- `persistAction`: the key of the shop is that of the side's player.
unfoldable pub persist_action : String → String → ActionContext → Bool → MatchStore → Outcome
persist_action user id c emit s =
    after_commit user c emit
      (action_log user id (player_state c.side c.state) (some c.shop) shop_place c.runtime.round s)

abbrev pub persist_result : String → String → Result (ActionContext × Bool) → MatchStore → Outcome
persist_result user id (err e) s = (err e, s, [])
persist_result user id (ok (c, emit)) s = persist_action user id c emit s

unfoldable pub with_action :
    String
    → ℕ
    → String
    → (ActionContext → Result (ActionContext × Bool))
    → (ℕ → Bool)
    → Views
    → MatchStore
    → Outcome
unfolding persist_action
with_action user round id mutate free v s =
    if is_logged v.before_lock user id
    then (ok true, s, [])
    else (if acquire_lock action_lock_attempts 0 free
        then (if is_logged v.under_lock user id
            then (ok true, s, [])
            else persist_result user id
                (action_context user round v.at_runtime.runtime (lookup user v.at_shop.shops)
                  >>= mutate)
                s)
        else (err shop_busy, s, []))

-- The requests of the shop, with the id that `buy` draws.
pub data ShopRequest : Type 0 where
  buy_offer : (offer_index : ℕ) (fresh : String) → ShopRequest
  sell_unit : Source → (slot : ℕ) → ShopRequest
  refresh_offers : ShopRequest
  fuse_units : UnitId → (source_id target_id : Option String) → ShopRequest

module _ (digest_word : String → ℕ) (digest_hex : String → String) where
  abbrev pub mutation : ShopRequest → ℕ → String → ActionContext → Result (ActionContext × Bool)
  mutation (buy_offer i fresh) round user c = buy i fresh c
  mutation (sell_unit source slot) round user c = sell source slot c
  mutation refresh_offers round user c = refresh digest_word digest_hex round user c
  mutation (fuse_units unit_id source_id target_id) round user c =
      fuse unit_id source_id target_id c

  -- One call of the service's `buy`, `sell`, `refresh` or `fuse`.
  unfoldable pub shop_request :
      ShopRequest → String → ℕ → String → (ℕ → Bool) → Views → MatchStore → Outcome
  shop_request request user round id free v s =
      with_action user round id (mutation request round user) free v s
