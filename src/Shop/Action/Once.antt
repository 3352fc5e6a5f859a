-- ===== src/Shop/Action/Once.antt =====
-- A request to the shop commits once, in the phase and the round it names, or leaves no trace.
use mobile_final_project.Base.{
  ℕ, ◌≡◌, ◌≢◌, refl, sym, ap, ◌∙◌, String, Bool, true, false, some, [], ◌+◌, not, Bool-cases, ◌⊎◌,
  inl, inr,
}
use mobile_final_project.Runtime.State.{shop_place}
use mobile_final_project.Runtime.Effects.{refresh_used, Result, ok, err, ◌>>=◌}
use mobile_final_project.Runtime.Effects.Success.{guard-ok, bind-ok, ok_eq}
use mobile_final_project.Runtime.Store.{
  lookup, MatchStore, is_logged, player_state, Recorded, recorded, duplicate, phase_mismatch,
}
use mobile_final_project.Runtime.Store.Keys.{IsCommit, LogCases, action_log-cases, true_ne_false}
use mobile_final_project.Shop.Offers.{generate_offers}
use mobile_final_project.Shop.Roster.Worth.{worth}
use mobile_final_project.Shop.Mutations.{ActionContext, refresh}
use mobile_final_project.Shop.Mutations.Gold.{buy-IsPurchase, sell_keeps_worth}
use mobile_final_project.Shop.Mutations.Copies.{fuse-Fused}
use mobile_final_project.Shop.Action.{
  Views, action_lock_attempts, acquire_lock, action_context, Outcome, after_commit, persist_action,
  persist_result, with_action, ShopRequest, buy_offer, sell_unit, refresh_offers, fuse_units,
  mutation, shop_request,
}

-- No trace: the store is the one before, and nothing is sent.
abbrev pub NoTrace : MatchStore → Outcome → Type 0
NoTrace s out = (out.1 ≡ s) × (out.2 ≡ [])

-- The commit of a result of the request's callback.
abbrev pub Committed :
    String → String → Result (ActionContext × Bool) → MatchStore → Outcome → Type 0
Committed user id mutated s out =
    (out.0 ≡ ok false)
    × ((c : ActionContext) × (emit : Bool) × (mutated ≡ ok (c, emit))
        × IsCommit user id (player_state c.side c.state) shop_place c.runtime.round s out.1)

after_commit-NoTrace :
    (user : String) (c : ActionContext) (emit : Bool) (out : Recorded) (s : MatchStore)
    → out ≢ recorded
    → NoTrace s (after_commit user c emit (out, s))
after_commit-NoTrace user c emit recorded s h = absurd (h refl)
after_commit-NoTrace user c emit duplicate s h = (refl, refl)
after_commit-NoTrace user c emit phase_mismatch s h = (refl, refl)
after_commit-NoTrace user c emit Recorded.round_mismatch s h = (refl, refl)

after_commit-Committed :
    (user id : String) (c : ActionContext) (emit : Bool) (m : Result (ActionContext × Bool))
    (s : MatchStore) (out : Recorded × MatchStore)
    → m ≡ ok (c, emit)
    → LogCases user id (player_state c.side c.state) shop_place c.runtime.round s out
    → NoTrace s (after_commit user c emit out)
      ⊎ Committed user id m s (after_commit user c emit out)
after_commit-Committed user id c emit m s (r, s') e (inl (h, k)) =
    let (a, b) = after_commit-NoTrace user c emit r s' h in inl (a ∙ k, b)
after_commit-Committed user id c emit m s (recorded, s') e (inr (h, k)) =
    inr (refl, (c, emit, e, k))
after_commit-Committed user id c emit m s (duplicate, s') e (inr (h, k)) = cc
after_commit-Committed user id c emit m s (phase_mismatch, s') e (inr (h, k)) = cc
after_commit-Committed user id c emit m s (Recorded.round_mismatch, s') e (inr (h, k)) = cc

persist_result-cases :
    (user id : String) (m : Result (ActionContext × Bool)) (s : MatchStore)
    → NoTrace s (persist_result user id m s) ⊎ Committed user id m s (persist_result user id m s)
unfolding persist_action
persist_result-cases user id (err e) s = inl (refl, refl)
persist_result-cases user id (ok (c, emit)) s =
    after_commit-Committed user id c emit (ok (c, emit)) s _ refl (
      action_log-cases user id (player_state c.side c.state) (some c.shop) shop_place
        c.runtime.round s)

pub with_action-cases :
    (user : String) (round : ℕ) (id : String)
    (mutate : ActionContext → Result (ActionContext × Bool)) (free : ℕ → Bool) (v : Views)
    (s : MatchStore)
    → let out = with_action user round id mutate free v s in
      NoTrace s out
      ⊎ Committed user id
          (action_context user round v.at_runtime.runtime (lookup user v.at_shop.shops) >>= mutate)
          s
          out
unfolding with_action
with_action-cases user round id mutate free v s =
    elim (Bool-cases (is_logged v.before_lock user id)) [
      | inl a ↦ rw a (inl (refl, refl))
      | inr a ↦ elim (Bool-cases (acquire_lock action_lock_attempts 0 free)) [
        | inr b ↦ rw (a, b) (inl (refl, refl))
        | inl b ↦ elim (Bool-cases (is_logged v.under_lock user id)) [
          | inl c ↦ rw (a, b, c) (inl (refl, refl))
          | inr c ↦ rw (a, b, c) (persist_result-cases user id _ s)
        ]
      ]
    ]

module _ (digest_word : String → ℕ) (digest_hex : String → String) where
  refresh_keeps_worth :
      (round : ℕ) (user : String) (c c' : ActionContext) (emit : Bool)
      → refresh digest_word digest_hex round user c ≡ ok (c', emit)
      → worth c'.state ≡ worth c.state
  unfolding refresh
  refresh_keeps_worth round user c c' emit h =
      let (g, h1) = guard-ok (not c.shop.refresh_used) refresh_used _ h in
      let (os, o, h2) =
        bind-ok
          (generate_offers digest_word digest_hex c.runtime.match_seed round user
            (c.shop.refresh_count + 1))
          _ h1 in
      sym (ap (λ (p : ActionContext × Bool). worth p.0.state) (ok_eq h2))

  mutation_keeps_worth :
      (request : ShopRequest) (round : ℕ) (user : String) (c c' : ActionContext) (emit : Bool)
      → mutation digest_word digest_hex request round user c ≡ ok (c', emit)
      → worth c'.state ≡ worth c.state
  mutation_keeps_worth (buy_offer i fresh) round user c c' emit h =
      (buy-IsPurchase i fresh c c' emit h).1.3
  mutation_keeps_worth (sell_unit source slot) round user c c' emit h =
      sell_keeps_worth source slot c c' emit h
  mutation_keeps_worth refresh_offers round user c c' emit h =
      refresh_keeps_worth round user c c' emit h
  mutation_keeps_worth (fuse_units unit_id s t) round user c c' emit h =
      (fuse-Fused unit_id s t c c' emit h).3.3

  -- What a request of the shop that succeeds has done.
  abbrev pub Served : ShopRequest → String → ℕ → String → Views → MatchStore → Outcome → Type 0
  Served request user round id v s out =
      (out.0 ≡ ok false)
      × ((c : ActionContext) × (c' : ActionContext) × (emit : Bool) × (action_context user round
              v.at_runtime.runtime (lookup user v.at_shop.shops)
            ≡ ok c)
          × (mutation digest_word digest_hex request round user c ≡ ok (c', emit))
          × (worth c'.state ≡ worth c.state)
          × IsCommit user id (player_state c'.side c'.state) shop_place c'.runtime.round s out.1)

  -- A request of the shop, whatever other requests do between its reads and its commit, either
  -- leaves the store and sends nothing, or commits once under an id that the log of the store did
  -- not hold and then holds, in phase `shop_place` and the round that it read, and writes a state
  -- of the same worth as the one it read.
  pub shop_request-Served :
      (request : ShopRequest) (user : String) (round : ℕ) (id : String) (free : ℕ → Bool)
      (v : Views) (s : MatchStore)
      → let out = shop_request digest_word digest_hex request user round id free v s in
        NoTrace s out ⊎ Served request user round id v s out
  unfolding shop_request
  shop_request-Served request user round id free v s =
      elim (with_action-cases user round id (mutation digest_word digest_hex request round user)
        free v s) [
          | inl h ↦ inl h
          | inr (a, (c', emit, m, commit)) ↦
              let (c, e, h) =
                bind-ok
                  (action_context user round v.at_runtime.runtime (lookup user v.at_shop.shops))
                  (mutation digest_word digest_hex request round user) m in
              inr (
                a,
                (c, c', emit, e, h, mutation_keeps_worth request round user c c' emit h, commit),
              )
        ]

  -- An action id that the log of the store holds when the request commits is not applied again:
  -- the store stays as it is and nothing is sent.
  pub shop_request_once :
      (request : ShopRequest) (user : String) (round : ℕ) (id : String) (free : ℕ → Bool)
      (v : Views) (s : MatchStore)
      → is_logged s user id ≡ true
      → NoTrace s (shop_request digest_word digest_hex request user round id free v s)
  shop_request_once request user round id free v s l =
      elim (shop_request-Served request user round id free v s) [
        | inl h ↦ h
        | inr (a, (c, c', emit, e, h, w, (l', l'', rest))) ↦ absurd (true_ne_false (sym l ∙ l'))
      ]
