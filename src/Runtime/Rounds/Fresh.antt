-- ===== src/Runtime/Rounds/Fresh.antt =====
-- The next planning phase starts once, and with fresh shops.
use mobile_final_project.Base.{
  ℕ, suc, ◌≡◌, String, true, false, Option, none, some, List, ◌∷◌, ◌⊎◌, length,
}
use mobile_final_project.Runtime.State.{shop_place, resolved, MatchRuntimeState}
use mobile_final_project.Runtime.Effects.{
  ok, StoredShop, PhasePayload, Effect, schedule_phase_start, match_phase,
}
use mobile_final_project.Runtime.Store.{MatchStore, lookup}
use mobile_final_project.Runtime.Store.Keys.{IsFlip}
use mobile_final_project.Runtime.Flow.{Answer}

-- The player has a shop for the round, with five offers and its refresh unused.
abbrev pub HasFreshShop : MatchStore → String → ℕ → Type 0
HasFreshShop s player round =
    (shop : StoredShop) × (lookup player s.shops ≡ some shop)
    × (shop.round ≡ round)
    × (shop.refresh_used ≡ false)
    × (length shop.offers ≡ 5)

-- The runtime `q'` is `q` with nobody ready and no battle marked.
pub record IsReset (q q' : MatchRuntimeState) : Type 0 where
  pub phase : q'.phase ≡ q.phase
  pub round : q'.round ≡ q.round
  pub unready : (q'.ready_p1 ≡ false) × (q'.ready_p2 ≡ false)
  pub unmarked : q'.combat_round ≡ none
  pub states : (q'.p1_state ≡ q.p1_state) × (q'.p2_state ≡ q.p2_state)

-- The store `s'` is `s` with the runtime reset, if there is one, and other shops.
abbrev pub Reopens : MatchStore → MatchStore → Type 0
Reopens s s' =
    (s' ≡ record s { runtime = s'.runtime; shops = s'.shops })
    × (((s.runtime ≡ none) × (s'.runtime ≡ none))
        ⊎ ((q : MatchRuntimeState) × (q' : MatchRuntimeState) × (s.runtime ≡ some q)
            × (s'.runtime ≡ some q')
            × IsReset q q'))

-- The planning phase of the round is announced and scheduled to end.
abbrev pub Announces : ℕ → List Effect → Type 0
Announces round out =
    (phase : PhasePayload) × (rest : List Effect) × (out
      ≡ schedule_phase_start round 40000 ∷ match_phase phase ∷ rest)
    × (phase.phase ≡ shop_place)
    × (phase.round ≡ round)

abbrev cleared : MatchRuntimeState → MatchRuntimeState
cleared q = record q { ready_p1 = false; ready_p2 = false; combat_round = none }

module _ (digest_word : String → ℕ) (digest_hex : String → String) where
  -- What a caller that starts the next planning phase does.
  abbrev pub Advanced :
      ℕ → Option MatchRuntimeState → (MatchStore → MatchStore) → MatchStore → Answer → Type 0
  Advanced round seen between s out =
      (r : MatchRuntimeState) × (t : MatchStore) × (seen ≡ some r)
      × IsFlip resolved shop_place round (some (suc round)) s t
      × (out.0 ≡ ok true)
      × HasFreshShop out.1 r.player1_id (suc round)
      × HasFreshShop out.1 r.player2_id (suc round)
      × Reopens (between t) out.1
      × Announces (suc round) out.2
