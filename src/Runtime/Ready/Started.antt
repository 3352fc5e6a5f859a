-- ===== src/Runtime/Ready/Started.antt =====
-- A battle that both players are ready for is started, played and previewed.
use mobile_final_project.Base.{ℕ, String, ◌≡◌, true, Option, some, [], ◌∷◌, ◌++◌, Ordering}
use mobile_final_project.Game.Types.{Side}
use mobile_final_project.Runtime.State.{battle, MatchRuntimeState}
use mobile_final_project.Runtime.Rules.{battle_winner, resolve_winner}
use mobile_final_project.Runtime.Effects.{ok, match_damage}
use mobile_final_project.Runtime.Flow.{Answer}
use mobile_final_project.Runtime.Combat.{combat_effects, mark_combat_round}
use mobile_final_project.Runtime.Combat.Cached.{events_of}
use mobile_final_project.Runtime.Ready.{start_effects}

module _ (lc : String → String → Ordering) (round_seed : String → ℕ → ℕ) (configured : ℕ) where
  -- What `tryStartCombat` has left: the battle of `r`, whose winner is `w`.
  abbrev pub HasStarted : MatchRuntimeState → ℕ → Answer → Type 0
  HasStarted r round p =
      let started = record r { phase = battle } in
      (p.0 ≡ ok true)
      × (p.1.runtime ≡ some (mark_combat_round r.round started))
      × (p.1.combat_result ≡ some (events_of lc round_seed configured started))
      × ((w : Option Side) × (battle_winner (events_of lc round_seed configured started) ≡ some w)
          × (p.2
              ≡ (start_effects started
                  ++ combat_effects lc round_seed configured started
                      (events_of lc round_seed configured started))
                ++ (match_damage (resolve_winner started round w).payload ∷ [])))
