-- ===== src/Runtime/Rules/Damage.antt =====
-- What one resolved round does to the two players.
use mobile_final_project.Base.{ℕ, suc, ◌*◌, ◌-◌, ◌<◌, ◌≡◌, ◌≢◌, Option, none, some, ◌↔◌, arith, min}
use mobile_final_project.Game.Types.{Side, p1, p2}
use mobile_final_project.Runtime.State.{MatchRuntimeState}
use mobile_final_project.Runtime.Rules.{resolve_winner, undecided, Resolution}

-- A tie costs both players 5 HP and leaves their wipe indices. The loser's wipe index goes up by
-- one, to five at most, and it pays 5 HP for each; the winner pays nothing and keeps its index.
pub record Charge (runtime : MatchRuntimeState) (winner : Option Side) (r : Resolution)
    : Type 0 where
  pub tie_both : winner ≡ none → (r.damage.p1 ≡ 5) × (r.damage.p2 ≡ 5)
  pub wipe1 :
      (winner ≡ some p2 → r.damage.wipe_index_p1 ≡ min 5 (suc runtime.wipe_index_p1))
      × (winner ≢ some p2 → r.damage.wipe_index_p1 ≡ runtime.wipe_index_p1)
  pub wipe2 :
      (winner ≡ some p1 → r.damage.wipe_index_p2 ≡ min 5 (suc runtime.wipe_index_p2))
      × (winner ≢ some p1 → r.damage.wipe_index_p2 ≡ runtime.wipe_index_p2)
  pub winner_free : (winner ≡ some p1 → r.damage.p1 ≡ 0) × (winner ≡ some p2 → r.damage.p2 ≡ 0)
  pub loser1 : winner ≡ some p2 → r.damage.p1 ≡ 5 * r.damage.wipe_index_p1
  pub loser2 : winner ≡ some p1 → r.damage.p2 ≡ 5 * r.damage.wipe_index_p2
  pub hp1 : r.p1.hp ≡ runtime.p1_state.hp - r.damage.p1
  pub hp2 : r.p2.hp ≡ runtime.p2_state.hp - r.damage.p2
  pub kept :
      (r.p1.board ≡ runtime.p1_state.board)
      × (r.p2.board ≡ runtime.p2_state.board)
      × (r.p1.gold ≡ runtime.p1_state.gold)
      × (r.p2.gold ≡ runtime.p2_state.gold)
      × (r.p1.bench ≡ runtime.p1_state.bench)
      × (r.p2.bench ≡ runtime.p2_state.bench)

-- Resolving a round takes HP from both players, down to 0 at least: 5 from each for a tie; nothing
-- from a winner; from a loser, whose wipe index first goes up by one but not above 5, 5 times the
-- new index. A winner and the players of a tie keep their indices, and all keep gold, board and
-- bench.
pub resolve_winner-Charge :
    (runtime : MatchRuntimeState) (round : ℕ) (winner : Option Side)
    → Charge runtime winner (resolve_winner runtime round winner)
unfolding resolve_winner
resolve_winner-Charge runtime round none = ground arith
resolve_winner-Charge runtime round (some p1) = ground arith
resolve_winner-Charge runtime round (some p2) = ground arith

-- A round leaves the match undecided exactly if both players have HP after it.
pub resolve_winner-decides :
    (runtime : MatchRuntimeState) (round : ℕ) (winner : Option Side)
    → let r = resolve_winner runtime round winner in
      (r.winner_id ≡ undecided) ↔ ((0 < r.p1.hp) × (0 < r.p2.hp))
unfolding resolve_winner
resolve_winner-decides runtime round winner = (λ h. ground arith, λ h. ground arith)
