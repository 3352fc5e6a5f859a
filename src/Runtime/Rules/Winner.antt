-- ===== src/Runtime/Rules/Winner.antt =====
-- The winner that the orchestrator reads off a battle.
use mobile_final_project.Base.{ℕ, String, Ordering, ◌≡◌, Option, some, List, [], ◌∷◌, ◌++◌, arith}
use mobile_final_project.Game.Types.{Side, BattleSim, BattleState, BoardEvent}
use mobile_final_project.Game.Engine.{run_battle}
use mobile_final_project.Game.Evolution.Battle.{final_board}
use mobile_final_project.Game.Timeline.Ending.{Verdict, Course, over, cycle, run_battle-Course}
use mobile_final_project.Runtime.Rules.{battle_winner}

battle_winner-append_some :
    (es fs : List BoardEvent) (w : Option Side)
    → battle_winner fs ≡ some w
    → battle_winner (es ++ fs) ≡ some w
unfolding battle_winner
battle_winner-append_some [] fs w h = h
battle_winner-append_some (e ∷ es) fs w h = rw (battle_winner-append_some es fs w h)

pub Course-winner :
    (s : BattleSim) (c : ℕ) (es : List BoardEvent)
    → Course s c es
    → (n : ℕ) × (w : Option Side) × (battle_winner es ≡ some w) × Verdict s n w
unfolding battle_winner
Course-winner s c es (over winner xs e f played ee fe cap v) =
    (c, winner, battle_winner-append_some xs (e ∷ f ∷ []) winner (ground (arith, ee, fe)), v)
Course-winner s c es (cycle {rest = rest} xs e played ee k) =
    let (n, w, q, v) = Course-winner s _ rest k in
    (n, w, battle_winner-append_some xs (e ∷ rest) w (rw q), v)

-- `battleWinner` never throws on the events of a battle, and the winner that it reads is the one
-- that the final board shows: a side alone with living units, and none if no unit lives or the
-- last cycle is over.
pub battle_winner-run_battle :
    (lc : String → String → Ordering) (st : BattleState)
    → (n : ℕ) × (w : Option Side) × (battle_winner (run_battle lc st) ≡ some w)
      × Verdict (final_board lc st) n w
battle_winner-run_battle lc st = Course-winner (final_board lc st) 1 _ (run_battle-Course lc st)
