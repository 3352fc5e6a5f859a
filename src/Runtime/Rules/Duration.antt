-- ===== src/Runtime/Rules/Duration.antt =====
-- A match does not go on for ever.
use mobile_final_project.Base.{
  ℕ, suc, ◌+◌, ◌*◌, ◌≤◌, ◌<◌, ◌≡◌, ◌≢◌, refl, Option, none, some, List, [], ◌∷◌, arith, ◌==◌,
  if◌then◌else◌, length,
}
use mobile_final_project.Game.Types.{Side, p1, p2}
use mobile_final_project.Runtime.State.{MatchRuntimeState}
use mobile_final_project.Runtime.Rules.{resolve_winner, Resolution, MatchResult, undecided, decided}

-- HP left, and one round more for each player that has not been wiped out yet.
abbrev potential : MatchRuntimeState → ℕ
potential r =
    r.p1_state.hp
    + r.p2_state.hp
    + (if r.wipe_index_p1 == 0 then 5 else 0)
    + (if r.wipe_index_p2 == 0 then 5 else 0)

-- The parts of the runtime that the next round's damage depends on.
abbrev pub after_round : MatchRuntimeState → Resolution → MatchRuntimeState
after_round runtime r = record runtime {
  p1_state = r.p1;
  p2_state = r.p2;
  wipe_index_p1 = r.damage.wipe_index_p1;
  wipe_index_p2 = r.damage.wipe_index_p2;
}

-- The result after these rounds, the first of which is `round`.
abbrev pub play_rounds : MatchRuntimeState → ℕ → List (Option Side) → MatchResult
play_rounds runtime round [] = undecided
play_rounds runtime round (w ∷ ws) =
    let r = resolve_winner runtime round w in
    let rest = play_rounds (after_round runtime r) (suc round) ws in
    elim r.winner_id [ undecided ↦ rest | decided id ↦ decided id ]

pub record IsOpen (runtime : MatchRuntimeState) (r : Resolution) : Type 0 where
  pub alive1 : 0 < r.p1.hp
  pub alive2 : 0 < r.p2.hp
  pub paid : potential (after_round runtime r) + 10 ≤ potential runtime

IsOpen-round :
    (runtime : MatchRuntimeState) (round : ℕ) (w : Option Side)
    → (resolve_winner runtime round w).winner_id ≡ undecided
    → IsOpen runtime (resolve_winner runtime round w)
unfolding resolve_winner
IsOpen-round runtime round none h = ground arith
IsOpen-round runtime round (some p1) h = ground arith
IsOpen-round runtime round (some p2) h = ground arith

result_cases :
    (r : MatchResult) (rest : MatchResult)
    → elim r [ undecided ↦ rest | decided id ↦ decided id ] ≡ undecided
    → (r ≡ undecided) × (rest ≡ undecided)
result_cases undecided rest h = (refl, h)
result_cases (decided id) rest h = cc

rounds_decide :
    (ws : List (Option Side)) (runtime : MatchRuntimeState) (round : ℕ)
    → 0 < runtime.p1_state.hp
    → 0 < runtime.p2_state.hp
    → potential runtime < 10 * length ws + 2
    → play_rounds runtime round ws ≢ undecided
rounds_decide [] runtime round a b h e = absurd (omega arith)
rounds_decide (w ∷ ws) runtime round a b h e =
    let r = resolve_winner runtime round w in
    let (open_now, later) = result_cases r.winner_id _ e in
    let o = IsOpen-round runtime round w open_now in
    rounds_decide ws (after_round runtime r) (suc round) o.alive1 o.alive2 (omega (arith, o.paid))
      later

-- If both players have between 1 and 100 HP, then the match is decided after 21 rounds or earlier,
-- whoever wins them.
pub decided_by_21 :
    (runtime : MatchRuntimeState) (round : ℕ) (ws : List (Option Side))
    → 0 < runtime.p1_state.hp
    → runtime.p1_state.hp ≤ 100
    → 0 < runtime.p2_state.hp
    → runtime.p2_state.hp ≤ 100
    → 21 ≤ length ws
    → play_rounds runtime round ws ≢ undecided
decided_by_21 runtime round ws a a' b b' h = rounds_decide ws runtime round a b (ground arith)
