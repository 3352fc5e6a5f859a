-- ===== src/Game/Timeline/Ending.antt =====
-- The order of a battle's events in time, and its end.
use mobile_final_project.Base.{
  ℕ, zero, suc, ◌+◌, ◌≤◌, String, Ordering, ◌≡◌, refl, ap, true, false, Option, none, some, List,
  [], ◌∷◌, ◌++◌, ◌⊎◌, inl, inr, Bool-cases, Option-cases, All, All-append, All-map, arith,
}
use mobile_final_project.Game.Types.{
  Side, p1, p2, BattleSim, BattleState, BoardEvent, cycle_end, battle_end,
}
use mobile_final_project.Game.Constants.{ticks_per_cycle, max_cycles}
use mobile_final_project.Game.Store.{Ref, Handle, get}
use mobile_final_project.Game.Engine.{
  take_turn, take_turns, run_tick, run_ticks, run_cycles, run_battle, acting, unit_act, both_alive,
  has_living, winner_of, finish_cycle, clone_state, first_draw, init_side_of,
}
use mobile_final_project.Game.Evolution.Battle.{final_board}
use mobile_final_project.Game.Timeline.{InTick, unit_act-Pushes}

-- The doings of a cycle's units from tick `from` on, each at the tick of the one before it or at a
-- later one, up to the last tick.
abbrev pub Rising : ℕ → ℕ → List BoardEvent → Type 0
Rising c from [] = Unit
Rising c from (e ∷ es) =
    (t : ℕ) × (from ≤ t) × (t ≤ ticks_per_cycle) × InTick c t e.event × Rising c t es

Rising-earlier :
    (c from from' : ℕ) (es : List BoardEvent) → from' ≤ from → Rising c from es → Rising c from' es
Rising-earlier c from from' [] h r = tt
Rising-earlier c from from' (e ∷ es) h (t, k, last, i, r) = (t, omega arith, last, i, r)

-- The doings of one tick, and then those of the later ticks.
Rising-append :
    (c from t : ℕ) (es fs : List BoardEvent)
    → from ≤ t
    → t ≤ ticks_per_cycle
    → All (λ e. InTick c t e.event) es
    → Rising c (suc t) fs
    → Rising c from (es ++ fs)
Rising-append c from t [] fs h last a r = Rising-earlier c (suc t) from fs (omega arith) r
Rising-append c from t (e ∷ es) fs h last a r =
    (t, h, last, a.0, Rising-append c t t es fs (omega arith) last a.1 r)

module _ (lc : String → String → Ordering) (c t : ℕ) where
  take_turn-InTick :
      (s : BattleSim) (r : Ref) → All (λ e. InTick c t e.event) (take_turn lc r c t s).1
  unfolding take_turn
  take_turn-InTick s r = elim (Option-cases (get s r)) [
    | inl e ↦ rw (take_turn, e) tt
    | inr (u, e) ↦ elim (Bool-cases u.alive) [
      | inl up ↦
          rw (take_turn, e, up)
            (All-map _ _ (unit_act lc r c t s).1 ((unit_act-Pushes c t lc r).at s))
      | inr down ↦ rw (take_turn, e, down) tt
    ]
  ]

  take_turns-InTick :
      (s : BattleSim) (hs : List Handle) → All (λ e. InTick c t e.event) (take_turns lc hs c t s).1
  unfolding take_turns
  take_turns-InTick s [] = tt
  take_turns-InTick s (h ∷ hs) =
      All-append _ (take_turn lc h.ref c t s).1 _ (take_turn-InTick s h.ref)
        (take_turns-InTick (take_turn lc h.ref c t s).0 hs)

module _ (lc : String → String → Ordering) (init_side : Side) (c : ℕ) where
  run_ticks-Rising :
      (left t : ℕ) (s : BattleSim)
      → t + left ≤ suc ticks_per_cycle
      → Rising c t (run_ticks lc left init_side c t s).1
  unfolding run_ticks run_tick
  run_ticks-Rising zero t s k = tt
  run_ticks-Rising (suc left) t s k =
      let hs = acting lc init_side t s in
      Rising-append c t t (take_turns lc hs c t s).1 _ (omega arith) (omega arith)
        (take_turns-InTick lc c t s hs)
        (run_ticks-Rising left (suc t) (take_turns lc hs c t s).0 (omega arith))

-- The verdict on the board at the end of cycle `c`, as the rules state it.
pub record Verdict (s : BattleSim) (c : ℕ) (winner : Option Side) : Type 0 where
  pub p1_wins : winner ≡ some p1 → (has_living s.p1_units ≡ true) × (has_living s.p2_units ≡ false)
  pub p2_wins : winner ≡ some p2 → (has_living s.p1_units ≡ false) × (has_living s.p2_units ≡ true)
  pub tie :
      winner ≡ none
      → ((has_living s.p1_units ≡ false) × (has_living s.p2_units ≡ false))
        ⊎ ((c ≡ max_cycles) × (both_alive s ≡ true))

-- The events from cycle `c` to the battle's end on board `s`: a cycle's doings in the order of their
-- ticks and its `cycle_end`, over and over, and one `battle_end` that closes the last of at most 30 cycles.
pub data Course (s : BattleSim) : ℕ → List BoardEvent → Type 0 where
  over :
      {c : ℕ} (winner : Option Side) (es : List BoardEvent) (e f : BoardEvent)
      → Rising c 1 es
      → e.event ≡ cycle_end c
      → f.event ≡ battle_end c winner
      → c ≤ max_cycles
      → Verdict s c winner
      → Course s c (es ++ (e ∷ f ∷ []))
  cycle :
      {c : ℕ} {rest : List BoardEvent} (es : List BoardEvent) (e : BoardEvent)
      → Rising c 1 es
      → e.event ≡ cycle_end c
      → Course s (suc c) rest
      → Course s c (es ++ e ∷ rest)

module _ (lc : String → String → Ordering) (init_side : Side) where
  decided :
      (s : BattleSim) (c : ℕ)
      → both_alive s ≡ false
      → Verdict s c (winner_of (has_living s.p1_units) (has_living s.p2_units))
  decided s c h = ground arith

  run_cycles-Course :
      (left c : ℕ) (s : BattleSim)
      → c + left ≡ max_cycles
      → Course
          (run_cycles lc (suc left) init_side c s).0
          c
          (run_cycles lc (suc left) init_side c s).1
  unfolding run_cycles finish_cycle
  run_cycles-Course zero c s h =
      let t = (run_ticks lc ticks_per_cycle init_side c 1 s).0 in
      let es = (run_ticks lc ticks_per_cycle init_side c 1 s).1 in
      let played = run_ticks-Rising lc init_side c ticks_per_cycle 1 s (omega arith) in
      elim (Bool-cases (both_alive t)) [
        | inl on ↦
            rw (run_cycles, on)
              (over none es _ _ played refl (ap (λ k. battle_end k none) (omega arith))
                (omega arith)
                (record { p1_wins = λ e. cc; p2_wins = λ e. cc; tie = λ _. inr (omega arith, on) }))
        | inr stop ↦
            rw (run_cycles, stop) (over _ es _ _ played refl refl (omega arith) (decided t c stop))
      ]
  run_cycles-Course (suc left) c s h =
      let t = (run_ticks lc ticks_per_cycle init_side c 1 s).0 in
      let es = (run_ticks lc ticks_per_cycle init_side c 1 s).1 in
      let played = run_ticks-Rising lc init_side c ticks_per_cycle 1 s (omega arith) in
      elim (Bool-cases (both_alive t)) [
        | inl on ↦
            rw (run_cycles, on)
              (cycle es _ played refl (run_cycles-Course left (suc c) t (omega arith)))
        | inr stop ↦
            rw (run_cycles, stop) (over _ es _ _ played refl refl (omega arith) (decided t c stop))
      ]

-- Every battle ends: its events are a course of cycles from 1 on, each of which has the doings of
-- its units, at ticks 1 to 100 and in the order of their ticks, and then its `cycle_end`; the last,
-- at most cycle 30, is followed by one `battle_end` whose winner the final board shows.
pub run_battle-Course :
    (lc : String → String → Ordering) (st : BattleState)
    → Course (final_board lc st) 1 (run_battle lc st)
unfolding run_battle final_board
run_battle-Course lc st =
    run_cycles-Course lc (init_side_of (first_draw st)) 29 1 (clone_state st) (omega arith)
