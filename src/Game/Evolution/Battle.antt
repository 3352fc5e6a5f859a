-- ===== src/Game/Evolution/Battle.antt =====
-- The whole battle: its events show the two teams evolving, one event after the other.
pub mod Boards
use mobile_final_project.Base.{
  ℕ, zero, suc, ◌≤◌, String, Ordering, ◌≡◌, refl, ◌∙◌, sym, ap, Bool, true, false, Option, none,
  some, List, [], ◌∷◌, ◌++◌, map, arith, inl, inr, Bool-cases, Option-cases, ltb, Pairs-map, All,
  All-map, All-append, All-imp, get_elem?,
}
use mobile_final_project.Game.Types.{
  Side, UnitInstance, UnitSnapshot, snapshot_unit, snapshot_all_units, BattleSim, BattleState,
  CombatEvent, BoardEvent,
}
use mobile_final_project.Game.Constants.{ticks_per_cycle, max_cycles}
use mobile_final_project.Game.Store.{Ref, Handle, get}
use mobile_final_project.Game.Engine.{
  take_turn, take_turns, run_tick, run_ticks, run_cycles, run_battle, acting, unit_act,
  attach_snapshot, clone_unit, both_alive, finish_cycle, clone_state, first_draw, init_side_of,
}
use mobile_final_project.Game.Change.{Change, clone_unit-Change}
use mobile_final_project.Game.Evolution.{
  IsOrderly, Evolves, Evolves-refl, Evolves-trans, Evolves-IsOrderly,
}
use mobile_final_project.Game.Evolution.Turns.{
  unit_act-Evolves, take_turn-Evolves, run_tick-Evolves, run_ticks-Evolves,
}

-- The events replay a battle from one board to another: each shows a board that the one before
-- it evolves to.
abbrev pub Replays : BattleSim → List BoardEvent → BattleSim → Type 0
Replays s [] t = Evolves s t
Replays s (e ∷ es) t =
    (m : BattleSim) × Evolves s m × (e.unit_states ≡ snapshot_all_units m) × Replays m es t

Replays-after :
    (s m t : BattleSim) (es : List BoardEvent) → Evolves s m → Replays m es t → Replays s es t
Replays-after s m t [] e r = Evolves-trans s m t e r
Replays-after s m t (x ∷ es) e (n, f, q, r) = (n, Evolves-trans s m n e f, q, r)

Replays-append :
    (s m t : BattleSim) (es fs : List BoardEvent)
    → Replays s es m
    → Replays m fs t
    → Replays s (es ++ fs) t
Replays-append s m t [] fs e r = Replays-after s m t fs e r
Replays-append s m t (x ∷ es) fs (n, f, q, r) k = (n, f, q, Replays-append n m t es fs r k)

attach-Replays :
    (s t : BattleSim) (es : List CombatEvent)
    → Evolves s t
    → Replays s (map (attach_snapshot t) es) t
attach-Replays s t [] e = e
attach-Replays s t (x ∷ es) e = (t, e, refl, attach-Replays t t es (Evolves-refl t))

module _ (lc : String → String → Ordering) where
  take_turn-Replays :
      (s : BattleSim) (r : Ref) (cycle tick : ℕ)
      → IsOrderly s
      → Replays s (take_turn lc r cycle tick s).1 (take_turn lc r cycle tick s).0
  unfolding take_turn
  take_turn-Replays s r cycle tick ok = elim (Option-cases (get s r)) [
    | inl e ↦ rw (take_turn, e) (Evolves-refl s)
    | inr (u, e) ↦ elim (Bool-cases u.alive) [
      | inl up ↦
          rw (take_turn, e, up)
            (attach-Replays s _ _ (unit_act-Evolves lc s r u cycle tick ok e up))
      | inr down ↦ rw (take_turn, e, down) (Evolves-refl s)
    ]
  ]

  take_turns-Replays :
      (s : BattleSim) (hs : List Handle) (cycle tick : ℕ)
      → IsOrderly s
      → Replays s (take_turns lc hs cycle tick s).1 (take_turns lc hs cycle tick s).0
  unfolding take_turns
  take_turns-Replays s [] cycle tick ok = Evolves-refl s
  take_turns-Replays s (h ∷ hs) cycle tick ok =
      let s1 = (take_turn lc h.ref cycle tick s).0 in
      let ok1 = Evolves-IsOrderly s s1 (take_turn-Evolves lc s h.ref cycle tick ok) ok in
      Replays-append s s1 _ (take_turn lc h.ref cycle tick s).1 _
        (take_turn-Replays s h.ref cycle tick ok) (take_turns-Replays s1 hs cycle tick ok1)

  run_ticks-Replays :
      (left : ℕ) (s : BattleSim) (init_side : Side) (cycle tick : ℕ)
      → IsOrderly s
      → Replays s
          (run_ticks lc left init_side cycle tick s).1
          (run_ticks lc left init_side cycle tick s).0
  unfolding run_ticks run_tick
  run_ticks-Replays zero s init_side cycle tick ok = Evolves-refl s
  run_ticks-Replays (suc left) s init_side cycle tick ok =
      let hs = acting lc init_side tick s in
      let s1 = (take_turns lc hs cycle tick s).0 in
      let ok1 = Evolves-IsOrderly s s1 (run_tick-Evolves lc s init_side cycle tick ok) ok in
      Replays-append s s1 _ (take_turns lc hs cycle tick s).1 _
        (take_turns-Replays s hs cycle tick ok)
        (run_ticks-Replays left s1 init_side cycle (suc tick) ok1)

  run_cycles-Replays :
      (left : ℕ) (s : BattleSim) (init_side : Side) (cycle : ℕ)
      → IsOrderly s
      → Replays s (run_cycles lc left init_side cycle s).1 (run_cycles lc left init_side cycle s).0
  unfolding run_cycles
  run_cycles-Replays zero s init_side cycle ok = (s, Evolves-refl s, refl, Evolves-refl s)
  run_cycles-Replays (suc left) s init_side cycle ok =
      let t = (run_ticks lc ticks_per_cycle init_side cycle 1 s).0 in
      let es = (run_ticks lc ticks_per_cycle init_side cycle 1 s).1 in
      let e = run_ticks-Evolves lc ticks_per_cycle s init_side cycle 1 ok in
      let played = run_ticks-Replays ticks_per_cycle s init_side cycle 1 ok in
      let rest = run_cycles-Replays left t init_side (suc cycle) (Evolves-IsOrderly s t e ok) in
      elim (Bool-cases (both_alive t)) [
        | inl on ↦
            rw (run_cycles, on) (Replays-append s t _ es _ played (t, Evolves-refl t, refl, rest))
        | inr over ↦
            rw (run_cycles, over)
              (Replays-append s t t es _ played
                (t, Evolves-refl t, refl, (t, Evolves-refl t, refl, Evolves-refl t)))
      ]

-- The board that a battle starts from, and its teams in good order.
abbrev pub start_board : BattleState → BattleSim
start_board st = record { p1_units = st.p1_units; p2_units = st.p2_units }

abbrev pub IsReady : BattleState → Type 0
IsReady st = IsOrderly (start_board st)

pub clone_state-Evolves : (st : BattleState) → Evolves (start_board st) (clone_state st)
clone_state-Evolves st = record {
  team1 = Pairs-map Change clone_unit clone_unit-Change st.p1_units;
  team2 = Pairs-map Change clone_unit clone_unit-Change st.p2_units;
}

-- The board when the battle is over.
unfoldable pub final_board : (String → String → Ordering) → BattleState → BattleSim
final_board lc st = (run_cycles lc max_cycles (init_side_of (first_draw st)) 1 (clone_state st)).0

pub run_battle-Replays :
    (lc : String → String → Ordering) (st : BattleState)
    → IsReady st
    → Replays (start_board st) (run_battle lc st) (final_board lc st)
unfolding run_battle final_board
run_battle-Replays lc st ok =
    let e = clone_state-Evolves st in
    Replays-after _ (clone_state st) _ _ e (
      run_cycles-Replays lc max_cycles (clone_state st) (init_side_of (first_draw st)) 1
        (Evolves-IsOrderly _ (clone_state st) e ok))
