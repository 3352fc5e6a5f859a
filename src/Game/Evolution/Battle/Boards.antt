-- ===== src/Game/Evolution/Battle/Boards.antt =====
-- What the boards sent with a battle's events have in common.
use mobile_final_project.Base.{
  ℕ, ◌≤◌, String, Ordering, ◌≡◌, refl, ◌∙◌, sym, ap, subst, false, some, List, [], ◌∷◌, ◌++◌, map,
  ltb, All, All-map, All-append, All-imp, Pairs, Pairs-append, get_elem?, get_elem?-map,
  get_elem?-map-some, Pairs-get, map-eq_of_Pairs,
}
use mobile_final_project.Game.Types.{
  UnitInstance, UnitSnapshot, snapshot_unit, snapshot_all_units, BattleSim, BattleState, BoardEvent,
  Actor, actor,
}
use mobile_final_project.Game.Engine.{run_battle}
use mobile_final_project.Game.Change.{Change}
use mobile_final_project.Game.Evolution.{IsOrderly, Evolves, Evolves-trans, Evolves-IsOrderly}
use mobile_final_project.Game.Evolution.Battle.{
  Replays, IsReady, start_board, final_board, run_battle-Replays,
}

-- The event shows a board that `s` evolves to.
abbrev Shows : BattleSim → BoardEvent → Type 0
Shows s e = (m : BattleSim) × Evolves s m × (e.unit_states ≡ snapshot_all_units m)

Shows-before : (s m : BattleSim) → Evolves s m → (e : BoardEvent) → Shows m e → Shows s e
Shows-before s m e x (n, f, q) = (n, Evolves-trans s m n e f, q)

Replays-All : (s t : BattleSim) (es : List BoardEvent) → Replays s es t → All (Shows s) es
Replays-All s t [] r = tt
Replays-All s t (x ∷ es) (m, e, q, r) =
    ((m, e, q), All-imp (Shows m) (Shows s) es (Shows-before s m e) (Replays-All m t es r))

-- From any event on, the later ones show what its board evolves to.
Replays-split :
    (s t : BattleSim) (before : List BoardEvent) (e : BoardEvent) (later : List BoardEvent)
    → Replays s (before ++ e ∷ later) t
    → (m : BattleSim) × (e.unit_states ≡ snapshot_all_units m) × All (Shows m) later
Replays-split s t [] e later (m, _, q, r) = (m, q, Replays-All m t later r)
Replays-split s t (x ∷ xs) e later (m, _, _, r) = Replays-split m t xs e later r

-- A snapshot in good order.
abbrev pub IsSoundSnapshot : UnitSnapshot → Type 0
IsSoundSnapshot u = (u.hp ≤ u.max_hp) × (u.alive ≡ ltb 0 u.hp)

abbrev pub snapshot_actor : UnitSnapshot → Actor
snapshot_actor u = record {
  id = u.instance_id;
  side = u.side;
  slot = u.slot;
  unit_id = u.unit_id;
  star = u.star;
}

board_sound : (m : BattleSim) → IsOrderly m → All IsSoundSnapshot (snapshot_all_units m)
board_sound m ok = All-map IsSoundSnapshot snapshot_unit (m.p1_units ++ m.p2_units) (
    All-append _ m.p1_units m.p2_units
      (All-imp _ _ m.p1_units (λ u h. (h.0.hp_fits, h.0.alive_by_hp)) ok.team1)
      (All-imp _ _ m.p2_units (λ u h. (h.0.hp_fits, h.0.alive_by_hp)) ok.team2))

board-Pairs :
    (s m : BattleSim)
    → Evolves s m
    → Pairs Change (s.p1_units ++ s.p2_units) (m.p1_units ++ m.p2_units)
board-Pairs s m e = Pairs-append Change s.p1_units m.p1_units s.p2_units m.p2_units e.team1 e.team2

board_actors : (us : List UnitInstance) → map snapshot_actor (map snapshot_unit us) ≡ map actor us
board_actors [] = refl
board_actors (u ∷ us) = cc (board_actors us)

-- The unit in place `k` of the event's board is dead, and has this HP.
abbrev pub DeadAt : ℕ → ℕ → BoardEvent → Type 0
DeadAt k hp f =
    (b : UnitSnapshot) × (get_elem? f.unit_states k ≡ some b) × (b.alive ≡ false) × (b.hp ≡ hp)

dead-stays :
    (m : BattleSim) (k : ℕ) (a : UnitSnapshot)
    → get_elem? (snapshot_all_units m) k ≡ some a
    → a.alive ≡ false
    → (f : BoardEvent) → Shows m f
    → DeadAt k a.hp f
dead-stays m k a at down f (n, e, q) =
    let (u, here, su) = get_elem?-map snapshot_unit (m.p1_units ++ m.p2_units) k at in
    let (v, there, c) =
      Pairs-get Change _ (n.p1_units ++ n.p2_units) k u (board-Pairs m n e) here in
    let was = ap (λ (x : UnitSnapshot). x.alive) su ∙ down in
    (
      snapshot_unit v,
      ap (λ us. get_elem? us k) q ∙ get_elem?-map-some snapshot_unit _ k v there,
      (c.dead_stays was).0,
      (c.dead_stays was).1 ∙ ap (λ (x : UnitSnapshot). x.hp) su,
    )

abbrev pub start_units : BattleState → List UnitInstance
start_units st = st.p1_units ++ st.p2_units

-- If the teams enter a battle in good order, then on every board that is sent with an event of
-- the battle each unit's HP is within its maximum and the unit is alive exactly if it has HP.
pub run_battle_boards_sound :
    (lc : String → String → Ordering) (st : BattleState)
    → IsReady st
    → All (λ e. All IsSoundSnapshot e.unit_states) (run_battle lc st)
run_battle_boards_sound lc st ok =
    All-imp (Shows _) _ (run_battle lc st)
      (λ e (m, f, q).
        subst (All IsSoundSnapshot) (sym q) (board_sound m (Evolves-IsOrderly _ m f ok)))
      (Replays-All _ _ _ (run_battle-Replays lc st ok))

-- If the teams enter a battle in good order, then the board sent with every event lists the same
-- units in the same order: identity, side, slot, archetype and star never change.
pub run_battle_keeps_roster :
    (lc : String → String → Ordering) (st : BattleState)
    → IsReady st
    → All (λ e. map snapshot_actor e.unit_states ≡ map actor (start_units st)) (run_battle lc st)
run_battle_keeps_roster lc st ok =
    All-imp (Shows _) _ (run_battle lc st)
      (λ e (m, f, q).
        ap (map snapshot_actor) q
        ∙ board_actors (m.p1_units ++ m.p2_units)
        ∙ sym (map-eq_of_Pairs Change actor (λ u v c. c.same_actor) _ _ (board-Pairs _ m f)))
      (Replays-All _ _ _ (run_battle-Replays lc st ok))

-- If the teams enter a battle in good order, then a unit that is dead on the board of some event
-- is dead on the board of every later event, with the HP it had.
pub run_battle_dead_stay_dead :
    (lc : String → String → Ordering) (st : BattleState) (before : List BoardEvent) (e : BoardEvent)
    (later : List BoardEvent) (k : ℕ) (a : UnitSnapshot)
    → IsReady st
    → run_battle lc st ≡ before ++ e ∷ later
    → get_elem? e.unit_states k ≡ some a
    → a.alive ≡ false
    → All (DeadAt k a.hp) later
run_battle_dead_stay_dead lc st before e later k a ok split at down =
    let (m, q, r) = Replays-split _ _ before e later (
      subst (λ es. Replays (start_board st) es (final_board lc st)) split
        (run_battle-Replays lc st ok)) in
    All-imp (Shows m) (DeadAt k a.hp) later
      (λ f. dead-stays m k a (ap (λ us. get_elem? us k) (sym q) ∙ at) down f) r
