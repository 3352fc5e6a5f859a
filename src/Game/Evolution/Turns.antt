-- ===== src/Game/Evolution/Turns.antt =====
-- A unit's turn, a tick and a cycle evolve the battle.
use mobile_final_project.Base.{
  ℕ, zero, suc, String, Ordering, ◌≡◌, ◌≢◌, refl, ◌∙◌, sym, ap, true, ◌&&◌, Option, none, some,
  List, [], ◌∷◌, arith, inl, inr, Option-cases, Bool-cases, map, Pairs-map, Pairs-get, ltb, leb,
  ◌==◌,
}
use mobile_final_project.Game.Types.{
  Side, p1, p2, UnitId, fighter, healer, ranger, tank, UnitInstance, BattleSim, enemy_side_of,
}
use mobile_final_project.Game.Constants.{atk_for}
use mobile_final_project.Game.Store.{Ref, Handle, get, ◌>>◌}
use mobile_final_project.Game.Damage.{apply_damage, hit}
use mobile_final_project.Game.Targeting.{pick_target}
use mobile_final_project.Game.Targeting.Sound.{IsTarget, pick_target-IsTarget}
use mobile_final_project.Game.Engine.{
  fighter_act, tank_act, ranger_act, healer_act, act_as, unit_act, take_turn, take_turns, run_tick,
  run_ticks, acting,
}
use mobile_final_project.Game.Abilities.{clear_healer_slows, apply_healer_support, unslowed}
use mobile_final_project.Game.Evolution.{
  IsOrderly, Evolves, Evolves-refl, Evolves-trans, Evolves-IsOrderly, get-IsSound, get-put_other,
}
use mobile_final_project.Game.Evolution.Effects.{
  with-Keeps, with-Evolves, seq-Evolves, reads-Evolves, when-Evolves, damage-Evolves,
  lifesteal-Evolves, pierce-Evolves, slow-Evolves, clear-Evolves, healer_support-Evolves, same_read,
}

-- Damage to one side leaves the other side's units alone.
damage-get_other :
    (s : BattleSim) (t q r : Ref) (dmg cycle tick : ℕ)
    → t.side ≢ q.side
    → get (apply_damage t dmg r cycle tick s).0 q ≡ get s q
unfolding apply_damage ◌>>◌
damage-get_other s t q r dmg cycle tick h =
    with-Keeps (λ s'. get s' q ≡ get s q) t _ s refl
      λ u _.
        with-Keeps (λ s'. get s' q ≡ get s q) r _ s refl λ _ _. get-put_other s t q (hit u dmg) h

enemy-ne : (s : Side) → enemy_side_of s ≢ s
enemy-ne p1 e = cc
enemy-ne p2 e = cc

abbrev SameLife : UnitInstance → UnitInstance → Type 0
SameLife u v = u.alive ≡ v.alive

-- Clearing slows leaves every unit as alive as it was.
clear-get :
    (s : BattleSim) (r t : Ref) (u : UnitInstance)
    → get s t ≡ some u
    → (v : UnitInstance) × (get (clear_healer_slows r s).0 t ≡ some v) × (u.alive ≡ v.alive)
unfolding clear_healer_slows get
clear-get s r t u e =
    with-Keeps (λ s'. (v : UnitInstance) × (get s' t ≡ some v) × (u.alive ≡ v.alive)) r _ s
      (u, e, refl) λ h _. IsAt-side t.side h.instance_id t.index e
  where
    life : (id : String) (w : UnitInstance) → w.alive ≡ (unslowed id w).alive
    life id w = ground arith

    cleared : String → BattleSim
    cleared id = record {
      p1_units = map (unslowed id) s.p1_units;
      p2_units = map (unslowed id) s.p2_units;
    }

    IsAt-side :
        (side : Side) (id : String) (i : ℕ)
        → get s (record { side = side; index = i }) ≡ some u
        → (v : UnitInstance) × (get (cleared id) (record { side = side; index = i }) ≡ some v)
          × (u.alive ≡ v.alive)
    IsAt-side p1 id i q =
        Pairs-get SameLife s.p1_units (map (unslowed id) s.p1_units) i u
          (Pairs-map SameLife (unslowed id) (life id) s.p1_units) q
    IsAt-side p2 id i q =
        Pairs-get SameLife s.p2_units (map (unslowed id) s.p2_units) i u
          (Pairs-map SameLife (unslowed id) (life id) s.p2_units) q

module _ (lc : String → String → Ordering) (s : BattleSim) (r : Ref) (u : UnitInstance)
    (here : get s r ≡ some u) (up : u.alive ≡ true) (own : u.side ≡ r.side) (cycle tick : ℕ)
    (h : Handle) (target : IsTarget s u h) where
  hit-Evolves : (dmg : ℕ) → Evolves s (apply_damage h.ref dmg r cycle tick s).0
  hit-Evolves dmg = damage-Evolves s h.ref h.unit target.0.1 dmg r cycle tick target.1

  still_here : (dmg : ℕ) → get (apply_damage h.ref dmg r cycle tick s).0 r ≡ some u
  still_here dmg =
      damage-get_other s h.ref r r dmg cycle tick
        (λ e. enemy-ne r.side (ap enemy_side_of (sym own) ∙ sym target.0.0 ∙ e))
      ∙ here

  fighter-Evolves : Evolves s (fighter_act r u cycle tick (some h) s).0
  unfolding fighter_act
  fighter-Evolves =
      let dmg = atk_for fighter u.star in
      let s1 = (apply_damage h.ref dmg r cycle tick s).0 in
      seq-Evolves (apply_damage h.ref dmg r cycle tick) _ s (hit-Evolves dmg) (
        when-Evolves (ltb 0 dmg && leb 1 u.star) _ s1
          (lifesteal-Evolves s1 r u (still_here dmg) dmg cycle tick up))

  ranger-Evolves : Evolves s (ranger_act r u cycle tick (some h) s).0
  unfolding ranger_act
  ranger-Evolves =
      let dmg = atk_for ranger u.star in
      let s1 = (apply_damage h.ref dmg r cycle tick s).0 in
      seq-Evolves (apply_damage h.ref dmg r cycle tick) _ s (hit-Evolves dmg)
        (when-Evolves (u.star == 1) _ s1 (pierce-Evolves s1 r h.ref dmg cycle tick))

  tank-Evolves : Evolves s (tank_act r u cycle tick (some h) s).0
  unfolding tank_act
  tank-Evolves = hit-Evolves (atk_for tank u.star)

  healer-Evolves : Evolves s (healer_act lc r u cycle tick (some h) s).0
  unfolding healer_act
  healer-Evolves =
      let dmg = atk_for healer u.star in
      let s1 = (clear_healer_slows r s).0 in
      let s2 = (apply_damage h.ref dmg r cycle tick s1).0 in
      let s3 = (apply_healer_support lc r cycle tick s2).0 in
      let (v, there, life) = clear-get s r h.ref h.unit target.0.1 in
      seq-Evolves (clear_healer_slows r) _ s (clear-Evolves s r) (
        seq-Evolves (apply_damage h.ref dmg r cycle tick) _ s1
          (damage-Evolves s1 h.ref v there dmg r cycle tick (sym life ∙ target.1))
          (seq-Evolves (apply_healer_support lc r cycle tick) _ s2
            (healer_support-Evolves lc s2 r cycle tick)
            (when-Evolves (leb 1 u.star) _ s3 (slow-Evolves s3 r h.ref cycle tick))))

module _ (lc : String → String → Ordering) (s : BattleSim) (r : Ref) (u : UnitInstance)
    (here : get s r ≡ some u) (up : u.alive ≡ true) (own : u.side ≡ r.side) (cycle tick : ℕ) where
  act_as-Evolves :
      (k : UnitId) (o : Option Handle)
      → ((h : Handle) → o ≡ some h → IsTarget s u h)
      → Evolves s (act_as lc k r u cycle tick o s).0
  unfolding act_as fighter_act tank_act ranger_act healer_act
  act_as-Evolves healer none t = healer_support-Evolves lc s r cycle tick
  act_as-Evolves fighter none t = Evolves-refl s
  act_as-Evolves ranger none t = Evolves-refl s
  act_as-Evolves tank none t = Evolves-refl s
  act_as-Evolves fighter (some h) t = fighter-Evolves lc s r u here up own cycle tick h (t h refl)
  act_as-Evolves ranger (some h) t = ranger-Evolves lc s r u here up own cycle tick h (t h refl)
  act_as-Evolves tank (some h) t = tank-Evolves lc s r u here up own cycle tick h (t h refl)
  act_as-Evolves healer (some h) t = healer-Evolves lc s r u here up own cycle tick h (t h refl)

module _ (lc : String → String → Ordering) where
  pub unit_act-Evolves :
      (s : BattleSim) (r : Ref) (u : UnitInstance) (cycle tick : ℕ)
      → IsOrderly s
      → get s r ≡ some u
      → u.alive ≡ true
      → Evolves s (unit_act lc r cycle tick s).0
  unfolding unit_act
  unit_act-Evolves s r u cycle tick ok here up = with-Evolves r _ s λ v e. reads-Evolves _ _ s (
      act_as-Evolves lc s r v e
        (ap (λ (w : UnitInstance). w.alive) (sym (same_read s r u here v e)) ∙ up)
        (get-IsSound s r v ok e).1 cycle tick v.unit_id (pick_target lc v s)
        (pick_target-IsTarget lc v s))

  pub take_turn-Evolves :
      (s : BattleSim) (r : Ref) (cycle tick : ℕ)
      → IsOrderly s
      → Evolves s (take_turn lc r cycle tick s).0
  unfolding take_turn
  take_turn-Evolves s r cycle tick ok = elim (Option-cases (get s r)) [
    | inl e ↦ rw (take_turn, e) (Evolves-refl s)
    | inr (u, e) ↦ elim (Bool-cases u.alive) [
      | inl up ↦ rw (take_turn, e, up) (unit_act-Evolves s r u cycle tick ok e up)
      | inr down ↦ rw (take_turn, e, down) (Evolves-refl s)
    ]
  ]

  take_turns-Evolves :
      (s : BattleSim) (hs : List Handle) (cycle tick : ℕ)
      → IsOrderly s
      → Evolves s (take_turns lc hs cycle tick s).0
  unfolding take_turns
  take_turns-Evolves s [] cycle tick ok = Evolves-refl s
  take_turns-Evolves s (h ∷ hs) cycle tick ok =
      let e = take_turn-Evolves s h.ref cycle tick ok in
      let s1 = (take_turn lc h.ref cycle tick s).0 in
      Evolves-trans s s1 _ e (take_turns-Evolves s1 hs cycle tick (Evolves-IsOrderly s s1 e ok))

  pub run_tick-Evolves :
      (s : BattleSim) (init_side : Side) (cycle tick : ℕ)
      → IsOrderly s
      → Evolves s (run_tick lc init_side cycle tick s).0
  unfolding run_tick
  run_tick-Evolves s init_side cycle tick ok =
      take_turns-Evolves s (acting lc init_side tick s) cycle tick ok

  pub run_ticks-Evolves :
      (left : ℕ) (s : BattleSim) (init_side : Side) (cycle tick : ℕ)
      → IsOrderly s
      → Evolves s (run_ticks lc left init_side cycle tick s).0
  unfolding run_ticks
  run_ticks-Evolves zero s init_side cycle tick ok = Evolves-refl s
  run_ticks-Evolves (suc left) s init_side cycle tick ok =
      let e = run_tick-Evolves s init_side cycle tick ok in
      let s1 = (run_tick lc init_side cycle tick s).0 in
      Evolves-trans s s1 _ e
        (run_ticks-Evolves left s1 init_side cycle (suc tick) (Evolves-IsOrderly s s1 e ok))
