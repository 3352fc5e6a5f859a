-- ===== src/Game/Timeline.antt =====
-- When the events of a battle happen, and how it ends.
pub mod Ending
use mobile_final_project.Base.{
  ℕ, String, Ordering, ◌≡◌, refl, Bool, true, false, ◌&&◌, ◌||◌, Option, none, some, List, [], ◌∷◌,
  ◌++◌, inl, inr, Bool-cases, Option-cases, if◌then◌else◌, ltb, leb, ◌==◌, All, All-append, arith,
  ◌-◌, min, ◌/◌, ◌%◌,
}
use mobile_final_project.Game.Types.{
  UnitId, fighter, healer, ranger, tank, UnitInstance, BattleSim, CombatEvent, attack, death,
  revive, heal, lifesteal, pierce, slow, cycle_end, battle_end,
}
use mobile_final_project.Game.Store.{
  Ref, Handle, get, Action, ◌>>◌, emit, skip, write, with_unit, reads,
}
use mobile_final_project.Game.Constants.{atk_for, pierce_of}
use mobile_final_project.Game.Damage.{apply_damage, hit, hit_events, revives}
use mobile_final_project.Game.Targeting.{pick_target}
use mobile_final_project.Game.Abilities.{
  apply_lifesteal, apply_pierce, apply_healer_support, apply_slow, clear_healer_slows, pierce_one,
  pierced, pierce_dies, pierce_events, heal_one, heal_of, support, find_behind, lowest_hp_ally,
  ref_of,
}
use mobile_final_project.Game.Engine.{
  fighter_act, tank_act, ranger_act, healer_act, act_as, unit_act,
}

-- The event is a unit's doing at that tick of that cycle; no end of a cycle or battle is.
abbrev pub InTick : ℕ → ℕ → CombatEvent → Type 0
InTick c t (attack cycle tick _ _ _ _) = (cycle ≡ c) × (tick ≡ t)
InTick c t (death cycle tick _) = (cycle ≡ c) × (tick ≡ t)
InTick c t (revive cycle tick _ _) = (cycle ≡ c) × (tick ≡ t)
InTick c t (heal cycle tick _ _ _ _) = (cycle ≡ c) × (tick ≡ t)
InTick c t (lifesteal cycle tick _ _ _) = (cycle ≡ c) × (tick ≡ t)
InTick c t (pierce cycle tick _ _ _) = (cycle ≡ c) × (tick ≡ t)
InTick c t (slow cycle tick _ _) = (cycle ≡ c) × (tick ≡ t)
InTick c t (cycle_end _) = ⊥
InTick c t (battle_end _ _) = ⊥

module _ (c t : ℕ) where
  -- The action pushes events of that tick only.
  pub record Pushes (m : Action) : Type 0 where
    pub at : (s : BattleSim) → All (InTick c t) (m s).1

  Pushes-skip : Pushes skip
  Pushes-skip = record { at = λ s. tt }

  Pushes-write : (r : Ref) (u : UnitInstance) → Pushes (write r u)
  Pushes-write r u = record { at = λ s. tt }

  Pushes-emit : (es : List CombatEvent) → All (InTick c t) es → Pushes (emit es)
  Pushes-emit es h = record { at = λ s. h }

  Pushes-seq : (m k : Action) → Pushes m → Pushes k → Pushes (m >> k)
  unfolding ◌>>◌
  Pushes-seq m k h g = record { at = λ s. All-append _ (m s).1 _ (h.at s) (g.at (m s).0) }

  Pushes-with :
      (r : Ref) (k : UnitInstance → Action)
      → ((u : UnitInstance) → Pushes (k u))
      → Pushes (with_unit r k)
  unfolding with_unit
  Pushes-with r k f = record {
    at = λ s. elim (Option-cases (get s r)) [
      | inl e ↦ rw (with_unit, e) tt
      | inr (u, e) ↦ rw (with_unit, e) ((f u).at s)
    ];
  }

  Pushes-reads :
      {A : Type 0} (f : BattleSim → A) (k : A → Action)
      → ((a : A) → Pushes (k a))
      → Pushes (reads f k)
  unfolding reads
  Pushes-reads f k h = record { at = λ s. (h (f s)).at s }

  Pushes-if : (b : Bool) (m k : Action) → Pushes m → Pushes k → Pushes (if b then m else k)
  Pushes-if true m k h g = h
  Pushes-if false m k h g = g

ruleset pushes =
    (Pushes-skip, Pushes-write, Pushes-emit, Pushes-seq, Pushes-with, Pushes-reads, Pushes-if)

module _ (c t : ℕ) where
  hit_events-InTick :
      (u : UnitInstance) (dmg : ℕ) (s : UnitInstance) → All (InTick c t) (hit_events u dmg s c t)
  unfolding hit_events
  hit_events-InTick u dmg s = ground arith

  damage-Pushes : (r : Ref) (dmg : ℕ) (q : Ref) → Pushes c t (apply_damage r dmg q c t)
  unfolding apply_damage
  damage-Pushes r dmg q = search (pushes, hit_events-InTick)

  lifesteal-Pushes : (r : Ref) (dmg : ℕ) → Pushes c t (apply_lifesteal r dmg c t)
  unfolding apply_lifesteal
  lifesteal-Pushes r dmg =
      Pushes-with c t r _
        λ f. Pushes-seq c t _ _ (Pushes-write c t _ _) (Pushes-emit c t _ ((refl, refl), tt))

  slow-Pushes : (r q : Ref) → Pushes c t (apply_slow r q c t)
  unfolding apply_slow
  slow-Pushes r q = Pushes-with c t r _ λ h.
      Pushes-with c t q _
        λ u. Pushes-seq c t _ _ (Pushes-write c t _ _) (Pushes-emit c t _ ((refl, refl), tt))

  pierce_events-InTick :
      (r b : UnitInstance) (dmg : ℕ) → All (InTick c t) (pierce_events r b dmg c t)
  pierce_events-InTick r b dmg = ground arith

  pierce_one-Pushes :
      (r : UnitInstance) (dmg : ℕ) (o : Option Handle) → Pushes c t (pierce_one r dmg c t o)
  unfolding pierce_one
  pierce_one-Pushes r dmg none = Pushes-skip c t
  pierce_one-Pushes r dmg (some h) = Pushes-with c t h.ref _ λ b.
      Pushes-seq c t _ _ (Pushes-write c t _ _)
        (Pushes-emit c t _ (pierce_events-InTick r b (pierce_of dmg)))

  pierce-Pushes : (r q : Ref) (dmg : ℕ) → Pushes c t (apply_pierce r q dmg c t)
  unfolding apply_pierce
  pierce-Pushes r q dmg = Pushes-with c t r _ λ u.
      Pushes-with c t q _
        λ v. Pushes-reads c t (find_behind u v) (pierce_one u dmg c t) (pierce_one-Pushes u dmg)

  heal_one-Pushes : (r q : Ref) → Pushes c t (heal_one r q c t)
  unfolding heal_one
  heal_one-Pushes r q = Pushes-with c t r _ λ u. Pushes-with c t q _ λ h.
      Pushes-if c t (heal_of u == 0) _ _ (Pushes-skip c t)
        (Pushes-seq c t _ _ (Pushes-write c t _ _) (Pushes-emit c t _ ((refl, refl), tt)))

  support-Pushes : (r : Ref) (o : Option Handle) → Pushes c t (support r c t o)
  unfolding support
  support-Pushes r none = Pushes-skip c t
  support-Pushes r (some h) = heal_one-Pushes h.ref r

  clear-Pushes : (r : Ref) → Pushes c t (clear_healer_slows r)
  unfolding clear_healer_slows
  clear-Pushes r = Pushes-with c t r _ λ h. record { at = λ s. tt }

  module _ (lc : String → String → Ordering) where
    healer_support-Pushes : (r : Ref) → Pushes c t (apply_healer_support lc r c t)
    unfolding apply_healer_support
    healer_support-Pushes r = Pushes-with c t r _ λ h. Pushes-reads c t _ _ λ first.
        Pushes-seq c t (support r c t first) _ (support-Pushes r first) (
          Pushes-if c t (h.star == 2) _ skip (Pushes-reads c t _ (support r c t) (support-Pushes r))
            (Pushes-skip c t))

    act_as-Pushes :
        (k : UnitId) (r : Ref) (u : UnitInstance) (o : Option Handle)
        → Pushes c t (act_as lc k r u c t o)
    unfolding act_as fighter_act tank_act ranger_act healer_act
    act_as-Pushes healer r u none = healer_support-Pushes r
    act_as-Pushes fighter r u none = Pushes-skip c t
    act_as-Pushes ranger r u none = Pushes-skip c t
    act_as-Pushes tank r u none = Pushes-skip c t
    act_as-Pushes tank r u (some h) = damage-Pushes h.ref (atk_for tank u.star) r
    act_as-Pushes fighter r u (some h) =
        let dmg = atk_for fighter u.star in
        Pushes-seq c t _ _ (damage-Pushes h.ref dmg r) (
          Pushes-if c t (ltb 0 dmg && leb 1 u.star) _ skip (lifesteal-Pushes r dmg)
            (Pushes-skip c t))
    act_as-Pushes ranger r u (some h) =
        let dmg = atk_for ranger u.star in
        Pushes-seq c t _ _ (damage-Pushes h.ref dmg r)
          (Pushes-if c t (u.star == 1) _ skip (pierce-Pushes r h.ref dmg) (Pushes-skip c t))
    act_as-Pushes healer r u (some h) = Pushes-seq c t _ _ (clear-Pushes r) (
        Pushes-seq c t _ _ (damage-Pushes h.ref (atk_for healer u.star) r) (
          Pushes-seq c t _ _ (healer_support-Pushes r)
            (Pushes-if c t (leb 1 u.star) _ skip (slow-Pushes r h.ref) (Pushes-skip c t))))

    -- What a unit does in its turn is stamped with that turn's cycle and tick.
    pub unit_act-Pushes : (r : Ref) → Pushes c t (unit_act lc r c t)
    unfolding unit_act
    unit_act-Pushes r =
        Pushes-with c t r _ λ u. Pushes-reads c t (pick_target lc u) _ (act_as-Pushes u.unit_id r u)
