-- ===== src/Game/Evolution/Effects.antt =====
-- Each effect that an acting unit triggers evolves the battle.
use mobile_final_project.Base.{
  ℕ, String, Ordering, ◌≡◌, refl, ◌∙◌, sym, ap, Bool, true, false, ◌&&◌, not, Option, none, some,
  List, arith, inl, inr, Bool-cases, Option-cases, if◌then◌else◌, All, All-filter, All-filter_test,
  All-both, All-imp, All-find, find-some, Pairs-map, ltb, ◌==◌, ◌/◌, ◌%◌, ◌+◌, filter, find,
}
use mobile_final_project.Game.Types.{CombatEvent, Side, UnitInstance, BattleSim, enemy_side_of}
use mobile_final_project.Game.Constants.{pierce_of}
use mobile_final_project.Game.Store.{
  Ref, Handle, get, handles, Action, ◌>>◌, emit, skip, write, with_unit, reads,
}
use mobile_final_project.Game.Damage.{apply_damage}
use mobile_final_project.Game.Targeting.{reduce, col_of, row_of}
use mobile_final_project.Game.Targeting.Sound.{handles-IsAt, reduce-P}
use mobile_final_project.Game.Abilities.{
  apply_lifesteal, lifesteal_amount, find_behind, apply_pierce, apply_healer_support, heal_of,
  lowest_hp_ally, apply_slow, clear_healer_slows, unslowed, weaker_ally, is_excluded, pierce_one,
  heal_one, support, ref_of,
}
use mobile_final_project.Game.Change.{
  Change, hit-Change, pierced-Change, mend-Change, slowed-Change, unslowed-Change,
}
use mobile_final_project.Game.Evolution.{Evolves, Evolves-refl, Evolves-trans, put-Evolves}

-- An effect reads the objects that it names; a missing one would end it with no change.
pub with-Keeps :
    (P : BattleSim → Type 0) (r : Ref) (k : UnitInstance → Action) (s : BattleSim)
    → P s
    → ((u : UnitInstance) → get s r ≡ some u → P (k u s).0)
    → P (with_unit r k s).0
unfolding with_unit
with-Keeps P r k s h f = elim (Option-cases (get s r)) [
  | inl e ↦ rw (with_unit, e) h
  | inr (u, e) ↦ rw (with_unit, e) (f u e)
]

pub with-Evolves :
    (r : Ref) (k : UnitInstance → Action) (s : BattleSim)
    → ((u : UnitInstance) → get s r ≡ some u → Evolves s (k u s).0)
    → Evolves s (with_unit r k s).0
with-Evolves r k s f = with-Keeps (Evolves s) r k s (Evolves-refl s) f

pub seq-Evolves :
    (m k : Action) (s : BattleSim)
    → Evolves s (m s).0
    → Evolves (m s).0 (k (m s).0).0
    → Evolves s ((m >> k) s).0
unfolding ◌>>◌
seq-Evolves m k s e f = Evolves-trans s (m s).0 (k (m s).0).0 e f

write-Evolves :
    (s : BattleSim) (r : Ref) (u v : UnitInstance) (es : List CombatEvent)
    → get s r ≡ some u
    → Change u v
    → Evolves s ((write r v >> emit es) s).0
unfolding ◌>>◌
write-Evolves s r u v es e c = put-Evolves s r u v e c

pub reads-Evolves :
    {A : Type 0} (f : BattleSim → A) (k : A → Action) (s : BattleSim)
    → Evolves s (k (f s) s).0
    → Evolves s (reads f k s).0
unfolding reads
reads-Evolves f k s h = h

pub when-Evolves :
    (b : Bool) (m : Action) (s : BattleSim)
    → Evolves s (m s).0
    → Evolves s ((if b then m else skip) s).0
when-Evolves true m s h = h
when-Evolves false m s h = Evolves-refl s

unless-Evolves :
    (b : Bool) (m : Action) (s : BattleSim)
    → Evolves s (m s).0
    → Evolves s ((if b then skip else m) s).0
unless-Evolves true m s h = Evolves-refl s
unless-Evolves false m s h = h

module _ (s : BattleSim) (r : Ref) (u : UnitInstance) (here : get s r ≡ some u) where
  -- The unit that a second read finds is the one already known.
  pub same_read : (v : UnitInstance) → get s r ≡ some v → u ≡ v
  same_read v e = cc

  -- A hit on a living unit.
  pub damage-Evolves :
      (dmg : ℕ) (source : Ref) (cycle tick : ℕ)
      → u.alive ≡ true
      → Evolves s (apply_damage r dmg source cycle tick s).0
  unfolding apply_damage
  damage-Evolves dmg source cycle tick h = with-Evolves r _ s λ t e. with-Evolves source _ s λ _ _.
      write-Evolves s r t _ _ e
        (hit-Change t dmg (ap (λ (w : UnitInstance). w.alive) (sym (same_read t e)) ∙ h))

  pub lifesteal-Evolves :
      (dmg cycle tick : ℕ) → u.alive ≡ true → Evolves s (apply_lifesteal r dmg cycle tick s).0
  unfolding apply_lifesteal
  lifesteal-Evolves dmg cycle tick h = with-Evolves r _ s λ f e. write-Evolves s r f _ _ e (
      mend-Change f (lifesteal_amount f dmg)
        (ap (λ (w : UnitInstance). w.alive) (sym (same_read f e)) ∙ h) (omega arith))

-- A handle on a living unit, up to date.
abbrev pub IsLiving : BattleSim → Handle → Type 0
IsLiving s h = (get s h.ref ≡ some h.unit) × (h.unit.alive ≡ true)

abbrev pub IfSome : (Handle → Type 0) → Option Handle → Type 0
IfSome P none = Unit
IfSome P (some h) = P h

alive_read :
    (s : BattleSim) (h : Handle) (u : UnitInstance)
    → IsLiving s h
    → get s h.ref ≡ some u
    → u.alive ≡ true
alive_read s h u (e, a) q = ap (λ (w : UnitInstance). w.alive) (same_read s h.ref u q h.unit e) ∙ a

pierce_one-Evolves :
    (s : BattleSim) (x : UnitInstance) (dmg cycle tick : ℕ) (o : Option Handle)
    → IfSome (IsLiving s) o
    → Evolves s (pierce_one x dmg cycle tick o s).0
unfolding pierce_one
pierce_one-Evolves s x dmg cycle tick none h = Evolves-refl s
pierce_one-Evolves s x dmg cycle tick (some b) h =
    with-Evolves b.ref _ s
      λ u e. write-Evolves s b.ref u _ _ e (pierced-Change u (pierce_of dmg) (alive_read s b u h e))

find_behind-IsLiving :
    (s : BattleSim) (r t : UnitInstance) → IfSome (IsLiving s) (find_behind r t s)
unfolding find_behind
find_behind-IsLiving s r t = elim (Bool-cases (ltb 2 (t.slot / 3 + 1))) [
  | inl far ↦ rw far tt
  | inr near ↦ rw near (found _ refl)
]
  where
    behind : Handle → Bool
    behind h = h.unit.alive && (col_of h == t.slot % 3) && (row_of h == t.slot / 3 + 1)

    found :
        (o : Option Handle)
        → find behind (handles s (enemy_side_of r.side)) ≡ o
        → IfSome (IsLiving s) o
    found none e = tt
    found (some h) e = (
      (All-find _ behind _ (handles-IsAt s (enemy_side_of r.side)) e).1,
      ground (arith, find-some behind (handles s (enemy_side_of r.side)) h e),
    )

pub pierce-Evolves :
    (s : BattleSim) (r t : Ref) (dmg cycle tick : ℕ)
    → Evolves s (apply_pierce r t dmg cycle tick s).0
unfolding apply_pierce
pierce-Evolves s r t dmg cycle tick = with-Evolves r _ s λ u _. with-Evolves t _ s λ v _.
    reads-Evolves _ _ s
      (pierce_one-Evolves s u dmg cycle tick (find_behind u v s) (find_behind-IsLiving s u v))

pub slow-Evolves :
    (s : BattleSim) (r t : Ref) (cycle tick : ℕ) → Evolves s (apply_slow r t cycle tick s).0
unfolding apply_slow
slow-Evolves s r t cycle tick =
    with-Evolves r _ s
      λ h _. with-Evolves t _ s λ u e. write-Evolves s t u _ _ e (slowed-Change u h.instance_id)

pub clear-Evolves : (s : BattleSim) (r : Ref) → Evolves s (clear_healer_slows r s).0
unfolding clear_healer_slows
clear-Evolves s r = with-Evolves r _ s λ h _. record {
  team1 = Pairs-map Change (unslowed h.instance_id) (unslowed-Change h.instance_id) s.p1_units;
  team2 = Pairs-map Change (unslowed h.instance_id) (unslowed-Change h.instance_id) s.p2_units;
}

heal_one-Evolves :
    (s : BattleSim) (r : Ref) (cycle tick : ℕ) (h : Handle)
    → IsLiving s h
    → Evolves s (heal_one h.ref r cycle tick s).0
unfolding heal_one
heal_one-Evolves s r cycle tick h a = with-Evolves h.ref _ s λ u e. with-Evolves r _ s λ _ _.
    unless-Evolves (heal_of u == 0) _ s (
      write-Evolves s h.ref u _ _ e
        (mend-Change u (heal_of u) (alive_read s h u a e) (omega arith)))

support-Evolves :
    (s : BattleSim) (r : Ref) (cycle tick : ℕ) (o : Option Handle)
    → IfSome (IsLiving s) o
    → Evolves s (support r cycle tick o s).0
unfolding support
support-Evolves s r cycle tick none a = Evolves-refl s
support-Evolves s r cycle tick (some h) a = heal_one-Evolves s r cycle tick h a

module _ (lc : String → String → Ordering) where
  weaker_ally-P : (P : Handle → Type 0) (a b : Handle) → P a → P b → P (weaker_ally lc a b)
  weaker_ally-P P a b h k = elim (Bool-cases (b.unit.hp == a.unit.hp)) [
    | inl same ↦ rw same (by_id (lc b.unit.instance_id a.unit.instance_id))
    | inr other ↦ rw other (by_hp (ltb b.unit.hp a.unit.hp))
  ]
    where
      by_id : (o : Ordering) → P (elim o [ Ordering.lt ↦ b | _ ↦ a ])
      by_id Ordering.lt = k
      by_id Ordering.eq = h
      by_id Ordering.gt = h

      by_hp : (c : Bool) → P (if c then b else a)
      by_hp true = k
      by_hp false = h

  ally-IsLiving :
      (s : BattleSim) (side : Side) (x : Option Ref)
      → IfSome (IsLiving s) (lowest_hp_ally lc (handles s side) x)
  unfolding lowest_hp_ally
  ally-IsLiving s side x = found _ refl
    where
      keep : Handle → Bool
      keep u = u.unit.alive && not (is_excluded x u.ref)

      pool-IsLiving : All (IsLiving s) (filter keep (handles s side))
      pool-IsLiving =
          All-imp _ _ (filter keep (handles s side)) (λ h k. (k.0.1, ground arith))
            (All-both _ _ _ (All-filter _ keep _ (handles-IsAt s side))
              (All-filter_test keep (handles s side)))

      found :
          (o : Option Handle)
          → reduce (weaker_ally lc) (filter keep (handles s side)) ≡ o
          → IfSome (IsLiving s) o
      found none e = tt
      found (some h) e =
          reduce-P (IsLiving s) (weaker_ally lc) (weaker_ally-P (IsLiving s)) _ h pool-IsLiving e

  pub healer_support-Evolves :
      (s : BattleSim) (r : Ref) (cycle tick : ℕ)
      → Evolves s (apply_healer_support lc r cycle tick s).0
  unfolding apply_healer_support
  healer_support-Evolves s r cycle tick = with-Evolves r _ s λ h _.
      let first = lowest_hp_ally lc (handles s h.side) none in
      let s1 = (support r cycle tick first s).0 in
      reads-Evolves _ _ s (
        seq-Evolves (support r cycle tick first) _ s
          (support-Evolves s r cycle tick first (ally-IsLiving s h.side none))
          (when-Evolves (h.star == 2) _ s1 (
            reads-Evolves _ _ s1
              (support-Evolves s1 r cycle tick _ (ally-IsLiving s1 h.side (ref_of first))))))
