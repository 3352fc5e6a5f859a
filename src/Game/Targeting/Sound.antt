-- ===== src/Game/Targeting/Sound.antt =====
-- What `pickTarget` returns: a living unit of the enemy's array.
use mathlib.Core.List.{head?, foldl}
use mobile_final_project.Base.{
  ℕ, suc, ◌+◌, String, Ordering, ◌≡◌, refl, ◌∙◌, true, ◌&&◌, Option, none, some, List, [], ◌∷◌,
  arith, ap, subst, All, All-filter, All-find, All-sort_by, All-filter_test, All-both, All-imp, ◌%◌,
  Bool-cases, inl, inr, get_elem?, ◌==◌, ltb,
}
use mobile_final_project.Game.Types.{
  Side, UnitInstance, BattleSim, units_of, enemy_side_of, ranger, same_unit,
}
use mobile_final_project.Game.Store.{Handle, get, handles, handles_from}
use mobile_final_project.Game.Targeting.{
  or_else, first_non_empty, first_non_empty_row, lane_candidates, living, prioritized, is_steered,
  is_star2_tank, reduce, lower_hp, lowest_hp, base_target, choose, pick_target, col_of, row_of,
}

-- The handle names an object of the array, and shows its present fields.
abbrev pub IsAt : BattleSim → Side → Handle → Type 0
IsAt sim s h = (h.ref.side ≡ s) × (get sim h.ref ≡ some h.unit)

handles_from-All :
    (s : Side) (i : ℕ) (us : List UnitInstance) (f : ℕ → Option UnitInstance)
    → ((j : ℕ) → f (i + j) ≡ get_elem? us j)
    → All (λ h. (h.ref.side ≡ s) × (f h.ref.index ≡ some h.unit)) (handles_from s i us)
handles_from-All s i [] f e = tt
handles_from-All s i (u ∷ us) f e = (
  (refl, ap f (omega arith) ∙ e 0),
  handles_from-All s (suc i) us f (λ j. ap f (omega arith) ∙ e (suc j)),
)

IsAt-side :
    (sim : BattleSim) (s : Side) (h : Handle)
    → (h.ref.side ≡ s) × (get_elem? (units_of sim s) h.ref.index ≡ some h.unit)
    → IsAt sim s h
unfolding get
IsAt-side sim s h (a, b) = (a, ap (λ (k : Side). get_elem? (units_of sim k) h.ref.index) a ∙ b)

pub handles-IsAt : (sim : BattleSim) (s : Side) → All (IsAt sim s) (handles sim s)
unfolding handles
handles-IsAt sim s = All-imp _ _ (handles_from s 0 (units_of sim s)) (IsAt-side sim s) (
    handles_from-All s 0 (units_of sim s) (get_elem? (units_of sim s))
      (λ j. ap (get_elem? (units_of sim s)) (omega arith)))

module _ (P : Handle → Type 0) where
  pub All-or_else : (xs ys : List Handle) → All P xs → All P ys → All P (or_else xs ys)
  All-or_else [] ys h k = k
  All-or_else (x ∷ xs) ys h k = h

  All-first_non_empty :
      (f : ℕ → List Handle) (ks : List ℕ) → ((k : ℕ) → All P (f k)) → All P (first_non_empty f ks)
  All-first_non_empty f [] h = tt
  All-first_non_empty f (k ∷ ks) h =
      All-or_else (f k) (first_non_empty f ks) (h k) (All-first_non_empty f ks h)

  pub All-first_row : (xs : List Handle) → All P xs → All P (first_non_empty_row xs)
  unfolding first_non_empty_row
  All-first_row xs h =
      All-first_non_empty _ (0 ∷ 1 ∷ 2 ∷ []) (λ k. All-filter P (λ u. row_of u == k) xs h)

  All-lane : (col : ℕ) (xs : List Handle) → All P xs → All P (lane_candidates col xs)
  unfolding lane_candidates
  All-lane col xs h = All-or_else _ _ (All-first_row _ (All-filter P (λ e. col_of e == col) xs h)) (
      All-first_non_empty _ (0 ∷ 1 ∷ 2 ∷ [])
        (λ k. All-first_row _ (All-filter P (λ e. col_of e == k) xs h)))

  foldl-P :
      (f : Handle → Handle → Handle)
      → ((a b : Handle) → P a → P b → P (f a b))
      → (x : Handle) (xs : List Handle) → P x
      → All P xs
      → P (foldl f x xs)
  foldl-P f g x [] h k = h
  foldl-P f g x (y ∷ ys) h k = foldl-P f g (f x y) ys (g x y h k.0) k.1

  pub reduce-P :
      (f : Handle → Handle → Handle)
      → ((a b : Handle) → P a → P b → P (f a b))
      → (xs : List Handle) (h : Handle) → All P xs
      → reduce f xs ≡ some h
      → P h
  reduce-P f g [] h k e = cc
  reduce-P f g (x ∷ xs) h k e = subst P (cc) (foldl-P f g x xs k.0 k.1)

  pub head-P : (xs : List Handle) (h : Handle) → All P xs → head? xs ≡ some h → P h
  head-P [] h k e = cc
  head-P (x ∷ xs) h k e = subst P (cc) k.0

  lower_hp-P : (a b : Handle) → P a → P b → P (lower_hp a b)
  lower_hp-P a b h k = elim (Bool-cases (ltb b.unit.hp a.unit.hp)) [
    | inl e ↦ rw e k
    | inr e ↦ rw e h
  ]

  module _ (lc : String → String → Ordering) where
    pub lowest_hp-P : (xs : List Handle) (h : Handle) → All P xs → lowest_hp lc xs ≡ some h → P h
    unfolding lowest_hp
    lowest_hp-P xs h k e = reduce-P lower_hp lower_hp-P _ h (All-sort_by P _ xs k) e

    pub base_target-P :
        (a : UnitInstance) (xs : List Handle) (h : Handle)
        → All P xs
        → base_target lc a xs ≡ some h
        → P h
    unfolding base_target
    base_target-P a xs h k e = elim (Bool-cases (same_unit a.unit_id ranger)) [
      | inl t ↦ lowest_hp-P _ h (All-lane (a.slot % 3) xs k) (rw t at e)
      | inr t ↦ head-P _ h (All-sort_by P _ _ (All-lane (a.slot % 3) xs k)) (rw t at e)
    ]

    prioritized-P :
        (a : UnitInstance) (xs : List Handle) (h : Handle)
        → All P xs
        → prioritized a xs ≡ some h
        → P h
    unfolding prioritized
    prioritized-P a xs h k e = elim (Bool-cases (is_steered a)) [
      | inl t ↦ All-find P is_star2_tank xs k (rw t at e)
      | inr t ↦ cc (rw t at e)
    ]

    choose_steered-P :
        (a : UnitInstance) (xs : List Handle) (h : Handle) (o : Option Handle)
        → All P xs
        → prioritized a xs ≡ o
        → elim o [ some t ↦ some t | none ↦ base_target lc a xs ] ≡ some h
        → P h
    choose_steered-P a xs h none k q e = base_target-P a xs h k e
    choose_steered-P a xs h (some t) k q e = prioritized-P a xs h k (q ∙ e)

    choose-P :
        (a : UnitInstance) (xs : List Handle) (h : Handle)
        → All P xs
        → choose lc a xs ≡ some h
        → P h
    unfolding choose
    choose-P a [] h k e = cc
    choose-P a (x ∷ xs) h k e = elim (Bool-cases (same_unit a.unit_id ranger && a.star == 2)) [
      | inl t ↦ lowest_hp-P (x ∷ xs) h k (rw t at e)
      | inr t ↦ choose_steered-P a (x ∷ xs) h _ k refl (rw t at e)
    ]

-- What it takes to be a target: an object of the enemy's array, alive now.
abbrev pub IsTarget : BattleSim → UnitInstance → Handle → Type 0
IsTarget sim a h = IsAt sim (enemy_side_of a.side) h × (h.unit.alive ≡ true)

pub living-IsTarget : (sim : BattleSim) (a : UnitInstance) → All (IsTarget sim a) (living sim a)
unfolding living
living-IsTarget sim a =
    All-both _ _ _ (All-filter _ _ _ (handles-IsAt sim (enemy_side_of a.side)))
      (All-filter_test (λ h. h.unit.alive) (handles sim (enemy_side_of a.side)))

-- A unit that `pickTarget` picks is a living unit of the attacker's enemies.
pub pick_target-IsTarget :
    (lc : String → String → Ordering) (a : UnitInstance) (sim : BattleSim) (h : Handle)
    → pick_target lc a sim ≡ some h
    → IsTarget sim a h
unfolding pick_target
pick_target-IsTarget lc a sim h e =
    choose-P (IsTarget sim a) lc a (living sim a) h (living-IsTarget sim a) e
