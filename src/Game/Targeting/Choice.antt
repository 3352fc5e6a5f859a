-- ===== src/Game/Targeting/Choice.antt =====
-- Which living enemy `pickTarget` picks, and that it picks one whenever there is one.
use mathlib.Core.List.{head?}
use mobile_final_project.Base.{
  ℕ, suc, ◌<◌, ◌%◌, String, Ordering, ◌≡◌, ◌↔◌, refl, ap, false, ◌&&◌, Option, none, some, List, [],
  ◌∷◌, arith, All, All-filter, sort_by-nil, filter-nil, cons_ne_nil, Bool-cases, inl, inr, ◌==◌,
  filter,
}
use mobile_final_project.Game.Types.{
  Side, UnitInstance, BattleSim, units_of, enemy_side_of, ranger, same_unit,
}
use mobile_final_project.Game.Store.{Handle, handles, handles_from}
use mobile_final_project.Game.Engine.{has_living}
use mobile_final_project.Game.Targeting.{
  or_else, first_non_empty_row, lane_candidates, living, prioritized, reduce, lower_hp,
  by_position_then_id, lowest_hp, base_target, choose, pick_target, col_of, row_of, position_order,
}

or_else-nil : (xs ys : List Handle) → or_else xs ys ≡ [] → (xs ≡ []) × (ys ≡ [])
or_else-nil [] ys h = (refl, h)
or_else-nil (x ∷ xs) ys h = absurd (cons_ne_nil h)

-- On a board of nine slots.
abbrev pub OnBoard : Handle → Type 0
OnBoard h = h.unit.slot < 9

pub row_empty : (xs : List Handle) → All OnBoard xs → first_non_empty_row xs ≡ [] → xs ≡ []
unfolding first_non_empty_row
row_empty [] b h = refl
row_empty (x ∷ xs) b h =
    let (e0, r0) = or_else-nil (filter (λ u. row_of u == 0) (x ∷ xs)) _ h in
    let (e1, r1) = or_else-nil (filter (λ u. row_of u == 1) (x ∷ xs)) _ r0 in
    let (e2, _) = or_else-nil (filter (λ u. row_of u == 2) (x ∷ xs)) _ r1 in
    let f0 = (filter-nil (λ u. row_of u == 0) (x ∷ xs) e0).0 in
    let f1 = (filter-nil (λ u. row_of u == 1) (x ∷ xs) e1).0 in
    let f2 = (filter-nil (λ u. row_of u == 2) (x ∷ xs) e2).0 in
    absurd (ground (arith, f0, f1, f2, b.0))

lane_empty : (col : ℕ) (xs : List Handle) → All OnBoard xs → lane_candidates col xs ≡ [] → xs ≡ []
unfolding lane_candidates
lane_empty col [] b h = refl
lane_empty col (x ∷ xs) b h =
    let lane = λ (k : ℕ). filter (λ e. col_of e == k) (x ∷ xs) in
    let gone = λ (k : ℕ) (e : first_non_empty_row (lane k) ≡ []).
      (filter-nil (λ u. col_of u == k) (x ∷ xs)
        (row_empty (lane k) (All-filter OnBoard (λ e. col_of e == k) (x ∷ xs) b) e)).0 in
    let (_, l) = or_else-nil (first_non_empty_row (lane col)) _ h in
    let (e0, r0) = or_else-nil (first_non_empty_row (lane 0)) _ l in
    let (e1, r1) = or_else-nil (first_non_empty_row (lane 1)) _ r0 in
    let (e2, _) = or_else-nil (first_non_empty_row (lane 2)) _ r1 in
    absurd (ground (arith, gone 0 e0, gone 1 e1, gone 2 e2))

reduce-none : (f : Handle → Handle → Handle) (xs : List Handle) → reduce f xs ≡ none → xs ≡ []
reduce-none f [] h = refl
reduce-none f (x ∷ xs) h = cc

head-none : (xs : List Handle) → head? xs ≡ none → xs ≡ []
head-none [] h = refl
head-none (x ∷ xs) h = cc

module _ (lc : String → String → Ordering) where
  base_none :
      (a : UnitInstance) (xs : List Handle) → All OnBoard xs → base_target lc a xs ≡ none → xs ≡ []
  unfolding base_target lowest_hp by_position_then_id
  base_none a xs b h = elim (Bool-cases (same_unit a.unit_id ranger)) [
    | inl t ↦
        lane_empty (a.slot % 3) xs b
          (sort_by-nil (position_order lc) _ (reduce-none lower_hp _ (rw t at h)))
    | inr t ↦
        lane_empty (a.slot % 3) xs b (sort_by-nil (position_order lc) _ (head-none _ (rw t at h)))
  ]

  choose-none :
      (a : UnitInstance) (xs : List Handle) → All OnBoard xs → choose lc a xs ≡ none → xs ≡ []
  unfolding choose lowest_hp by_position_then_id
  choose-none a [] b h = refl
  choose-none a (x ∷ xs) b h = elim (Bool-cases (same_unit a.unit_id ranger && a.star == 2)) [
    | inl t ↦ sort_by-nil (position_order lc) (x ∷ xs) (reduce-none lower_hp _ (rw t at h))
    | inr t ↦ steered (prioritized a (x ∷ xs)) (rw t at h)
  ]
    where
      steered :
          (o : Option Handle)
          → elim o [ some t ↦ some t | none ↦ base_target lc a (x ∷ xs) ] ≡ none
          → x ∷ xs ≡ []
      steered none e = base_none a (x ∷ xs) b e
      steered (some t) e = cc

handles-living :
    (s : Side) (i : ℕ) (us : List UnitInstance)
    → (filter (λ h. h.unit.alive) (handles_from s i us) ≡ []) ↔ (has_living us ≡ false)
handles-living s i [] = (λ _. refl, λ _. refl)
handles-living s i (u ∷ us) = elim (Bool-cases u.alive) [
  | inl e ↦ rw e (λ h. absurd (cons_ne_nil h), λ h. cc)
  | inr e ↦ rw e (handles-living s (suc i) us)
]

pub handles_from-OnBoard :
    (s : Side) (i : ℕ) (us : List UnitInstance)
    → All (λ u. u.slot < 9) us
    → All OnBoard (handles_from s i us)
handles_from-OnBoard s i [] h = tt
handles_from-OnBoard s i (u ∷ us) h = (h.0, handles_from-OnBoard s (suc i) us h.1)

-- If the enemies stand on the nine slots, then `pickTarget` finds no target exactly if no enemy is
-- alive.
pub pick_target-none_iff :
    (lc : String → String → Ordering) (a : UnitInstance) (sim : BattleSim)
    → All (λ u. u.slot < 9) (units_of sim (enemy_side_of a.side))
    → (pick_target lc a sim ≡ none) ↔ (has_living (units_of sim (enemy_side_of a.side)) ≡ false)
unfolding pick_target living handles
pick_target-none_iff lc a sim b =
    let es = units_of sim (enemy_side_of a.side) in
    let all = handles_from-OnBoard (enemy_side_of a.side) 0 es b in
    (
      λ h.
          (handles-living (enemy_side_of a.side) 0 es).0
            (choose-none lc a _ (All-filter OnBoard (λ x. x.unit.alive) _ all) h),
      λ h. ap (choose lc a) ((handles-living (enemy_side_of a.side) 0 es).1 h),
    )
