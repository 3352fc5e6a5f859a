-- ===== src/Game/Targeting/Lanes.antt =====
-- The rules that steer the choice: the lowest HP for a two-star ranger, the two-star tank, and the
-- front of the attacker's own lane.
use mathlib.Core.List.{foldl}
use mobile_final_project.Base.{
  ℕ, suc, min, sort_by, ◌≤◌, ◌%◌, String, Ordering, ◌≡◌, ◌≢◌, refl, ◌∙◌, sym, ap, subst, Bool, true,
  false, ◌&&◌, none, some, List, [], ◌∷◌, arith, All, All-filter, All-filter_test, All-imp,
  All-sort_by, All-both, All-everywhere, All-of_sort_by, filter-nil, cons_ne_nil, some_eq,
  Bool-cases, inl, inr, ◌==◌, filter, find, any, ==_iff,
}
use mobile_final_project.Game.Types.{UnitInstance, BattleSim, ranger, same_unit}
use mobile_final_project.Game.Store.{Handle}
use mobile_final_project.Game.Targeting.{
  or_else, first_non_empty_row, lane_candidates, living, is_steered, is_star2_tank, prioritized,
  reduce, lower_hp, by_position_then_id, lowest_hp, base_target, choose, pick_target, col_of,
  row_of, position_order,
}
use mobile_final_project.Game.Targeting.Choice.{OnBoard, row_empty}
use mobile_final_project.Game.Targeting.Sound.{All-first_row, head-P, lowest_hp-P}

-- `lower_hp` keeps the smaller HP, the first one among equals.
foldl-least :
    (x : Handle) (xs : List Handle)
    → ((foldl lower_hp x xs).unit.hp ≤ x.unit.hp)
      × All (λ e. (foldl lower_hp x xs).unit.hp ≤ e.unit.hp) xs
foldl-least x [] = (omega arith, tt)
foldl-least x (y ∷ ys) =
    let (a, b) = foldl-least (lower_hp x y) ys in
    let least : (lower_hp x y).unit.hp ≤ min x.unit.hp y.unit.hp = ground arith in
    (omega (arith, a, least), (omega (arith, a, least), b))

module _ (lc : String → String → Ordering) where
  lowest_hp-least :
      (xs : List Handle) (h : Handle)
      → lowest_hp lc xs ≡ some h
      → All (λ e. h.unit.hp ≤ e.unit.hp) xs
  unfolding lowest_hp by_position_then_id
  lowest_hp-least xs h e =
      All-of_sort_by _ (position_order lc) xs (least (sort_by (position_order lc) xs) e)
    where
      least : (ys : List Handle) → reduce lower_hp ys ≡ some h → All (λ e. h.unit.hp ≤ e.unit.hp) ys
      least [] q = tt
      least (y ∷ ys) q =
          subst (λ (k : Handle). All (λ e. k.unit.hp ≤ e.unit.hp) (y ∷ ys)) (some_eq q)
            (foldl-least y ys)

  choose_ranger2 :
      (a : UnitInstance) (xs : List Handle) (h : Handle)
      → a.unit_id ≡ ranger
      → a.star ≡ 2
      → choose lc a xs ≡ some h
      → All (λ e. h.unit.hp ≤ e.unit.hp) xs
  unfolding choose
  choose_ranger2 a [] h r s e = tt
  choose_ranger2 a (x ∷ xs) h r s e =
      lowest_hp-least (x ∷ xs) h
        (rw (let t : same_unit a.unit_id ranger && a.star == 2 ≡ true = ground arith in t) at e)

  -- A two-star ranger picks, among all living enemies in any lane, one of least HP.
  pub pick_target_lowest_hp :
      (a : UnitInstance) (sim : BattleSim) (h : Handle)
      → a.unit_id ≡ ranger
      → a.star ≡ 2
      → pick_target lc a sim ≡ some h
      → All (λ e. h.unit.hp ≤ e.unit.hp) (living sim a)
  unfolding pick_target
  pick_target_lowest_hp a sim h r s e = choose_ranger2 a (living sim a) h r s e

-- The handle stands in that lane, and no living enemy of the lane stands in a row before it.
pub record IsFrontOf (col : ℕ) (es : List Handle) (h : Handle) : Type 0 where
  pub in_lane : col_of h ≡ col
  pub in_front : All (λ e. col_of e ≡ col → row_of h ≤ row_of e) es

or_else_cases :
    (P : Handle → Type 0) (xs ys : List Handle)
    → All P xs
    → (xs ≡ [] → All P ys)
    → All P (or_else xs ys)
or_else_cases P [] ys h k = k refl
or_else_cases P (x ∷ xs) ys h k = h

-- In a lane `first_non_empty_row` keeps units of one row, the first that has any.
row_front :
    (lane : List Handle) → All (λ h. All (λ e. row_of h ≤ row_of e) lane) (first_non_empty_row lane)
unfolding first_non_empty_row
row_front lane = or_else_cases _ (in_row 0) _ (at_row 0 zero_low) λ e0.
    let low1 = past 0 e0 zero_low in
    or_else_cases _ (in_row 1) _ (at_row 1 low1)
      λ e1. or_else_cases _ (in_row 2) [] (at_row 2 (past 1 e1 low1)) (λ _. tt)
  where
    in_row : ℕ → List Handle
    in_row k = filter (λ u. row_of u == k) lane

    at_row :
        (k : ℕ)
        → All (λ e. k ≤ row_of e) lane
        → All (λ h. All (λ e. row_of h ≤ row_of e) lane) (in_row k)
    at_row k low =
        All-imp _ _ (in_row k)
          (λ h t. All-imp _ _ lane (λ e l. omega (arith, (==_iff (row_of h) k).0 t)) low)
          (All-filter_test (λ u. row_of u == k) lane)

    past : (k : ℕ) → in_row k ≡ [] → All (λ e. k ≤ row_of e) lane → All (λ e. suc k ≤ row_of e) lane
    past k none_here low =
        All-imp _ _ lane (λ e (l, n). ground arith)
          (All-both _ _ lane low (filter-nil (λ u. row_of u == k) lane none_here))

    zero_low : All (λ e. 0 ≤ row_of e) lane
    zero_low = All-everywhere _ lane (λ e. omega arith)

-- A non-empty lane of the attacker's own gives the candidates.
own_lane :
    (col : ℕ) (es : List Handle)
    → first_non_empty_row (filter (λ e. col_of e == col) es) ≢ []
    → lane_candidates col es ≡ first_non_empty_row (filter (λ e. col_of e == col) es)
unfolding lane_candidates
own_lane col es h = go (first_non_empty_row (filter (λ e. col_of e == col) es)) _ h
  where
    go : (xs ys : List Handle) → xs ≢ [] → or_else xs ys ≡ xs
    go [] ys n = absurd (n refl)
    go (x ∷ xs) ys n = refl

-- Low in a lane is low among all units of that column.
lane_rows :
    (col k : ℕ) (es : List Handle)
    → All (λ e. k ≤ row_of e) (filter (λ e. col_of e == col) es)
    → All (λ e. col_of e ≡ col → k ≤ row_of e) es
lane_rows col k [] h = tt
lane_rows col k (x ∷ xs) h = elim (Bool-cases (col_of x == col)) [
  | inl e ↦ let g = rw e at h in (λ _. g.0, lane_rows col k xs g.1)
  | inr e ↦ (λ q. absurd (ground (arith, q)), lane_rows col k xs (rw e at h))
]

candidates_front :
    (col : ℕ) (es : List Handle)
    → first_non_empty_row (filter (λ e. col_of e == col) es) ≢ []
    → All (IsFrontOf col es) (lane_candidates col es)
candidates_front col es h =
    let lane = filter (λ e. col_of e == col) es in
    rw (own_lane col es h) (
      All-imp _ _ (first_non_empty_row lane)
        (λ u (c, f). record {
          in_lane = (==_iff (col_of u) col).0 c;
          in_front = lane_rows col (row_of u) es f;
        })
        (All-both _ _ (first_non_empty_row lane)
          (All-first_row _ lane (All-filter_test (λ e. col_of e == col) es)) (row_front lane)))

none_passes : (p : Handle → Bool) (xs : List Handle) → All (λ e. p e ≡ false) xs → find p xs ≡ none
none_passes p [] h = refl
none_passes p (x ∷ xs) h = rw h.0 (none_passes p xs h.1)

any-filter : (p : Handle → Bool) (xs : List Handle) → any p xs ≡ true → filter p xs ≢ []
any-filter p [] h e = cc
any-filter p (x ∷ xs) h e = elim (Bool-cases (p x)) [
  | inl t ↦ cons_ne_nil (rw t at e)
  | inr t ↦ any-filter p xs (rw t at h) (rw t at e)
]

-- Nothing draws the attacker away from the base rule: it is a ranger of less than two stars, or
-- no living enemy is a two-star tank.
pub record IsPlain (a : UnitInstance) (es : List Handle) : Type 0 where
  pub no_sniper : same_unit a.unit_id ranger && a.star == 2 ≡ false
  pub no_tank : is_steered a ≡ true → All (λ e. is_star2_tank e ≡ false) es

prioritized-none : (a : UnitInstance) (es : List Handle) → IsPlain a es → prioritized a es ≡ none
unfolding prioritized
prioritized-none a es p = elim (Bool-cases (is_steered a)) [
  | inl t ↦ rw t (none_passes is_star2_tank es (p.no_tank t))
  | inr t ↦ rw t
]

module _ (lc : String → String → Ordering) where
  base_target_of :
      (P : Handle → Type 0) (a : UnitInstance) (es : List Handle) (h : Handle)
      → All P (lane_candidates (a.slot % 3) es)
      → base_target lc a es ≡ some h
      → P h
  unfolding base_target by_position_then_id
  base_target_of P a es h k e = elim (Bool-cases (same_unit a.unit_id ranger)) [
    | inl t ↦ lowest_hp-P P lc _ h k (rw t at e)
    | inr t ↦ head-P P _ h (All-sort_by P (position_order lc) _ k) (rw t at e)
  ]

  choose_plain :
      (a : UnitInstance) (es : List Handle)
      → IsPlain a es
      → es ≢ []
      → choose lc a es ≡ base_target lc a es
  unfolding choose
  choose_plain a [] p n = absurd (n refl)
  choose_plain a (x ∷ xs) p n = rw (p.no_sniper, prioritized-none a (x ∷ xs) p)

  -- Where nothing overrides the base rule and a living enemy stands in the attacker's column of
  -- the nine-slot board, the target is in that column, and no living enemy of the column stands
  -- in a row in front of it.
  pub pick_target_front :
      (a : UnitInstance) (sim : BattleSim) (h : Handle)
      → All OnBoard (living sim a)
      → IsPlain a (living sim a)
      → any (λ e. col_of e == a.slot % 3) (living sim a) ≡ true
      → pick_target lc a sim ≡ some h
      → IsFrontOf (a.slot % 3) (living sim a) h
  unfolding pick_target
  pick_target_front a sim h board plain same e =
      let es = living sim a in
      let in_lane = any-filter (λ x. col_of x == a.slot % 3) es same in
      let some_row = λ (q : first_non_empty_row (filter (λ x. col_of x == a.slot % 3) es) ≡ []).
        in_lane (row_empty _ (All-filter OnBoard (λ x. col_of x == a.slot % 3) es board) q) in
      let some_enemy = λ (q : es ≡ []). in_lane (ap (filter (λ x. col_of x == a.slot % 3)) q) in
      base_target_of (IsFrontOf (a.slot % 3) es) a es h (candidates_front (a.slot % 3) es some_row)
        (sym (choose_plain a es plain some_enemy) ∙ e)
