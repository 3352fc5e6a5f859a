-- ===== src/Game/Targeting.antt =====
-- `pickTarget` of backend/src/game/targeting.ts. `locale_compare` is the sign of
-- `String.prototype.localeCompare`, which the runtime provides.
pub mod Sound
pub mod Choice
pub mod Lanes
use mathlib.Core.List.{head?, foldl}
use mobile_final_project.Base.{
  ℕ, ◌/◌, ◌%◌, String, Ordering, compare, Bool, ◌&&◌, ◌||◌, Option, none, some, List, [], ◌∷◌, ◌==◌,
  ltb, if◌then◌else◌, filter, find, sort_by, then_by,
}
use mobile_final_project.Game.Types.{
  UnitInstance, BattleSim, fighter, healer, ranger, tank, same_unit, enemy_side_of,
}
use mobile_final_project.Game.Store.{Handle, handles}

abbrev pub col_of : Handle → ℕ
col_of h = h.unit.slot % 3

abbrev pub row_of : Handle → ℕ
row_of h = h.unit.slot / 3

abbrev pub or_else {ℓ} : {A : Type ℓ} → List A → List A → List A
or_else [] ys = ys
or_else (x ∷ xs) ys = x ∷ xs

-- `for (const k of ks) { const found = f(k); if (found.length > 0) return found; } return [];`
abbrev pub first_non_empty {ℓ} : {A : Type ℓ} → (ℕ → List A) → List ℕ → List A
first_non_empty f [] = []
first_non_empty f (k ∷ ks) = or_else (f k) (first_non_empty f ks)

unfoldable pub first_non_empty_row : List Handle → List Handle
first_non_empty_row lane =
    first_non_empty (λ row. filter (λ u. row_of u == row) lane) (0 ∷ 1 ∷ 2 ∷ [])

-- `pickTarget` looks at the attacker's own lane, then at the lanes 0, 1 and 2.
unfoldable pub lane_candidates : ℕ → List Handle → List Handle
unfolding first_non_empty_row
lane_candidates col enemies =
    or_else (first_non_empty_row (filter (λ e. col_of e == col) enemies)) (
      first_non_empty (λ k. first_non_empty_row (filter (λ e. col_of e == k) enemies))
        (0 ∷ 1 ∷ 2 ∷ []))

-- The living units of a side.
unfoldable pub living : BattleSim → UnitInstance → List Handle
living sim attacker = filter (λ h. h.unit.alive) (handles sim (enemy_side_of attacker.side))

-- Fighters, tanks and healers are drawn to a two-star tank.
abbrev pub is_steered : UnitInstance → Bool
is_steered a = same_unit a.unit_id fighter || same_unit a.unit_id tank || same_unit a.unit_id healer

abbrev pub is_star2_tank : Handle → Bool
is_star2_tank e = same_unit e.unit.unit_id tank && e.unit.star == 2

unfoldable pub prioritized : UnitInstance → List Handle → Option Handle
prioritized a enemies = if is_steered a then find is_star2_tank enemies else none

-- `units.reduce(f)`; the source calls it on arrays that are not empty.
abbrev pub reduce {ℓ} : {A : Type ℓ} → (A → A → A) → List A → Option A
reduce f [] = none
reduce f (x ∷ xs) = some (foldl f x xs)

abbrev pub lower_hp : Handle → Handle → Handle
lower_hp a b = if ltb b.unit.hp a.unit.hp then b else a

module _ (locale_compare : String → String → Ordering) where
  abbrev pub position_order : Handle → Handle → Ordering
  position_order a b = then_by (compare (col_of a) (col_of b)) (
      then_by (compare (row_of a) (row_of b))
        (locale_compare a.unit.instance_id b.unit.instance_id))

  unfoldable pub by_position_then_id : List Handle → List Handle
  by_position_then_id = sort_by position_order

  unfoldable pub lowest_hp : List Handle → Option Handle
  unfolding by_position_then_id
  lowest_hp units = reduce lower_hp (by_position_then_id units)

  -- The base rule and its tie-break; no candidate gives no target.
  unfoldable pub base_target : UnitInstance → List Handle → Option Handle
  unfolding lane_candidates lowest_hp
  base_target a enemies =
      let candidates = lane_candidates (a.slot % 3) enemies in
      if same_unit a.unit_id ranger
      then lowest_hp candidates
      else head? (by_position_then_id candidates)

  unfoldable pub choose : UnitInstance → List Handle → Option Handle
  unfolding base_target prioritized
  choose a [] = none
  choose a (e ∷ es) =
      let enemies = e ∷ es in
      if same_unit a.unit_id ranger && a.star == 2
      then lowest_hp enemies
      else elim (prioritized a enemies) [ some t ↦ some t | none ↦ base_target a enemies ]

  unfoldable pub pick_target : UnitInstance → BattleSim → Option Handle
  unfolding choose living
  pick_target attacker sim = choose attacker (living sim attacker)
