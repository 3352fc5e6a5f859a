-- ===== src/Game/Abilities.antt =====
-- backend/src/game/abilities.ts: what follows an attack.
use mobile_final_project.Base.{
  ℕ, ◌-◌, ◌/◌, ◌%◌, ◌+◌, min, String, Ordering, Bool, true, false, not, ◌&&◌, Option, none, some,
  List, [], ◌∷◌, map, ◌==◌, ltb, if◌then◌else◌, filter, find, str_eq,
}
use mobile_final_project.Game.Types.{
  UnitInstance, BattleSim, actor, CombatEvent, death, heal, lifesteal, pierce, slow, enemy_side_of,
}
use mobile_final_project.Game.Constants.{lifesteal_of, pierce_of, heal_amount, slowed_spd, spd_for}
use mobile_final_project.Game.Store.{
  Ref, Handle, same_ref, handles, Action, skip, emit, write, ◌>>◌, with_unit, reads,
}
use mobile_final_project.Game.Targeting.{col_of, row_of, reduce}

-- `Math.max(0, …)` is the `-` of the numbers, which stops at 0.
abbrev pub lifesteal_amount : UnitInstance → ℕ → ℕ
lifesteal_amount f dmg = min (lifesteal_of f.star dmg) (f.max_hp - f.hp)

unfoldable pub apply_lifesteal : Ref → ℕ → ℕ → ℕ → Action
apply_lifesteal fighter dmg cycle tick = with_unit fighter λ f.
    let amount = lifesteal_amount f dmg in
    write fighter (record f { hp = f.hp + amount })
    >> emit (lifesteal cycle tick (actor f) amount (f.hp + amount) ∷ [])

-- `behind.hp` falls to 0 at the least; at 0 a living unit dies.
abbrev pub pierce_dies : UnitInstance → ℕ → Bool
pierce_dies b dmg = (b.hp - dmg == 0) && b.alive

unfoldable pub pierced : UnitInstance → ℕ → UnitInstance
pierced b dmg = record b { hp = b.hp - dmg; alive = if pierce_dies b dmg then false else b.alive }

abbrev pub pierce_events : UnitInstance → UnitInstance → ℕ → ℕ → ℕ → List CombatEvent
pierce_events r b dmg cycle tick =
    pierce cycle tick (actor r) (actor b) dmg
    ∷ (if pierce_dies b dmg then death cycle tick (actor b) ∷ [] else [])

-- The living enemy in the slot right behind the target, if that row exists.
unfoldable pub find_behind : UnitInstance → UnitInstance → BattleSim → Option Handle
find_behind ranger target sim =
    let behind_row = target.slot / 3 + 1 in
    if ltb 2 behind_row
    then none
    else find (λ h. h.unit.alive && (col_of h == target.slot % 3) && (row_of h == behind_row))
        (handles sim (enemy_side_of ranger.side))

unfoldable pub pierce_one : UnitInstance → ℕ → ℕ → ℕ → Option Handle → Action
pierce_one r primary_damage cycle tick none = skip
pierce_one r primary_damage cycle tick (some behind) = with_unit behind.ref λ b.
    let dmg = pierce_of primary_damage in
    write behind.ref (pierced b dmg) >> emit (pierce_events r b dmg cycle tick)

unfoldable pub apply_pierce : Ref → Ref → ℕ → ℕ → ℕ → Action
apply_pierce ranger primary_target primary_damage cycle tick = with_unit ranger λ r.
    with_unit primary_target λ t. reads (find_behind r t) (pierce_one r primary_damage cycle tick)

abbrev pub heal_of : UnitInstance → ℕ
heal_of t = min heal_amount (t.max_hp - t.hp)

unfoldable pub heal_one : Ref → Ref → ℕ → ℕ → Action
heal_one target healer cycle tick = with_unit target λ t. with_unit healer λ h.
    let amount = heal_of t in
    if amount == 0
    then skip
    else write target (record t { hp = t.hp + amount })
      >> emit (heal cycle tick (actor t) (actor h) amount (t.hp + amount) ∷ [])

abbrev pub is_excluded : Option Ref → Ref → Bool
is_excluded none r = false
is_excluded (some e) r = same_ref e r

-- The current SPD while slowed, and the Slow itself.
abbrev pub slowed : UnitInstance → String → UnitInstance
slowed t by = record t {
  effective_spd = some (slowed_spd t.unit_id);
  slow_active = some true;
  slow_until_healer_act = some by;
}

unfoldable pub apply_slow : Ref → Ref → ℕ → ℕ → Action
apply_slow healer target cycle tick = with_unit healer λ h.
    with_unit target
      λ t. write target (slowed t h.instance_id) >> emit (slow cycle tick (actor t) (actor h) ∷ [])

abbrev pub slowed_by : UnitInstance → String → Bool
slowed_by u id = elim u.slow_until_healer_act [ none ↦ false | some by ↦ str_eq by id ]

abbrev pub unslowed : String → UnitInstance → UnitInstance
unslowed id u =
    if slowed_by u id
    then record u {
      effective_spd = some (spd_for u.unit_id);
      slow_active = some false;
      slow_until_healer_act = none;
    }
    else u

unfoldable pub clear_healer_slows : Ref → Action
clear_healer_slows healer = with_unit healer λ h sim. (
  record {
    p1_units = map (unslowed h.instance_id) sim.p1_units;
    p2_units = map (unslowed h.instance_id) sim.p2_units;
  },
  [],
)

abbrev pub ref_of : Option Handle → Option Ref
ref_of none = none
ref_of (some h) = some h.ref

unfoldable pub support : Ref → ℕ → ℕ → Option Handle → Action
support healer cycle tick none = skip
support healer cycle tick (some target) = heal_one target.ref healer cycle tick

module _ (locale_compare : String → String → Ordering) where
  abbrev pub weaker_ally : Handle → Handle → Handle
  weaker_ally a b =
      if b.unit.hp == a.unit.hp
      then elim (locale_compare b.unit.instance_id a.unit.instance_id) [ Ordering.lt ↦ b | _ ↦ a ]
      else if ltb b.unit.hp a.unit.hp
      then b
      else a

  unfoldable pub lowest_hp_ally : List Handle → Option Ref → Option Handle
  lowest_hp_ally allies exclude =
      reduce weaker_ally (filter (λ u. u.unit.alive && not (is_excluded exclude u.ref)) allies)

  unfoldable pub apply_healer_support : Ref → ℕ → ℕ → Action
  apply_healer_support healer cycle tick = with_unit healer λ h.
      reads (λ sim. lowest_hp_ally (handles sim h.side) none)
        λ first.
          support healer cycle tick first
          >> (if h.star == 2
              then reads (λ sim. lowest_hp_ally (handles sim h.side) (ref_of first))
                  (support healer cycle tick)
              else skip)
