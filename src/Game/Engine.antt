-- ===== src/Game/Engine.antt =====
-- `runBattle` of backend/src/game/engine.ts.
use mobile_final_project.Base.{
  ℕ, zero, suc, ◌*◌, ◌/◌, ◌%◌, String, Ordering, compare, Bool, false, not, ◌&&◌, Option, none,
  some, List, [], ◌∷◌, ◌++◌, map, ◌==◌, ltb, leb, if◌then◌else◌, filter, any, sort_by, then_by,
}
use mobile_final_project.Game.Types.{
  Side, p1, p2, UnitInstance, UnitId, fighter, healer, ranger, tank, BattleSim, BattleState,
  CombatEvent, cycle_end, battle_end, BoardEvent, same_side, snapshot_all_units,
}
use mobile_final_project.Game.Constants.{
  atk_for, spd_for, acts_on_tick, max_cycles, ticks_per_cycle,
}
use mobile_final_project.Game.Rng.{make_rng, next, word}
use mobile_final_project.Game.Store.{
  Ref, Handle, get, handles, Action, skip, ◌>>◌, with_unit, reads,
}
use mobile_final_project.Game.Damage.{apply_damage}
use mobile_final_project.Game.Targeting.{pick_target}
use mobile_final_project.Game.Abilities.{
  apply_lifesteal, apply_pierce, apply_healer_support, apply_slow, clear_healer_slows,
}

-- `a ?? b`
abbrev or_default {ℓ} : {A : Type ℓ} → Option A → A → A
or_default none d = d
or_default (some a) d = a

abbrev pub current_spd : UnitInstance → ℕ
current_spd u = or_default u.effective_spd (spd_for u.unit_id)

-- The optional fields get their defaults; `alive` is always given.
abbrev pub clone_unit : UnitInstance → UnitInstance
clone_unit u = record u {
  effective_spd = some (current_spd u);
  revived_this_round = some (or_default u.revived_this_round false);
}

abbrev pub attach_snapshot : BattleSim → CombatEvent → BoardEvent
attach_snapshot sim e = record { event = e; unit_states = snapshot_all_units sim }

-- Units of the side that won the draw come first.
abbrev side_order : Side → UnitInstance → UnitInstance → Ordering
side_order init_side a b =
    if same_side a.side b.side
    then Ordering.eq
    else if same_side a.side init_side
    then Ordering.lt
    else if same_side b.side init_side
    then Ordering.gt
    else Ordering.eq

abbrev pub has_living : List UnitInstance → Bool
has_living = any (λ u. u.alive)

abbrev pub winner_of : Bool → Bool → Option Side
winner_of p1_alive p2_alive =
    if not p1_alive && not p2_alive then none else if not p1_alive then some p2 else some p1

-- The events of a cycle, and those of the battle's end if one side is wiped out.
unfoldable pub finish_cycle : ℕ → BattleSim → List BoardEvent
finish_cycle cycle sim =
    attach_snapshot sim (cycle_end cycle)
    ∷ attach_snapshot sim
        (battle_end cycle (winner_of (has_living sim.p1_units) (has_living sim.p2_units)))
    ∷ []

abbrev pub both_alive : BattleSim → Bool
both_alive sim = has_living sim.p1_units && has_living sim.p2_units

-- `rng() < 0.5` on the draw over 2 ^ 32.
abbrev pub first_draw : BattleState → ℕ
first_draw state = elim state.rng [ none ↦ (next (make_rng state.round_seed)).1 | some d ↦ d ]

abbrev pub init_side_of : ℕ → Side
init_side_of draw = if ltb (draw * 2) word then p1 else p2

abbrev pub clone_state : BattleState → BattleSim
clone_state state = record {
  p1_units = map clone_unit state.p1_units;
  p2_units = map clone_unit state.p2_units;
}

-- The cases of the `switch` in `unitAct`, with the target that was picked.
unfoldable pub fighter_act : Ref → UnitInstance → ℕ → ℕ → Option Handle → Action
fighter_act r u cycle tick none = skip
fighter_act r u cycle tick (some target) =
    let dmg = atk_for fighter u.star in
    apply_damage target.ref dmg r cycle tick
    >> (if ltb 0 dmg && leb 1 u.star then apply_lifesteal r dmg cycle tick else skip)

unfoldable pub tank_act : Ref → UnitInstance → ℕ → ℕ → Option Handle → Action
tank_act r u cycle tick none = skip
tank_act r u cycle tick (some target) = apply_damage target.ref (atk_for tank u.star) r cycle tick

unfoldable pub ranger_act : Ref → UnitInstance → ℕ → ℕ → Option Handle → Action
ranger_act r u cycle tick none = skip
ranger_act r u cycle tick (some target) =
    let dmg = atk_for ranger u.star in
    apply_damage target.ref dmg r cycle tick
    >> (if u.star == 1 then apply_pierce r target.ref dmg cycle tick else skip)

module _ (locale_compare : String → String → Ordering) where
  unfoldable pub tick_order : Side → Handle → Handle → Ordering
  tick_order init_side x y =
      let a = x.unit in
      let b = y.unit in
      then_by (side_order init_side a b) (
        then_by (compare (current_spd b) (current_spd a)) (
          then_by (compare (a.slot / 3) (b.slot / 3)) (
            then_by (compare (a.slot % 3) (b.slot % 3))
              (locale_compare a.instance_id b.instance_id))))

  unfoldable pub order_for_tick : Side → List Handle → List Handle
  unfolding tick_order
  order_for_tick init_side = sort_by (tick_order init_side)

  unfoldable pub healer_act : Ref → UnitInstance → ℕ → ℕ → Option Handle → Action
  healer_act r u cycle tick none = apply_healer_support locale_compare r cycle tick
  healer_act r u cycle tick (some target) =
      clear_healer_slows r
      >> apply_damage target.ref (atk_for healer u.star) r cycle tick
      >> apply_healer_support locale_compare r cycle tick
      >> (if leb 1 u.star then apply_slow r target.ref cycle tick else skip)

  unfoldable pub act_as : UnitId → Ref → UnitInstance → ℕ → ℕ → Option Handle → Action
  act_as fighter = fighter_act
  act_as tank = tank_act
  act_as ranger = ranger_act
  act_as healer = healer_act

  unfoldable pub unit_act : Ref → ℕ → ℕ → Action
  unit_act r cycle tick =
      with_unit r λ u. reads (pick_target locale_compare u) (act_as u.unit_id r u cycle tick)

  -- One round of the inner `for`: a unit that was killed earlier in the tick is passed over.
  unfoldable pub take_turn : Ref → ℕ → ℕ → BattleSim → BattleSim × List BoardEvent
  take_turn r cycle tick sim = elim (get sim r) [
    | none ↦ (sim, [])
    | some u ↦
        let (after, events) = unit_act r cycle tick sim in
        if u.alive then (after, map (attach_snapshot after) events) else (sim, [])
  ]

  unfoldable pub take_turns : List Handle → ℕ → ℕ → BattleSim → BattleSim × List BoardEvent
  take_turns [] cycle tick sim = (sim, [])
  take_turns (h ∷ hs) cycle tick sim =
      let (s, es) = take_turn h.ref cycle tick sim in
      let (t, fs) = take_turns hs cycle tick s in (t, es ++ fs)

  unfoldable pub acting : Side → ℕ → BattleSim → List Handle
  unfolding order_for_tick
  acting init_side tick sim = order_for_tick init_side (
      filter (λ h. h.unit.alive && acts_on_tick (current_spd h.unit) tick)
        (handles sim p1 ++ handles sim p2))

  unfoldable pub run_tick : Side → ℕ → ℕ → BattleSim → BattleSim × List BoardEvent
  unfolding take_turns acting
  run_tick init_side cycle tick sim = take_turns (acting init_side tick sim) cycle tick sim

  -- `left` more ticks, the next of which is `tick`.
  unfoldable pub run_ticks : ℕ → Side → ℕ → ℕ → BattleSim → BattleSim × List BoardEvent
  run_ticks zero init_side cycle tick sim = (sim, [])
  run_ticks (suc left) init_side cycle tick sim =
      let (s, es) = run_tick init_side cycle tick sim in
      let (t, fs) = run_ticks left init_side cycle (suc tick) s in (t, es ++ fs)

  -- `left` more cycles, the next of which is `cycle`.
  unfoldable pub run_cycles : ℕ → Side → ℕ → BattleSim → BattleSim × List BoardEvent
  unfolding finish_cycle
  run_cycles zero init_side cycle sim = (sim, attach_snapshot sim (battle_end max_cycles none) ∷ [])
  run_cycles (suc left) init_side cycle sim =
      let (s, es) = run_ticks ticks_per_cycle init_side cycle 1 sim in
      let rest = run_cycles left init_side (suc cycle) s in
      let goes_on : BattleSim × List BoardEvent =
        (rest.0, es ++ (attach_snapshot s (cycle_end cycle) ∷ rest.1)) in
      if both_alive s then goes_on else (s, es ++ finish_cycle cycle s)

  unfoldable pub run_battle : BattleState → List BoardEvent
  unfolding run_cycles
  run_battle state =
      (run_cycles max_cycles (init_side_of (first_draw state)) 1 (clone_state state)).1
