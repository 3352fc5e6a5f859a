-- ===== src/Game/Damage.antt =====
-- `applyDamage` of backend/src/game/damage.ts.
use mobile_final_project.Base.{
  ℕ, ◌-◌, Bool, true, false, not, ◌&&◌, none, some, List, [], ◌∷◌, ◌==◌, leb, if◌then◌else◌,
}
use mobile_final_project.Game.Types.{
  UnitInstance, tank, same_unit, actor, CombatEvent, attack, death, revive,
}
use mobile_final_project.Game.Constants.{revive_hp}
use mobile_final_project.Game.Store.{Ref, Action, with_unit, write, emit, ◌>>◌}

-- The truth value of `u.revivedThisRound`, which may be undefined.
abbrev pub has_revived : UnitInstance → Bool
has_revived u = elim u.revived_this_round [ none ↦ false | some b ↦ b ]

abbrev pub revives : UnitInstance → ℕ → Bool
revives t dmg = leb t.hp dmg && same_unit t.unit_id tank && leb 1 t.star && not (has_revived t)

-- What the hit does to its target. `-` stops at 0, where the source clamps.
unfoldable pub hit : UnitInstance → ℕ → UnitInstance
hit t dmg =
    if revives t dmg
    then record t { hp = revive_hp t.max_hp; revived_this_round = some true }
    else if t.hp - dmg == 0
    then record t { hp = 0; alive = false }
    else record t { hp = t.hp - dmg }

unfoldable pub hit_events : UnitInstance → ℕ → UnitInstance → ℕ → ℕ → List CombatEvent
hit_events t dmg s cycle tick =
    if revives t dmg
    then revive cycle tick (actor t) (revive_hp t.max_hp) ∷ []
    else if t.hp - dmg == 0
    then death cycle tick (actor t) ∷ attack cycle tick (actor s) (actor t) dmg 0 ∷ []
    else attack cycle tick (actor s) (actor t) dmg (t.hp - dmg) ∷ []

unfoldable pub apply_damage : Ref → ℕ → Ref → ℕ → ℕ → Action
apply_damage target dmg source cycle tick =
    with_unit target
      λ t. with_unit source λ s. write target (hit t dmg) >> emit (hit_events t dmg s cycle tick)
