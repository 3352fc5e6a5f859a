-- ===== src/Game/Change.antt =====
-- What may happen to one unit in a battle, and each effect of damage.ts and abilities.ts as such
-- a change.
use mobile_final_project.Base.{
  ℕ, ◌+◌, ◌-◌, ◌≤◌, String, ◌≡◌, refl, ◌∙◌, true, false, arith, ltb, Bool-cases, inl, inr,
}
use mobile_final_project.Game.Types.{UnitInstance, UnitId, fighter, healer, ranger, tank, actor}
use mobile_final_project.Game.Constants.{spd_for, slowed_spd}
use mobile_final_project.Game.Damage.{has_revived, revives, hit}
use mobile_final_project.Game.Abilities.{pierced, slowed, unslowed, slowed_by}
use mobile_final_project.Game.Engine.{current_spd, clone_unit}

-- A unit in good order: HP within its maximum, alive exactly while it has HP, a maximum that a
-- revive does not halve to nothing, and never faster than its base SPD.
pub record IsSound (u : UnitInstance) : Type 0 where
  pub hp_fits : u.hp ≤ u.max_hp
  pub alive_by_hp : u.alive ≡ ltb 0 u.hp
  pub can_revive : 2 ≤ u.max_hp
  pub spd_capped : current_spd u ≤ spd_for u.unit_id

pub record Change (u v : UnitInstance) : Type 0 where
  pub same_actor : actor u ≡ actor v
  pub same_max : u.max_hp ≡ v.max_hp
  pub dead_stays : u.alive ≡ false → (v.alive ≡ false) × (v.hp ≡ u.hp)
  pub revived_stays : has_revived u ≡ true → has_revived v ≡ true
  pub keeps_sound : IsSound u → IsSound v

pub Change-refl : (u : UnitInstance) → Change u u
Change-refl u = record {
  same_actor = refl;
  same_max = refl;
  dead_stays = λ h. (h, refl);
  revived_stays = λ h. h;
  keeps_sound = λ h. h;
}

pub Change-trans : (u v w : UnitInstance) → Change u v → Change v w → Change u w
Change-trans u v w c d = record {
  same_actor = c.same_actor ∙ d.same_actor;
  same_max = c.same_max ∙ d.same_max;
  dead_stays = λ h. let (a, e) = c.dead_stays h in let (b, f) = d.dead_stays a in (b, f ∙ e);
  revived_stays = λ h. d.revived_stays (c.revived_stays h);
  keeps_sound = λ h. d.keeps_sound (c.keeps_sound h);
}

slowed-le : (k : UnitId) → slowed_spd k ≤ spd_for k
slowed-le fighter = omega arith
slowed-le healer = omega arith
slowed-le ranger = omega arith
slowed-le tank = omega arith

-- A hit on a living unit.
pub hit-Change : (t : UnitInstance) (dmg : ℕ) → t.alive ≡ true → Change t (hit t dmg)
unfolding hit
hit-Change t dmg h = elim (Bool-cases (revives t dmg)) [
  | inl e ↦
      rw (e, hit)
        (record {
          same_actor = refl;
          same_max = refl;
          dead_stays = ground arith;
          revived_stays = λ _. refl;
          keeps_sound = ground arith;
        })
  | inr e ↦ ground arith
]

pub pierced-Change : (b : UnitInstance) (dmg : ℕ) → b.alive ≡ true → Change b (pierced b dmg)
unfolding pierced
pierced-Change b dmg h = ground arith

-- More HP for a living unit, up to its maximum.
pub mend-Change :
    (u : UnitInstance) (amount : ℕ)
    → u.alive ≡ true
    → amount ≤ u.max_hp - u.hp
    → Change u (record u { hp = u.hp + amount })
mend-Change u amount h fits = ground arith

pub slowed-Change : (t : UnitInstance) (by : String) → Change t (slowed t by)
slowed-Change t by = record {
  same_actor = refl;
  same_max = refl;
  dead_stays = λ h. (h, refl);
  revived_stays = λ h. h;
  keeps_sound = λ s. record {
    hp_fits = s.hp_fits;
    alive_by_hp = s.alive_by_hp;
    can_revive = s.can_revive;
    spd_capped = slowed-le t.unit_id;
  };
}

pub unslowed-Change : (id : String) (u : UnitInstance) → Change u (unslowed id u)
unslowed-Change id u = elim (Bool-cases (slowed_by u id)) [
  | inl e ↦
      rw (e, unslowed)
        (record {
          same_actor = refl;
          same_max = refl;
          dead_stays = λ h. (h, refl);
          revived_stays = λ h. h;
          keeps_sound = λ s. record {
            hp_fits = s.hp_fits;
            alive_by_hp = s.alive_by_hp;
            can_revive = s.can_revive;
            spd_capped = omega arith;
          };
        })
  | inr e ↦ rw (e, unslowed) (Change-refl u)
]

pub clone_unit-Change : (u : UnitInstance) → Change u (clone_unit u)
clone_unit-Change u = ground arith
