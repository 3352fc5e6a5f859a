-- ===== src/Shop/Mutations/Fusion.antt =====
-- What a fusion does: one unit goes up a star, the other leaves its slot.
use mobile_final_project.Base.{
  ℕ, suc, ◌+◌, ◌≡◌, ◌≢◌, ◌<◌, refl, sym, ap, ◌∙◌, Bool, none, some, arith, ◌⊎◌, inl, inr,
}
use mobile_final_project.Game.Types.{UnitId}
use mobile_final_project.Runtime.State.{RuntimeUnitState, RuntimePlayerState}
use mobile_final_project.Runtime.Effects.{ok}
use mobile_final_project.Runtime.Effects.Success.{ok_eq}
use mobile_final_project.Shop.Roster.{Source, set_slot, slot_at, invested_gold, RosterEntry}
use mobile_final_project.Shop.Roster.Worth.{
  worth, worth-set_slot, slot_at-set_ne, slot_at-set_self, IsEntry,
}
use mobile_final_project.Shop.Mutations.{ActionContext, merge_units, fuse_into}

abbrev pub AreApart : RosterEntry → RosterEntry → Type 0
AreApart a b = (a.source ≢ b.source) ⊎ (a.slot ≢ b.slot)

-- What fuses with what.
abbrev pub AreCopies : UnitId → RuntimePlayerState → RosterEntry → RosterEntry → Type 0
AreCopies unit_id st target second =
    IsEntry st target
    × IsEntry st second
    × AreApart target second
    × (target.unit.unit_id ≡ unit_id)
    × (second.unit.unit_id ≡ unit_id)
    × (second.unit.star ≡ target.unit.star)
    × (target.unit.star < 2)

-- The unit of `target` one star up and at full HP, with the gold that went into both.
pub record IsRaised (target second raised : RuntimeUnitState) : Type 0 where
  pub star : raised.star ≡ suc target.star
  pub full_hp : raised.hp ≡ target.max_hp
  pub max_hp : raised.max_hp ≡ target.max_hp
  pub same_id : raised.instance_id ≡ target.instance_id
  pub same_kind : raised.unit_id ≡ target.unit_id
  pub gold : raised.invested_gold ≡ some (invested_gold target + invested_gold second)

-- What becomes of the two slots and of the worth.
abbrev pub IsFused : RuntimePlayerState → RuntimePlayerState → RosterEntry → RosterEntry → Type 0
IsFused st st' target second =
    ((raised : RuntimeUnitState) × IsRaised target.unit second.unit raised
      × (slot_at st' target.source target.slot ≡ some (some raised)))
    × (slot_at st' second.source second.slot ≡ some none)
    × ((src : Source) (i : ℕ)
        → (target.source ≢ src) ⊎ (target.slot ≢ i)
        → (second.source ≢ src) ⊎ (second.slot ≢ i)
        → slot_at st' src i ≡ slot_at st src i)
    × (worth st' ≡ worth st)

pub AreApart-sym : (a b : RosterEntry) → AreApart a b → AreApart b a
AreApart-sym a b (inl h) = inl (λ e. h (sym e))
AreApart-sym a b (inr h) = inr (λ e. h (sym e))

fused_worth :
    (done mid start a b : ℕ) {m : ℕ}
    → mid + a ≡ start + m
    → done + b ≡ mid + 0
    → m ≡ a + b
    → done ≡ start
fused_worth done mid start a b h k e = omega arith

merge_units-IsRaised : (a b : RuntimeUnitState) → IsRaised a b (merge_units a b)
merge_units-IsRaised a b = record {
  star = omega arith;
  full_hp = refl;
  max_hp = refl;
  same_id = refl;
  same_kind = refl;
  gold = refl;
}

merge_units-gold :
    (a b : RuntimeUnitState) → invested_gold (merge_units a b) ≡ invested_gold a + invested_gold b
unfolding invested_gold
merge_units-gold a b = refl

-- A fusion that succeeds between units of two slots does what `IsFused` says.
pub fuse_into-IsFused :
    (target second : RosterEntry) (c c' : ActionContext) (emit : Bool)
    → IsEntry c.state target
    → IsEntry c.state second
    → AreApart target second
    → fuse_into target second c ≡ ok (c', emit)
    → IsFused c.state c'.state target second
unfolding fuse_into
fuse_into-IsFused target second c c' emit t s apart h =
    let up = some (merge_units target.unit second.unit) in
    let merged = set_slot c.state target.source target.slot up in
    let done = set_slot merged second.source second.slot none in
    let still =
      slot_at-set_ne c.state target.source second.source target.slot second.slot up apart ∙ s in
    let e = sym (ap (λ (p : ActionContext × Bool). p.0.state) (ok_eq h)) in
    let w1 = worth-set_slot c.state target.source target.slot up (some target.unit) t in
    let w2 = worth-set_slot merged second.source second.slot none (some second.unit) still in
    (
      (
        merge_units target.unit second.unit,
        merge_units-IsRaised target.unit second.unit,
        ap (λ (st : RuntimePlayerState). slot_at st target.source target.slot) e
            ∙ slot_at-set_ne merged second.source target.source second.slot target.slot none
                (AreApart-sym target second apart)
            ∙ slot_at-set_self c.state target.source target.slot up t,
      ),
      ap (λ (st : RuntimePlayerState). slot_at st second.source second.slot) e
          ∙ slot_at-set_self merged second.source second.slot none still,
      (λ src i a b.
          ap (λ (st : RuntimePlayerState). slot_at st src i) e
          ∙ slot_at-set_ne merged second.source src second.slot i none b
          ∙ slot_at-set_ne c.state target.source src target.slot i up a),
      ap worth e ∙ fused_worth _ _ _ _ _ w1 w2 (merge_units-gold target.unit second.unit),
    )
