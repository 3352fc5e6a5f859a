-- ===== src/Game/Evolution.antt =====
-- How a battle's two teams change: unit by unit, in place, by the changes of `Game.Change`.
pub mod Effects
pub mod Turns
pub mod Battle
use mobile_final_project.Base.{
  ℕ, ◌≡◌, ◌≢◌, refl, ◌∙◌, inl, inr, Option-cases, arith, Option, none, some, List, All, Pairs,
  Pairs-refl, Pairs-trans, Pairs-set, Pairs-map, All-Pairs, All-get, Pairs-get, get_elem?, sym, ap,
  subst,
}
use mobile_final_project.Game.Types.{Side, p1, p2, UnitInstance, BattleSim, units_of, actor, Actor}
use mobile_final_project.Game.Store.{Ref, get, put, Action, ◌>>◌, emit, skip, write, with_unit}
use mobile_final_project.Game.Change.{IsSound, Change, Change-refl, Change-trans}

-- A team in good order: sound units that carry their own side.
abbrev pub IsTeam : Side → List UnitInstance → Type 0
IsTeam s = All (λ u. IsSound u × (u.side ≡ s))

pub record IsOrderly (sim : BattleSim) : Type 0 where
  pub team1 : IsTeam p1 sim.p1_units
  pub team2 : IsTeam p2 sim.p2_units

pub record Evolves (s t : BattleSim) : Type 0 where
  pub team1 : Pairs Change s.p1_units t.p1_units
  pub team2 : Pairs Change s.p2_units t.p2_units

pub Evolves-refl : (s : BattleSim) → Evolves s s
Evolves-refl s = record {
  team1 = Pairs-refl Change Change-refl s.p1_units;
  team2 = Pairs-refl Change Change-refl s.p2_units;
}

pub Evolves-trans : (s t u : BattleSim) → Evolves s t → Evolves t u → Evolves s u
Evolves-trans s t u e f = record {
  team1 = Pairs-trans Change Change-trans s.p1_units t.p1_units u.p1_units e.team1 f.team1;
  team2 = Pairs-trans Change Change-trans s.p2_units t.p2_units u.p2_units e.team2 f.team2;
}

Change-team :
    (side : Side) (u v : UnitInstance)
    → Change u v
    → IsSound u × (u.side ≡ side)
    → IsSound v × (v.side ≡ side)
Change-team side u v c h = (c.keeps_sound h.0, sym (ap (λ (a : Actor). a.side) c.same_actor) ∙ h.1)

pub Evolves-IsOrderly : (s t : BattleSim) → Evolves s t → IsOrderly s → IsOrderly t
Evolves-IsOrderly s t e h = record {
  team1 = All-Pairs Change _ (Change-team p1) s.p1_units t.p1_units e.team1 h.team1;
  team2 = All-Pairs Change _ (Change-team p2) s.p2_units t.p2_units e.team2 h.team2;
}

pub units_of-Pairs :
    (s t : BattleSim) (side : Side) → Evolves s t → Pairs Change (units_of s side) (units_of t side)
units_of-Pairs s t p1 e = e.team1
units_of-Pairs s t p2 e = e.team2

pub units_of-IsTeam : (s : BattleSim) (side : Side) → IsOrderly s → IsTeam side (units_of s side)
units_of-IsTeam s p1 h = h.team1
units_of-IsTeam s p2 h = h.team2

-- A reference keeps naming the same unit.
pub Evolves-get :
    (s t : BattleSim) (r : Ref) (u : UnitInstance)
    → Evolves s t
    → get s r ≡ some u
    → (v : UnitInstance) × (get t r ≡ some v) × Change u v
unfolding get
Evolves-get s t r u e h =
    Pairs-get Change (units_of s r.side) (units_of t r.side) r.index u (units_of-Pairs s t r.side e)
      h

pub get-IsSound :
    (s : BattleSim) (r : Ref) (u : UnitInstance)
    → IsOrderly s
    → get s r ≡ some u
    → IsSound u × (u.side ≡ r.side)
unfolding get
get-IsSound s r u h e = All-get _ (units_of s r.side) r.index (units_of-IsTeam s r.side h) e

-- A write of a changed unit.
put-Evolves' :
    (s : BattleSim) (side : Side) (i : ℕ) (u v : UnitInstance)
    → get s (record { side = side; index = i }) ≡ some u
    → Change u v
    → Evolves s (put s (record { side = side; index = i }) v)
unfolding get put
put-Evolves' s p1 i u v e c = record {
  team1 = Pairs-set Change Change-refl s.p1_units i u v e c;
  team2 = Pairs-refl Change Change-refl s.p2_units;
}
put-Evolves' s p2 i u v e c = record {
  team1 = Pairs-refl Change Change-refl s.p1_units;
  team2 = Pairs-set Change Change-refl s.p2_units i u v e c;
}

pub put-Evolves :
    (s : BattleSim) (r : Ref) (u v : UnitInstance)
    → get s r ≡ some u
    → Change u v
    → Evolves s (put s r v)
put-Evolves s r u v e c = put-Evolves' s r.side r.index u v e c

-- A write on one side leaves what the other side's references name.
pub get-put_other :
    (s : BattleSim) (r q : Ref) (v : UnitInstance) → r.side ≢ q.side → get (put s r v) q ≡ get s q
unfolding get put
get-put_other s r q v h = ground arith
