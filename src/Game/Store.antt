-- ===== src/Game/Store.antt =====
-- The mutable units of a battle. The source mutates `UnitInstance` objects that its arrays share;
-- here the battle holds the objects and a `Ref` names one of them by its array and index. An
-- action maps the battle to the battle that it leaves and the events that it pushes.
use mobile_final_project.Base.{
  ℕ, suc, Bool, Option, none, some, List, [], ◌∷◌, ◌++◌, get_elem?, set, ◌==◌, ◌&&◌,
}
use mobile_final_project.Game.Types.{
  Side, p1, p2, UnitInstance, BattleSim, units_of, CombatEvent, same_side,
}

pub record Ref : Type 0 where
  pub side : Side
  pub index : ℕ

abbrev pub same_ref : Ref → Ref → Bool
same_ref r s = same_side r.side s.side && r.index == s.index

-- A reference with the fields that its object had when it was read.
pub record Handle : Type 0 where
  pub ref : Ref
  pub unit : UnitInstance

unfoldable pub get : BattleSim → Ref → Option UnitInstance
get sim r = get_elem? (units_of sim r.side) r.index

abbrev set_units : BattleSim → Side → List UnitInstance → BattleSim
set_units sim p1 us = record sim { p1_units = us }
set_units sim p2 us = record sim { p2_units = us }

unfoldable pub put : BattleSim → Ref → UnitInstance → BattleSim
put sim r u = set_units sim r.side (set (units_of sim r.side) r.index u)

abbrev pub handles_from : Side → ℕ → List UnitInstance → List Handle
handles_from s i [] = []
handles_from s i (u ∷ us) =
    record { ref = record { side = s; index = i }; unit = u } ∷ handles_from s (suc i) us

-- The objects of one side's array.
unfoldable pub handles : BattleSim → Side → List Handle
handles sim s = handles_from s 0 (units_of sim s)

abbrev pub Action : Type 0
Action = BattleSim → BattleSim × List CombatEvent

abbrev pub skip : Action
skip sim = (sim, [])

abbrev pub emit : List CombatEvent → Action
emit es sim = (sim, es)

-- Assign the fields of the object at `r`.
abbrev pub write : Ref → UnitInstance → Action
write r u sim = (put sim r u, [])

infixr 5 ◌>>◌
unfoldable pub ◌>>◌ : Action → Action → Action
◌>>◌ m k sim = let (s, es) = m sim in let (t, fs) = k s in (t, es ++ fs)

-- Read the object at `r`. A reference of the program always has one.
unfoldable pub with_unit : Ref → (UnitInstance → Action) → Action
with_unit r k sim = elim (get sim r) [ none ↦ (sim, []) | some u ↦ k u sim ]

unfoldable pub reads {ℓ} : {A : Type ℓ} → (BattleSim → A) → (A → Action) → Action
reads f k sim = k (f sim) sim
