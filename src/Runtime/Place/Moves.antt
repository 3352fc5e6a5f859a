-- ===== src/Runtime/Place/Moves.antt =====
-- A move takes a unit to the slot asked for, and nothing else.
use mobile_final_project.Base.{
  ℕ, ◌+◌, ◌≡◌, ◌≢◌, refl, sym, ap, ◌∙◌, String, true, Option, none, some, ◌==◌, ==_iff, find,
  find-some, eq_iff, Bool-cases, Option-cases, ◌⊎◌, inl, inr, subst, arith, All-find,
}
use mobile_final_project.Runtime.State.{RuntimeUnitState, RuntimePlayerState}
use mobile_final_project.Runtime.Effects.{slot_out_of_range, unit_not_owned, slot_occupied, ok}
use mobile_final_project.Runtime.Effects.Success.{or_fail-ok, guard-ok, ok_eq}
use mobile_final_project.Runtime.Place.{find_roster_unit, admits, stands_at, move_unit, place_state}
use mobile_final_project.Shop.Roster.{
  Source, board, bench, source_code, set_slot, slot_at, RosterEntry, entries_from,
}
use mobile_final_project.Shop.Roster.Worth.{
  worth, worth-set_slot, slot_at-set_ne, slot_at-set_self, IsEntry, entries-IsEntry,
}
use mobile_final_project.Shop.Mutations.{is_unit}
use mobile_final_project.Shop.Mutations.Copies.{same_entry-apart, and_parts, source_code-injective}

-- The player has at most one unit with this id.
abbrev pub AtMostOnce : String → RuntimePlayerState → Type 0
AtMostOnce id st =
    (a b : RosterEntry)
    → IsEntry st a
    → IsEntry st b
    → a.unit.instance_id ≡ id
    → b.unit.instance_id ≡ id
    → (a.source ≡ b.source) × (a.slot ≡ b.slot)

-- What a move of the unit `e` to a slot comes to.
abbrev pub IsMove : RosterEntry → Source → ℕ → RuntimePlayerState → RuntimePlayerState → Type 0
IsMove e target slot st st' =
    (slot_at st' target slot ≡ some (some e.unit))
    × ((src : Source) (i : ℕ)
        → (e.source ≢ src) ⊎ (e.slot ≢ i)
        → (target ≢ src) ⊎ (slot ≢ i)
        → slot_at st' src i ≡ slot_at st src i)
    × (worth st' ≡ worth st)

found-IsEntry :
    (st : RuntimePlayerState) (id : String) (e : RosterEntry)
    → find_roster_unit st id ≡ some e
    → IsEntry st e × (e.unit.instance_id ≡ id)
unfolding find_roster_unit
found-IsEntry st id e h = elim (Option-cases (find (is_unit id) (entries_from board 0 st.board))) [
  | inl n ↦
      let k : find (is_unit id) (entries_from bench 0 st.bench) ≡ some e = rw n at h in
      (
        All-find (IsEntry st) (is_unit id) _ (entries-IsEntry st bench) k,
        (eq_iff _ id).0 (find-some (is_unit id) _ e k),
      )
  | inr (f, n) ↦
      let k : find (is_unit id) (entries_from board 0 st.board) ≡ some e = n ∙ (rw n at h) in
      (
        All-find (IsEntry st) (is_unit id) _ (entries-IsEntry st board) k,
        (eq_iff _ id).0 (find-some (is_unit id) _ e k),
      )
]

moved_worth : (w0 w1 w2 u : ℕ) → w1 + u ≡ w0 + 0 → w2 + 0 ≡ w1 + u → w2 ≡ w0
moved_worth w0 w1 w2 u h k = omega arith

-- A unit that goes to a free slot elsewhere.
set_slot-IsMove :
    (st : RuntimePlayerState) (e : RosterEntry) (target : Source) (slot : ℕ)
    → IsEntry st e
    → (e.source ≢ target) ⊎ (e.slot ≢ slot)
    → slot_at st target slot ≡ some none
    → IsMove e target slot st
        (set_slot (set_slot st e.source e.slot none) target slot (some e.unit))
set_slot-IsMove st e target slot entry apart free =
    let mid = set_slot st e.source e.slot none in
    let still = slot_at-set_ne st e.source target e.slot slot none apart ∙ free in
    (
      slot_at-set_self mid target slot (some e.unit) still,
      (λ src i a b.
          slot_at-set_ne mid target src slot i (some e.unit) b
          ∙ slot_at-set_ne st e.source src e.slot i none a),
      moved_worth _ _ _ _ (worth-set_slot st e.source e.slot none (some e.unit) entry)
          (worth-set_slot mid target slot (some e.unit) none still),
    )

-- A slot that admits the unit from elsewhere is free.
admits-free :
    (st : RuntimePlayerState) (id : String) (e : RosterEntry) (target : Source) (slot : ℕ)
    (occupied : Option RuntimeUnitState)
    → AtMostOnce id st
    → IsEntry st e
    → e.unit.instance_id ≡ id
    → slot_at st target slot ≡ some occupied
    → admits id occupied ≡ true
    → (e.source ≢ target) ⊎ (e.slot ≢ slot)
    → slot_at st target slot ≡ some none
admits-free st id e target slot none once entry name o g apart = o
admits-free st id e target slot (some u) once entry name o g apart =
    let (p, q) =
      once e (record { source = target; slot = slot; unit = u }) entry o name
        ((eq_iff u.instance_id id).0 g) in
    absurd (elim apart [ inl h ↦ h p | inr h ↦ h q ])

move_unit-IsMove :
    (st : RuntimePlayerState) (id : String) (e : RosterEntry) (target : Source) (slot : ℕ)
    (occupied : Option RuntimeUnitState)
    → AtMostOnce id st
    → IsEntry st e
    → e.unit.instance_id ≡ id
    → slot_at st target slot ≡ some occupied
    → admits id occupied ≡ true
    → IsMove e target slot st (move_unit e target slot st)
unfolding move_unit
move_unit-IsMove st id e target slot occupied once entry name o g =
    let there : RosterEntry = record { source = target; slot = slot; unit = e.unit } in
    elim (Bool-cases (stands_at e target slot)) [
      | inl t ↦
          let (p, q) = and_parts (source_code e.source == source_code target) (e.slot == slot) t in
          rw t (
            ap (λ (x : Source). slot_at st x slot) (sym (source_code-injective e.source target p))
                ∙ ap (slot_at st e.source) (sym ((==_iff e.slot slot).0 q))
                ∙ entry,
            (λ src i a b. refl),
            refl,
          )
      | inr t ↦
          let apart = same_entry-apart e there t in
          rw t (
            set_slot-IsMove st e target slot entry apart
              (admits-free st id e target slot occupied once entry name o g apart))
    ]

-- If the player has at most one unit with the id, then a move that succeeds puts a unit with that
-- id of the player's roster in the slot asked for, leaves every other slot but the one it came
-- from, and leaves the worth of the player as it was.
pub place_state-IsMove :
    (id : String) (target : Source) (slot : ℕ) (st st' : RuntimePlayerState)
    → AtMostOnce id st
    → place_state id target slot st ≡ ok st'
    → (e : RosterEntry) × IsEntry st e × (e.unit.instance_id ≡ id) × IsMove e target slot st st'
unfolding place_state
place_state-IsMove id target slot st st' once h =
    let (occupied, o, h1) = or_fail-ok (slot_at st target slot) slot_out_of_range _ h in
    let (e, f, h2) = or_fail-ok (find_roster_unit st id) unit_not_owned _ h1 in
    let (g, h3) = guard-ok (admits id occupied) slot_occupied _ h2 in
    let (entry, name) = found-IsEntry st id e f in
    (
      e,
      entry,
      name,
      subst (IsMove e target slot st) (ok_eq h3)
          (move_unit-IsMove st id e target slot occupied once entry name o g),
    )
