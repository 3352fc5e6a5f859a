-- ===== src/Shop/Roster/Worth.antt =====
-- What a player owns: the gold in hand and the gold in its units.
use mobile_final_project.Base.{
  ℕ, zero, suc, ◌+◌, ◌≡◌, ◌≢◌, refl, ◌∙◌, ap, Option, none, some, [], ◌∷◌, arith, get_elem?, set,
  All, All-append, All-imp, some_eq, ◌⊎◌, inl, inr, get_elem?-set_ne, get_elem?-set_self,
  get_elem?-lt,
}
use mobile_final_project.Runtime.State.{RuntimeUnitState, Slots, RuntimePlayerState}
use mobile_final_project.Shop.Roster.{
  Source, board, bench, slots_of, set_slot, slot_at, RosterEntry, entries_from, roster_entries,
  invested_gold,
}

abbrev pub slot_worth : Option RuntimeUnitState → ℕ
slot_worth none = 0
slot_worth (some u) = invested_gold u

abbrev pub slots_worth : Slots → ℕ
slots_worth [] = 0
slots_worth (s ∷ rest) = slot_worth s + slots_worth rest

abbrev pub worth : RuntimePlayerState → ℕ
worth st = st.gold + slots_worth st.board + slots_worth st.bench

slots_worth-set :
    (xs : Slots) (i : ℕ) (v old : Option RuntimeUnitState)
    → get_elem? xs i ≡ some old
    → slots_worth (set xs i v) + slot_worth old ≡ slots_worth xs + slot_worth v
slots_worth-set [] i v old h = cc
slots_worth-set (x ∷ xs) zero v old h = omega (arith, ap slot_worth (some_eq h))
slots_worth-set (x ∷ xs) (suc i) v old h = omega (arith, slots_worth-set xs i v old h)

-- Writing a slot exchanges the old content's worth for the new one's.
pub worth-set_slot :
    (st : RuntimePlayerState) (src : Source) (i : ℕ) (v old : Option RuntimeUnitState)
    → slot_at st src i ≡ some old
    → worth (set_slot st src i v) + slot_worth old ≡ worth st + slot_worth v
unfolding set_slot slot_at
worth-set_slot st board i v old h = omega (arith, slots_worth-set st.board i v old h)
worth-set_slot st bench i v old h = omega (arith, slots_worth-set st.bench i v old h)

-- A write leaves every other slot.
pub slot_at-set_ne :
    (st : RuntimePlayerState) (src src' : Source) (i j : ℕ) (v : Option RuntimeUnitState)
    → (src ≢ src') ⊎ (i ≢ j)
    → slot_at (set_slot st src i v) src' j ≡ slot_at st src' j
unfolding set_slot slot_at
slot_at-set_ne st board board i j v (inl h) = absurd (h refl)
slot_at-set_ne st board board i j v (inr h) = get_elem?-set_ne st.board v h
slot_at-set_ne st bench bench i j v (inl h) = absurd (h refl)
slot_at-set_ne st bench bench i j v (inr h) = get_elem?-set_ne st.bench v h
slot_at-set_ne st board bench i j v h = refl
slot_at-set_ne st bench board i j v h = refl

pub slot_at-set_self :
    (st : RuntimePlayerState) (src : Source) (i : ℕ) (v : Option RuntimeUnitState)
    {old : Option RuntimeUnitState}
    → slot_at st src i ≡ some old
    → slot_at (set_slot st src i v) src i ≡ some v
unfolding slot_at set_slot
slot_at-set_self st board i v h = get_elem?-set_self st.board i v (get_elem?-lt st.board i h)
slot_at-set_self st bench i v h = get_elem?-set_self st.bench i v (get_elem?-lt st.bench i h)

-- An entry names a unit in its slot.
abbrev pub IsEntry : RuntimePlayerState → RosterEntry → Type 0
IsEntry st e = slot_at st e.source e.slot ≡ some (some e.unit)

entries_from-All :
    (src : Source) (i : ℕ) (xs : Slots) (f : ℕ → Option (Option RuntimeUnitState))
    → ((j : ℕ) → f (i + j) ≡ get_elem? xs j)
    → All (λ e. (e.source ≡ src) × (f e.slot ≡ some (some e.unit))) (entries_from src i xs)
entries_from-All src i [] f h = tt
entries_from-All src i (none ∷ xs) f h =
    entries_from-All src (suc i) xs f (λ j. ap f (omega arith) ∙ h (suc j))
entries_from-All src i (some u ∷ xs) f h = (
  (refl, ap f (omega arith) ∙ h 0),
  entries_from-All src (suc i) xs f (λ j. ap f (omega arith) ∙ h (suc j)),
)

pub entries-IsEntry :
    (st : RuntimePlayerState) (src : Source)
    → All (IsEntry st) (entries_from src 0 (slots_of st src))
unfolding slot_at
entries-IsEntry st src =
    All-imp _ (IsEntry st) (entries_from src 0 (slots_of st src))
      (λ e (a, b). ap (λ (k : Source). get_elem? (slots_of st k) e.slot) a ∙ b)
      (entries_from-All src 0 (slots_of st src) (get_elem? (slots_of st src))
        (λ j. ap (get_elem? (slots_of st src)) (omega arith)))

pub roster-IsEntry : (st : RuntimePlayerState) → All (IsEntry st) (roster_entries st)
unfolding roster_entries
roster-IsEntry st =
    All-append (IsEntry st) (entries_from board 0 st.board) _ (entries-IsEntry st board)
      (entries-IsEntry st bench)
