-- ===== src/Shop/Mutations/Copies.antt =====
-- `fuse` on both of its paths, with dragged ids and without: what it fuses, and what comes of it.
use mobile_final_project.Base.{
  ◌≡◌, ◌<◌, sym, ap, ◌∙◌, String, Bool, true, false, not, ◌&&◌, ◌||◌, Option, none, some, List, [],
  ◌∷◌, ==_iff, ◌==◌, any, All, All-find, All-filter, All-filter_test, All-sort_by, All-both, find,
  filter, subst, find-some, Bool-cases, arith, inl, inr, some_eq, str_eq, eq_iff,
}
use mobile_final_project.Game.Types.{UnitId, same_unit}
use mobile_final_project.Runtime.State.{RuntimeUnitState, RuntimePlayerState}
use mobile_final_project.Runtime.Effects.{ErrorCode, unit_not_found, cannot_fuse, ok}
use mobile_final_project.Runtime.Effects.Success.{or_fail-ok, guard-ok, err_ne_ok}
use mobile_final_project.Shop.Roster.{Source, source_code, slot_at, RosterEntry, roster_entries}
use mobile_final_project.Shop.Roster.Worth.{IsEntry, roster-IsEntry}
use mobile_final_project.Shop.Mutations.{
  ActionContext, fuse, fuse_into, fuse_dragged, fuse_any, is_unit, can_fuse, is_candidate, by_star,
  same_star, same_entry, first_pair, is_partner, candidates,
}
use mobile_final_project.Shop.Mutations.Fusion.{
  AreApart, AreCopies, IsFused, AreApart-sym, fuse_into-IsFused,
}

same_unit→eq : (a b : UnitId) → same_unit a b ≡ true → a ≡ b
same_unit→eq a b h = ground arith

false_ne_true : false ≡ true → ⊥
false_ne_true h = cc

pub and_parts : (a b : Bool) → (a && b) ≡ true → (a ≡ true) × (b ≡ true)
and_parts a b h = (ground arith, ground arith)

and_true : {a b : Bool} → a ≡ true → b ≡ true → (a && b) ≡ true
and_true h k = cc

same_source_refl : (a : Source) → (source_code a == source_code a) ≡ true
same_source_refl a = ground arith

pub source_code-injective : (a b : Source) → (source_code a == source_code b) ≡ true → a ≡ b
source_code-injective a b h = ground arith

-- Entries that `===` tells apart are of different slots.
pub same_entry-apart : (a b : RosterEntry) → same_entry a b ≡ false → AreApart a b
same_entry-apart a b h = elim (Bool-cases (source_code a.source == source_code b.source)) [
  | inl e ↦ inr (λ s. false_ne_true (sym h ∙ and_true e ((==_iff a.slot b.slot).1 s)))
  | inr e ↦ inl (λ s. false_ne_true (
      sym e
      ∙ ap (λ (x : Source). source_code a.source == source_code x) (sym s)
      ∙ same_source_refl a.source))
]

same_entry-unit :
    (st : RuntimePlayerState) (a b : RosterEntry)
    → IsEntry st a
    → IsEntry st b
    → same_entry a b ≡ true
    → a.unit ≡ b.unit
same_entry-unit st a b t s h =
    let (p, q) = and_parts _ _ h in
    some_eq (
      some_eq (
        sym t
        ∙ ap (λ (x : Source). slot_at st x a.slot) (source_code-injective _ _ p)
        ∙ ap (slot_at st b.source) ((==_iff a.slot b.slot).0 q)
        ∙ s))

entries_of_ids-apart :
    (st : RuntimePlayerState) (target second : RosterEntry) (source_id target_id : String)
    → IsEntry st target
    → IsEntry st second
    → is_unit target_id target ≡ true
    → is_unit source_id second ≡ true
    → str_eq source_id target_id ≡ false
    → AreApart target second
entries_of_ids-apart st target second source_id target_id t s i j h =
    elim (Bool-cases (same_entry target second)) [
      | inr e ↦ same_entry-apart target second e
      | inl e ↦ absurd (
          false_ne_true (
            sym h
            ∙ (eq_iff source_id target_id).1 (
                sym ((eq_iff second.unit.instance_id source_id).0 j)
                ∙ sym (
                    ap (λ (u : RuntimeUnitState). u.instance_id)
                      (same_entry-unit st target second t s e))
                ∙ (eq_iff target.unit.instance_id target_id).0 i)))
    ]

can_fuse-parts :
    (unit_id : UnitId) (second target : RosterEntry)
    → can_fuse unit_id second target ≡ true
    → (target.unit.unit_id ≡ unit_id)
      × (second.unit.unit_id ≡ unit_id)
      × (second.unit.star ≡ target.unit.star)
      × (target.unit.star < 2)
can_fuse-parts unit_id second target h =
    (same_unit→eq _ _ (ground arith), same_unit→eq _ _ (ground arith), ground arith, ground arith)

-- The entries that a successful fusion is about, and what it does with them.
abbrev pub Fused : UnitId → ActionContext → ActionContext → Type 0
Fused unit_id c c' =
    (target : RosterEntry) × (second : RosterEntry) × AreCopies unit_id c.state target second
    × IsFused c.state c'.state target second

fused :
    (unit_id : UnitId) (target second : RosterEntry) (c c' : ActionContext) (emit : Bool)
    → AreCopies unit_id c.state target second
    → fuse_into target second c ≡ ok (c', emit)
    → Fused unit_id c c'
fused unit_id target second c c' emit a h =
    (target, second, a, fuse_into-IsFused target second c c' emit a.0 a.1 a.2 h)

not-true : (b : Bool) → not b ≡ true → b ≡ false
not-true b h = ground arith

copies_of_ids :
    (st : RuntimePlayerState) (unit_id : UnitId) (target second : RosterEntry)
    (source_id target_id : String)
    → find (is_unit source_id) (roster_entries st) ≡ some second
    → find (is_unit target_id) (roster_entries st) ≡ some target
    → not (str_eq source_id target_id) ≡ true
    → can_fuse unit_id second target ≡ true
    → AreCopies unit_id st target second
copies_of_ids st unit_id target second source_id target_id s t d g =
    let is_t = All-find (IsEntry st) (is_unit target_id) _ (roster-IsEntry st) t in
    let is_s = All-find (IsEntry st) (is_unit source_id) _ (roster-IsEntry st) s in
    let (kt, ks, star, two) = can_fuse-parts unit_id second target g in
    (
      is_t,
      is_s,
      entries_of_ids-apart st target second source_id target_id is_t is_s
          (find-some (is_unit target_id) _ target t) (find-some (is_unit source_id) _ second s)
          (not-true _ d),
      kt,
      ks,
      star,
      two,
    )

fuse_dragged-Fused :
    (unit_id : UnitId) (source_id target_id : String) (c c' : ActionContext) (emit : Bool)
    → fuse_dragged unit_id source_id target_id c ≡ ok (c', emit)
    → Fused unit_id c c'
unfolding fuse_dragged
fuse_dragged-Fused unit_id source_id target_id c c' emit h =
    let (d, h1) = guard-ok (not (str_eq source_id target_id)) cannot_fuse _ h in
    let (second, s, h2) =
      or_fail-ok (find (is_unit source_id) (roster_entries c.state)) unit_not_found _ h1 in
    let (target, t, h3) =
      or_fail-ok (find (is_unit target_id) (roster_entries c.state)) unit_not_found _ h2 in
    let (g, h4) = guard-ok (can_fuse unit_id second target) cannot_fuse _ h3 in
    fused unit_id target second c c' emit
      (copies_of_ids c.state unit_id target second source_id target_id s t d g) h4

first_pair-All :
    (P : RosterEntry → Type 0) (es : List RosterEntry) {e : RosterEntry}
    → All P es
    → first_pair es ≡ some e
    → P e
first_pair-All P [] a h = cc
first_pair-All P (x ∷ es) {e} a h = elim (Bool-cases (any (same_star x) es)) [
  | inl t ↦ subst P (some_eq (rw t at h)) a.0
  | inr t ↦ first_pair-All P es a.1 (rw t at h)
]

IsCandidate : UnitId → RuntimePlayerState → RosterEntry → Type 0
IsCandidate unit_id st e = IsEntry st e × (is_candidate unit_id e ≡ true)

candidates-All :
    (unit_id : UnitId) (st : RuntimePlayerState)
    → All (IsCandidate unit_id st) (candidates unit_id st)
unfolding candidates IsCandidate
candidates-All unit_id st =
    let entries = filter (is_candidate unit_id) (roster_entries st) in
    All-sort_by (IsCandidate unit_id st) by_star entries (
      All-both (IsEntry st) (λ e. is_candidate unit_id e ≡ true) entries
        (All-filter (IsEntry st) (is_candidate unit_id) (roster_entries st) (roster-IsEntry st))
        (All-filter_test (is_candidate unit_id) (roster_entries st)))

candidate-parts :
    (unit_id : UnitId) (e : RosterEntry)
    → is_candidate unit_id e ≡ true
    → (e.unit.unit_id ≡ unit_id) × (e.unit.star < 2)
candidate-parts unit_id e h = (same_unit→eq _ _ (ground arith), ground arith)

copies_of_candidates :
    (st : RuntimePlayerState) (unit_id : UnitId) (pair second : RosterEntry)
    → first_pair (candidates unit_id st) ≡ some pair
    → find (is_partner pair) (candidates unit_id st) ≡ some second
    → AreCopies unit_id st pair second
unfolding IsCandidate
copies_of_candidates st unit_id pair second p s =
    let (is_p, cp) = first_pair-All (IsCandidate unit_id st) _ (candidates-All unit_id st) p in
    let (is_s, cs) =
      All-find (IsCandidate unit_id st) (is_partner pair) _ (candidates-All unit_id st) s in
    let (apart, star) = and_parts _ _ (find-some (is_partner pair) _ second s) in
    let (kp, two) = candidate-parts unit_id pair cp in
    (
      is_p,
      is_s,
      AreApart-sym second pair (same_entry-apart second pair (not-true _ apart)),
      kp,
      (candidate-parts unit_id second cs).0,
      (==_iff second.unit.star pair.unit.star).0 star,
      two,
    )

fuse_any-Fused :
    (unit_id : UnitId) (c c' : ActionContext) (emit : Bool)
    → fuse_any unit_id c ≡ ok (c', emit)
    → Fused unit_id c c'
unfolding fuse_any
fuse_any-Fused unit_id c c' emit h =
    let (pair, p, h1) = or_fail-ok (first_pair (candidates unit_id c.state)) cannot_fuse _ h in
    let (second, s, h2) =
      or_fail-ok (find (is_partner pair) (candidates unit_id c.state)) ErrorCode.internal_error _
        h1 in
    fused unit_id pair second c c' emit (copies_of_candidates c.state unit_id pair second p s) h2

-- A `fuse` that succeeds, with or without dragged ids, joins two units of the player's roster that
-- stand in different slots and have the archetype asked for and one same star below 2. In the slot
-- of the first stands the same unit one star up, its HP at its maximum, with the gold of both; the
-- second's slot is free, no other slot changes, and neither does the worth of the player.
pub fuse-Fused :
    (unit_id : UnitId) (source_id target_id : Option String) (c c' : ActionContext) (emit : Bool)
    → fuse unit_id source_id target_id c ≡ ok (c', emit)
    → Fused unit_id c c'
unfolding fuse
fuse-Fused unit_id none none c c' emit h = fuse_any-Fused unit_id c c' emit h
fuse-Fused unit_id none (some t) c c' emit h = absurd (err_ne_ok h)
fuse-Fused unit_id (some s) none c c' emit h = absurd (err_ne_ok h)
fuse-Fused unit_id (some s) (some t) c c' emit h = elim (Bool-cases (str_eq s "" || str_eq t "")) [
  | inl e ↦ fuse_any-Fused unit_id c c' emit (rw e at h)
  | inr e ↦ fuse_dragged-Fused unit_id s t c c' emit (rw e at h)
]
