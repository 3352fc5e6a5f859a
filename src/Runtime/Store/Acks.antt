-- ===== src/Runtime/Store/Acks.antt =====
-- combat_done.lua: an acknowledgement counts once.
use mobile_final_project.Base.{
  ℕ, suc, ◌≡◌, refl, sym, ap, ◌∙◌, String, Bool, true, false, ◌∷◌, length, Bool-cases, inl, inr,
  if◌then◌else◌,
}
use mobile_final_project.Runtime.Store.{MatchStore, has_id, combat_done}
use mobile_final_project.Runtime.Store.Keys.{str_eq_refl}

acks-again :
    (player : String) (s : MatchStore)
    → has_id player s.acks ≡ true
    → combat_done player s ≡ (length s.acks, s)
unfolding combat_done
acks-again player s h =
    ap
      (λ (b : Bool).
        if b
        then (length s.acks, s)
        else (suc (length s.acks), record s { acks = player ∷ s.acks }))
      h

acks-new :
    (player : String) (s : MatchStore)
    → has_id player s.acks ≡ false
    → combat_done player s ≡ (suc (length s.acks), record s { acks = player ∷ s.acks })
unfolding combat_done
acks-new player s h =
    ap
      (λ (b : Bool).
        if b
        then (length s.acks, s)
        else (suc (length s.acks), record s { acks = player ∷ s.acks }))
      h

-- A second acknowledgement by a player counts no further player and changes nothing.
pub combat_done_idempotent :
    (player : String) (s : MatchStore)
    → combat_done player (combat_done player s).1 ≡ combat_done player s
combat_done_idempotent player s = elim (Bool-cases (has_id player s.acks)) [
  | inl h ↦ ap (λ (x : ℕ × MatchStore). combat_done player x.1) (acks-again player s h)
  | inr h ↦
      let e = acks-new player s h in
      ap (λ (x : ℕ × MatchStore). combat_done player x.1) e
      ∙ acks-again player (record s { acks = player ∷ s.acks }) (rw (str_eq_refl player) refl)
      ∙ sym e
]
