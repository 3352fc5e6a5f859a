-- ===== src/Match/Once.antt =====
-- A match ends once.
use mobile_final_project.Base.{
  ℕ, ◌+◌, String, ◌≡◌, ◌⊎◌, refl, sym, ap, ◌∙◌, subst, Bool, true, false, Option, none, some, [],
  ◌∷◌, not, if◌then◌else◌, str_eq, Table, assign, assign_self, inl, inr, Bool-cases, is_some,
}
use mobile_final_project.Match.{
  is_in_progress, MatchEndReason, by_hp_zero, by_forfeit, by_disconnect, Match, User, Database,
  Delta, Ratio, MatchRatingChanges, MatchReply, answered, refused, MatchError,
  schedule_match_cleanup, cleanup_grace_ms, truthy, is_winner_of, status_for, closed_match, Closing,
  was_over, closed_as, after_closing, close_won, close_with, close_found, close_match, finalize,
}

pub not_in_progress : (r : MatchEndReason) → is_in_progress (status_for r) ≡ false
not_in_progress by_hp_zero = refl
not_in_progress by_forfeit = refl
not_in_progress by_disconnect = refl

-- The transaction threw, or the match was over, or it is closed in its row.
abbrev pub Closes :
    Option Match
    → Option String
    → MatchEndReason
    → ℕ
    → Database
    → MatchReply Closing × Database
    → Type 0
Closes row winner_id reason now db p =
    ((p.1 ≡ db) × ((e : MatchError) × (p.0 ≡ refused e)))
    ⊎ (((p.1 ≡ db) × ((over : Bool) × (p.0 ≡ answered (was_over over))))
        ⊎ ((m : Match) × (changes : Option MatchRatingChanges) × (row ≡ some m)
            × (is_in_progress m.status ≡ true)
            × (p.0 ≡ answered (closed_as (closed_match m winner_id reason now) changes))
            × (p.1.matches ≡ assign m.id (some (closed_match m winner_id reason now)) db.matches)))

module _ (ten_to : Delta → Ratio) (winner_id : Option String) (reason : MatchEndReason) (now : ℕ)
    (db : Database) where
  won-Closes :
      (m : Match) (winner : String) (p1 p2 : Option User)
      → is_in_progress m.status ≡ true
      → Closes
          (some m)
          winner_id
          reason
          now
          db
          (close_won ten_to m winner winner_id reason now p1 p2 db)
  won-Closes m winner none p2 h = inl (refl, (_, refl))
  won-Closes m winner (some p1) none h = inl (refl, (_, refl))
  won-Closes m winner (some p1) (some p2) h = elim (Bool-cases (str_eq m.player1_id m.player2_id)) [
    | inl t ↦ rw t (inl (refl, (_, refl)))
    | inr t ↦ rw t (inr (inr (m, _, refl, h, refl, refl)))
  ]

  with-Closes :
      (m : Match) (winner : Option String)
      → is_in_progress m.status ≡ true
      → Closes (some m) winner_id reason now db (close_with ten_to m winner winner_id reason now db)
  with-Closes m none h = inr (inr (m, none, refl, h, refl, refl))
  with-Closes m (some winner) h = elim (Bool-cases (is_winner_of m winner)) [
    | inr t ↦ rw t (inl (refl, (_, refl)))
    | inl t ↦ rw t (won-Closes m winner (db.users m.player1_id) (db.users m.player2_id) h)
  ]

  found-Closes :
      (row : Option Match)
      → Closes row winner_id reason now db (close_found ten_to row winner_id reason now db)
  found-Closes none = inl (refl, (_, refl))
  found-Closes (some m) = elim (Bool-cases (is_in_progress m.status)) [
    | inr t ↦ rw t (inr (inl (refl, (_, refl))))
    | inl t ↦
        subst
          (λ (b : Bool). Closes (some m) winner_id reason now db (
            if not b
            then (answered (was_over (is_some m.finished_at)), db)
            else close_with ten_to m (truthy winner_id) winner_id reason now db))
          (sym t) (with-Closes m (truthy winner_id) t)
  ]

  close_match-Closes :
      (match_id : String)
      → Closes
          (db.matches match_id)
          winner_id
          reason
          now
          db
          (close_match ten_to match_id winner_id reason now db)
  unfolding close_match
  close_match-Closes match_id = found-Closes (db.matches match_id)

-- A row that is closed with a finish time stays as it is.
over_again :
    (ten_to : Delta → Ratio) (match_id : String) (m : Match) (w1 w2 : Option String)
    (r1 r2 : MatchEndReason) (n1 n2 : ℕ) (db : Database)
    → db.matches match_id ≡ some (closed_match m w1 r1 n1)
    → finalize ten_to match_id w2 r2 n2 db
      ≡ (answered false, db, schedule_match_cleanup match_id (n2 + cleanup_grace_ms) ∷ [])
unfolding finalize close_match
over_again ten_to match_id m w1 w2 r1 r2 n1 n2 db h = rw h (rw (not_in_progress r1) refl)

refused_answered : {A : Type 0} {e : MatchError} {a : A} → refused e ≡ answered a → ⊥
refused_answered h = cc

answer_eq : {A : Type 0} {a b : A} → answered a ≡ answered b → a ≡ b
answer_eq h = cc

over_closed :
    {b : Bool} {m : Match} {c : Option MatchRatingChanges} → was_over b ≡ closed_as m c → ⊥
over_closed h = cc

differing : false ≡ true → ⊥
differing h = cc

-- What a transaction that has closed a match has written.
abbrev pub Written :
    Option Match → Option String → MatchEndReason → ℕ → Database → Database → Type 0
Written row winner_id reason now db after =
    (m : Match) × (row ≡ some m)
    × (is_in_progress m.status ≡ true)
    × (after.matches ≡ assign m.id (some (closed_match m winner_id reason now)) db.matches)

closing-Written :
    (row : Option Match) (match_id : String) (winner_id : Option String) (reason : MatchEndReason)
    (now : ℕ) (db : Database) (p : MatchReply Closing × Database)
    → Closes row winner_id reason now db p
    → (after_closing match_id reason now p).0 ≡ answered true
    → Written row winner_id reason now db (after_closing match_id reason now p).1
closing-Written row match_id w r n db (refused e, d) c h = absurd (refused_answered h)
closing-Written row match_id w r n db (answered (was_over true), d) c h =
    absurd (differing (answer_eq h))
closing-Written row match_id w r n db (answered (was_over false), d) c h =
    absurd (differing (answer_eq h))
closing-Written row match_id w r n db (answered (closed_as m x), d) (inl (same, (e, k))) h =
    absurd (refused_answered (sym k))
closing-Written row match_id w r n db (answered (closed_as m x), d) (inr (inl (same, (b, k)))) h =
    absurd (over_closed (sym (answer_eq k)))
closing-Written row match_id w r n db (answered (closed_as m x), d)
      (inr (inr (y, changes, there, open_row, k, rows))) h =
    (y, there, open_row, rows)

pub finalize-Written :
    (ten_to : Delta → Ratio) (match_id : String) (winner_id : Option String)
    (reason : MatchEndReason) (now : ℕ) (db : Database)
    → (finalize ten_to match_id winner_id reason now db).0 ≡ answered true
    → Written
        (db.matches match_id)
        winner_id
        reason
        now
        db
        (finalize ten_to match_id winner_id reason now db).1
unfolding finalize
finalize-Written ten_to match_id winner_id reason now db =
    closing-Written (db.matches match_id) match_id winner_id reason now db
      (close_match ten_to match_id winner_id reason now db)
      (close_match-Closes ten_to winner_id reason now db match_id)

-- If each match stands in the row of its id and a call of finalize has answered true for a match,
-- then any further call for it, whatever the winner, the reason and the time, answers false,
-- changes no match and no rating, and sends nothing but the cleanup job anew.
pub finalize_once :
    (ten_to : Delta → Ratio) (match_id : String) (w1 w2 : Option String) (r1 r2 : MatchEndReason)
    (n1 n2 : ℕ) (db : Database)
    → ((id : String) (m : Match) → db.matches id ≡ some m → m.id ≡ id)
    → (finalize ten_to match_id w1 r1 n1 db).0 ≡ answered true
    → finalize ten_to match_id w2 r2 n2 (finalize ten_to match_id w1 r1 n1 db).1 ≡ (
      answered false,
      (finalize ten_to match_id w1 r1 n1 db).1,
      schedule_match_cleanup match_id (n2 + cleanup_grace_ms) ∷ [],
    )
finalize_once ten_to match_id w1 w2 r1 r2 n1 n2 db keyed h =
    let (m, there, playing, rows) = finalize-Written ten_to match_id w1 r1 n1 db h in
    let after = (finalize ten_to match_id w1 r1 n1 db).1 in
    let closed = closed_match m w1 r1 n1 in
    let row : after.matches match_id ≡ some closed =
      ap (λ (t : Table Match). t match_id) rows
      ∙ ap (assign m.id (some closed) db.matches) (sym (keyed match_id m there))
      ∙ assign_self m.id (some closed) db.matches in
    over_again ten_to match_id m w1 w2 r1 r2 n1 n2 after row
