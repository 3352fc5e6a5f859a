-- ===== src/Match/Tests.antt =====
-- The theorems on the end of a match at a match of two players.
use mobile_final_project.Base.{
  ◌+◌, ◌<◌, ◌==◌, if◌then◌else◌, String, ◌≡◌, ◌≢◌, refl, sym, subst, true, false, none, some, [],
  ◌∷◌, no_entries, inl, inr, text_ne, arith, assign_self, assign_ne, text_cases, some_eq,
}
use mobile_final_project.Base.Dict.{assign}
use mobile_final_project.Match.{
  Match, User, Database, Delta, Ratio, elo_delta, up, down, in_progress, by_hp_zero, by_disconnect,
  finalize, close_match, answered, schedule_match_cleanup,
}
use mobile_final_project.Match.Once.{finalize_once}
use mobile_final_project.Match.Ratings.{HasRated, finalize-HasRated}

-- 10 to the power of d / 400 where d is -400, 0 or 400, and else 1.
abbrev tens : Delta → Ratio
tens (up n) = record { above = if n == 400 then 10 else 1; below = 1 }
tens (down n) = record { above = 1; below = if n == 400 then 10 else 1 }

tens_positive : (d : Delta) → 0 < (tens d).above + (tens d).below
tens_positive (up n) = omega arith
tens_positive (down n) = omega arith

-- A win of the favourite by 400 points is worth 3, and its defeat 29; a draw of lots 16.
elo_deltas :
    (elo_delta tens 1400 1000 true ≡ up 3)
    × (elo_delta tens 1400 1000 false ≡ down 29)
    × (elo_delta tens 1000 1000 true ≡ up 16)
    × (elo_delta tens 1000 1000 false ≡ down 16)
unfolding elo_delta
elo_deltas = (refl, refl, refl, refl)

abbrev ada : User
ada = record { id = "ada"; username = "Ada"; rating = 405 }

abbrev bob : User
bob = record { id = "bob"; username = "Bob"; rating = 5 }

abbrev duel : Match
duel = record {
  id = "m1";
  player1_id = "ada";
  player2_id = "bob";
  winner_id = none;
  status = in_progress;
  created_at = 0;
  finished_at = none;
  p1_state = record { hp = 40; gold = 5 };
  p2_state = record { hp = 0; gold = 2 };
}

abbrev db : Database
db = record {
  matches = assign "m1" (some duel) no_entries;
  users = assign "ada" (some ada) (assign "bob" (some bob) no_entries);
}

db_keyed : (id : String) (m : Match) → db.matches id ≡ some m → m.id ≡ id
unfolding assign
db_keyed id m h = elim (text_cases id "m1") [
  | inl (e, t) ↦
      subst (λ (x : String). m.id ≡ x) (sym e)
        (found (subst (λ (x : String). db.matches x ≡ some m) e h))
  | inr (n, t) ↦ absurd (empty (assign_ne "m1" id (some duel) no_entries n) h)
]
  where
    found : db.matches "m1" ≡ some m → m.id ≡ "m1"
    found k = subst (λ (x : Match). x.id ≡ "m1") (some_eq k) refl

    empty : db.matches id ≡ none → db.matches id ≡ some m → ⊥
    empty a b = cc

abbrev after : Database
after = (finalize tens "m1" (some "ada") by_hp_zero 1000 db).1

finalized : (finalize tens "m1" (some "ada") by_hp_zero 1000 db).0 ≡ answered true
unfolding finalize close_match assign elo_delta
finalized = refl

finalize_once_example :
    finalize tens "m1" (some "bob") by_disconnect 2000 after
    ≡ (answered false, after, schedule_match_cleanup "m1" 32000 ∷ [])
finalize_once_example =
    finalize_once tens "m1" (some "ada") (some "bob") by_hp_zero by_disconnect 1000 2000 db db_keyed
      finalized

finalize-HasRated_example :
    ((finalize tens "m1" (some "ada") by_hp_zero 1000 db).0 ≡ answered true)
    × HasRated tens "m1" "ada" by_hp_zero 1000 db duel ada bob true after.users
    × ((x : String) → x ≢ "ada" → x ≢ "bob" → after.users x ≡ db.users x)
unfolding assign
finalize-HasRated_example =
    finalize-HasRated tens "m1" "ada" by_hp_zero 1000 db duel ada bob tens_positive
      (assign_self "m1" (some duel) no_entries) refl (text_ne "ada" "" refl) (inl refl)
      (text_ne "ada" "bob" refl) ada_row bob_row
  where
    ada_row : db.users "ada" ≡ some ada
    ada_row = assign_self "ada" (some ada) (assign "bob" (some bob) no_entries)

    bob_row : db.users "bob" ≡ some bob
    bob_row = refl
