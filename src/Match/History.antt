-- ===== src/Match/History.antt =====
-- What a player sees of past matches: `getHistory`, `getDetail` and `appendRoundEvents` of
-- backend/src/match/match.service.ts. Matches, users and counts of rounds are those that the
-- queries of the database gave; the events of a round are of any type.
use mobile_final_project.Base.{
  ℕ, ◌-◌, ◌/◌, String, ◌≡◌, ◌≢◌, refl, Option, none, some, List, [], ◌∷◌, map, ◌||◌, if◌then◌else◌,
  str_eq, ◌==◌, inl, inr, text_cases, text_eq_refl,
}
use mobile_final_project.Match.{
  MatchStatus, Match, User, match_not_found, not_your_match, invalid_round, MatchReply, answered,
  refused, truthy,
}

pub data MatchOutcome : Type 0 where
  self opponent : MatchOutcome

abbrev pub outcome_of : Option String → String → Option MatchOutcome
outcome_of none user = none
outcome_of (some winner) user = some (if str_eq winner user then self else opponent)

unfoldable pub outcome_for : Match → String → Option MatchOutcome
outcome_for m user = outcome_of (truthy m.winner_id) user

abbrev pub opponent_id : Match → String → String
opponent_id m user = if str_eq m.player1_id user then m.player2_id else m.player1_id

-- `new Map(users.map(u => [u.id, u.username])).get(id)`: the last row of an id counts.
unfoldable pub username_of : List User → String → Option String
username_of [] id = none
username_of (u ∷ users) id =
    let later = username_of users id in
    elim later [ some name ↦ some name | none ↦ if str_eq u.id id then some u.username else none ]

-- Whole seconds, from 0 on
abbrev pub duration : Match → Option ℕ
duration m = elim m.finished_at [ none ↦ none | some at_ms ↦ some ((at_ms - m.created_at) / 1000) ]

pub record HistoryEntry : Type 0 where
  pub match_id : String
  pub opponent : String
  pub opponent_name : Option String
  pub winner : Option MatchOutcome
  pub status : MatchStatus
  pub rounds : ℕ
  pub created_at : ℕ
  pub duration_s : Option ℕ

-- `count` answers 0 for a match that has no round.
abbrev pub history_entry : List User → (count : String → ℕ) → String → Match → HistoryEntry
history_entry users count user m = record {
  match_id = m.id;
  opponent = opponent_id m user;
  opponent_name = username_of users (opponent_id m user);
  winner = outcome_for m user;
  status = m.status;
  rounds = count m.id;
  created_at = m.created_at;
  duration_s = duration m;
}

unfoldable pub get_history :
    (find_users : List String → List User)
    → (count : String → ℕ) → List Match
    → String
    → List HistoryEntry
get_history find_users count matches user =
    map (history_entry (find_users (map (λ m. opponent_id m user) matches)) count user) matches

pub record RoundDetail (E : Type 0) : Type 0 where
  pub round_number : ℕ
  pub events : List E

pub record MatchDetail (E : Type 0) : Type 0 where
  pub match_id : String
  pub players : List (String × Option String)
  pub winner_id : Option String
  pub winner : Option String
  pub status : MatchStatus
  pub rounds : List (RoundDetail E)
  pub created_at : ℕ
  pub finished_at : Option ℕ

-- The rounds that are stored of matches, by match and number; a round is written over.
abbrev pub RoundTable : Type 0 → Type 0
RoundTable E = String → ℕ → Option (List E)

module _ {E : Type 0} where
  abbrev pub detail_of : List User → List (RoundDetail E) → Match → MatchDetail E
  detail_of users rounds m = record {
    match_id = m.id;
    players =
        (m.player1_id, username_of users m.player1_id)
        ∷ (m.player2_id, username_of users m.player2_id)
        ∷ [];
    winner_id = m.winner_id;
    winner = elim (truthy m.winner_id) [ none ↦ none | some id ↦ username_of users id ];
    status = m.status;
    rounds = rounds;
    created_at = m.created_at;
    finished_at = m.finished_at;
  }

  abbrev pub detail_in :
      List User → List (RoundDetail E) → Option Match → String → MatchReply (MatchDetail E)
  detail_in users rounds none user = refused match_not_found
  detail_in users rounds (some m) user =
      if str_eq m.player1_id user || str_eq m.player2_id user
      then answered (detail_of users rounds m)
      else refused not_your_match

  unfoldable pub get_detail :
      List User → List (RoundDetail E) → Option Match → String → MatchReply (MatchDetail E)
  get_detail users rounds row user = detail_in users rounds row user

  abbrev pub save_round_events : String → ℕ → List E → RoundTable E → RoundTable E
  save_round_events match_id round events t id n =
      if str_eq id match_id then if n == round then some events else t id n else t id n

  abbrev pub append_in :
      Option Match → String → ℕ → List E → RoundTable E → MatchReply (Unit {0}) × RoundTable E
  append_in none match_id round events t = (refused match_not_found, t)
  append_in (some m) match_id round events t =
      (answered tt, save_round_events match_id round events t)

  -- A round number is a whole number; 0 is refused.
  unfoldable pub append_round_events :
      Option Match → String → ℕ → List E → RoundTable E → MatchReply (Unit {0}) × RoundTable E
  append_round_events row match_id round events t =
      if round == 0 then (refused invalid_round, t) else append_in row match_id round events t

-- In a match of two different players that the first has won, the two players see
-- opposite outcomes, and each sees the other as the opponent.
outcome_opposite :
    (m : Match)
    → m.player1_id ≢ m.player2_id
    → truthy m.winner_id ≡ some m.player1_id
    → (outcome_for m m.player1_id ≡ some self)
      × (outcome_for m m.player2_id ≡ some opponent)
      × (opponent_id m m.player1_id ≡ m.player2_id)
      × (opponent_id m m.player2_id ≡ m.player1_id)
unfolding outcome_for
outcome_opposite m n w = elim (text_cases m.player1_id m.player2_id) [
  | inl (e, t) ↦ absurd (n e)
  | inr (d, t) ↦ rw w (rw t (rw (text_eq_refl m.player1_id) (refl, refl, refl, refl)))
]
