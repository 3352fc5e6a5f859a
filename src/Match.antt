-- ===== src/Match.antt =====
-- The life of a match in the database: backend/src/match/match.service.ts, with the update of
-- ratings of backend/src/user/user.service.ts. A transaction is one step that changes the tables
-- or, where it throws, does not. The power of ten in `eloDelta` is a parameter, a quotient; the
-- arithmetic on it is exact.
pub mod Once
pub mod Ratings
pub mod History
mod Tests
use mobile_final_project.Base.{
  ℕ, ◌+◌, ◌-◌, ◌*◌, ◌/◌, String, Bool, true, false, Option, none, some, List, [], ◌∷◌, map, not,
  ◌&&◌, ◌||◌, if◌then◌else◌, str_eq, leb, ltb, ◌==◌, Table, assign, is_some,
}

pub data MatchStatus : Type 0 where
  in_progress finished forfeited : MatchStatus

abbrev pub is_in_progress : MatchStatus → Bool
is_in_progress in_progress = true
is_in_progress finished = false
is_in_progress forfeited = false

pub data MatchEndReason : Type 0 where
  by_hp_zero by_forfeit by_disconnect : MatchEndReason

-- `finalPlayerState`, of a state that is stored with the match
pub record FinalState : Type 0 where
  pub hp : ℕ
  pub gold : ℕ

-- Times are in milliseconds.
pub record Match : Type 0 where
  pub id : String
  pub player1_id : String
  pub player2_id : String
  pub winner_id : Option String
  pub status : MatchStatus
  pub created_at : ℕ
  pub finished_at : Option ℕ
  pub p1_state : FinalState
  pub p2_state : FinalState

pub record User : Type 0 where
  pub id : String
  pub username : String
  pub rating : ℕ

pub record Database : Type 0 where
  pub matches : Table Match
  pub users : Table User

-- A whole number with its sign.
pub data Delta : Type 0 where
  up down : ℕ → Delta

abbrev pub negate : Delta → Delta
negate (up n) = down n
negate (down n) = up n

-- `Math.max(0, rating + delta)`
abbrev pub add_delta : ℕ → Delta → ℕ
add_delta rating (up n) = rating + n
add_delta rating (down n) = rating - n

abbrev pub difference : (after before : ℕ) → Delta
difference after before = if leb before after then up (after - before) else down (before - after)

-- A quotient of two whole numbers, which is infinite where only `below` is 0.
pub record Ratio : Type 0 where
  pub above : ℕ
  pub below : ℕ

abbrev pub elo_k_factor : ℕ
elo_k_factor = 32

-- `Math.round` of a quotient, and of a quotient below a minus sign: a half is rounded up.
abbrev pub round_ratio : ℕ → ℕ → Delta
round_ratio above below = up ((2 * above + below) / (2 * below))

abbrev pub round_minus_ratio : ℕ → ℕ → Delta
round_minus_ratio above below = down ((2 * above + below - 1) / (2 * below))

-- `ten_to d` is 10 to the power of d / 400. With a power of a / b, `expected` is b / (a + b): a
-- winner gets a / (a + b) of the factor, and a loser's share is b / (a + b), with a minus sign.
unfoldable pub elo_delta : (Delta → Ratio) → (rating opponent_rating : ℕ) → Bool → Delta
elo_delta ten_to rating opponent_rating won =
    let power = ten_to (difference opponent_rating rating) in
    let total = power.above + power.below in
    if won
    then round_ratio (elo_k_factor * power.above) total
    else round_minus_ratio (elo_k_factor * power.below) total

pub record RatingChange : Type 0 where
  pub rating_before : ℕ
  pub rating_after : ℕ
  pub delta : Delta

pub record MatchRatingChanges : Type 0 where
  pub p1 : RatingChange
  pub p2 : RatingChange

pub data MatchError : Type 0 where
  match_not_found invalid_winner player_not_found invalid_round not_your_match : MatchError

-- What is sent out, in the order of the calls.
pub data MatchEffect : Type 0 where
  schedule_match_cleanup : (match_id : String) (at_ms : ℕ) → MatchEffect
  invalidate_users : List String → MatchEffect
  bump_version : MatchEffect
  publish_match_end :
      (match_id : String) (winner_id : Option String) (reason : MatchEndReason) (p1 p2 : FinalState)
      (rating : Option MatchRatingChanges)
      → MatchEffect

pub data MatchReply {ℓ} (A : Type ℓ) : Type ℓ where
  answered : A → MatchReply A
  refused : MatchError → MatchReply A

abbrev pub cleanup_grace_ms : ℕ
cleanup_grace_ms = 30000

abbrev pub history_limit : ℕ
history_limit = 50

-- A text that is null or empty is none.
abbrev pub truthy : Option String → Option String
truthy none = none
truthy (some text) = if str_eq text "" then none else some text

abbrev pub is_winner_of : Match → String → Bool
is_winner_of m winner = str_eq winner m.player1_id || str_eq winner m.player2_id

abbrev pub set_rating : Option User → String → Delta → Table User → Table User
set_rating none id delta users = users
set_rating (some u) id delta users =
    assign id (some (record u { rating = add_delta u.rating delta })) users

-- UPDATE users SET rating = GREATEST(0, rating + delta)
unfoldable pub update_rating : String → Delta → Table User → Table User
update_rating id delta users = set_rating (users id) id delta users

abbrev pub status_for : MatchEndReason → MatchStatus
status_for by_hp_zero = finished
status_for by_forfeit = forfeited
status_for by_disconnect = forfeited

abbrev pub change_of : ℕ → ℕ → RatingChange
change_of rating_before rating_after = record {
  rating_before = rating_before;
  rating_after = rating_after;
  delta = difference rating_after rating_before;
}

abbrev pub changes_for : Delta → User → User → MatchRatingChanges
changes_for d p1 p2 = record {
  p1 = change_of p1.rating (add_delta p1.rating d);
  p2 = change_of p2.rating (add_delta p2.rating (negate d));
}

-- The match as `finalize` of the repository leaves it.
abbrev pub closed_match : Match → Option String → MatchEndReason → ℕ → Match
closed_match m winner reason now = record m {
  status = status_for reason;
  winner_id = winner;
  finished_at = some now;
}

-- What the transaction comes to: the match was over already, or is closed.
pub data Closing : Type 0 where
  was_over : (has_finish_time : Bool) → Closing
  closed_as : Match → Option MatchRatingChanges → Closing

abbrev pub match_end_effects :
    Match → MatchEndReason → Option MatchRatingChanges → ℕ → List MatchEffect
match_end_effects m reason changes now =
    schedule_match_cleanup m.id (now + cleanup_grace_ms)
    ∷ invalidate_users (m.player1_id ∷ m.player2_id ∷ [])
    ∷ bump_version
    ∷ publish_match_end m.id m.winner_id reason m.p1_state m.p2_state changes
    ∷ []

abbrev pub after_closing :
    String
    → MatchEndReason
    → ℕ
    → MatchReply Closing × Database
    → MatchReply Bool × Database × List MatchEffect
after_closing match_id reason now (refused e, db) = (refused e, db, [])
after_closing match_id reason now (answered (was_over true), db) =
    (answered false, db, schedule_match_cleanup match_id (now + cleanup_grace_ms) ∷ [])
after_closing match_id reason now (answered (was_over false), db) = (answered false, db, [])
after_closing match_id reason now (answered (closed_as m changes), db) =
    (answered true, db, match_end_effects m reason changes now)

-- `eloDelta`: the change of the first player's rating, from both ratings and whether it has won.
module _ (ten_to : Delta → Ratio) where
  abbrev pub delta_for : Match → String → User → User → Delta
  delta_for m winner p1 p2 = elo_delta ten_to p1.rating p2.rating (str_eq winner m.player1_id)

  abbrev pub close_rated :
      Match
      → String
      → Option String
      → MatchEndReason
      → ℕ
      → User
      → User
      → Database
      → MatchReply Closing × Database
  close_rated m winner winner_id reason now p1 p2 db =
      let d = delta_for m winner p1 p2 in
      let over = closed_match m winner_id reason now in
      (
        answered (closed_as over (some (changes_for d p1 p2))),
        record {
          matches = assign m.id (some over) db.matches;
          users = update_rating m.player2_id (negate d) (update_rating m.player1_id d db.users);
        },
      )

  -- `findByIdsForUpdate` gives each user once.
  abbrev pub close_won :
      Match
      → String
      → Option String
      → MatchEndReason
      → ℕ
      → Option User
      → Option User
      → Database
      → MatchReply Closing × Database
  close_won m winner winner_id reason now none p2 db = (refused player_not_found, db)
  close_won m winner winner_id reason now (some p1) none db = (refused player_not_found, db)
  close_won m winner winner_id reason now (some p1) (some p2) db =
      if str_eq m.player1_id m.player2_id
      then (refused player_not_found, db)
      else close_rated m winner winner_id reason now p1 p2 db

  abbrev pub close_with :
      Match
      → Option String
      → Option String
      → MatchEndReason
      → ℕ
      → Database
      → MatchReply Closing × Database
  close_with m none winner_id reason now db =
      let over = closed_match m winner_id reason now in
      (answered (closed_as over none), record db { matches = assign m.id (some over) db.matches })
  close_with m (some winner) winner_id reason now db =
      if not (is_winner_of m winner)
      then (refused invalid_winner, db)
      else close_won m winner winner_id reason now (db.users m.player1_id) (db.users m.player2_id)
          db

  abbrev pub close_found :
      Option Match → Option String → MatchEndReason → ℕ → Database → MatchReply Closing × Database
  close_found none winner_id reason now db = (refused match_not_found, db)
  close_found (some m) winner_id reason now db =
      if not (is_in_progress m.status)
      then (answered (was_over (is_some m.finished_at)), db)
      else close_with m (truthy winner_id) winner_id reason now db

  -- The transaction of `finalize`.
  unfoldable pub close_match :
      String → Option String → MatchEndReason → ℕ → Database → MatchReply Closing × Database
  close_match match_id winner_id reason now db =
      close_found (db.matches match_id) winner_id reason now db

  unfoldable pub finalize :
      String
      → Option String
      → MatchEndReason
      → ℕ
      → Database
      → MatchReply Bool × Database × List MatchEffect
  finalize match_id winner_id reason now db =
      after_closing match_id reason now (close_match match_id winner_id reason now db)

  abbrev pub forfeit_in :
      Option Match → String → ℕ → Database → MatchReply Bool × Database × List MatchEffect
  forfeit_in none user now db = (answered false, db, [])
  forfeit_in (some m) user now db =
      if not (is_in_progress m.status) || not (is_winner_of m user)
      then (answered false, db, [])
      else finalize m.id (some (if str_eq user m.player1_id then m.player2_id else m.player1_id))
          by_disconnect now db

  -- What the match was when it was read, `seen`, may differ from what the transaction finds.
  unfoldable pub forfeit_disconnected_player :
      (seen : Option Match) → String → ℕ → Database → MatchReply Bool × Database × List MatchEffect
  forfeit_disconnected_player seen user now db = forfeit_in seen user now db

  -- `findActiveByUserId`, then a second read of the match that it found
  unfoldable pub leave_match :
      (active : Option Match)
      → (seen : Option Match) → String
      → ℕ
      → Database
      → MatchReply Bool × Database × List MatchEffect
  leave_match active seen user now db =
      if is_some active
      then forfeit_disconnected_player seen user now db
      else (answered false, db, [])
