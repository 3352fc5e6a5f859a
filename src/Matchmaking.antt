-- ===== src/Matchmaking.antt =====
-- The queue of waiting players and their pairing: backend/src/matchmaking/matchmaking.service.ts
-- and backend/src/redis/scripts/match_pair.lua. The database and the start of a match are
-- parameters, which may fail.
pub mod Order
pub mod Pairing
mod Tests
use Prim.Native.String.{compare}
use mobile_final_project.Base.{
  ℕ, suc, ◌+◌, String, Bool, true, false, Option, none, some, List, [], ◌∷◌, ◌++◌, ◌==◌, ltb, ◌&&◌,
  ◌||◌, not, if◌then◌else◌, str_eq, Ordering,
}

-- A member of the sorted set matchmaking:queue, with the time it joined.
pub record Entry : Type 0 where
  pub user : String
  pub score : ℕ

abbrev pub is_less : Ordering → Bool
is_less Ordering.lt = true
is_less Ordering.eq = false
is_less Ordering.gt = false

-- By score, and by name where the scores are equal.
abbrev pub before : Entry → Entry → Bool
before a b = ltb a.score b.score || (a.score == b.score && is_less (compare a.user b.user))

unfoldable pub is_queued : String → List Entry → Bool
is_queued user [] = false
is_queued user (x ∷ xs) = str_eq x.user user || is_queued user xs

unfoldable pub insert_entry : Entry → List Entry → List Entry
insert_entry e [] = e ∷ []
insert_entry e (x ∷ xs) =
    let rest = insert_entry e xs in if before e x then e ∷ x ∷ xs else x ∷ rest

-- ZADD NX
unfoldable pub zadd_nx : Entry → List Entry → Bool × List Entry
zadd_nx e q = if is_queued e.user q then (false, q) else (true, insert_entry e q)

-- ZREM
unfoldable pub zrem : String → List Entry → List Entry
zrem user [] = []
zrem user (x ∷ xs) = let rest = zrem user xs in if str_eq x.user user then rest else x ∷ rest

unfoldable pub match_pair : List Entry → Option (String × String) × List Entry
match_pair [] = (none, [])
match_pair (a ∷ []) = (none, a ∷ [])
match_pair (a ∷ b ∷ q) = (some (a.user, b.user), zrem b.user (zrem a.user (a ∷ b ∷ q)))

pub record MatchPairResult : Type 0 where
  pub match_id : String
  pub player1_id : String
  pub player2_id : String

-- The queue, and the matches that were written to the database.
pub record Hall : Type 0 where
  pub queue : List Entry
  pub matches : List MatchPairResult

-- `joinQueue`: whether the player was added, or none where the request throws.
unfoldable pub join_queue : (active : Bool) → String → ℕ → Hall → Option Bool × Hall
join_queue true user joined_at h = (none, h)
join_queue false user joined_at h =
    let (added, q) = zadd_nx (record { user = user; score = joined_at }) h.queue in
    (some added, record h { queue = q })

unfoldable pub leave_queue : String → Hall → Bool × Hall
leave_queue user h = (is_queued user h.queue, record h { queue = zrem user h.queue })

-- What the calls of a pairing come to: whether each player has an active match, the id of the
-- match that is written, whether the match is started, and whether a write back to the queue
-- succeeds; `none` is a failure. `time` is the clock at the write back.
pub record Outside : Type 0 where
  pub active1 : Option Bool
  pub active2 : Option Bool
  pub created : Option String
  pub started : Bool
  pub can_requeue : Bool
  pub time : ℕ

pub data PairReply : Type 0 where
  no_pair failed : PairReply
  paired : MatchPairResult → PairReply

-- `ZADD NX now p1 now+1 p2 …`
unfoldable pub add_all : ℕ → List String → List Entry → List Entry
add_all time [] q = q
add_all time (user ∷ users) q =
    add_all (suc time) users (zadd_nx (record { user = user; score = time }) q).1

unfoldable pub requeue_after_failure : Outside → List String → Hall → Hall
requeue_after_failure o users h =
    if o.can_requeue then record h { queue = add_all o.time users h.queue } else h

abbrev pub free_players : (active1 active2 : Bool) → String → String → List String
free_players active1 active2 p1 p2 =
    (if active1 then [] else p1 ∷ []) ++ (if active2 then [] else p2 ∷ [])

-- `initializeMatch`; the players are not put back once the row exists.
abbrev pub start_match : Outside → MatchPairResult → Hall → PairReply × Hall
start_match o r h = (if o.started then paired r else failed, h)

-- `createMatchForPlayers`, which the hand-off of a room calls.
unfoldable pub create_match_for_players : Outside → String → String → Hall → PairReply × Hall
create_match_for_players o p1 p2 h = elim o.created [
  | none ↦ (failed, h)
  | some match_id ↦
      let r : MatchPairResult = record { match_id = match_id; player1_id = p1; player2_id = p2 } in
      start_match o r (record h { matches = h.matches ++ (r ∷ []) })
]

abbrev pub create_match : Outside → String → String → Hall → PairReply × Hall
create_match o p1 p2 h = elim o.created [
  | none ↦ (failed, requeue_after_failure o (p1 ∷ p2 ∷ []) h)
  | some match_id ↦
      let r : MatchPairResult = record { match_id = match_id; player1_id = p1; player2_id = p2 } in
      start_match o r (record h { matches = h.matches ++ (r ∷ []) })
]

abbrev pub check_active :
    Outside → Option Bool → Option Bool → String → String → Hall → PairReply × Hall
check_active o none active2 p1 p2 h = (failed, h)
check_active o (some active1) none p1 p2 h = (failed, h)
check_active o (some active1) (some active2) p1 p2 h =
    if active1 || active2
    then (no_pair, requeue_after_failure o (free_players active1 active2 p1 p2) h)
    else create_match o p1 p2 h

abbrev pub pair_popped :
    Outside → (Hall → Hall) → Option (String × String) → Hall → PairReply × Hall
pair_popped o others none h = (no_pair, h)
pair_popped o others (some (p1, p2)) h = check_active o o.active1 o.active2 p1 p2 (others h)

-- `tryPair`, where other requests run after the script.
unfoldable pub try_pair : Outside → (Hall → Hall) → Hall → PairReply × Hall
try_pair o others h =
    let (players, q) = match_pair h.queue in pair_popped o others players (record h { queue = q })
