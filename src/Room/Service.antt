-- ===== src/Room/Service.antt =====
-- backend/src/room/room.service.ts: the requests on the rooms. The active match of a player, its
-- place in the queue, the pairing of two players, `randomUUID`, the codes that are drawn and
-- `trim().toUpperCase()` are parameters. An `outside` read may answer anew at each access.
pub mod Create
pub mod Join
pub mod Start
pub mod Leave
pub mod Free
use Prim.Native.Char.{Char, code}
use mobile_final_project.Base.{
  ◌≡◌, ◌≢◌, refl, inl, inr, text_cases, ℕ, zero, suc, String, Bool, true, false, Option, none, some,
  List, [], ◌∷◌, str_eq, if◌then◌else◌, ◌&&◌, ◌||◌, not, leb, is_some, assign,
}
use mobile_final_project.Room.Types.{
  RoomStatus, waiting, full, matched, same_status, Room, RoomView, room_hash_to_view, code_length,
}
use mobile_final_project.Room.Store.{
  RoomStore, room_at, put_room, put_user, room_join, joined, join_missing, join_full,
  already_in_room, not_waiting, join_owner, JoinReply, room_leave, leave_missing, guest_left,
  owner_left, LeaveReply, room_start_match, ClaimReply, claimed, claim_missing, claim_not_full,
  claim_invalid, claim_held, room_match_done, room_match_abort,
}
use mobile_final_project.Room.Members.{pending, new_room}
use mobile_final_project.Room.Requests.{
  RoomError, room_already_in_room, match_already_active, room_in_matchmaking_queue,
  room_not_in_room, room_not_found, room_invalid_code, room_full, room_not_waiting,
  room_owner_cannot_join, room_owner_only, room_not_full, room_match_starting,
  room_code_unavailable, room_state, room_closed, Reply, Action, pure, throw, access, gets, ask,
  draw, ◌>>=◌, ◌>>◌, modify, throw_if, or_throw, send, on_error,
}

-- What the service asks of others, by the number of the access.
pub record Outside : Type 0 where
  pub active_match : String → ℕ → Reply (Option String)
  pub queued : String → ℕ → Reply Bool
  pub pair_players : (owner guest : String) → ℕ → Reply String
  pub random_id : ℕ → String
  pub random_code : ℕ → String
  pub normalize : String → String

-- `A-Z2-9`
unfoldable pub is_code_char : Char → Bool
is_code_char c = (leb 65 (code c) && leb (code c) 90) || (leb 50 (code c) && leb (code c) 57)

-- `/^[A-Z2-9]{n}$/`
unfoldable pub is_code_of : ℕ → String → Bool
is_code_of zero String.[] = true
is_code_of zero (String.◌∷◌ c text) = false
is_code_of (suc n) String.[] = false
is_code_of (suc n) (String.◌∷◌ c text) = is_code_char c && is_code_of n text

abbrev pub is_room_code : String → Bool
is_room_code = is_code_of code_length

-- `null`, `''` and `'pending'` name no room.
abbrev pub named_room : Option String → Option String
named_room none = none
named_room (some room_id) =
    if str_eq room_id "" || str_eq room_id pending then none else some room_id

-- `hash?.roomId`, and the view of the hash
abbrev pub view_of : Option Room → Option RoomView
view_of none = none
view_of (some r) = if str_eq r.room_id "" then none else some (room_hash_to_view r)

unfoldable pub view_at : String → RoomStore → Option RoomView
view_at room_id s = view_of (room_at s room_id)

-- A room with an id is seen.
pub view_at_lem :
    (room_id : String) (s : RoomStore) (r : Room)
    → room_at s room_id ≡ some r
    → r.room_id ≢ ""
    → view_at room_id s ≡ some (room_hash_to_view r)
unfolding view_at
view_at_lem room_id s r h n = elim (text_cases r.room_id "") [
  | inl (e, t) ↦ absurd (n e)
  | inr (e, t) ↦ rw h (rw t refl)
]

abbrev pub load_named : Option String → Action (Option RoomView)
load_named none = pure none
load_named (some room_id) = gets (view_at room_id)

unfoldable pub load_room_if_exists : Option String → Action (Option RoomView)
load_room_if_exists o = load_named (named_room o)

unfoldable pub load_room : String → Action RoomView
load_room room_id = do view ← gets (view_at room_id); or_throw view room_not_found

abbrev pub delete_user_room : String → Action (Unit {0})
delete_user_room user = modify (put_user user none)

module _ (outside : Outside) where
  unfoldable pub has_no_match : String → Action (Unit {0})
  has_no_match user = do
    active ← ask (outside.active_match user)
    throw_if (is_some active) match_already_active

  unfoldable pub is_not_queued : String → Action (Unit {0})
  is_not_queued user = do
    queued ← ask (outside.queued user)
    throw_if queued room_in_matchmaking_queue

  -- A player that has an active match or waits in the queue may not take a room.
  unfoldable pub must_be_free : String → Action (Unit {0})
  must_be_free user = has_no_match user >> is_not_queued user
