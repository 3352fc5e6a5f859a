-- ===== src/Room/Service/Join.antt =====
-- `joinRoom` of backend/src/room/room.service.ts.

pub mod Outcome
use mobile_final_project.Base.{
  String, Option, none, some, [], ◌∷◌, str_eq, if◌then◌else◌, ◌&&◌, not,
}
use mobile_final_project.Room.Types.{full, same_status, RoomView}
use mobile_final_project.Room.Store.{
  room_join, joined, join_missing, join_full, already_in_room, not_waiting, join_owner, JoinReply,
}
use mobile_final_project.Room.Requests.{
  RoomError, room_already_in_room, room_not_found, room_invalid_code, room_full, room_not_waiting,
  room_owner_cannot_join, room_state, Action, pure, throw, access, gets, ◌>>=◌, ◌>>◌, throw_if,
  or_throw, send,
}
use mobile_final_project.Room.Service.{Outside, is_room_code, load_room_if_exists, must_be_free}

unfoldable pub is_guest_of : String → Option RoomView → Option RoomView
is_guest_of user none = none
is_guest_of user (some v) = elim v.guest_id [
  | none ↦ none
  | some guest ↦ if str_eq guest user && same_status v.status full then some v else none
]

abbrev pub join_error : JoinReply → Option RoomError
join_error joined = none
join_error join_missing = some room_not_found
join_error join_full = some room_full
join_error already_in_room = some room_already_in_room
join_error not_waiting = some room_not_waiting
join_error join_owner = some room_owner_cannot_join

abbrev pub throw_some : Option RoomError → Action (Unit {0})
throw_some none = pure tt
throw_some (some e) = throw e

-- A guest that asks again after its answer was lost gets its room.
abbrev pub join_again : String → Option RoomView → Action RoomView
join_again user view = or_throw (is_guest_of user view) room_already_in_room

-- The room after the script, and a message to both players.
abbrev pub tell_joined : String → String → RoomView → Action RoomView
tell_joined user room_id room = do
  send (room_state room_id room (room.owner_id ∷ user ∷ []))
  pure room

abbrev pub after_join : String → String → JoinReply → Action RoomView
after_join user room_id reply = do
  throw_some (join_error reply)
  view ← load_room_if_exists (some room_id)
  room ← or_throw view room_not_found
  tell_joined user room_id room

abbrev pub enter_room : String → String → Action RoomView
enter_room user room_id = access (room_join room_id user) >>= after_join user room_id

abbrev pub or_missing : Option String → Option String
or_missing none = none
or_missing (some room_id) = if str_eq room_id "" then none else some room_id

module _ (outside : Outside) where
  unfoldable pub join_free : String → String → Action RoomView
  join_free user room_id = must_be_free outside user >> enter_room user room_id

  -- `if (ownRoomId)`, where '' counts as none
  abbrev pub join_with : String → String → Option String → Action RoomView
  join_with user room_id none = join_free user room_id
  join_with user room_id (some own) =
      if str_eq own ""
      then join_free user room_id
      else do view ← load_room_if_exists (some own); join_again user view

  abbrev pub join_found : String → String → Action RoomView
  join_found user room_id = do own ← gets (λ s. s.users user); join_with user room_id own

  abbrev pub join_by_code : String → String → Action RoomView
  join_by_code user join_code = do
    found ← gets (λ s. s.codes join_code)
    room_id ← or_throw (or_missing found) room_not_found
    join_found user room_id

  unfoldable pub join_room : String → String → Action RoomView
  join_room user raw_code =
      let join_code = outside.normalize raw_code in
      do throw_if (not (is_room_code join_code)) room_invalid_code; join_by_code user join_code
