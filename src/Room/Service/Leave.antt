-- ===== src/Room/Service/Leave.antt =====
-- `leaveRoom` and `getMyRoom` of backend/src/room/room.service.ts.

pub mod Key
use mobile_final_project.Base.{
  String, Bool, true, false, Option, none, some, [], ◌∷◌, str_eq, if◌then◌else◌,
}
use mobile_final_project.Room.Types.{Room, RoomView}
use mobile_final_project.Room.Store.{
  room_at, room_leave, leave_missing, guest_left, owner_left, LeaveReply,
}
use mobile_final_project.Room.Requests.{
  room_not_in_room, room_not_found, room_state, room_closed, Action, pure, throw, access, gets,
  ◌>>=◌, ◌>>◌, or_throw, send,
}
use mobile_final_project.Room.Service.{named_room, view_at, load_room, delete_user_room}

pub record LeaveRoomResult : Type 0 where
  pub room : Option RoomView
  pub closed : Bool

-- The owner has closed the room: tell the guest that was there.
abbrev pub tell_closed : String → Option Room → Action (Unit {0})
tell_closed room_id none = pure tt
tell_closed room_id (some r) =
    if str_eq r.guest_id ""
    then pure tt
    else send (room_closed room_id r.join_code r.owner_id r.guest_id (r.guest_id ∷ []))

-- The guest has left: tell the owner.
abbrev pub after_guest : String → RoomView → Action LeaveRoomResult
after_guest room_id room = do
  send (room_state room_id room (room.owner_id ∷ []))
  pure (record { room = some room; closed = false })

abbrev pub after_leave : String → String → Option Room → LeaveReply → Action LeaveRoomResult
after_leave user room_id before leave_missing = do delete_user_room user; throw room_not_in_room
after_leave user room_id before owner_left = do
  tell_closed room_id before
  pure (record { room = none; closed = true })
after_leave user room_id before guest_left = load_room room_id >>= after_guest room_id

unfoldable pub leave_room : String → Action LeaveRoomResult
leave_room user = do
  key ← gets (λ s. s.users user)
  room_id ← or_throw (named_room key) room_not_in_room
  before ← gets (λ s. room_at s room_id)
  left ← access (room_leave room_id user)
  after_leave user room_id before left

abbrev pub or_forget : String → Option RoomView → Action RoomView
or_forget user none = do delete_user_room user; throw room_not_found
or_forget user (some v) = pure v

unfoldable pub get_my_room : String → Action RoomView
get_my_room user = do
  key ← gets (λ s. s.users user)
  room_id ← or_throw (named_room key) room_not_in_room
  view ← gets (view_at room_id)
  or_forget user view
