-- ===== src/Room/Service/Create.antt =====
-- `createRoom` and `claimCode` of backend/src/room/room.service.ts.

pub mod Claim
pub mod Roundtrip
use mobile_final_project.Base.{
  ℕ, zero, suc, String, Bool, true, false, some, if◌then◌else◌, not, is_some, assign,
}
use mobile_final_project.Room.Types.{RoomView, room_hash_to_view}
use mobile_final_project.Room.Store.{RoomStore, put_room, put_user}
use mobile_final_project.Room.Members.{pending, new_room}
use mobile_final_project.Room.Requests.{
  room_already_in_room, room_code_unavailable, Action, pure, throw, access, draw, ◌>>=◌, ◌>>◌,
  modify, throw_if, on_error,
}
use mobile_final_project.Room.Service.{Outside, delete_user_room, must_be_free}

-- `SET user:room:<user> pending NX`
unfoldable pub claim_slot_for : String → RoomStore → Bool × RoomStore
claim_slot_for user s =
    if is_some (s.users user) then (false, s) else (true, put_user user (some pending) s)

-- `SET room:code:<code> <id> NX`
unfoldable pub claim_code_for : String → String → RoomStore → Bool × RoomStore
claim_code_for join_code room_id s =
    if is_some (s.codes join_code)
    then (false, s)
    else (true, record s { codes = assign join_code (some room_id) s.codes })

abbrev pub max_code_claim_attempts : ℕ
max_code_claim_attempts = 10

-- HSET of the room, then SET of its owner's key
abbrev pub save_room : String → String → String → Action RoomView
save_room owner room_id join_code = do
  modify (put_room room_id (new_room room_id join_code owner))
  modify (put_user owner (some room_id))
  pure (room_hash_to_view (new_room room_id join_code owner))

module _ (outside : Outside) where
  unfoldable pub claim_code_in : ℕ → String → Action String
  claim_code_in zero room_id = throw room_code_unavailable
  claim_code_in (suc attempts) room_id =
      let again = claim_code_in attempts room_id in
      do
        join_code ← draw outside.random_code
        taken ← access (claim_code_for join_code room_id)
        if taken then pure join_code else again

  -- A new id, a code for it, and the room.
  abbrev pub make_room : String → Action RoomView
  make_room owner = do
    room_id ← draw outside.random_id
    join_code ← claim_code_in max_code_claim_attempts room_id
    save_room owner room_id join_code

  unfoldable pub fill_room : String → Action RoomView
  fill_room owner = must_be_free outside owner >> make_room owner

  unfoldable pub create_room : String → Action RoomView
  create_room owner = do
    slot ← access (claim_slot_for owner)
    throw_if (not slot) room_already_in_room
    on_error (fill_room owner) (delete_user_room owner)
