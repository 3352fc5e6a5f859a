-- ===== src/Room/Store.antt =====
-- What Redis holds of the rooms, and the scripts room_join.lua, room_leave.lua,
-- room_start_match.lua, room_match_done.lua and room_match_abort.lua of backend/src/redis/scripts,
-- each of which changes it in one step. Expiry of keys is left out.
use mobile_final_project.Base.{
  String, Bool, false, Option, none, some, str_eq, if◌then◌else◌, ◌||◌, not, Table, assign, is_some,
  assign_self, ap, ◌≡◌, ◌∙◌,
}
use mobile_final_project.Room.Types.{waiting, full, matched, same_status, Room}

-- The hash room:<id>. A `stub` has no room in it, only the match that room_match_done.lua writes
-- to a key that is gone.
pub data RoomHash : Type 0 where
  whole : Room → RoomHash
  stub : (match_id : String) → RoomHash

-- `codes`: room:code:<code>. `users`: user:room:<user>. `claims`: room:<id>:handoff.
pub record RoomStore : Type 0 where
  pub rooms : Table RoomHash
  pub codes : Table String
  pub users : Table String
  pub claims : Table String

-- The room of a key, where HEXISTS finds the field `roomId`.
abbrev pub room_of : Option RoomHash → Option Room
room_of none = none
room_of (some (whole r)) = some r
room_of (some (stub m)) = none

unfoldable pub room_at : RoomStore → String → Option Room
room_at s room_id = room_of (s.rooms room_id)

abbrev pub put_room : String → Room → RoomStore → RoomStore
put_room room_id r s = record s { rooms = assign room_id (some (whole r)) s.rooms }

abbrev pub put_user : String → Option String → RoomStore → RoomStore
put_user user o s = record s { users = assign user o s.users }

-- What is read at a key is what was written there.
pub room_at-assign :
    (k : String) (o : Option RoomHash) (m : Table RoomHash) (s : RoomStore)
    → s.rooms ≡ assign k o m
    → room_at s k ≡ room_of o
unfolding room_at
room_at-assign k o m s h =
    ap (λ (f : Table RoomHash). room_of (f k)) h ∙ ap room_of (assign_self k o m)

pub data JoinReply : Type 0 where
  joined join_missing join_full already_in_room not_waiting join_owner : JoinReply

unfoldable pub join_into : Room → String → String → RoomStore → JoinReply × RoomStore
join_into r room_id user s =
    if str_eq r.owner_id user
    then (join_owner, s)
    else if is_some (s.users user)
    then (already_in_room, s)
    else if not (str_eq r.guest_id "")
    then (join_full, s)
    else if not (same_status r.status waiting)
    then (not_waiting, s)
    else (
      joined,
      put_user user (some room_id)
          (put_room room_id (record r { guest_id = user; status = full }) s),
    )

abbrev pub join_room_of : Option Room → String → String → RoomStore → JoinReply × RoomStore
join_room_of none room_id user s = (join_missing, s)
join_room_of (some r) room_id user s = join_into r room_id user s

-- room_join.lua
unfoldable pub room_join : String → String → RoomStore → JoinReply × RoomStore
room_join room_id user s = join_room_of (room_at s room_id) room_id user s

pub data LeaveReply : Type 0 where
  leave_missing guest_left owner_left : LeaveReply

-- DEL of the key of a text that is not empty
abbrev pub delete_text {ℓ} : {V : Type ℓ} → String → Table V → Table V
delete_text text m = if str_eq text "" then m else assign text none m

unfoldable pub leave_from : Room → String → String → RoomStore → LeaveReply × RoomStore
leave_from r room_id user s =
    if str_eq r.owner_id user
    then (
      owner_left,
      record s {
        rooms = assign room_id none s.rooms;
        codes = delete_text r.join_code s.codes;
        users = delete_text r.guest_id (assign user none s.users);
      },
    )
    else if str_eq r.guest_id user
    then (
      guest_left,
      put_user user none (put_room room_id (record r { guest_id = ""; status = waiting }) s),
    )
    else (leave_missing, s)

abbrev pub leave_room_of : Option Room → String → String → RoomStore → LeaveReply × RoomStore
leave_room_of none room_id user s = (leave_missing, s)
leave_room_of (some r) room_id user s = leave_from r room_id user s

-- room_leave.lua
unfoldable pub room_leave : String → String → RoomStore → LeaveReply × RoomStore
room_leave room_id user s = leave_room_of (room_at s room_id) room_id user s

pub data ClaimReply : Type 0 where
  claimed : (owner guest : String) → ClaimReply
  claim_missing claim_not_full claim_invalid claim_held : ClaimReply

unfoldable pub claim_for : Room → String → String → RoomStore → ClaimReply × RoomStore
claim_for r room_id token s =
    if not (same_status r.status full)
    then (claim_not_full, s)
    else if str_eq r.owner_id "" || str_eq r.guest_id ""
    then (claim_invalid, s)
    else if is_some (s.claims room_id)
    then (claim_held, s)
    else (claimed r.owner_id r.guest_id, record s { claims = assign room_id (some token) s.claims })

abbrev pub claim_room_of : Option Room → String → String → RoomStore → ClaimReply × RoomStore
claim_room_of none room_id token s = (claim_missing, s)
claim_room_of (some r) room_id token s = claim_for r room_id token s

-- room_start_match.lua
unfoldable pub room_start_match : String → String → RoomStore → ClaimReply × RoomStore
room_start_match room_id token s = claim_room_of (room_at s room_id) room_id token s

-- `if GET(key) == value then DEL(key)`
abbrev pub held_by : String → Option String → Bool
held_by value none = false
held_by value (some v) = str_eq v value

unfoldable pub delete_if : String → String → Table String → Table String
delete_if key value m = if held_by value (m key) then assign key none m else m

abbrev pub recorded_match : Option RoomHash → String
recorded_match none = ""
recorded_match (some (whole r)) = r.match_id
recorded_match (some (stub m)) = m

abbrev pub with_match : Option RoomHash → String → RoomHash
with_match none match_id = stub match_id
with_match (some (whole r)) match_id = whole (record r { match_id = match_id; status = matched })
with_match (some (stub m)) match_id = stub match_id

-- room_match_done.lua
unfoldable pub room_match_done :
    (room_id join_code owner guest match_id : String) → RoomStore → String × RoomStore
unfolding delete_if
room_match_done room_id join_code owner guest match_id s =
    let before = recorded_match (s.rooms room_id) in
    if not (str_eq before "") then (before, s) else (
      match_id,
      record s {
        rooms = assign room_id (some (with_match (s.rooms room_id) match_id)) s.rooms;
        codes = assign join_code none s.codes;
        claims = assign room_id none s.claims;
        users = delete_if guest room_id (delete_if owner room_id s.users);
      },
    )

-- room_match_abort.lua
unfoldable pub room_match_abort : String → String → RoomStore → RoomStore
unfolding delete_if
room_match_abort room_id token s = record s { claims = delete_if room_id token s.claims }
