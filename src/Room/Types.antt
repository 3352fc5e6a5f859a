-- ===== src/Room/Types.antt =====
-- backend/src/room/room.types.ts: rooms, what the players see of them, and the codes to join by.
use Prim.Native.Char.{Char}
use Prim.Native.String.{char_at}
use mobile_final_project.Base.{
  ℕ, ◌%◌, String, Bool, Option, none, some, List, [], ◌∷◌, ◌==◌, if◌then◌else◌, str_eq,
}

pub data RoomStatus : Type 0 where
  waiting full matched : RoomStatus

abbrev pub status_code : RoomStatus → ℕ
status_code waiting = 0
status_code full = 1
status_code matched = 2

abbrev pub same_status : RoomStatus → RoomStatus → Bool
same_status a b = status_code a == status_code b

-- `RoomHash`. A `guestId` or `matchId` of "" is none; the time of expiry is left out.
pub record Room : Type 0 where
  pub room_id : String
  pub join_code : String
  pub owner_id : String
  pub guest_id : String
  pub status : RoomStatus
  pub match_id : String

pub record RoomView : Type 0 where
  pub room_id : String
  pub join_code : String
  pub owner_id : String
  pub guest_id : Option String
  pub status : RoomStatus
  pub match_id : Option String

abbrev pub or_null : String → Option String
or_null text = if str_eq text "" then none else some text

abbrev pub room_hash_to_view : Room → RoomView
room_hash_to_view r = record {
  room_id = r.room_id;
  join_code = r.join_code;
  owner_id = r.owner_id;
  guest_id = or_null r.guest_id;
  status = r.status;
  match_id = or_null r.match_id;
}

abbrev pub code_length : ℕ
code_length = 6

abbrev pub code_alphabet : String
code_alphabet = "ABCDEFGHJKLMNPQRSTUVWXYZ23456789"

-- `CODE_ALPHABET[b % CODE_ALPHABET.length]`
unfoldable pub code_char : ℕ → Char
code_char b = char_at code_alphabet (b % 32)

-- `randomRoomCode` on the bytes that were drawn.
unfoldable pub random_room_code : List ℕ → String
random_room_code [] = String.[]
random_room_code (b ∷ bytes) = String.◌∷◌ (code_char b) (random_room_code bytes)
