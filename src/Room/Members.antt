-- ===== src/Room/Members.antt =====
-- Who is in which room, however the requests of the players interleave. A step is one access to
-- Redis; a request that creates a room makes several, and `Lobby` says how far each player's has
-- come. What a request has read before may be out of date when its step is taken: a step that acts
-- on what holds then is timely. `leaveRoom`, `getMyRoom` and the hand-off do not see to that.
pub mod Frames
pub mod Scripts
pub mod Removal
pub mod Handoff
pub mod Steps
pub mod Single
use mobile_final_project.Base.{
  String, ◌≡◌, ◌≢◌, Option, none, some, ◌⊎◌, assign, no_entries, str_eq, if◌then◌else◌,
}
use mobile_final_project.Room.Types.{RoomStatus, waiting, full, matched, Room}
use mobile_final_project.Room.Store.{
  RoomStore, RoomHash, whole, room_at, put_room, put_user, room_join, room_leave, room_start_match,
  room_match_done, room_match_abort,
}

-- `createRoom` of a player: not running; its key is claimed; its room is written under an id.
pub data Creating : Type 0 where
  idle slot_claimed : Creating
  room_written : String → Creating

-- The store, and how far each player's `createRoom` has come.
pub record Lobby : Type 0 where
  pub store : RoomStore
  pub creating : String → Creating

abbrev pub pending : String
pending = "pending"

unfoldable pub set_creating : String → Creating → (String → Creating) → String → Creating
set_creating user c f j = if str_eq j user then c else f j

abbrev pub new_room : String → String → String → Room
new_room room_id join_code owner = record {
  room_id = room_id;
  join_code = join_code;
  owner_id = owner;
  guest_id = "";
  status = waiting;
  match_id = "";
}

-- An id that nothing knows yet, as `randomUUID` gives it.
pub record IsFresh (room_id : String) (l : Lobby) : Type 0 where
  pub no_room : l.store.rooms room_id ≡ none
  pub no_user : (user : String) → l.store.users user ≢ some room_id
  pub no_creator : (user : String) → l.creating user ≢ room_written room_id
  pub not_pending : room_id ≢ pending

pub data Step (l : Lobby) : Lobby → Type 0 where
  -- SET user:room:<user> pending NX
  claim_slot :
      (user : String)
      → user ≢ ""
      → l.store.users user ≡ none
      → Step l (record {
        store = put_user user (some pending) l.store;
        creating = set_creating user slot_claimed l.creating;
      })
  -- SET room:code:<code> <id> NX
  claim_code :
      (join_code room_id : String)
      → l.store.codes join_code ≡ none
      → Step l (record l {
        store = record l.store { codes = assign join_code (some room_id) l.store.codes };
      })
  -- HSET room:<id>
  write_room :
      (user room_id join_code : String)
      → l.creating user ≡ slot_claimed
      → IsFresh room_id l
      → Step l (record {
        store = put_room room_id (new_room room_id join_code user) l.store;
        creating = set_creating user (room_written room_id) l.creating;
      })
  -- SET user:room:<user> <id>
  map_owner :
      (user room_id : String)
      → l.creating user ≡ room_written room_id
      → Step l (record {
        store = put_user user (some room_id) l.store;
        creating = set_creating user idle l.creating;
      })
  -- DEL user:room:<user>, after a check that failed
  give_up :
      (user : String)
      → l.creating user ≡ slot_claimed
      → Step l (record {
        store = put_user user none l.store;
        creating = set_creating user idle l.creating;
      })
  join :
      (user room_id : String)
      → user ≢ ""
      → Step l (record l { store = (room_join room_id user l.store).1 })
  -- The script room_leave, on the room that the player's key named before.
  leave :
      (user room_id : String) → Step l (record l { store = (room_leave room_id user l.store).1 })
  -- DEL user:room:<user>, by `getMyRoom` or `leaveRoom`, after this room, which the key named
  -- before, was found to be gone
  forget :
      (user room_id : String)
      → room_id ≢ pending
      → Step l (record l { store = put_user user none l.store })
  claim_match :
      (room_id token : String)
      → Step l (record l { store = (room_start_match room_id token l.store).1 })
  -- The script room_match_done, with the room and its two players as they were read before.
  match_done :
      (room_id match_id : String) (r : Room)
      → match_id ≢ ""
      → Step l (record l {
        store = (room_match_done room_id r.join_code r.owner_id r.guest_id match_id l.store).1;
      })
  abort :
      (room_id token : String)
      → Step l (record l { store = room_match_abort room_id token l.store })

-- The step acts on what holds when it is taken. A leave acts on the room that the player's key names;
-- a key is forgotten that still names the room that was read, which is still gone; a hand-off ends
-- with the players that the room has, which is full and has its owner's key.
abbrev pub IsTimely : {l m : Lobby} → Step l m → Type 0
IsTimely (claim_slot user named free) = Unit
IsTimely (claim_code join_code room_id free) = Unit
IsTimely (write_room user room_id join_code stage fresh) = Unit
IsTimely (map_owner user room_id stage) = Unit
IsTimely (give_up user stage) = Unit
IsTimely (join user room_id named) = Unit
IsTimely {l} (leave user room_id) = l.store.users user ≡ some room_id
IsTimely {l} (forget user room_id named) =
    (l.store.users user ≡ some room_id) × (room_at l.store room_id ≡ none)
IsTimely (claim_match room_id token) = Unit
IsTimely {l} (match_done room_id match_id r named) =
    (room_at l.store room_id ≡ some r)
    × (r.status ≡ full)
    × (l.creating r.owner_id ≢ room_written room_id)
IsTimely (abort room_id token) = Unit

pub data Reach (l : Lobby) : Lobby → Type 0 where
  here : Reach l l
  step_on : {m n : Lobby} → Reach l m → Step m n → Reach l n

-- A run of timely steps.
abbrev pub AreTimely : {l m : Lobby} → Reach l m → Type 0
AreTimely here = Unit
AreTimely (step_on run s) = AreTimely run × IsTimely s

abbrev pub empty_lobby : Lobby
empty_lobby = record {
  store = record {
    rooms = no_entries;
    codes = no_entries;
    users = no_entries;
    claims = no_entries;
  };
  creating = λ user. idle;
}

-- The owner's key names the room, or its `createRoom` is about to write that.
abbrev pub OwnsKey : Lobby → String → String → Type 0
OwnsKey l room_id owner =
    (l.store.users owner ≡ some room_id)
    ⊎ ((l.store.users owner ≡ some pending) × (l.creating owner ≡ room_written room_id))

-- What holds of a room in the store.
pub record IsRoom (l : Lobby) (room_id : String) (r : Room) : Type 0 where
  pub has_id : r.room_id ≡ room_id
  pub owner_named : r.owner_id ≢ ""
  pub not_self : r.guest_id ≢ r.owner_id
  pub owner_in : r.status ≢ matched → OwnsKey l room_id r.owner_id
  pub guest_in : r.status ≢ matched → r.guest_id ≢ "" → l.store.users r.guest_id ≡ some room_id
  pub alone : r.status ≡ waiting → r.guest_id ≡ ""
  pub both : r.status ≡ full → r.guest_id ≢ ""
  pub gone :
      r.status ≡ matched
      → (l.store.users r.owner_id ≢ some room_id) × (l.store.users r.guest_id ≢ some room_id)
  pub settled : r.status ≡ matched → l.creating r.owner_id ≢ room_written room_id

pub record IsLobby (l : Lobby) : Type 0 where
  pub each_room :
      (room_id : String) (r : Room) → room_at l.store room_id ≡ some r → IsRoom l room_id r
  pub key_pending :
      (user : String) → l.creating user ≢ idle → (user ≢ "") × (l.store.users user ≡ some pending)
  pub writes : (user room_id : String) → l.creating user ≡ room_written room_id → room_id ≢ pending
  pub own_room :
      (user room_id : String) (r : Room)
      → l.creating user ≡ room_written room_id
      → room_at l.store room_id ≡ some r
      → r.owner_id ≡ user
  pub no_pending : room_at l.store pending ≡ none

-- A player of a room that has not gone to its match.
abbrev pub IsMember : Lobby → String → String → Type 0
IsMember l user room_id =
    (user ≢ "")
    × ((r : Room) × (room_at l.store room_id ≡ some r)
        × (r.status ≢ matched)
        × ((r.owner_id ≡ user) ⊎ (r.guest_id ≡ user)))
