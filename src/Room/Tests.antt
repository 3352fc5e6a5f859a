-- ===== src/Room/Tests.antt =====
-- The theorems on the rooms at concrete players and rooms.
use mobile_final_project.Base.{
  zero, suc, String, ◌≡◌, ◌≢◌, ◌↔◌, refl, Option, none, some, inl, inr, false, [], no_entries,
  text_ne, sym, ◌∙◌, subst, some_eq,
}
use mobile_final_project.Base.Dict.{assign}
use mobile_final_project.Room.Types.{full, matched, Room, RoomView, room_hash_to_view}
use mobile_final_project.Room.Store.{
  RoomHash, whole, room_at, room_join, join_into, room_match_done, room_leave, leave_from,
}
use mobile_final_project.Room.Members.{
  idle, slot_claimed, room_written, Lobby, pending, set_creating, new_room, IsFresh, claim_slot,
  write_room, map_owner, join, Reach, here, step_on, AreTimely, empty_lobby, IsMember,
}
use mobile_final_project.Room.Members.Frames.{assign_gains, set_creating_gains}
use mobile_final_project.Room.Members.Scripts.{not_there}
use mobile_final_project.Room.Members.Steps.{room_cases}
use mobile_final_project.Room.Members.Single.{one_room_each, room_full_iff}
use mobile_final_project.Room.Requests.{Run, Others, quiet, done}
use mobile_final_project.Room.Requests.Rules.{Ends}
use mobile_final_project.Room.Service.{
  view_at, Outside, named_room, must_be_free, has_no_match, is_not_queued,
}
use mobile_final_project.Room.Service.Create.{
  create_room, fill_room, claim_slot_for, claim_code_in, claim_code_for,
}
use mobile_final_project.Room.Service.Create.Claim.{IsCreated, NotCreated, create_room-IsCreated}
use mobile_final_project.Room.Service.Create.Roundtrip.{create_room-get_my_room}
use mobile_final_project.Room.Service.Join.{join_room}
use mobile_final_project.Room.Service.Join.Outcome.{join_room-Ended, IsJoined, AreNamed, Kept}
use mobile_final_project.Room.Service.Leave.{leave_room, get_my_room}
use mobile_final_project.Room.Service.Leave.Key.{leave_room-Left, Left}
use mobile_final_project.Room.Service.Start.{start_room_match}
use mobile_final_project.Room.Service.Start.Handoff.{room_match_done_once}
use mobile_final_project.Room.Service.Start.Failure.{start_room_match-IsHandoff, Finished, Restored}

abbrev ada : String
ada = "ada"

abbrev bob : String
bob = "bob"

abbrev attic : String
attic = "attic"

abbrev attic_code : String
attic_code = "ABC234"

-- ada creates a room step by step, and bob joins it.
abbrev claimed_lobby : Lobby
claimed_lobby = record {
  store = record {
    rooms = no_entries;
    codes = no_entries;
    users = assign ada (some pending) no_entries;
    claims = no_entries;
  };
  creating = set_creating ada slot_claimed (λ user. idle);
}

abbrev written_lobby : Lobby
written_lobby = record {
  store = record claimed_lobby.store {
    rooms = assign attic (some (whole (new_room attic attic_code ada))) no_entries;
  };
  creating = set_creating ada (room_written attic) claimed_lobby.creating;
}

abbrev mapped_lobby : Lobby
mapped_lobby = record {
  store = record written_lobby.store { users = assign ada (some attic) written_lobby.store.users };
  creating = set_creating ada idle written_lobby.creating;
}

abbrev joined_lobby : Lobby
joined_lobby = record mapped_lobby { store = (room_join attic bob mapped_lobby.store).1 }

attic-IsFresh : IsFresh attic claimed_lobby
attic-IsFresh = record {
  no_room = refl;
  no_user = λ user h. not_there (
      assign_gains ada (some pending) no_entries attic user
        (λ e. text_ne pending attic refl (some_text e)) h);
  no_creator = λ user h.
      idle_is_idle
        (set_creating_gains ada user slot_claimed (λ x. idle) (room_written attic) (λ e. cc) h);
  not_pending = text_ne attic pending refl;
}
  where
    some_text : {a b : String} → some a ≡ some b → a ≡ b
    some_text h = cc

    idle_is_idle : idle ≡ room_written attic → ⊥
    idle_is_idle h = cc

joined_reached : Reach empty_lobby joined_lobby
unfolding set_creating
joined_reached =
    step_on
      (step_on
        (step_on (step_on here (claim_slot ada (text_ne ada "" refl) refl))
          (write_room ada attic attic_code refl attic-IsFresh))
        (map_owner ada attic refl))
      (join bob attic (text_ne bob "" refl))

joined_timely : AreTimely joined_reached
unfolding joined_reached
joined_timely = ((((tt, tt), tt), tt), tt)

abbrev full_attic : Room
full_attic = record {
  room_id = attic;
  join_code = attic_code;
  owner_id = ada;
  guest_id = bob;
  status = full;
  match_id = "";
}

attic_there : room_at joined_lobby.store attic ≡ some full_attic
unfolding room_at room_join join_into assign
attic_there = refl

not_matched : full ≢ matched
not_matched h = cc

bob-IsMember : IsMember joined_lobby bob attic
bob-IsMember = (text_ne bob "" refl, (full_attic, attic_there, not_matched, inr refl))

one_room_each_example : attic ≡ attic
one_room_each_example =
    one_room_each joined_lobby bob attic attic joined_reached joined_timely bob-IsMember
      bob-IsMember

room_full_iff_example :
    ((full ≡ full) ↔ (bob ≢ ""))
    × (bob ≢ ada)
    × (bob ≢ "" → joined_lobby.store.users bob ≡ some attic)
room_full_iff_example =
    room_full_iff joined_lobby attic full_attic joined_reached joined_timely attic_there not_matched

-- No one is in a match or in the queue.
abbrev calm : Outside
calm = record {
  active_match = λ user clock. done none;
  queued = λ user clock. done false;
  pair_players = λ owner guest clock. done "m1";
  random_id = λ clock. attic;
  random_code = λ clock. attic_code;
  normalize = λ text. text;
}

abbrev empty_run : Run
empty_run = record { store = empty_lobby.store; clock = 0; sent = [] }

create_room-IsCreated_example :
    Ends
      (IsCreated calm quiet ada empty_run)
      (NotCreated calm quiet ada empty_run)
      (create_room calm ada quiet empty_run)
create_room-IsCreated_example = create_room-IsCreated calm quiet ada empty_run

abbrev attic_view : RoomView
attic_view = room_hash_to_view (new_room attic attic_code ada)

abbrev created_run : Run
created_run = (create_room calm ada quiet empty_run).1

created : create_room calm ada quiet empty_run ≡ (done attic_view, created_run)
unfolding create_room fill_room must_be_free has_no_match is_not_queued claim_slot_for claim_code_in
    claim_code_for assign
created = refl

create_room-get_my_room_example :
    ((get_my_room ada quiet created_run).0 ≡ done attic_view)
    × (created_run.store.codes attic_code ≡ some attic)
create_room-get_my_room_example =
    create_room-get_my_room calm (λ clock. refl) ada empty_run attic_view created_run created

-- The store in which the attic waits for a guest, under its code.
abbrev attic_hashes : String → Option RoomHash
attic_hashes = assign attic (some (whole (new_room attic attic_code ada))) no_entries

abbrev waiting_run : Run
waiting_run = record {
  store = record {
    rooms = attic_hashes;
    codes = assign attic_code (some attic) no_entries;
    users = assign ada (some attic) no_entries;
    claims = no_entries;
  };
  clock = 0;
  sent = [];
}

waiting-AreNamed : AreNamed waiting_run.store
unfolding room_at
waiting-AreNamed k r h =
    elim (room_cases attic k (some (whole (new_room attic attic_code ada))) no_entries r h) [
      | inl (e, i) ↦ (
        subst (λ (x : String). named_room (some x) ≡ some x) (sym e) refl,
        subst (λ (x : Room). x.room_id ≢ "") (some_eq i) (text_ne attic "" refl),
      )
      | inr (n, i) ↦ absurd (not_there i)
    ]

join_room-Ended_example :
    Ends
      (IsJoined bob waiting_run calm waiting-AreNamed attic_code)
      (λ e after. Kept waiting_run after)
      (join_room calm bob attic_code quiet waiting_run)
join_room-Ended_example = join_room-Ended bob waiting_run calm waiting-AreNamed attic_code

abbrev joined_run : Run
joined_run = record { store = joined_lobby.store; clock = 0; sent = [] }

bob_key : named_room (joined_run.store.users bob) ≡ some attic
unfolding room_join room_at join_into assign
bob_key = refl

leave_room-Left_example :
    ((leave_room bob quiet joined_run).1.store.users bob ≡ none)
    × Left bob attic full_attic
        (leave_room bob quiet joined_run).0
        (leave_room bob quiet joined_run).1.store
leave_room-Left_example =
    leave_room-Left bob attic full_attic joined_run bob_key attic_there (text_ne attic "" refl)

first_match : (room_match_done attic attic_code ada bob "m1" joined_run.store).0 ≡ "m1"
unfolding room_match_done room_join room_at join_into assign
first_match = refl

room_match_done_once_example :
    room_match_done attic attic_code ada bob "m2"
      (room_match_done attic attic_code ada bob "m1" joined_run.store).1
    ≡ room_match_done attic attic_code ada bob "m1" joined_run.store
room_match_done_once_example =
    room_match_done_once attic attic_code ada bob "m1" attic_code ada bob "m2" joined_run.store
      (λ h. text_ne "m1" "" refl (sym first_match ∙ h))

start_room_match-IsHandoff_example :
    Ends Finished
      (λ e after. Restored joined_run after)
      (start_room_match calm attic quiet joined_run)
start_room_match-IsHandoff_example =
    start_room_match-IsHandoff calm (λ user clock. (none, refl)) attic joined_run

-- A guest whose room was left and joined meanwhile: the request works on the room it has read, and
-- deletes the key of the room that the player is in.
abbrev moved_on : Others
moved_on zero s = s
moved_on (suc zero) s = record s {
  users = assign bob (some "den") s.users;
  rooms = assign attic none s.rooms;
}
moved_on (suc (suc n)) s = s

stale_leave : (leave_room bob moved_on joined_run).1.store.users bob ≡ none
unfolding leave_room room_leave leave_from room_join room_at join_into assign
stale_leave = refl

-- `getMyRoom` deletes the key of the new room in the same way.
stale_get_my_room : (get_my_room bob moved_on joined_run).1.store.users bob ≡ none
unfolding get_my_room room_join join_into room_at assign view_at
stale_get_my_room = refl
