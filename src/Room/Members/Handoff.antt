-- ===== src/Room/Members/Handoff.antt =====
-- What room_match_done.lua changes.
use mobile_final_project.Base.{String, ◌≡◌, ◌≢◌, refl, some, ◌⊎◌, inl, inr, assign, text_cases}
use mobile_final_project.Room.Types.{matched, Room}
use mobile_final_project.Room.Store.{RoomStore, whole, room_at, delete_if, room_match_done}
use mobile_final_project.Room.Members.Scripts.{whole_room}
use mobile_final_project.Room.Members.Removal.{
  Removes, Removes-trans, Removes-delete_if, Removes-gone, delete_if-gone,
}

-- The hand-off: nothing changes, or the room is matched and the keys that named it are gone.
abbrev pub Matches : String → String → Room → RoomStore → RoomStore → Type 0
Matches room_id match_id r s after =
    (after.rooms
      ≡ assign room_id (some (whole (record r { match_id = match_id; status = matched }))) s.rooms)
    × Removes room_id s.users after.users
    × (after.users r.owner_id ≢ some room_id)
    × (after.users r.guest_id ≢ some room_id)

pub room_match_done_cases :
    (room_id match_id : String) (r : Room) (s : RoomStore)
    → room_at s room_id ≡ some r
    → ((room_match_done room_id r.join_code r.owner_id r.guest_id match_id s).1 ≡ s)
      ⊎ Matches room_id match_id r s
          (room_match_done room_id r.join_code r.owner_id r.guest_id match_id s).1
unfolding room_match_done room_at
room_match_done_cases room_id match_id r s h =
    let hash = whole_room (s.rooms room_id) r h in
    let once = Removes-delete_if room_id r.owner_id s.users in
    let twice = Removes-delete_if room_id r.guest_id (delete_if r.owner_id room_id s.users) in
    elim (text_cases r.match_id "") [
      | inr (n, t) ↦ inl (rw hash (rw t refl))
      | inl (e, t) ↦ inr (
          rw hash (
            rw t (
              refl,
              Removes-trans room_id s.users (delete_if r.owner_id room_id s.users) _ once twice,
              Removes-gone room_id r.owner_id _ _ twice (delete_if-gone room_id r.owner_id s.users),
              delete_if-gone room_id r.guest_id (delete_if r.owner_id room_id s.users),
            )))
    ]
