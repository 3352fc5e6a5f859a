-- ===== src/Room/Service/Leave/Key.antt =====
-- What `leaveRoom` does, where no other request runs between its accesses.
use mobile_final_project.Base.{
  suc, subst, String, ◌≡◌, ◌≢◌, refl, sym, ap, ◌∙◌, Option, none, some, ◌⊎◌, inl, inr, assign,
  assign_self, assign_ne, text_cases, Table, true, false,
}
use mobile_final_project.Room.Types.{Room, RoomView, waiting, room_hash_to_view}
use mobile_final_project.Room.Store.{
  RoomStore, whole, room_at, room_at-assign, put_user, put_room, guest_left, leave_from, room_leave,
}
use mobile_final_project.Room.Requests.{
  Run, quiet, Reply, done, thrown, room_not_in_room, room_not_found, or_throw, bind_done,
}
use mobile_final_project.Room.Service.{named_room, load_room, view_at, view_at_lem}
use mobile_final_project.Room.Service.Leave.{LeaveRoomResult, after_leave, after_guest, leave_room}

-- A key that is deleted stays so when another is.
still_gone : (key user : String) (m : Table String) → m user ≡ none → assign key none m user ≡ none
still_gone key user m h = elim (text_cases user key) [
  | inl (e, u) ↦ ap (assign key none m) e ∙ assign_self key none m
  | inr (d, u) ↦ assign_ne key user none m d ∙ h
]

-- The owner closes its room; a guest leaves it waiting; anyone else finds no room.
abbrev pub Left : String → String → Room → Reply LeaveRoomResult → RoomStore → Type 0
Left user room_id r reply after =
    ((r.owner_id ≡ user)
      × (reply ≡ done (record { room = none; closed = true }))
      × (room_at after room_id ≡ none))
    ⊎ (((r.owner_id ≢ user)
          × (r.guest_id ≡ user)
          × (reply
              ≡ done (record {
                room = some (room_hash_to_view (record r { guest_id = ""; status = waiting }));
                closed = false;
              }))
          × (room_at after room_id ≡ some (record r { guest_id = ""; status = waiting })))
        ⊎ ((r.owner_id ≢ user)
            × (r.guest_id ≢ user)
            × (reply ≡ thrown room_not_in_room)
            × (room_at after room_id ≡ some r)))

module _ (user room_id : String) (r : Room) (run : Run)
    (key : named_room (run.store.users user) ≡ some room_id)
    (there : room_at run.store room_id ≡ some r) where
  abbrev LeaveEnd : Reply LeaveRoomResult × Run → Type 0
  LeaveEnd end = (end.1.store.users user ≡ none) × Left user room_id r end.0 end.1.store

  owner_leaves : r.owner_id ≡ user → LeaveEnd (leave_room user quiet run)
  unfolding leave_room room_leave leave_from
  owner_leaves e = elim (text_cases r.owner_id user) [
    | inr (n, t) ↦ absurd (n e)
    | inl (i, t) ↦
        let gone = λ (s : RoomStore) (h : s.rooms ≡ assign room_id none run.store.rooms).
          room_at-assign room_id none run.store.rooms s h in
        let free = assign_self user none run.store.users in
        elim (text_cases r.guest_id "") [
          | inl (g, u) ↦ rw key (rw there (rw t (rw u (free, inl (e, refl, gone _ refl)))))
          | inr (g, u) ↦ rw key (
              rw there (
                rw t (
                  rw u (
                    still_gone r.guest_id user (assign user none run.store.users) free,
                    inl (e, refl, gone _ refl),
                  ))))
        ]
  ]

  -- The answer to a guest that has left.
  told :
      (left : Room) (now : Run)
      → room_at now.store room_id ≡ some left
      → left.room_id ≢ ""
      → left ≡ record r { guest_id = ""; status = waiting }
      → now.store.users user ≡ none
      → r.owner_id ≢ user
      → r.guest_id ≡ user
      → LeaveEnd (after_leave user room_id (some r) guest_left quiet now)
  unfolding load_room
  told left now h named e free other guest =
      let seen = view_at_lem room_id now.store left h named in
      let read : Run = record now { clock = suc now.clock } in
      let found : load_room room_id quiet now ≡ (done (room_hash_to_view left), read) =
        ap (λ (o : Option RoomView). or_throw o room_not_found quiet read) seen in
      subst LeaveEnd
        (sym (
          bind_done (load_room room_id) (after_guest room_id) quiet now read
            (room_hash_to_view left) found))
        (
          free,
          inr (
              inl (
                other,
                guest,
                ap
                    (λ (x : Room).
                      done (record { room = some (room_hash_to_view x); closed = false }))
                    e,
                h ∙ ap (λ (x : Room). some x) e,
              )),
        )

  guest_leaves :
      r.room_id ≢ "" → r.owner_id ≢ user → r.guest_id ≡ user → LeaveEnd (leave_room user quiet run)
  unfolding leave_room room_leave leave_from load_room view_at
  guest_leaves named other guest = elim (text_cases r.owner_id user) [
    | inl (i, t) ↦ absurd (other i)
    | inr (i, t) ↦ elim (text_cases r.guest_id user) [
      | inr (g, u) ↦ absurd (g guest)
      | inl (g, u) ↦
          let left : Room = record r { guest_id = ""; status = waiting } in
          let after = put_user user none (put_room room_id left run.store) in
          let now : room_at after room_id ≡ some left =
            room_at-assign room_id (some (whole left)) run.store.rooms after refl in
          rw key (
            rw there (
              rw t (
                rw u (
                  told left _ now named refl (assign_self user none run.store.users) other guest))))
    ]
  ]

  stranger : r.owner_id ≢ user → r.guest_id ≢ user → LeaveEnd (leave_room user quiet run)
  unfolding leave_room room_leave leave_from room_at
  stranger other guest = elim (text_cases r.owner_id user) [
    | inl (i, t) ↦ absurd (other i)
    | inr (i, t) ↦ elim (text_cases r.guest_id user) [
      | inl (g, u) ↦ absurd (guest g)
      | inr (g, u) ↦ rw key (
          rw there (
            rw t (
              rw u (assign_self user none run.store.users, inr (inr (other, guest, refl, there))))))
    ]
  ]

-- Where no other request runs meanwhile and the player's key names a room of the store that has an
-- id, the player's key is free when leaveRoom ends, and: if the player owns the room, it is closed
-- and gone; if the player is its guest only, the answer and the store show the room waiting without
-- a guest; otherwise the request fails with room.not_in_room and the room stays.
pub leave_room-Left :
    (user room_id : String) (r : Room) (run : Run)
    → named_room (run.store.users user) ≡ some room_id
    → room_at run.store room_id ≡ some r
    → r.room_id ≢ ""
    → ((leave_room user quiet run).1.store.users user ≡ none)
      × Left user room_id r (leave_room user quiet run).0 (leave_room user quiet run).1.store
leave_room-Left user room_id r run key there named = elim (text_cases r.owner_id user) [
  | inl (e, t) ↦ owner_leaves user room_id r run key there e
  | inr (n, t) ↦ elim (text_cases r.guest_id user) [
    | inl (g, u) ↦ guest_leaves user room_id r run key there named n g
    | inr (g, u) ↦ stranger user room_id r run key there n g
  ]
]
