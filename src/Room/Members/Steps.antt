-- ===== src/Room/Members/Steps.antt =====
-- Every step keeps the rooms and the players' keys in order.
pub mod Creation
pub mod Updates
use mobile_final_project.Base.{
  String, ◌≡◌, ◌≢◌, refl, sym, ap, ◌∙◌, subst, Option, none, some, ◌⊎◌, inl, inr, Table, assign,
  assign_self, assign_ne, text_cases, some_eq,
}
use mobile_final_project.Room.Types.{RoomStatus, waiting, full, matched, Room}
use mobile_final_project.Room.Store.{
  RoomStore, RoomHash, whole, room_of, room_at, put_user, put_room,
}
use mobile_final_project.Room.Members.{
  Creating, idle, slot_claimed, room_written, Lobby, pending, set_creating, new_room, IsFresh,
  OwnsKey, IsRoom, IsLobby, empty_lobby,
}
use mobile_final_project.Room.Members.Frames.{
  assign_keeps, assign_gains, set_creating_self, set_creating_ne, set_creating_gains,
  set_creating_keeps, Frame, Frame-IsRoom, Frame-refl,
}
use mobile_final_project.Room.Members.Scripts.{not_there, room_eq}

-- The rooms of a store in which one key was written.
pub room_cases :
    (k j : String) (o : Option RoomHash) (m : Table RoomHash) (r : Room)
    → room_of (assign k o m j) ≡ some r
    → ((j ≡ k) × (room_of o ≡ some r)) ⊎ ((j ≢ k) × (room_of (m j) ≡ some r))
room_cases k j o m r h = elim (text_cases j k) [
  | inl (e, t) ↦ inl (e, sym (ap room_of (ap (assign k o m) e ∙ assign_self k o m)) ∙ h)
  | inr (n, t) ↦ inr (n, sym (ap room_of (assign_ne k j o m n)) ∙ h)
]

pub room_key :
    (l : Lobby) (k : String) (r : Room) → IsLobby l → room_at l.store k ≡ some r → k ≢ pending
room_key l k r ok h e = not_there (sym ok.no_pending ∙ sym (ap (room_at l.store) e) ∙ h)

-- A step that leaves the rooms as they are, and a frame for each.
pub frames-IsLobby :
    (l l' : Lobby)
    → IsLobby l
    → l'.store.rooms ≡ l.store.rooms
    → ((k : String) (r : Room) → room_at l.store k ≡ some r → Frame l l' k)
    → ((x : String) → l'.creating x ≢ idle → (x ≢ "") × (l'.store.users x ≡ some pending))
    → ((x k : String) → l'.creating x ≡ room_written k → l.creating x ≡ room_written k)
    → IsLobby l'
unfolding room_at
frames-IsLobby l l' ok same frame keys made =
    let at_eq = λ (k : String). ap (λ (m : Table RoomHash). room_of (m k)) same in
    record {
      each_room = λ k r h.
          let there = sym (at_eq k) ∙ h in Frame-IsRoom l l' k r ok there (frame k r there);
      key_pending = keys;
      writes = λ x k h. ok.writes x k (made x k h);
      own_room = λ x k r h i. ok.own_room x k r (made x k h) (sym (at_eq k) ∙ i);
      no_pending = at_eq pending ∙ ok.no_pending;
    }

-- A step that touches neither rooms nor players.
pub same-IsLobby :
    (l l' : Lobby)
    → IsLobby l
    → l'.store.rooms ≡ l.store.rooms
    → l'.store.users ≡ l.store.users
    → l'.creating ≡ l.creating
    → IsLobby l'
same-IsLobby l l' ok rooms users creating =
    let stage = λ (x : String). ap (λ (f : String → Creating). f x) creating in
    frames-IsLobby l l' ok rooms (λ k r h. Frame-refl l l' k users creating)
      (λ x h.
        let old = ok.key_pending x (λ e. h (stage x ∙ e)) in
        (old.0, ap (λ (m : Table String). m x) users ∙ old.1))
      (λ x k h. sym (stage x) ∙ h)
