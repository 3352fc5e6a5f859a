-- ===== src/Room/Service/Create/Roundtrip.antt =====
-- A room that `createRoom` has made is the one that `getMyRoom` shows, and that its code leads to.
use mobile_final_project.Base.{
  ℕ, suc, String, ◌≡◌, refl, sym, ap, ◌∙◌, subst, some, inl, inr, assign_self, Bool-cases, is_some,
}
use mobile_final_project.Room.Types.{Room, RoomView, room_hash_to_view}
use mobile_final_project.Room.Store.{RoomStore, whole, room_at, room_at-assign, put_room, put_user}
use mobile_final_project.Room.Members.{new_room, pending}
use mobile_final_project.Room.Members.Scripts.{not_there}
use mobile_final_project.Room.Requests.{Run, quiet, Reply, done, thrown}
use mobile_final_project.Room.Requests.Rules.{Ends, bind_ends, on_error_ends}
use mobile_final_project.Room.Service.{
  Outside, named_room, view_at, view_at_lem, must_be_free, delete_user_room,
}
use mobile_final_project.Room.Service.Free.{must_be_free_ends}
use mobile_final_project.Room.Service.Create.{
  claim_slot_for, claim_code_in, max_code_claim_attempts, save_room, make_room, fill_room,
  create_room,
}
use mobile_final_project.Room.Service.Create.Claim.{IsClaimed, NoCode, claim_code_in-IsClaimed}
use mobile_final_project.Room.Service.Leave.{get_my_room}

-- The store has the room of the view, under the owner's key and under the code.
abbrev pub IsStored : String → RoomView → Run → Type 0
IsStored owner v after =
    (named_room (some v.room_id) ≡ some v.room_id)
    × (after.store.users owner ≡ some v.room_id)
    × (after.store.codes v.join_code ≡ some v.room_id)
    × ((r : Room) × (room_at after.store v.room_id ≡ some r)
        × (r.room_id ≡ v.room_id)
        × (room_hash_to_view r ≡ v))

module _ (outside : Outside)
    (ids : (clock : ℕ)
      → named_room (some (outside.random_id clock)) ≡ some (outside.random_id clock))
    (owner : String) where
  save_ends :
      (room_id join_code : String) (now : Run)
      → named_room (some room_id) ≡ some room_id
      → now.store.codes join_code ≡ some room_id
      → Ends (IsStored owner) (λ e after. Unit) (save_room owner room_id join_code quiet now)
  save_ends room_id join_code now named bound =
      let r : Room = new_room room_id join_code owner in
      (
        named,
        assign_self owner (some room_id) now.store.users,
        bound,
        (
          r,
          room_at-assign room_id (some (whole r)) now.store.rooms
              (put_user owner (some room_id) (put_room room_id r now.store)) refl,
          refl,
          refl,
        ),
      )

  code_bound :
      (room_id : String) (run : Run) (p : Reply String × Run)
      → Ends (IsClaimed room_id max_code_claim_attempts run) (NoCode max_code_claim_attempts run) p
      → Ends (λ c after. after.store.codes c ≡ some room_id) (λ e after. Unit) p
  code_bound room_id run (done c, after) h =
      let (claimed, few, sent) = h in
      let (s, free, e) = claimed in
      ap (λ (x : RoomStore). x.codes c) e ∙ assign_self c (some room_id) s.codes
  code_bound room_id run (thrown e, after) h = tt

  fill_ends :
      (run : Run) → Ends (IsStored owner) (λ e after. Unit) (fill_room outside owner quiet run)
  unfolding fill_room
  fill_ends run =
      bind_ends (λ (x : Unit {0}) (after : Run). Unit {0}) (IsStored owner) (λ e after. Unit) quiet
        (must_be_free outside owner) (λ x. make_room outside owner) run
        (must_be_free_ends outside quiet (λ after. Unit) (λ now h. tt) owner run tt)
        (λ x now h.
          let room_id = outside.random_id now.clock in
          bind_ends (λ (c : String) (after : Run). after.store.codes c ≡ some room_id)
            (IsStored owner) (λ e after. Unit) quiet
            (claim_code_in outside max_code_claim_attempts room_id) (save_room owner room_id) now
            (code_bound room_id now _
              (claim_code_in-IsClaimed outside quiet max_code_claim_attempts room_id now))
            (λ c after i. save_ends room_id c after (ids now.clock) i))

  create_ends :
      (run : Run) → Ends (IsStored owner) (λ e after. Unit) (create_room outside owner quiet run)
  unfolding create_room claim_slot_for
  create_ends run = elim (Bool-cases (is_some (run.store.users owner))) [
    | inl t ↦ rw t tt
    | inr t ↦ rw t (
        on_error_ends (IsStored owner) (λ e after. Unit) (λ e after. Unit) quiet
          (fill_room outside owner) (delete_user_room owner)
          (record run { store = put_user owner (some pending) run.store; clock = suc run.clock })
          (fill_ends _) (λ e after h. tt))
  ]

named_not_empty : named_room (some "") ≡ some "" → ⊥
named_not_empty h = not_there h

-- The player's key leads to its room.
shown :
    (owner : String) (v : RoomView) (now : Run)
    → IsStored owner v now
    → (get_my_room owner quiet now).0 ≡ done v
unfolding get_my_room
shown owner v now (named, key, bound, (r, there, same, e)) =
    let found : named_room (now.store.users owner) ≡ some v.room_id = ap named_room key ∙ named in
    let seen : view_at v.room_id now.store ≡ some v =
      view_at_lem v.room_id now.store r there (λ h.
        named_not_empty (subst (λ (k : String). named_room (some k) ≡ some k) (sym same ∙ h) named))
      ∙ ap (λ (x : RoomView). some x) e in
    rw found (rw seen refl)

-- Where no other request runs, and the ids that are made up are neither '' nor 'pending': if
-- createRoom answers a room, then getMyRoom of its owner answers the same room next, and the
-- room's code leads to it.
pub create_room-get_my_room :
    (outside : Outside)
    → ((clock : ℕ) → named_room (some (outside.random_id clock)) ≡ some (outside.random_id clock))
    → (owner : String) (run : Run) (v : RoomView) (after : Run)
    → create_room outside owner quiet run ≡ (done v, after)
    → ((get_my_room owner quiet after).0 ≡ done v)
      × (after.store.codes v.join_code ≡ some v.room_id)
create_room-get_my_room outside ids owner run v after h =
    let stored =
      subst (Ends (IsStored owner) (λ e end. Unit)) h (create_ends outside ids owner run) in
    let (named, key, bound, room) = stored in (shown owner v after stored, bound)
