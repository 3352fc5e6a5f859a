-- ===== src/Room/Service/Create/Claim.antt =====
-- What `claimCode` and `createRoom` leave, whatever other requests do meanwhile.
use mobile_final_project.Base.{
  ℕ, zero, suc, ◌+◌, ◌≤◌, String, ◌≡◌, refl, ◌∙◌, none, some, ◌⊎◌, inl, inr, assign, assign_self,
  true, Bool-cases, is_some, absent_of, arith,
}
use mobile_final_project.Room.Types.{waiting, RoomView}
use mobile_final_project.Room.Store.{RoomStore, put_user}
use mobile_final_project.Room.Members.{pending}
use mobile_final_project.Room.Requests.{
  Run, Others, Reply, done, thrown, RoomError, room_code_unavailable, room_already_in_room,
}
use mobile_final_project.Room.Requests.Rules.{Ends, bind_ends, on_error_ends}
use mobile_final_project.Room.Service.{Outside, must_be_free, delete_user_room}
use mobile_final_project.Room.Service.Free.{must_be_free_ends}
use mobile_final_project.Room.Service.Create.{
  claim_slot_for, claim_code_for, claim_code_in, max_code_claim_attempts, fill_room, create_room,
  save_room, make_room,
}

-- The code was free in some store, in which it was bound to the room.
abbrev pub IsClaimed : String → ℕ → Run → String → Run → Type 0
IsClaimed room_id attempts run join_code after =
    ((s : RoomStore) × (s.codes join_code ≡ none)
      × (after.store ≡ record s { codes = assign join_code (some room_id) s.codes }))
    × (after.clock ≤ run.clock + attempts)
    × (after.sent ≡ run.sent)

abbrev pub NoCode : ℕ → Run → RoomError → Run → Type 0
NoCode attempts run e after =
    (e ≡ room_code_unavailable) × (after.clock ≡ run.clock + attempts) × (after.sent ≡ run.sent)

later :
    (room_id : String) (n : ℕ) (run : Run) (s : RoomStore) (p : Reply String × Run)
    → Ends
        (IsClaimed room_id n (record run { store = s; clock = suc run.clock }))
        (NoCode n (record run { store = s; clock = suc run.clock }))
        p
    → Ends (IsClaimed room_id (suc n) run) (NoCode (suc n) run) p
later room_id n run s (done c, after) (h, k, i) = (h, omega arith, i)
later room_id n run s (thrown e, after) (h, k, i) = (h, omega arith, i)

module _ (outside : Outside) (m : Others) where
  -- Whatever other requests do meanwhile, claimCode either answers a code that was free and that
  -- it has bound to the room in its last access, or fails with room.code_unavailable; it makes at
  -- most as many accesses as it has attempts, exactly as many if it fails, and sends nothing.
  pub claim_code_in-IsClaimed :
      (attempts : ℕ) (room_id : String) (run : Run)
      → Ends
          (IsClaimed room_id attempts run)
          (NoCode attempts run)
          (claim_code_in outside attempts room_id m run)
  unfolding claim_code_in claim_code_for
  claim_code_in-IsClaimed zero room_id run = (refl, omega arith, refl)
  claim_code_in-IsClaimed (suc n) room_id run =
      let s = m run.clock run.store in
      let c = outside.random_code run.clock in
      elim (Bool-cases (is_some (s.codes c))) [
        | inl t ↦ rw t (
            later room_id n run s _
              (claim_code_in-IsClaimed n room_id (record run { store = s; clock = suc run.clock })))
        | inr t ↦ rw t ((s, absent_of (s.codes c) t, refl), omega arith, refl)
      ]

  -- A request that sends nothing.
  abbrev SendsNone : {A : Type 0} → Run → Reply A × Run → Type 0
  SendsNone run p = Ends (λ x after. after.sent ≡ run.sent) (λ e after. after.sent ≡ run.sent) p

  -- The view of a new room, and the owner's key that names it.
  abbrev pub IsCreated : String → Run → RoomView → Run → Type 0
  IsCreated owner run v after =
      (v.owner_id ≡ owner)
      × (v.guest_id ≡ none)
      × (v.status ≡ waiting)
      × (after.store.users owner ≡ some v.room_id)
      × (after.sent ≡ run.sent)

  -- The key was taken, and the store is as others left it; or the key is free.
  abbrev pub NotCreated : String → Run → RoomError → Run → Type 0
  NotCreated owner run e after =
      (((e ≡ room_already_in_room)
          × (after.store ≡ m run.clock run.store)
          × (is_some ((m run.clock run.store).users owner) ≡ true))
        ⊎ (after.store.users owner ≡ none))
      × (after.sent ≡ run.sent)

  code_quietly :
      (run now : Run) (room_id : String) (p : Reply String × Run)
      → now.sent ≡ run.sent
      → Ends (IsClaimed room_id max_code_claim_attempts now) (NoCode max_code_claim_attempts now) p
      → SendsNone run p
  code_quietly run now room_id (done c, after) e h = h.2 ∙ e
  code_quietly run now room_id (thrown d, after) e h = h.2 ∙ e

  fill_room_ends :
      (owner : String) (run : Run)
      → Ends
          (IsCreated owner run)
          (λ e after. after.sent ≡ run.sent)
          (fill_room outside owner m run)
  unfolding fill_room
  fill_room_ends owner run =
      let E = λ (e : RoomError) (after : Run). after.sent ≡ run.sent in
      bind_ends (λ x after. after.sent ≡ run.sent) (IsCreated owner run) E m
        (must_be_free outside owner) (λ x. make_room outside owner) run
        (must_be_free_ends outside m (λ after. after.sent ≡ run.sent) (λ now h. h) owner run refl)
        (λ x run1 h.
          let room_id = outside.random_id run1.clock in
          bind_ends (λ c after. after.sent ≡ run.sent) (IsCreated owner run) E m
            (claim_code_in outside max_code_claim_attempts room_id) (save_room owner room_id) run1
            (code_quietly run run1 room_id _ h
              (claim_code_in-IsClaimed max_code_claim_attempts room_id run1))
            (λ c run2 i. (refl, refl, refl, assign_self owner (some room_id) _, i)))

  -- Whatever other requests do meanwhile, createRoom sends nothing, and: if it answers, the view is
  -- of a waiting room of the owner without a guest, and the owner's key names that room when it
  -- ends; if it throws, either the owner's key was taken and the error is room.already_in_room,
  -- with the store as other requests left it, or the owner's key is free when it ends.
  pub create_room-IsCreated :
      (owner : String) (run : Run)
      → Ends (IsCreated owner run) (NotCreated owner run) (create_room outside owner m run)
  unfolding create_room claim_slot_for
  create_room-IsCreated owner run =
      let s = m run.clock run.store in
      let slot : Run = record run {
        store = put_user owner (some pending) s;
        clock = suc run.clock;
      } in
      elim (Bool-cases (is_some (s.users owner))) [
        | inl t ↦ rw t (inl (refl, refl, t), refl)
        | inr t ↦ rw t (
            on_error_ends (IsCreated owner run) (λ e after. after.sent ≡ run.sent) _ m
              (fill_room outside owner) (delete_user_room owner) slot (fill_room_ends owner slot)
              (λ e after h. (inr (assign_self owner none _), h)))
      ]
