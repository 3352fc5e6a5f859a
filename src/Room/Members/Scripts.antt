-- ===== src/Room/Members/Scripts.antt =====
-- What the scripts change, and which keys of players a change may remove.
use mobile_final_project.Base.{
  String, ◌≡◌, ◌≢◌, refl, ap, true, Option, none, some, ◌⊎◌, inl, inr, assign, text_cases, str_eq,
  some_eq, Bool-cases, is_some, absent_of, ◌||◌,
}
use mobile_final_project.Room.Types.{RoomStatus, waiting, full, matched, Room, same_status}
use mobile_final_project.Room.Store.{
  RoomStore, RoomHash, whole, stub, room_of, room_at, put_room, put_user, joined, join_into,
  join_room_of, room_join, leave_from, leave_room_of, room_leave, delete_text, claim_for,
  claim_room_of, room_start_match,
}

pub room_eq : {x y : Room} → whole x ≡ whole y → x ≡ y
room_eq h = cc

pub not_there {ℓ} : {A : Type ℓ} {x : A} → none ≡ some x → ⊥
not_there h = cc

pub same_status_eq : (a b : RoomStatus) → same_status a b ≡ true → a ≡ b
same_status_eq waiting waiting h = refl
same_status_eq waiting full h = cc
same_status_eq waiting matched h = cc
same_status_eq full waiting h = cc
same_status_eq full full h = refl
same_status_eq full matched h = cc
same_status_eq matched waiting h = cc
same_status_eq matched full h = cc
same_status_eq matched matched h = refl

-- The room that a hash holds.
pub whole_room : (o : Option RoomHash) (r : Room) → room_of o ≡ some r → o ≡ some (whole r)
whole_room none r h = absurd (not_there h)
whole_room (some (whole x)) r h = ap (λ y. some (whole y)) (some_eq h)
whole_room (some (stub m)) r h = absurd (not_there h)

module _ (room_id user : String) (s : RoomStore) where
  -- A player joins a waiting room that has no guest, or nothing changes.
  abbrev pub Joins : Room → RoomStore → Type 0
  Joins r after =
      (r.owner_id ≢ user)
      × (s.users user ≡ none)
      × (r.guest_id ≡ "")
      × (r.status ≡ waiting)
      × (after
          ≡ put_user user (some room_id)
              (put_room room_id (record r { guest_id = user; status = full }) s))

  join_into_cases :
      (r : Room)
      → (((join_into r room_id user s).1 ≡ s) × ((join_into r room_id user s).0 ≢ joined))
        ⊎ (Joins r (join_into r room_id user s).1 × ((join_into r room_id user s).0 ≡ joined))
  unfolding join_into
  join_into_cases r = elim (text_cases r.owner_id user) [
    | inl (e, t) ↦ inl (rw t refl, rw t (λ h. cc))
    | inr (n, t) ↦ elim (Bool-cases (is_some (s.users user))) [
      | inl i ↦ inl (rw t (rw i refl), rw t (rw i (λ h. cc)))
      | inr i ↦ elim (text_cases r.guest_id "") [
        | inr (g, gt) ↦ inl (rw t (rw i (rw gt refl)), rw t (rw i (rw gt (λ h. cc))))
        | inl (g, gt) ↦ elim (Bool-cases (same_status r.status waiting)) [
          | inl w ↦ inr (
            (
              n,
              absent_of (s.users user) i,
              g,
              same_status_eq r.status waiting w,
              rw t (rw i (rw gt (rw w refl))),
            ),
            rw t (rw i (rw gt (rw w refl))),
          )
          | inr w ↦ inl (rw t (rw i (rw gt (rw w refl))), rw t (rw i (rw gt (rw w (λ h. cc)))))
        ]
      ]
    ]
  ]

  pub room_join_cases :
      (((room_join room_id user s).1 ≡ s) × ((room_join room_id user s).0 ≢ joined))
      ⊎ ((r : Room) × (room_at s room_id ≡ some r)
          × Joins r (room_join room_id user s).1
          × ((room_join room_id user s).0 ≡ joined))
  unfolding room_join
  room_join_cases = go (room_at s room_id) refl
    where
      go :
          (o : Option Room)
          → room_at s room_id ≡ o
          → (((join_room_of o room_id user s).1 ≡ s) × ((join_room_of o room_id user s).0 ≢ joined))
            ⊎ ((r : Room) × (room_at s room_id ≡ some r)
                × Joins r (join_room_of o room_id user s).1
                × ((join_room_of o room_id user s).0 ≡ joined))
      go none h = inl (refl, (λ e. cc))
      go (some r) h = elim (join_into_cases r) [ inl e ↦ inl e | inr (j, e) ↦ inr (r, h, j, e) ]

  abbrev pub OwnerLeaves : Room → RoomStore → Type 0
  OwnerLeaves r after =
      (r.owner_id ≡ user)
      × (after ≡ record s {
        rooms = assign room_id none s.rooms;
        codes = delete_text r.join_code s.codes;
        users = delete_text r.guest_id (assign user none s.users);
      })

  abbrev pub GuestLeaves : Room → RoomStore → Type 0
  GuestLeaves r after =
      (r.owner_id ≢ user)
      × (r.guest_id ≡ user)
      × (after
          ≡ put_user user none (put_room room_id (record r { guest_id = ""; status = waiting }) s))

  leave_from_cases :
      (r : Room)
      → ((leave_from r room_id user s).1 ≡ s)
        ⊎ (OwnerLeaves r (leave_from r room_id user s).1
            ⊎ GuestLeaves r (leave_from r room_id user s).1)
  unfolding leave_from
  leave_from_cases r = elim (text_cases r.owner_id user) [
    | inl (e, t) ↦ inr (inl (e, rw t refl))
    | inr (n, t) ↦ elim (text_cases r.guest_id user) [
      | inl (g, gt) ↦ inr (inr (n, g, rw t (rw gt refl)))
      | inr (g, gt) ↦ inl (rw t (rw gt refl))
    ]
  ]

  pub room_leave_cases :
      ((room_leave room_id user s).1 ≡ s)
      ⊎ ((r : Room) × (room_at s room_id ≡ some r)
          × (OwnerLeaves r (room_leave room_id user s).1
              ⊎ GuestLeaves r (room_leave room_id user s).1))
  unfolding room_leave
  room_leave_cases = go (room_at s room_id) refl
    where
      go :
          (o : Option Room)
          → room_at s room_id ≡ o
          → ((leave_room_of o room_id user s).1 ≡ s)
            ⊎ ((r : Room) × (room_at s room_id ≡ some r)
                × (OwnerLeaves r (leave_room_of o room_id user s).1
                    ⊎ GuestLeaves r (leave_room_of o room_id user s).1))
      go none h = inl refl
      go (some r) h = elim (leave_from_cases r) [ inl e ↦ inl e | inr j ↦ inr (r, h, j) ]

-- The claim of a match leaves the rooms and the players' keys as they are.
pub room_start_match-keeps :
    (room_id token : String) (s : RoomStore)
    → ((room_start_match room_id token s).1.rooms ≡ s.rooms)
      × ((room_start_match room_id token s).1.users ≡ s.users)
unfolding room_start_match claim_for
room_start_match-keeps room_id token s = go (room_at s room_id)
  where
    go :
        (o : Option Room)
        → ((claim_room_of o room_id token s).1.rooms ≡ s.rooms)
          × ((claim_room_of o room_id token s).1.users ≡ s.users)
    go none = (refl, refl)
    go (some r) = elim (Bool-cases (same_status r.status full)) [
      | inr f ↦ (rw f refl, rw f refl)
      | inl f ↦ elim (Bool-cases (str_eq r.owner_id "" || str_eq r.guest_id "")) [
        | inl b ↦ (rw f (rw b refl), rw f (rw b refl))
        | inr b ↦ elim (Bool-cases (is_some (s.claims room_id))) [
          | inl c ↦ (rw f (rw b (rw c refl)), rw f (rw b (rw c refl)))
          | inr c ↦ (rw f (rw b (rw c refl)), rw f (rw b (rw c refl)))
        ]
      ]
    ]
