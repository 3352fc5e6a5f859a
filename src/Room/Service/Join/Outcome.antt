-- ===== src/Room/Service/Join/Outcome.antt =====
-- What `joinRoom` does, where no other request runs between its accesses.
use mobile_final_project.Base.{
  suc, String, ◌≡◌, ◌≢◌, refl, sym, ap, ◌∙◌, subst, Option, none, some, ◌⊎◌, inl, inr, true, [],
  ◌∷◌, ◌++◌, text_cases, str_eq, ◌&&◌, Bool-cases, some_eq, if◌then◌else◌,
}
use mobile_final_project.Room.Types.{Room, RoomView, full, same_status, room_hash_to_view}
use mobile_final_project.Room.Store.{
  RoomStore, whole, room_at, room_at-assign, room_join, JoinReply, joined, join_missing, join_full,
  already_in_room, not_waiting, join_owner,
}
use mobile_final_project.Room.Members.Scripts.{not_there, Joins, room_join_cases, same_status_eq}
use mobile_final_project.Room.Requests.{
  Run, quiet, Reply, done, thrown, RoomError, room_state, room_not_found, room_already_in_room,
  or_throw, bind_done, ◌>>=◌,
}
use mobile_final_project.Room.Requests.Rules.{Ends, bind_ends}
use mobile_final_project.Room.Service.{
  Outside, is_room_code, named_room, view_at_lem, load_room_if_exists, load_named, must_be_free,
}
use mobile_final_project.Room.Service.Free.{must_be_free_ends}
use mobile_final_project.Room.Service.Join.{
  is_guest_of, join_error, join_again, tell_joined, after_join, enter_room, join_free, join_with,
  or_missing, join_found, join_room,
}

-- Nothing was written and nothing sent.
abbrev pub Kept : Run → Run → Type 0
Kept run after = (after.store ≡ run.store) × (after.sent ≡ run.sent)

-- The rooms of a store have ids, and keys that name them.
abbrev pub AreNamed : RoomStore → Type 0
AreNamed s =
    (k : String) (r : Room)
    → room_at s k ≡ some r
    → (named_room (some k) ≡ some k) × (r.room_id ≢ "")

abbrev pub with_guest : Room → String → Room
with_guest r user = record r { guest_id = user; status = full }

-- The player has entered a waiting room, and both players are told.
abbrev pub HasEntered : String → String → Run → RoomView → Run → Type 0
HasEntered user room_id run v after =
    (r : Room) × (room_at run.store room_id ≡ some r)
    × Joins room_id user run.store r after.store
    × (v ≡ room_hash_to_view (with_guest r user))
    × (after.sent ≡ run.sent ++ (room_state room_id v (r.owner_id ∷ user ∷ []) ∷ []))

-- The player was in its full room already.
abbrev pub WasGuest : String → Run → RoomView → Run → Type 0
WasGuest user run v after = Kept run after × (v.guest_id ≡ some user) × (v.status ≡ full)

refusal : (reply : JoinReply) → reply ≢ joined → (e : RoomError) × (join_error reply ≡ some e)
refusal joined h = absurd (h refl)
refusal join_missing h = (_, refl)
refusal join_full h = (_, refl)
refusal already_in_room h = (_, refl)
refusal not_waiting h = (_, refl)
refusal join_owner h = (_, refl)

module _ (user : String) (run : Run) where
  abbrev Enters : String → Reply RoomView × Run → Type 0
  Enters room_id p = Ends (HasEntered user room_id run) (λ e after. Kept run after) p

  refused :
      (room_id : String) (reply : JoinReply) (now : Run)
      → reply ≢ joined
      → Kept run now
      → Enters room_id (after_join user room_id reply quiet now)
  refused room_id joined now h k = absurd (h refl)
  refused room_id join_missing now h k = k
  refused room_id join_full now h k = k
  refused room_id already_in_room now h k = k
  refused room_id not_waiting now h k = k
  refused room_id join_owner now h k = k

  -- The room that a player has joined is read again.
  reread :
      (room_id : String) (r : Room) (now : Run)
      → named_room (some room_id) ≡ some room_id
      → r.room_id ≢ ""
      → room_at now.store room_id ≡ some (with_guest r user)
      → after_join user room_id joined quiet now
        ≡ tell_joined user room_id
            (room_hash_to_view (with_guest r user))
            quiet
            (record now { clock = suc now.clock })
  unfolding load_room_if_exists
  reread room_id r now key named there =
      let seen = view_at_lem room_id now.store (with_guest r user) there named in
      let read : Run = record now { clock = suc now.clock } in
      let v = room_hash_to_view (with_guest r user) in
      let loaded : load_room_if_exists (some room_id) quiet now ≡ (done (some v), read) =
        ap (λ (o : Option String). load_named o quiet now) key
        ∙ ap (λ (o : Option RoomView). (done o, read)) seen in
      bind_done (load_room_if_exists (some room_id))
        (λ view. or_throw view room_not_found >>= tell_joined user room_id) quiet now read (some v)
        loaded

  entered :
      (room_id : String) (r : Room) (now : Run)
      → AreNamed run.store
      → room_at run.store room_id ≡ some r
      → Joins room_id user run.store r now.store
      → now.sent ≡ run.sent
      → Enters room_id (after_join user room_id joined quiet now)
  entered room_id r now names there joins sent =
      let x = with_guest r user in
      let (key, named) = names room_id r there in
      let (other, free, empty, waits, same) = joins in
      let found : room_at now.store room_id ≡ some x =
        room_at-assign room_id (some (whole x)) run.store.rooms now.store
          (ap (λ (s : RoomStore). s.rooms) same) in
      subst (Enters room_id) (sym (reread room_id r now key named found)) (
        r,
        there,
        joins,
        refl,
        ap (λ l. l ++ (room_state room_id (room_hash_to_view x) (r.owner_id ∷ user ∷ []) ∷ []))
            sent,
      )

  enter_room_ends :
      (room_id : String) (now : Run)
      → AreNamed run.store
      → Kept run now
      → Enters room_id (enter_room user room_id quiet now)
  enter_room_ends room_id now names (store, sent) =
      subst
        (λ (s : RoomStore).
          Enters room_id (enter_room user room_id quiet (record now { store = s })))
        (sym store)
        (elim (room_join_cases room_id user run.store) [
          | inl (same, other) ↦
              refused room_id (room_join room_id user run.store).0 _ other (same, sent)
          | inr (r, there, joins, e) ↦
              subst
                (λ (reply : JoinReply). Enters room_id (
                  after_join user room_id reply quiet (record now {
                    store = (room_join room_id user run.store).1;
                    clock = suc now.clock;
                  })))
                (sym e) (entered room_id r _ names there joins sent)
        ])

  -- What a request to join may come to.
  abbrev Ended : String → Reply RoomView × Run → Type 0
  Ended room_id p =
      Ends (λ v after. WasGuest user run v after ⊎ HasEntered user room_id run v after)
        (λ e after. Kept run after) p

  as_end : (room_id : String) (p : Reply RoomView × Run) → Enters room_id p → Ended room_id p
  as_end room_id (done v, after) h = inr h
  as_end room_id (thrown e, after) h = h

  guest_of :
      (v : RoomView) (g : Option String)
      → v.guest_id ≡ g
      → (w : RoomView)
      → (elim g as (λ o. Option RoomView) [
        | none ↦ none
        | some guest ↦ if str_eq guest user && same_status v.status full then some v else none
      ])
        ≡ some w
      → (w.guest_id ≡ some user) × (w.status ≡ full)
  guest_of v none e w h = absurd (not_there h)
  guest_of v (some guest) e w h = elim (text_cases guest user) [
    | inr (n, t) ↦ absurd (not_there (sym (rw t refl) ∙ h))
    | inl (i, t) ↦ elim (Bool-cases (same_status v.status full)) [
      | inr u ↦ absurd (not_there (sym (rw t (rw u refl)) ∙ h))
      | inl u ↦
          let same : v ≡ w = some_eq (sym (rw t (rw u refl)) ∙ h) in
          (
            ap (λ (x : RoomView). x.guest_id) (sym same) ∙ e ∙ ap (λ x. some x) i,
            ap (λ (x : RoomView). x.status) (sym same) ∙ same_status_eq v.status full u,
          )
    ]
  ]

  again_ends :
      (room_id : String) (view : Option RoomView) (now : Run)
      → Kept run now
      → Ended room_id (join_again user view quiet now)
  unfolding is_guest_of
  again_ends room_id none now k = k
  again_ends room_id (some v) now k =
      go (is_guest_of user (some v)) (λ w h. guest_of v v.guest_id refl w h)
    where
      go :
          (o : Option RoomView)
          → ((w : RoomView) → o ≡ some w → (w.guest_id ≡ some user) × (w.status ≡ full))
          → Ended room_id (or_throw o room_already_in_room quiet now)
      go none h = k
      go (some w) h = inl (k, (h w refl).0, (h w refl).1)

  load_ends :
      (own : String) (now : Run)
      → Kept run now
      → Ends
          (λ view after. Kept run after)
          (λ e after. Kept run after)
          (load_room_if_exists (some own) quiet now)
  unfolding load_room_if_exists
  load_ends own now k = go (named_room (some own))
    where
      go :
          (o : Option String)
          → Ends (λ view after. Kept run after) (λ e after. Kept run after) (load_named o quiet now)
      go none = k
      go (some room_id) = k

  module _ (outside : Outside) (names : AreNamed run.store) where
    free_ends :
        (room_id : String) (now : Run)
        → Kept run now
        → Ended room_id (join_free outside user room_id quiet now)
    unfolding join_free
    free_ends room_id now k = as_end room_id (join_free outside user room_id quiet now) (
        bind_ends (λ (x : Unit {0}) (after : Run). Kept run after) (HasEntered user room_id run)
          (λ e after. Kept run after) quiet (must_be_free outside user)
          (λ x. enter_room user room_id) now
          (must_be_free_ends outside quiet (λ after. Kept run after) (λ after h. h) user now k)
          (λ x after h. enter_room_ends room_id after names h))

    with_ends :
        (room_id : String) (own : Option String) (now : Run)
        → Kept run now
        → Ended room_id (join_with outside user room_id own quiet now)
    with_ends room_id none now k = free_ends room_id now k
    with_ends room_id (some own) now k = elim (text_cases own "") [
      | inl (e, t) ↦ rw t (free_ends room_id now k)
      | inr (n, t) ↦ rw t (
          bind_ends (λ view after. Kept run after)
            (λ v after. WasGuest user run v after ⊎ HasEntered user room_id run v after)
            (λ e after. Kept run after) quiet (load_room_if_exists (some own))
            (λ view. join_again user view) now (load_ends own now k)
            (λ view after h. again_ends room_id view after h))
    ]

    -- The code is valid, and the player was the guest of its room or has entered the code's.
    abbrev pub IsJoined : String → RoomView → Run → Type 0
    IsJoined raw_code v after =
        (is_room_code (outside.normalize raw_code) ≡ true)
        × (WasGuest user run v after
            ⊎ ((room_id : String) × (run.store.codes (outside.normalize raw_code) ≡ some room_id)
                × HasEntered user room_id run v after))

    -- Where no other request runs meanwhile, and the store's rooms have ids and keys that name
    -- them: if joinRoom throws, then nothing was written and nothing sent. If it answers, then the
    -- code is a valid one, and the player was the guest of the full room that it answers and
    -- nothing was written or sent, or the player, whose key was free and who does not own the
    -- room, has entered the room that the code named, which was waiting without a guest, and which
    -- is now full with the player's key on it, and both players are told.
    pub join_room-Ended :
        (raw_code : String)
        → Ends
            (IsJoined raw_code)
            (λ e after. Kept run after)
            (join_room outside user raw_code quiet run)
    unfolding join_room
    join_room-Ended raw_code = elim (Bool-cases (is_room_code c)) [
      | inr t ↦ rw t (refl, refl)
      | inl t ↦ rw t (found t (run.store.codes c) refl)
    ]
      where
        c : String
        c = outside.normalize raw_code

        now : Run
        now = record run { clock = suc run.clock }

        Goal : Reply RoomView × Run → Type 0
        Goal p = Ends (IsJoined raw_code) (λ e after. Kept run after) p

        named :
            is_room_code c ≡ true
            → (room_id : String) → run.store.codes c ≡ some room_id
            → (p : Reply RoomView × Run) → Ended room_id p
            → Goal p
        named t room_id h (done v, after) (inl g) = (t, inl g)
        named t room_id h (done v, after) (inr g) = (t, inr (room_id, h, g))
        named t room_id h (thrown e, after) k = k

        found :
            is_room_code c ≡ true
            → (o : Option String) → run.store.codes c ≡ o
            → Goal ((or_throw (or_missing o) room_not_found >>= join_found outside user) quiet now)
        found valid none h = (refl, refl)
        found valid (some room_id) h = elim (text_cases room_id "") [
          | inl (e, t) ↦ rw t (refl, refl)
          | inr (n, t) ↦ rw t (
              named valid room_id h _ (
                with_ends room_id (run.store.users user) (record now { clock = suc now.clock })
                  (refl, refl)))
        ]
