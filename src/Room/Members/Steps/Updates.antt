-- ===== src/Room/Members/Steps/Updates.antt =====
-- The scripts that change one room keep the rooms and the players' keys in order.
use mobile_final_project.Base.{
  String, ◌≡◌, ◌≢◌, refl, sym, ap, ◌∙◌, subst, Option, none, some, inl, inr, Table, assign,
  assign_self, assign_ne, some_eq, text_cases,
}
use mobile_final_project.Room.Types.{waiting, full, matched, Room}
use mobile_final_project.Room.Store.{
  RoomStore, RoomHash, whole, room_of, room_at, put_user, put_room, room_join, room_leave,
  room_match_done, delete_text,
}
use mobile_final_project.Room.Members.{room_written, Lobby, pending, IsRoom, IsLobby}
use mobile_final_project.Room.Members.Frames.{assign_keeps, assign_gains, Frame-IsRoom}
use mobile_final_project.Room.Members.Scripts.{not_there, room_join_cases, room_leave_cases}
use mobile_final_project.Room.Members.Removal.{
  Removes, Removes-assign, Removes-trans, Removes-keeps, Removes-gains,
}
use mobile_final_project.Room.Members.Handoff.{room_match_done_cases}
use mobile_final_project.Room.Members.Steps.{room_cases, room_key}

-- A step changes one room that is there, and some keys, and no stage.
pub record Update (l : Lobby) (k : String) (r : Room) (o : Option RoomHash) (after : RoomStore)
    : Type 0 where
  pub there : room_at l.store k ≡ some r
  pub rooms : after.rooms ≡ assign k o l.store.rooms
  pub same_owner : (x : Room) → room_of o ≡ some x → x.owner_id ≡ r.owner_id
  pub in_order : (x : Room) → room_of o ≡ some x → IsRoom (record l { store = after }) k x
  pub keep : (v x : String) → v ≢ k → l.store.users x ≡ some v → after.users x ≡ some v
  pub gain : (v x : String) → v ≢ k → after.users x ≡ some v → l.store.users x ≡ some v

pub Update-IsLobby :
    (l : Lobby) (k : String) (r : Room) (o : Option RoomHash) (after : RoomStore)
    → IsLobby l
    → Update l k r o after
    → IsLobby (record l { store = after })
unfolding room_at
Update-IsLobby l k r o after ok u =
    let named = room_key l k r ok u.there in
    let at_eq = λ (j : String). ap (λ (m : Table RoomHash). room_of (m j)) u.rooms in
    let keep_pending = λ (x : String). u.keep pending x (λ e. named (sym e)) in
    record {
      each_room = λ j x h. elim (room_cases k j o l.store.rooms x (sym (at_eq j) ∙ h)) [
        | inl (e, i) ↦
            subst (λ (y : String). IsRoom (record l { store = after }) y x) (sym e) (u.in_order x i)
        | inr (n, i) ↦
            Frame-IsRoom l (record l { store = after }) j x ok i
              (record {
                keep = λ y. u.keep j y n;
                own = λ y w. elim w [
                  | inl c ↦ inl (u.keep j y n c)
                  | inr (c, d) ↦ inr (keep_pending y c, d)
                ];
                gain = λ y c. inl (u.gain j y n c);
                made = λ y c. c;
              })
      ];
      key_pending = λ x h. let old = ok.key_pending x h in (old.0, keep_pending x old.1);
      writes = ok.writes;
      own_room = λ x j y h i. elim (room_cases k j o l.store.rooms y (sym (at_eq j) ∙ i)) [
        | inl (e, c) ↦ u.same_owner y c ∙ ok.own_room x j r h (ap (room_at l.store) e ∙ u.there)
        | inr (n, c) ↦ ok.own_room x j y h c
      ];
      no_pending =
          at_eq pending
          ∙ (ap room_of (assign_ne k pending o l.store.rooms (λ e. named (sym e))) ∙ ok.no_pending);
    }

-- The update of a step that only removes keys of the room.
removal :
    (l : Lobby) (k : String) (r : Room) (o : Option RoomHash) (after : RoomStore)
    → room_at l.store k ≡ some r
    → after.rooms ≡ assign k o l.store.rooms
    → Removes k l.store.users after.users
    → ((x : Room)
        → room_of o ≡ some x
        → (x.owner_id ≡ r.owner_id) × IsRoom (record l { store = after }) k x)
    → Update l k r o after
removal l k r o after there rooms removes room = record {
  there = there;
  rooms = rooms;
  same_owner = λ x h. (room x h).0;
  in_order = λ x h. (room x h).1;
  keep = λ v x n. Removes-keeps k v x l.store.users after.users removes (λ e. n (sym e));
  gain = λ v x n. Removes-gains k v x l.store.users after.users removes;
}

waiting_matched : waiting ≡ matched → ⊥
waiting_matched h = cc

pub join-IsLobby :
    (l : Lobby) (user room_id : String)
    → IsLobby l
    → user ≢ ""
    → IsLobby (record l { store = (room_join room_id user l.store).1 })
join-IsLobby l user room_id ok named = elim (room_join_cases room_id user l.store) [
  | inl (e, refused) ↦ subst (λ (s : RoomStore). IsLobby (record l { store = s })) (sym e) ok
  | inr (r, there, (other, free, empty, waits, e), entry) ↦
      subst (λ (s : RoomStore). IsLobby (record l { store = s })) (sym e)
        (entered r there other free waits)
]
  where
    users : Table String
    users = assign user (some room_id) l.store.users

    keep : (v x : String) → l.store.users user ≡ none → l.store.users x ≡ some v → users x ≡ some v
    keep v x free =
        assign_keeps user (some room_id) l.store.users v x (λ h. not_there (sym free ∙ h))

    entered :
        (r : Room)
        → room_at l.store room_id ≡ some r
        → r.owner_id ≢ user
        → l.store.users user ≡ none
        → r.status ≡ waiting
        → IsLobby (record l {
          store =
              put_user user
                (some room_id)
                (put_room room_id (record r { guest_id = user; status = full }) l.store);
        })
    entered r there other free waits =
        let x : Room = record r { guest_id = user; status = full } in
        let after : RoomStore = put_user user (some room_id) (put_room room_id x l.store) in
        let i = ok.each_room room_id r there in
        let playing : r.status ≢ matched = λ h. waiting_matched (sym waits ∙ h) in
        let order : IsRoom (record l { store = after }) room_id x = record {
          has_id = i.has_id;
          owner_named = i.owner_named;
          not_self = λ e. other (sym e);
          owner_in = λ h. elim (i.owner_in playing) [
            | inl c ↦ inl (keep room_id r.owner_id free c)
            | inr (c, d) ↦ inr (keep pending r.owner_id free c, d)
          ];
          guest_in = λ h g. assign_self user (some room_id) l.store.users;
          alone = λ h. cc;
          both = λ h. named;
          gone = λ h. cc;
          settled = λ h. cc;
        } in
        Update-IsLobby l room_id r (some (whole x)) after ok (record {
          there = there;
          rooms = refl;
          same_owner = λ y h. ap (λ (q : Room). q.owner_id) (sym (some_eq h));
          in_order = λ y h.
              subst (λ (q : Room). IsRoom (record l { store = after }) room_id q) (some_eq h) order;
          keep = λ v y n. keep v y free;
          gain = λ v y n.
              assign_gains user (some room_id) l.store.users v y (λ e. n (sym (some_eq e)));
        })

module _ (l : Lobby) (user room_id : String) (r : Room) (ok : IsLobby l)
    (there : room_at l.store room_id ≡ some r) (key : l.store.users user ≡ some room_id) where
  -- The room of a player whose key names it has not gone to its match.
  owner_open : r.owner_id ≡ user → r.status ≢ matched
  owner_open e h = ((ok.each_room room_id r there).gone h).0 (ap l.store.users e ∙ key)

  owner_leaves-IsLobby :
      r.owner_id ≡ user
      → IsLobby (record l {
        store = record l.store {
          rooms = assign room_id none l.store.rooms;
          codes = delete_text r.join_code l.store.codes;
          users = delete_text r.guest_id (assign user none l.store.users);
        };
      })
  owner_leaves-IsLobby e =
      let i = ok.each_room room_id r there in
      let once = assign user none l.store.users in
      let first = Removes-assign room_id user l.store.users key in
      let removes : Removes room_id l.store.users (delete_text r.guest_id once) =
        elim (text_cases r.guest_id "") [
          | inl (g, t) ↦ rw t first
          | inr (g, t) ↦
              let second : Removes room_id once (assign r.guest_id none once) =
                Removes-assign room_id r.guest_id once (
                  assign_ne user r.guest_id none l.store.users (λ d. i.not_self (d ∙ sym e))
                  ∙ i.guest_in (owner_open e) g) in
              rw t (
                Removes-trans room_id l.store.users once (assign r.guest_id none once) first second)
        ] in
      Update-IsLobby l room_id r none _ ok
        (removal l room_id r none _ there refl removes (λ x h. absurd (not_there h)))

  guest_leaves-IsLobby :
      r.owner_id ≢ user
      → r.guest_id ≡ user
      → IsLobby (record l {
        store =
            put_user user none
              (put_room room_id (record r { guest_id = ""; status = waiting }) l.store);
      })
  guest_leaves-IsLobby other guest =
      let i = ok.each_room room_id r there in
      let x : Room = record r { guest_id = ""; status = waiting } in
      let after : RoomStore = put_user user none (put_room room_id x l.store) in
      let playing : r.status ≢ matched = λ h. (i.gone h).1 (ap l.store.users guest ∙ key) in
      let order : IsRoom (record l { store = after }) room_id x = record {
        has_id = i.has_id;
        owner_named = i.owner_named;
        not_self = λ e. i.owner_named (sym e);
        owner_in = λ h. elim (i.owner_in playing) [
          | inl c ↦ inl (assign_ne user r.owner_id none l.store.users other ∙ c)
          | inr (c, d) ↦ inr (assign_ne user r.owner_id none l.store.users other ∙ c, d)
        ];
        guest_in = λ h g. absurd (g refl);
        alone = λ h. refl;
        both = λ h. cc;
        gone = λ h. cc;
        settled = λ h. cc;
      } in
      Update-IsLobby l room_id r (some (whole x)) after ok (
        removal l room_id r (some (whole x)) after there refl
          (Removes-assign room_id user l.store.users key)
          (λ y h. (
            ap (λ (q : Room). q.owner_id) (sym (some_eq h)),
            subst (λ (q : Room). IsRoom (record l { store = after }) room_id q) (some_eq h) order,
          )))

pub leave-IsLobby :
    (l : Lobby) (user room_id : String)
    → IsLobby l
    → l.store.users user ≡ some room_id
    → IsLobby (record l { store = (room_leave room_id user l.store).1 })
leave-IsLobby l user room_id ok key =
    let there_at = λ (s : RoomStore). IsLobby (record l { store = s }) in
    elim (room_leave_cases room_id user l.store) [
      | inl e ↦ subst there_at (sym e) ok
      | inr (r, there, inl (owner, e)) ↦
          subst there_at (sym e) (owner_leaves-IsLobby l user room_id r ok there key owner)
      | inr (r, there, inr (other, guest, e)) ↦
          subst there_at (sym e) (guest_leaves-IsLobby l user room_id r ok there key other guest)
    ]

pub match_done-IsLobby :
    (l : Lobby) (room_id match_id : String) (r : Room)
    → IsLobby l
    → room_at l.store room_id ≡ some r
    → l.creating r.owner_id ≢ room_written room_id
    → IsLobby (record l {
      store = (room_match_done room_id r.join_code r.owner_id r.guest_id match_id l.store).1;
    })
match_done-IsLobby l room_id match_id r ok there settled =
    let after = (room_match_done room_id r.join_code r.owner_id r.guest_id match_id l.store).1 in
    let i = ok.each_room room_id r there in
    let x : Room = record r { match_id = match_id; status = matched } in
    elim (room_match_done_cases room_id match_id r l.store there) [
      | inl e ↦ subst (λ (s : RoomStore). IsLobby (record l { store = s })) (sym e) ok
      | inr (rooms, removes, owner, guest) ↦
          let order : IsRoom (record l { store = after }) room_id x = record {
            has_id = i.has_id;
            owner_named = i.owner_named;
            not_self = i.not_self;
            owner_in = λ h. absurd (h refl);
            guest_in = λ h. absurd (h refl);
            alone = λ h. cc;
            both = λ h. cc;
            gone = λ h. (owner, guest);
            settled = λ h. settled;
          } in
          Update-IsLobby l room_id r (some (whole x)) after ok (
            removal l room_id r (some (whole x)) after there rooms removes (λ y h. (
              ap (λ (q : Room). q.owner_id) (sym (some_eq h)),
              subst (λ (q : Room). IsRoom (record l { store = after }) room_id q) (some_eq h) order,
            )))
    ]
