-- ===== src/Room/Members/Single.antt =====
-- What holds in every lobby that the steps reach: a player is in one room at most.
use mobile_final_project.Base.{
  String, ◌≡◌, ◌≢◌, refl, sym, ap, ◌∙◌, none, some, ◌⊎◌, inl, inr, ◌↔◌, some_eq, assign,
}
use mobile_final_project.Room.Types.{RoomStatus, waiting, full, matched, Room}
use mobile_final_project.Room.Store.{room_at, room_match_abort}
use mobile_final_project.Room.Members.{
  room_written, Lobby, pending, IsRoom, IsLobby, Step, IsTimely, AreTimely, claim_slot, claim_code,
  write_room, map_owner, give_up, join, leave, forget, claim_match, match_done, abort, Reach, here,
  step_on, empty_lobby, IsMember,
}
use mobile_final_project.Room.Members.Scripts.{not_there, room_start_match-keeps}
use mobile_final_project.Room.Members.Removal.{Removes-assign, Removes-keeps, Removes-gains}
use mobile_final_project.Room.Members.Steps.{frames-IsLobby, same-IsLobby}
use mobile_final_project.Room.Members.Steps.Creation.{
  claim_slot-IsLobby, map_owner-IsLobby, give_up-IsLobby, write_room-IsLobby,
}
use mobile_final_project.Room.Members.Steps.Updates.{
  join-IsLobby, leave-IsLobby, match_done-IsLobby,
}

empty-IsLobby : IsLobby empty_lobby
unfolding room_at
empty-IsLobby = record {
  each_room = λ k r h. absurd (not_there h);
  key_pending = λ x h. absurd (h refl);
  writes = λ x k h. cc;
  own_room = λ x k r h i. absurd (not_there i);
  no_pending = refl;
}

forget-IsLobby :
    (l : Lobby) (user room_id : String)
    → IsLobby l
    → l.store.users user ≡ some room_id
    → room_id ≢ pending
    → room_at l.store room_id ≡ none
    → IsLobby (record l { store = record l.store { users = assign user none l.store.users } })
forget-IsLobby l user room_id ok key named gone =
    let m = l.store.users in
    let removes = Removes-assign room_id user m key in
    let keep = λ (v x : String) (n : room_id ≢ v) (h : m x ≡ some v).
      Removes-keeps room_id v x m (assign user none m) removes n h in
    frames-IsLobby l (record l { store = record l.store { users = assign user none m } }) ok refl
      (λ k r h.
        let other : room_id ≢ k = λ e. not_there (sym gone ∙ ap (room_at l.store) e ∙ h) in
        record {
          keep = λ x. keep k x other;
          own = λ x o. elim o [
            | inl i ↦ inl (keep k x other i)
            | inr (i, w) ↦ inr (keep pending x named i, w)
          ];
          gain = λ x i. inl (Removes-gains room_id k x m (assign user none m) removes i);
          made = λ x i. i;
        })
      (λ x h. let old = ok.key_pending x h in (old.0, keep pending x named old.1)) (λ x k h. h)

pub Step-IsLobby : (l m : Lobby) → IsLobby l → (s : Step l m) → IsTimely s → IsLobby m
unfolding room_match_abort
Step-IsLobby l m ok (claim_slot user named free) now = claim_slot-IsLobby l user ok named free
Step-IsLobby l m ok (claim_code join_code room_id free) now = same-IsLobby l m ok refl refl refl
Step-IsLobby l m ok (write_room user room_id join_code stage fresh) now =
    write_room-IsLobby l user room_id join_code ok stage fresh
Step-IsLobby l m ok (map_owner user room_id stage) now = map_owner-IsLobby l user room_id ok stage
Step-IsLobby l m ok (give_up user stage) now = give_up-IsLobby l user ok stage
Step-IsLobby l m ok (join user room_id named) now = join-IsLobby l user room_id ok named
Step-IsLobby l m ok (leave user room_id) key = leave-IsLobby l user room_id ok key
Step-IsLobby l m ok (forget user room_id named) (key, gone) =
    forget-IsLobby l user room_id ok key named gone
Step-IsLobby l m ok (claim_match room_id token) now =
    let k = room_start_match-keeps room_id token l.store in same-IsLobby l m ok k.0 k.1 refl
Step-IsLobby l m ok (match_done room_id match_id r named) (there, whole, settled) =
    match_done-IsLobby l room_id match_id r ok there settled
Step-IsLobby l m ok (abort room_id token) now = same-IsLobby l m ok refl refl refl

pub Reach-IsLobby : (l m : Lobby) → IsLobby l → (run : Reach l m) → AreTimely run → IsLobby m
Reach-IsLobby l m ok here now = ok
Reach-IsLobby l m ok (step_on {m = n} run s) (before, now) =
    Step-IsLobby n m (Reach-IsLobby l n ok run before) s now

-- What the key of a member says.
abbrev KeyNames : Lobby → String → String → Type 0
KeyNames l user k =
    (k ≢ pending)
    × ((l.store.users user ≡ some k)
        ⊎ ((l.store.users user ≡ some pending) × (l.creating user ≡ room_written k)))

member_key : (l : Lobby) (user k : String) → IsLobby l → IsMember l user k → KeyNames l user k
member_key l user k ok (named, (r, there, playing, seat)) =
    let i = ok.each_room k r there in
    let not_pending : k ≢ pending =
      λ e. not_there (sym ok.no_pending ∙ sym (ap (room_at l.store) e) ∙ there) in
    (
      not_pending,
      elim seat [
        | inl e ↦ elim (i.owner_in playing) [
          | inl h ↦ inl (ap l.store.users (sym e) ∙ h)
          | inr (h, w) ↦ inr (ap l.store.users (sym e) ∙ h, ap l.creating (sym e) ∙ w)
        ]
        | inr e ↦ inl (ap l.store.users (sym e) ∙ i.guest_in playing (λ g. named (sym e ∙ g)))
      ],
    )

written_eq : {a b : String} → room_written a ≡ room_written b → a ≡ b
written_eq h = cc

KeyNames-unique : (l : Lobby) (user j k : String) → KeyNames l user j → KeyNames l user k → j ≡ k
KeyNames-unique l user j k (p, inl h) (q, inl i) = some_eq (sym h ∙ i)
KeyNames-unique l user j k (p, inl h) (q, inr (i, v)) = absurd (p (some_eq (sym h ∙ i)))
KeyNames-unique l user j k (p, inr (h, w)) (q, inl i) = absurd (q (some_eq (sym i ∙ h)))
KeyNames-unique l user j k (p, inr (h, w)) (q, inr (i, v)) = written_eq (sym w ∙ v)

-- If the steps of the players' requests, interleaved in any order from an empty store on, are
-- timely, then a player is the owner or the guest of at most one room that has not gone to its
-- match. Timely means: a leave acts on the room that the player's key names then, `getMyRoom` and
-- `leaveRoom` delete a key only while it names the gone room that they have read, and a hand-off
-- ends with the players that the room has then. The code does not enforce this.
pub one_room_each :
    (l : Lobby) (user j k : String)
    → (run : Reach empty_lobby l) → AreTimely run
    → IsMember l user j
    → IsMember l user k
    → j ≡ k
one_room_each l user j k run now a b =
    let ok = Reach-IsLobby empty_lobby l empty-IsLobby run now in
    KeyNames-unique l user j k (member_key l user j ok a) (member_key l user k ok b)

status_full :
    (l : Lobby) (k : String) (r : Room)
    → IsRoom l k r
    → (s : RoomStatus) → r.status ≡ s
    → s ≢ matched
    → r.guest_id ≢ ""
    → r.status ≡ full
status_full l k r i waiting e n g = absurd (g (i.alone e))
status_full l k r i full e n g = e
status_full l k r i matched e n g = absurd (n refl)

-- If the steps of the players' requests, interleaved in any order from an empty store on, are
-- timely, which the code does not enforce, then a room that has not gone to its match is full
-- exactly if it has a guest, its owner is not its guest, and the guest's key names it. Timely means
-- that a leave, the deletion of a key after its room was found gone, and the end of a hand-off act
-- on what holds when the step is taken.
pub room_full_iff :
    (l : Lobby) (k : String) (r : Room)
    → (run : Reach empty_lobby l) → AreTimely run
    → room_at l.store k ≡ some r
    → r.status ≢ matched
    → ((r.status ≡ full) ↔ (r.guest_id ≢ ""))
      × (r.guest_id ≢ r.owner_id)
      × (r.guest_id ≢ "" → l.store.users r.guest_id ≡ some k)
room_full_iff l k r run now there playing =
    let i = (Reach-IsLobby empty_lobby l empty-IsLobby run now).each_room k r there in
    ((i.both, status_full l k r i r.status refl playing), i.not_self, i.guest_in playing)
