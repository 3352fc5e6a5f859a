-- ===== src/Room/Members/Steps/Creation.antt =====
-- The steps of `createRoom` keep the rooms and the players' keys in order.
use mobile_final_project.Base.{
  String, ◌≡◌, ◌≢◌, refl, sym, ap, ◌∙◌, subst, Option, none, some, inl, inr, assign, assign_self,
  assign_ne, text_cases, some_eq,
}
use mobile_final_project.Room.Types.{Room}
use mobile_final_project.Room.Store.{whole, room_of, room_at, put_user, put_room}
use mobile_final_project.Room.Members.{
  Creating, idle, slot_claimed, room_written, Lobby, pending, set_creating, new_room, IsFresh,
  IsRoom, IsLobby,
}
use mobile_final_project.Room.Members.Frames.{
  assign_keeps, assign_gains, set_creating_self, set_creating_ne, set_creating_gains,
  set_creating_keeps, Frame-IsRoom,
}
use mobile_final_project.Room.Members.Scripts.{not_there}
use mobile_final_project.Room.Members.Steps.{room_cases, room_key, frames-IsLobby}

written_eq : {a b : String} → room_written a ≡ room_written b → a ≡ b
written_eq h = cc

claimed_written : {a : String} → slot_claimed ≡ room_written a → ⊥
claimed_written h = cc

claimed_idle : slot_claimed ≡ idle → ⊥
claimed_idle h = cc

written_idle : {a : String} → room_written a ≡ idle → ⊥
written_idle h = cc

idle_written : {a : String} → idle ≡ room_written a → ⊥
idle_written h = cc

-- A player whose key is free is not creating a room.
pub free_idle :
    (l : Lobby) (user : String) (c : Creating)
    → IsLobby l
    → l.store.users user ≡ none
    → c ≢ idle
    → l.creating user ≢ c
free_idle l user c ok free d h = not_there (sym free ∙ (ok.key_pending user (λ e. d (sym h ∙ e))).1)

pub claim_slot-IsLobby :
    (l : Lobby) (user : String)
    → IsLobby l
    → user ≢ ""
    → l.store.users user ≡ none
    → IsLobby (record {
      store = put_user user (some pending) l.store;
      creating = set_creating user slot_claimed l.creating;
    })
claim_slot-IsLobby l user ok named free =
    let new : Lobby = record {
      store = put_user user (some pending) l.store;
      creating = set_creating user slot_claimed l.creating;
    } in
    let keep = λ (v x : String).
      assign_keeps user (some pending) l.store.users v x (λ h. not_there (sym free ∙ h)) in
    let made = λ (x k : String).
      set_creating_gains user x slot_claimed l.creating (room_written k) claimed_written in
    frames-IsLobby l new ok refl
      (λ k r h. record {
        keep = keep k;
        own = λ x o. elim o [
          | inl i ↦ inl (keep k x i)
          | inr (i, w) ↦ inr (
            keep pending x i,
            set_creating_keeps user x slot_claimed l.creating (room_written k)
                (free_idle l user (room_written k) ok free written_idle) w,
          )
        ];
        gain = λ x i. inl (
            assign_gains user (some pending) l.store.users k x
              (λ e. room_key l k r ok h (sym (some_eq e))) i);
        made = λ x. made x k;
      })
      (λ x h. elim (text_cases x user) [
        | inl (e, t) ↦ (
          (λ i. named (sym e ∙ i)),
          ap new.store.users e ∙ assign_self user (some pending) l.store.users,
        )
        | inr (n, t) ↦
            let old =
              ok.key_pending x (λ e. h (set_creating_ne user x slot_claimed l.creating n ∙ e)) in
            (old.0, keep pending x old.1)
      ])
      made

-- A player who ends the creation at a stage `c`, its key set to `o`.
module _ (l : Lobby) (user : String) (o : Option String) (ok : IsLobby l) where
  abbrev ended : Lobby
  ended = record { store = put_user user o l.store; creating = set_creating user idle l.creating }

  ended_keys :
      (x : String) → ended.creating x ≢ idle → (x ≢ "") × (ended.store.users x ≡ some pending)
  ended_keys x h = elim (text_cases x user) [
    | inl (e, t) ↦ absurd (h (ap ended.creating e ∙ set_creating_self user idle l.creating))
    | inr (n, t) ↦
        let old = ok.key_pending x (λ e. h (set_creating_ne user x idle l.creating n ∙ e)) in
        (old.0, assign_ne user x o l.store.users n ∙ old.1)
  ]

  ended_made : (x k : String) → ended.creating x ≡ room_written k → l.creating x ≡ room_written k
  ended_made x k = set_creating_gains user x idle l.creating (room_written k) idle_written

  ended_keep :
      (k x : String)
      → l.store.users user ≡ some pending
      → k ≢ pending
      → l.store.users x ≡ some k
      → ended.store.users x ≡ some k
  ended_keep k x key named =
      assign_keeps user o l.store.users k x (λ h. named (some_eq (sym h ∙ key)))

pub map_owner-IsLobby :
    (l : Lobby) (user room_id : String)
    → IsLobby l
    → l.creating user ≡ room_written room_id
    → IsLobby (record {
      store = put_user user (some room_id) l.store;
      creating = set_creating user idle l.creating;
    })
map_owner-IsLobby l user room_id ok stage =
    let key = (ok.key_pending user (λ e. written_idle (sym stage ∙ e))).1 in
    let m = l.store.users in
    frames-IsLobby l (ended l user (some room_id) ok) ok refl
      (λ k r h. record {
        keep = λ x. ended_keep l user (some room_id) ok k x key (room_key l k r ok h);
        own = λ x o. elim o [
          | inl i ↦ inl (ended_keep l user (some room_id) ok k x key (room_key l k r ok h) i)
          | inr (i, w) ↦ elim (text_cases x user) [
            | inl (e, t) ↦ inl (
                ap (assign user (some room_id) m) e
                ∙ assign_self user (some room_id) m
                ∙ ap (λ y. some y) (written_eq (sym stage ∙ sym (ap l.creating e) ∙ w)))
            | inr (n, t) ↦ inr (
              assign_ne user x (some room_id) m n ∙ i,
              set_creating_ne user x idle l.creating n ∙ w,
            )
          ]
        ];
        gain = λ x i. elim (text_cases x user) [
          | inl (e, t) ↦ inr (
              ap l.creating e
              ∙ stage
              ∙ ap room_written (
                  some_eq (
                    sym (assign_self user (some room_id) m)
                    ∙ sym (ap (assign user (some room_id) m) e)
                    ∙ i)))
          | inr (n, t) ↦ inl (sym (assign_ne user x (some room_id) m n) ∙ i)
        ];
        made = λ x. ended_made l user (some room_id) ok x k;
      })
      (ended_keys l user (some room_id) ok) (ended_made l user (some room_id) ok)

pub give_up-IsLobby :
    (l : Lobby) (user : String)
    → IsLobby l
    → l.creating user ≡ slot_claimed
    → IsLobby (record {
      store = put_user user none l.store;
      creating = set_creating user idle l.creating;
    })
give_up-IsLobby l user ok stage =
    let key = (ok.key_pending user (λ e. claimed_idle (sym stage ∙ e))).1 in
    frames-IsLobby l (ended l user none ok) ok refl
      (λ k r h. record {
        keep = λ x. ended_keep l user none ok k x key (room_key l k r ok h);
        own = λ x o. elim o [
          | inl i ↦ inl (ended_keep l user none ok k x key (room_key l k r ok h) i)
          | inr (i, w) ↦
              let other : x ≢ user = λ e. claimed_written (sym stage ∙ sym (ap l.creating e) ∙ w) in
              inr (
                assign_ne user x none l.store.users other ∙ i,
                set_creating_ne user x idle l.creating other ∙ w,
              )
        ];
        gain = λ x i. inl (assign_gains user none l.store.users k x not_there i);
        made = λ x. ended_made l user none ok x k;
      })
      (ended_keys l user none ok) (ended_made l user none ok)

pub write_room-IsLobby :
    (l : Lobby) (user room_id join_code : String)
    → IsLobby l
    → l.creating user ≡ slot_claimed
    → IsFresh room_id l
    → IsLobby (record {
      store = put_room room_id (new_room room_id join_code user) l.store;
      creating = set_creating user (room_written room_id) l.creating;
    })
unfolding room_at
write_room-IsLobby l user room_id join_code ok stage fresh =
    let r : Room = new_room room_id join_code user in
    let new : Lobby = record {
      store = put_room room_id r l.store;
      creating = set_creating user (room_written room_id) l.creating;
    } in
    let key = ok.key_pending user (λ e. claimed_idle (sym stage ∙ e)) in
    let made = λ (x k : String) (n : x ≢ user) (h : new.creating x ≡ room_written k).
      sym (set_creating_ne user x (room_written room_id) l.creating n) ∙ h in
    let created : IsRoom new room_id r = record {
      has_id = refl;
      owner_named = key.0;
      not_self = λ e. key.0 (sym e);
      owner_in = λ h. inr (key.1, set_creating_self user (room_written room_id) l.creating);
      guest_in = λ h g. absurd (g refl);
      alone = λ h. refl;
      both = λ h. cc;
      gone = λ h. cc;
      settled = λ h. cc;
    } in
    record {
      each_room = λ k x h. elim (room_cases room_id k (some (whole r)) l.store.rooms x h) [
        | inl (e, i) ↦
            subst (λ (y : Room). IsRoom new k y) (some_eq i)
              (subst (λ j. IsRoom new j r) (sym e) created)
        | inr (n, i) ↦ Frame-IsRoom l new k x ok i (record {
          keep = λ y j. j;
          own = λ y o. elim o [
            | inl j ↦ inl j
            | inr (j, w) ↦ inr (
              j,
              set_creating_keeps user y (room_written room_id) l.creating (room_written k)
                  (λ e. claimed_written (sym stage ∙ e)) w,
            )
          ];
          gain = λ y j. inl j;
          made = λ y.
              set_creating_gains user y (room_written room_id) l.creating (room_written k)
                (λ e. n (sym (written_eq e)));
        })
      ];
      key_pending = λ x h. elim (text_cases x user) [
        | inl (e, t) ↦ ((λ i. key.0 (sym e ∙ i)), ap l.store.users e ∙ key.1)
        | inr (n, t) ↦
            ok.key_pending x
              (λ e. h (set_creating_ne user x (room_written room_id) l.creating n ∙ e))
      ];
      writes = λ x k h. elim (text_cases x user) [
        | inl (e, t) ↦ λ i. fresh.not_pending (
            written_eq (
              sym (set_creating_self user (room_written room_id) l.creating)
              ∙ sym (ap new.creating e)
              ∙ h)
            ∙ i)
        | inr (n, t) ↦ ok.writes x k (made x k n h)
      ];
      own_room = λ x k y h i. elim (text_cases x user) [
        | inl (e, t) ↦ elim (room_cases room_id k (some (whole r)) l.store.rooms y i) [
          | inl (d, j) ↦ ap (λ (q : Room). q.owner_id) (sym (some_eq j)) ∙ sym e
          | inr (d, j) ↦ absurd (
              d (
                sym (
                  written_eq (
                    sym (set_creating_self user (room_written room_id) l.creating)
                    ∙ sym (ap new.creating e)
                    ∙ h))))
        ]
        | inr (n, t) ↦ elim (room_cases room_id k (some (whole r)) l.store.rooms y i) [
          | inl (d, j) ↦ absurd (fresh.no_creator x (made x k n h ∙ ap room_written d))
          | inr (d, j) ↦ ok.own_room x k y (made x k n h) j
        ]
      ];
      no_pending =
          ap room_of (
            assign_ne room_id pending (some (whole r)) l.store.rooms
              (λ e. fresh.not_pending (sym e)))
          ∙ ok.no_pending;
    }
