-- ===== src/Room/Members/Frames.antt =====
-- What a step may do to the keys of the players while a room stays as it is.
use mobile_final_project.Base.{
  String, ◌≡◌, ◌≢◌, refl, sym, ap, ◌∙◌, Option, some, ◌⊎◌, inl, inr, Table, assign, assign_self,
  assign_ne, text_cases, text_eq_refl,
}
use mobile_final_project.Room.Types.{Room}
use mobile_final_project.Room.Store.{room_at}
use mobile_final_project.Room.Members.{
  Creating, room_written, Lobby, set_creating, OwnsKey, IsRoom, IsLobby,
}

-- A value that no key of the change held before is kept where it was.
pub assign_keeps :
    (u : String) (o : Option String) (m : Table String) (v x : String)
    → m u ≢ some v
    → m x ≡ some v
    → assign u o m x ≡ some v
assign_keeps u o m v x old h = elim (text_cases x u) [
  | inl (e, t) ↦ absurd (old (sym (ap m e) ∙ h))
  | inr (n, t) ↦ assign_ne u x o m n ∙ h
]

-- A value that the change does not write is found only where it was.
pub assign_gains :
    (u : String) (o : Option String) (m : Table String) (v x : String)
    → o ≢ some v
    → assign u o m x ≡ some v
    → m x ≡ some v
assign_gains u o m v x new h = elim (text_cases x u) [
  | inl (e, t) ↦ absurd (new (sym (assign_self u o m) ∙ sym (ap (assign u o m) e) ∙ h))
  | inr (n, t) ↦ sym (assign_ne u x o m n) ∙ h
]

pub set_creating_self :
    (u : String) (c : Creating) (f : String → Creating) → set_creating u c f u ≡ c
unfolding set_creating
set_creating_self u c f = rw (text_eq_refl u) refl

pub set_creating_ne :
    (u x : String) (c : Creating) (f : String → Creating) → x ≢ u → set_creating u c f x ≡ f x
unfolding set_creating
set_creating_ne u x c f h = elim (text_cases x u) [
  | inl (e, t) ↦ absurd (h e)
  | inr (n, t) ↦ rw t refl
]

-- A stage that the change does not write is found only where it was.
pub set_creating_gains :
    (u x : String) (c : Creating) (f : String → Creating) (d : Creating)
    → c ≢ d
    → set_creating u c f x ≡ d
    → f x ≡ d
set_creating_gains u x c f d new h = elim (text_cases x u) [
  | inl (e, t) ↦ absurd (new (sym (set_creating_self u c f) ∙ sym (ap (set_creating u c f) e) ∙ h))
  | inr (n, t) ↦ sym (set_creating_ne u x c f n) ∙ h
]

-- A stage that the change does not overwrite is kept.
pub set_creating_keeps :
    (u x : String) (c : Creating) (f : String → Creating) (d : Creating)
    → f u ≢ d
    → f x ≡ d
    → set_creating u c f x ≡ d
set_creating_keeps u x c f d old h = elim (text_cases x u) [
  | inl (e, t) ↦ absurd (old (sym (ap f e) ∙ h))
  | inr (n, t) ↦ set_creating_ne u x c f n ∙ h
]

pub record Frame (l l' : Lobby) (room_id : String) : Type 0 where
  pub keep : (x : String) → l.store.users x ≡ some room_id → l'.store.users x ≡ some room_id
  pub own : (x : String) → OwnsKey l room_id x → OwnsKey l' room_id x
  pub gain :
      (x : String)
      → l'.store.users x ≡ some room_id
      → (l.store.users x ≡ some room_id) ⊎ (l.creating x ≡ room_written room_id)
  pub made :
      (x : String) → l'.creating x ≡ room_written room_id → l.creating x ≡ room_written room_id

-- A room that stays as it is stays in order.
pub Frame-IsRoom :
    (l l' : Lobby) (room_id : String) (r : Room)
    → IsLobby l
    → room_at l.store room_id ≡ some r
    → Frame l l' room_id
    → IsRoom l' room_id r
Frame-IsRoom l l' room_id r ok there f =
    let i = ok.each_room room_id r there in
    record {
      has_id = i.has_id;
      owner_named = i.owner_named;
      not_self = i.not_self;
      owner_in = λ m. f.own r.owner_id (i.owner_in m);
      guest_in = λ m g. f.keep r.guest_id (i.guest_in m g);
      alone = i.alone;
      both = i.both;
      gone = λ m. (
        (λ h. elim (f.gain r.owner_id h) [ inl k ↦ (i.gone m).0 k | inr k ↦ i.settled m k ]),
        (λ h. elim (f.gain r.guest_id h) [
          | inl k ↦ (i.gone m).1 k
          | inr k ↦ i.not_self (sym (ok.own_room r.guest_id room_id r k there))
        ]),
      );
      settled = λ m h. i.settled m (f.made r.owner_id h);
    }

-- Where neither the keys nor the stages change, every room has its frame.
pub Frame-refl :
    (l l' : Lobby) (room_id : String)
    → l'.store.users ≡ l.store.users
    → l'.creating ≡ l.creating
    → Frame l l' room_id
Frame-refl l l' room_id u c = record {
  keep = λ x h. ap (λ (m : Table String). m x) u ∙ h;
  own = λ x h. elim h [
    | inl k ↦ inl (ap (λ (m : Table String). m x) u ∙ k)
    | inr (k, w) ↦
        inr (ap (λ (m : Table String). m x) u ∙ k, ap (λ (m : String → Creating). m x) c ∙ w)
  ];
  gain = λ x h. inl (sym (ap (λ (m : Table String). m x) u) ∙ h);
  made = λ x h. sym (ap (λ (m : String → Creating). m x) c) ∙ h;
}
