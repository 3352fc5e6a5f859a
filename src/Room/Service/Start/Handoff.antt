-- ===== src/Room/Service/Start/Handoff.antt =====
-- What the hand-off of a room to its match leaves, and that a room gets one match only.
use mobile_final_project.Base.{
  String, ◌≡◌, ◌≢◌, refl, sym, ap, ◌∙◌, Option, none, some, ◌⊎◌, inl, inr, text_cases, str_eq, ◌||◌,
  Bool-cases, is_some, absent_of, assign, assign_self, assign_ne, Table,
}
use mobile_final_project.Room.Types.{Room, full, same_status}
use mobile_final_project.Room.Store.{
  RoomStore, RoomHash, whole, stub, room_at, recorded_match, with_match, delete_if, room_match_done,
  room_start_match, ClaimReply, claimed, claim_for, claim_room_of,
}
use mobile_final_project.Room.Members.Removal.{delete_if_cases}
use mobile_final_project.Room.Requests.{}
use mobile_final_project.Room.Service.Start.{}

-- The match of a room once the script has written one.
recorded_with :
    (o : Option RoomHash) (match_id : String)
    → recorded_match (some (with_match o match_id)) ≡ match_id
recorded_with none m = refl
recorded_with (some (whole r)) m = refl
recorded_with (some (stub x)) m = refl

-- The match that the script answers is the one that the store then has.
pub done_recorded :
    (room_id join_code owner guest match_id : String) (s : RoomStore)
    → recorded_match ((room_match_done room_id join_code owner guest match_id s).1.rooms room_id)
      ≡ (room_match_done room_id join_code owner guest match_id s).0
unfolding room_match_done
done_recorded room_id join_code owner guest match_id s =
    elim (text_cases (recorded_match (s.rooms room_id)) "") [
      | inr (n, t) ↦ rw t refl
      | inl (e, t) ↦ rw t (
          ap recorded_match
            (assign_self room_id (some (with_match (s.rooms room_id) match_id)) s.rooms)
          ∙ recorded_with (s.rooms room_id) match_id)
    ]

-- A room that has a match keeps it: the script answers it and changes nothing.
done_again :
    (room_id join_code owner guest match_id : String) (s : RoomStore)
    → recorded_match (s.rooms room_id) ≢ ""
    → room_match_done room_id join_code owner guest match_id s
      ≡ (recorded_match (s.rooms room_id), s)
unfolding room_match_done
done_again room_id join_code owner guest match_id s h =
    elim (text_cases (recorded_match (s.rooms room_id)) "") [
      | inl (e, t) ↦ absurd (h e)
      | inr (n, t) ↦ rw t refl
    ]

-- Once room_match_done.lua has answered a match for a room, a second run for the room, whatever
-- match and players it is given, answers the same match and changes nothing.
pub room_match_done_once :
    (room_id code1 owner1 guest1 match1 code2 owner2 guest2 match2 : String) (s : RoomStore)
    → (room_match_done room_id code1 owner1 guest1 match1 s).0 ≢ ""
    → room_match_done room_id code2 owner2 guest2 match2
        (room_match_done room_id code1 owner1 guest1 match1 s).1
      ≡ room_match_done room_id code1 owner1 guest1 match1 s
room_match_done_once room_id code1 owner1 guest1 match1 code2 owner2 guest2 match2 s h =
    let first = room_match_done room_id code1 owner1 guest1 match1 s in
    let same = done_recorded room_id code1 owner1 guest1 match1 s in
    done_again room_id code2 owner2 guest2 match2 first.1 (λ e. h (sym same ∙ e))
    ∙ ap (λ (x : String). (x, first.1)) same

-- The claim is taken, or nothing changes.
abbrev pub Claims : String → String → RoomStore → ClaimReply × RoomStore → Type 0
Claims room_id token s p =
    ((owner guest : String) × (p.0 ≡ claimed owner guest)
      × (s.claims room_id ≡ none)
      × (p.1 ≡ record s { claims = assign room_id (some token) s.claims }))
    ⊎ ((p.1 ≡ s) × ((owner guest : String) → p.0 ≢ claimed owner guest))

pub room_start_match-Claims :
    (room_id token : String) (s : RoomStore)
    → Claims room_id token s (room_start_match room_id token s)
unfolding room_start_match claim_for
room_start_match-Claims room_id token s = go (room_at s room_id)
  where
    go : (o : Option Room) → Claims room_id token s (claim_room_of o room_id token s)
    go none = inr (refl, λ a b h. cc)
    go (some r) = elim (Bool-cases (same_status r.status full)) [
      | inr f ↦ rw f (inr (refl, λ a b h. cc))
      | inl f ↦ elim (Bool-cases (str_eq r.owner_id "" || str_eq r.guest_id "")) [
        | inl b ↦ rw f (rw b (inr (refl, λ a b h. cc)))
        | inr b ↦ elim (Bool-cases (is_some (s.claims room_id))) [
          | inl c ↦ rw f (rw b (rw c (inr (refl, λ a b h. cc))))
          | inr c ↦ rw f (
              rw b
                (rw c (inl (r.owner_id, r.guest_id, refl, absent_of (s.claims room_id) c, refl))))
        ]
      ]
    ]

-- A claim that is given up leaves the claims as they were before it.
pub released :
    (room_id token : String) (s : RoomStore) (k : String)
    → s.claims room_id ≡ none
    → delete_if room_id token (assign room_id (some token) s.claims) k ≡ s.claims k
released room_id token s k h =
    let m = assign room_id (some token) s.claims in
    elim (delete_if_cases room_id token m) [
      | inr (n, e) ↦ absurd (n (assign_self room_id (some token) s.claims))
      | inl (i, e) ↦ elim (text_cases k room_id) [
        | inl (d, t) ↦
            ap (λ (f : Table String). f k) e
            ∙ ap (assign room_id none m) d
            ∙ assign_self room_id none m
            ∙ sym h
            ∙ ap s.claims (sym d)
        | inr (d, t) ↦
            ap (λ (f : Table String). f k) e
            ∙ assign_ne room_id k none m d
            ∙ assign_ne room_id k (some token) s.claims d
      ]
    ]
