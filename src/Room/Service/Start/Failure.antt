-- ===== src/Room/Service/Start/Failure.antt =====
-- A hand-off that fails leaves the room as it was, where no other request runs meanwhile.
use mobile_final_project.Base.{
  ℕ, suc, String, ◌≡◌, ◌≢◌, refl, sym, ap, subst, Option, none, some, inl, inr, assign, List,
}
use mobile_final_project.Room.Types.{RoomView, matched}
use mobile_final_project.Room.Store.{
  RoomStore, recorded_match, room_match_abort, room_start_match, ClaimReply, claimed, claim_missing,
  claim_not_full, claim_invalid, claim_held,
}
use mobile_final_project.Room.Requests.{
  Run, RoomMessage, quiet, Reply, done, thrown, RoomError, Action, throw, room_match_starting,
  room_not_waiting,
}
use mobile_final_project.Room.Requests.Rules.{Ends, bind_ends}
use mobile_final_project.Room.Service.{Outside, named_room, load_room_if_exists, load_named}
use mobile_final_project.Room.Service.Start.{
  finish_room_match, or_active, match_for, find_orphan, finish_for, with_orphan, create_room_match,
  not_claimed, after_claim, claim_match_for, start_room_match,
}
use mobile_final_project.Room.Service.Start.Handoff.{
  done_recorded, room_start_match-Claims, released,
}

-- Rooms, codes, keys of players, claims and messages are as they were.
abbrev pub Restored : Run → Run → Type 0
Restored run after =
    (after.store.rooms ≡ run.store.rooms)
    × (after.store.codes ≡ run.store.codes)
    × (after.store.users ≡ run.store.users)
    × ((k : String) → after.store.claims k ≡ run.store.claims k)
    × (after.sent ≡ run.sent)

-- The view shows the room matched, with the match that the store has for it.
abbrev pub Finished : RoomView → Run → Type 0
Finished v after =
    (v.status ≡ matched) × (v.match_id ≡ some (recorded_match (after.store.rooms v.room_id)))

-- Both at once: what the answer shows, or that nothing has changed.
abbrev pub IsHandoff : Run → Reply RoomView × Run → Type 0
IsHandoff run p = Ends Finished (λ e after. Restored run after) p

finish_ends :
    (run now : Run) (v : RoomView) (match_id : String)
    → IsHandoff run (finish_room_match v match_id quiet now)
unfolding finish_room_match
finish_ends run now v match_id = (
  refl,
  ap (λ (x : String). some x)
      (sym (done_recorded v.room_id v.join_code v.owner_id _ match_id now.store)),
)

-- A room that has a match already is finished again.
resume_ends :
    (run now : Run) (v : RoomView) (e : RoomError)
    → Restored run now
    → IsHandoff run (not_claimed v e quiet now)
resume_ends run now v e k = go v.match_id
  where
    go :
        (o : Option String)
        → IsHandoff run (
            (elim o as (λ x. Action RoomView) [
              | none ↦ throw e
              | some match_id ↦ finish_room_match v match_id
            ])
              quiet now)
    go none = k
    go (some match_id) = finish_ends run now v match_id

module _ (outside : Outside)
    (steady : (user : String) (clock : ℕ)
      → (found : Option String) × (outside.active_match user clock ≡ done found))
    (run : Run) (room_id token : String) (free : run.store.claims room_id ≡ none) where
  -- The claim is held and nothing else has changed.
  abbrev Held : Run → Type 0
  Held now =
      (now.store ≡ record run.store { claims = assign room_id (some token) run.store.claims })
      × (now.sent ≡ run.sent)

  orphan_ends :
      (owner guest : String) (now : Run)
      → Held now
      → Ends
          (λ orphan after. Held after)
          (λ e after. Restored run after)
          (find_orphan outside owner guest quiet now)
  unfolding find_orphan
  orphan_ends owner guest now h =
      let (first, e) = steady owner now.clock in
      let next = λ (o : Option String).
        or_active outside o guest quiet (record now { clock = suc now.clock }) in
      rw e (go first)
    where
      go :
          (first : Option String)
          → Ends
              (λ orphan after. Held after)
              (λ e after. Restored run after)
              (or_active outside first guest quiet (record now { clock = suc now.clock }))
      go (some match_id) = h
      go none = let (second, e) = steady guest (suc now.clock) in rw e h

  -- A claim that is given up.
  undo :
      (clock : ℕ) (sent : List RoomMessage)
      → sent ≡ run.sent
      → Restored run (record {
        store =
            room_match_abort room_id token
              (record run.store { claims = assign room_id (some token) run.store.claims });
        clock = clock;
        sent = sent;
      })
  unfolding room_match_abort
  undo clock sent h = (refl, refl, refl, (λ k. released room_id token run.store k free), h)

  match_ends :
      (orphan : Option String) (owner guest : String) (now : Run)
      → Held now
      → Ends
          (λ match_id after. Held after)
          (λ e after. Restored run after)
          (match_for outside orphan room_id owner guest token quiet now)
  match_ends (some orphan) owner guest now h = h
  match_ends none owner guest now (store, sent) = go (outside.pair_players owner guest now.clock)
    where
      read : Run
      read = record now { clock = suc now.clock }

      undone : RoomStore → Run
      undone s = record now {
        store = room_match_abort room_id token s;
        clock = suc (suc now.clock);
      }

      go :
          (r : Reply String)
          → Ends
              (λ match_id after. Held after)
              (λ e after. Restored run after)
              (elim r as (λ x. Reply String × Run) [
                | done x ↦ (done x, read)
                | thrown e ↦ (thrown e, undone now.store)
              ])
      go (done match_id) = (store, sent)
      go (thrown e) =
          subst (λ (s : RoomStore). Restored run (undone s)) (sym store)
            (undo (suc (suc now.clock)) now.sent sent)

  create_ends :
      (owner guest : String) (view : Option RoomView) (now : Run)
      → Held now
      → IsHandoff run (create_room_match outside room_id owner guest token view quiet now)
  unfolding create_room_match
  create_ends owner guest view now h =
      let E = λ (e : RoomError) (after : Run). Restored run after in
      bind_ends (λ (o : Option String) (after : Run). Held after) Finished E quiet
        (find_orphan outside owner guest) (with_orphan outside room_id owner guest token view) now
        (orphan_ends owner guest now h)
        (λ orphan after i.
          bind_ends (λ (x : String) (end : Run). Held end) Finished E quiet
            (match_for outside orphan room_id owner guest token)
            (finish_for room_id owner guest view) after (match_ends orphan owner guest after i)
            (λ match_id end j. finish_ends run end _ match_id))

-- A request that found the claim taken, or no room to claim.
refused_ends :
    (outside : Outside) (run now : Run) (room_id token : String) (view : Option RoomView)
    (reply : ClaimReply)
    → ((owner guest : String) → reply ≢ claimed owner guest)
    → Restored run now
    → IsHandoff run (after_claim outside room_id token view reply quiet now)
refused_ends outside run now room_id token view (claimed owner guest) n k =
    absurd (n owner guest refl)
refused_ends outside run now room_id token view claim_missing n k = k
refused_ends outside run now room_id token none claim_not_full n k = k
refused_ends outside run now room_id token none claim_invalid n k = k
refused_ends outside run now room_id token none claim_held n k = k
refused_ends outside run now room_id token (some v) claim_not_full n k =
    resume_ends run now v room_not_waiting k
refused_ends outside run now room_id token (some v) claim_invalid n k =
    resume_ends run now v room_not_waiting k
refused_ends outside run now room_id token (some v) claim_held n k =
    resume_ends run now v room_match_starting k

module _ (outside : Outside)
    (steady : (user : String) (clock : ℕ)
      → (found : Option String) × (outside.active_match user clock ≡ done found)) where
  claim_ends :
      (run now : Run) (room_id : String) (view : Option RoomView)
      → now.store ≡ run.store
      → now.sent ≡ run.sent
      → IsHandoff run (claim_match_for outside room_id view quiet now)
  claim_ends run now room_id view store sent =
      let token = outside.random_id now.clock in
      subst
        (λ (s : RoomStore).
          IsHandoff run (claim_match_for outside room_id view quiet (record now { store = s })))
        (sym store)
        (elim (room_start_match-Claims room_id token run.store) [
          | inl (owner, guest, reply, free, held) ↦
              subst
                (λ (x : ClaimReply). IsHandoff run (
                  after_claim outside room_id token view x quiet (record now {
                    store = (room_start_match room_id token run.store).1;
                    clock = suc now.clock;
                  })))
                (sym reply)
                (create_ends outside steady run room_id token free owner guest view _ (held, sent))
          | inr (same, other) ↦
              refused_ends outside run _ room_id token view
                (room_start_match room_id token run.store).0 other
                (
                  ap (λ (s : RoomStore). s.rooms) same,
                  ap (λ (s : RoomStore). s.codes) same,
                  ap (λ (s : RoomStore). s.users) same,
                  (λ k. ap (λ (s : RoomStore). s.claims k) same),
                  sent,
                )
        ])

  -- Where no other request runs meanwhile and the look-ups of active matches do not fail: if
  -- startRoomMatch throws, also because no match could be made, then rooms, codes, players' keys
  -- and claims are as before and nothing was sent, so that the room can be started again. If it
  -- answers, the view shows the room matched with the match that the store has for it.
  pub start_room_match-IsHandoff :
      (room_id : String) (run : Run)
      → Ends Finished (λ e after. Restored run after) (start_room_match outside room_id quiet run)
  unfolding start_room_match load_room_if_exists
  start_room_match-IsHandoff room_id run =
      bind_ends
        (λ (view : Option RoomView) (after : Run).
          (after.store ≡ run.store) × (after.sent ≡ run.sent))
        Finished (λ e after. Restored run after) quiet (load_room_if_exists (some room_id))
        (claim_match_for outside room_id) run (go (named_room (some room_id)))
        (λ view now h. claim_ends run now room_id view h.0 h.1)
    where
      go :
          (o : Option String)
          → Ends
              (λ view after. (after.store ≡ run.store) × (after.sent ≡ run.sent))
              (λ e after. Restored run after)
              (load_named o quiet run)
      go none = (refl, refl)
      go (some k) = (refl, refl)
