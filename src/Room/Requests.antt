-- ===== src/Room/Requests.antt =====
-- How a request on the rooms runs: it reads and writes Redis one access at a time, and other
-- requests run between its accesses; it may throw; it sends messages.
pub mod Rules
use mobile_final_project.Base.{
  ℕ, suc, String, ◌≡◌, ap, Bool, true, false, Option, none, some, List, [], ◌∷◌, ◌++◌,
  if◌then◌else◌,
}
use mobile_final_project.Room.Types.{RoomView}
use mobile_final_project.Room.Store.{RoomStore}

-- The `code` of an exception; `outside_failed` is one of the database or of the pairing.
pub data RoomError : Type 0 where
  room_already_in_room match_already_active room_in_matchmaking_queue room_not_in_room
        room_not_found :
      RoomError
  room_invalid_code room_full room_not_waiting room_owner_cannot_join room_owner_only
        room_not_full :
      RoomError
  room_match_starting room_code_unavailable outside_failed : RoomError

-- `publishToRoom`: the state of a room, or that it is closed, and to whom.
pub data RoomMessage : Type 0 where
  room_state : (room_id : String) → RoomView → (to : List String) → RoomMessage
  room_closed : (room_id join_code owner guest : String) → (to : List String) → RoomMessage

pub data Reply {ℓ} (A : Type ℓ) : Type ℓ where
  done : A → Reply A
  thrown : RoomError → Reply A

-- The store, the number of accesses so far, and what was sent.
pub record Run : Type 0 where
  pub store : RoomStore
  pub clock : ℕ
  pub sent : List RoomMessage

-- What other requests do to the store before an access.
abbrev pub Others : Type 0
Others = ℕ → RoomStore → RoomStore

abbrev pub quiet : Others
quiet clock s = s

abbrev pub Action : Type 0 → Type 0
Action A = Others → Run → Reply A × Run

module _ {A : Type 0} where
  abbrev pub pure : A → Action A
  pure a m run = (done a, run)

  abbrev pub throw : RoomError → Action A
  throw e m run = (thrown e, run)

  -- One access to Redis, which is atomic.
  abbrev pub access : (RoomStore → A × RoomStore) → Action A
  access f m run =
      let (a, s) = f (m run.clock run.store) in
      (done a, record run { store = s; clock = suc run.clock })

  -- A read that Redis answers, or another service.
  abbrev pub gets : (RoomStore → A) → Action A
  gets f = access (λ s. (f s, s))

  -- A call of another service, which may fail and leaves the rooms alone.
  abbrev pub ask : (ℕ → Reply A) → Action A
  ask f m run = (f run.clock, record run { store = m run.clock run.store; clock = suc run.clock })

  -- What is drawn at random, or an id that is made up.
  abbrev pub draw : (ℕ → A) → Action A
  draw f m run = (done (f run.clock), run)

infixl 5 ◌>>=◌ ◌>>◌
abbrev pub ◌>>=◌ : {A B : Type 0} → Action A → (A → Action B) → Action B
◌>>=◌ a next m run =
    let (r, run') = a m run in elim r [ done x ↦ next x m run' | thrown e ↦ (thrown e, run') ]

abbrev pub ◌>>◌ : {A B : Type 0} → Action A → Action B → Action B
first >> second = first >>= λ x. second

abbrev pub modify : (RoomStore → RoomStore) → Action (Unit {0})
modify f = access (λ s. (tt, f s))

abbrev pub throw_if : Bool → RoomError → Action (Unit {0})
throw_if true e = throw e
throw_if false e = pure tt

abbrev pub or_throw : {A : Type 0} → Option A → RoomError → Action A
or_throw none e = throw e
or_throw (some a) e = pure a

abbrev pub send : RoomMessage → Action (Unit {0})
send message m run = (done tt, record run { sent = run.sent ++ (message ∷ []) })

-- `try { a } catch (e) { undo; throw e }`
abbrev pub on_error : {A : Type 0} → Action A → Action (Unit {0}) → Action A
on_error a undo m run =
    let (r, run') = a m run in
    elim r [ done x ↦ (done x, run') | thrown e ↦ (thrown e, (undo m run').1) ]

module _ {A B : Type 0} (a : Action A) (next : A → Action B) (m : Others) (run after : Run) where
  -- A step that succeeds is followed by the next.
  pub bind_done : (x : A) → a m run ≡ (done x, after) → (a >>= next) m run ≡ next x m after
  bind_done x h =
      ap
        (λ (p : Reply A × Run). elim p.0 as (λ r. Reply B × Run) [
          | done y ↦ next y m p.1
          | thrown e ↦ (thrown e, p.1)
        ])
        h

  -- A step that throws ends the request.
  pub bind_thrown :
      (e : RoomError) → a m run ≡ (thrown e, after) → (a >>= next) m run ≡ (thrown e, after)
  bind_thrown e h =
      ap
        (λ (p : Reply A × Run). elim p.0 as (λ r. Reply B × Run) [
          | done y ↦ next y m p.1
          | thrown d ↦ (thrown d, p.1)
        ])
        h
