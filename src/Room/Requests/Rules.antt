-- ===== src/Room/Requests/Rules.antt =====
-- How to follow a request: what holds where it ends, by its steps.

use mobile_final_project.Room.Requests.{
  RoomError, Reply, done, thrown, Run, Others, Action, ◌>>=◌, on_error,
}

-- `P` of what a request answers and the run it ends in, `E` of what it throws.
abbrev pub Ends :
    {A : Type 0} → (A → Run → Type 0) → (RoomError → Run → Type 0) → Reply A × Run → Type 0
Ends P E (done x, run) = P x run
Ends P E (thrown e, run) = E e run

module _ {A B : Type 0} (P : A → Run → Type 0) (Q : B → Run → Type 0) (E : RoomError → Run → Type 0)
    (m : Others) where
  pub bind_ends :
      (a : Action A) (next : A → Action B) (run : Run)
      → Ends P E (a m run)
      → ((x : A) (after : Run) → P x after → Ends Q E (next x m after))
      → Ends Q E ((a >>= next) m run)
  bind_ends a next run h k = go (a m run) h
    where
      go :
          (p : Reply A × Run)
          → Ends P E p
          → Ends Q E (elim p.0 as (λ r. Reply B × Run) [
            | done y ↦ next y m p.1
            | thrown e ↦ (thrown e, p.1)
          ])
      go (done x, after) i = k x after i
      go (thrown e, after) i = i

module _ {A : Type 0} (P : A → Run → Type 0) (E F : RoomError → Run → Type 0) (m : Others) where
  pub on_error_ends :
      (a : Action A) (undo : Action (Unit {0})) (run : Run)
      → Ends P E (a m run)
      → ((e : RoomError) (after : Run) → E e after → F e (undo m after).1)
      → Ends P F (on_error a undo m run)
  on_error_ends a undo run h k = go (a m run) h
    where
      go :
          (p : Reply A × Run)
          → Ends P E p
          → Ends P F (elim p.0 as (λ r. Reply A × Run) [
            | done y ↦ (done y, p.1)
            | thrown e ↦ (thrown e, (undo m p.1).1)
          ])
      go (done x, after) i = i
      go (thrown e, after) i = k e after i

  pub ends_weaken :
      (p : Reply A × Run)
      → Ends P E p
      → ((e : RoomError) (after : Run) → E e after → F e after)
      → Ends P F p
  ends_weaken (done x, after) h k = h
  ends_weaken (thrown e, after) h k = k e after h
