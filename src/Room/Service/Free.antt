-- ===== src/Room/Service/Free.antt =====
-- The checks that a player is free to take a room, as steps that keep a property of the run.
use mobile_final_project.Base.{suc, String, Option, none, some, Bool, true, false, is_some}
use mobile_final_project.Room.Requests.{
  Run, Others, Reply, done, thrown, ask, throw_if, match_already_active, room_in_matchmaking_queue,
}
use mobile_final_project.Room.Requests.Rules.{Ends, bind_ends}
use mobile_final_project.Room.Service.{Outside, has_no_match, is_not_queued, must_be_free}

module _ (outside : Outside) (m : Others) (K : Run → Type 0)
    (asks : (now : Run)
      → K now
      → K (record now { store = m now.clock now.store; clock = suc now.clock })) where
  abbrev Keeps : {A : Type 0} → Reply A × Run → Type 0
  Keeps p = Ends (λ x after. K after) (λ e after. K after) p

  no_match_ends : (user : String) (run : Run) → K run → Keeps (has_no_match outside user m run)
  unfolding has_no_match
  no_match_ends user run k = go (outside.active_match user run.clock)
    where
      next : Option String → Reply (Unit {0}) × Run
      next active =
          throw_if (is_some active) match_already_active m (ask (outside.active_match user) m run).1

      found : (active : Option String) → Keeps (next active)
      found none = asks run k
      found (some x) = asks run k

      go :
          (r : Reply (Option String))
          → Keeps (elim r as (λ x. Reply (Unit {0}) × Run) [
            | done active ↦ next active
            | thrown e ↦ (thrown e, (ask (outside.active_match user) m run).1)
          ])
      go (done active) = found active
      go (thrown e) = asks run k

  not_queued_ends : (user : String) (run : Run) → K run → Keeps (is_not_queued outside user m run)
  unfolding is_not_queued
  not_queued_ends user run k = go (outside.queued user run.clock)
    where
      next : Bool → Reply (Unit {0}) × Run
      next queued = throw_if queued room_in_matchmaking_queue m (ask (outside.queued user) m run).1

      found : (queued : Bool) → Keeps (next queued)
      found true = asks run k
      found false = asks run k

      go :
          (r : Reply Bool)
          → Keeps (elim r as (λ x. Reply (Unit {0}) × Run) [
            | done queued ↦ next queued
            | thrown e ↦ (thrown e, (ask (outside.queued user) m run).1)
          ])
      go (done queued) = found queued
      go (thrown e) = asks run k

  pub must_be_free_ends :
      (user : String) (run : Run)
      → K run
      → Ends (λ x after. K after) (λ e after. K after) (must_be_free outside user m run)
  unfolding must_be_free
  must_be_free_ends user run k =
      bind_ends (λ (x : Unit {0}) (after : Run). K after) (λ (x : Unit {0}) (after : Run). K after)
        (λ e after. K after) m (has_no_match outside user) (λ x. is_not_queued outside user) run
        (no_match_ends user run k) (λ x now h. not_queued_ends user now h)
