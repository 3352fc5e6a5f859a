-- ===== src/Runtime/Flow/Outcome.antt =====
-- What the damage of a round leaves of a match, and what it sends: `applyDamageAndAdvance` of
-- backend/src/runtime/match.runtime.adapter.ts after its flip, field by field.
use mobile_final_project.Base.{
  ℕ, ◌+◌, ◌-◌, ◌<◌, ◌≡◌, String, true, false, Option, none, some, List, [], ◌∷◌, ◌⊎◌,
}
use mobile_final_project.Game.Types.{Side, BoardEvent}
use mobile_final_project.Runtime.State.{
  battle, resolved, finished, RuntimePlayerState, MatchRuntimeState, summarize_board,
}
use mobile_final_project.Runtime.Rules.{Resolution, DamageReport, battle_winner}
use mobile_final_project.Runtime.Rules.Damage.{Charge}
use mobile_final_project.Runtime.Effects.{
  ok, PhasePayload, PhasePlayer, hp_zero, update_snapshot, match_damage, match_phase, finalize,
  match_state,
}
use mobile_final_project.Runtime.State.{MatchStatePayload}
use mobile_final_project.Runtime.Store.{MatchStore}
use mobile_final_project.Runtime.Store.Keys.{IsFlip}
use mobile_final_project.Runtime.Flow.{Answer}

-- A player's state after a round that ends the match: less the damage.
pub record IsCharged (old new : RuntimePlayerState) (damage : ℕ) : Type 0 where
  pub hp : new.hp ≡ old.hp - damage
  pub gold : new.gold ≡ old.gold
  pub board : new.board ≡ old.board
  pub bench : new.bench ≡ old.bench

-- A player's state after a round that does not: less the damage, with 5 gold more, and not ready.
pub record IsPaid (old new : RuntimePlayerState) (damage : ℕ) : Type 0 where
  pub hp : new.hp ≡ old.hp - damage
  pub gold : new.gold ≡ old.gold + 5
  pub ready : new.ready ≡ false
  pub board : new.board ≡ old.board
  pub bench : new.bench ≡ old.bench

-- Who has won a match in which a player has no HP left.
abbrev pub HasWon : MatchRuntimeState → (hp1 hp2 : ℕ) → Option String → Type 0
HasWon r hp1 hp2 none = (hp1 ≡ 0) × (hp2 ≡ 0)
HasWon r hp1 hp2 (some id) =
    ((hp1 ≡ 0) × (0 < hp2) × (id ≡ r.player2_id)) ⊎ ((0 < hp1) × (hp2 ≡ 0) × (id ≡ r.player1_id))

-- The runtime `q'` is `q` with the match over: `r` is what the request has read.
pub record IsOver (r : MatchRuntimeState) (d : Resolution) (q q' : MatchRuntimeState) : Type 0 where
  pub phase : q'.phase ≡ finished
  pub round : q'.round ≡ q.round
  pub p1 : IsCharged r.p1_state q'.p1_state d.damage.p1
  pub p2 : IsCharged r.p2_state q'.p2_state d.damage.p2
  pub wipe1 : q'.wipe_index_p1 ≡ d.damage.wipe_index_p1
  pub wipe2 : q'.wipe_index_p2 ≡ d.damage.wipe_index_p2

-- The runtime `q'` is `q` with the round settled, its phase and round as they were in `q`.
pub record IsSettled (r : MatchRuntimeState) (round : ℕ) (d : Resolution) (q q' : MatchRuntimeState)
    : Type 0 where
  pub phase : q'.phase ≡ q.phase
  pub same_round : q'.round ≡ q.round
  pub p1 : IsPaid r.p1_state q'.p1_state d.damage.p1
  pub p2 : IsPaid r.p2_state q'.p2_state d.damage.p2
  pub wipe1 : q'.wipe_index_p1 ≡ d.damage.wipe_index_p1
  pub wipe2 : q'.wipe_index_p2 ≡ d.damage.wipe_index_p2
  pub unready : (q'.ready_p1 ≡ false) × (q'.ready_p2 ≡ false)
  pub unmarked : q'.combat_round ≡ none
  pub scouted : q'.scout_round ≡ some round
  pub scout1 : q'.scout_p1_board ≡ summarize_board r.p1_state.board
  pub scout2 : q'.scout_p2_board ≡ summarize_board r.p2_state.board

-- What the players are told of the damage.
pub record IsReportOf (hp damage after : ℕ) (report : DamageReport) : Type 0 where
  pub hp_before : report.hp_before ≡ hp
  pub hp_after : report.hp_after ≡ after
  pub damage_applied : report.damage_applied ≡ damage

pub record IsReport (r : MatchRuntimeState) (round : ℕ) (won : Option Side) (d : Resolution)
    : Type 0 where
  pub same_round : d.payload.round ≡ round
  pub winner : d.payload.winner ≡ won
  pub p1 : IsReportOf r.p1_state.hp d.damage.p1 d.p1.hp d.payload.p1
  pub p2 : IsReportOf r.p2_state.hp d.damage.p2 d.p2.hp d.payload.p2

-- What a player is told of a state, its own or the other's, after the round.
abbrev pub ShowsPhase : RuntimePlayerState → PhasePlayer → Type 0
ShowsPhase st p = (p.hp ≡ st.hp) × (p.gold ≡ st.gold) × (p.ready ≡ false)

abbrev pub ShowsStates : (own other : RuntimePlayerState) → MatchStatePayload → Type 0
ShowsStates own other p =
    (p.roster.board ≡ own.board)
    × (p.roster.bench ≡ own.bench)
    × (p.roster.gold ≡ own.gold)
    × (p.roster.hp ≡ own.hp)
    × (p.opponent.gold ≡ other.gold)
    × (p.opponent.hp ≡ other.hp)

-- A write to the runtime that has this effect, where there is a runtime.
abbrev pub Writes :
    (MatchRuntimeState → MatchRuntimeState → Type 0) → MatchStore → MatchStore → Type 0
Writes P s s' =
    ((s.runtime ≡ none) × (s' ≡ s))
    ⊎ ((q : MatchRuntimeState) × (q' : MatchRuntimeState) × (s.runtime ≡ some q)
        × (s' ≡ record s { runtime = some q' })
        × P q q')

-- The match is over: the winner by HP is handed to `finalize`, after the snapshot and the damage.
abbrev pub Ends : MatchRuntimeState → Resolution → MatchStore → Answer → Type 0
Ends r d s out =
    (winner : Option String) × (a : RuntimePlayerState) × (b : RuntimePlayerState) × HasWon r
      d.p1.hp d.p2.hp winner
    × IsCharged r.p1_state a d.damage.p1
    × IsCharged r.p2_state b d.damage.p2
    × Writes (IsOver r d) s out.1
    × (out.2
        ≡ update_snapshot a b d.damage.wipe_index_p1 d.damage.wipe_index_p2
          ∷ match_damage d.payload
          ∷ finalize winner hp_zero
          ∷ [])

-- The match goes on: the players are paid, and told the damage, the phase and their states.
abbrev pub GoesOn : MatchRuntimeState → ℕ → Resolution → MatchStore → Answer → Type 0
GoesOn r round d s out =
    (a : RuntimePlayerState) × (b : RuntimePlayerState) × (phase : PhasePayload)
    × (state1 : MatchStatePayload) × (state2 : MatchStatePayload) × (0 < d.p1.hp)
    × (0 < d.p2.hp)
    × IsPaid r.p1_state a d.damage.p1
    × IsPaid r.p2_state b d.damage.p2
    × Writes (IsSettled r round d) s out.1
    × (phase.phase ≡ resolved)
    × ShowsPhase a phase.player1
    × ShowsPhase b phase.player2
    × ShowsStates a b state1
    × ShowsStates b a state2
    × (out.2
        ≡ update_snapshot a b d.damage.wipe_index_p1 d.damage.wipe_index_p2
          ∷ match_damage d.payload
          ∷ match_phase phase
          ∷ match_state r.player1_id state1
          ∷ match_state r.player2_id state2
          ∷ [])

-- A caller that takes the store out of the battle of this round, charges what the events that it
-- read say, and ends the match or goes on.
abbrev pub Settled :
    ℕ
    → Option MatchRuntimeState
    → Option (List BoardEvent)
    → (MatchStore → MatchStore)
    → MatchStore
    → Answer
    → Type 0
Settled round seen cached between s out =
    (r : MatchRuntimeState) × (events : List BoardEvent) × (winner : Option Side) × (d : Resolution)
    × (t : MatchStore) × (seen ≡ some r)
    × (cached ≡ some events)
    × (battle_winner events ≡ some winner)
    × Charge r winner d
    × IsReport r round winner d
    × IsFlip battle resolved round none s t
    × (out.0 ≡ ok true)
    × (Ends r d (between t) out ⊎ GoesOn r round d (between t) out)
