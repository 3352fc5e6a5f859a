-- ===== src/Runtime/Flow/Settlement.antt =====
-- What `applyDamageAndAdvance` writes and sends once it has taken the match out of its battle.
use mobile_final_project.Base.{
  ℕ, ◌<◌, ◌≡◌, refl, sym, ap, ◌∙◌, subst, String, true, zero, suc, some_eq, Option-cases, Option,
  none, some, List, ◌⊎◌, inl, inr, arith,
}
use mobile_final_project.Game.Types.{Side, BoardEvent}
use mobile_final_project.Runtime.State.{
  battle, resolved, RuntimePlayerState, MatchRuntimeState, summarize_board,
}
use mobile_final_project.Runtime.Rules.{
  Resolution, MatchResult, undecided, decided, battle_winner, match_result, resolve_winner,
  resolve_round,
}
use mobile_final_project.Runtime.Rules.Damage.{resolve_winner-Charge}
use mobile_final_project.Runtime.Effects.{ok, publish_state}
use mobile_final_project.Runtime.State.{match_state_payload}
use mobile_final_project.Runtime.Store.{MatchStore}
use mobile_final_project.Runtime.Store.Keys.{IsFlip}
use mobile_final_project.Runtime.Flow.{
  Answer, settle_match, end_match, go_on, settle, paid, hset, write_option, phase_payload,
  apply_damage_and_advance,
}
use mobile_final_project.Runtime.Flow.Once.{Idle, apply_damage-Flipped}
use mobile_final_project.Runtime.Flow.Outcome.{
  IsCharged, IsPaid, HasWon, IsOver, IsSettled, IsReport, Writes, Ends, GoesOn, Settled,
}

hset-Writes :
    (f : MatchRuntimeState → MatchRuntimeState) (P : MatchRuntimeState → MatchRuntimeState → Type 0)
    (s : MatchStore)
    → ((q : MatchRuntimeState) → P q (f q))
    → Writes P s (hset f s)
unfolding hset
hset-Writes f P s h = go s.runtime refl
  where
    go :
        (o : Option MatchRuntimeState)
        → s.runtime ≡ o
        → Writes P s (record s { runtime = write_option f s.runtime })
    go none e = inl (
      e,
      ap (λ (x : Option MatchRuntimeState). record s { runtime = write_option f x }) e
          ∙ ap (λ (x : Option MatchRuntimeState). record s { runtime = x }) (sym e),
    )
    go (some q) e = inr (
      q,
      f q,
      e,
      ap (λ (x : Option MatchRuntimeState). record s { runtime = write_option f x }) e,
      h q,
    )

match_result-cases :
    (r : MatchRuntimeState) (hp1 hp2 : ℕ)
    → ((0 < hp1) × (0 < hp2) × (match_result r hp1 hp2 ≡ undecided))
      ⊎ ((winner : Option String) × HasWon r hp1 hp2 winner
          × (match_result r hp1 hp2 ≡ decided winner))
unfolding match_result
match_result-cases r zero zero = inr (none, (refl, refl), refl)
match_result-cases r zero (suc n) =
    inr (some r.player2_id, inl (refl, omega arith, refl), ground arith)
match_result-cases r (suc n) zero =
    inr (some r.player1_id, inr (omega arith, refl, refl), ground arith)
match_result-cases r (suc n) (suc k) = inl (omega arith, omega arith, ground arith)

end_match-Ends :
    (r : MatchRuntimeState) (d : Resolution) (s : MatchStore) (winner : Option String)
    → IsCharged r.p1_state d.p1 d.damage.p1
    → IsCharged r.p2_state d.p2 d.damage.p2
    → HasWon r d.p1.hp d.p2.hp winner
    → Ends r d s (end_match d winner s)
unfolding end_match
end_match-Ends r d s winner a b won = (
  winner,
  d.p1,
  d.p2,
  won,
  a,
  b,
  hset-Writes _ (IsOver r d) s
      (λ q. record { phase = refl; round = refl; p1 = a; p2 = b; wipe1 = refl; wipe2 = refl }),
  refl,
)

paid-IsPaid :
    (old new : RuntimePlayerState) (damage : ℕ)
    → IsCharged old new damage
    → IsPaid old (paid new) damage
paid-IsPaid old new damage c = record {
  hp = c.hp;
  gold = omega (arith, c.gold);
  ready = refl;
  board = c.board;
  bench = c.bench;
}

go_on-GoesOn :
    (r : MatchRuntimeState) (round : ℕ) (d : Resolution) (s : MatchStore)
    → IsCharged r.p1_state d.p1 d.damage.p1
    → IsCharged r.p2_state d.p2 d.damage.p2
    → 0 < d.p1.hp
    → 0 < d.p2.hp
    → GoesOn r round d s (go_on r round d s)
unfolding go_on phase_payload publish_state match_state_payload
go_on-GoesOn r round d s a b alive1 alive2 =
    let a' = paid-IsPaid r.p1_state d.p1 d.damage.p1 a in
    let b' = paid-IsPaid r.p2_state d.p2 d.damage.p2 b in
    (
      paid d.p1,
      paid d.p2,
      _,
      _,
      _,
      alive1,
      alive2,
      a',
      b',
      hset-Writes (settle round d) (IsSettled r round d) s (λ q. record {
        phase = refl;
        same_round = refl;
        p1 = a';
        p2 = b';
        wipe1 = refl;
        wipe2 = refl;
        unready = (refl, refl);
        unmarked = refl;
        scouted = refl;
        scout1 = ap summarize_board a.board;
        scout2 = ap summarize_board b.board;
      }),
      refl,
      (refl, refl, refl),
      (refl, refl, refl),
      (refl, refl, refl, refl, refl, refl),
      (refl, refl, refl, refl, refl, refl),
      refl,
    )

resolve_winner-IsCharged :
    (r : MatchRuntimeState) (round : ℕ) (winner : Option Side)
    → let d = resolve_winner r round winner in
      IsCharged r.p1_state d.p1 d.damage.p1
      × IsCharged r.p2_state d.p2 d.damage.p2
      × IsReport r round winner d
unfolding resolve_winner
resolve_winner-IsCharged r round winner = (
  record { hp = refl; gold = refl; board = refl; bench = refl },
  record { hp = refl; gold = refl; board = refl; bench = refl },
  record {
    same_round = refl;
    winner = refl;
    p1 = record { hp_before = refl; hp_after = refl; damage_applied = refl };
    p2 = record { hp_before = refl; hp_after = refl; damage_applied = refl };
  },
)

end_match-answer :
    (d : Resolution) (winner : Option String) (s : MatchStore) → (end_match d winner s).0 ≡ ok true
unfolding end_match
end_match-answer d winner s = refl

go_on-answer :
    (r : MatchRuntimeState) (round : ℕ) (d : Resolution) (s : MatchStore)
    → (go_on r round d s).0 ≡ ok true
unfolding go_on
go_on-answer r round d s = refl

none_ne_some : {d : Resolution} → none ≡ some d → ⊥
none_ne_some h = cc

settle_match-cases :
    (r : MatchRuntimeState) (round : ℕ) (winner : Option Side) (s : MatchStore)
    → let d = resolve_winner r round winner in
      let out = settle_match r round d d.winner_id s in
      (out.0 ≡ ok true) × (Ends r d s out ⊎ GoesOn r round d s out)
unfolding resolve_winner
settle_match-cases r round winner s =
    let d = resolve_winner r round winner in
    let (a, b, told) = resolve_winner-IsCharged r round winner in
    elim (match_result-cases r d.p1.hp d.p2.hp) [
      | inl (alive1, alive2, e) ↦
          subst
            (λ (m : MatchResult).
              ((settle_match r round d m s).0 ≡ ok true)
              × (Ends r d s (settle_match r round d m s)
                  ⊎ GoesOn r round d s (settle_match r round d m s)))
            (sym e) (go_on-answer r round d s, inr (go_on-GoesOn r round d s a b alive1 alive2))
      | inr (w, won, e) ↦
          subst
            (λ (m : MatchResult).
              ((settle_match r round d m s).0 ≡ ok true)
              × (Ends r d s (settle_match r round d m s)
                  ⊎ GoesOn r round d s (settle_match r round d m s)))
            (sym e) (end_match-answer d w s, inl (end_match-Ends r d s w a b won))
    ]

resolve_round-winner :
    (r : MatchRuntimeState) (round : ℕ) (events : List BoardEvent) (d : Resolution)
    → resolve_round r round events ≡ some d
    → (winner : Option Side) × (battle_winner events ≡ some winner)
      × (resolve_winner r round winner ≡ d)
unfolding resolve_round
resolve_round-winner r round events d h = elim (Option-cases (battle_winner events)) [
  | inl e ↦ absurd (none_ne_some (rw (resolve_round, e) at h))
  | inr (w, e) ↦ (w, e, some_eq (rw (resolve_round, e) at h))
]

-- `applyDamageAndAdvance`, whatever it read and whatever happens meanwhile, either changes and
-- sends nothing and does not answer true, or it answers true and does this. It takes the store from
-- the battle of its round to `resolved`. By the winner of the events that it read it charges the
-- players of the runtime that it read. If one of them has no HP left, it writes the phase
-- `finished`, the charged states and the wipe indices, and sends the snapshot, the damage and the
-- winner by HP to `finalize`. If both have, it keeps phase and round, writes the charged states with
-- 5 gold more and not ready, the wipe indices, no mark for combat and the boards to scout, and
-- sends the snapshot, the damage, the phase `resolved` and the states.
pub apply_damage_settles :
    (round : ℕ) (seen cache : MatchStore) (between : MatchStore → MatchStore) (s : MatchStore)
    → let out = apply_damage_and_advance round seen cache between s in
      Idle s out ⊎ Settled round seen.runtime cache.combat_result between s out
apply_damage_settles round seen cache between s =
    elim (apply_damage-Flipped round seen cache between s) [
      | inl i ↦ inl i
      | inr (r, events, d, t, a, b, c, flip, k) ↦ inr (settled r events d t a b c flip k)
    ]
  where
    settled :
        (r : MatchRuntimeState) (events : List BoardEvent) (d : Resolution) (t : MatchStore)
        → seen.runtime ≡ some r
        → cache.combat_result ≡ some events
        → resolve_round r round events ≡ some d
        → IsFlip battle resolved round none s t
        → apply_damage_and_advance round seen cache between s
          ≡ settle_match r round d d.winner_id (between t)
        → Settled round seen.runtime cache.combat_result between s
            (apply_damage_and_advance round seen cache between s)
    settled r events d t a b c flip k =
        let (w, e, same) = resolve_round-winner r round events d c in
        let x = resolve_winner r round w in
        let k' =
          k ∙ ap (λ (y : Resolution). settle_match r round y y.winner_id (between t)) (sym same) in
        let (answer, end) = settle_match-cases r round w (between t) in
        (
          r,
          events,
          w,
          x,
          t,
          a,
          b,
          e,
          resolve_winner-Charge r round w,
          (resolve_winner-IsCharged r round w).2,
          flip,
          ap (λ (y : Answer). y.0) k' ∙ answer,
          subst (λ (y : Answer). Ends r x (between t) y ⊎ GoesOn r round x (between t) y) (sym k')
              end,
        )
