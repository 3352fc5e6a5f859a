-- ===== src/Runtime/Flow/Once.antt =====
-- The damage of a round is applied once, however many callers try.
use mobile_final_project.Base.{
  ℕ, ◌≡◌, ◌≢◌, refl, sym, ap, ◌∙◌, Bool, true, false, Option, none, some, List, [], Bool-cases, ◌⊎◌,
  inl, inr, some_eq,
}
use mobile_final_project.Game.Types.{BoardEvent}
use mobile_final_project.Runtime.State.{MatchPhase, battle, resolved, MatchRuntimeState}
use mobile_final_project.Runtime.Rules.{Resolution, resolve_round}
use mobile_final_project.Runtime.Effects.{ok}
use mobile_final_project.Runtime.Store.{MatchStore, phase_flip}
use mobile_final_project.Runtime.Store.Keys.{IsFlip, phase_flip-cases, true_ne_false}
use mobile_final_project.Runtime.Flow.{
  Answer, if_flipped, settle_match, after_resolve, in_battle, after_read, apply_damage_and_advance,
}

-- A caller that changes nothing and sends nothing.
abbrev pub Idle : MatchStore → Answer → Type 0
Idle s out = (out.0 ≢ ok true) × (out.1 ≡ s) × (out.2 ≡ [])

-- A caller that moves the store out of the battle of this round, and goes on from there.
abbrev pub Flipped :
    ℕ
    → Option MatchRuntimeState
    → Option (List BoardEvent)
    → (MatchStore → MatchStore)
    → MatchStore
    → Answer
    → Type 0
Flipped round seen cached between s out =
    (r : MatchRuntimeState) × (events : List BoardEvent) × (res : Resolution) × (t : MatchStore)
    × (seen ≡ some r)
    × (cached ≡ some events)
    × (resolve_round r round events ≡ some res)
    × IsFlip battle resolved round none s t
    × (out ≡ settle_match r round res res.winner_id (between t))

pub if_flipped-cases :
    (expected new : MatchPhase) (round : ℕ) (jump : Option ℕ) (s : MatchStore)
    (next : MatchStore → Answer) (p : Bool × MatchStore)
    → ((p.0 ≡ false) × (p.1 ≡ s)) ⊎ ((p.0 ≡ true) × IsFlip expected new round jump s p.1)
    → Idle s (if_flipped p next)
      ⊎ ((t : MatchStore) × IsFlip expected new round jump s t × (if_flipped p next ≡ next t))
if_flipped-cases expected new round jump s next (true, t) (inl (e, k)) = absurd (true_ne_false e)
if_flipped-cases expected new round jump s next (false, t) (inl (e, k)) = inl ((λ x. cc), k, refl)
if_flipped-cases expected new round jump s next (true, t) (inr (e, k)) = inr (t, k, refl)
if_flipped-cases expected new round jump s next (false, t) (inr (e, k)) =
    absurd (true_ne_false (sym e))

after_resolve-cases :
    (r : MatchRuntimeState) (round : ℕ) (o : Option Resolution) (between : MatchStore → MatchStore)
    (s : MatchStore)
    → Idle s (after_resolve r round o between s)
      ⊎ ((res : Resolution) × (t : MatchStore) × (o ≡ some res)
          × IsFlip battle resolved round none s t
          × (after_resolve r round o between s
              ≡ settle_match r round res res.winner_id (between t)))
after_resolve-cases r round none between s = inl ((λ x. cc), refl, refl)
after_resolve-cases r round (some res) between s =
    elim (if_flipped-cases battle resolved round none s
      (λ t. settle_match r round res res.winner_id (between t))
      (phase_flip battle resolved round none s) (phase_flip-cases battle resolved round none s)) [
        | inl i ↦ inl i
        | inr (t, f, e) ↦ inr (res, t, refl, f, e)
      ]

after_read-cases :
    (round : ℕ) (seen : Option MatchRuntimeState) (cached : Option (List BoardEvent))
    (between : MatchStore → MatchStore) (s : MatchStore)
    → Idle s (after_read round seen cached between s)
      ⊎ Flipped round seen cached between s (after_read round seen cached between s)
after_read-cases round none cached between s = inl ((λ x. cc), refl, refl)
after_read-cases round (some r) none between s = elim (Bool-cases (in_battle r round)) [
  | inl b ↦ rw b (inl ((λ x. cc), refl, refl))
  | inr b ↦ rw b (inl ((λ x. cc), refl, refl))
]
after_read-cases round (some r) (some events) between s = elim (Bool-cases (in_battle r round)) [
  | inr b ↦ rw b (inl ((λ x. cc), refl, refl))
  | inl b ↦ rw b (elim (after_resolve-cases r round (resolve_round r round events) between s) [
    | inl i ↦ inl i
    | inr (res, t, e, f, k) ↦ inr (r, events, res, t, refl, refl, e, f, k)
  ])
]

pub apply_damage-Flipped :
    (round : ℕ) (seen cache : MatchStore) (between : MatchStore → MatchStore) (s : MatchStore)
    → let out = apply_damage_and_advance round seen cache between s in
      Idle s out ⊎ Flipped round seen.runtime cache.combat_result between s out
unfolding apply_damage_and_advance
apply_damage-Flipped round seen cache between s =
    after_read-cases round seen.runtime cache.combat_result between s

left_battle :
    (r r' : MatchRuntimeState) (round : ℕ)
    → r' ≡ r
    → r'.phase ≡ battle
    → r'.round ≡ round
    → (r.phase ≢ battle) ⊎ (r.round ≢ round)
    → ⊥
left_battle r r' round e p n (inl h) = h (sym (ap (λ (x : MatchRuntimeState). x.phase) e) ∙ p)
left_battle r r' round e p n (inr h) = h (sym (ap (λ (x : MatchRuntimeState). x.round) e) ∙ n)

-- A caller of `applyDamageAndAdvance` whose store has left the battle of that round, although it
-- may have read the match in battle, changes nothing and sends nothing.
pub apply_damage_once :
    (round : ℕ) (seen cache : MatchStore) (between : MatchStore → MatchStore) (s : MatchStore)
    (r : MatchRuntimeState)
    → s.runtime ≡ some r
    → (r.phase ≢ battle) ⊎ (r.round ≢ round)
    → Idle s (apply_damage_and_advance round seen cache between s)
apply_damage_once round seen cache between s r e h =
    elim (apply_damage-Flipped round seen cache between s) [
      | inl i ↦ i
      | inr (r0, events, res, t, a, b, c, (r', e', p, n, w), k) ↦
          absurd (left_battle r r' round (some_eq (sym e' ∙ e)) p n h)
    ]
