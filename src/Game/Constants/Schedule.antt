-- ===== src/Game/Constants/Schedule.antt =====
-- How many ticks `actsOnTick` picks for a speed: backend/src/game/constants.ts.
use native.Mathlib.Decide.{ℕ_discrete}
use native.Mathlib.Nat.{div-eq_of_lt-le, div-add-mod', suc-mod, mod_self, mod-eq_of_lt, mod-lt}
use mobile_final_project.Base.{
  ap, ◌∙◌, ℕ, zero, suc, ◌-◌, ◌/◌, ◌%◌, ◌<◌, ◌≡◌, arith, ◌==◌, if◌then◌else◌,
}
use mobile_final_project.Game.Constants.{acts_on_tick}

-- How many of the ticks 1 to n `actsOnTick` picks.
abbrev pub actions_until : ℕ → ℕ → ℕ
actions_until spd zero = 0
actions_until spd (suc n) =
    let before = actions_until spd n in if acts_on_tick spd (suc n) then suc before else before

module _ (n c : ℕ) (h : 0 < c) where
  -- One more tick ends a full round of `c`, or falls into a round begun.
  div_full : suc (n % c) ≡ c → (suc n / c ≡ suc (n / c)) × (suc n % c ≡ 0)
  div_full e = (
    div-eq_of_lt-le {k = suc (n / c)} c (omega (arith, div-add-mod' n c))
        (omega (arith, div-add-mod' n c)),
    suc-mod n c ∙ ap (λ k. k % c) e ∙ mod_self c,
  )

  div_part : suc (n % c) < c → (suc n / c ≡ n / c) × (suc n % c ≡ suc (n % c))
  div_part e = (
    div-eq_of_lt-le {k = n / c} c (omega (arith, div-add-mod' n c))
        (omega (arith, div-add-mod' n c)),
    suc-mod n c ∙ mod-eq_of_lt e,
  )

  div_step : suc n / c ≡ (if suc n % c == 0 then suc (n / c) else n / c)
  div_step = elim (ℕ_discrete (suc (n % c)) c) [
    | yes e ↦ let (d, m) = div_full e in rw m d
    | no e ↦ let (d, m) = div_part (omega (arith, mod-lt n h)) in ground (arith, d, m)
  ]

-- Of the ticks 1 to `n`, actsOnTick picks floor(n / (100 - spd)) for a unit of speed below 100: so
-- many in all, for every `n`, which spaces them evenly.
pub acts_on_tick-evenly : (spd n : ℕ) → spd < 100 → actions_until spd n ≡ n / (100 - spd)
unfolding acts_on_tick
acts_on_tick-evenly spd zero h = omega arith
acts_on_tick-evenly spd (suc n) h =
    ground (arith, acts_on_tick-evenly spd n h, div_step n (100 - spd))
