-- ===== src/Game/Rng.antt =====
-- backend/src/game/seeded-rng.ts: Mulberry32 on 32-bit words. A draw is the word before the
-- division by 2 ^ 32, so the float of the source is `draw / 2 ^ 32`.
use mobile_final_project.Base.{ℕ, ◌+◌, ◌*◌, ◌-◌, ◌/◌, ◌%◌, ◌^◌, ◌≤◌, ◌<◌, arith, bit_or, bit_xor}

abbrev pub word : ℕ
word = 4294967296

-- Math.imul, as an unsigned word
imul : ℕ → ℕ → ℕ
imul a b = a * b % word

-- `t >>> k`
shr : ℕ → ℕ → ℕ
shr t k = t / 2 ^ k

-- One call of the generator: the next state and the draw.
unfoldable pub next : ℕ → ℕ × ℕ
unfolding imul shr
next state =
    let s = (state + 0x6d2b79f5) % word in
    let t = imul (bit_xor s (shr s 15)) (bit_or s 1) in
    let t' = bit_xor t ((t + imul (bit_xor t (shr t 7)) (bit_or t 61)) % word) in
    (s, bit_xor t' (shr t' 14) % word)

-- `makeRng(seed)`: the state that the closure starts with
abbrev pub make_rng : ℕ → ℕ
make_rng seed = seed % word

-- `rngInt`: Math.floor(rng() * (max - min + 1)) + min, over the exact quotient
unfoldable pub rng_int : ℕ → ℕ → ℕ → ℕ × ℕ
rng_int state min max = let (s, draw) = next state in (s, draw * (max - min + 1) / word + min)

draw-lt-word : (state : ℕ) → (next state).1 < word
unfolding next
draw-lt-word state = omega arith

scale : (d k : ℕ) → d < word → d * (k + 1) / word ≤ k
scale d k h = grind arith

-- Every draw of `rngInt` lies between its bounds, both included, if the lower is not above the
-- upper.
pub rng_int_bounds :
    (state min max : ℕ)
    → min ≤ max
    → (min ≤ (rng_int state min max).1) × ((rng_int state min max).1 ≤ max)
unfolding rng_int
rng_int_bounds state min max h =
    omega (arith, scale (next state).1 (max - min) (draw-lt-word state))
