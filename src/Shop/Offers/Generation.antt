-- ===== src/Shop/Offers/Generation.antt =====
-- Offers always come five at a time, by the odds of the pool.
use mobile_final_project.Base.{
  ℕ, zero, suc, ◌*◌, ◌≤◌, ◌<◌, ◌≡◌, refl, ◌∙◌, ap, String, Option, none, some, List, [], ◌∷◌, map,
  length, arith, inl, inr, ltb, Bool-cases, ap,
}
use mobile_final_project.Game.Types.{UnitId, fighter, healer, ranger, tank}
use mobile_final_project.Runtime.Effects.{ok, ShopOffer}
use mobile_final_project.Shop.Offers.{
  mulberry32, pool_unit, offers_from, generate_offers, word, seed_text, deterministic_offer_id,
}

draw-lt-word : (state : ℕ) → (mulberry32 state).1 < word
unfolding mulberry32
draw-lt-word state = omega arith

-- The unit that a draw stands for.
abbrev pub UnitByOdds : ℕ → UnitId → Type 0
UnitByOdds draw fighter = draw * 100 < 40 * word
UnitByOdds draw healer = (40 * word ≤ draw * 100) × (draw * 100 < 80 * word)
UnitByOdds draw ranger = (80 * word ≤ draw * 100) × (draw * 100 < 95 * word)
UnitByOdds draw tank = 95 * word ≤ draw * 100

pool_unit-total :
    (draw : ℕ) → draw < word → (k : UnitId) × (pool_unit draw ≡ some k) × UnitByOdds draw k
unfolding pool_unit
pool_unit-total draw h = elim (Bool-cases (ltb (draw * 100) (40 * word))) [
  | inl a ↦ (fighter, ground arith, ground arith)
  | inr a ↦ elim (Bool-cases (ltb (draw * 100) (80 * word))) [
    | inl b ↦ (healer, ground arith, (ground arith, ground arith))
    | inr b ↦ elim (Bool-cases (ltb (draw * 100) (95 * word))) [
      | inl c ↦ (ranger, ground arith, (ground arith, ground arith))
      | inr c ↦ (tank, ground arith, ground arith)
    ]
  ]
]

-- Offers whose archetypes are the ones that the odds give for the draws of the generator, one
-- after another from this state on, and whose ids are those of the seed and of 0, 1, 2 and so on.
abbrev pub AreDrawn :
    (String → String) → String → (index state : ℕ) → List (Option ShopOffer) → Type 0
AreDrawn digest_hex seed index state [] = Unit
AreDrawn digest_hex seed index state (none ∷ os) = ⊥
AreDrawn digest_hex seed index state (some o ∷ os) =
    UnitByOdds (mulberry32 state).1 o.unit_id
    × (o.offer_id ≡ deterministic_offer_id digest_hex seed index)
    × AreDrawn digest_hex seed (suc index) (mulberry32 state).0 os

length-map : (os : List ShopOffer) → length (map some os) ≡ length os
length-map [] = refl
length-map (o ∷ os) = ap suc (length-map os)

module _ (digest_word : String → ℕ) (digest_hex : String → String) where
  offers_from-ok :
      (left index : ℕ) (seed : String) (state : ℕ)
      → (os : List ShopOffer) × (offers_from digest_word digest_hex left index seed state ≡ ok os)
        × (length os ≡ left)
        × AreDrawn digest_hex seed index state (map some os)
  unfolding offers_from
  offers_from-ok zero index seed state = ([], refl, refl, tt)
  offers_from-ok (suc left) index seed state =
      let (os, e, l, a) = offers_from-ok left (suc index) seed ((mulberry32 state).0) in
      let (k, p, d) = pool_unit-total ((mulberry32 state).1) (draw-lt-word state) in
      (
        record { offer_id = deterministic_offer_id digest_hex seed index; unit_id = k } ∷ os,
        rw (p, e) refl,
        omega (arith, l),
        (d, refl, a),
      )

  -- `generateOffers` never misses the pool: it answers five offers, the archetypes of which are
  -- those that the odds 40, 40, 15 and 5 give for the first five draws of the generator from the
  -- digest of the seed text on, and the ids of which are those of the seed text and 0 to 4.
  pub generate_offers-total :
      (match_seed : String) (round : ℕ) (player_id : String) (refresh_count : ℕ)
      → (os : List (Option ShopOffer)) × (generate_offers digest_word digest_hex match_seed round
            player_id refresh_count
          ≡ ok os)
        × (length os ≡ 5)
        × AreDrawn digest_hex
            (seed_text match_seed round refresh_count player_id)
            0
            (digest_word (seed_text match_seed round refresh_count player_id))
            os
  unfolding generate_offers
  generate_offers-total match_seed round player_id refresh_count =
      let seed = seed_text match_seed round refresh_count player_id in
      let (os, e, l, a) = offers_from-ok 5 0 seed (digest_word seed) in
      (map some os, rw e refl, length-map os ∙ l, a)
