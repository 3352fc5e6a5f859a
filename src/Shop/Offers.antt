-- ===== src/Shop/Offers.antt =====
-- The offers of a shop: `generateOffers` and the helpers at the end of shop.service.ts. The SHA-256
-- digest of Node's crypto is a parameter: its first word, and its text in hexadecimal.
pub mod Generation
use Prim.Native.String
use Prim.Native.String.{slice}
use mobile_final_project.Base.{
  ℕ, zero, suc, ◌+◌, ◌*◌, ◌/◌, ◌%◌, ◌^◌, String, Bool, Option, none, some, List, [], ◌∷◌, map,
  get_elem?, find, ltb, bit_or, bit_xor,
}
use mobile_final_project.Game.Types.{UnitId, fighter, healer, ranger, tank}
use mobile_final_project.Runtime.Effects.{Result, ok, ◌>>=◌, or_fail, internal_error, ShopOffer}

pub record PoolEntry : Type 0 where
  pub unit_id : UnitId
  pub ceiling : ℕ

abbrev pub unit_pool : List PoolEntry
unit_pool =
    record { unit_id = fighter; ceiling = 40 }
    ∷ record { unit_id = healer; ceiling = 80 }
    ∷ record { unit_id = ranger; ceiling = 95 }
    ∷ record { unit_id = tank; ceiling = 100 }
    ∷ []

abbrev pub word : ℕ
word = 4294967296

imul : ℕ → ℕ → ℕ
imul a b = a * b % word

shr : ℕ → ℕ → ℕ
shr v k = v / 2 ^ k

-- One call of the shop's `mulberry32`: the next seed, and the draw before its division by 2 ^ 32.
unfoldable pub mulberry32 : ℕ → ℕ × ℕ
unfolding imul shr
mulberry32 seed =
    let s = (seed + 0x6D2B79F5) % word in
    let v = imul (bit_xor s (shr s 15)) (bit_or 1 s) in
    let v' = bit_xor ((v + imul (bit_xor v (shr v 7)) (bit_or 61 v)) % word) v in
    (s, bit_xor v' (shr v' 14) % word)

-- `roll < entry.ceiling`, where the roll is 100 times the draw over 2 ^ 32
abbrev pub under : ℕ → PoolEntry → Bool
under draw entry = ltb (draw * 100) (entry.ceiling * word)

abbrev pub entry_unit : Option PoolEntry → Option UnitId
entry_unit none = none
entry_unit (some e) = some e.unit_id

-- `UNIT_POOL.find((entry) => roll < entry.ceiling)`
unfoldable pub pool_unit : ℕ → Option UnitId
pool_unit draw = entry_unit (find (under draw) unit_pool)

abbrev digits : List String
digits = "0" ∷ "1" ∷ "2" ∷ "3" ∷ "4" ∷ "5" ∷ "6" ∷ "7" ∷ "8" ∷ "9" ∷ []

abbrev text_or : Option String → String
text_or none = ""
text_or (some s) = s

abbrev digit : ℕ → String
digit d = text_or (get_elem? digits d)

infixr 65 ◌<>◌
abbrev pub ◌<>◌ : String → String → String
a <> b = String.◌++◌ a b

decimal_from : ℕ → ℕ → String
decimal_from zero n = ""
decimal_from (suc fuel) n =
    let more = decimal_from fuel (n / 10) <> digit (n % 10) in
    elim (n / 10) [ zero ↦ digit n | suc q ↦ more ]

-- `${n}`: a number has at most as many digits as its value, plus one.
unfoldable pub decimal : ℕ → String
unfolding decimal_from
decimal n = decimal_from (suc n) n

unfoldable pub seed_text : String → ℕ → ℕ → String → String
seed_text match_seed round refresh_count player_id =
    match_seed <> ":" <> decimal round <> ":" <> decimal refresh_count <> ":" <> player_id

-- `digest_hex` is the SHA-256 digest of a text in hexadecimal.
unfoldable pub deterministic_offer_id : (String → String) → String → ℕ → String
deterministic_offer_id digest_hex seed index =
    let hex = slice (digest_hex (seed <> ":" <> decimal index)) 0 32 in
    slice hex 0 8
    <> "-"
    <> slice hex 8 12
    <> "-4"
    <> slice hex 13 16
    <> "-a"
    <> slice hex 17 20
    <> "-"
    <> slice hex 20 32

module _ (digest_word : String → ℕ) (digest_hex : String → String) where
  -- `left` more offers, the next of which has this index.
  unfoldable pub offers_from : ℕ → ℕ → String → ℕ → Result (List ShopOffer)
  offers_from zero index seed state = ok []
  offers_from (suc left) index seed state =
      let (s, draw) = mulberry32 state in
      let more = offers_from left (suc index) seed s in
      do
        unit_id ← or_fail (pool_unit draw) internal_error
        rest ← more
        ok (
            record { offer_id = deterministic_offer_id digest_hex seed index; unit_id = unit_id }
            ∷ rest)

  unfoldable pub generate_offers : String → ℕ → String → ℕ → Result (List (Option ShopOffer))
  generate_offers match_seed round player_id refresh_count =
      let seed = seed_text match_seed round refresh_count player_id in
      do offers ← offers_from 5 0 seed (digest_word seed); ok (map some offers)
