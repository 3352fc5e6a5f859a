-- ===== src/Shop/Mutations/Gold.antt =====
-- What `buy` and `sell` do to the gold and the slots of a player.
use mobile_final_project.Base.{
  ℕ, suc, ◌+◌, ◌-◌, ◌≤◌, ◌≡◌, refl, sym, ap, ◌∙◌, String, Bool, Option, none, some, List, [], ◌∷◌,
  leb, leb→le, get_elem?, get_elem?-set_self, get_elem?-lt, find_index, arith, inl, inr, some_eq,
  Option-cases, zero,
}
use mobile_final_project.Game.Types.{UnitId}
use mobile_final_project.Runtime.State.{RuntimeUnitState, RuntimePlayerState}
use mobile_final_project.Runtime.Effects.{
  offer_unavailable, insufficient_gold, roster_full, invalid_slot, unit_not_found, ok, ShopOffer,
}
use mobile_final_project.Runtime.Effects.Success.{or_fail-ok, guard-ok, ok_eq}
use mobile_final_project.Shop.Roster.{
  unit_cost, Source, board, bench, set_slot, slot_at, invested_gold,
}
use mobile_final_project.Shop.Roster.Worth.{worth, worth-set_slot}
use mobile_final_project.Shop.Mutations.{ActionContext, flat, is_free, new_unit, buy, sell}

none_ne_some : {A : Type 0} {a : A} → none ≡ some a → ⊥
none_ne_some h = cc

suc_ne_zero : {n : ℕ} → suc n ≡ 0 → ⊥
suc_ne_zero h = omega arith

suc_eq : {m n : ℕ} → suc m ≡ suc n → m ≡ n
suc_eq h = omega arith

find_index-some :
    (xs : List (Option RuntimeUnitState)) (i : ℕ)
    → find_index is_free xs ≡ some i
    → get_elem? xs i ≡ some none
find_index-some [] i h = cc
find_index-some (none ∷ xs) zero h = refl
find_index-some (none ∷ xs) (suc i) h = cc
find_index-some (some u ∷ xs) zero h = elim (Option-cases (find_index is_free xs)) [
  | inl e ↦ absurd (none_ne_some (rw e at h))
  | inr (j, e) ↦ absurd (suc_ne_zero (some_eq (rw e at h)))
]
find_index-some (some u ∷ xs) (suc i) h = elim (Option-cases (find_index is_free xs)) [
  | inl e ↦ absurd (none_ne_some (rw e at h))
  | inr (j, e) ↦ find_index-some xs i (e ∙ ap some (suc_eq (some_eq (rw e at h))))
]

flat-some : {A : Type 0} (o : Option (Option A)) {a : A} → flat o ≡ some a → o ≡ some (some a)
flat-some none h = cc
flat-some (some o) h = ap some h

new_unit-gold :
    (k : UnitId) (cost : ℕ) (fresh : String) → invested_gold (new_unit k cost fresh) ≡ cost
unfolding invested_gold
new_unit-gold k cost fresh = refl

purchase_keeps_worth :
    (st : RuntimePlayerState) (slot : ℕ) (k : UnitId) (fresh : String)
    → unit_cost k ≤ st.gold
    → get_elem? st.bench slot ≡ some none
    → worth (
        set_slot
          (record st { gold = st.gold - unit_cost k })
          bench
          slot
          (some (new_unit k (unit_cost k) fresh)))
      ≡ worth st
unfolding set_slot slot_at
purchase_keeps_worth st slot k fresh g e =
    let paid = record st { gold = st.gold - unit_cost k } in
    let w = worth-set_slot paid bench slot (some (new_unit k (unit_cost k) fresh)) none e in
    omega (arith, w, new_unit-gold k (unit_cost k) fresh)

-- What a purchase comes to.
abbrev pub IsPurchase : ℕ → ActionContext → ActionContext → ShopOffer → Type 0
IsPurchase i c c' offer =
    (get_elem? c.shop.offers i ≡ some (some offer))
    × (get_elem? c'.shop.offers i ≡ some none)
    × (c'.state.gold + unit_cost offer.unit_id ≡ c.state.gold)
    × (worth c'.state ≡ worth c.state)

-- A purchase that succeeds takes an offer that was there and removes it, pays exactly its price out
-- of gold that covers it, and leaves the worth of the player, gold and units, as it was.
pub buy-IsPurchase :
    (i : ℕ) (fresh : String) (c c' : ActionContext) (emit : Bool)
    → buy i fresh c ≡ ok (c', emit)
    → (offer : ShopOffer) × IsPurchase i c c' offer
unfolding buy set_slot
buy-IsPurchase i fresh c c' emit h =
    let (offer, o, h1) = or_fail-ok (flat (get_elem? c.shop.offers i)) offer_unavailable _ h in
    let (g, h2) = guard-ok (leb (unit_cost offer.unit_id) c.state.gold) insufficient_gold _ h1 in
    let (slot, s, h3) = or_fail-ok (find_index is_free c.state.bench) roster_full _ h2 in
    let covers = leb→le _ _ g in
    let there = flat-some (get_elem? c.shop.offers i) o in
    let e = sym (ok_eq h3) in
    (
      offer,
      (
        there,
        ap (λ (p : ActionContext × Bool). get_elem? p.0.shop.offers i) e
            ∙ get_elem?-set_self c.shop.offers i none (get_elem?-lt c.shop.offers i there),
        ap (λ (p : ActionContext × Bool). p.0.state.gold + unit_cost offer.unit_id) e
            ∙ omega (arith, covers),
        ap (λ (p : ActionContext × Bool). worth p.0.state) e
            ∙ purchase_keeps_worth c.state slot offer.unit_id fresh covers
                (find_index-some c.state.bench slot s),
      ),
    )

sale_keeps_worth :
    (st : RuntimePlayerState) (src : Source) (slot : ℕ) (u : RuntimeUnitState)
    → slot_at st src slot ≡ some (some u)
    → worth (set_slot (record st { gold = st.gold + invested_gold u }) src slot none) ≡ worth st
unfolding slot_at
sale_keeps_worth st board slot u e =
    let w =
      worth-set_slot (record st { gold = st.gold + invested_gold u }) board slot none (some u) e in
    omega (arith, w)
sale_keeps_worth st bench slot u e =
    let w =
      worth-set_slot (record st { gold = st.gold + invested_gold u }) bench slot none (some u) e in
    omega (arith, w)

-- A sale that succeeds leaves the worth of the player, gold and units, as it was.
pub sell_keeps_worth :
    (src : Source) (slot : ℕ) (c c' : ActionContext) (emit : Bool)
    → sell src slot c ≡ ok (c', emit)
    → worth c'.state ≡ worth c.state
unfolding sell
sell_keeps_worth src slot c c' emit h =
    let (entry, e, h1) = or_fail-ok (slot_at c.state src slot) invalid_slot _ h in
    let (unit, u, h2) = or_fail-ok entry unit_not_found _ h1 in
    ap (λ (p : ActionContext × Bool). worth p.0.state) (sym (ok_eq h2))
    ∙ sale_keeps_worth c.state src slot unit (e ∙ ap some u)
