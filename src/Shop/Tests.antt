-- ===== src/Shop/Tests.antt =====
-- A player's shop and requests to it on which the theorems about the shop are applied.
use mobile_final_project.Base.{
  zero, suc, sym, ◌∙◌, ℕ, ◌≡◌, refl, String, Bool, true, false, Option, none, some, List, [], ◌∷◌,
  ◌⊎◌, replicate, length,
}
use mobile_final_project.Game.Types.{p1, fighter, ranger}
use mobile_final_project.Runtime.State.{shop_place, RuntimeUnitState, RuntimePlayerState}
use mobile_final_project.Runtime.Effects.{Result, ok, ShopOffer, StoredShop}
use mobile_final_project.Runtime.Store.{MatchStore, is_logged}
use mobile_final_project.Runtime.Tests.{squire, player, match_in, store_in}
use mobile_final_project.Runtime.Place.{place_state, find_roster_unit, move_unit}
use mobile_final_project.Runtime.Place.Moves.{AtMostOnce, IsMove, place_state-IsMove}
use mobile_final_project.Shop.Roster.{
  Source, bench, set_slot, RosterEntry, board, slot_at, roster_entries,
}
use mobile_final_project.Shop.Roster.Worth.{worth, IsEntry}
use mobile_final_project.Shop.Offers.{generate_offers, seed_text}
use mobile_final_project.Shop.Offers.Generation.{AreDrawn, generate_offers-total}
use mobile_final_project.Shop.Mutations.{ActionContext, buy, sell, fuse, fuse_dragged, fuse_into}
use mobile_final_project.Shop.Mutations.Gold.{IsPurchase, buy-IsPurchase, sell_keeps_worth}
use mobile_final_project.Shop.Mutations.Copies.{Fused, fuse-Fused}
use mobile_final_project.Shop.Action.{Views, buy_offer, shop_request}
use mobile_final_project.Shop.Action.Once.{NoTrace, Served, shop_request-Served, shop_request_once}

abbrev toy_word : String → ℕ
toy_word s = 42

abbrev toy_hex : String → String
toy_hex s = "0123456789abcdef0123456789abcdef"

generate_offers-total_example :
    (os : List (Option ShopOffer)) × (generate_offers toy_word toy_hex "seed" 1 "ann" 0 ≡ ok os)
    × (length os ≡ 5)
    × AreDrawn toy_hex (seed_text "seed" 1 0 "ann") 0 (toy_word (seed_text "seed" 1 0 "ann")) os
generate_offers-total_example = generate_offers-total toy_word toy_hex "seed" 1 "ann" 0

abbrev shop : StoredShop
shop = record {
  round = 3;
  refresh_count = 0;
  refresh_used = false;
  offers = none ∷ some (record { offer_id = "o"; unit_id = ranger }) ∷ [];
}

abbrev second_squire : RuntimeUnitState
second_squire = record squire { instance_id = "g"; invested_gold = none }

abbrev owner : RuntimePlayerState
owner = record player { bench = none ∷ some second_squire ∷ replicate 6 none }

abbrev context : ActionContext
context = record { runtime = match_in shop_place; side = p1; state = owner; shop = shop }

abbrev result_or : Result (ActionContext × Bool) → ActionContext → ActionContext
result_or (ok (c, emit)) d = c
result_or _ d = d

abbrev after_buy : ActionContext
after_buy = result_or (buy 1 "u" context) context

buy_goes : buy 1 "u" context ≡ ok (after_buy, false)
unfolding buy
buy_goes = refl

buy-IsPurchase_example : (offer : ShopOffer) × IsPurchase 1 context after_buy offer
buy-IsPurchase_example = buy-IsPurchase 1 "u" context after_buy false buy_goes

abbrev after_sale : ActionContext
after_sale = result_or (sell board 1 context) context

sell_goes : sell board 1 context ≡ ok (after_sale, false)
unfolding sell slot_at
sell_goes = refl

sell_keeps_worth_example : worth after_sale.state ≡ worth owner
sell_keeps_worth_example = sell_keeps_worth board 1 context after_sale false sell_goes

abbrev after_fusion : ActionContext
after_fusion = result_or (fuse fighter (some "g") (some "f") context) context

fuse_goes : fuse fighter (some "g") (some "f") context ≡ ok (after_fusion, false)
unfolding fuse fuse_dragged fuse_into roster_entries
fuse_goes = refl

fuse-Fused_example : Fused fighter context after_fusion
fuse-Fused_example = fuse-Fused fighter (some "g") (some "f") context after_fusion false fuse_goes

abbrev shop_store : MatchStore
shop_store = record (store_in shop_place) { shops = ("ann", shop) ∷ [] }

abbrev views : Views
views = record {
  before_lock = shop_store;
  under_lock = shop_store;
  at_runtime = shop_store;
  at_shop = shop_store;
}

shop_request-Served_example :
    let out =
      shop_request toy_word toy_hex (buy_offer 1 "u") "ann" 3 "a1" (λ i. true) views shop_store in
    NoTrace shop_store out
    ⊎ Served toy_word toy_hex (buy_offer 1 "u") "ann" 3 "a1" views shop_store out
shop_request-Served_example =
    shop_request-Served toy_word toy_hex (buy_offer 1 "u") "ann" 3 "a1" (λ i. true) views shop_store

-- The store after another request with the same id came in between.
abbrev served_store : MatchStore
served_store = record shop_store { logs = ("ann", "a1" ∷ []) ∷ [] }

served-is_logged : is_logged served_store "ann" "a1" ≡ true
unfolding is_logged
served-is_logged = refl

shop_request_once_example :
    NoTrace served_store
      (shop_request toy_word toy_hex (buy_offer 1 "u") "ann" 3 "a1" (λ i. true) views served_store)
shop_request_once_example =
    shop_request_once toy_word toy_hex (buy_offer 1 "u") "ann" 3 "a1" (λ i. true) views served_store
      served-is_logged

abbrev moved_owner : RuntimePlayerState
moved_owner = record player { board = some squire ∷ []; bench = none ∷ [] }

abbrev after_move : RuntimePlayerState
after_move = record player { board = none ∷ []; bench = some squire ∷ [] }

squire_stands :
    (src : Source) (i : ℕ) (u : RuntimeUnitState)
    → slot_at moved_owner src i ≡ some (some u)
    → (src ≡ board) × (i ≡ 0)
unfolding slot_at
squire_stands board zero u h = (refl, refl)
squire_stands board (suc i) u h = cc
squire_stands bench zero u h = cc
squire_stands bench (suc i) u h = cc

moved_owner-AtMostOnce : AtMostOnce "f" moved_owner
moved_owner-AtMostOnce a b t s h k =
    let (p, q) = squire_stands a.source a.slot a.unit t in
    let (p', q') = squire_stands b.source b.slot b.unit s in (p ∙ sym p', q ∙ sym q')

squire_moves : place_state "f" bench 0 moved_owner ≡ ok after_move
unfolding place_state slot_at find_roster_unit move_unit set_slot
squire_moves = refl

place_state-IsMove_example :
    (e : RosterEntry) × IsEntry moved_owner e
    × (e.unit.instance_id ≡ "f")
    × IsMove e bench 0 moved_owner after_move
place_state-IsMove_example =
    place_state-IsMove "f" bench 0 moved_owner after_move moved_owner-AtMostOnce squire_moves
