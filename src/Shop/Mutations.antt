-- ===== src/Shop/Mutations.antt =====
-- The four actions of shop.service.ts on a player's state and shop: `buy`, `sell`, `refresh` and
-- `fuse`, each as the `mutate` callback that `withAction` runs. Its Boolean asks for new offers to be
-- sent. A fresh id of `randomUUID` is an argument.
pub mod Gold
pub mod Fusion
pub mod Copies
use mobile_final_project.Base.{
  ℕ, suc, ◌+◌, ◌-◌, String, Bool, true, false, Option, none, some, List, [], ◌∷◌, ◌&&◌, ◌||◌, not,
  ltb, leb, ◌==◌, set, get_elem?, filter, find, find_index, any, length, compare, sort_by, str_eq,
  if◌then◌else◌, Ordering,
}
use mobile_final_project.Game.Types.{Side, p1, p2, UnitId, same_unit}
use mobile_final_project.Game.Constants.{unit_base_stats}
use mobile_final_project.Runtime.State.{
  RuntimeUnitState, Slots, RuntimePlayerState, MatchRuntimeState,
}
use mobile_final_project.Runtime.Effects.{
  ErrorCode, offer_unavailable, insufficient_gold, roster_full, invalid_slot, unit_not_found,
  refresh_used, invalid_fuse_pair, cannot_fuse, Result, ok, err, ◌>>=◌, ◌>>◌, guard, or_fail,
  ShopOffer, StoredShop,
}
use mobile_final_project.Shop.Roster.{
  unit_cost, Source, board, bench, source_code, slots_of, set_slot, slot_at, RosterEntry,
  roster_entries, invested_gold,
}
use mobile_final_project.Shop.Offers.{generate_offers}

pub record ActionContext : Type 0 where
  pub runtime : MatchRuntimeState
  pub side : Side
  pub state : RuntimePlayerState
  pub shop : StoredShop

-- An entry that is absent, for an index out of range, is a `null` one.
abbrev pub flat {ℓ} : {A : Type ℓ} → Option (Option A) → Option A
flat none = none
flat (some o) = o

abbrev pub is_free : Option RuntimeUnitState → Bool
is_free none = true
is_free (some u) = false

abbrev pub new_unit : UnitId → ℕ → String → RuntimeUnitState
new_unit unit_id cost fresh =
    let max_hp = (unit_base_stats unit_id).hp in
    record {
      instance_id = fresh;
      unit_id = unit_id;
      star = 0;
      hp = max_hp;
      max_hp = max_hp;
      invested_gold = some cost;
    }

abbrev pub merge_units : RuntimeUnitState → RuntimeUnitState → RuntimeUnitState
merge_units target consumed = record target {
  star = target.star + 1;
  invested_gold = some (invested_gold target + invested_gold consumed);
  hp = target.max_hp;
}

unfoldable pub buy : ℕ → String → ActionContext → Result (ActionContext × Bool)
buy offer_index fresh c = do
  offer ← or_fail (flat (get_elem? c.shop.offers offer_index)) offer_unavailable
  guard (leb (unit_cost offer.unit_id) c.state.gold) insufficient_gold
  slot ← or_fail (find_index is_free c.state.bench) roster_full
  let paid = record c.state { gold = c.state.gold - unit_cost offer.unit_id }
  let bought = new_unit offer.unit_id (unit_cost offer.unit_id) fresh
  ok (
    record c {
      state = set_slot paid bench slot (some bought);
      shop = record c.shop { offers = set c.shop.offers offer_index none };
    },
    false,
  )

unfoldable pub sell : Source → ℕ → ActionContext → Result (ActionContext × Bool)
sell source slot c = do
  entry ← or_fail (slot_at c.state source slot) invalid_slot
  unit ← or_fail entry unit_not_found
  let paid = record c.state { gold = c.state.gold + invested_gold unit }
  ok (record c { state = set_slot paid source slot none }, false)

module _ (digest_word : String → ℕ) (digest_hex : String → String) where
  unfoldable pub refresh : ℕ → String → ActionContext → Result (ActionContext × Bool)
  refresh round user c = do
    guard (not c.shop.refresh_used) refresh_used
    let count = c.shop.refresh_count + 1
    offers ← generate_offers digest_word digest_hex c.runtime.match_seed round user count
    ok (
      record c {
        shop = record c.shop { refresh_used = true; refresh_count = count; offers = offers };
      },
      true,
    )

abbrev pub is_unit : String → RosterEntry → Bool
is_unit id e = str_eq e.unit.instance_id id

-- The unit of `second` goes into the unit of `target`, in its slot.
unfoldable pub fuse_into : RosterEntry → RosterEntry → ActionContext → Result (ActionContext × Bool)
fuse_into target second c =
    let merged =
      set_slot c.state target.source target.slot (some (merge_units target.unit second.unit)) in
    ok (record c { state = set_slot merged second.source second.slot none }, false)

abbrev pub can_fuse : UnitId → RosterEntry → RosterEntry → Bool
can_fuse unit_id source target =
    same_unit source.unit.unit_id unit_id
    && same_unit target.unit.unit_id unit_id
    && (source.unit.star == target.unit.star)
    && ltb target.unit.star 2

unfoldable pub fuse_dragged :
    UnitId → String → String → ActionContext → Result (ActionContext × Bool)
fuse_dragged unit_id source_id target_id c = do
  guard (not (str_eq source_id target_id)) cannot_fuse
  source ← or_fail (find (is_unit source_id) (roster_entries c.state)) unit_not_found
  target ← or_fail (find (is_unit target_id) (roster_entries c.state)) unit_not_found
  guard (can_fuse unit_id source target) cannot_fuse
  fuse_into target source c

abbrev pub is_candidate : UnitId → RosterEntry → Bool
is_candidate unit_id e = same_unit e.unit.unit_id unit_id && ltb e.unit.star 2

abbrev pub by_star : RosterEntry → RosterEntry → Ordering
by_star a b = compare a.unit.star b.unit.star

abbrev pub same_star : RosterEntry → RosterEntry → Bool
same_star a b = b.unit.star == a.unit.star

-- `===` on two entries of one player's roster
abbrev pub same_entry : RosterEntry → RosterEntry → Bool
same_entry a b = (source_code a.source == source_code b.source) && (a.slot == b.slot)

-- The first entry that a later one of the same star follows.
abbrev pub first_pair : List RosterEntry → Option RosterEntry
first_pair [] = none
first_pair (e ∷ rest) =
    let later = first_pair rest in if any (same_star e) rest then some e else later

abbrev pub is_partner : RosterEntry → RosterEntry → Bool
is_partner pair e = not (same_entry e pair) && same_star pair e

unfoldable pub candidates : UnitId → RuntimePlayerState → List RosterEntry
candidates unit_id st = sort_by by_star (filter (is_candidate unit_id) (roster_entries st))

unfoldable pub fuse_any : UnitId → ActionContext → Result (ActionContext × Bool)
fuse_any unit_id c = do
  pair ← or_fail (first_pair (candidates unit_id c.state)) cannot_fuse
  second ← or_fail (find (is_partner pair) (candidates unit_id c.state)) ErrorCode.internal_error
  fuse_into pair second c

abbrev is_given : Option String → Bool
is_given none = false
is_given (some id) = true

abbrev id_or_empty : Option String → String
id_or_empty none = ""
id_or_empty (some id) = id

-- An id that is missing or empty is not `truthy`.
unfoldable pub fuse :
    UnitId → Option String → Option String → ActionContext → Result (ActionContext × Bool)
fuse unit_id source_id target_id c =
    if (is_given source_id && not (is_given target_id))
      || (not (is_given source_id) && is_given target_id)
    then err invalid_fuse_pair
    else (if str_eq (id_or_empty source_id) "" || str_eq (id_or_empty target_id) ""
        then fuse_any unit_id c
        else fuse_dragged unit_id (id_or_empty source_id) (id_or_empty target_id) c)
