-- ===== src/Runtime/Effects.antt =====
-- What a request may answer, and what it sends out: messages to the players, delayed jobs, writes
-- to the database and the one write to Redis whose expiry is given, in the order of the calls.
pub mod Success
use mobile_final_project.Base.{
  ℕ, ◌+◌, String, Bool, true, false, Option, none, some, List, [], ◌∷◌, str_eq, if◌then◌else◌,
}
use mobile_final_project.Game.Types.{Side, p1, p2, UnitId, BoardEvent}
use mobile_final_project.Runtime.State.{
  MatchPhase, Slots, RuntimePlayerState, MatchRuntimeState, MatchStatePayload, by_side,
  match_state_payload,
}
use mobile_final_project.Runtime.Rules.{DamagePayload}

-- The `code` of an exception.
pub data ErrorCode : Type 0 where
  runtime_not_found round_mismatch not_your_turn not_participant not_your_match : ErrorCode
  offers_not_found offer_unavailable insufficient_gold roster_full : ErrorCode
  invalid_slot unit_not_found refresh_used invalid_fuse_pair cannot_fuse shop_busy : ErrorCode
  slot_out_of_range unit_not_owned slot_occupied action_busy internal_error : ErrorCode

pub data Result {ℓ} (A : Type ℓ) : Type ℓ where
  ok : A → Result A
  err : ErrorCode → Result A

-- `if (!b) this.fail(e)`
abbrev pub guard : Bool → ErrorCode → Result (Unit {0})
guard Bool.false code = err code
guard Bool.true code = ok tt

infixl 5 ◌>>=◌
abbrev pub ◌>>=◌ {ℓ κ} : {A : Type ℓ} {B : Type κ} → Result A → (A → Result B) → Result B
err code >>= next = err code
ok value >>= next = next value

infixl 5 ◌>>◌
abbrev pub ◌>>◌ {κ} : {B : Type κ} → Result (Unit {0}) → Result B → Result B
first >> second = first >>= λ done. second

abbrev pub or_fail {ℓ} : {A : Type ℓ} → Option A → ErrorCode → Result A
or_fail Option.none e = err e
or_fail (Option.some a) e = ok a

-- An offer of the shop; its star is always 0.
pub record ShopOffer : Type 0 where
  pub offer_id : String
  pub unit_id : UnitId

pub record StoredShop : Type 0 where
  pub round : ℕ
  pub refresh_count : ℕ
  pub refresh_used : Bool
  pub offers : List (Option ShopOffer)

pub record PhasePlayer : Type 0 where
  pub id : String
  pub username : String
  pub hp : ℕ
  pub gold : ℕ
  pub ready : Bool

pub record PhasePayload : Type 0 where
  pub match_id : String
  pub phase : MatchPhase
  pub round : ℕ
  pub timer : ℕ
  pub player1 : PhasePlayer
  pub player2 : PhasePlayer

pub data EndReason : Type 0 where
  hp_zero forfeit : EndReason

pub data Effect : Type 0 where
  update_state : Side → RuntimePlayerState → Effect
  match_state : (user : String) → MatchStatePayload → Effect
  shop_offer : (user : String) (round : ℕ) → List (Option ShopOffer) → Effect
  match_phase : PhasePayload → Effect
  match_damage : DamagePayload → Effect
  combat_events : (round cycle_count : ℕ) → List BoardEvent → (p1 p2 : Slots) → Effect
  cache_combat_result : List BoardEvent → (ttl_seconds : ℕ) → Effect
  append_round_events : (round : ℕ) → List BoardEvent → Effect
  schedule_phase_start : (round ms : ℕ) → Effect
  schedule_round_ready_timeout : (round ms : ℕ) → Effect
  schedule_combat_done_timeout : (round ms : ℕ) → Effect
  update_snapshot : (p1 p2 : RuntimePlayerState) (wipe_index_p1 wipe_index_p2 : ℕ) → Effect
  finalize : (winner : Option String) → EndReason → Effect
  forfeit_disconnected : (user : String) → Effect

-- `Number(b)`
abbrev pub count_of : Bool → ℕ
count_of true = 1
count_of false = 0

-- `publishState`: a message to each player, with its own side first.
unfoldable pub publish_state : MatchRuntimeState → Side → RuntimePlayerState → List Effect
publish_state r side changed =
    let st1 = by_side side changed r.p1_state in
    let st2 = by_side side r.p2_state changed in
    let ready_count = count_of r.ready_p1 + count_of r.ready_p2 in
    match_state r.player1_id (match_state_payload r p1 st1 st2 ready_count)
    ∷ match_state r.player2_id (match_state_payload r p2 st2 st1 ready_count)
    ∷ []

abbrev pub side_of : MatchRuntimeState → String → Option Side
side_of r user =
    if str_eq r.player1_id user
    then some p1
    else (if str_eq r.player2_id user then some p2 else none)
