-- ===== src/Runtime/Rules.antt =====
-- `battleWinner`, `damageFor` and `resolveRound` of backend/src/runtime/match.runtime.adapter.ts.
pub mod Winner
pub mod Damage
pub mod Duration
use mobile_final_project.Base.{
  ℕ, suc, ◌+◌, ◌*◌, ◌-◌, String, Bool, true, false, Option, none, some, List, [], ◌∷◌, ◌==◌, ltb,
  min, if◌then◌else◌, ◌&&◌,
}
use mobile_final_project.Game.Types.{Side, p1, p2, BoardEvent, CombatEvent, battle_end}
use mobile_final_project.Runtime.State.{RuntimePlayerState, MatchRuntimeState}

abbrev pub tie_damage : ℕ
tie_damage = 5

abbrev winner_in : CombatEvent → Option (Option Side)
winner_in (battle_end cycle winner) = some winner
winner_in _ = none

abbrev or_earlier : Option (Option Side) → Option (Option Side) → Option (Option Side)
or_earlier (some w) earlier = some w
or_earlier none earlier = earlier

-- The winner of the last `battle_end`; `none` stands for the exception when there is none.
unfoldable pub battle_winner : List BoardEvent → Option (Option Side)
battle_winner [] = none
battle_winner (e ∷ es) = or_earlier (battle_winner es) (winner_in e.event)

pub record RoundDamage : Type 0 where
  pub p1 : ℕ
  pub p2 : ℕ
  pub wipe_index_p1 : ℕ
  pub wipe_index_p2 : ℕ

unfoldable pub damage_for : Option Side → ℕ → ℕ → RoundDamage
damage_for none p1_index p2_index = record {
  p1 = tie_damage;
  p2 = tie_damage;
  wipe_index_p1 = p1_index;
  wipe_index_p2 = p2_index;
}
damage_for (some Side.p1) p1_index p2_index =
    let next = min 5 (p2_index + 1) in
    record { p1 = 0; p2 = next * 5; wipe_index_p1 = p1_index; wipe_index_p2 = next }
damage_for (some Side.p2) p1_index p2_index =
    let next = min 5 (p1_index + 1) in
    record { p1 = next * 5; p2 = 0; wipe_index_p1 = next; wipe_index_p2 = p2_index }

pub record DamageReport : Type 0 where
  pub wiped : Bool
  pub tie : Bool
  pub hp_before : ℕ
  pub hp_after : ℕ
  pub damage_applied : ℕ

pub record DamagePayload : Type 0 where
  pub match_id : String
  pub round : ℕ
  pub p1 : DamageReport
  pub p2 : DamageReport
  pub winner : Option Side

-- `undefined`, or the winner's id, which is null when both players fall.
pub data MatchResult : Type 0 where
  undecided : MatchResult
  decided : Option String → MatchResult

pub record Resolution : Type 0 where
  pub winner : Option Side
  pub damage : RoundDamage
  pub p1 : RuntimePlayerState
  pub p2 : RuntimePlayerState
  pub payload : DamagePayload
  pub winner_id : MatchResult

abbrev won_by : Option Side → Side → Bool
won_by none s = false
won_by (some Side.p1) Side.p1 = true
won_by (some Side.p1) Side.p2 = false
won_by (some Side.p2) Side.p1 = false
won_by (some Side.p2) Side.p2 = true

abbrev is_tie : Option Side → Bool
is_tie none = true
is_tie (some s) = false

unfoldable pub match_result : MatchRuntimeState → ℕ → ℕ → MatchResult
match_result runtime hp1 hp2 =
    if (hp1 == 0) && (hp2 == 0)
    then decided none
    else if hp1 == 0
    then decided (some runtime.player2_id)
    else if hp2 == 0
    then decided (some runtime.player1_id)
    else undecided

-- The rest of `resolveRound`, once the winner is known. `-` stops at 0, as `Math.max(0, …)` does.
unfoldable pub resolve_winner : MatchRuntimeState → ℕ → Option Side → Resolution
unfolding damage_for match_result
resolve_winner runtime round winner =
    let damage = damage_for winner runtime.wipe_index_p1 runtime.wipe_index_p2 in
    let hp1 = runtime.p1_state.hp - damage.p1 in
    let hp2 = runtime.p2_state.hp - damage.p2 in
    record {
      winner = winner;
      damage = damage;
      p1 = record runtime.p1_state { hp = hp1 };
      p2 = record runtime.p2_state { hp = hp2 };
      payload = record {
        match_id = runtime.match_id;
        round = round;
        p1 = record {
          wiped = won_by winner Side.p2;
          tie = is_tie winner;
          hp_before = runtime.p1_state.hp;
          hp_after = hp1;
          damage_applied = damage.p1;
        };
        p2 = record {
          wiped = won_by winner Side.p1;
          tie = is_tie winner;
          hp_before = runtime.p2_state.hp;
          hp_after = hp2;
          damage_applied = damage.p2;
        };
        winner = winner;
      };
      winner_id = match_result runtime hp1 hp2;
    }

unfoldable pub resolve_round : MatchRuntimeState → ℕ → List BoardEvent → Option Resolution
resolve_round runtime round events = elim (battle_winner events) [
  | none ↦ none
  | some w ↦ some (resolve_winner runtime round w)
]
