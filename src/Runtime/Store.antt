-- ===== src/Runtime/Store.antt =====
-- What a match keeps in Redis, and the scripts of backend/src/redis/scripts, each of which changes
-- it in one step. Expiry of keys and the stored times are left out.
pub mod Keys
pub mod Acks
use mobile_final_project.Base.{
  ℕ, suc, String, Bool, true, false, Option, none, some, List, [], ◌∷◌, ◌++◌, ◌==◌, ◌&&◌,
  if◌then◌else◌, str_eq, any, length,
}
use mobile_final_project.Game.Types.{Side, p1, p2, BoardEvent}
use mobile_final_project.Runtime.State.{
  MatchPhase, same_phase, RuntimePlayerState, MatchRuntimeState,
}
use mobile_final_project.Runtime.Effects.{StoredShop}

abbrev pub lookup {ℓ} : {V : Type ℓ} → String → List (String × V) → Option V
lookup k [] = none
lookup k ((j, v) ∷ m) = let rest = lookup k m in if str_eq j k then some v else rest

abbrev pub insert {ℓ} : {V : Type ℓ} → String → V → List (String × V) → List (String × V)
insert k v [] = (k, v) ∷ []
insert k v ((j, w) ∷ m) =
    let rest = (j, w) ∷ insert k v m in if str_eq j k then (k, v) ∷ m else rest

-- `shops`: match:<id>:shop:<user>. `logs`: match:<id>:actionLog:<user>, the ids of the actions
-- recorded. `acks`: match:<id>:combat-done. `combat_result`: match:<id>:combat-result.
pub record MatchStore : Type 0 where
  pub runtime : Option MatchRuntimeState
  pub shops : List (String × StoredShop)
  pub logs : List (String × List String)
  pub acks : List String
  pub combat_result : Option (List BoardEvent)

abbrev pub has_id : String → List String → Bool
has_id id = any (λ j. str_eq j id)

abbrev pub ids_of : Option (List String) → List String
ids_of none = []
ids_of (some ids) = ids

-- HEXISTS actionLog:<user> <id>
unfoldable pub is_logged : MatchStore → String → String → Bool
is_logged s user id = has_id id (ids_of (lookup user s.logs))

-- HSET actionLog:<user> <id>
abbrev pub log_action : MatchStore → String → String → List (String × List String)
log_action s user id = insert user (id ∷ ids_of (lookup user s.logs)) s.logs

-- The field of the runtime hash that an action writes.
pub data RuntimeField : Type 0 where
  player_state : Side → RuntimePlayerState → RuntimeField
  ready_flag : Side → Bool → RuntimeField

abbrev pub write_field : RuntimeField → MatchRuntimeState → MatchRuntimeState
write_field (player_state p1 st) r = record r { p1_state = st }
write_field (player_state p2 st) r = record r { p2_state = st }
write_field (ready_flag p1 b) r = record r { ready_p1 = b }
write_field (ready_flag p2 b) r = record r { ready_p2 = b }

pub data Recorded : Type 0 where
  recorded duplicate phase_mismatch round_mismatch : Recorded

abbrev pub save_shop :
    String → Option StoredShop → List (String × StoredShop) → List (String × StoredShop)
save_shop user none shops = shops
save_shop user (some shop) shops = insert user shop shops

-- A hash that is gone has no round that matches.
unfoldable pub commit_action :
    String
    → String
    → RuntimeField
    → Option StoredShop
    → MatchPhase
    → ℕ
    → MatchStore
    → Option MatchRuntimeState
    → Recorded × MatchStore
commit_action user id field shop phase round s none = (round_mismatch, s)
commit_action user id field shop phase round s (some r) =
    if r.round == round
    then (if same_phase r.phase phase
        then (
          recorded,
          record s {
            runtime = some (write_field field r);
            shops = save_shop user shop s.shops;
            logs = log_action s user id;
          },
        )
        else (phase_mismatch, s))
    else (round_mismatch, s)

-- action_log.lua, with the runtime key given
unfoldable pub action_log :
    String
    → String
    → RuntimeField
    → Option StoredShop
    → MatchPhase
    → ℕ
    → MatchStore
    → Recorded × MatchStore
action_log user id field shop phase round s =
    if is_logged s user id
    then (duplicate, s)
    else commit_action user id field shop phase round s s.runtime

abbrev pub or_round : Option ℕ → ℕ → ℕ
or_round none round = round
or_round (some next) round = next

abbrev pub flip_runtime :
    MatchPhase
    → MatchPhase
    → ℕ
    → Option ℕ
    → MatchStore
    → Option MatchRuntimeState
    → Bool × MatchStore
flip_runtime expected new round next s none = (false, s)
flip_runtime expected new round next s (some r) =
    if same_phase r.phase expected && (r.round == round)
    then (
      true,
      record s { runtime = some (record r { phase = new; round = or_round next r.round }) },
    )
    else (false, s)

-- phase_flip.lua with an expected round, and the next round where it is given
unfoldable pub phase_flip : MatchPhase → MatchPhase → ℕ → Option ℕ → MatchStore → Bool × MatchStore
phase_flip expected new round next s = flip_runtime expected new round next s s.runtime

-- combat_done.lua
unfoldable pub combat_done : String → MatchStore → ℕ × MatchStore
combat_done player s =
    if has_id player s.acks
    then (length s.acks, s)
    else (suc (length s.acks), record s { acks = player ∷ s.acks })
