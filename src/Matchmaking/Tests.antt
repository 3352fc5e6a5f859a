-- ===== src/Matchmaking/Tests.antt =====
-- The theorems on the queue at three waiting players.
use mobile_final_project.Base.{◌≡◌, refl, true, false, none, some, [], ◌∷◌}
use mobile_final_project.Matchmaking.{Entry, Hall, Outside, match_pair, try_pair, zrem, is_queued}
use mobile_final_project.Matchmaking.Pairing.{BothPlaced, try_pair-BothPlaced}

abbrev ada : Entry
ada = record { user = "ada"; score = 10 }

abbrev bob : Entry
bob = record { user = "bob"; score = 20 }

abbrev cy : Entry
cy = record { user = "cy"; score = 20 }

abbrev hall : Hall
hall = record { queue = ada ∷ bob ∷ cy ∷ []; matches = [] }

-- The match cannot be written.
abbrev no_database : Outside
no_database = record {
  active1 = some false;
  active2 = some false;
  created = none;
  started = true;
  can_requeue = true;
  time = 30;
}

taken : (match_pair hall.queue).0 ≡ some ("ada", "bob")
unfolding match_pair
taken = refl

try_pair-BothPlaced_example :
    BothPlaced no_database
      (record hall { queue = (match_pair hall.queue).1 })
      "ada"
      "bob"
      (try_pair no_database (λ h. h) hall)
try_pair-BothPlaced_example =
    try_pair-BothPlaced no_database (λ h. h) hall "ada" "bob" false false refl refl refl taken

-- Where a look-up fails, the players that were taken are not put back.
look_up_fails :
    is_queued "ada" (try_pair (record no_database { active1 = none }) (λ h. h) hall).1.queue ≡ false
unfolding try_pair match_pair zrem is_queued
look_up_fails = refl
