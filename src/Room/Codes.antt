-- ===== src/Room/Codes.antt =====
-- The codes that `randomRoomCode` of backend/src/room/room.types.ts makes are codes that `joinRoom`
-- of backend/src/room/room.service.ts takes.

use Prim.Native.String.{char_at}
use mobile_final_project.Base.{
  ℕ, zero, suc, ◌%◌, ◌<◌, ◌≡◌, refl, ap, sym, ◌∙◌, ◌⊎◌, inl, inr, Bool, true, false, List, [], ◌∷◌,
  ◌&&◌, arith, length,
}
use mobile_final_project.Room.Types.{code_alphabet, code_char, random_room_code, code_length}
use mobile_final_project.Room.Service.{is_code_char, is_code_of, is_room_code}

-- The first `n` characters of the alphabet may stand in a code.
abbrev all_below : ℕ → Bool
all_below zero = true
all_below (suc n) = is_code_char (char_at code_alphabet n) && all_below n

alphabet_ok : all_below 32 ≡ true
unfolding is_code_char
alphabet_ok = refl

and_true : (a b : Bool) → (a && b) ≡ true → (a ≡ true) × (b ≡ true)
and_true true true h = (refl, refl)
and_true true false h = cc
and_true false b h = cc

below_ok : (n i : ℕ) → all_below n ≡ true → i < n → is_code_char (char_at code_alphabet i) ≡ true
below_ok zero i h l = absurd (omega arith)
below_ok (suc n) i h l =
    let (first, rest) = and_true (is_code_char (char_at code_alphabet n)) (all_below n) h in
    elim (cases i n l) [
      | inl e ↦ ap (λ (j : ℕ). is_code_char (char_at code_alphabet j)) e ∙ first
      | inr k ↦ below_ok n i rest k
    ]
  where
    cases : (i n : ℕ) → i < suc n → (i ≡ n) ⊎ (i < n)
    cases i n h = omega arith

code_char-ok : (b : ℕ) → is_code_char (code_char b) ≡ true
unfolding code_char
code_char-ok b = below_ok 32 (b % 32) alphabet_ok (omega arith)

-- Whatever the random bytes are, the characters made of them are as many, and all of them may
-- stand in a code.
random_room_code-IsCode :
    (bytes : List ℕ) → is_code_of (length bytes) (random_room_code bytes) ≡ true
unfolding is_code_of random_room_code
random_room_code-IsCode [] = refl
random_room_code-IsCode (b ∷ bytes) = rw (code_char-ok b) (random_room_code-IsCode bytes)

-- Whatever six random bytes are drawn, the code that randomRoomCode makes of them is one that
-- joinRoom takes.
pub random_room_code-is_room_code :
    (bytes : List ℕ) → length bytes ≡ code_length → is_room_code (random_room_code bytes) ≡ true
random_room_code-is_room_code bytes h =
    ap (λ (n : ℕ). is_code_of n (random_room_code bytes)) (sym h) ∙ random_room_code-IsCode bytes
