-- ===== src/Match/Ratings.antt =====
-- What the end of a match does to ratings.
use native.Mathlib.Nat.{div-lt_iff_lt-mul, mul-div-le}
use mobile_final_project.Base.{
  ℕ, suc, ◌+◌, ◌-◌, ◌*◌, ◌/◌, ◌≤◌, ◌<◌, String, ◌≡◌, ◌≢◌, ◌⊎◌, refl, sym, ap, ◌∙◌, subst, Bool,
  true, false, Option, none, some, not, ◌||◌, if◌then◌else◌, str_eq, Table, assign_self, assign_ne,
  inl, inr, is_some, text_cases, text_eq_refl, arith,
}
use mobile_final_project.Match.{
  is_in_progress, MatchEndReason, Match, User, Database, Delta, Ratio, elo_delta, up, down, negate,
  difference, add_delta, MatchReply, answered, refused, was_over, invalid_winner, player_not_found,
  update_rating, set_rating, truthy, is_winner_of, close_won, close_rated, close_with, close_found,
  close_match, finalize, after_closing, delta_for, Closing,
}

-- The whole number nearest to 32 times `share` out of `total`.
abbrev pub IsNearest : (points share total : ℕ) → Type 0
IsNearest points share total =
    (2 * (points * total) ≤ 2 * (32 * share) + total)
    × (2 * (32 * share) ≤ 2 * (points * total) + total)

-- With the power of ten a / b the winner has a / (a + b) of the points to win, and the loser
-- b / (a + b) to lose.
abbrev pub share_of : Bool → Ratio → ℕ
share_of true power = power.above
share_of false power = power.below

abbrev points_for : Bool → ℕ → Delta
points_for true n = up n
points_for false n = down n

updated :
    (id : String) (d : Delta) (users : Table User) (u : User)
    → users id ≡ some u
    → update_rating id d users id ≡ some (record u { rating = add_delta u.rating d })
unfolding update_rating
updated id d users u h =
    ap (λ (o : Option User). set_rating o id d users id) h
    ∙ assign_self id (some (record u { rating = add_delta u.rating d })) users

untouched :
    (id x : String) (d : Delta) (users : Table User) → x ≢ id → update_rating id d users x ≡ users x
unfolding update_rating
untouched id x d users n = go (users id)
  where
    go : (o : Option User) → set_rating o id d users x ≡ users x
    go none = refl
    go (some u) = assign_ne id x (some (record u { rating = add_delta u.rating d })) users n

-- What a quotient by twice the total lies between.
quotient_bounds :
    (x total : ℕ)
    → 0 < total
    → x < 66 * total
    → let n = x / (2 * total) in (n < 33) × (2 * total * n ≤ x) × (x < suc n * (2 * total))
quotient_bounds x total h k =
    let n = x / (2 * total) in
    let twice : 0 < 2 * total = omega arith in
    (
      (div-lt_iff_lt-mul {k = 2 * total} {x = x} {y = 33} twice).1 (omega arith),
      mul-div-le x (2 * total),
      (div-lt_iff_lt-mul {k = 2 * total} {x = x} {y = suc n} twice).0 (omega arith),
    )

rounds_up :
    (share total : ℕ)
    → 0 < total
    → share ≤ total
    → let n = (2 * (32 * share) + total) / (2 * total) in (n ≤ 32) × IsNearest n share total
rounds_up share total h k =
    let (below, low, high) = quotient_bounds (2 * (32 * share) + total) total h (omega arith) in
    (omega (arith, below), (grind (arith, low), grind (arith, high)))

rounds_down :
    (share total : ℕ)
    → 0 < total
    → share ≤ total
    → let n = (2 * (32 * share) + total - 1) / (2 * total) in (n ≤ 32) × IsNearest n share total
rounds_down share total h k =
    let (below, low, high) = quotient_bounds (2 * (32 * share) + total - 1) total h (omega arith) in
    (omega (arith, below), (grind (arith, low), grind (arith, high)))

-- `eloDelta` gives a winner and takes from a loser the whole number nearest to 32 times the share.
elo_delta-IsNearest :
    (ten_to : Delta → Ratio)
    → ((d : Delta) → 0 < (ten_to d).above + (ten_to d).below)
    → (rating opponent_rating : ℕ) (won : Bool)
    → let power = ten_to (difference opponent_rating rating) in
      (n : ℕ) × (n ≤ 32)
      × IsNearest n (share_of won power) (power.above + power.below)
      × (elo_delta ten_to rating opponent_rating won ≡ points_for won n)
unfolding elo_delta
elo_delta-IsNearest ten_to law rating opponent_rating true =
    let power = ten_to (difference opponent_rating rating) in
    let (le, near) =
      rounds_up power.above (power.above + power.below) (law (difference opponent_rating rating))
        (omega arith) in
    (_, le, near, refl)
elo_delta-IsNearest ten_to law rating opponent_rating false =
    let power = ten_to (difference opponent_rating rating) in
    let (le, near) =
      rounds_down power.below (power.above + power.below) (law (difference opponent_rating rating))
        (omega arith) in
    (_, le, near, refl)

bools_apart : true ≡ false → ⊥
bools_apart h = cc

differs : (a b : String) → a ≢ b → str_eq a b ≡ false
differs a b n = elim (text_cases a b) [ inl (e, t) ↦ absurd (n e) | inr (d, t) ↦ t ]

wins :
    (m : Match) (winner : String)
    → (winner ≡ m.player1_id) ⊎ (winner ≡ m.player2_id)
    → is_winner_of m winner ≡ true
wins m winner (inl e) = let t = same winner m.player1_id e in rw t refl
  where
    same : (a b : String) → a ≡ b → str_eq a b ≡ true
    same a b e = subst (λ (x : String). str_eq a x ≡ true) e (text_eq_refl a)
wins m winner (inr e) =
    let t = same winner m.player2_id e in rw t (or_true (str_eq winner m.player1_id))
  where
    same : (a b : String) → a ≡ b → str_eq a b ≡ true
    same a b e = subst (λ (x : String). str_eq a x ≡ true) e (text_eq_refl a)

    or_true : (a : Bool) → (a || true) ≡ true
    or_true true = refl
    or_true false = refl

module _ (ten_to : Delta → Ratio) (match_id : String) (winner : String) (reason : MatchEndReason)
    (now : ℕ) (db : Database) (m : Match) (u1 u2 : User) where
  closes_rated :
      db.matches match_id ≡ some m
      → is_in_progress m.status ≡ true
      → winner ≢ ""
      → (winner ≡ m.player1_id) ⊎ (winner ≡ m.player2_id)
      → m.player1_id ≢ m.player2_id
      → db.users m.player1_id ≡ some u1
      → db.users m.player2_id ≡ some u2
      → close_match ten_to match_id (some winner) reason now db
        ≡ close_rated ten_to m winner (some winner) reason now u1 u2 db
  unfolding close_match
  closes_rated there playing named side apart k1 k2 =
      let t1 = differs winner "" named in
      let t2 = wins m winner side in
      let t3 = differs m.player1_id m.player2_id apart in
      ap (λ (o : Option Match). close_found ten_to o (some winner) reason now db) there
      ∙ ap
          (λ (b : Bool).
            if not b
            then (answered (was_over (is_some m.finished_at)), db)
            else close_with ten_to m (truthy (some winner)) (some winner) reason now db)
          playing
      ∙ ap
          (λ (b : Bool).
            close_with ten_to m (if b then none else some winner) (some winner) reason now db)
          t1
      ∙ ap
          (λ (b : Bool).
            if not b
            then (refused invalid_winner, db)
            else close_won ten_to m winner (some winner) reason now (db.users m.player1_id)
                (db.users m.player2_id) db)
          t2
      ∙ ap
          (λ (o : Option User).
            close_won ten_to m winner (some winner) reason now o (db.users m.player2_id) db)
          k1
      ∙ ap (λ (o : Option User). close_won ten_to m winner (some winner) reason now (some u1) o db)
          k2
      ∙ ap
          (λ (b : Bool).
            if b
            then (refused player_not_found, db)
            else close_rated ten_to m winner (some winner) reason now u1 u2 db)
          t3

  -- The rows of the two players, with these points moved to the winner from the loser.
  abbrev pub HasMoved : Bool → ℕ → Table User → Type 0
  HasMoved true n after =
      (after m.player1_id ≡ some (record u1 { rating = u1.rating + n }))
      × (after m.player2_id ≡ some (record u2 { rating = u2.rating - n }))
  HasMoved false n after =
      (after m.player1_id ≡ some (record u1 { rating = u1.rating - n }))
      × (after m.player2_id ≡ some (record u2 { rating = u2.rating + n }))

  -- What the ratings of the two players become, by whether the first has won.
  abbrev pub HasRated : Bool → Table User → Type 0
  HasRated won after =
      let power = ten_to (difference u2.rating u1.rating) in
      (n : ℕ) × (n ≤ 32)
      × IsNearest n (share_of won power) (power.above + power.below)
      × HasMoved won n after

  moved :
      (won : Bool) (n : ℕ)
      → m.player1_id ≢ m.player2_id
      → db.users m.player1_id ≡ some u1
      → db.users m.player2_id ≡ some u2
      → HasMoved won n (
          update_rating m.player2_id
            (negate (points_for won n))
            (update_rating m.player1_id (points_for won n) db.users))
  moved won n apart k1 k2 =
      let d = points_for won n in
      let first = update_rating m.player1_id d db.users in
      let at1 =
        untouched m.player2_id m.player1_id (negate d) first apart
        ∙ updated m.player1_id d db.users u1 k1 in
      let at2 =
        updated m.player2_id (negate d) first u2
          (untouched m.player1_id m.player2_id d db.users (λ e. apart (sym e)) ∙ k2) in
      go won at1 at2
    where
      go :
          (b : Bool)
          → update_rating m.player2_id
              (negate (points_for won n))
              (update_rating m.player1_id (points_for won n) db.users)
              m.player1_id
            ≡ some (record u1 { rating = add_delta u1.rating (points_for b n) })
          → update_rating m.player2_id
              (negate (points_for won n))
              (update_rating m.player1_id (points_for won n) db.users)
              m.player2_id
            ≡ some (record u2 { rating = add_delta u2.rating (negate (points_for b n)) })
          → HasMoved b n (
              update_rating m.player2_id
                (negate (points_for won n))
                (update_rating m.player1_id (points_for won n) db.users))
      go true at1 at2 = (at1, at2)
      go false at1 at2 = (at1, at2)

  rated :
      (won : Bool)
      → ((d : Delta) → 0 < (ten_to d).above + (ten_to d).below)
      → m.player1_id ≢ m.player2_id
      → db.users m.player1_id ≡ some u1
      → db.users m.player2_id ≡ some u2
      → let d = elo_delta ten_to u1.rating u2.rating won in
        HasRated won (update_rating m.player2_id (negate d) (update_rating m.player1_id d db.users))
  rated won law apart k1 k2 =
      let (n, le, near, e) = elo_delta-IsNearest ten_to law u1.rating u2.rating won in
      (
        n,
        le,
        near,
        subst
            (λ (d : Delta).
              HasMoved won n
                (update_rating m.player2_id (negate d) (update_rating m.player1_id d db.users)))
            (sym e) (moved won n apart k1 k2),
      )

  -- If a power of ten is a quotient a / b of two whole numbers that are not both 0, the match stands
  -- in its row and is in progress, its two players are different and have rows, and one of them is
  -- the winner, then finalize answers true, and for one number of points, 32 at most, the winner's
  -- rating has risen and the loser's fallen by it, though not below 0; nothing else of the two rows
  -- and no row of another user has changed. Where a / b is 10 to the power of the difference, second
  -- rating less first, over 400, the points are 32 a / (a + b) to the nearest whole number if the
  -- first player has won, and 32 b / (a + b) if the second has.
  pub finalize-HasRated :
      ((d : Delta) → 0 < (ten_to d).above + (ten_to d).below)
      → db.matches match_id ≡ some m
      → is_in_progress m.status ≡ true
      → winner ≢ ""
      → (winner ≡ m.player1_id) ⊎ (winner ≡ m.player2_id)
      → m.player1_id ≢ m.player2_id
      → db.users m.player1_id ≡ some u1
      → db.users m.player2_id ≡ some u2
      → ((finalize ten_to match_id (some winner) reason now db).0 ≡ answered true)
        × HasRated
            (str_eq winner m.player1_id)
            (finalize ten_to match_id (some winner) reason now db).1.users
        × ((x : String)
            → x ≢ m.player1_id
            → x ≢ m.player2_id
            → (finalize ten_to match_id (some winner) reason now db).1.users x ≡ db.users x)
  unfolding finalize
  finalize-HasRated law there playing named side apart k1 k2 =
      let d = delta_for ten_to m winner u1 u2 in
      let first = update_rating m.player1_id d db.users in
      subst
        (λ (p : MatchReply Closing × Database).
          ((after_closing match_id reason now p).0 ≡ answered true)
          × HasRated (str_eq winner m.player1_id) (after_closing match_id reason now p).1.users
          × ((x : String)
              → x ≢ m.player1_id
              → x ≢ m.player2_id
              → (after_closing match_id reason now p).1.users x ≡ db.users x))
        (sym (closes_rated there playing named side apart k1 k2))
        (
          refl,
          rated (str_eq winner m.player1_id) law apart k1 k2,
          (λ x n1 n2.
              untouched m.player2_id x (negate d) first n2
              ∙ untouched m.player1_id x d db.users n1),
        )
