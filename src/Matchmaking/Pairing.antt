-- ===== src/Matchmaking/Pairing.antt =====
-- A pairing loses no player: `tryPair` of backend/src/matchmaking/matchmaking.service.ts.
use mobile_final_project.Base.{
  ℕ, suc, String, ◌≡◌, ◌⊎◌, refl, sym, subst, Bool, true, false, Option, none, some, List, [], ◌∷◌,
  ◌++◌, ◌||◌, str_eq, inl, inr, Bool-cases, text_eq_refl,
}
use mobile_final_project.Matchmaking.{
  Entry, before, is_queued, insert_entry, zadd_nx, match_pair, MatchPairResult, Hall, Outside,
  PairReply, no_pair, failed, add_all, requeue_after_failure, free_players, start_match,
  create_match, check_active, pair_popped, try_pair,
}
use mobile_final_project.Matchmaking.Order.{IsQueue, IsQueue-add_all, IsQueue-match_pair}

or_true : (a : Bool) → (a || true) ≡ true
or_true true = refl
or_true false = refl

-- A player that is in the queue stays there when another is put in.
insert_keeps :
    (user : String) (e : Entry) (q : List Entry)
    → is_queued user q ≡ true
    → is_queued user (insert_entry e q) ≡ true
unfolding insert_entry is_queued
insert_keeps user e [] h = cc
insert_keeps user e (x ∷ xs) h = elim (Bool-cases (before e x)) [
  | inl t ↦ rw t (rw h (or_true (str_eq e.user user)))
  | inr t ↦ rw t (
      later (str_eq x.user user) (is_queued user xs) (is_queued user (insert_entry e xs)) h
        (insert_keeps user e xs))
]
  where
    later : (b c d : Bool) → (b || c) ≡ true → (c ≡ true → d ≡ true) → (b || d) ≡ true
    later true c d h f = refl
    later false c d h f = f h

insert_adds : (e : Entry) (q : List Entry) → is_queued e.user (insert_entry e q) ≡ true
unfolding insert_entry is_queued
insert_adds e [] = rw (text_eq_refl e.user) refl
insert_adds e (x ∷ xs) = elim (Bool-cases (before e x)) [
  | inl t ↦ rw t (rw (text_eq_refl e.user) refl)
  | inr t ↦ rw t (rw (insert_adds e xs) (or_true (str_eq x.user e.user)))
]

zadd_keeps :
    (user : String) (e : Entry) (q : List Entry)
    → is_queued user q ≡ true
    → is_queued user (zadd_nx e q).1 ≡ true
unfolding zadd_nx
zadd_keeps user e q h = elim (Bool-cases (is_queued e.user q)) [
  | inl t ↦ rw t h
  | inr t ↦ rw t (insert_keeps user e q h)
]

zadd_adds : (e : Entry) (q : List Entry) → is_queued e.user (zadd_nx e q).1 ≡ true
unfolding zadd_nx
zadd_adds e q = elim (Bool-cases (is_queued e.user q)) [
  | inl t ↦ rw t t
  | inr t ↦ rw t (insert_adds e q)
]

add_keeps :
    (time : ℕ) (users : List String) (user : String) (q : List Entry)
    → is_queued user q ≡ true
    → is_queued user (add_all time users q) ≡ true
unfolding add_all
add_keeps time [] user q h = h
add_keeps time (x ∷ users) user q h =
    let e : Entry = record { user = x; score = time } in
    add_keeps (suc time) users user (zadd_nx e q).1 (zadd_keeps user e q h)

-- Both players of a list of two are put back.
add_pair :
    (time : ℕ) (p1 p2 : String) (q : List Entry)
    → (is_queued p1 (add_all time (p1 ∷ p2 ∷ []) q) ≡ true)
      × (is_queued p2 (add_all time (p1 ∷ p2 ∷ []) q) ≡ true)
unfolding add_all
add_pair time p1 p2 q =
    let e1 : Entry = record { user = p1; score = time } in
    let e2 : Entry = record { user = p2; score = suc time } in
    (zadd_keeps p1 e2 (zadd_nx e1 q).1 (zadd_adds e1 q), zadd_adds e2 (zadd_nx e1 q).1)

add_one : (time : ℕ) (p : String) (q : List Entry) → is_queued p (add_all time (p ∷ []) q) ≡ true
unfolding add_all
add_one time p q = zadd_adds (record { user = p; score = time }) q

-- Where a player is after a pairing: in the queue, in a match already, or in the new match.
abbrev pub IsPlaced : Outside → Hall → Hall → String → Option Bool → Type 0
IsPlaced o start end user active =
    (is_queued user end.queue ≡ true)
    ⊎ ((active ≡ some true)
        ⊎ ((match_id p1 p2 : String) × (o.created ≡ some match_id)
            × (end.matches
                ≡ start.matches
                  ++ (record { match_id = match_id; player1_id = p1; player2_id = p2 } ∷ []))
            × ((p1 ≡ user) ⊎ (p2 ≡ user))))

abbrev pub BothPlaced : Outside → Hall → String → String → PairReply × Hall → Type 0
BothPlaced o start p1 p2 p = IsPlaced o start p.1 p1 o.active1 × IsPlaced o start p.1 p2 o.active2

module _ (o : Outside) (can : o.can_requeue ≡ true) (p1 p2 : String) (h : Hall) where
  stale :
      (a b : Bool)
      → o.active1 ≡ some a
      → o.active2 ≡ some b
      → (a || b) ≡ true
      → BothPlaced o h p1 p2 (no_pair, requeue_after_failure o (free_players a b p1 p2) h)
  unfolding requeue_after_failure
  stale true true i j t = (inr (inl i), inr (inl j))
  stale true false i j t = (inr (inl i), inl (rw can (add_one o.time p2 h.queue)))
  stale false true i j t = (inl (rw can (add_one o.time p1 h.queue)), inr (inl j))
  stale false false i j t = cc

  create_ends : (c : Option String) → o.created ≡ c → BothPlaced o h p1 p2 (create_match o p1 p2 h)
  unfolding requeue_after_failure
  create_ends none e =
      let back = add_pair o.time p1 p2 h.queue in rw e (rw can (inl back.0, inl back.1))
  create_ends (some match_id) e = rw e (
    inr (inr (match_id, p1, p2, refl, refl, inl refl)),
    inr (inr (match_id, p1, p2, refl, refl, inr refl)),
  )

  check_ends :
      (a b : Bool)
      → o.active1 ≡ some a
      → o.active2 ≡ some b
      → BothPlaced o h p1 p2 (check_active o (some a) (some b) p1 p2 h)
  check_ends a b i j = elim (Bool-cases (a || b)) [
    | inl t ↦ rw t (stale a b i j t)
    | inr t ↦ rw t (create_ends o.created refl)
  ]

-- If the two look-ups and the write back succeed, then whatever other requests do after the script
-- and whether or not the match can be written and started, each of the two players that tryPair
-- took is in the queue when it ends, or has an active match already, or is one of the two players
-- of the match that was added.
pub try_pair-BothPlaced :
    (o : Outside) (others : Hall → Hall) (h : Hall) (p1 p2 : String) (a b : Bool)
    → o.can_requeue ≡ true
    → o.active1 ≡ some a
    → o.active2 ≡ some b
    → (match_pair h.queue).0 ≡ some (p1, p2)
    → BothPlaced o
        (others (record h { queue = (match_pair h.queue).1 }))
        p1
        p2
        (try_pair o others h)
unfolding try_pair
try_pair-BothPlaced o others h p1 p2 a b can e1 e2 taken =
    let now = others (record h { queue = (match_pair h.queue).1 }) in
    rw taken (
      subst (λ x. BothPlaced o now p1 p2 (check_active o x o.active2 p1 p2 now)) (sym e1)
        (subst (λ y. BothPlaced o now p1 p2 (check_active o (some a) y p1 p2 now)) (sym e2)
          (check_ends o can p1 p2 now a b e1 e2)))

-- Whatever the outside calls come to, a pairing leaves a queue in order, if other requests do.
pub try_pair-IsQueue :
    (o : Outside) (others : Hall → Hall) (h : Hall)
    → ((now : Hall) → IsQueue now.queue → IsQueue (others now).queue)
    → IsQueue h.queue
    → IsQueue (try_pair o others h).1.queue
unfolding try_pair requeue_after_failure
try_pair-IsQueue o others h keep ok =
    let q = (match_pair h.queue).1 in
    let taken : Hall = record h { queue = q } in
    go (match_pair h.queue).0 taken (IsQueue-match_pair h.queue ok)
  where
    back :
        (users : List String) (now : Hall)
        → IsQueue now.queue
        → IsQueue (requeue_after_failure o users now).queue
    back users now k = elim (Bool-cases o.can_requeue) [
      | inl t ↦ rw t (IsQueue-add_all o.time users now.queue k)
      | inr t ↦ rw t k
    ]

    written :
        (p1 p2 : String) (now : Hall)
        → IsQueue now.queue
        → (c : Option String)
        → IsQueue
            (elim c as (λ x. PairReply × Hall) [
              | none ↦ (failed, requeue_after_failure o (p1 ∷ p2 ∷ []) now)
              | some match_id ↦
                  let r : MatchPairResult = record {
                    match_id = match_id;
                    player1_id = p1;
                    player2_id = p2;
                  } in
                  start_match o r (record now { matches = now.matches ++ (r ∷ []) })
            ]).1.queue
    written p1 p2 now k none = back (p1 ∷ p2 ∷ []) now k
    written p1 p2 now k (some match_id) = k

    checked :
        (p1 p2 : String) (now : Hall)
        → IsQueue now.queue
        → (x y : Option Bool) → IsQueue (check_active o x y p1 p2 now).1.queue
    checked p1 p2 now k none y = k
    checked p1 p2 now k (some a) none = k
    checked p1 p2 now k (some a) (some b) = elim (Bool-cases (a || b)) [
      | inl t ↦ rw t (back (free_players a b p1 p2) now k)
      | inr t ↦ rw t (written p1 p2 now k o.created)
    ]

    go :
        (players : Option (String × String)) (now : Hall)
        → IsQueue now.queue
        → IsQueue (pair_popped o others players now).1.queue
    go none now k = k
    go (some (p1, p2)) now k = checked p1 p2 (others now) (keep now k) o.active1 o.active2
