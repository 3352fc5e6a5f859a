-- ===== src/Matchmaking/Order.antt =====
-- The queue keeps its players in the order in which they came, each of them once.
use mobile_final_project.Base.{
  ℕ, suc, ◌≤◌, String, ◌≡◌, ◌≢◌, ◌⊎◌, refl, sym, ◌∙◌, Bool, true, false, List, [], ◌∷◌, ◌||◌,
  str_eq, All, All-imp, All-both, inl, inr, text_cases, Bool-cases, arith,
}
use mobile_final_project.Matchmaking.{
  Entry, before, is_queued, insert_entry, zadd_nx, zrem, match_pair, add_all,
}

-- Every player stands in front of later ones with other names.
abbrev pub IsQueue : List Entry → Type 0
IsQueue [] = Unit
IsQueue (x ∷ xs) = All (λ y. (x.score ≤ y.score) × (y.user ≢ x.user)) xs × IsQueue xs

bools_apart : true ≡ false → ⊥
bools_apart h = cc

before_le : (a b : Entry) → before a b ≡ true → a.score ≤ b.score
before_le a b h = ground arith

not_before_le : (a b : Entry) → before a b ≡ false → b.score ≤ a.score
not_before_le a b h = ground arith

or_false : (a b : Bool) → (a || b) ≡ false → (a ≡ false) × (b ≡ false)
or_false true b h = cc
or_false false b h = (refl, h)

pub absent_users :
    (user : String) (q : List Entry) → is_queued user q ≡ false → All (λ y. y.user ≢ user) q
unfolding is_queued
absent_users user [] h = tt
absent_users user (x ∷ xs) h =
    let (a, b) = or_false (str_eq x.user user) (is_queued user xs) h in
    (differs (text_cases x.user user) a, absent_users user xs b)
  where
    differs :
        ((x.user ≡ user) × (str_eq x.user user ≡ true))
          ⊎ ((x.user ≢ user) × (str_eq x.user user ≡ false))
        → str_eq x.user user ≡ false
        → x.user ≢ user
    differs (inl (e, t)) f = absurd (bools_apart (sym t ∙ f))
    differs (inr (n, t)) f = n

module _ {ℓ} (P : Entry → Type ℓ) where
  pub All-insert_entry : (e : Entry) (q : List Entry) → P e → All P q → All P (insert_entry e q)
  unfolding insert_entry
  All-insert_entry e [] p h = (p, tt)
  All-insert_entry e (x ∷ xs) p h = elim (Bool-cases (before e x)) [
    | inl t ↦ rw t (p, h)
    | inr t ↦ rw t (h.0, All-insert_entry e xs p h.1)
  ]

  pub All-zrem : (user : String) (q : List Entry) → All P q → All P (zrem user q)
  unfolding zrem
  All-zrem user [] h = tt
  All-zrem user (x ∷ xs) h = elim (Bool-cases (str_eq x.user user)) [
    | inl t ↦ rw t (All-zrem user xs h.1)
    | inr t ↦ rw t (h.0, All-zrem user xs h.1)
  ]

IsQueue-insert_entry :
    (e : Entry) (q : List Entry)
    → All (λ y. y.user ≢ e.user) q
    → IsQueue q
    → IsQueue (insert_entry e q)
unfolding insert_entry
IsQueue-insert_entry e [] n h = (tt, tt)
IsQueue-insert_entry e (x ∷ xs) n h = elim (Bool-cases (before e x)) [
  | inl t ↦ rw t (
    (
      (before_le e x t, n.0),
      All-imp (λ y. ((x.score ≤ y.score) × (y.user ≢ x.user)) × (y.user ≢ e.user))
          (λ y. (e.score ≤ y.score) × (y.user ≢ e.user)) xs
          (λ y k. let first = before_le e x t in let second = k.0.0 in (omega arith, k.1))
          (All-both (λ y. (x.score ≤ y.score) × (y.user ≢ x.user)) (λ y. y.user ≢ e.user) xs h.0
            n.1),
    ),
    h,
  )
  | inr t ↦ rw t (
    All-insert_entry (λ y. (x.score ≤ y.score) × (y.user ≢ x.user)) e xs
        (not_before_le e x t, (λ i. n.0 (sym i))) h.0,
    IsQueue-insert_entry e xs n.1 h.1,
  )
]

IsQueue-zrem : (user : String) (q : List Entry) → IsQueue q → IsQueue (zrem user q)
unfolding zrem
IsQueue-zrem user [] h = tt
IsQueue-zrem user (x ∷ xs) h = elim (Bool-cases (str_eq x.user user)) [
  | inl t ↦ rw t (IsQueue-zrem user xs h.1)
  | inr t ↦ rw t (
    All-zrem (λ y. (x.score ≤ y.score) × (y.user ≢ x.user)) user xs h.0,
    IsQueue-zrem user xs h.1,
  )
]

pub IsQueue-zadd_nx : (e : Entry) (q : List Entry) → IsQueue q → IsQueue (zadd_nx e q).1
unfolding zadd_nx
IsQueue-zadd_nx e q h = elim (Bool-cases (is_queued e.user q)) [
  | inl t ↦ rw t h
  | inr t ↦ rw t (IsQueue-insert_entry e q (absent_users e.user q t) h)
]

pub IsQueue-add_all :
    (time : ℕ) (users : List String) (q : List Entry) → IsQueue q → IsQueue (add_all time users q)
unfolding add_all
IsQueue-add_all time [] q h = h
IsQueue-add_all time (user ∷ users) q h =
    let e : Entry = record { user = user; score = time } in
    IsQueue-add_all (suc time) users (zadd_nx e q).1 (IsQueue-zadd_nx e q h)

pub IsQueue-match_pair : (q : List Entry) → IsQueue q → IsQueue (match_pair q).1
unfolding match_pair
IsQueue-match_pair [] h = tt
IsQueue-match_pair (a ∷ []) h = h
IsQueue-match_pair (a ∷ b ∷ q) h =
    IsQueue-zrem b.user (zrem a.user (a ∷ b ∷ q)) (IsQueue-zrem a.user (a ∷ b ∷ q) h)
