-- ===== src/Base/Preds.antt =====
-- Predicates over all elements of a list, and relations between two lists element by element.
use Prim.Native.Nat.{ℕ, zero, suc, Ordering}
use mathlib.Core.Path.{◌≡◌, refl, subst}
use mathlib.Core.Logic.{inl, inr}
use mathlib.Core.Bool.{Bool, true, false}
use mathlib.Core.List.{List, [], ◌∷◌, ◌++◌, map}
use mathlib.Core.Option.{some}
use native.Mathlib.Omega.{arith}
use mobile_final_project.Base.Tests.{Bool-cases}
use mobile_final_project.Base.Lists.{get_elem?, set, filter, find, insert, sort_by}

pub some_eq {ℓ} : {A : Type ℓ} {x y : A} → some x ≡ some y → x ≡ y
some_eq h = cc

pub cons_ne_nil {ℓ} : {A : Type ℓ} {x : A} {xs : List A} → x ∷ xs ≡ [] → ⊥
cons_ne_nil h = cc

-- The two outcomes of one step of `insert`.
insert_cases {ℓ κ} :
    {A : Type ℓ} (cmp : A → A → Ordering) (x y : A) (ys : List A) (Q : List A → Type κ)
    → Q (x ∷ y ∷ ys)
    → Q (y ∷ insert cmp x ys)
    → Q (insert cmp x (y ∷ ys))
insert_cases cmp x y ys Q first later =
    elim (cmp x y) as (λ o. Q (elim o [ Ordering.gt ↦ y ∷ insert cmp x ys | _ ↦ x ∷ y ∷ ys ])) [
      | Ordering.lt ↦ first
      | Ordering.eq ↦ first
      | Ordering.gt ↦ later
    ]

abbrev pub All {ℓ κ} : {A : Type ℓ} → (A → Type κ) → List A → Type κ
All P [] = Unit
All P (x ∷ xs) = P x × All P xs

module _ {ℓ κ} {A : Type ℓ} (P : A → Type κ) where
  pub All-append : (xs ys : List A) → All P xs → All P ys → All P (xs ++ ys)
  All-append [] ys h k = k
  All-append (x ∷ xs) ys h k = (h.0, All-append xs ys h.1 k)

  pub All-get : (xs : List A) (i : ℕ) {a : A} → All P xs → get_elem? xs i ≡ some a → P a
  All-get [] i h e = cc
  All-get (x ∷ xs) zero h e = subst P (cc) h.0
  All-get (x ∷ xs) (suc i) h e = All-get xs i h.1 e

  pub All-set : (xs : List A) (i : ℕ) (v : A) → All P xs → P v → All P (set xs i v)
  All-set [] i v h k = tt
  All-set (x ∷ xs) zero v h k = (k, h.1)
  All-set (x ∷ xs) (suc i) v h k = (h.0, All-set xs i v h.1 k)

  pub All-filter : (p : A → Bool) (xs : List A) → All P xs → All P (filter p xs)
  All-filter p [] h = tt
  All-filter p (x ∷ xs) h = elim (Bool-cases (p x)) [
    | inl e ↦ rw e (h.0, All-filter p xs h.1)
    | inr e ↦ rw e (All-filter p xs h.1)
  ]

  pub All-find : (p : A → Bool) (xs : List A) {a : A} → All P xs → find p xs ≡ some a → P a
  All-find p [] h e = cc
  All-find p (x ∷ xs) {a} h e = elim (Bool-cases (p x)) [
    | inl t ↦ subst P (ground arith) h.0
    | inr t ↦ All-find p xs h.1 (ground arith)
  ]

  pub All-insert :
      (cmp : A → A → Ordering) (x : A) (xs : List A) → P x → All P xs → All P (insert cmp x xs)
  All-insert cmp x [] k h = (k, tt)
  All-insert cmp x (y ∷ ys) k h =
      insert_cases cmp x y ys (All P) (k, h) (h.0, All-insert cmp x ys k h.1)

  pub All-sort_by : (cmp : A → A → Ordering) (xs : List A) → All P xs → All P (sort_by cmp xs)
  All-sort_by cmp [] h = tt
  All-sort_by cmp (x ∷ xs) h = All-insert cmp x (sort_by cmp xs) h.0 (All-sort_by cmp xs h.1)

-- What a filter keeps has passed its test.
pub All-filter_test {ℓ} :
    {A : Type ℓ} (p : A → Bool) (xs : List A) → All (λ x. p x ≡ true) (filter p xs)
All-filter_test p [] = tt
All-filter_test p (x ∷ xs) = elim (Bool-cases (p x)) [
  | inl e ↦ rw e (e, All-filter_test p xs)
  | inr e ↦ rw e (All-filter_test p xs)
]

pub All-everywhere {ℓ κ} : {A : Type ℓ} (P : A → Type κ) (xs : List A) → ((a : A) → P a) → All P xs
All-everywhere P [] f = tt
All-everywhere P (x ∷ xs) f = (f x, All-everywhere P xs f)

pub All-imp {ℓ κ μ} :
    {A : Type ℓ} (P : A → Type κ) (Q : A → Type μ) (xs : List A)
    → ((a : A) → P a → Q a)
    → All P xs
    → All Q xs
All-imp P Q [] f h = tt
All-imp P Q (x ∷ xs) f h = (f x h.0, All-imp P Q xs f h.1)

pub All-both {ℓ κ μ} :
    {A : Type ℓ} (P : A → Type κ) (Q : A → Type μ) (xs : List A)
    → All P xs
    → All Q xs
    → All (λ a. P a × Q a) xs
All-both P Q [] h k = tt
All-both P Q (x ∷ xs) h k = ((h.0, k.0), All-both P Q xs h.1 k.1)

pub All-map {ℓ κ μ} :
    {A : Type ℓ} {B : Type κ} (P : B → Type μ) (f : A → B) (xs : List A)
    → All (λ a. P (f a)) xs
    → All P (map f xs)
All-map P f [] h = tt
All-map P f (x ∷ xs) h = (h.0, All-map P f xs h.1)

-- `R` holds between the elements of two lists of one length.
abbrev pub Pairs {ℓ} : {A : Type ℓ} → (A → A → Type 0) → List A → List A → Type 0
Pairs R [] [] = Unit
Pairs R [] (y ∷ ys) = ⊥
Pairs R (x ∷ xs) [] = ⊥
Pairs R (x ∷ xs) (y ∷ ys) = R x y × Pairs R xs ys

module _ {ℓ} {A : Type ℓ} (R : A → A → Type 0) where
  pub Pairs-refl : ((a : A) → R a a) → (xs : List A) → Pairs R xs xs
  Pairs-refl r [] = tt
  Pairs-refl r (x ∷ xs) = (r x, Pairs-refl r xs)

  pub Pairs-trans :
      ((a b c : A) → R a b → R b c → R a c)
      → (xs ys zs : List A) → Pairs R xs ys
      → Pairs R ys zs
      → Pairs R xs zs
  Pairs-trans t [] [] [] h k = tt
  Pairs-trans t [] [] (z ∷ zs) h k = k
  Pairs-trans t [] (y ∷ ys) zs h k = absurd h
  Pairs-trans t (x ∷ xs) [] zs h k = absurd h
  Pairs-trans t (x ∷ xs) (y ∷ ys) [] h k = k
  Pairs-trans t (x ∷ xs) (y ∷ ys) (z ∷ zs) h k = (t x y z h.0 k.0, Pairs-trans t xs ys zs h.1 k.1)

  -- A write in one place relates the old list to the new one.
  pub Pairs-set :
      ((a : A) → R a a)
      → (xs : List A) (i : ℕ) (u v : A) → get_elem? xs i ≡ some u
      → R u v
      → Pairs R xs (set xs i v)
  Pairs-set r [] i u v e h = tt
  Pairs-set r (x ∷ xs) zero u v e h = (subst (λ a. R a v) (cc) h, Pairs-refl r xs)
  Pairs-set r (x ∷ xs) (suc i) u v e h = (r x, Pairs-set r xs i u v e h)

  pub Pairs-map : (f : A → A) → ((a : A) → R a (f a)) → (xs : List A) → Pairs R xs (map f xs)
  Pairs-map f h [] = tt
  Pairs-map f h (x ∷ xs) = (h x, Pairs-map f h xs)

  pub All-Pairs :
      (P : A → Type 0)
      → ((a b : A) → R a b → P a → P b)
      → (xs ys : List A) → Pairs R xs ys
      → All P xs
      → All P ys
  All-Pairs P f [] [] h k = tt
  All-Pairs P f [] (y ∷ ys) h k = absurd h
  All-Pairs P f (x ∷ xs) [] h k = absurd h
  All-Pairs P f (x ∷ xs) (y ∷ ys) h k = (f x y h.0 k.0, All-Pairs P f xs ys h.1 k.1)

  pub Pairs-get :
      (xs ys : List A) (i : ℕ) (a : A)
      → Pairs R xs ys
      → get_elem? xs i ≡ some a
      → (b : A) × (get_elem? ys i ≡ some b) × R a b
  Pairs-get [] [] i a h e = cc
  Pairs-get [] (y ∷ ys) i a h e = absurd h
  Pairs-get (x ∷ xs) [] i a h e = absurd h
  Pairs-get (x ∷ xs) (y ∷ ys) zero a h e = (y, refl, subst (λ z. R z y) (cc) h.0)
  Pairs-get (x ∷ xs) (y ∷ ys) (suc i) a h e = Pairs-get xs ys i a h.1 e

  pub Pairs-append :
      (xs ys us vs : List A) → Pairs R xs ys → Pairs R us vs → Pairs R (xs ++ us) (ys ++ vs)
  Pairs-append [] [] us vs h k = k
  Pairs-append [] (y ∷ ys) us vs h k = absurd h
  Pairs-append (x ∷ xs) [] us vs h k = absurd h
  Pairs-append (x ∷ xs) (y ∷ ys) us vs h k = (h.0, Pairs-append xs ys us vs h.1 k)

pub get_elem?-map {ℓ κ} :
    {A : Type ℓ} {B : Type κ} (f : A → B) (xs : List A) (i : ℕ) {b : B}
    → get_elem? (map f xs) i ≡ some b
    → (a : A) × (get_elem? xs i ≡ some a) × (f a ≡ b)
get_elem?-map f [] i h = cc
get_elem?-map f (x ∷ xs) zero h = (x, refl, cc)
get_elem?-map f (x ∷ xs) (suc i) h = get_elem?-map f xs i h

pub get_elem?-map-some {ℓ κ} :
    {A : Type ℓ} {B : Type κ} (f : A → B) (xs : List A) (i : ℕ) (a : A)
    → get_elem? xs i ≡ some a
    → get_elem? (map f xs) i ≡ some (f a)
get_elem?-map-some f [] i a h = cc
get_elem?-map-some f (x ∷ xs) zero a h = cc
get_elem?-map-some f (x ∷ xs) (suc i) a h = get_elem?-map-some f xs i a h

pub map-eq_of_Pairs {ℓ κ} :
    {A : Type ℓ} {B : Type κ} (R : A → A → Type 0) (f : A → B)
    → ((a b : A) → R a b → f a ≡ f b)
    → (xs ys : List A) → Pairs R xs ys
    → map f xs ≡ map f ys
map-eq_of_Pairs R f h [] [] p = refl
map-eq_of_Pairs R f h [] (y ∷ ys) p = absurd p
map-eq_of_Pairs R f h (x ∷ xs) [] p = absurd p
map-eq_of_Pairs R f h (x ∷ xs) (y ∷ ys) p = cc (h x y p.0, map-eq_of_Pairs R f h xs ys p.1)

-- A filter that keeps nothing: every element fails its test.
pub filter-nil {ℓ} :
    {A : Type ℓ} (p : A → Bool) (xs : List A) → filter p xs ≡ [] → All (λ x. p x ≡ false) xs
filter-nil p [] h = tt
filter-nil p (x ∷ xs) h = elim (Bool-cases (p x)) [
  | inl e ↦ absurd (cons_ne_nil (rw e at h))
  | inr e ↦ (e, filter-nil p xs (rw e at h))
]

module _ {ℓ κ} {A : Type ℓ} (P : A → Type κ) (cmp : A → A → Ordering) where
  All-insert' : (x : A) (xs : List A) → All P (insert cmp x xs) → P x × All P xs
  All-insert' x [] h = (h.0, tt)
  All-insert' x (y ∷ ys) h =
      insert_cases cmp x y ys (λ l. All P l → P x × All P (y ∷ ys)) (λ k. (k.0, k.1))
        (λ k. let (a, b) = All-insert' x ys k.1 in (a, (k.0, b))) h

  -- What holds of all elements of the sorted list holds of all elements.
  pub All-of_sort_by : (xs : List A) → All P (sort_by cmp xs) → All P xs
  All-of_sort_by [] h = tt
  All-of_sort_by (x ∷ xs) h =
      let (a, b) = All-insert' x (sort_by cmp xs) h in (a, All-of_sort_by xs b)

module _ {ℓ} {A : Type ℓ} (cmp : A → A → Ordering) where
  insert-ne-nil : (x : A) (xs : List A) → insert cmp x xs ≡ [] → ⊥
  insert-ne-nil x [] h = cons_ne_nil h
  insert-ne-nil x (y ∷ ys) h = insert_cases cmp x y ys (λ l. l ≡ [] → ⊥) cons_ne_nil cons_ne_nil h

  pub sort_by-nil : (xs : List A) → sort_by cmp xs ≡ [] → xs ≡ []
  sort_by-nil [] h = refl
  sort_by-nil (x ∷ xs) h = absurd (insert-ne-nil x (sort_by cmp xs) h)
