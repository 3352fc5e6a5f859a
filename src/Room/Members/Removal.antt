-- ===== src/Room/Members/Removal.antt =====
-- Changes that only remove keys of players, and only keys that held one room.
use mobile_final_project.Base.{
  String, ◌≡◌, ◌≢◌, refl, sym, ap, ◌∙◌, Option, none, some, ◌⊎◌, inl, inr, Table, assign,
  assign_self, assign_ne, text_cases, if◌then◌else◌, some_eq,
}
use mobile_final_project.Room.Store.{delete_if, held_by}
use mobile_final_project.Room.Members.Scripts.{not_there}

-- No key is changed but some that held `k`, which are gone.
abbrev pub Removes : String → Table String → Table String → Type 0
Removes k m n = (x : String) → (n x ≡ m x) ⊎ ((m x ≡ some k) × (n x ≡ none))

pub Removes-assign :
    (k u : String) (m : Table String) → m u ≡ some k → Removes k m (assign u none m)
Removes-assign k u m h x = elim (text_cases x u) [
  | inl (e, t) ↦ inr (ap m e ∙ h, ap (assign u none m) e ∙ assign_self u none m)
  | inr (n, t) ↦ inl (assign_ne u x none m n)
]

pub Removes-trans :
    (k : String) (l m n : Table String) → Removes k l m → Removes k m n → Removes k l n
Removes-trans k l m n f g x = elim (f x) [
  | inl e ↦ elim (g x) [ inl d ↦ inl (d ∙ e) | inr (h, d) ↦ inr (sym e ∙ h, d) ]
  | inr (h, e) ↦ elim (g x) [ inl d ↦ inr (h, d ∙ e) | inr (i, d) ↦ inr (h, d) ]
]

-- A key that has the value is deleted; any other is left.
pub delete_if_cases :
    (key value : String) (m : Table String)
    → ((m key ≡ some value) × (delete_if key value m ≡ assign key none m))
      ⊎ ((m key ≢ some value) × (delete_if key value m ≡ m))
unfolding delete_if
delete_if_cases key value m = go (m key) refl
  where
    go :
        (o : Option String)
        → m key ≡ o
        → ((m key ≡ some value)
            × ((if held_by value o then assign key none m else m) ≡ assign key none m))
          ⊎ ((m key ≢ some value) × ((if held_by value o then assign key none m else m) ≡ m))
    go none h = inr ((λ i. not_there (sym h ∙ i)), refl)
    go (some v) h = elim (text_cases v value) [
      | inl (e, t) ↦ inl (h ∙ ap (λ y. some y) e, rw t refl)
      | inr (n, t) ↦ inr ((λ i. n (some_eq (sym h ∙ i))), rw t refl)
    ]

pub Removes-delete_if : (k key : String) (m : Table String) → Removes k m (delete_if key k m)
Removes-delete_if k key m x = elim (delete_if_cases key k m) [
  | inl (h, e) ↦ rw e (Removes-assign k key m h x)
  | inr (h, e) ↦ rw e (inl refl)
]

pub delete_if-gone : (k key : String) (m : Table String) → delete_if key k m key ≢ some k
delete_if-gone k key m h = elim (delete_if_cases key k m) [
  | inl (i, e) ↦
      not_there (sym (assign_self key none m) ∙ sym (ap (λ (f : Table String). f key) e) ∙ h)
  | inr (i, e) ↦ i (sym (ap (λ (f : Table String). f key) e) ∙ h)
]

pub Removes-gone : (k x : String) (m n : Table String) → Removes k m n → m x ≢ some k → n x ≢ some k
Removes-gone k x m n f h i = elim (f x) [ inl e ↦ h (sym e ∙ i) | inr (j, e) ↦ h j ]

pub Removes-keeps :
    (k v x : String) (m n : Table String) → Removes k m n → k ≢ v → m x ≡ some v → n x ≡ some v
Removes-keeps k v x m n f d h = elim (f x) [
  | inl e ↦ e ∙ h
  | inr (j, e) ↦ absurd (d (some_eq (sym j ∙ h)))
]

pub Removes-gains :
    (k v x : String) (m n : Table String) → Removes k m n → n x ≡ some v → m x ≡ some v
Removes-gains k v x m n f h = elim (f x) [
  | inl e ↦ sym e ∙ h
  | inr (j, e) ↦ absurd (not_there (sym e ∙ h))
]
