-- ===== src/Base/Dict.antt =====
-- A map from texts as a function: a key that is assigned `none` is deleted.
use Prim.Native.String.{String}
use mathlib.Core.Path.{◌≡◌, refl, ◌∙◌, sym}
use mathlib.Core.Logic.{◌≢◌, ◌⊎◌, inl, inr}
use mathlib.Core.Bool.{Bool, true, false}
use mathlib.Core.Option.{Option, none, some}
use text.Mathlib.Text.{◌==◌ as str_eq}
use text.Mathlib.TextEquality.{eq_iff}
use mobile_final_project.Base.Tests.{if◌then◌else◌, Bool-cases}

abbrev pub Table {ℓ} : Type ℓ → Type ℓ
Table V = String → Option V

abbrev pub no_entries {ℓ} : {V : Type ℓ} → Table V
no_entries k = none

unfoldable pub assign {ℓ} : {V : Type ℓ} → String → Option V → Table V → Table V
assign k o m j = if str_eq j k then o else m j

abbrev pub is_some {ℓ} : {V : Type ℓ} → Option V → Bool
is_some none = false
is_some (some v) = true

pub absent_of : {V : Type 0} (o : Option V) → is_some o ≡ false → o ≡ none
absent_of none h = refl
absent_of (some v) h = cc

bools_differ : false ≡ true → ⊥
bools_differ h = cc

pub text_eq_refl : (k : String) → str_eq k k ≡ true
text_eq_refl k = (eq_iff k k).1 refl

pub text_cases : (j k : String) → ((j ≡ k) × (str_eq j k ≡ true)) ⊎ ((j ≢ k) × (str_eq j k ≡ false))
text_cases j k = elim (Bool-cases (str_eq j k)) [
  | inl e ↦ inl ((eq_iff j k).0 e, e)
  | inr e ↦ inr ((λ h. bools_differ (sym e ∙ (eq_iff j k).1 h)), e)
]

module _ {ℓ} {V : Type ℓ} where
  pub assign_self : (k : String) (o : Option V) (m : Table V) → assign k o m k ≡ o
  unfolding assign
  assign_self k o m = rw (text_eq_refl k) refl

  pub assign_ne : (k j : String) (o : Option V) (m : Table V) → j ≢ k → assign k o m j ≡ m j
  unfolding assign
  assign_ne k j o m h = elim (text_cases j k) [ inl (e, t) ↦ absurd (h e) | inr (n, t) ↦ rw t refl ]

pub text_ne : (a b : String) → str_eq a b ≡ false → a ≢ b
text_ne a b h e = bools_differ (sym h ∙ (eq_iff a b).1 e)
