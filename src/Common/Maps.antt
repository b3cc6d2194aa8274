-- ===== src/Common/Maps.antt =====
-- A Go map with text keys, as an association list.
use mathlib.Core.Path.{◌≡◌, refl, sym, ◌∙◌}
use mathlib.Core.Logic.{◌≢◌, inl, inr}
use mathlib.Core.Bool.{true, false}
use mathlib.Core.Option.{Option, none, some}
use mathlib.Core.List.{List, [], ◌∷◌}
use Prim.Native.String.{String}
use text.Mathlib.Text.{◌==◌ as str_eq}
use text.Mathlib.TextEquality.{eq_iff}
use servicedesk.Common.Tests.{if◌then◌else◌, Bool-cases}

module _ {A : Type 0} where
  unfoldable pub get_key : String → List (String × A) → Option A
  get_key k [] = none
  get_key k ((j, v) ∷ m) = if str_eq j k then some v else get_key k m

  unfoldable pub set_key : String → A → List (String × A) → List (String × A)
  set_key k v [] = (k, v) ∷ []
  set_key k v ((j, w) ∷ m) = if str_eq j k then (k, v) ∷ m else (j, w) ∷ set_key k v m

pub str_eq_refl : (k : String) → str_eq k k ≡ true
str_eq_refl k = (eq_iff k k).1 refl

pub str_eq_ne : (j k : String) → j ≢ k → str_eq j k ≡ false
str_eq_ne j k h = elim (Bool-cases (str_eq j k)) [
  | inl y ↦ absurd (h ((eq_iff j k).0 y))
  | inr n ↦ n
]

pub get_key-set_key :
    {A : Type 0} (k : String) (v : A) (m : List (String × A)) → get_key k (set_key k v m) ≡ some v
unfolding get_key set_key
get_key-set_key k v [] = rw (str_eq_refl k)
get_key-set_key k v ((j, w) ∷ m) = elim (Bool-cases (str_eq j k)) [
  | inl y ↦ rw (y, str_eq_refl k)
  | inr n ↦ rw (n, n) (get_key-set_key k v m)
]

pub get_key_other :
    {A : Type 0} (k j : String) (v : A) (m : List (String × A))
    → j ≢ k
    → get_key k (set_key j v m) ≡ get_key k m
unfolding get_key set_key
get_key_other k j v [] h = rw (str_eq_ne j k h)
get_key_other k j v ((i, w) ∷ m) h = elim (Bool-cases (str_eq i j)) [
  | inl y ↦
      let differs : str_eq i k ≡ false = str_eq_ne i k (λ e. h (sym ((eq_iff i j).0 y) ∙ e)) in
      rw (y, str_eq_ne j k h, differs)
  | inr n ↦ elim (Bool-cases (str_eq i k)) [
    | inl y ↦ rw (n, y)
    | inr z ↦ rw (n, z) (get_key_other k j v m h)
  ]
]
