-- ===== src/Sla/Decision.antt =====
-- Which rule decides a target (`Evaluate` of internal/sla/sla.go), as a relation.
use servicedesk.Common.{
  ℕ, ap, ◌<◌, ◌≤◌, ◌+◌, ◌*◌, String, Bool, true, false, ◌≡◌, ◌≢◌, Option, none, some, List, [], ◌∷◌,
  ◌++◌, arith, find_first, All, str_eq, eq_iff, Bool-cases, Option-cases, inl, inr, ◌⊎◌,
}
use servicedesk.Sla.{
  Rule, default_table, exact_match, wildcard_match, priority_match, evaluate, due_at, minutes_or,
  minute, add_duration,
}

-- A row of the table that names the priority and the category.
abbrev pub Names : String → String → Rule → Type 0
Names p c r = (r.priority ≡ p) × (r.category ≡ c)

abbrev pub HasPriority : String → Rule → Type 0
HasPriority p r = r.priority ≡ p

-- `r` is the first row of the table with the property.
pub data FirstOf (P : Rule → Type 0) (t : List Rule) (r : Rule) : Type 0 where
  first_of_rows :
      (before after : List Rule)
      → t ≡ before ++ r ∷ after
      → All (λ x. ¬ P x) before
      → P r
      → FirstOf P t r

abbrev pub NoneOf : (Rule → Type 0) → List Rule → Type 0
NoneOf P t = All (λ x. ¬ P x) t

pub data Decision (t : List Rule) (p c : String) : Option ℕ → Type 0 where
  exact : (r : Rule) → c ≢ "" → FirstOf (Names p c) t r → Decision t p c (some r.minutes)
  wildcard :
      (r : Rule)
      → (c ≡ "") ⊎ NoneOf (Names p c) t
      → FirstOf (Names p "") t r
      → Decision t p c (some r.minutes)
  fallback :
      (r : Rule)
      → (c ≡ "") ⊎ NoneOf (Names p c) t
      → NoneOf (Names p "") t
      → FirstOf (HasPriority p) default_table r
      → Decision t p c (some r.minutes)
  undecided :
      (c ≡ "") ⊎ NoneOf (Names p c) t
      → NoneOf (Names p "") t
      → NoneOf (HasPriority p) default_table
      → Decision t p c none

module _ (P : Rule → Type 0) (b : Rule → Bool) (yes_P : (r : Rule) → b r ≡ true → P r)
    (no_P : (r : Rule) → b r ≡ false → ¬ P r) where
  find_first-some : (t : List Rule) (r : Rule) → find_first b t ≡ some r → FirstOf P t r
  find_first-some [] r e = absurd (cc)
  find_first-some (x ∷ t) r e = elim (Bool-cases (b x)) [
    | inl h ↦
        let same : x ≡ r = ground (arith, h) in
        first_of_rows [] t (ground (arith, same)) tt (yes_P r (ground arith))
    | inr h ↦ later h (find_first-some t r (ground (arith, h)))
  ]
    where
      later : b x ≡ false → FirstOf P t r → FirstOf P (x ∷ t) r
      later h (first_of_rows before after q n y) =
          first_of_rows (x ∷ before) after (ground (arith, q)) (no_P x h, n) y

  find_first-none : (t : List Rule) → find_first b t ≡ none → NoneOf P t
  find_first-none [] e = tt
  find_first-none (x ∷ t) e = elim (Bool-cases (b x)) [
    | inl h ↦ absurd (ground (arith, h))
    | inr h ↦ (no_P x h, find_first-none t (ground (arith, h)))
  ]

str_false : (a b : String) → str_eq a b ≡ false → a ≢ b
str_false a b h q = cc ((eq_iff a b).1 q)

Names-yes : (p c : String) (r : Rule) → exact_match p c r ≡ true → Names p c r
Names-yes p c r h = ground (arith, eq_iff r.priority p, eq_iff r.category c)

Names-no : (p c : String) (r : Rule) → exact_match p c r ≡ false → ¬ Names p c r
Names-no p c r h n = ground (arith, h, n.0, n.1, eq_iff r.priority p, eq_iff r.category c)

priority_no : (p : String) (r : Rule) → priority_match p r ≡ false → ¬ HasPriority p r
priority_no p r h n = str_false r.priority p h n

module _ (t : List Rule) (p c : String) (passed : (c ≡ "") ⊎ NoneOf (Names p c) t) where
  fallback_decides :
      NoneOf (Names p "") t
      → Decision t p c (minutes_or (find_first (priority_match p) default_table) none)
  unfolding minutes_or
  fallback_decides n = elim (Option-cases (find_first (priority_match p) default_table)) [
    | inl h ↦ rw h (
        undecided passed n (
          find_first-none (HasPriority p) (priority_match p) (λ r. (eq_iff r.priority p).0)
            (priority_no p) default_table h))
    | inr (r, h) ↦ rw h (
        fallback r passed n (
          find_first-some (HasPriority p) (priority_match p) (λ r. (eq_iff r.priority p).0)
            (priority_no p) default_table r h))
  ]

  wildcard_decides : Decision t p c (
      minutes_or
        (find_first (wildcard_match p) t)
        (minutes_or (find_first (priority_match p) default_table) none))
  unfolding minutes_or
  wildcard_decides = elim (Option-cases (find_first (wildcard_match p) t)) [
    | inl h ↦ rw h (
        fallback_decides
          (find_first-none (Names p "") (wildcard_match p) (Names-yes p "") (Names-no p "") t h))
    | inr (r, h) ↦ rw h (
        wildcard r passed
          (find_first-some (Names p "") (wildcard_match p) (Names-yes p "") (Names-no p "") t r h))
  ]

-- The most specific row decides: the first row with the priority and the category, for a category
-- that is not empty; without such a row, the first wildcard row of the priority; without that, the
-- row of the priority in the default table; and without that there is no target.
pub evaluate-Decision : (t : List Rule) (p c : String) → Decision t p c (evaluate t p c)
unfolding evaluate
evaluate-Decision t p c = elim (Bool-cases (str_eq c "")) [
  | inl h ↦ rw h (wildcard_decides t p c (inl ((eq_iff c "").0 h)))
  | inr h ↦ rw h (elim (Option-cases (find_first (exact_match p c) t)) [
    | inl q ↦ rw q (
        wildcard_decides t p c
          (inr (find_first-none (Names p c) (exact_match p c) (Names-yes p c) (Names-no p c) t q)))
    | inr (r, q) ↦ rw q (
        exact r (str_false c "" h)
          (find_first-some (Names p c) (exact_match p c) (Names-yes p c) (Names-no p c) t r q))
  ])
]

abbrev pub KnownPriority : String → Type 0
KnownPriority p = (p ≡ "P1") ⊎ (p ≡ "P2") ⊎ (p ≡ "P3") ⊎ (p ≡ "P4")

-- The most minutes whose nanoseconds a 64-bit integer holds.
abbrev pub most_minutes : ℕ
most_minutes = 153722867

small_product : (m : ℕ) → m ≤ most_minutes → m * minute < 9223372036854775808
small_product m l = omega (arith, l)

add_duration-small : (from d : ℕ) → d < 9223372036854775808 → add_duration from d ≡ from + d
unfolding add_duration
add_duration-small from d l = grind (arith, l)

pub due_at-some :
    (t : List Rule) (p c : String) (from m : ℕ)
    → m ≤ most_minutes
    → evaluate t p c ≡ some m
    → due_at t p c from ≡ some (from + m * minute)
unfolding due_at
due_at-some t p c from m l h =
    rw (h, due_at) (ap some (add_duration-small from (m * minute) (small_product m l)))
