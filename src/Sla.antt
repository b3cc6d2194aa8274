-- ===== src/Sla.antt =====
-- internal/sla/sla.go: SLA rules and their evaluation. `Minutes` is a natural number, and its product
-- with a minute wraps around in 64 bits. `slaDueAt` is of internal/service/queue.go.
pub mod Decision
use servicedesk.Common.{
  ℕ, ◌+◌, ◌-◌, ◌*◌, ◌%◌, ltb, String, Bool, ◌&&◌, not, Option, none, some, List, [], ◌∷◌,
  find_first, str_eq, if◌then◌else◌,
}

pub record Rule : Type 0 where
  pub priority : String
  pub category : String
  pub minutes : ℕ

unfoldable pub default_table : List Rule
default_table =
    record { priority = "P1"; category = ""; minutes = 4 * 60 }
    ∷ record { priority = "P2"; category = ""; minutes = 8 * 60 }
    ∷ record { priority = "P3"; category = ""; minutes = 24 * 60 }
    ∷ record { priority = "P4"; category = ""; minutes = 72 * 60 }
    ∷ []

-- The tests of the three loops.
abbrev pub exact_match : String → String → Rule → Bool
exact_match priority category r = str_eq r.priority priority && str_eq r.category category

abbrev pub wildcard_match : String → Rule → Bool
wildcard_match priority r = str_eq r.priority priority && str_eq r.category ""

abbrev pub priority_match : String → Rule → Bool
priority_match priority r = str_eq r.priority priority

minutes_or : Option Rule → Option ℕ → Option ℕ
minutes_or none next = next
minutes_or (some r) next = some r.minutes

-- A loop that returns the minutes of the first row that passes its test, with what follows it.
unfoldable pub evaluate : List Rule → String → String → Option ℕ
unfolding minutes_or
evaluate t priority category =
    let fallback = minutes_or (find_first (priority_match priority) default_table) none in
    let wildcard = minutes_or (find_first (wildcard_match priority) t) fallback in
    if not (str_eq category "")
    then minutes_or (find_first (exact_match priority category) t) wildcard
    else wildcard

-- `time.Minute`, in nanoseconds.
abbrev pub minute : ℕ
minute = 60 * 1000000000

-- The number of values of a 64-bit integer.
abbrev pub word : ℕ
word = 18446744073709551616

-- `from.Add(d)` for a duration that a 64-bit product left, which wraps around and is negative in its
-- upper half. Times count from the year 1, further back than a duration reaches.
unfoldable pub add_duration : ℕ → ℕ → ℕ
add_duration from d = let w = d % word in if ltb (w * 2) word then from + w else from - (word - w)

unfoldable pub due_at : List Rule → String → String → ℕ → Option ℕ
unfolding add_duration
due_at t priority category from = elim (evaluate t priority category) [
  | none ↦ none
  | some minutes ↦ some (add_duration from (minutes * minute))
]
