-- ===== src/Common/Texts.antt =====
-- Go's `strings.HasPrefix`, `strings.TrimPrefix` and `strings.Cut` (with a separator of one
-- character) on texts, character by character.
use Prim.Native.Nat.{ℕ}
use Prim.Native.Char.{Char, code}
use Prim.Native.String.{String, ◌++◌ as str_append}
use mathlib.Core.Path.{◌≡◌, ap}
use mathlib.Core.Bool.{Bool, true, false}
use mathlib.Core.Option.{Option, none, some}
use native.Mathlib.Omega.{arith}
use text.Mathlib.TextLemmas.{nil-append, cons-append}
use servicedesk.Common.Tests.{◌==◌, if◌then◌else◌, is_some}

-- What is left of a text after a prefix, if it has it.
unfoldable pub after_prefix : String → String → Option String
after_prefix String.[] s = some s
after_prefix (String.◌∷◌ c p) String.[] = none
after_prefix (String.◌∷◌ c p) (String.◌∷◌ d s) =
    let rest = after_prefix p s in if code c == code d then rest else none

unfoldable pub has_prefix : String → String → Bool
has_prefix s p = is_some (after_prefix p s)

or_whole : Option String → String → String
or_whole none s = s
or_whole (some rest) s = rest

unfoldable pub trim_prefix : String → String → String
unfolding or_whole
trim_prefix s p = or_whole (after_prefix p s) s

with_first : String → Option (String × String) → Option (String × String)
with_first c none = none
with_first c (some (before, after)) = some (str_append c before, after)

-- The texts before and after the first separator.
unfoldable pub cut : ℕ → String → Option (String × String)
unfolding with_first
cut sep String.[] = none
cut sep (String.◌∷◌ c s) =
    let rest = cut sep s in
    if code c == sep then some ("", s) else with_first (String.◌∷◌ c "") rest

-- No character of a text is the separator.
unfoldable pub Lacks : ℕ → String → Type 0
Lacks sep String.[] = Unit
Lacks sep (String.◌∷◌ c s) = ((code c == sep) ≡ false) × Lacks sep s

pub after_prefix-append : (p s : String) → after_prefix p (str_append p s) ≡ some s
unfolding after_prefix
after_prefix-append String.[] s = ap some (nil-append s)
after_prefix-append (String.◌∷◌ c p) s =
    rw (cons-append c p s) (ground (arith, after_prefix-append p s))

pub has_prefix-append : (p s : String) → has_prefix (str_append p s) p ≡ true
unfolding has_prefix
has_prefix-append p s = rw (after_prefix-append p s)

pub trim_prefix-append : (p s : String) → trim_prefix (str_append p s) p ≡ s
unfolding trim_prefix or_whole
trim_prefix-append p s = rw (after_prefix-append p s)

pub cut-append :
    (sep : ℕ) (s t : String) (c : Char)
    → Lacks sep s
    → (code c == sep) ≡ true
    → cut sep (str_append s (String.◌∷◌ c t)) ≡ some (s, t)
unfolding cut with_first Lacks
cut-append sep String.[] t c h e = rw (nil-append (String.◌∷◌ c t)) (rw e)
cut-append sep (String.◌∷◌ d s) t c h e =
    rw (cons-append d s (String.◌∷◌ c t))
      (rw (h.0, cut-append sep s t c h.1 e) (rw (cons-append d "" s, nil-append s)))

unfoldable pub is_empty : String → Bool
is_empty String.[] = true
is_empty (String.◌∷◌ c s) = false
