-- ===== src/Config/StaticUsers.antt =====
-- The static users of internal/config/config.go: `StaticUserEntries`. `strings.TrimSpace` is an
-- argument; `strings.SplitN` with three parts is two cuts at the first colon.
use Prim.Native.Char.{Char, char, code}
use Prim.Native.String.{◌++◌ as str_append}
use text.Mathlib.TextLemmas.{nil-append, cons-append}
use servicedesk.Common.{
  ℕ, String, true, false, Option, none, some, List, [], ◌∷◌, ◌≡◌, ◌==◌, if◌then◌else◌, is_empty,
  cut, cut-append, Lacks, All, refl,
}
use servicedesk.Config.{Config}

-- The first part grows by a character.
grow : Char → List String → List String
grow c [] = []
grow c (part ∷ parts) = String.◌∷◌ c part ∷ parts

-- `strings.Split` at a separator of one character.
unfoldable pub split : ℕ → String → List String
unfolding grow
split sep String.[] = "" ∷ []
split sep (String.◌∷◌ c s) =
    let parts = split sep s in if code c == sep then "" ∷ parts else grow c parts

with_role : String → Option (String × String) → Option (String × String × String)
with_role username none = none
with_role username (some (password, role)) = some (username, password, role)

-- The three parts of an entry.
in_three : Option (String × String) → Option (String × String × String)
unfolding with_role
in_three none = none
in_three (some (username, rest)) = with_role username (cut 58 rest)

-- The entries with three parts, in order.
entries_of : (String → String) → List String → List (String × String × String)
unfolding in_three
entries_of trim [] = []
entries_of trim (part ∷ parts) =
    let rest = entries_of trim parts in
    elim (in_three (cut 58 (trim part))) [ none ↦ rest | some e ↦ e ∷ rest ]

unfoldable pub static_user_entries : (String → String) → Config → List (String × String × String)
unfolding split entries_of
static_user_entries trim c =
    if is_empty (trim c.static_users) then [] else entries_of trim (split 44 c.static_users)

abbrev colon : Char
colon = char 58 tt

abbrev comma : Char
comma = char 44 tt

-- An entry as an operator writes it.
unfoldable pub entry_text : String × String × String → String
entry_text (username, password, role) =
    str_append username (String.◌∷◌ colon (str_append password (String.◌∷◌ colon role)))

unfoldable pub entries_text : String × String × String → List (String × String × String) → String
unfolding entry_text
entries_text e [] = entry_text e
entries_text e (f ∷ rest) = str_append (entry_text e) (String.◌∷◌ comma (entries_text f rest))

-- The name and the password have no colon, the entry has no comma, and trimming does not change it.
unfoldable pub IsPlain : (String → String) → String × String × String → Type 0
IsPlain trim e =
    Lacks 58 e.0 × Lacks 58 e.1 × Lacks 44 (entry_text e) × (trim (entry_text e) ≡ entry_text e)

split-Lacks : (sep : ℕ) (s : String) → Lacks sep s → split sep s ≡ s ∷ []
unfolding split Lacks grow
split-Lacks sep String.[] h = refl
split-Lacks sep (String.◌∷◌ c s) h = rw (h.0, split-Lacks sep s h.1) refl

split-append :
    (sep : ℕ) (s t : String) (c : Char)
    → Lacks sep s
    → (code c == sep) ≡ true
    → split sep (str_append s (String.◌∷◌ c t)) ≡ s ∷ split sep t
unfolding split Lacks grow
split-append sep String.[] t c h e = rw (nil-append (String.◌∷◌ c t)) (rw e refl)
split-append sep (String.◌∷◌ d s) t c h e =
    rw (cons-append d s (String.◌∷◌ c t)) (rw (h.0, split-append sep s t c h.1 e) refl)

in_three-entry_text :
    (e : String × String × String)
    → Lacks 58 e.0
    → Lacks 58 e.1
    → in_three (cut 58 (entry_text e)) ≡ some e
unfolding in_three with_role entry_text
in_three-entry_text (u, p, r) h k =
    rw (cut-append 58 u (str_append p (String.◌∷◌ colon r)) colon h refl)
      (rw (cut-append 58 p r colon k refl) refl)

is_empty-append : (s t : String) (c : Char) → is_empty (str_append s (String.◌∷◌ c t)) ≡ false
unfolding is_empty
is_empty-append String.[] t c = rw (nil-append (String.◌∷◌ c t)) refl
is_empty-append (String.◌∷◌ d s) t c = rw (cons-append d s (String.◌∷◌ c t)) refl

entries_text-content :
    (e : String × String × String) (rest : List (String × String × String))
    → is_empty (entries_text e rest) ≡ false
unfolding entries_text entry_text
entries_text-content (u, p, r) [] = is_empty-append u (str_append p (String.◌∷◌ colon r)) colon
entries_text-content (u, p, r) (f ∷ rest) =
    is_empty-append (entry_text (u, p, r)) (entries_text f rest) comma

entries_of-one :
    (trim : String → String) (e : String × String × String) (parts : List String)
    → IsPlain trim e
    → entries_of trim (entry_text e ∷ parts) ≡ e ∷ entries_of trim parts
unfolding IsPlain entries_of
entries_of-one trim e parts h = rw (h.3, entries_of) (rw (in_three-entry_text e h.0 h.1) refl)

entries_of-split :
    (trim : String → String) (e : String × String × String) (rest : List (String × String × String))
    → IsPlain trim e
    → All (IsPlain trim) rest
    → entries_of trim (split 44 (entries_text e rest)) ≡ e ∷ rest
unfolding entries_text entries_of IsPlain
entries_of-split trim e [] h k =
    rw (split-Lacks 44 (entry_text e) h.2) (rw (entries_of-one trim e [] h) refl)
entries_of-split trim e (f ∷ rest) h k =
    rw (split-append 44 (entry_text e) (entries_text f rest) comma h.2 refl) (
      rw (entries_of-one trim e (split 44 (entries_text f rest)) h)
        (rw (entries_of-split trim f rest k.0 k.1) refl))

-- Where the static users are written as `name:password:role`, separated by commas, with no colon in a
-- name or a password, no comma in an entry and no spaces to trim, exactly these entries are read, in
-- their order.
pub static_user_entries-entries_text :
    (trim : String → String) (e : String × String × String) (rest : List (String × String × String))
    (c : Config)
    → IsPlain trim e
    → All (IsPlain trim) rest
    → trim (entries_text e rest) ≡ entries_text e rest
    → static_user_entries trim (record c { static_users = entries_text e rest }) ≡ e ∷ rest
unfolding static_user_entries
static_user_entries-entries_text trim e rest c h k t =
    rw t (rw (entries_text-content e rest) (entries_of-split trim e rest h k))
