-- ===== src/Auth/Tokens.antt =====
-- internal/auth/auth.go: the long-lived API tokens. `rand.Read`, `sha256.Sum256` and
-- `hex.EncodeToString` are Go's: the bytes that were read are arguments of the code below, the two
-- functions a parameter.
use Prim.Native.Char.{Char, char, code}
use Prim.Native.String.{◌++◌ as str_append}
use text.Mathlib.TextLemmas.{cons-append, nil-append}
use servicedesk.Common.{
  false, ℕ, String, Bool, true, ◌&&◌, ◌||◌, not, Option, none, some, List, ◌≡◌, refl, subst, arith,
  leb, if◌then◌else◌, str_eq, str_eq_refl, has_prefix, trim_prefix, cut, Lacks, has_prefix-append,
  trim_prefix-append, cut-append,
}
use servicedesk.Store.{Result, ok, err, ok-injective}

-- Bytes are numbers.
pub record Digests : Type 0 where
  pub sha256 : String → List ℕ
  pub hex : List ℕ → String

-- What `hex.EncodeToString` documents: its result is made of hexadecimal digits.
unfoldable pub is_hex_digit : ℕ → Bool
is_hex_digit c = (leb 48 c && leb c 57) || (leb 97 c && leb c 102)

unfoldable pub IsHex : String → Type 0
unfolding is_hex_digit
IsHex String.[] = Unit
IsHex (String.◌∷◌ c s) = (is_hex_digit (code c) ≡ true) × IsHex s

abbrev pub api_token_prefix : String
api_token_prefix = "sdat_"

-- The full token, its public id, and the hash of its secret.
pub record IssuedToken : Type 0 where
  pub token : String
  pub token_id : String
  pub token_hash : String

unfoldable pub hash_api_token_secret : Digests → String → String
hash_api_token_secret x secret = x.hex (x.sha256 secret)

unfoldable pub issue_api_token : Digests → Result (List ℕ) → Result (List ℕ) → Result IssuedToken
unfolding hash_api_token_secret
issue_api_token x (err e) secret_bytes = err e
issue_api_token x (ok id_bytes) (err e) = err e
issue_api_token x (ok id_bytes) (ok secret_bytes) = ok (record {
  token =
      str_append api_token_prefix
        (str_append (x.hex id_bytes) (str_append "." (x.hex secret_bytes)));
  token_id = x.hex id_bytes;
  token_hash = hash_api_token_secret x (x.hex secret_bytes);
})

unfoldable pub is_api_token : String → Bool
is_api_token token = has_prefix token api_token_prefix

-- The public id and the secret of a token that looks like an API token.
unfoldable pub parse_api_token : String → Option (String × String)
parse_api_token token =
    if not (has_prefix token api_token_prefix)
    then none
    else cut 46 (trim_prefix token api_token_prefix)

unfoldable pub verify_api_token : Digests → String → String → Bool
unfolding hash_api_token_secret
verify_api_token x secret stored_hash = str_eq (hash_api_token_secret x secret) stored_hash

abbrev dot : Char
dot = char 46 tt

IsHex-Lacks : (s : String) → IsHex s → Lacks 46 s
unfolding IsHex is_hex_digit Lacks
IsHex-Lacks String.[] h = tt
IsHex-Lacks (String.◌∷◌ c s) h = (ground (arith, h.0), IsHex-Lacks s h.1)

parse_joined :
    (id secret : String)
    → Lacks 46 id
    → parse_api_token (str_append api_token_prefix (str_append id (str_append "." secret)))
      ≡ some (id, secret)
unfolding parse_api_token
parse_joined id secret h =
    let rest : String = str_append id (str_append "." secret) in
    rw (has_prefix-append api_token_prefix rest, trim_prefix-append api_token_prefix rest)
      (rw (cons-append dot "" secret, nil-append secret) (cut-append 46 id secret dot h refl))

-- An issued API token parses to its own public id and a secret that verifies against its own stored
-- hash, whatever random bytes it was made of; the one thing relied on is that hexadecimal text is
-- made of hexadecimal digits.
pub parse_api_token-issue_api_token :
    (x : Digests) (hexadecimal : (b : List ℕ) → IsHex (x.hex b))
    (id_read secret_read : Result (List ℕ)) (t : IssuedToken)
    → issue_api_token x id_read secret_read ≡ ok t
    → (secret : String) × (parse_api_token t.token ≡ some (t.token_id, secret))
      × (verify_api_token x secret t.token_hash ≡ true)
unfolding issue_api_token verify_api_token hash_api_token_secret
parse_api_token-issue_api_token x hexadecimal (err e) secret_read t h = absurd (cc)
parse_api_token-issue_api_token x hexadecimal (ok b) (err e) t h = absurd (cc)
parse_api_token-issue_api_token x hexadecimal (ok b) (ok c) t h = (
  x.hex c,
  subst (λ t. parse_api_token t.token ≡ some (t.token_id, x.hex c)) (ok-injective h)
      (parse_joined (x.hex b) (x.hex c) (IsHex-Lacks (x.hex b) (hexadecimal b))),
  subst (λ t. verify_api_token x (x.hex c) t.token_hash ≡ true) (ok-injective h)
      (str_eq_refl (x.hex (x.sha256 (x.hex c)))),
)

-- A text without the prefix is no API token.
pub parse_other : (token : String) → is_api_token token ≡ false → parse_api_token token ≡ none
unfolding parse_api_token is_api_token
parse_other token h = rw (h, parse_api_token) refl
