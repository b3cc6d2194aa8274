-- ===== src/Auth/Sessions.antt =====
-- internal/auth/auth.go: `Manager`, which issues and parses the JSON web tokens of a session. The
-- JWT library is not part of the repository: signing and parsing are a parameter, with the laws
-- that it documents. A time is a number of nanoseconds.
use Prim.Native.Char.{char}
use Prim.Native.String.{◌++◌ as str_append}
use text.Mathlib.TextLemmas.{cons-append}
use servicedesk.Common.{
  ℕ, String, Bool, true, false, none, some, ◌≡◌, refl, ◌+◌, ◌<◌, has_prefix, after_prefix, is_empty,
  if◌then◌else◌,
}
use servicedesk.Models.Roles.{User}
use servicedesk.Auth.Claims.{Claims}
use servicedesk.Auth.Tokens.{is_api_token}
use servicedesk.Store.{failure, Result, ok, err}

-- `jwt.RegisteredClaims`, as far as the program fills it in.
pub record RegisteredClaims : Type 0 where
  pub issuer : String
  pub subject : String
  pub issued_at : ℕ
  pub expires_at : ℕ

pub record SessionClaims : Type 0 where
  pub claims : Claims
  pub registered : RegisteredClaims

pub data SigningMethod : Type 0 where
  hmac : SigningMethod
  other_method : String → SigningMethod

-- `SignedString` of a token that is made with HS256, and `ParseWithClaims`, whose result is the
-- claims and `token.Valid`.
pub record Jwt : Type 0 where
  pub sign : String → SessionClaims → Result String
  pub parse_with_claims :
      ℕ → String → (SigningMethod → Result String) → Result (SessionClaims × Bool)

pub record IsJwt (jwt : Jwt) : Type 0 where
  -- A token begins with its header, a JSON object in base64.
  pub sign_header :
      (key : String) (c : SessionClaims) (token : String)
      → jwt.sign key c ≡ ok token
      → (rest : String) × (token ≡ str_append "eyJ" rest)
  -- The key that signed it opens it before it expires.
  pub parse_signed :
      (key : String) (c : SessionClaims) (token : String) (now : ℕ)
      (key_of : SigningMethod → Result String)
      → jwt.sign key c ≡ ok token
      → key_of hmac ≡ ok key
      → now < c.registered.expires_at
      → jwt.parse_with_claims now token key_of ≡ ok (c, true)

pub record Manager : Type 0 where
  pub secret : String
  pub issuer : String
  pub ttl : ℕ

-- `12 * time.Hour`
abbrev pub session_ttl : ℕ
session_ttl = 43200000000000

unfoldable pub new_manager : String → String → Manager
new_manager secret issuer = record { secret = secret; issuer = issuer; ttl = session_ttl }

unfoldable pub registered_for : Manager → String → ℕ → RegisteredClaims
registered_for m subject now = record {
  issuer = m.issuer;
  subject = subject;
  issued_at = now;
  expires_at = now + m.ttl;
}

unfoldable pub issue_token : Jwt → Manager → ℕ → User → ℕ → Result String
unfolding registered_for
issue_token jwt m now u org_id = jwt.sign m.secret (record {
  claims = record {
    user_id = u.id;
    username = u.username;
    role = u.role;
    org_id = org_id;
    sudo_by_id = none;
    sudo_by_username = "";
  };
  registered = registered_for m u.username now;
})

-- The claims of a session of an admin under the identity of another user.
unfoldable pub sudo_claims : User → ℕ → ℕ → String → Claims
sudo_claims target org_id admin_id admin_username = record {
  user_id = target.id;
  username = target.username;
  role = target.role;
  org_id = org_id;
  sudo_by_id = some admin_id;
  sudo_by_username = admin_username;
}

unfoldable pub issue_sudo_token : Jwt → Manager → ℕ → User → ℕ → ℕ → String → Result String
unfolding registered_for sudo_claims
issue_sudo_token jwt m now target org_id admin_id admin_username = jwt.sign m.secret (record {
  claims = sudo_claims target org_id admin_id admin_username;
  registered = registered_for m target.username now;
})

-- The key of a token: no key for a method that is not HMAC.
unfoldable pub key_func : Manager → SigningMethod → Result String
key_func m hmac = ok m.secret
key_func m (other_method name) = err (failure "unexpected signing method")

valid_claims : Result (SessionClaims × Bool) → Result Claims
valid_claims (ok (c, valid)) = if valid then ok c.claims else err (failure "invalid token")
valid_claims (err e) = err (failure "invalid token")

unfoldable pub parse_token : Jwt → Manager → ℕ → String → Result Claims
unfolding key_func valid_claims
parse_token jwt m now token = valid_claims (jwt.parse_with_claims now token (key_func m))

json_header : (rest : String) → is_api_token (str_append "eyJ" rest) ≡ false
unfolding is_api_token has_prefix after_prefix
json_header rest = rw (cons-append (char 101 tt) "yJ" rest) refl

header_full : (rest : String) → is_empty (str_append "eyJ" rest) ≡ false
unfolding is_empty
header_full rest = rw (cons-append (char 101 tt) "yJ" rest) refl

module _ (jwt : Jwt) (lawful : IsJwt jwt) (m : Manager) where
  -- A token that the manager signed is opened by it, for as long as a session lasts.
  pub parse_token-sign :
      (c : SessionClaims) (token : String) (now : ℕ)
      → jwt.sign m.secret c ≡ ok token
      → now < c.registered.expires_at
      → parse_token jwt m now token ≡ ok c.claims
  unfolding parse_token valid_claims key_func
  parse_token-sign c token now signed h =
      rw (lawful.parse_signed m.secret c token now (key_func m) signed refl h) refl

  pub is_api_token-sign :
      (key : String) (c : SessionClaims) (token : String)
      → jwt.sign key c ≡ ok token
      → is_api_token token ≡ false
  is_api_token-sign key c token h =
      let (rest, e) = lawful.sign_header key c token h in rw (e, json_header rest) refl

  pub is_empty-sign :
      (key : String) (c : SessionClaims) (token : String)
      → jwt.sign key c ≡ ok token
      → is_empty token ≡ false
  is_empty-sign key c token h =
      let (rest, e) = lawful.sign_header key c token h in rw (e, header_full rest) refl
