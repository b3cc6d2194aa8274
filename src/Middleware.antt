-- ===== src/Middleware.antt =====
-- internal/middleware/auth.go: who a request is from, and the guards of the routes. A guard wraps a
-- handler: here it takes the handler's answer as a function of the claims, and what is answered
-- instead.
pub mod Credentials
use servicedesk.Common.{
  ℕ, String, Bool, true, false, Option, none, some, ◌≡◌, if◌then◌else◌, has_prefix, trim_prefix,
  is_empty, not,
}
use servicedesk.Models.Roles.{Role, Capability, User, at_least, can}
use servicedesk.Auth.Claims.{Claims}
use servicedesk.Auth.Tokens.{Digests, parse_api_token, verify_api_token}
use servicedesk.Auth.Sessions.{Jwt, Manager, parse_token}
use servicedesk.Store.{Error, failure, Result, ok, err}

-- What the program reads of a request: the headers Authorization and Accept, and two cookies.
pub record Request : Type 0 where
  pub authorization : String
  pub accepts_json : Bool
  pub sd_token : Option String
  pub sd_return_token : Option String

-- What a guard answers in place of the handler.
pub data Denial : Type 0 where
  unauthorized_json redirect_to_login forbidden_text : Denial

-- The parameters of `RequireAuth`; the lookup may be nil.
pub record Access : Type 0 where
  pub digests : Digests
  pub jwt : Jwt
  pub manager : Manager
  pub lookup_api_token : Option (String → Result User)

unfoldable pub unauthorized : Request → Denial
unauthorized r = if r.accepts_json then unauthorized_json else redirect_to_login

unfoldable pub bearer_token : Request → String
bearer_token r =
    if has_prefix r.authorization "Bearer " then trim_prefix r.authorization "Bearer " else ""

unfoldable pub cookie_value : Option String → String
cookie_value none = ""
cookie_value (some v) = v

-- The token that `RequireAuth` reads: the header's, else the cookie's.
unfoldable pub credential : Request → String
unfolding bearer_token cookie_value
credential r = if is_empty (bearer_token r) then cookie_value r.sd_token else bearer_token r

-- The claims of an API token are its owner's, without organization.
unfoldable pub identity_of : User → Claims
identity_of u = record {
  user_id = u.id;
  username = u.username;
  role = u.role;
  org_id = 0;
  sudo_by_id = none;
  sudo_by_username = "";
}

verified : Digests → String → User → Option String → Result Claims
unfolding verify_api_token identity_of
verified x secret u none = err (failure "invalid api token")
verified x secret u (some hash) =
    if verify_api_token x secret hash then ok (identity_of u) else err (failure "invalid api token")

unfoldable pub resolve_api_token :
    Digests → Option (String → Result User) → String → String → Result Claims
unfolding verified
resolve_api_token x none token_id secret = err (failure "api token auth not configured")
resolve_api_token x (some lookup) token_id secret = elim (lookup token_id) [
  | ok u ↦ verified x secret u u.api_token_hash
  | err e ↦ err e
]

-- The claims of a token that is not empty.
unfoldable pub claims_of : Access → ℕ → String → Result Claims
unfolding resolve_api_token
claims_of a now token = elim (parse_api_token token) [
  | some (token_id, secret) ↦ resolve_api_token a.digests a.lookup_api_token token_id secret
  | none ↦ parse_token a.jwt a.manager now token
]

module _ {A : Type 0} (deny : Denial → A) where
  unfoldable pub require_auth : Access → ℕ → Request → (Claims → A) → A
  unfolding unauthorized credential claims_of
  require_auth a now r next =
      if is_empty (credential r)
      then deny (unauthorized r)
      else elim (claims_of a now (credential r)) [
        | ok claims ↦ next claims
        | err e ↦ deny (unauthorized r)
      ]

  -- The claims of the context may be nil.
  unfoldable pub require_role : Role → (Claims → A) → Option Claims → A
  require_role min next none = deny forbidden_text
  require_role min next (some claims) =
      if not (at_least claims.role min) then deny forbidden_text else next claims

  unfoldable pub require_capability : Capability → (Claims → A) → Option Claims → A
  require_capability cap next none = deny forbidden_text
  require_capability cap next (some claims) =
      if not (can claims.role cap) then deny forbidden_text else next claims
