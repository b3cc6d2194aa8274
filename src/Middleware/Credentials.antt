-- ===== src/Middleware/Credentials.antt =====
-- What makes a request authenticated, told apart from how `RequireAuth` finds out.
use servicedesk.Common.{
  subst, Bool-cases, ◌⊎◌, inr, ◌∙◌, sym, inl, Option-cases, after_prefix, ℕ, String, true, false,
  none, some, ◌≡◌, refl, is_empty, has_prefix,
}
use servicedesk.Models.Roles.{User}
use servicedesk.Auth.Claims.{Claims}
use servicedesk.Auth.Tokens.{parse_api_token, verify_api_token}
use servicedesk.Auth.Sessions.{parse_token}
use servicedesk.Store.{ok-injective, Result-cases, Result, ok}
use servicedesk.Middleware.{
  unauthorized, require_auth, Denial, err, Error, Request, Access, credential, identity_of,
  verified, resolve_api_token, claims_of,
}

-- A request carries a credential of the given claims: an API token whose owner is known and whose
-- secret verifies, or a session token that the manager opens.
pub data Authenticated (a : Access) (now : ℕ) (r : Request) : Claims → Type 0 where
  by_api_token :
      (token_id secret hash : String) (lookup : String → Result User) (u : User)
      → parse_api_token (credential r) ≡ some (token_id, secret)
      → a.lookup_api_token ≡ some lookup
      → lookup token_id ≡ ok u
      → u.api_token_hash ≡ some hash
      → verify_api_token a.digests secret hash ≡ true
      → Authenticated a now r (identity_of u)
  by_session :
      (claims : Claims)
      → is_empty (credential r) ≡ false
      → parse_api_token (credential r) ≡ none
      → parse_token a.jwt a.manager now (credential r) ≡ ok claims
      → Authenticated a now r claims

-- A text that parses as an API token is not empty.
parsed_not_empty :
    (t : String) (p : String × String) → parse_api_token t ≡ some p → is_empty t ≡ false
unfolding parse_api_token is_empty has_prefix after_prefix
parsed_not_empty String.[] p h = absurd (cc)
parsed_not_empty (String.◌∷◌ c t) p h = refl

ok_not_err : {A : Type 0} {a : A} {e : Error} → ok a ≡ err e → ⊥
ok_not_err h = cc

module _ (a : Access) (now : ℕ) (r : Request) where
  claims_of-Authenticated :
      (claims : Claims) → Authenticated a now r claims → claims_of a now (credential r) ≡ ok claims
  unfolding claims_of resolve_api_token verified
  claims_of-Authenticated claims (by_api_token i s h lookup u parses configured found hashed good) =
      rw (parses, claims_of)
        (rw (configured, resolve_api_token)
          (rw found (rw (hashed, verified) (rw (good, verified) refl))))
  claims_of-Authenticated claims (by_session c full parses opened) = rw (parses, claims_of) opened

  resolved :
      (i s : String) (claims : Claims)
      → parse_api_token (credential r) ≡ some (i, s)
      → resolve_api_token a.digests a.lookup_api_token i s ≡ ok claims
      → Authenticated a now r claims
  unfolding resolve_api_token verified
  resolved i s claims parses h = elim (Option-cases a.lookup_api_token) [
    | inl e ↦ absurd (cc (rw (e, resolve_api_token) at h))
    | inr (lookup, e) ↦
        let h1 = rw (e, resolve_api_token) at h in
        elim (Result-cases (lookup i)) [
          | inr (x, f) ↦ absurd (cc (rw f at h1))
          | inl (u, f) ↦
              let h2 : verified a.digests s u u.api_token_hash ≡ ok claims = rw f at h1 in
              elim (Option-cases u.api_token_hash) [
                | inl g ↦ absurd (cc (rw (g, verified) at h2))
                | inr (hash, g) ↦
                    let h3 : verified a.digests s u (some hash) ≡ ok claims = rw g at h2 in
                    elim (Bool-cases (verify_api_token a.digests s hash)) [
                      | inr n ↦ absurd (cc (rw (n, verified) at h3))
                      | inl y ↦
                          let mine : ok (identity_of u) ≡ ok claims = rw (y, verified) at h3 in
                          subst (Authenticated a now r) (ok-injective mine)
                            (by_api_token i s hash lookup u parses e f g y)
                    ]
              ]
        ]
  ]

  opened :
      (claims : Claims)
      → is_empty (credential r) ≡ false
      → claims_of a now (credential r) ≡ ok claims
      → Authenticated a now r claims
  unfolding claims_of
  opened claims full h = elim (Option-cases (parse_api_token (credential r))) [
    | inl n ↦ by_session claims full n (sym (rw (n, claims_of) refl) ∙ h)
    | inr ((i, s), e) ↦ resolved i s claims e (sym (rw (e, claims_of) refl) ∙ h)
  ]

  not_empty : (claims : Claims) → Authenticated a now r claims → is_empty (credential r) ≡ false
  not_empty claims (by_api_token i s h lookup u parses configured found hashed good) =
      parsed_not_empty (credential r) (i, s) parses
  not_empty claims (by_session c full parses opens) = full

  module _ {A : Type 0} (deny : Denial → A) (next : Claims → A) where
    pub require_auth-Authenticated :
        (claims : Claims)
        → Authenticated a now r claims
        → require_auth deny a now r next ≡ next claims
    unfolding require_auth
    require_auth-Authenticated claims h =
        rw (not_empty claims h) (rw (claims_of-Authenticated claims h) refl)

    -- `RequireAuth` calls the handler with the claims of a credential that the request carries, an API
    -- token whose secret verifies or a session token that opens; a request that carries none, whatever
    -- it is, gets the answer for an unauthorized request and the handler is not called.
    pub require_auth-cases :
        ((claims : Claims) × Authenticated a now r claims
          × (require_auth deny a now r next ≡ next claims))
        ⊎ (((claims : Claims) → ¬ Authenticated a now r claims)
            × (require_auth deny a now r next ≡ deny (unauthorized r)))
    unfolding require_auth
    require_auth-cases = elim (Bool-cases (is_empty (credential r))) [
      | inl y ↦ inr ((λ c h. absurd (cc (not_empty c h, y))), rw (y, require_auth) refl)
      | inr n ↦ elim (Result-cases (claims_of a now (credential r))) [
        | inl (claims, e) ↦
            let h : Authenticated a now r claims = opened claims n e in
            inl (claims, h, require_auth-Authenticated claims h)
        | inr (x, e) ↦
            inr ((λ c h. ok_not_err (sym (claims_of-Authenticated c h) ∙ e)), rw n (rw e refl))
      ]
    ]
