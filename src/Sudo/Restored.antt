-- ===== src/Sudo/Restored.antt =====
-- A session under another identity, from its start to its return.
use servicedesk.Common.{
  has_prefix, after_prefix, ◌==◌, ℕ, String, true, false, none, some, ◌≡◌, ◌<◌, ◌+◌, ◌⊎◌, inl, inr,
  refl, subst, sym, ap, ◌∙◌, Bool-cases, is_empty, is_some,
}
use servicedesk.Models.Roles.{User, sudo, can}
use servicedesk.Auth.Claims.{Claims}
use servicedesk.Auth.Sessions.{
  Jwt, IsJwt, Manager, SessionClaims, issue_sudo_token, registered_for, sudo_claims,
  parse_token-sign, is_api_token-sign, is_empty-sign,
}
use servicedesk.Auth.Tokens.{parse_api_token, parse_other}
use servicedesk.Store.{Error, ok, err, pure, ok-injective, Result-cases, Step-cases, carry_on-ok}
use servicedesk.Ticket.Desk.{Env, Desk}
use servicedesk.Users.{get_by_id, append_event}
use servicedesk.Http.{redirect}
use servicedesk.Middleware.{Access, Request, credential, bearer_token, cookie_value}
use servicedesk.Middleware.Credentials.{Authenticated, by_session}
use servicedesk.Sudo.{
  Clock, Browsing, sudo_org, start, stop, started_event, stopped_event, for_target,
  handle_sudo_start, handle_sudo_stop, returned, stashed,
}

-- The request that a browser sends: its cookies, and no header of its own.
pub browser_request : Browsing → Request
browser_request b = record {
  authorization = "";
  accepts_json = false;
  sd_token = b.cookies.sd_token;
  sd_return_token = b.cookies.sd_return_token;
}

carries :
    (b : Browsing) (r : Request) (token : String)
    → r ≡ browser_request b
    → b.cookies.sd_token ≡ some token
    → credential r ≡ token
unfolding browser_request credential bearer_token cookie_value is_empty has_prefix after_prefix
carries b r token sends held = ap credential sends ∙ ap cookie_value held

module _ (e : Env) (jwt : Jwt) (m : Manager) (c : Clock) (admin : Claims) where
  for_target-ok :
      (u : User) (d d' : Desk) (token : String) (target : User)
      → for_target e jwt m c admin u d ≡ (d', ok (token, target))
      → (u ≡ target)
        × ((target.id == admin.user_id) ≡ false)
        × (issue_sudo_token jwt m c.now target (sudo_org e c target d) admin.user_id admin.username
            ≡ ok token)
  unfolding for_target
  for_target-ok u d d' token target h = elim (Bool-cases (u.id == admin.user_id)) [
    | inl y ↦ absurd (cc (rw (y, for_target) at h))
    | inr n ↦
        let sign = issue_sudo_token jwt m c.now u (sudo_org e c u d) admin.user_id admin.username in
        elim (Result-cases sign) [
          | inr (x, f) ↦ absurd (cc (rw f at (rw (n, for_target) at h)))
          | inl (k, f) ↦
              let chain = rw f at (rw (n, for_target) at h) in
              let (d1, _, stored, last) =
                carry_on-ok (append_event e (started_event admin u.id c.now) d) (λ _. pure (k, u))
                  d' (token, target) chain in
              let both : (k, u) ≡ (token, target) = ok-injective (ap (λ r. r.1) last) in
              let same : u ≡ target = ap (λ r. r.1) both in
              (
                same,
                subst (λ v. (v.id == admin.user_id) ≡ false) same n,
                subst
                    (λ v.
                      issue_sudo_token jwt m c.now v (sudo_org e c v d) admin.user_id admin.username
                      ≡ ok token)
                    same (f ∙ ap (λ r. ok (r.0)) both),
              )
        ]
  ]

  -- What a start that returns has checked and made.
  start-ok :
      (id : ℕ) (d d' : Desk) (token : String) (target : User)
      → start e jwt m c admin id d ≡ (d', ok (token, target))
      → (can admin.role sudo ≡ true)
        × (get_by_id e id d ≡ ok target)
        × (issue_sudo_token jwt m c.now target (sudo_org e c target d) admin.user_id admin.username
            ≡ ok token)
  unfolding start
  start-ok id d d' token target h = elim (Bool-cases (can admin.role sudo)) [
    | inr n ↦ absurd (cc (rw (n, start) at h))
    | inl y ↦ elim (Result-cases (get_by_id e id d)) [
      | inr (x, f) ↦ absurd (cc (rw f at (rw (y, start) at h)))
      | inl (u, f) ↦
          let h1 = rw f at (rw (y, start) at h) in
          let (same, other, signed) = for_target-ok u d d' token target h1 in
          (y, f ∙ ap ok same, signed)
    ]
  ]

  -- A session token opens to the identity of the target, signed with the administrator's.
  pub opened :
      (jwt_lawful : IsJwt jwt) (target : User) (org now : ℕ) (token : String) (a : Access)
      (r : Request)
      → issue_sudo_token jwt m c.now target org admin.user_id admin.username ≡ ok token
      → now < c.now + m.ttl
      → a.jwt ≡ jwt
      → a.manager ≡ m
      → credential r ≡ token
      → Authenticated a now r (sudo_claims target org admin.user_id admin.username)
  unfolding issue_sudo_token registered_for
  opened jwt_lawful target org now token a r signed soon same_jwt same_manager carried =
      let claims : Claims = sudo_claims target org admin.user_id admin.username in
      let c' : SessionClaims = record {
        claims = claims;
        registered = registered_for m target.username c.now;
      } in
      by_session claims
        (ap is_empty carried ∙ is_empty-sign jwt jwt_lawful m m.secret c' token signed)
        (ap parse_api_token carried
          ∙ parse_other token (is_api_token-sign jwt jwt_lawful m m.secret c' token signed))
        (rw (same_jwt, same_manager, carried)
          (parse_token-sign jwt jwt_lawful m c' token now signed soon))

  started :
      (id : ℕ) (b b' : Browsing)
      → handle_sudo_start e jwt m c admin (some id) b ≡ (b', redirect "/")
      → (token : String) × (target : User) × (start e jwt m c admin id b.desk
          ≡ (b'.desk, ok (token, target)))
        × (b'.cookies.sd_token ≡ some token)
        × (b'.cookies.sd_return_token ≡ stashed b.cookies.sd_token b.cookies.sd_return_token)
  unfolding handle_sudo_start
  started id b b' h = elim (Step-cases (start e jwt m c admin id b.desk)) [
    | inr (d, x, f) ↦ absurd (cc (rw (f, handle_sudo_start) at h))
    | inl (d, (token, target), f) ↦
        let same = ap (λ r. r.0) (rw (f, handle_sudo_start) at h) in
        (
          token,
          target,
          f ∙ ap (λ s. (s.desk, ok (token, target))) same,
          sym (ap (λ s. s.cookies.sd_token) same),
          sym (ap (λ s. s.cookies.sd_return_token) same),
        )
  ]

  stopped :
      (now : ℕ) (claims : Claims) (b : Browsing) (token : String)
      → is_some claims.sudo_by_id ≡ true
      → b.cookies.sd_return_token ≡ some token
      → ((handle_sudo_stop e now claims b).0.cookies
          ≡ record { sd_token = some token; sd_return_token = none })
        ⊎ ((x : Error) × ((append_event e (stopped_event claims now) b.desk).1 ≡ err x))
  unfolding handle_sudo_stop stop returned
  stopped now claims b token acting kept =
      elim (Step-cases (append_event e (stopped_event claims now) b.desk)) [
        | inr (d, x, f) ↦ inr (x, ap (λ r. r.1) f)
        | inl (d, u, f) ↦
            inl (rw (acting, handle_sudo_stop, stop) (rw f (rw (kept, returned) refl)))
      ]

  -- An administrator that starts a session under another identity, from a browser that holds the
  -- token of their own, may do so, and until the new token expires the browser's requests are those
  -- of the target, signed with the administrator's id; stopping it with those claims gives the
  -- browser the administrator's token back and leaves no other, unless the event cannot be stored.
  pub sudo-restores :
      (jwt_lawful : IsJwt jwt) (a : Access) (id now : ℕ) (own : String) (b b' : Browsing)
      (r : Request)
      → a.jwt ≡ jwt
      → a.manager ≡ m
      → b.cookies.sd_token ≡ some own
      → handle_sudo_start e jwt m c admin (some id) b ≡ (b', redirect "/")
      → r ≡ browser_request b'
      → now < c.now + m.ttl
      → (can admin.role sudo ≡ true)
        × (target : User) × (org : ℕ) × (get_by_id e id b.desk ≡ ok target)
        × Authenticated a now r (sudo_claims target org admin.user_id admin.username)
        × (((handle_sudo_stop e now
                (sudo_claims target org admin.user_id admin.username)
                b').0.cookies
              ≡ record { sd_token = some own; sd_return_token = none })
            ⊎ ((x : Error) × ((append_event e
                    (stopped_event (sudo_claims target org admin.user_id admin.username) now)
                    b'.desk).1
                  ≡ err x)))
  unfolding sudo_claims stashed browser_request credential
  sudo-restores jwt_lawful a id now own b b' r same_jwt same_manager own_token starts sends soon =
      let (token, target, ran, new_token, kept) = started id b b' starts in
      let (allowed, found, signed) = start-ok id b.desk b'.desk token target ran in
      let org : ℕ = sudo_org e c target b.desk in
      let claims : Claims = sudo_claims target org admin.user_id admin.username in
      (
        allowed,
        target,
        org,
        found,
        opened jwt_lawful target org now token a r signed soon same_jwt same_manager
            (carries b' r token sends new_token),
        stopped now claims b' own refl (kept ∙ rw own_token refl),
      )
