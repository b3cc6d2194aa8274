-- ===== src/Users/Reissue.antt =====
-- Issuing an API token again (`handleUserIssueAPIToken` of internal/httpapi/admin_handlers.go), and
-- what `RequireAuth` makes of the new token and of the old one afterwards.
use servicedesk.Common.{
  find_first-holds, subst, ◌⊎◌, some-injective, ℕ, String, Bool, true, false, some, List, [], ◌∷◌,
  ◌≡◌, ◌≢◌, inl, inr, ◌==◌, refl, sym, ap, ◌∙◌, All, arith, map_if, Bool-cases, str_eq_ne,
}
use servicedesk.Models.Roles.{User}
use servicedesk.Auth.Tokens.{
  parse_api_token-issue_api_token, verify_api_token, parse_api_token, IsHex, Digests, IssuedToken,
  issue_api_token,
}
use servicedesk.Store.{All-found, Error, Result, ok, err, IsTable, Result-cases}
use servicedesk.Auth.Sessions.{Jwt, Manager}
use servicedesk.Ticket.Desk.{Env, Desk}
use servicedesk.Http.{Response, http_error, after_call, page, plain}
use servicedesk.Middleware.{identity_of, credential, Request, Access}
use servicedesk.Middleware.Credentials.{Authenticated, by_api_token, by_session}
use servicedesk.Auth.Claims.{Claims}
use servicedesk.Users.{
  update_user, holds, get_by_api_token_id, set_api_token, handle_user_issue_api_token,
}

-- The users that hold a token id are the given one.
unfoldable pub OnlyHolder : ℕ → String → User → Type 0
OnlyHolder id token_id u = holds u.api_token_id token_id ≡ true → u.id ≡ id

-- What a stored user with the new token looks like.
HasToken : ℕ → String → String → User → Type 0
HasToken id token_id hash u =
    holds u.api_token_id token_id ≡ true → (u.id ≡ id) × (u.api_token_hash ≡ some hash)

module _ (id : ℕ) (token_id hash : String) where
  renewed : User → User
  renewed u = record u { api_token_id = some token_id; api_token_hash = some hash }

  All-renewed :
      (rows : List User)
      → All (OnlyHolder id token_id) rows
      → All (HasToken id token_id hash) (map_if (λ u. u.id == id) renewed rows)
  unfolding renewed HasToken OnlyHolder
  All-renewed [] h = tt
  All-renewed (u ∷ rows) h = elim (Bool-cases (u.id == id)) [
    | inl y ↦ (rw y (λ _. (ground (arith, y), refl)), All-renewed rows h.1)
    | inr n ↦ (rw n (λ k. absurd (ground (arith, n, h.0 k))), All-renewed rows h.1)
  ]

  revoked :
      (old : String) (rows : List User)
      → old ≢ token_id
      → All (OnlyHolder id old) rows
      → All (λ u. holds u.api_token_id old ≡ false) (map_if (λ u. u.id == id) renewed rows)
  unfolding renewed OnlyHolder
  revoked old [] other h = tt
  revoked old (u ∷ rows) other h = elim (Bool-cases (u.id == id)) [
    | inl y ↦ (rw y (str_eq_ne token_id old (λ e. other (sym e))), revoked old rows other h.1)
    | inr n ↦ (
      rw n (elim (Bool-cases (holds u.api_token_id old)) [
        | inl k ↦ absurd (ground (arith, n, h.0 k))
        | inr k ↦ k
      ]),
      revoked old rows other h.1,
    )
  ]

-- What the middleware works with, the lookup on the given state.
pub access : Env → Digests → Jwt → Manager → Desk → Access
access e x jwt m d = record {
  digests = x;
  jwt = jwt;
  manager = m;
  lookup_api_token = some (λ token_id. get_by_api_token_id e token_id d);
}

module _ (e : Env) (lawful : IsTable (λ u. u.id) (λ i u. record u { id = i }) e.users_table) where
  updated :
      (id : ℕ) (f : User → User) (d d' : Desk)
      → update_user e id f d ≡ (d', ok tt)
      → d'.users ≡ map_if (λ u. u.id == id) f d.users
  unfolding update_user
  updated id f d d' h =
      let found : User → Bool = λ u. u.id == id in
      elim (Result-cases (e.users_table.update found f d.users)) [
        | inr (y, g) ↦ absurd (cc (rw (g, update_user) at h))
        | inl ((n, rows), g) ↦
            sym (ap (λ r. r.0.users) (rw (g, update_user) at h))
            ∙ (lawful.update_ok found f d.users n rows g).1
      ]

  module _ (x : Digests) (id_read secret_read : Result (List ℕ)) (id : ℕ) (d d' : Desk) where
    saved :
        (t : IssuedToken) (r : Desk × Result (Unit {0})) (text : String)
        → after_call {R = Desk × Response} r
            (λ y d. (d, http_error 500 (plain "could not save token")))
            (λ _ d. (d, page "admin_users" (plain t.token)))
          ≡ (d', page "admin_users" (plain text))
        → (r ≡ (d', ok tt)) × (t.token ≡ text)
    saved t (c, ok u) text h = (cc, cc)
    saved t (c, err y) text h = absurd (cc)

    -- An answer that shows a token comes from a token that was stored.
    issued :
        (text : String)
        → handle_user_issue_api_token e x id_read secret_read (some id) d
          ≡ (d', page "admin_users" (plain text))
        → (t : IssuedToken) × (issue_api_token x id_read secret_read ≡ ok t)
          × (t.token ≡ text)
          × (d'.users ≡ map_if (λ u. u.id == id) (renewed id t.token_id t.token_hash) d.users)
    unfolding handle_user_issue_api_token set_api_token renewed
    issued text h = elim (Result-cases (issue_api_token x id_read secret_read)) [
      | inr (y, g) ↦ absurd (cc (rw (g, handle_user_issue_api_token) at h))
      | inl (t, g) ↦
          let (stored, same) =
            saved t (set_api_token e id t.token_id t.token_hash d) text
              (rw (g, handle_user_issue_api_token) at h) in
          (t, g, same, updated id (renewed id t.token_id t.token_hash) d d' stored)
    ]

    module _ (hexadecimal : (b : List ℕ) → IsHex (x.hex b)) (jwt : Jwt) (m : Manager) (now : ℕ)
        (text : String)
        (shows : handle_user_issue_api_token e x id_read secret_read (some id) d
          ≡ (d', page "admin_users" (plain text))) where
      accepted :
          (t : IssuedToken) (secret : String) (r : Request) (rows : List User)
          → All (OnlyHolder id t.token_id) rows
          → d'.users ≡ map_if (λ u. u.id == id) (renewed id t.token_id t.token_hash) rows
          → parse_api_token (credential r) ≡ some (t.token_id, secret)
          → verify_api_token x secret t.token_hash ≡ true
          → ((u : User) × Authenticated (access e x jwt m d') now r (identity_of u) × (u.id ≡ id))
            ⊎ ((y : Error) × (get_by_api_token_id e t.token_id d' ≡ err y))
      unfolding get_by_api_token_id access HasToken
      accepted t secret r rows only changed parses good =
          let p : User → Bool = λ u. holds u.api_token_id t.token_id in
          elim (Result-cases (e.users_table.first p d'.users)) [
            | inr (y, f) ↦ inr (y, f)
            | inl (u, f) ↦
                let found = lawful.first_ok p d'.users u f in
                let all : All (HasToken id t.token_id t.token_hash) d'.users =
                  subst (All (HasToken id t.token_id t.token_hash)) (sym changed)
                    (All-renewed id t.token_id t.token_hash rows only) in
                let (mine, hashed) =
                  All-found (HasToken id t.token_id t.token_hash) p u d'.users all found
                    (find_first-holds p u d'.users found) in
                inl (
                  u,
                  by_api_token t.token_id secret t.token_hash (λ k. get_by_api_token_id e k d') u
                      parses refl f hashed good,
                  mine,
                )
          ]

      refused :
          (old secret : String) (r : Request)
          → All (λ u. holds u.api_token_id old ≡ false) d'.users
          → parse_api_token (credential r) ≡ some (old, secret)
          → (c : Claims) → ¬ Authenticated (access e x jwt m d') now r c
      unfolding get_by_api_token_id access
      refused old secret r none_holds parses c (by_session c' full not_one opens) = absurd (cc)
      refused old secret r none_holds parses c
            (by_api_token i s hash lookup u parsed configured found hashed good) =
          let p : User → Bool = λ u. holds u.api_token_id i in
          let same : lookup ≡ (λ k. get_by_api_token_id e k d') = sym (some-injective configured) in
          let hit = lawful.first_ok p d'.users u (sym (ap (λ f. f i) same) ∙ found) in
          let it : i ≡ old = ap (λ q. q.0) (some-injective (sym parsed ∙ parses)) in
          let none_now =
            subst (λ k. All (λ u. holds u.api_token_id k ≡ false) d'.users) (sym it) none_holds in
          absurd (
            cc (
              find_first-holds p u d'.users hit,
              All-found (λ u. holds u.api_token_id i ≡ false) p u d'.users none_now hit,
            ))

      -- After a token was issued to a user and shown, a request that carries the shown text is that
      -- user's, unless the lookup of the issued id fails; and a request that carries the token with the user's
      -- old id is nobody's. It is assumed that no other user holds either id, as the unique index has
      -- it, and that the random ids differ.
      pub reissue-replaces :
          (old old_secret : String) (new_request old_request : Request)
          → ((t : IssuedToken)
              → issue_api_token x id_read secret_read ≡ ok t
              → (old ≢ t.token_id) × All (OnlyHolder id t.token_id) d.users)
          → All (OnlyHolder id old) d.users
          → credential new_request ≡ text
          → parse_api_token (credential old_request) ≡ some (old, old_secret)
          → ((t : IssuedToken) × (issue_api_token x id_read secret_read ≡ ok t)
              × (((u : User) × Authenticated (access e x jwt m d') now new_request (identity_of u)
                    × (u.id ≡ id))
                  ⊎ ((y : Error) × (get_by_api_token_id e t.token_id d' ≡ err y))))
            × ((c : Claims) → ¬ Authenticated (access e x jwt m d') now old_request c)
      reissue-replaces old old_secret new_request old_request fresh only carried parses =
          let (t, made, same, changed) = issued text shows in
          let (secret, parsed, good) =
            parse_api_token-issue_api_token x hexadecimal id_read secret_read t made in
          let (differs, unique) = fresh t made in
          (
            (
              t,
              made,
              accepted t secret new_request d.users unique changed
                  (ap parse_api_token (carried ∙ sym same) ∙ parsed) good,
            ),
            refused old old_secret old_request
                (subst (All (λ u. holds u.api_token_id old ≡ false)) (sym changed)
                  (revoked id t.token_id t.token_hash old d.users differs only))
                parses,
          )
