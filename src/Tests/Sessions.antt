-- ===== src/Tests/Sessions.antt =====
-- Runs of the credentials, the start of the program, and the sessions.
use Prim.Native.Char.{char}
use servicedesk.Common.{
  is_empty, has_prefix, after_prefix, cut, trim_prefix, ◌≢◌, All, subst, sym, suc, ap, ℕ, zero, suc,
  ap, sym, String, Bool, true, false, Option, none, some, List, [], ◌∷◌, ◌≡◌, refl, ◌⊎◌, ◌&&◌, ◌==◌,
  ==_iff, str_eq, eq_iff, points_to, arith, if◌then◌else◌,
}
use servicedesk.Models.Roles.{
  customer, manager, other_role, Role, engineer, system_admin, agent, is_engineer, User, can, sudo,
}
use servicedesk.Auth.Claims.{Claims}
use servicedesk.Auth.Tokens.{
  is_hex_digit, Digests, IsHex, IssuedToken, issue_api_token, parse_api_token, verify_api_token,
  parse_api_token-issue_api_token,
}
use servicedesk.Auth.Sessions.{
  issue_sudo_token, sudo_claims, Jwt, IsJwt, Manager, SessionClaims, RegisteredClaims,
}
use servicedesk.Middleware.{identity_of, credential, Request, Access, require_auth}
use servicedesk.Middleware.Credentials.{Authenticated, require_auth-cases}
use servicedesk.Store.{Error, forbidden, Result, ok, err, ok-injective}
use servicedesk.Store.Memory.{next_id, memory, memory-IsTable}
use servicedesk.Ticket.Desk.{Desk}
use servicedesk.Users.{handle_user_issue_api_token, get_by_api_token_id, get_by_id, append_event}
use servicedesk.Users.Reissue.{OnlyHolder, access, reissue-replaces}
use servicedesk.Sudo.{
  Browsing, Clock, handle_sudo_start, handle_sudo_stop, stopped_event, start, for_target,
}
use servicedesk.Sudo.Restored.{browser_request, sudo-restores}
use servicedesk.Users.Bootstrap.{Passwords, bootstrap, StartsWithSystem, bootstrap-StartsWithSystem}
use servicedesk.Tests.Fixtures.{an_env, desk}

-- Bytes in hexadecimal, as if there were only 0 and 255.
hex_of : List ℕ → String
hex_of [] = ""
hex_of (zero ∷ b) = String.◌∷◌ (char 48 tt) (hex_of b)
hex_of (suc n ∷ b) = String.◌∷◌ (char 102 tt) (hex_of b)

hex_of-IsHex : (b : List ℕ) → IsHex (hex_of b)
unfolding hex_of IsHex is_hex_digit
hex_of-IsHex [] = tt
hex_of-IsHex (zero ∷ b) = (refl, hex_of-IsHex b)
hex_of-IsHex (suc n ∷ b) = (refl, hex_of-IsHex b)

abbrev digests : Digests
digests = record { sha256 = λ s. 0 ∷ 1 ∷ []; hex = hex_of }

abbrev a_token : IssuedToken
a_token = record { token = "sdat_0f.ff"; token_id = "0f"; token_hash = "0f" }

parse_api_token-issue_api_token_example :
    (secret : String) × (parse_api_token "sdat_0f.ff" ≡ some ("0f", secret))
    × (verify_api_token digests secret "0f" ≡ true)
unfolding hex_of issue_api_token
parse_api_token-issue_api_token_example =
    parse_api_token-issue_api_token digests hex_of-IsHex (ok (0 ∷ 1 ∷ [])) (ok (1 ∷ 1 ∷ [])) a_token
      refl

-- A library that signs the claims of one session, and knows them again.
abbrev the_claims : SessionClaims
the_claims = record {
  claims = record {
    user_id = 9;
    username = "eve";
    role = engineer;
    org_id = 0;
    sudo_by_id = some 1;
    sudo_by_username = "root";
  };
  registered = record { issuer = "sd"; subject = "eve"; issued_at = 100; expires_at = 150 };
}

same_identity : Claims → Bool
same_identity c =
    (c.user_id == 9)
    && (str_eq c.username "eve"
        && (is_engineer c.role
            && ((c.org_id == 0) && (points_to c.sudo_by_id 1 && str_eq c.sudo_by_username "root"))))

same_registered : RegisteredClaims → Bool
same_registered r =
    str_eq r.issuer "sd"
    && (str_eq r.subject "eve" && ((r.issued_at == 100) && (r.expires_at == 150)))

both : (a b : Bool) → (a && b) ≡ true → (a ≡ true) × (b ≡ true)
both true b h = (refl, h)
both false b h = absurd (cc)

is_engineer_sound : (r : Role) → is_engineer r ≡ true → r ≡ engineer
is_engineer_sound engineer h = refl
is_engineer_sound customer h = absurd (cc)
is_engineer_sound manager h = absurd (cc)
is_engineer_sound system_admin h = absurd (cc)
is_engineer_sound agent h = absurd (cc)
is_engineer_sound (other_role s) h = absurd (cc)

points_to_sound : (o : Option ℕ) (n : ℕ) → points_to o n ≡ true → o ≡ some n
points_to_sound none n h = absurd (cc)
points_to_sound (some m) n h = ap some ((==_iff m n).0 h)

same_identity_sound : (c : Claims) → same_identity c ≡ true → c ≡ the_claims.claims
unfolding same_identity
same_identity_sound c h =
    let (a, h1) = both _ _ h in
    let (b, h2) = both _ _ h1 in
    let (r, h3) = both _ _ h2 in
    let (o, h4) = both _ _ h3 in
    let (s, t) = both _ _ h4 in
    cc (
      (==_iff c.user_id 9).0 a,
      (eq_iff c.username "eve").0 b,
      is_engineer_sound c.role r,
      (==_iff c.org_id 0).0 o,
      points_to_sound c.sudo_by_id 1 s,
      (eq_iff c.sudo_by_username "root").0 t,
    )

same_registered_sound :
    (r : RegisteredClaims) → same_registered r ≡ true → r ≡ the_claims.registered
unfolding same_registered
same_registered_sound r h =
    let (a, h1) = both _ _ h in
    let (b, h2) = both _ _ h1 in
    let (c, d) = both _ _ h2 in
    cc (
      (eq_iff r.issuer "sd").0 a,
      (eq_iff r.subject "eve").0 b,
      (==_iff r.issued_at 100).0 c,
      (==_iff r.expires_at 150).0 d,
    )

one_jwt : Jwt
unfolding same_identity same_registered
one_jwt = record {
  sign = λ key c.
      if same_identity c.claims && same_registered c.registered then ok "eyJ.x" else err forbidden;
  parse_with_claims = λ now token key_of. ok (the_claims, true);
}

one_jwt-IsJwt : IsJwt one_jwt
unfolding one_jwt
one_jwt-IsJwt = record {
  sign_header = λ key c token h.
      (".x", header (same_identity c.claims && same_registered c.registered) token h);
  parse_signed = λ key c token now key_of h k soon.
      opens c (same_identity c.claims && same_registered c.registered) token refl h;
}
  where
    header :
        (b : Bool) (token : String)
        → (if b then ok "eyJ.x" else err forbidden) ≡ ok token
        → token ≡ "eyJ.x"
    header true token h = sym (ok-injective h)
    header false token h = absurd (cc)

    opens :
        (c : SessionClaims) (b : Bool) (token : String)
        → (same_identity c.claims && same_registered c.registered) ≡ b
        → (if b then ok "eyJ.x" else err forbidden) ≡ ok token
        → ◌≡◌ {A = Result (SessionClaims × Bool)} (ok (the_claims, true)) (ok (c, true))
    opens c true token e h =
        let (a, b) = both _ _ e in
        cc (same_identity_sound c.claims a, same_registered_sound c.registered b)
    opens c false token e h = absurd (cc)

abbrev a_manager_key : Manager
a_manager_key = record { secret = "k"; issuer = "sd"; ttl = 50 }

abbrev a_user : ℕ → String → Role → User
a_user id username role = record {
  id = id;
  username = username;
  email = "";
  password_hash = "h";
  role = role;
  source = "db";
  api_token_id = some "aa";
  api_token_hash = some "bb";
  created_at = 0;
}

abbrev a_request : Option String → Request
a_request token = record {
  authorization = "";
  accepts_json = false;
  sd_token = token;
  sd_return_token = none;
}

an_access : Access
an_access = record {
  digests = digests;
  jwt = one_jwt;
  manager = a_manager_key;
  lookup_api_token = none;
}

require_auth-cases_example :
    ((claims : Claims) × Authenticated an_access 120 (a_request (some "eyJ.x")) claims
      × (require_auth (λ d. none) an_access 120 (a_request (some "eyJ.x")) some ≡ some claims))
    ⊎ (((claims : Claims) → ¬ Authenticated an_access 120 (a_request (some "eyJ.x")) claims)
        × (require_auth (λ d. none) an_access 120 (a_request (some "eyJ.x")) some ≡ none))
require_auth-cases_example =
    require_auth-cases an_access 120 (a_request (some "eyJ.x")) (λ d. none) some

-- The program starts on an empty database, with one static user that is called like the system's.
fresh_desk : Desk
fresh_desk = desk []

passwords : Passwords
passwords = record { hash_password = λ s. ok s; random_token = "r" }

started : Desk
unfolding fresh_desk passwords bootstrap
started = (bootstrap an_env passwords (("system", "p", "Manager") ∷ []) fresh_desk).0

first_id :
    (r r' : User) (after : List User) → an_env.users_table.create r [] ≡ ok (r', after) → r'.id ≡ 1
unfolding memory next_id
first_id r r' after h = ap (λ u. u.id) (sym (ap (λ q. q.0) (ok-injective h)))

bootstrap-StartsWithSystem_example : StartsWithSystem started.users
unfolding started bootstrap memory
bootstrap-StartsWithSystem_example =
    bootstrap-StartsWithSystem an_env (memory-IsTable (λ u. u.id) (λ i u. record u { id = i }))
      first_id passwords (("system", "p", "Manager") ∷ []) fresh_desk started refl refl

-- A user with an old token, and a new one.
agent_desk : Desk
agent_desk = record (desk []) { users = a_user 4 "bot" agent ∷ [] }

reissued : Desk
unfolding agent_desk handle_user_issue_api_token
reissued =
    (handle_user_issue_api_token an_env digests (ok (0 ∷ 1 ∷ [])) (ok (1 ∷ 1 ∷ [])) (some 4)
      agent_desk).0

fresh_token :
    (t : IssuedToken)
    → issue_api_token digests (ok (0 ∷ 1 ∷ [])) (ok (1 ∷ 1 ∷ [])) ≡ ok t
    → ("aa" ≢ t.token_id) × All (OnlyHolder 4 t.token_id) agent_desk.users
unfolding issue_api_token hex_of agent_desk OnlyHolder
fresh_token t h =
    subst (λ k. ("aa" ≢ k) × ((str_eq "aa" k ≡ true → ◌≡◌ {A = ℕ} 4 4) × Unit))
      (ap (λ t. t.token_id) (ok-injective h))
      ((λ e. absurd (cc (ap (λ k. str_eq k "aa") e))), ((λ k. refl), tt))

reissue-replaces_example :
    ((t : IssuedToken) × (issue_api_token digests (ok (0 ∷ 1 ∷ [])) (ok (1 ∷ 1 ∷ [])) ≡ ok t)
      × (((u : User) × Authenticated
              (access an_env digests one_jwt a_manager_key reissued)
              5
              (a_request (some "sdat_0f.ff"))
              (identity_of u)
            × (u.id ≡ 4))
          ⊎ ((y : Error) × (get_by_api_token_id an_env t.token_id reissued ≡ err y))))
    × ((c : Claims)
        → ¬ Authenticated
            (access an_env digests one_jwt a_manager_key reissued)
            5
            (a_request (some "sdat_aa.bb"))
            c)
unfolding handle_user_issue_api_token reissued agent_desk issue_api_token hex_of memory
    parse_api_token credential OnlyHolder is_empty has_prefix after_prefix cut trim_prefix
reissue-replaces_example =
    reissue-replaces an_env (memory-IsTable (λ u. u.id) (λ i u. record u { id = i })) digests
      (ok (0 ∷ 1 ∷ [])) (ok (1 ∷ 1 ∷ [])) 4 agent_desk reissued hex_of-IsHex one_jwt a_manager_key 5
      "sdat_0f.ff" refl "aa" "bb" (a_request (some "sdat_0f.ff")) (a_request (some "sdat_aa.bb"))
      fresh_token ((λ k. refl), tt) refl refl

-- An administrator that acts as an engineer, and returns.
root : Claims
root = record {
  user_id = 1;
  username = "root";
  role = system_admin;
  org_id = 0;
  sudo_by_id = none;
  sudo_by_username = "";
}

own_browser : Browsing
own_browser = record {
  desk = record (desk []) { users = a_user 1 "root" system_admin ∷ a_user 9 "eve" engineer ∷ [] };
  cookies = record { sd_token = some "own"; sd_return_token = none };
}

a_clock : Clock
a_clock = record { now = 100; by_name = λ orgs. orgs }

acting : Browsing
unfolding own_browser handle_sudo_start root a_clock one_jwt
acting = (handle_sudo_start an_env one_jwt a_manager_key a_clock root (some 9) own_browser).0

sudo-restores_example :
    (can root.role sudo ≡ true)
    × (target : User) × (org : ℕ) × (get_by_id an_env 9 own_browser.desk ≡ ok target)
    × Authenticated
        (record an_access { jwt = one_jwt; manager = a_manager_key })
        120
        (browser_request acting)
        (sudo_claims target org 1 "root")
    × (((handle_sudo_stop an_env 120 (sudo_claims target org 1 "root") acting).0.cookies
          ≡ record { sd_token = some "own"; sd_return_token = none })
        ⊎ ((x : Error) × ((append_event an_env
                (stopped_event (sudo_claims target org 1 "root") 120)
                acting.desk).1
              ≡ err x)))
unfolding root acting own_browser handle_sudo_start a_clock one_jwt memory start for_target can
    issue_sudo_token
sudo-restores_example =
    sudo-restores an_env one_jwt a_manager_key a_clock root one_jwt-IsJwt
      (record an_access { jwt = one_jwt; manager = a_manager_key }) 9 120 "own" own_browser acting
      (browser_request acting) refl refl refl refl refl (omega arith)
