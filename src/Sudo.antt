-- ===== src/Sudo.antt =====
-- internal/service/sudo.go and internal/httpapi/sudo_handlers.go, and the login and logout of
-- internal/httpapi/auth_handlers.go: sessions, and a session of an administrator under the identity
-- of another user. The browser's cookies are a state of their own.
pub mod Restored
use servicedesk.Common.{
  ℕ, String, Bool, true, false, Option, none, some, List, [], ◌∷◌, ◌&&◌, not, if◌then◌else◌, ◌==◌,
  any, is_some, str_eq,
}
use servicedesk.Models.Roles.{Role, User, Organization, sudo, can, is_customer}
use servicedesk.Auth.Claims.{Claims}
use servicedesk.Auth.Sessions.{Jwt, Manager, issue_token, issue_sudo_token}
use servicedesk.Store.{
  Error, forbidden, not_in_sudo_session, failure, Result, ok, err, M, carry_on, pure, fail, Table,
}
use servicedesk.Ticket.Desk.{Env, Desk, EventLog, sudo_details, empty_details}
use servicedesk.Users.{get_by_id, get_by_username, append_event}
use servicedesk.Http.{
  Response, Handled, http_error, not_found, redirect, page, plain, error_text, after_call,
}

-- The columns that order a listing are the database's own: `ORDER BY name` is a parameter.
pub record Clock : Type 0 where
  pub now : ℕ
  pub by_name : List Organization → List Organization

unfoldable pub list_orgs_for_user : Env → Clock → ℕ → Desk → Result (List Organization)
list_orgs_for_user e c user_id d =
    elim (e.orgs_table.find (λ o. any (λ m. m.org_id == o.id && m.user_id == user_id) d.org_members)
      d.orgs) [ ok orgs ↦ ok (c.by_name orgs) | err x ↦ err x ]

first_org : Result (List Organization) → ℕ
first_org (ok (o ∷ orgs)) = o.id
first_org (ok []) = 0
first_org (err x) = 0

-- The organization of a session under the identity of a target.
unfoldable pub sudo_org : Env → Clock → User → Desk → ℕ
unfolding list_orgs_for_user first_org
sudo_org e c target d =
    if is_customer target.role then first_org (list_orgs_for_user e c target.id d) else 0

unfoldable pub started_event : Claims → ℕ → ℕ → EventLog
started_event admin target_id now = record {
  id = 0;
  ticket_id = none;
  actor_id = some target_id;
  event = "sudo_started";
  details = sudo_details admin.user_id admin.username;
  sudo_by_id = some admin.user_id;
  created_at = now;
}

unfoldable pub stopped_event : Claims → ℕ → EventLog
stopped_event claims now = record {
  id = 0;
  ticket_id = none;
  actor_id = some claims.user_id;
  event = "sudo_stopped";
  details = empty_details;
  sudo_by_id = claims.sudo_by_id;
  created_at = now;
}

unfoldable pub for_target : Env → Jwt → Manager → Clock → Claims → User → M Desk (String × User)
unfolding sudo_org append_event started_event
for_target e jwt m c admin target d =
    if target.id == admin.user_id
    then (d, err (failure "cannot sudo into your own account"))
    else elim (issue_sudo_token jwt m c.now target (sudo_org e c target d) admin.user_id
        admin.username) [
          | err x ↦ (d, err x)
          | ok token ↦
              carry_on (append_event e (started_event admin target.id c.now) d)
                (λ _. pure (token, target))
        ]

-- `SudoService.Start`
unfoldable pub start : Env → Jwt → Manager → Clock → Claims → ℕ → M Desk (String × User)
unfolding for_target get_by_id
start e jwt m c admin target_user_id d =
    if not (can admin.role sudo) then (d, err forbidden) else elim (get_by_id e target_user_id d) [
      | err x ↦ (d, err x)
      | ok target ↦ for_target e jwt m c admin target d
    ]

-- `SudoService.Stop`
unfoldable pub stop : Env → ℕ → Claims → M Desk (Unit {0})
unfolding stopped_event append_event
stop e now claims d =
    if not (is_some claims.sudo_by_id)
    then (d, err not_in_sudo_session)
    else append_event e (stopped_event claims now) d

-- The two cookies of a browser.
pub record Cookies : Type 0 where
  pub sd_token : Option String
  pub sd_return_token : Option String

pub record Browsing : Type 0 where
  pub desk : Desk
  pub cookies : Cookies

-- The current token is stashed, where there is one.
unfoldable pub stashed : Option String → Option String → Option String
stashed none kept = kept
stashed (some current) kept = some current

unfoldable pub handle_sudo_start :
    Env → Jwt → Manager → Clock → Claims → Option ℕ → Browsing → Handled Browsing
unfolding start stashed
handle_sudo_start e jwt m c admin none b = (b, not_found)
handle_sudo_start e jwt m c admin (some id) b =
    after_call (start e jwt m c admin id b.desk)
      (λ x d. (record b { desk = d }, http_error 400 (error_text "" x)))
      (λ t d. (
        record {
          desk = d;
          cookies = record {
            sd_token = some t.0;
            sd_return_token = stashed b.cookies.sd_token b.cookies.sd_return_token;
          };
        },
        redirect "/",
      ))

unfoldable pub returned : Option String → Browsing → Handled Browsing
returned none b = (b, http_error 400 (plain "no return session found"))
returned (some token) b = (
  record b { cookies = record { sd_token = some token; sd_return_token = none } },
  redirect "/admin",
)

unfoldable pub handle_sudo_stop : Env → ℕ → Claims → Browsing → Handled Browsing
unfolding stop returned
handle_sudo_stop e now claims b =
    after_call (stop e now claims b.desk)
      (λ x d. (record b { desk = d }, http_error 400 (error_text "" x)))
      (λ _ d. returned b.cookies.sd_return_token (record b { desk = d }))

pub record LoginForm : Type 0 where
  pub org : String  -- trimmed
  pub username : String
  pub password : String

abbrev invalid : Response
invalid = page "login" (plain "Invalid organization, username, or password")

-- `OrgRepo.GetByName` and `OrgMembershipRepo.IsMember`, for a customer only.
unfoldable pub login_org : Env → LoginForm → User → Desk → Option ℕ
login_org e form u d =
    if not (is_customer u.role)
    then some 0
    else elim (e.orgs_table.first (λ o. str_eq o.name form.org) d.orgs) [
      | err x ↦ none
      | ok org ↦
          elim (e.org_members_table.count (λ m. m.org_id == org.id && m.user_id == u.id)
            d.org_members) [ err x ↦ none | ok n ↦ if n == 0 then none else some org.id ]
    ]

signed_in : Result String → Browsing → Handled Browsing
signed_in (err x) b = (b, http_error 500 (plain "could not issue token"))
signed_in (ok token) b =
    (record b { cookies = record b.cookies { sd_token = some token } }, redirect "/")

unfoldable pub handle_login :
    Env → Jwt → Manager → (String → String → Bool) → ℕ → LoginForm → Browsing → Handled Browsing
unfolding signed_in login_org
handle_login e jwt m check_password now form b = elim (get_by_username e form.username b.desk) [
  | err x ↦ (b, invalid)
  | ok u ↦
      if not (check_password u.password_hash form.password)
      then (b, invalid)
      else elim (login_org e form u b.desk) [
        | none ↦ (b, invalid)
        | some org_id ↦ signed_in (issue_token jwt m now u org_id) b
      ]
]

unfoldable pub handle_logout : Browsing → Handled Browsing
handle_logout b =
    (record b { cookies = record { sd_token = none; sd_return_token = none } }, redirect "/login")
