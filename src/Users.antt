-- ===== src/Users.antt =====
-- internal/repo/user.go, internal/auth/bootstrap.go and the handlers of internal/httpapi/admin_handlers.go
-- that change users. bcrypt is not part of the repository: hashing is a parameter.
pub mod Bootstrap
pub mod Reissue
use servicedesk.Common.{
  ℕ, String, Bool, true, false, Option, none, some, List, [], ◌∷◌, if◌then◌else◌, ◌==◌, str_eq,
}
use servicedesk.Models.Roles.{
  Role, customer, engineer, manager, system_admin, agent, other_role, User,
}
use servicedesk.Auth.Claims.{Claims, system_actor_id}
use servicedesk.Auth.Tokens.{Digests, IssuedToken, issue_api_token}
use servicedesk.Store.{Error, Result, ok, err, M, pure, fail, carry_on, ◌>>=◌, ◌>>◌, Table}
use servicedesk.Ticket.Desk.{Env, Desk, EventLog, Details, role_details}
use servicedesk.Http.{
  Response, Message, Handled, http_error, not_found, redirect, page, plain, error_text, after_call,
}

-- A pointer to a text, compared with a text, as SQL does: NULL equals nothing.
abbrev pub holds : Option String → String → Bool
holds none s = false
holds (some t) s = str_eq t s

unfoldable pub get_by_username : Env → String → Desk → Result User
get_by_username e username d = e.users_table.first (λ u. str_eq u.username username) d.users

unfoldable pub get_by_id : Env → ℕ → Desk → Result User
get_by_id e id d = e.users_table.first (λ u. u.id == id) d.users

unfoldable pub get_by_api_token_id : Env → String → Desk → Result User
get_by_api_token_id e token_id d = e.users_table.first (λ u. holds u.api_token_id token_id) d.users

unfoldable pub create_user : Env → User → M Desk (Unit {0})
create_user e u d = elim (e.users_table.create u d.users) [
  | ok (_, rows) ↦ (record d { users = rows }, ok tt)
  | err x ↦ (d, err x)
]

-- A user as `&models.User{…}` makes one: without token, and not stored yet.
unfoldable pub new_user : String → String → String → Role → String → User
new_user username email password_hash role source = record {
  id = 0;
  username = username;
  email = email;
  password_hash = password_hash;
  role = role;
  source = source;
  api_token_id = none;
  api_token_hash = none;
  created_at = 0;
}

unfoldable pub upsert_static : Env → String → String → Role → M Desk (Unit {0})
unfolding new_user
upsert_static e username password_hash role d =
    elim (e.users_table.upsert (λ u. str_eq u.username username)
      (λ u. record u { password_hash = password_hash; role = role; source = "static" })
      (new_user username "" password_hash role "static") d.users) [
        | ok rows ↦ (record d { users = rows }, ok tt)
        | err x ↦ (d, err x)
      ]

-- `Model(&models.User{}).Where("id = ?", id).Updates(…)`
unfoldable pub update_user : Env → ℕ → (User → User) → M Desk (Unit {0})
update_user e id f d = elim (e.users_table.update (λ u. u.id == id) f d.users) [
  | ok (_, rows) ↦ (record d { users = rows }, ok tt)
  | err x ↦ (d, err x)
]

unfoldable pub update_role : Env → ℕ → Role → M Desk (Unit {0})
unfolding update_user
update_role e id role = update_user e id (λ u. record u { role = role })

unfoldable pub set_api_token : Env → ℕ → String → String → M Desk (Unit {0})
unfolding update_user
set_api_token e user_id token_id token_hash =
    update_user e user_id
      (λ u. record u { api_token_id = some token_id; api_token_hash = some token_hash })

-- `EventLogRepo.Append`
unfoldable pub append_event : Env → EventLog → M Desk (Unit {0})
append_event e row d = elim (e.events_table.create row d.events) [
  | ok (_, rows) ↦ (record d { events = rows }, ok tt)
  | err x ↦ (d, err x)
]

-- `models.Role(text)`: the constants, and any other text.
unfoldable pub role_of : String → Role
role_of s =
    if str_eq s "Customer"
    then customer
    else if str_eq s "Engineer"
    then engineer
    else if str_eq s "Manager"
    then manager
    else if str_eq s "SystemAdmin"
    then system_admin
    else if str_eq s "Agent"
    then agent
    else other_role s

-- The form of the page that creates a user.
pub record UserForm : Type 0 where
  pub username : String
  pub email : String
  pub password : String
  pub role : String

unfoldable pub handle_user_create : Env → (String → Result String) → UserForm → Desk → Handled Desk
unfolding create_user new_user role_of
handle_user_create e hash_password form d = elim (hash_password form.password) [
  | err x ↦ (d, http_error 500 (plain "could not create user"))
  | ok hash ↦
      after_call (create_user e (new_user form.username form.email hash (role_of form.role) "db") d)
        (λ x d. (d, page "admin_users" (error_text "" x))) (λ _ d. (d, redirect "/admin/users"))
]

role_event : Claims → ℕ → User → Role → ℕ → EventLog
role_event actor id target role now = record {
  id = 0;
  ticket_id = none;
  actor_id = some actor.user_id;
  event = "role_changed";
  details = role_details id target.username target.role role;
  sudo_by_id = actor.sudo_by_id;
  created_at = now;
}

-- The id of the path is `none` where it is not a number.
unfoldable pub handle_user_role_update : Env → ℕ → Claims → Option ℕ → String → Desk → Handled Desk
unfolding get_by_id update_role append_event role_of role_event
handle_user_role_update e now actor none role d = (d, not_found)
handle_user_role_update e now actor (some id) role d = elim (get_by_id e id d) [
  | err x ↦ (d, not_found)
  | ok target ↦
      after_call (update_role e id (role_of role) d)
        (λ x d. (d, http_error 500 (plain "could not update role")))
        (λ _ d. (
          (append_event e (role_event actor id target (role_of role) now) d).0,
          redirect "/admin/users",
        ))
]

-- The page shows the new token once.
unfoldable pub handle_user_issue_api_token :
    Env → Digests → Result (List ℕ) → Result (List ℕ) → Option ℕ → Desk → Handled Desk
unfolding set_api_token
handle_user_issue_api_token e x id_read secret_read none d = (d, not_found)
handle_user_issue_api_token e x id_read secret_read (some id) d =
    elim (issue_api_token x id_read secret_read) [
      | err y ↦ (d, http_error 500 (plain "could not issue token"))
      | ok t ↦
          after_call (set_api_token e id t.token_id t.token_hash d)
            (λ y d. (d, http_error 500 (plain "could not save token")))
            (λ _ d. (d, page "admin_users" (plain t.token)))
    ]
