-- ===== src/Auth/Claims.antt =====
-- internal/auth/auth.go: the claims of a session. The registered JWT fields are left out: no code of
-- the repository reads them.
use servicedesk.Common.{ℕ, String, Option}
use servicedesk.Models.Roles.{Role}

pub record Claims : Type 0 where
  pub user_id : ℕ
  pub username : String
  pub role : Role
  pub org_id : ℕ
  pub sudo_by_id : Option ℕ
  pub sudo_by_username : String

-- `auth.SystemActorID` (internal/auth/bootstrap.go).
abbrev pub system_actor_id : ℕ
system_actor_id = 1
