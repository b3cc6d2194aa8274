-- ===== src/Models/Roles.antt =====
-- internal/models/models.go: roles, their rank and their capabilities, users and organizations.
-- A Go string type with named constants is a data type with one constructor for each constant and
-- one for every other text.
pub mod Laws
use servicedesk.Common.{ℕ, String, Bool, true, false, Option, leb}

pub data Role : Type 0 where
  customer engineer manager system_admin agent : Role
  other_role : String → Role

-- `IsAgent`: internal staff, the automation role included.
unfoldable pub is_agent : Role → Bool
is_agent engineer = true
is_agent manager = true
is_agent system_admin = true
is_agent agent = true
is_agent _ = false

-- The map literal `rank`; a key that is missing reads 0.
unfoldable pub rank : Role → ℕ
rank customer = 0
rank engineer = 1
rank agent = 1
rank manager = 2
rank system_admin = 3
rank (other_role s) = 0

unfoldable pub at_least : Role → Role → Bool
unfolding rank
at_least r min = leb (rank min) (rank r)

pub data Capability : Type 0 where
  queue_ops sudo user_admin agent_detect : Capability
  other_capability : String → Capability

-- The map literal `capabilityRoles`; a key that is missing reads false.
unfoldable pub capability_roles : Capability → Role → Bool
capability_roles queue_ops manager = true
capability_roles sudo system_admin = true
capability_roles user_admin system_admin = true
capability_roles agent_detect agent = true
capability_roles _ _ = false

unfoldable pub can : Role → Capability → Bool
unfolding capability_roles
can system_admin c = true
can r c = capability_roles c r

-- Tests of a role against one constant.
abbrev pub is_customer : Role → Bool
is_customer customer = true
is_customer _ = false

abbrev pub is_engineer : Role → Bool
is_engineer engineer = true
is_engineer _ = false

abbrev pub is_system_admin : Role → Bool
is_system_admin system_admin = true
is_system_admin _ = false

abbrev pub is_agent_role : Role → Bool
is_agent_role agent = true
is_agent_role _ = false

pub record User : Type 0 where
  pub id : ℕ
  pub username : String
  pub email : String
  pub password_hash : String
  pub role : Role
  pub source : String
  pub api_token_id : Option String
  pub api_token_hash : Option String
  pub created_at : ℕ

pub record Organization : Type 0 where
  pub id : ℕ
  pub name : String
  pub parent_id : Option ℕ

pub record OrgMembership : Type 0 where
  pub org_id : ℕ
  pub user_id : ℕ
