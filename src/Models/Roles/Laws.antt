-- ===== src/Models/Roles/Laws.antt =====
-- Ranks and capabilities: who may do what.
use servicedesk.Common.{true, ◌≡◌, refl, ◌↔◌, arith}
use servicedesk.Models.Roles.{
  Role, engineer, manager, system_admin, agent, at_least, is_agent, Capability, queue_ops,
  agent_detect, can,
}

-- The grants of DESIGN/02 2.1.1: one for each role but the administrator's, which has all.
pub data Holds : Role → Capability → Type 0 where
  manager_queues : Holds manager queue_ops
  agent_detects : Holds agent agent_detect
  admin_all : (c : Capability) → Holds system_admin c

can-Holds : (r : Role) (c : Capability) → can r c ≡ true → Holds r c
unfolding can
can-Holds system_admin c h = admin_all c
can-Holds manager queue_ops h = manager_queues
can-Holds agent agent_detect h = agent_detects
can-Holds _ _ h = absurd (ground arith)

Holds-can : {r : Role} {c : Capability} → Holds r c → can r c ≡ true
unfolding can
Holds-can manager_queues = refl
Holds-can agent_detects = refl
Holds-can (admin_all c) = refl

-- A capability is held exactly by grant: queue operations by managers, backdating by the automation
-- role, and every capability by the administrator; rank gives none.
pub can_iff_Holds : (r : Role) (c : Capability) → (can r c ≡ true) ↔ Holds r c
can_iff_Holds r c = (can-Holds r c, λ h. Holds-can h)

-- Whoever holds some capability is internal staff, and ranks at least as high as an engineer.
pub can_is_staff :
    (r : Role) (c : Capability)
    → can r c ≡ true
    → (is_agent r ≡ true) × (at_least r engineer ≡ true)
unfolding can is_agent at_least
can_is_staff r c h = ground arith

-- For every role that the program names, internal staff are those who rank as an engineer or higher.
pub is_agent_iff_rank : (r : Role) → (is_agent r ≡ true) ↔ (at_least r engineer ≡ true)
unfolding is_agent at_least
is_agent_iff_rank r = ground arith
