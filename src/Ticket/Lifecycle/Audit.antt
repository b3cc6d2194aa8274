-- ===== src/Ticket/Lifecycle/Audit.antt =====
-- What a transition and an assignment that return have done (internal/service/ticket.go): the row,
-- described field by field, its audit trail, and the calls.
use servicedesk.Common.{ℕ, ◌+◌, String, true, ◌≡◌, ◌≢◌, ◌⊎◌, some, none, List, ◌++◌}
use servicedesk.Models.Roles.{is_system_admin}
use servicedesk.Models.Tickets.{
  TicketStatus, new, in_progress, resolved, closed, Action, reopen, Ticket,
}
use servicedesk.Auth.Claims.{Claims}
use servicedesk.Store.{ok}
use servicedesk.Ticket.StateMachine.Diagram.{Moves}
use servicedesk.Ticket.Desk.{Env, Desk, assignee_details, get_ticket}
use servicedesk.Ticket.Desk.Effects.{entry, appended}
use servicedesk.Ticket.Lifecycle.Success.{append_all, trail, transition_calls}
use servicedesk.Ticket.Lifecycle.Failure
use servicedesk.Ticket.Lifecycle.Ownership
use servicedesk.Ticket.Lifecycle.Ownership.{assign_calls}

-- What neither operation touches.
pub record Kept (t t' : Ticket) : Type 0 where
  pub identity : (t'.id ≡ t.id) × (t'.creator_id ≡ t.creator_id) × (t'.org_id ≡ t.org_id)
  pub content : (t'.title ≡ t.title) × (t'.description ≡ t.description)
  pub routing : (t'.queue_id ≡ t.queue_id) × (t'.priority ≡ t.priority) × (t'.category ≡ t.category)
  pub times :
      (t'.created_at ≡ t.created_at)
      × (t'.detected_at ≡ t.detected_at)
      × (t'.mitigated_at ≡ t.mitigated_at)
      × (t'.sla_due_at ≡ t.sla_due_at)

-- The row after a transition: a resolution has its time, a reopening clears it, counts itself and
-- may be alerted again, and nothing else changes these columns.
pub record Transitioned (t t' : Ticket) (action : Action) (final : TicketStatus) (now : ℕ)
    : Type 0 where
  pub rests : t'.status ≡ final
  pub resolution : final ≡ resolved → t'.resolved_at ≡ some now
  pub reopening :
      action ≡ reopen
      → (t'.resolved_at ≡ none)
        × (t'.reopen_count ≡ t.reopen_count + 1)
        × (t'.sla_breach_notified_at ≡ none)
  pub neither : action ≢ reopen → final ≢ resolved → t'.resolved_at ≡ t.resolved_at
  pub not_reopened :
      action ≢ reopen
      → (t'.reopen_count ≡ t.reopen_count) × (t'.sla_breach_notified_at ≡ t.sla_breach_notified_at)
  pub owner : (t'.assignee_id ≡ t.assignee_id) × (t'.acked_at ≡ t.acked_at)
  pub kept : Kept t t'
  pub at : t'.updated_at ≡ now

-- The row after an assignment: a new ticket is taken into work, and the first acknowledgement stays.
pub record Taken (t t' : Ticket) (who now : ℕ) : Type 0 where
  pub owner : t'.assignee_id ≡ some who
  pub started : t.status ≡ new → t'.status ≡ in_progress
  pub as_before : t.status ≢ new → t'.status ≡ t.status
  pub first_ack : t.acked_at ≡ none → t'.acked_at ≡ some now
  pub later_ack : (before : ℕ) → t.acked_at ≡ some before → t'.acked_at ≡ some before
  pub resolution : (t'.resolved_at ≡ t.resolved_at) × (t'.reopen_count ≡ t.reopen_count)
  pub kept : Kept t t'
  pub at : t'.updated_at ≡ now

module _ (e : Env) (now : ℕ) (actor : Claims) (id : ℕ) (d : Desk) where
  -- A ticket that was found, moved along the diagram by someone who may, and stored.
  pub record Audited (action : Action) (reason : String) (d' : Desk) (t' : Ticket) : Type 0 where
    pub before : Ticket
    pub final : TicketStatus
    pub path : List TicketStatus
    pub found : get_ticket e id d ≡ (d, ok before)
    pub moves : Moves before.status action (final, path)
    pub may_reopen :
        before.status ≡ closed
        → action ≡ reopen
        → (is_system_admin actor.role ≡ true) ⊎ (actor.user_id ≡ before.creator_id)
    pub row : Transitioned before t' action final now
    pub stored : e.tickets_table.save t' d.tickets ≡ ok d'.tickets
    pub logged :
        d'.events ≡ append_all e (trail now t'.id actor action reason before.status path) d.events
    pub called : d'.calls ≡ d.calls ++ transition_calls e before t' final now
    pub rest_kept : d' ≡ record d { tickets = d'.tickets; events = d'.events; calls = d'.calls }

  -- A ticket that was found, taken and stored.
  pub record Owned (who : ℕ) (action : Action) (d' : Desk) (t' : Ticket) : Type 0 where
    pub before : Ticket
    pub found : get_ticket e id d ≡ (d, ok before)
    pub row : Taken before t' who now
    pub stored : e.tickets_table.save t' d.tickets ≡ ok d'.tickets
    pub logged :
        d'.events
        ≡ appended e (entry now t'.id actor "assigned" (assignee_details who action)) d.events
    pub called : d'.calls ≡ d.calls ++ assign_calls e before t' now
    pub rest_kept : d' ≡ record d { tickets = d'.tickets; events = d'.events; calls = d'.calls }
