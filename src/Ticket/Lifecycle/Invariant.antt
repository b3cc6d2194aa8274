-- ===== src/Ticket/Lifecycle/Invariant.antt =====
-- What holds of every stored ticket.
use servicedesk.Common.{ℕ, true, ◌≡◌, ◌≢◌, none, some, List, arith, is_some, ◌⊎◌}
use servicedesk.Models.Tickets.{
  TicketStatus, new, in_progress, resolved, rejected, Action, assign, pickup, Ticket, Queue,
}
use servicedesk.Auth.Claims.{Claims}
use servicedesk.Store.{ok}
use servicedesk.Ticket.StateMachine.{next_status}
use servicedesk.Ticket.Desk.{Env}
use servicedesk.Ticket.Lifecycle.{CreateTicketInput, new_ticket, stamped, taken}

-- The status agrees with the milestones: nothing has happened to a new ticket, a resolved one has
-- its time, one in progress has none, and no ticket rests in Rejected.
pub record WellFormed (t : Ticket) : Type 0 where
  pub never_rejected : t.status ≢ rejected
  pub new_unowned :
      t.status ≡ new → (t.assignee_id ≡ none) × (t.acked_at ≡ none) × (t.mitigated_at ≡ none)
  pub new_unresolved : t.status ≡ new → (t.resolved_at ≡ none) × (t.reopen_count ≡ 0)
  pub resolved_stamped : t.status ≡ resolved → is_some t.resolved_at ≡ true
  pub working_unresolved : t.status ≡ in_progress → t.resolved_at ≡ none

pub new_ticket-WellFormed :
    (e : Env) (actor : Claims) (i : CreateTicketInput) (q : Queue) (now : ℕ)
    → WellFormed (new_ticket e actor i q now)
unfolding new_ticket
new_ticket-WellFormed e actor i q now = ground arith

pub stamped-WellFormed :
    (t : Ticket) (a : Action) (now : ℕ) (final : TicketStatus) (path : List TicketStatus)
    → WellFormed t
    → next_status t.status a ≡ ok (final, path)
    → WellFormed (stamped t final a now)
unfolding stamped next_status
stamped-WellFormed t a now final path w h = ground arith

pub taken-WellFormed :
    (t : Ticket) (who now : ℕ) (a : Action)
    → (a ≡ assign) ⊎ (a ≡ pickup)
    → WellFormed t
    → WellFormed (taken t who a now)
unfolding taken next_status
taken-WellFormed t who now a h w = ground arith

pub mitigated-WellFormed :
    (t : Ticket) (now : ℕ)
    → t.status ≡ in_progress
    → WellFormed t
    → WellFormed (record t { mitigated_at = some now })
mitigated-WellFormed t now h w = ground arith
