-- ===== src/Tests/Tickets.antt =====
-- The ticket service on small desks.
use servicedesk.Common.{◌&&◌, ◌==◌, ℕ, ◌≡◌, refl, ◌↔◌, List, [], ◌∷◌, ◌<◌}
use servicedesk.Models.Tickets.{
  Ticket, new, in_progress, closed, rejected, resolve, reject, confirm, reopen, pickup,
}
use servicedesk.Store.{ok, invalid_transition}
use servicedesk.Store.Memory.{memory, memory-IsTable}
use servicedesk.Ticket.StateMachine.{next_status}
use servicedesk.Ticket.StateMachine.Diagram.{next_status_iff, Moves}
use servicedesk.Ticket.Desk.{
  Desk, touched, call, ignore, fan_out, log_event, update_ticket, get_ticket,
}
use servicedesk.Ticket.Lifecycle.{
  transition, assign_as, check_membership, stamped, taken, mark_mitigated, create,
}
use servicedesk.Ticket.Lifecycle.Failure.{transition_failed, SameTables}
use servicedesk.Ticket.Lifecycle.Ownership.{assign_needs_membership}
use servicedesk.Ticket.Lifecycle.Mitigation.{mark_mitigated-Mitigation, Mitigation}
use servicedesk.Ticket.Lifecycle.Creation.{create-Creation, Creation}
use servicedesk.Ticket.Requests.{
  Request, create_request, pickup_request, transition_request, mitigate_request, serve_all,
  serve_all-WellFormed, AllWellFormed,
}
use servicedesk.Tests.Fixtures.{an_env, desk, ticket, an_engineer, a_customer, an_input}

-- A ticket is made, picked up, mitigated, resolved and reopened.
abbrev requests : List (ℕ × Request)
requests =
    (10, create_request a_customer an_input)
    ∷ (20, pickup_request an_engineer 1)
    ∷ (30, mitigate_request an_engineer 1 "on it")
    ∷ (40, transition_request an_engineer 1 resolve "fixed")
    ∷ (50, transition_request a_customer 1 reopen "no")
    ∷ []

serve_all-WellFormed_example : AllWellFormed (serve_all an_env (desk []) requests)
serve_all-WellFormed_example =
    serve_all-WellFormed an_env (memory-IsTable (λ t. t.id) (λ i t. record t { id = i })) (desk [])
      requests tt

next_status_iff_example :
    (next_status in_progress reject ≡ ok (closed, rejected ∷ closed ∷ []))
    ↔ Moves in_progress reject (closed, rejected ∷ closed ∷ [])
next_status_iff_example = next_status_iff in_progress reject (closed, rejected ∷ closed ∷ [])

-- A ticket in progress, and what a rejection makes of it.
abbrev working_desk : Desk
working_desk = desk (ticket 1 in_progress ∷ [])

abbrev rejected_row : Ticket
rejected_row = touched 50 (stamped (ticket 1 in_progress) closed reject 50)

transition_failed_example :
    SameTables
      (desk (ticket 1 new ∷ []))
      (transition an_env 50 an_engineer 1 confirm "" (desk (ticket 1 new ∷ []))).0
unfolding memory transition get_ticket next_status
transition_failed_example =
    transition_failed an_env 50 an_engineer 1 confirm "" (desk (ticket 1 new ∷ []))
      (invalid_transition new confirm) refl

-- A new ticket, and what a pick-up makes of it.
abbrev new_desk : Desk
new_desk = desk (ticket 1 new ∷ [])

abbrev taken_row : Ticket
taken_row = touched 50 (taken (ticket 1 new) 7 pickup 50)

assign_needs_membership_example :
    (n : ℕ) × (an_env.queue_members_table.count
        (λ m. m.queue_id == 1 && m.user_id == 7)
        (desk (ticket 1 new ∷ [])).queue_members
      ≡ ok n)
    × (0 < n)
unfolding memory get_ticket check_membership assign_as update_ticket log_event fan_out taken ignore
    call
assign_needs_membership_example =
    assign_needs_membership an_env 50 an_engineer 1 7 pickup (desk (ticket 1 new ∷ []))
      (ticket 1 new) taken_row refl refl refl

mark_mitigated-Mitigation_example :
    Mitigation an_env 50 an_engineer 1
      (desk (ticket 1 in_progress ∷ []))
      (mark_mitigated an_env 50 an_engineer 1 "on it" (desk (ticket 1 in_progress ∷ [])))
mark_mitigated-Mitigation_example =
    mark_mitigated-Mitigation an_env 50 an_engineer 1 (desk (ticket 1 in_progress ∷ [])) "on it"

create-Creation_example :
    Creation an_env 10 a_customer an_input
      (desk [])
      (create an_env 10 a_customer an_input (desk []))
create-Creation_example = create-Creation an_env 10 a_customer an_input (desk [])
