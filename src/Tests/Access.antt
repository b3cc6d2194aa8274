-- ===== src/Tests/Access.antt =====
-- Roles, visibility, SLA targets and the history of a ticket, on small inputs.
use servicedesk.Common.{
  ℕ, Bool, true, false, ◌≡◌, refl, ◌≢◌, ◌↔◌, ◌⊎◌, none, List, [], ◌∷◌, ◌++◌, inr,
}
use servicedesk.Models.Roles.{manager, queue_ops, can, is_customer}
use servicedesk.Models.Roles.Laws.{can_iff_Holds, Holds}
use servicedesk.Models.Tickets.{Ticket, Attachment, new, closed, rejected, reject, pickup}
use servicedesk.Store.Memory.{memory}
use servicedesk.Sla.{Rule, evaluate}
use servicedesk.Sla.Decision.{evaluate-Decision, Decision}
use servicedesk.Visibility.{customer_can_see_ticket, in_scope, scope_of, list_visible_for_ticket}
use servicedesk.Visibility.Scope.{can_see_iff_listed, Shown, list_visible-Shown}
use servicedesk.Ticket.StateMachine.{next_status}
use servicedesk.Ticket.Desk.{Desk, touched, EventLog, empty_details, assignee_details}
use servicedesk.Ticket.Desk.Effects.{entry}
use servicedesk.Ticket.Lifecycle.{new_ticket, stamped, taken}
use servicedesk.Ticket.Lifecycle.Success.{trail}
use servicedesk.Ticket.History.{History, born, moved, owned}
use servicedesk.StageBar.{stage_progress}
use servicedesk.StageBar.Rejection.{hidden_iff_rejected}
use servicedesk.Backfill.{backfill_stage_timestamps}
use servicedesk.Backfill.Replay.{before_stages}
use servicedesk.Tests.Fixtures.{
  desk, an_env, ticket, an_engineer, a_customer, an_input, a_queue, joined,
}

can_iff_Holds_example : (can manager queue_ops ≡ true) ↔ Holds manager queue_ops
can_iff_Holds_example = can_iff_Holds manager queue_ops

-- A ticket of the customer's own making under another organization.
abbrev elsewhere : Ticket
elsewhere = record (ticket 1 new) { org_id = 2 }

can_see_iff_listed_example : (customer_can_see_ticket joined a_customer elsewhere [] ≡ true) ↔ (
    (in_scope (scope_of a_customer) [] elsewhere ≡ true)
    ⊎ ((is_customer a_customer.role ≡ true)
        × (elsewhere.creator_id ≡ a_customer.user_id)
        × (elsewhere.org_id ≢ a_customer.org_id)))
unfolding memory
can_see_iff_listed_example = can_see_iff_listed joined [] (λ p. refl) a_customer elsewhere

abbrev attached : ℕ → Bool → Bool → Attachment
attached uploader internal private = record {
  id = 1;
  ticket_id = 1;
  note_id = none;
  uploader_id = uploader;
  filename = "log.txt";
  mime_type = "text/plain";
  size_bytes = 4;
  internal = internal;
  customer_private = private;
  storage_backend = "db";
  content = 102 ∷ 105 ∷ 114 ∷ 101 ∷ [];
  created_at = 10;
}

abbrev attachments : List Attachment
attachments = attached 9 false true ∷ attached 10 false true ∷ attached 7 true false ∷ []

list_visible-Shown_example :
    Shown a_customer attachments (list_visible_for_ticket a_customer attachments)
list_visible-Shown_example = list_visible-Shown a_customer attachments

abbrev rules : List Rule
rules =
    record { priority = "P1"; category = "network"; minutes = 30 }
    ∷ record { priority = "P1"; category = ""; minutes = 60 }
    ∷ []

evaluate-Decision_example : Decision rules "P1" "network" (evaluate rules "P1" "network")
evaluate-Decision_example = evaluate-Decision rules "P1" "network"

-- A ticket that is made, picked up and rejected.
abbrev born_row : Ticket
born_row = new_ticket an_env a_customer an_input a_queue 10

abbrev born_log : List EventLog
born_log = entry 10 0 a_customer "ticket_created" empty_details ∷ []

abbrev taken_row : Ticket
taken_row = touched 20 (taken born_row 7 pickup 20)

abbrev taken_log : List EventLog
taken_log = born_log ++ entry 20 born_row.id an_engineer "assigned" (assignee_details 7 pickup) ∷ []

abbrev last_row : Ticket
last_row = touched 30 (stamped taken_row closed reject 30)

abbrev last_log : List EventLog
last_log =
    taken_log
    ++ trail 30 taken_row.id an_engineer reject "spam" taken_row.status (rejected ∷ closed ∷ [])

rejected_life : History last_row last_log true
unfolding next_status new_ticket taken
rejected_life =
    moved an_engineer reject 30 "spam" closed (rejected ∷ closed ∷ [])
      (owned an_engineer pickup 20 7 (born an_env a_customer an_input a_queue 10 empty_details)
        (inr refl))
      refl

hidden_iff_rejected_example : ((stage_progress last_row true).applicable ≡ false) ↔ (true ≡ true)
hidden_iff_rejected_example = hidden_iff_rejected true rejected_life

-- The ticket as it was before there were stage columns, with its events.
abbrev old_desk : Desk
old_desk = record (desk (before_stages last_row ∷ [])) { events = last_log }

migrated_desk : Desk
unfolding backfill_stage_timestamps memory
migrated_desk = (backfill_stage_timestamps an_env (λ events. events) 90 old_desk).0
