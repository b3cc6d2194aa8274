-- ===== src/Handlers.antt =====
-- internal/httpapi/ticket_handlers.go: the handlers that act on a ticket. A handler's arguments are the
-- claims of the session and the parsed request: the id of the path, absent where it is not a number,
-- and the fields of the form. Splitting a list of emails and trimming are Go's: the fields come split
-- and trimmed, but for the emails, which the service trims.
pub mod Exposure
use servicedesk.Common.{
  ℕ, String, Bool, true, false, Option, none, some, List, [], ◌∷◌, ◌&&◌, ◌⊎◌, inl, inr, not,
  if◌then◌else◌, str_eq,
}
use servicedesk.Models.Roles.{Role, is_customer, queue_ops, can, is_system_admin}
use servicedesk.Models.Tickets.{Ticket, Action}
use servicedesk.Auth.Claims.{Claims}
use servicedesk.Store.{Error, Result, ok, err, M}
use servicedesk.Ticket.Desk.{Env, Desk, UpdateFieldsInput}
use servicedesk.Ticket.Lifecycle.{
  CreateTicketInput, create, transition, assign, pick_up, mark_mitigated,
}
use servicedesk.Ticket.Edits.{
  update_fields, watch, unwatch, watch_by_emails, add_label, remove_label, Invited,
}
use servicedesk.Notes.{add}
use servicedesk.Http.{
  Response, Message, Handled, http_error, not_found, redirect, to_ticket, to_ticket_with_error,
  page, plain, error_text, unresolved_emails, after_call,
}

-- A call whose error is answered with its text, and otherwise the ticket's page.
acted : {A : Type 0} → ℕ → Desk × Result A → Handled Desk
acted id r = after_call r (λ x d. (d, http_error 400 (error_text "" x))) (λ _ d. (d, to_ticket id))

-- A call whose error is logged only.
logged : {A : Type 0} → ℕ → Desk × Result A → Handled Desk
logged id r = (r.0, to_ticket id)

unfoldable pub handle_ticket_transition :
    Env → ℕ → Claims → Option ℕ → Action → String → Desk → Handled Desk
unfolding acted
handle_ticket_transition e now c none action reason d = (d, not_found)
handle_ticket_transition e now c (some id) action reason d =
    acted id (transition e now c id action reason d)

unfoldable pub handle_ticket_pickup : Env → ℕ → Claims → Option ℕ → Desk → Handled Desk
unfolding acted
handle_ticket_pickup e now c none d = (d, not_found)
handle_ticket_pickup e now c (some id) d = acted id (pick_up e now c id d)

unfoldable pub handle_ticket_mitigate : Env → ℕ → Claims → Option ℕ → String → Desk → Handled Desk
unfolding acted
handle_ticket_mitigate e now c none note d = (d, not_found)
handle_ticket_mitigate e now c (some id) note d = acted id (mark_mitigated e now c id note d)

unfoldable pub handle_ticket_assign : Env → ℕ → Claims → Option ℕ → Option ℕ → Desk → Handled Desk
unfolding acted
handle_ticket_assign e now c none assignee d = (d, not_found)
handle_ticket_assign e now c (some id) none d = (d, http_error 400 (plain "invalid assignee"))
handle_ticket_assign e now c (some id) (some assignee) d = acted id (assign e now c id assignee d)

-- The flag counts for staff only.
unfoldable pub handle_note_create :
    Env → ℕ → Claims → Option ℕ → String → Bool → Desk → Handled Desk
handle_note_create e now c none body internal d = (d, not_found)
handle_note_create e now c (some id) body internal d =
    after_call (add e now c id body (internal && not (is_customer c.role)) d)
      (λ x d. (d, to_ticket_with_error id (error_text "Could not post that note: " x)))
      (λ _ d. (d, to_ticket id))

unfoldable pub handle_watch : Env → Claims → Option ℕ → Desk → Handled Desk
unfolding logged
handle_watch e c none d = (d, not_found)
handle_watch e c (some id) d = logged id (watch e c.user_id id d)

unfoldable pub handle_unwatch : Env → Claims → Option ℕ → Desk → Handled Desk
unfolding logged
handle_unwatch e c none d = (d, not_found)
handle_unwatch e c (some id) d = logged id (unwatch e c.user_id id d)

added_watchers : ℕ → Invited → Handled Desk
added_watchers id (d, left, err x) =
    (d, to_ticket_with_error id (error_text "Could not add watchers: " x))
added_watchers id (d, [], ok u) = (d, to_ticket id)
added_watchers id (d, email ∷ left, ok u) =
    (d, to_ticket_with_error id (unresolved_emails (email ∷ left)))

unfoldable pub handle_watchers_add :
    Env → (String → String) → Claims → Option ℕ → List String → Desk → Handled Desk
unfolding added_watchers
handle_watchers_add e trim c none emails d = (d, not_found)
handle_watchers_add e trim c (some id) emails d =
    added_watchers id (watch_by_emails e trim c id emails d)

-- The kind is "rca" or "incident".
unfoldable pub label_kind : String → String
label_kind kind = if str_eq kind "rca" then kind else "incident"

unfoldable pub handle_label_add :
    Env → ℕ → Claims → Option ℕ → String → String → Desk → Handled Desk
unfolding label_kind logged
handle_label_add e now c none kind name d = (d, not_found)
handle_label_add e now c (some id) kind name d =
    if str_eq name ""
    then (d, to_ticket id)
    else logged id (add_label e now c id name (label_kind kind) d)

unfoldable pub handle_label_remove : Env → ℕ → Claims → Option ℕ → Option ℕ → Desk → Handled Desk
unfolding logged
handle_label_remove e now c none tag_id d = (d, not_found)
handle_label_remove e now c (some id) none d = (d, to_ticket id)
handle_label_remove e now c (some id) (some tag_id) d = logged id (remove_label e now c id tag_id d)

-- `parseServiceID`: no service where the field is empty, an error where it is not a number.
pub data ServiceField : Type 0 where
  not_a_number : ServiceField
  chosen : Option ℕ → ServiceField

only_service : Option ℕ → UpdateFieldsInput
only_service service_id = record {
  title = none;
  description = none;
  priority = none;
  category = none;
  custom_fields = none;
  service_id = some service_id;
}

unfoldable pub handle_ticket_service_update :
    Env → ℕ → Claims → Option ℕ → ServiceField → Desk → Handled Desk
unfolding acted only_service
handle_ticket_service_update e now c none field d = (d, not_found)
handle_ticket_service_update e now c (some id) not_a_number d =
    (d, http_error 400 (plain "invalid service id"))
handle_ticket_service_update e now c (some id) (chosen service_id) d =
    acted id (update_fields e now c id (only_service service_id) d)

-- The form of a new ticket; the queue is absent where its field is not a number.
pub record TicketForm : Type 0 where
  pub title : String
  pub description : String
  pub priority : String
  pub queue_id : Option ℕ
  pub category : String
  pub custom_fields : String
  pub watcher_emails : List String

-- The guaranteed default queue.
queue_or_default : Option ℕ → ℕ
queue_or_default none = 1
queue_or_default (some id) = id

unfoldable pub ticket_input : TicketForm → Option ℕ → CreateTicketInput
unfolding queue_or_default
ticket_input form service_id = record {
  title = form.title;
  description = form.description;
  priority = form.priority;
  queue_id = queue_or_default form.queue_id;
  category = form.category;
  custom_fields = form.custom_fields;
  service_id = service_id;
  detected_at = none;
}

-- The optional watchers: whatever becomes of them is logged only.
invite_watchers : Env → (String → String) → Claims → ℕ → List String → Desk → Desk
invite_watchers e trim c id [] d = d
invite_watchers e trim c id (email ∷ emails) d = (watch_by_emails e trim c id (email ∷ emails) d).0

unfoldable pub handle_ticket_create :
    Env → (String → String) → ℕ → Claims → TicketForm → ServiceField → Desk → Handled Desk
unfolding ticket_input invite_watchers
handle_ticket_create e trim now c form not_a_number d =
    (d, http_error 400 (plain "invalid service id"))
handle_ticket_create e trim now c form (chosen service_id) d =
    after_call (create e now c (ticket_input form service_id) d)
      (λ x d. (d, page "ticket_new" (error_text "" x)))
      (λ t d. (invite_watchers e trim c t.id form.watcher_emails d, to_ticket t.id))
