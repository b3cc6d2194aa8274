-- ===== src/Ticket/Edits.antt =====
-- internal/service/ticket.go: `UpdateFields`, the watchers and the labels. `strings.TrimSpace` is a
-- parameter. A condition that gorm takes from a struct leaves out its zero fields.
pub mod Invitations
use servicedesk.Common.{
  ℕ, String, Bool, true, false, Option, none, some, List, [], ◌∷◌, ◌++◌, ◌==◌, ◌&&◌, ◌||◌, not, ltb,
  str_eq, if◌then◌else◌,
}
use servicedesk.Models.Roles.{User, is_customer}
use servicedesk.Models.Tickets.{Ticket, Tag, TicketTag}
use servicedesk.Auth.Claims.{Claims}
use servicedesk.Store.{Error, Result, ok, err, M, pure, carry_on, ◌>>=◌, ◌>>◌}
use servicedesk.Ticket.Desk.{
  Env, Desk, UpdateFieldsInput, changed_details, label_details, tag_details, ticket_payload,
  label_payload, trigger, get_ticket, touched, update_ticket, call, log_event, fan_out,
}
use servicedesk.Ticket.Lifecycle.{add_watcher}

abbrev pub or_kept {ℓ} : {A : Type ℓ} → Option A → A → A
or_kept none old = old
or_kept (some new) old = new

unfoldable pub with_fields : Ticket → UpdateFieldsInput → Ticket
with_fields t i = record t {
  title = or_kept i.title t.title;
  description = or_kept i.description t.description;
  priority = or_kept i.priority t.priority;
  category = or_kept i.category t.category;
  custom_fields = or_kept i.custom_fields t.custom_fields;
  service_id = or_kept i.service_id t.service_id;
}

unfoldable pub update_fields : Env → ℕ → Claims → ℕ → UpdateFieldsInput → M Desk Ticket
update_fields e now actor ticket_id i = do
  t ← get_ticket e ticket_id
  let s = with_fields t i
  update_ticket e now s
  let t' = touched now s
  log_event e now t'.id actor "field_updated" (changed_details i)
  fan_out e "ticket.updated" t'.id (ticket_payload t')
  call (trigger "field_updated" t'.id)
  pure t'

unfoldable pub watch : Env → ℕ → ℕ → M Desk (Unit {0})
watch e user_id ticket_id = add_watcher e ticket_id user_id

-- `WatcherRepo.Remove`
unfoldable pub unwatch : Env → ℕ → ℕ → M Desk (Unit {0})
unwatch e user_id ticket_id d =
    elim (e.watchers_table.delete (λ w. w.ticket_id == ticket_id && w.user_id == user_id)
      d.watchers) [ ok rows ↦ (record d { watchers = rows }, ok tt) | err x ↦ (d, err x) ]

-- What becomes of one email.
pub data Invitee : Type 0 where
  skipped : Invitee
  unresolved : String → Invitee
  invited : ℕ → Invitee

abbrev pub is_org_member : Env → ℕ → ℕ → Desk → Bool
is_org_member e org_id user_id d =
    elim (e.org_members_table.count (λ m. m.org_id == org_id && m.user_id == user_id)
      d.org_members) [ ok n ↦ ltb 0 n | err x ↦ false ]

unfoldable pub found_user : Env → Claims → Ticket → String → Desk → Result User → Invitee
found_user e actor t email d (err x) = unresolved email
found_user e actor t email d (ok u) =
    if is_customer actor.role && not (is_org_member e t.org_id u.id d)
    then unresolved email
    else invited u.id

unfoldable pub invitee : Env → Claims → Ticket → String → Desk → Invitee
unfolding found_user
invitee e actor t email d =
    if str_eq email ""
    then skipped
    else found_user e actor t email d (e.users_table.first (λ u. str_eq u.email email) d.users)

-- The new state, the emails that did not resolve, and the error.
abbrev pub Invited : Type 0
Invited = Desk × List String × Result (Unit {0})

add_then : Desk × Result (Unit {0}) → List String → (Desk → Invited) → Invited
add_then (d, ok x) left rest = rest d
add_then (d, err x) left rest = (d, left, err x)

invite : Env → ℕ → Invitee → List String → Desk → (List String → Desk → Invited) → Invited
unfolding add_then
invite e ticket_id skipped left d rest = rest left d
invite e ticket_id (unresolved email) left d rest = rest (left ++ email ∷ []) d
invite e ticket_id (invited user_id) left d rest =
    add_then (add_watcher e ticket_id user_id d) left (rest left)

-- The loop over the emails.
unfoldable pub invite_all :
    Env → Claims → ℕ → Ticket → (String → String) → List String → List String → Desk → Invited
unfolding invite
invite_all e actor ticket_id t trim [] left d = (d, left, ok tt)
invite_all e actor ticket_id t trim (raw ∷ emails) left d =
    invite e ticket_id (invitee e actor t (trim raw) d) left d
      (invite_all e actor ticket_id t trim emails)

invite_found : Env → Claims → ℕ → (String → String) → List String → Desk × Result Ticket → Invited
unfolding invite_all
invite_found e actor ticket_id trim emails (d, err x) = (d, [], err x)
invite_found e actor ticket_id trim emails (d, ok t) =
    invite_all e actor ticket_id t trim emails [] d

unfoldable pub watch_by_emails : Env → (String → String) → Claims → ℕ → List String → Desk → Invited
unfolding invite_found
watch_by_emails e trim actor ticket_id emails d =
    invite_found e actor ticket_id trim emails (get_ticket e ticket_id d)

-- `TagRepo.GetOrCreate`
get_or_create : Env → String → String → M Desk Tag
get_or_create e name kind d =
    let row : Tag = record { id = 0; name = name; kind = kind } in
    elim (e.tags_table.first_or_create
      (λ t. (str_eq name "" || str_eq t.name name) && (str_eq kind "" || str_eq t.kind kind)) row
      d.tags) [ ok (t, rows) ↦ (record d { tags = rows }, ok t) | err x ↦ (d, err x) ]

attach_to_ticket : Env → ℕ → ℕ → M Desk (Unit {0})
attach_to_ticket e ticket_id tag_id d =
    let row : TicketTag = record { ticket_id = ticket_id; tag_id = tag_id } in
    elim (e.ticket_tags_table.first_or_create (λ m. m.ticket_id == ticket_id && m.tag_id == tag_id)
      row d.ticket_tags) [
        | ok (_, rows) ↦ (record d { ticket_tags = rows }, ok tt)
        | err x ↦ (d, err x)
      ]

detach_from_ticket : Env → ℕ → ℕ → M Desk (Unit {0})
detach_from_ticket e ticket_id tag_id d =
    elim (e.ticket_tags_table.delete (λ m. m.ticket_id == ticket_id && m.tag_id == tag_id)
      d.ticket_tags) [ ok rows ↦ (record d { ticket_tags = rows }, ok tt) | err x ↦ (d, err x) ]

unfoldable pub add_label : Env → ℕ → Claims → ℕ → String → String → M Desk (Unit {0})
unfolding get_or_create attach_to_ticket
add_label e now actor ticket_id name kind = do
  tag ← get_or_create e name kind
  attach_to_ticket e ticket_id tag.id
  log_event e now ticket_id actor "label_added" (label_details name kind)
  fan_out e "ticket.label_added" ticket_id (label_payload name kind)

unfoldable pub remove_label : Env → ℕ → Claims → ℕ → ℕ → M Desk (Unit {0})
unfolding detach_from_ticket
remove_label e now actor ticket_id tag_id = do
  detach_from_ticket e ticket_id tag_id
  log_event e now ticket_id actor "label_removed" (tag_details tag_id)
