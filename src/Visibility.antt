-- ===== src/Visibility.antt =====
-- Who sees a ticket: the customer rule of internal/httpapi/ticket_handlers.go (`customerCanSeeTicket`)
-- and the scope of `TicketRepo.List` (internal/repo/ticket.go), attachments (`CanView` of
-- internal/service/attachment.go), notes (`NoteRepo.ListByTicket`) and articles (`CanView` of
-- internal/service/kb.go).
pub mod Scope
use servicedesk.Common.{
  ℕ, Bool, true, false, ◌&&◌, ◌||◌, not, Option, none, some, List, ◌==◌, any, keep_if,
  if◌then◌else◌,
}
use servicedesk.Models.Roles.{Role, is_customer, is_agent}
use servicedesk.Models.Tickets.{Ticket, Watcher, Note, Attachment}
use servicedesk.Models.Knowledge.{KbArticle, is_published}
use servicedesk.Auth.Claims.{Claims}
use servicedesk.Store.{Result, ok, err, Table}

-- `WatcherRepo.IsWatching`
unfoldable pub is_watching : Table Watcher → ℕ → ℕ → List Watcher → Result Bool
is_watching table ticket_id user_id rows =
    elim (table.count (λ w. w.ticket_id == ticket_id && w.user_id == user_id) rows) [
      | ok n ↦ ok (not (n == 0))
      | err x ↦ err x
    ]

abbrev pub and_watching : Result Bool → Bool → Bool
and_watching (ok watching) same_org = watching && same_org
and_watching (err x) same_org = false

unfoldable pub customer_can_see_ticket : Table Watcher → Claims → Ticket → List Watcher → Bool
unfolding is_watching
customer_can_see_ticket table claims t rows =
    if not (is_customer claims.role)
    then true
    else if t.creator_id == claims.user_id
    then true
    else and_watching (is_watching table t.id claims.user_id rows) (t.org_id == claims.org_id)

pub record CustomerScope : Type 0 where
  pub org_id : ℕ
  pub user_id : ℕ

-- The scope that `loadTicketsList` sets.
unfoldable pub scope_of : Claims → Option CustomerScope
scope_of claims =
    if is_customer claims.role
    then some (record { org_id = claims.org_id; user_id = claims.user_id })
    else none

-- The condition that `TicketRepo.List` adds for a scope.
unfoldable pub in_scope : Option CustomerScope → List Watcher → Ticket → Bool
in_scope none watchers t = true
in_scope (some s) watchers t =
    t.org_id == s.org_id
    && (t.creator_id == s.user_id
        || any (λ w. w.ticket_id == t.id && w.user_id == s.user_id) watchers)

-- `service.CanView`
unfoldable pub can_view_attachment : Claims → Attachment → Bool
can_view_attachment viewer a =
    if is_agent viewer.role
    then true
    else if a.internal
    then false
    else if a.customer_private && not (a.uploader_id == viewer.user_id)
    then false
    else true

unfoldable pub list_visible_for_ticket : Claims → List Attachment → List Attachment
list_visible_for_ticket viewer all = keep_if (can_view_attachment viewer) all

-- The condition of `NoteRepo.ListByTicket`; `handleTicketDetail` passes `claims.Role != RoleCustomer`.
unfoldable pub list_by_ticket : Bool → ℕ → List Note → List Note
list_by_ticket include_internal ticket_id notes =
    keep_if (λ n. n.ticket_id == ticket_id && (include_internal || not n.internal)) notes

-- `KBService.CanView`; the actor may be nil.
unfoldable pub can_view_article : Option Claims → KbArticle → Bool
can_view_article none a = is_published a.status
can_view_article (some actor) a = is_published a.status || is_agent actor.role
