-- ===== src/Breach.antt =====
-- internal/service/sla_breach.go and `TicketRepo.ClaimNextBreach` (internal/repo/ticket.go): the
-- alerts of overdue tickets. A claim is two statements, and other workers may run between them.
pub mod Claims
use servicedesk.Common.{
  ℕ, Bool, true, false, Option, none, some, List, [], ◌∷◌, ◌++◌, ◌==◌, ◌&&◌, ltb, not, is_some,
  points_to, find_first, if◌then◌else◌,
}
use servicedesk.Models.Tickets.{Ticket, is_closed}
use servicedesk.Auth.Claims.{system_actor_id}
use servicedesk.Store.{Error, record_not_found, Result, ok, err, M, Table}
use servicedesk.Ticket.Desk.{
  Env, Desk, EventLog, empty_details, publish, dispatch, ticket_payload, call_if, ignore,
}

abbrev pub is_due : Option ℕ → ℕ → Bool
is_due none now = false
is_due (some due) now = ltb due now

-- The condition of the inner SELECT.
unfoldable pub breaching : ℕ → Ticket → Bool
breaching now t =
    is_due t.sla_due_at now && not (is_some t.sla_breach_notified_at) && not (is_closed t.status)

abbrev pub id_of : Option Ticket → Option ℕ
id_of none = none
id_of (some t) = some t.id

-- `SELECT id … ORDER BY id LIMIT 1`
unfoldable pub breach_candidate : ℕ → List Ticket → Option ℕ
unfolding breaching
breach_candidate now rows = id_of (find_first (breaching now) rows)

-- The UPDATE: the subquery is evaluated on the rows that the statement writes.
unfoldable pub claim_breach : Table Ticket → ℕ → List Ticket → Result (ℕ × List Ticket)
claim_breach table now rows =
    table.update (λ t. points_to (breach_candidate now rows) t.id)
      (λ t. record t { sla_breach_notified_at = some now }) rows

-- The SELECT of the claimed row, by the time of the claim.
unfoldable pub select_claimed : Table Ticket → ℕ → List Ticket → Result Ticket
select_claimed table now rows = table.last (λ t. points_to t.sla_breach_notified_at now) rows

unfoldable pub claim_next_breach : Env → ℕ → M Desk Ticket
claim_next_breach e now d = elim (claim_breach e.tickets_table now d.tickets) [
  | err x ↦ (d, err x)
  | ok (affected, rows) ↦
      if affected == 0
      then (record d { tickets = rows }, err record_not_found)
      else (record d { tickets = rows }, select_claimed e.tickets_table now rows)
]

breach_event : ℕ → Ticket → EventLog
breach_event now t = record {
  id = 0;
  ticket_id = some t.id;
  actor_id = some system_actor_id;
  event = "sla_breached";
  details = empty_details;
  sudo_by_id = none;
  created_at = now;
}

alert : Env → ℕ → Ticket → Desk → Desk
unfolding breach_event
alert e now t d =
    let d' : Desk = elim (e.events_table.create (breach_event now t) d.events) [
      | ok (_, rows) ↦ record d { events = rows }
      | err x ↦ d
    ] in
    let d'' =
      (call_if e.has_notifier (publish t.id "ticket.sla_breached" (ticket_payload t)) d').0 in
    (call_if e.has_webhooks (dispatch "ticket.sla_breached" (ticket_payload t)) d'').0

-- `ProcessOne`: whether a ticket was found.
alerted : Env → ℕ → Desk × Result Ticket → Desk × Bool
unfolding alert
alerted e now (d, ok t) = (alert e now t d, true)
alerted e now (d, err x) = (d, false)

unfoldable pub process_one : Env → ℕ → Desk → Desk × Bool
unfolding alerted
process_one e now d = alerted e now (claim_next_breach e now d)
