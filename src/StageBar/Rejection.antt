-- ===== src/StageBar/Rejection.antt =====
-- How the stage bar infers a rejection (internal/httpapi/stagebar.go), over the life of a ticket.
use servicedesk.Common.{not, Bool, true, false, ◌≡◌, ◌↔◌, ◌≢◌, none, List, arith, is_some}
use servicedesk.Models.Tickets.{Ticket, new, in_progress, resolved, closed, rejected}
use servicedesk.Ticket.StateMachine.{next_status}
use servicedesk.Ticket.Lifecycle.{new_ticket, stamped, taken}
use servicedesk.Ticket.Desk.{EventLog}
use servicedesk.Ticket.History.{History, born, moved, owned, mitigated}
use servicedesk.StageBar.{stage_progress}

-- What the last transition says of the row.
record Told (t : Ticket) (b : Bool) : Type 0 where
  told_new : t.status ≡ new → t.resolved_at ≡ none
  told_working : t.status ≡ in_progress → t.resolved_at ≡ none
  told_resolved : t.status ≡ resolved → is_some t.resolved_at ≡ true
  told_closed : t.status ≡ closed → is_some t.resolved_at ≡ not b
  told_never : t.status ≢ rejected
  told_open : b ≡ true → t.status ≡ closed

History-Told : {t : Ticket} {log : List EventLog} {b : Bool} → History t log b → Told t b
unfolding new_ticket stamped taken next_status
History-Told (born e actor i q now details) = ground arith
History-Told (moved {t = t} actor a now reason final path h m) = ground (arith, History-Told h)
History-Told (owned actor a now who h k) = ground (arith, History-Told h)
History-Told (mitigated actor now via h k) = ground (arith, History-Told h)

-- Whatever the life of the ticket, reopenings included, the bar is hidden exactly when the last
-- transition was a rejection, and the ticket is then closed.
pub hidden_iff_rejected :
    {t : Ticket} {log : List EventLog} {b : Bool} (plain : Bool)
    → History t log b
    → ((stage_progress t plain).applicable ≡ false) ↔ (b ≡ true)
unfolding stage_progress
hidden_iff_rejected {t} {log} {b} plain h = let told = History-Told h in ground arith
