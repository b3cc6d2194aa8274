-- ===== src/Ticket/History.antt =====
-- The life of one ticket row with its audit log, as the ticket service writes them: an inductive
-- description over the rows and events of the operations of Ticket/Lifecycle.antt.
use servicedesk.Common.{ℕ, String, Bool, true, false, some, List, [], ◌∷◌, ◌++◌, ◌≡◌, ◌⊎◌}
use servicedesk.Models.Tickets.{
  TicketStatus, in_progress, Action, reject, assign, pickup, Ticket, Queue,
}
use servicedesk.Auth.Claims.{Claims}
use servicedesk.Store.{ok}
use servicedesk.Ticket.StateMachine.{next_status}
use servicedesk.Ticket.Desk.{Env, touched, EventLog, Details, assignee_details, mitigated_details}
use servicedesk.Ticket.Desk.Effects.{entry}
use servicedesk.Ticket.Lifecycle.{CreateTicketInput, new_ticket, stamped, taken}
use servicedesk.Ticket.Lifecycle.Success.{trail}

abbrev pub is_reject : Action → Bool
is_reject reject = true
is_reject _ = false

-- `History t log by_reject`: the row `t` and its log are reached, and `by_reject` tells whether the
-- last transition was a rejection.
pub data History : Ticket → List EventLog → Bool → Type 0 where
  born :
      (e : Env) (actor : Claims) (i : CreateTicketInput) (q : Queue) (now : ℕ) (details : Details)
      → History (new_ticket e actor i q now) (entry now 0 actor "ticket_created" details ∷ []) false
  moved :
      {t : Ticket} {log : List EventLog} {b : Bool} (actor : Claims) (a : Action) (now : ℕ)
      (reason : String) (final : TicketStatus) (path : List TicketStatus)
      → History t log b
      → next_status t.status a ≡ ok (final, path)
      → History
          (touched now (stamped t final a now))
          (log ++ trail now t.id actor a reason t.status path)
          (is_reject a)
  owned :
      {t : Ticket} {log : List EventLog} {b : Bool} (actor : Claims) (a : Action) (now who : ℕ)
      → History t log b
      → (a ≡ assign) ⊎ (a ≡ pickup)
      → History
          (touched now (taken t who a now))
          (log ++ entry now t.id actor "assigned" (assignee_details who a) ∷ [])
          b
  mitigated :
      {t : Ticket} {log : List EventLog} {b : Bool} (actor : Claims) (now : ℕ) (via_agent : Bool)
      → History t log b
      → t.status ≡ in_progress
      → History
          (record t { mitigated_at = some now; updated_at = now })
          (log ++ entry now t.id actor "ticket_mitigated" (mitigated_details via_agent) ∷ [])
          b
