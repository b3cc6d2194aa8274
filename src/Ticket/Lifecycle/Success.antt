-- ===== src/Ticket/Lifecycle/Success.antt =====
-- `Transition` on its successful path: what is stored, logged, published and triggered.
use servicedesk.Common.{
  ℕ, String, Bool, true, false, ◌≡◌, refl, Option, none, some, List, [], ◌∷◌, ◌++◌, ◌&&◌,
  if◌then◌else◌, ap, append_assoc, append-nil, Bool-cases, inl, inr,
}
use servicedesk.Models.Tickets.{TicketStatus, Action, Ticket, is_resolved}
use servicedesk.Auth.Claims.{Claims}
use servicedesk.Store.{Result, ok, pure}
use servicedesk.Ticket.StateMachine.{next_status}
use servicedesk.Ticket.Desk.{
  Env, Desk, EventLog, status_details, status_payload, Call, trigger, propose, observe, Metric,
  mttr, get_ticket, touched, update_ticket, call, call_if, ignore,
}
use servicedesk.Ticket.Desk.Effects.{entry, appended, fan_calls, log_event_lem, fan_out_lem}
use servicedesk.Ticket.Lifecycle.{transition, stamped, reopen_denied, log_path, observe_since}

-- The audit trail of a path: one entry for each status on it, with the status before it.
unfoldable pub trail :
    ℕ → ℕ → Claims → Action → String → TicketStatus → List TicketStatus → List EventLog
trail now id actor action reason from [] = []
trail now id actor action reason from (st ∷ path) =
    entry now id actor "status_changed" (status_details from st action reason)
    ∷ trail now id actor action reason st path

-- The event log after several rows were offered to it in order.
pub append_all : Env → List EventLog → List EventLog → List EventLog
append_all e [] log = log
append_all e (x ∷ xs) log = append_all e xs (appended e x log)

log_path_lem :
    (e : Env) (now id : ℕ) (actor : Claims) (action : Action) (reason : String)
    (from : TicketStatus) (path : List TicketStatus) (d : Desk)
    → log_path e now id actor action reason from path d ≡ (
      record d { events = append_all e (trail now id actor action reason from path) d.events },
      ok tt,
    )
unfolding log_path trail append_all
log_path_lem e now id actor action reason from [] d = refl
log_path_lem e now id actor action reason from (st ∷ path) d =
    rw (log_event_lem e now id actor "status_changed" (status_details from st action reason) d)
      (log_path_lem e now id actor action reason st path _)

pub since_calls : Metric → Option ℕ → ℕ → List Call
since_calls m none now = []
since_calls m (some from) now = observe m from now ∷ []

pub observe_since_lem :
    (m : Metric) (o : Option ℕ) (now : ℕ) (d : Desk)
    → observe_since m o now d ≡ (record d { calls = d.calls ++ since_calls m o now }, ok tt)
unfolding observe_since since_calls call
observe_since_lem m none now d = simp append-nil
observe_since_lem m (some from) now d = refl

-- The time to resolve is observed when the action resolves a mitigated ticket.
pub resolve_calls : Ticket → TicketStatus → ℕ → List Call
resolve_calls t final now = if is_resolved final then since_calls mttr t.mitigated_at now else []

pub resolve_calls_lem :
    (t : Ticket) (final : TicketStatus) (now : ℕ) (d : Desk)
    → ((if is_resolved final then observe_since mttr t.mitigated_at now else pure tt) d).0
      ≡ record d { calls = d.calls ++ resolve_calls t final now }
unfolding resolve_calls
resolve_calls_lem t final now d = elim (Bool-cases (is_resolved final)) [
  | inl h ↦
      rw h
        (ap (λ (r : Desk × Result (Unit {0})). r.0) (observe_since_lem mttr t.mitigated_at now d))
  | inr h ↦ rw h (simp append-nil)
]

-- The calls of a transition, in order: the metric, the proposal of an article for a resolution, the
-- two fan-outs and the trigger of the workflows.
pub transition_calls : Env → Ticket → Ticket → TicketStatus → ℕ → List Call
transition_calls e t t' final now =
    resolve_calls t final now
    ++ ((if is_resolved final && e.has_kb then propose t'.id ∷ [] else [])
        ++ (fan_calls e "ticket.status_changed" t'.id (status_payload t' t.status final)
            ++ trigger "status_changed" t'.id ∷ []))

pub call_if_lem :
    (b : Bool) (c : Call) (d : Desk)
    → call_if b c d ≡ (record d { calls = d.calls ++ (if b then c ∷ [] else []) }, ok tt)
unfolding call_if
call_if_lem true c d = refl
call_if_lem false c d = simp append-nil

pub update_ticket_lem :
    (e : Env) (now : ℕ) (t : Ticket) (d : Desk) (rows : List Ticket)
    → e.tickets_table.save (touched now t) d.tickets ≡ ok rows
    → update_ticket e now t d ≡ (record d { tickets = rows }, ok tt)
unfolding update_ticket
update_ticket_lem e now t d rows h = rw (h, update_ticket)

module _ (e : Env) (now : ℕ) (actor : Claims) (id : ℕ) (action : Action) (reason : String)
    (d : Desk) where
  module _ (t : Ticket) (final : TicketStatus) (path : List TicketStatus) (rows : List Ticket)
      (found : get_ticket e id d ≡ (d, ok t)) (allowed : reopen_denied actor t action ≡ false)
      (moved : next_status t.status action ≡ ok (final, path))
      (written : e.tickets_table.save (touched now (stamped t final action now)) d.tickets
        ≡ ok rows) where
    -- On the path where the ticket is found, the reopening is allowed, the diagram has the edge and
    -- the row is written, `Transition` returns the stamped ticket. It has stored that row, logged
    -- one event for each status of the path, and made the calls of a transition, and it has changed
    -- nothing else.
    pub transition_runs : transition e now actor id action reason d ≡ (
      record d {
        tickets = rows;
        events =
            append_all e
              (trail now
                (touched now (stamped t final action now)).id
                actor
                action
                reason
                t.status
                path)
              d.events;
        calls =
            d.calls ++ transition_calls e t (touched now (stamped t final action now)) final now;
      },
      ok (touched now (stamped t final action now)),
    )
    unfolding transition ignore call transition_calls
    transition_runs =
        rw
          (
            found,
            allowed,
            moved,
            resolve_calls_lem t final now d,
            update_ticket_lem e now (stamped t final action now)
                (record d { calls = d.calls ++ resolve_calls t final now }) rows written,
            call_if_lem,
            log_path_lem,
            fan_out_lem,
          )
          (simp append_assoc)
