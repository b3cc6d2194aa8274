-- ===== src/Ticket/Lifecycle/Failure.antt =====
-- The branches of the ticket service that return an error: what they leave behind.
use servicedesk.Common.{
  ℕ, String, true, false, ◌≡◌, refl, List, ◌++◌, arith, ◌==◌, Bool-cases, inl, inr, ◌⊎◌,
}
use servicedesk.Models.Tickets.{TicketStatus, Action, Ticket}
use servicedesk.Auth.Claims.{Claims}
use servicedesk.Store.{Error, forbidden, Result, ok, err, Result-cases}
use servicedesk.Ticket.StateMachine.{next_status}
use servicedesk.Ticket.Desk.{Env, Desk, Call, get_ticket, touched, update_ticket, ignore}
use servicedesk.Ticket.Lifecycle.{transition, stamped, reopen_denied}
use servicedesk.Ticket.Lifecycle.Success.{
  transition_runs, append_all, trail, transition_calls, resolve_calls, resolve_calls_lem,
}

-- No table differs; calls may have been made.
abbrev pub SameTables : Desk → Desk → Type 0
SameTables d d' = (calls : List Call) × (d' ≡ record d { calls = calls })

pub get_cases :
    (e : Env) (id : ℕ) (d : Desk)
    → ((t : Ticket) × (get_ticket e id d ≡ (d, ok t)))
      ⊎ ((x : Error) × (get_ticket e id d ≡ (d, err x)))
unfolding get_ticket
get_cases e id d = elim (Result-cases (e.tickets_table.first (λ t. t.id == id) d.tickets)) [
  | inl (t, h) ↦ inl (t, rw h)
  | inr (x, h) ↦ inr (x, rw h)
]

pub update_failed :
    (e : Env) (now : ℕ) (t : Ticket) (d : Desk) (x : Error)
    → e.tickets_table.save (touched now t) d.tickets ≡ err x
    → update_ticket e now t d ≡ (d, err x)
unfolding update_ticket
update_failed e now t d x h = ground arith

module _ (e : Env) (now : ℕ) (actor : Claims) (id : ℕ) (action : Action) (reason : String)
    (d : Desk) where
  not_found :
      (x : Error)
      → get_ticket e id d ≡ (d, err x)
      → transition e now actor id action reason d ≡ (d, err x)
  unfolding transition
  not_found x h = rw h

  denied :
      (t : Ticket)
      → get_ticket e id d ≡ (d, ok t)
      → reopen_denied actor t action ≡ true
      → transition e now actor id action reason d ≡ (d, err forbidden)
  unfolding transition
  denied t h k = rw (h, k)

  no_edge :
      (t : Ticket) (x : Error)
      → get_ticket e id d ≡ (d, ok t)
      → reopen_denied actor t action ≡ false
      → next_status t.status action ≡ err x
      → transition e now actor id action reason d ≡ (d, err x)
  unfolding transition
  no_edge t x h k m = rw (h, k, m)

  not_written :
      (t : Ticket) (final : TicketStatus) (path : List TicketStatus) (x : Error)
      → get_ticket e id d ≡ (d, ok t)
      → reopen_denied actor t action ≡ false
      → next_status t.status action ≡ ok (final, path)
      → update_ticket e now
          (stamped t final action now)
          (record d { calls = d.calls ++ resolve_calls t final now })
        ≡ (record d { calls = d.calls ++ resolve_calls t final now }, err x)
      → transition e now actor id action reason d
        ≡ (record d { calls = d.calls ++ resolve_calls t final now }, err x)
  unfolding transition ignore
  not_written t final path x h k m u = rw (h, k, m, resolve_calls_lem t final now d, u)

  -- The ways in which a transition ends.
  pub data Outcome : Desk × Result Ticket → Type 0 where
    refused : (calls : List Call) (x : Error) → Outcome (record d { calls = calls }, err x)
    done :
        (t : Ticket) (final : TicketStatus) (path : List TicketStatus) (rows : List Ticket)
        → get_ticket e id d ≡ (d, ok t)
        → reopen_denied actor t action ≡ false
        → next_status t.status action ≡ ok (final, path)
        → e.tickets_table.save (touched now (stamped t final action now)) d.tickets ≡ ok rows
        → Outcome (
          record d {
            tickets = rows;
            events =
                append_all e
                  (trail now
                    (touched now (stamped t final action now)).id
                    actor
                    action
                    reason
                    t.status
                    path)
                  d.events;
            calls =
                d.calls
                ++ transition_calls e t (touched now (stamped t final action now)) final now;
          },
          ok (touched now (stamped t final action now)),
        )

  pub transition-Outcome : Outcome (transition e now actor id action reason d)
  transition-Outcome = elim (get_cases e id d) [
    | inr (y, h) ↦ rw (not_found y h) (refused d.calls y)
    | inl (t, h) ↦ elim (Bool-cases (reopen_denied actor t action)) [
      | inl k ↦ rw (denied t h k) (refused d.calls forbidden)
      | inr k ↦ elim (Result-cases (next_status t.status action)) [
        | inr (y, m) ↦ rw (no_edge t y h k m) (refused d.calls y)
        | inl ((final, path), m) ↦
            elim (Result-cases
              (e.tickets_table.save (touched now (stamped t final action now)) d.tickets)) [
                | inr (y, u) ↦
                    rw (not_written t final path y h k m (update_failed e now _ _ y u))
                      (refused _ y)
                | inl (rows, u) ↦
                    rw (transition_runs e now actor id action reason d t final path rows h k m u)
                      (done t final path rows h k m u)
              ]
      ]
    ]
  ]

  failed_tables :
      {r : Desk × Result Ticket} (x : Error) → Outcome r → r.1 ≡ err x → SameTables d r.0
  failed_tables x (refused calls y) h = (calls, refl)
  failed_tables x (done t final path rows f a m w) h = absurd (cc)

  -- Whatever the cause of an error, `Transition` has then changed no table: no ticket, no event of
  -- the log, no note.
  pub transition_failed :
      (x : Error)
      → (transition e now actor id action reason d).1 ≡ err x
      → SameTables d (transition e now actor id action reason d).0
  transition_failed x h = failed_tables x transition-Outcome h
