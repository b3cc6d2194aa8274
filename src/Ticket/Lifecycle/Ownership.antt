-- ===== src/Ticket/Lifecycle/Ownership.antt =====
-- `assign` (internal/service/ticket.go): what it stores, and whom it refuses.
use servicedesk.Common.{
  ℕ, ◌<◌, true, false, ◌≡◌, refl, List, [], ◌∷◌, ◌++◌, ap, ltb, ltb→lt, ◌==◌, ◌&&◌, not, Bool-cases,
  inl, inr, ◌⊎◌, if◌then◌else◌, is_some, append_assoc, append-nil,
}
use servicedesk.Models.Roles.{is_engineer}
use servicedesk.Models.Tickets.{Action, Ticket}
use servicedesk.Auth.Claims.{Claims}
use servicedesk.Store.{Error, forbidden, Result, ok, err, Result-cases, pure}
use servicedesk.Ticket.Desk.{
  Env, Desk, Call, trigger, assignee_details, ticket_payload, mtta, get_ticket, touched,
  update_ticket, ignore, call,
}
use servicedesk.Ticket.Desk.Effects.{entry, appended, fan_calls, log_event_lem, fan_out_lem}
use servicedesk.Ticket.Lifecycle.{assign_as, check_membership, is_member, taken, observe_since}
use servicedesk.Ticket.Lifecycle.Success.{since_calls, observe_since_lem, update_ticket_lem}
use servicedesk.Ticket.Lifecycle.Failure.{get_cases, update_failed}

-- The time to acknowledge is observed at the first acknowledgement.
pub ack_calls : Ticket → ℕ → List Call
ack_calls t now = if is_some t.acked_at then [] else since_calls mtta t.detected_at now

ack_calls_lem :
    (t : Ticket) (now : ℕ) (d : Desk)
    → ((if is_some t.acked_at then pure tt else observe_since mtta t.detected_at now) d).0
      ≡ record d { calls = d.calls ++ ack_calls t now }
unfolding ack_calls
ack_calls_lem t now d = elim (Bool-cases (is_some t.acked_at)) [
  | inl h ↦ rw h (simp append-nil)
  | inr h ↦
      rw h (ap (λ (r : Desk × Result (Unit {0})). r.0) (observe_since_lem mtta t.detected_at now d))
]

pub assign_calls : Env → Ticket → Ticket → ℕ → List Call
assign_calls e t t' now =
    ack_calls t now
    ++ (fan_calls e "ticket.assigned" t'.id (ticket_payload t')
        ++ trigger "field_updated" t'.id ∷ [])

module _ (e : Env) (now : ℕ) (actor : Claims) (id who : ℕ) (action : Action) (d : Desk) where
  -- Where the ticket is found, the membership holds and the row is written, the assignment returns
  -- the taken ticket, and stores that row, one event "assigned" and the calls; nothing else changes.
  pub assign_runs :
      (t : Ticket) (rows : List Ticket)
      → get_ticket e id d ≡ (d, ok t)
      → check_membership e actor t who d ≡ (d, ok tt)
      → e.tickets_table.save (touched now (taken t who action now)) d.tickets ≡ ok rows
      → assign_as e now actor id who action d ≡ (
        record d {
          tickets = rows;
          events =
              appended e
                (entry now
                  (touched now (taken t who action now)).id
                  actor
                  "assigned"
                  (assignee_details who action))
                d.events;
          calls = d.calls ++ assign_calls e t (touched now (taken t who action now)) now;
        },
        ok (touched now (taken t who action now)),
      )
  unfolding assign_as ignore call assign_calls
  assign_runs t rows found member written =
      rw
        (
          found,
          member,
          ack_calls_lem t now d,
          update_ticket_lem e now (taken t who action now)
              (record d { calls = d.calls ++ ack_calls t now }) rows written,
          log_event_lem,
          fan_out_lem,
        )
        (simp append_assoc)

  module _ (t : Ticket) (eng : is_engineer actor.role ≡ true) where
    counted :
        (n : ℕ)
        → e.queue_members_table.count
            (λ m. m.queue_id == t.queue_id && m.user_id == who)
            d.queue_members
          ≡ ok n
        → check_membership e actor t who d ≡ (d, if not (ltb 0 n) then err forbidden else ok tt)
    unfolding check_membership
    counted n h = rw (eng, is_member, h) refl

    uncounted :
        (x : Error)
        → e.queue_members_table.count
            (λ m. m.queue_id == t.queue_id && m.user_id == who)
            d.queue_members
          ≡ err x
        → check_membership e actor t who d ≡ (d, err x)
    unfolding check_membership
    uncounted x h = rw (eng, is_member, h) refl

  staff :
      (t : Ticket) → is_engineer actor.role ≡ false → check_membership e actor t who d ≡ (d, ok tt)
  unfolding check_membership
  staff t other = rw (other, check_membership)

  pub check_cases :
      (t : Ticket)
      → (check_membership e actor t who d ≡ (d, ok tt))
        ⊎ ((x : Error) × (check_membership e actor t who d ≡ (d, err x)))
  check_cases t = elim (Bool-cases (is_engineer actor.role)) [
    | inl eng ↦
        elim (Result-cases (
          e.queue_members_table.count (λ m. m.queue_id == t.queue_id && m.user_id == who)
            d.queue_members)) [
              | inr (x, h) ↦ inr (x, uncounted t eng x h)
              | inl (n, h) ↦ elim (Bool-cases (ltb 0 n)) [
                | inl y ↦ inl (rw y at (counted t eng n h))
                | inr y ↦ inr (forbidden, rw y at (counted t eng n h))
              ]
            ]
    | inr other ↦ inl (staff t other)
  ]

  pub assign_refused :
      (t : Ticket) (x : Error)
      → get_ticket e id d ≡ (d, ok t)
      → check_membership e actor t who d ≡ (d, err x)
      → assign_as e now actor id who action d ≡ (d, err x)
  unfolding assign_as
  assign_refused t x found refused = rw (found, refused)

  -- An engineer owns a ticket only within a queue of the assignee's: an assignment by an engineer that
  -- succeeds has counted a membership of the assignee in the ticket's queue.
  pub assign_needs_membership :
      (t t' : Ticket)
      → get_ticket e id d ≡ (d, ok t)
      → is_engineer actor.role ≡ true
      → (assign_as e now actor id who action d).1 ≡ ok t'
      → (n : ℕ) × (e.queue_members_table.count
            (λ m. m.queue_id == t.queue_id && m.user_id == who)
            d.queue_members
          ≡ ok n)
        × (0 < n)
  assign_needs_membership t t' found eng done =
      elim (Result-cases (
        e.queue_members_table.count (λ m. m.queue_id == t.queue_id && m.user_id == who)
          d.queue_members)) [
            | inr (x, h) ↦ absurd (refused x (uncounted t eng x h))
            | inl (n, h) ↦ elim (Bool-cases (ltb 0 n)) [
              | inl y ↦ (n, h, ltb→lt 0 n y)
              | inr y ↦ absurd (refused forbidden (rw y at (counted t eng n h)))
            ]
          ]
    where
      refused : (x : Error) → check_membership e actor t who d ≡ (d, err x) → ⊥
      refused x h = cc (ap (λ (r : Desk × Result Ticket). r.1) (assign_refused t x found h))

  -- The ways in which an assignment ends.
  pub data Outcome : Desk × Result Ticket → Type 0 where
    refused : (calls : List Call) (x : Error) → Outcome (record d { calls = calls }, err x)
    done :
        (t : Ticket) (rows : List Ticket)
        → get_ticket e id d ≡ (d, ok t)
        → check_membership e actor t who d ≡ (d, ok tt)
        → e.tickets_table.save (touched now (taken t who action now)) d.tickets ≡ ok rows
        → Outcome (
          record d {
            tickets = rows;
            events =
                appended e
                  (entry now
                    (touched now (taken t who action now)).id
                    actor
                    "assigned"
                    (assignee_details who action))
                  d.events;
            calls = d.calls ++ assign_calls e t (touched now (taken t who action now)) now;
          },
          ok (touched now (taken t who action now)),
        )

  not_found :
      (x : Error)
      → get_ticket e id d ≡ (d, err x)
      → assign_as e now actor id who action d ≡ (d, err x)
  unfolding assign_as
  not_found x h = rw h

  not_written :
      (t : Ticket) (x : Error)
      → get_ticket e id d ≡ (d, ok t)
      → check_membership e actor t who d ≡ (d, ok tt)
      → update_ticket e now
          (taken t who action now)
          (record d { calls = d.calls ++ ack_calls t now })
        ≡ (record d { calls = d.calls ++ ack_calls t now }, err x)
      → assign_as e now actor id who action d
        ≡ (record d { calls = d.calls ++ ack_calls t now }, err x)
  unfolding assign_as ignore
  not_written t x found member u = rw (found, member, ack_calls_lem t now d, u)

  pub assign-Outcome : Outcome (assign_as e now actor id who action d)
  assign-Outcome = elim (get_cases e id d) [
    | inr (y, h) ↦ rw (not_found y h) (refused d.calls y)
    | inl (t, h) ↦ elim (check_cases t) [
      | inr (y, k) ↦ rw (assign_refused t y h k) (refused d.calls y)
      | inl k ↦
          elim (Result-cases
            (e.tickets_table.save (touched now (taken t who action now)) d.tickets)) [
              | inr (y, u) ↦ rw (not_written t y h k (update_failed e now _ _ y u)) (refused _ y)
              | inl (rows, u) ↦ rw (assign_runs t rows h k u) (done t rows h k u)
            ]
    ]
  ]
