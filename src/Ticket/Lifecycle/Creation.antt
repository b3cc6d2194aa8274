-- ===== src/Ticket/Lifecycle/Creation.antt =====
-- `Create` (internal/service/ticket.go): the ticket that is stored.
use servicedesk.Common.{sym, subst, ℕ, ◌≡◌, refl, List, arith, ◌==◌, inl, inr}
use servicedesk.Models.Tickets.{Ticket, Queue}
use servicedesk.Auth.Claims.{Claims}
use servicedesk.Store.{Error, Result, ok, err, Result-cases}
use servicedesk.Ticket.Desk.{Env, Desk, ignore, call}
use servicedesk.Ticket.Desk.Effects.{log_event_lem, fan_out_lem}
use servicedesk.Ticket.Lifecycle.{CreateTicketInput, new_ticket, create, create_ticket, add_watcher}

add_watcher-tickets : (e : Env) (a b : ℕ) (d : Desk) → (add_watcher e a b d).0.tickets ≡ d.tickets
unfolding add_watcher
add_watcher-tickets e a b d = ground arith

module _ (e : Env) (now : ℕ) (actor : Claims) (i : CreateTicketInput) (d : Desk) where
  create_without_queue :
      (x : Error)
      → e.queues_table.first (λ q. q.id == i.queue_id) d.queues ≡ err x
      → create e now actor i d ≡ (d, err x)
  unfolding create
  create_without_queue x h = rw h

  create_unwritten :
      (q : Queue) (x : Error)
      → e.queues_table.first (λ q. q.id == i.queue_id) d.queues ≡ ok q
      → e.tickets_table.create (new_ticket e actor i q now) d.tickets ≡ err x
      → create e now actor i d ≡ (d, err x)
  unfolding create
  create_unwritten q x h k = rw (h, create_ticket, k) refl

  create_written :
      (q : Queue) (t : Ticket) (rows : List Ticket)
      → e.queues_table.first (λ q. q.id == i.queue_id) d.queues ≡ ok q
      → e.tickets_table.create (new_ticket e actor i q now) d.tickets ≡ ok (t, rows)
      → ((create e now actor i d).0.tickets ≡ rows) × ((create e now actor i d).1 ≡ ok t)
  unfolding create ignore call
  create_written q t rows h k = (
    rw (h, create_ticket, k, log_event_lem, fan_out_lem)
        (add_watcher-tickets e t.id actor.user_id _),
    rw (h, create_ticket, k, log_event_lem, fan_out_lem) refl,
  )

  -- The ways in which a creation ends.
  pub data Creation : Desk × Result Ticket → Type 0 where
    not_created : (x : Error) → Creation (d, err x)
    created :
        (q : Queue) (t : Ticket) (d' : Desk)
        → e.queues_table.first (λ q. q.id == i.queue_id) d.queues ≡ ok q
        → e.tickets_table.create (new_ticket e actor i q now) d.tickets ≡ ok (t, d'.tickets)
        → Creation (d', ok t)

  written :
      (q : Queue) (t : Ticket) (rows : List Ticket)
      → e.queues_table.first (λ q. q.id == i.queue_id) d.queues ≡ ok q
      → e.tickets_table.create (new_ticket e actor i q now) d.tickets ≡ ok (t, rows)
      → Creation (create e now actor i d)
  written q t rows h k =
      let (stored, returned) = create_written q t rows h k in
      let d' : Desk = (create e now actor i d).0 in
      let whole : create e now actor i d ≡ (d', ok t) = λ j. (d', returned j) in
      subst Creation (sym whole) (created q t d' h (rw stored k))

  -- Every creation ends in one of two ways. It fails, and has changed nothing; or the queue was found,
  -- the new ticket was written with its id, and the row that was written is returned.
  pub create-Creation : Creation (create e now actor i d)
  create-Creation = elim (Result-cases (e.queues_table.first (λ q. q.id == i.queue_id) d.queues)) [
    | inr (x, h) ↦ rw (create_without_queue x h) (not_created x)
    | inl (q, h) ↦
        elim (Result-cases (e.tickets_table.create (new_ticket e actor i q now) d.tickets)) [
          | inr (x, k) ↦ rw (create_unwritten q x h k) (not_created x)
          | inl ((t, rows), k) ↦ written q t rows h k
        ]
  ]
