-- ===== src/Ticket/Requests.antt =====
-- The ticket service as a sequence of requests, each at a time of its own.
use servicedesk.Ticket.Desk.{UpdateFieldsInput, call}
use servicedesk.Ticket.Desk.Effects.{log_event_lem, fan_out_lem}
use servicedesk.Ticket.Edits.{update_fields, with_fields}
use servicedesk.Ticket.Lifecycle.Success.{update_ticket_lem}
use servicedesk.Ticket.Lifecycle.Failure.{update_failed}
use servicedesk.Common.{
  sym, ℕ, String, ◌≡◌, refl, some, List, [], ◌∷◌, All, ap, Bool-cases, inl, inr, ◌⊎◌, ◌==◌, subst,
  sym, not,
}
use servicedesk.Models.Tickets.{Action, Ticket, pickup, assign as assign_action}
use servicedesk.Auth.Claims.{Claims}
use servicedesk.Store.{Result-cases, Result, ok, IsTable, All-saved, All-append_one, All-found}
use servicedesk.Ticket.Desk.{touched, Env, Desk, get_ticket}
use servicedesk.Ticket.Lifecycle.{
  CreateTicketInput, new_ticket, create, transition, assign, pick_up, mark_mitigated, stamped,
  taken,
}
use servicedesk.Ticket.Lifecycle.Failure
use servicedesk.Ticket.Lifecycle.Ownership
use servicedesk.Ticket.Lifecycle.Creation
use servicedesk.Ticket.Lifecycle.Mitigation
use servicedesk.Models.Roles.{can, queue_ops}
use servicedesk.Ticket.Lifecycle.Invariant.{
  WellFormed, new_ticket-WellFormed, stamped-WellFormed, taken-WellFormed, mitigated-WellFormed,
}

pub data Request : Type 0 where
  create_request : Claims → CreateTicketInput → Request
  transition_request : Claims → ℕ → Action → String → Request
  assign_request : Claims → ℕ → ℕ → Request
  pickup_request : Claims → ℕ → Request
  update_request : Claims → ℕ → UpdateFieldsInput → Request
  mitigate_request : Claims → ℕ → String → Request

pub serve : Env → Desk → ℕ × Request → Desk
serve e d (now, create_request actor i) = (create e now actor i d).0
serve e d (now, transition_request actor id action reason) =
    (transition e now actor id action reason d).0
serve e d (now, assign_request actor id who) = (assign e now actor id who d).0
serve e d (now, pickup_request actor id) = (pick_up e now actor id d).0
serve e d (now, update_request actor id i) = (update_fields e now actor id i d).0
serve e d (now, mitigate_request actor id note) = (mark_mitigated e now actor id note d).0

pub serve_all : Env → Desk → List (ℕ × Request) → Desk
serve_all e d [] = d
serve_all e d (r ∷ rs) = serve_all e (serve e d r) rs

abbrev pub with_ticket_id : ℕ → Ticket → Ticket
with_ticket_id i t = record t { id = i }

abbrev pub TicketsTable : Env → Type 0
TicketsTable e = IsTable (λ (t : Ticket). t.id) with_ticket_id e.tickets_table

abbrev pub AllWellFormed : Desk → Type 0
AllWellFormed d = All WellFormed d.tickets

with_id-WellFormed : {t : Ticket} (i : ℕ) → WellFormed t → WellFormed (record t { id = i })
with_id-WellFormed i w = record {
  never_rejected = w.never_rejected;
  new_unowned = w.new_unowned;
  new_unresolved = w.new_unresolved;
  resolved_stamped = w.resolved_stamped;
  working_unresolved = w.working_unresolved;
}

touched-WellFormed : {t : Ticket} (now : ℕ) → WellFormed t → WellFormed (touched now t)
touched-WellFormed now w = record {
  never_rejected = w.never_rejected;
  new_unowned = w.new_unowned;
  new_unresolved = w.new_unresolved;
  resolved_stamped = w.resolved_stamped;
  working_unresolved = w.working_unresolved;
}

with_fields-WellFormed :
    (t : Ticket) (i : UpdateFieldsInput) → WellFormed t → WellFormed (with_fields t i)
unfolding with_fields
with_fields-WellFormed t i w = record {
  never_rejected = w.never_rejected;
  new_unowned = w.new_unowned;
  new_unresolved = w.new_unresolved;
  resolved_stamped = w.resolved_stamped;
  working_unresolved = w.working_unresolved;
}

module _ (e : Env) (laws : TicketsTable e) (d : Desk) (wf : AllWellFormed d) where
  found-WellFormed : (id : ℕ) (t : Ticket) → get_ticket e id d ≡ (d, ok t) → WellFormed t
  unfolding get_ticket
  found-WellFormed id t h =
      All-found WellFormed (λ x. x.id == id) t d.tickets wf
        (laws.first_ok (λ x. x.id == id) d.tickets t (ap (λ (r : Desk × Result Ticket). r.1) h))

  stored-WellFormed :
      (t : Ticket) (rows : List Ticket)
      → WellFormed t
      → e.tickets_table.save t d.tickets ≡ ok rows
      → All WellFormed rows
  stored-WellFormed t rows w h =
      subst (All WellFormed) (sym (laws.save_ok t d.tickets rows h))
        (All-saved WellFormed (λ x. x.id) t d.tickets w wf)

  transition-AllWellFormed :
      (now : ℕ) (actor : Claims) (id : ℕ) (action : Action) (reason : String)
      {r : Desk × Result Ticket}
      → Failure.Outcome e now actor id action reason d r
      → AllWellFormed r.0
  transition-AllWellFormed now actor id action reason (Failure.Outcome.refused calls x) = wf
  transition-AllWellFormed now actor id action reason
        (Failure.Outcome.done t final path rows f a m w) =
      stored-WellFormed (touched now (stamped t final action now)) rows
        (touched-WellFormed now
          (stamped-WellFormed t action now final path (found-WellFormed id t f) m))
        w

  assign-AllWellFormed :
      (now : ℕ) (actor : Claims) (id who : ℕ) (action : Action) {r : Desk × Result Ticket}
      → (action ≡ assign_action) ⊎ (action ≡ pickup)
      → Ownership.Outcome e now actor id who action d r
      → AllWellFormed r.0
  assign-AllWellFormed now actor id who action k (Ownership.Outcome.refused calls x) = wf
  assign-AllWellFormed now actor id who action k (Ownership.Outcome.done t rows f m w) =
      stored-WellFormed (touched now (taken t who action now)) rows
        (touched-WellFormed now (taken-WellFormed t who now action k (found-WellFormed id t f))) w

  mitigation-AllWellFormed :
      (now : ℕ) (actor : Claims) (id : ℕ) {r : Desk × Result Ticket}
      → Mitigation.Mitigation e now actor id d r
      → AllWellFormed r.0
  mitigation-AllWellFormed now actor id (Mitigation.Mitigation.not_mitigated calls x) = wf
  mitigation-AllWellFormed now actor id (Mitigation.Mitigation.mitigated t d' f k w) =
      stored-WellFormed (record t { mitigated_at = some now; updated_at = now }) d'.tickets
        (touched-WellFormed now (mitigated-WellFormed t now k (found-WellFormed id t f))) w

  creation-AllWellFormed :
      (now : ℕ) (actor : Claims) (i : CreateTicketInput) {r : Desk × Result Ticket}
      → Creation.Creation e now actor i d r
      → AllWellFormed r.0
  creation-AllWellFormed now actor i (Creation.Creation.not_created x) = wf
  creation-AllWellFormed now actor i (Creation.Creation.created q t d' h k) =
      let (n, made, after, fresh) =
        laws.create_ok (new_ticket e actor i q now) t d.tickets d'.tickets k in
      subst (All WellFormed) (sym after) (
        All-append_one WellFormed t d.tickets
          (subst WellFormed (sym made)
            (with_id-WellFormed n (new_ticket-WellFormed e actor i q now)))
          wf)

  update-AllWellFormed :
      (now : ℕ) (actor : Claims) (id : ℕ) (i : UpdateFieldsInput)
      → AllWellFormed (update_fields e now actor id i d).0
  unfolding update_fields call
  update-AllWellFormed now actor id i = elim (Failure.get_cases e id d) [
    | inr (x, h) ↦ rw (h, update_fields) wf
    | inl (t, h) ↦
        elim (Result-cases (e.tickets_table.save (touched now (with_fields t i)) d.tickets)) [
          | inr (x, w) ↦ rw (h, update_failed e now (with_fields t i) d x w, update_fields) wf
          | inl (rows, w) ↦
              rw
                (
                  h,
                  update_ticket_lem e now (with_fields t i) d rows w,
                  log_event_lem,
                  fan_out_lem,
                  update_fields,
                )
                (stored-WellFormed (touched now (with_fields t i)) rows
                  (touched-WellFormed now (with_fields-WellFormed t i (found-WellFormed id t h))) w)
        ]
  ]

-- Every request keeps every stored ticket well-formed, also one that fails.
pub serve-WellFormed :
    (e : Env)
    → TicketsTable e
    → (d : Desk) (r : ℕ × Request) → AllWellFormed d
    → AllWellFormed (serve e d r)
unfolding serve assign pick_up
serve-WellFormed e laws d (now, create_request actor i) wf =
    creation-AllWellFormed e laws d wf now actor i (Creation.create-Creation e now actor i d)
serve-WellFormed e laws d (now, transition_request actor id action reason) wf =
    transition-AllWellFormed e laws d wf now actor id action reason
      (Failure.transition-Outcome e now actor id action reason d)
serve-WellFormed e laws d (now, assign_request actor id who) wf =
    elim (Bool-cases (not (can actor.role queue_ops))) [
      | inl h ↦ rw (h, serve) wf
      | inr h ↦
          rw (h, serve)
            (assign-AllWellFormed e laws d wf now actor id who assign_action (inl refl)
              (Ownership.assign-Outcome e now actor id who assign_action d))
    ]
serve-WellFormed e laws d (now, pickup_request actor id) wf =
    assign-AllWellFormed e laws d wf now actor id actor.user_id pickup (inr refl)
      (Ownership.assign-Outcome e now actor id actor.user_id pickup d)
serve-WellFormed e laws d (now, update_request actor id i) wf =
    update-AllWellFormed e laws d wf now actor id i
serve-WellFormed e laws d (now, mitigate_request actor id note) wf =
    mitigation-AllWellFormed e laws d wf now actor id
      (Mitigation.mark_mitigated-Mitigation e now actor id d note)

-- From an empty table, or any table of well-formed tickets, every sequence of requests leaves
-- well-formed tickets only: none rests in Rejected, a new one has no owner and no milestone, a
-- resolved one has its time of resolution, and one in progress has none.
pub serve_all-WellFormed :
    (e : Env)
    → TicketsTable e
    → (d : Desk) (rs : List (ℕ × Request)) → AllWellFormed d
    → AllWellFormed (serve_all e d rs)
unfolding serve_all
serve_all-WellFormed e laws d [] wf = wf
serve_all-WellFormed e laws d (r ∷ rs) wf =
    serve_all-WellFormed e laws (serve e d r) rs (serve-WellFormed e laws d r wf)
