-- ===== src/Ticket/StateMachine/Diagram.antt =====
-- The diagram of DESIGN.md 3.1.2 as a relation, and `nextStatus` against it.
use servicedesk.Common.{◌≡◌, refl, ap, subst, ◌↔◌, ◌≢◌, List, [], ◌∷◌}
use servicedesk.Models.Tickets.{
  TicketStatus, status_discrete, new, in_progress, resolved, closed, rejected, Action, assign,
  pickup, resolve, confirm, reopen, reject,
}
use servicedesk.Store.{ok, ok-injective}
use servicedesk.Ticket.StateMachine.{next_status}

pub data Edge : TicketStatus → Action → TicketStatus → Type 0 where
  assigned : Edge new assign in_progress
  picked_up : Edge new pickup in_progress
  solved : Edge in_progress resolve resolved
  refused : Edge in_progress reject rejected
  confirmed : Edge resolved confirm closed
  reopened_resolved : Edge resolved reopen in_progress
  reopened_closed : Edge closed reopen in_progress

-- Rejected is left at once for Closed, and every other status rests.
pub data Settles : TicketStatus → List TicketStatus → TicketStatus → Type 0 where
  rest : {s : TicketStatus} → s ≢ rejected → Settles s [] s
  forced :
      {s f : TicketStatus} {p : List TicketStatus}
      → s ≡ rejected
      → Settles closed p f
      → Settles s (closed ∷ p) f

-- The path that an action takes from a status, and the status where it rests.
abbrev pub Moves : TicketStatus → Action → TicketStatus × List TicketStatus → Type 0
Moves s a (f, path) =
    (t : TicketStatus) × (p : List TicketStatus) × Edge s a t × Settles t p f × (path ≡ t ∷ p)

Settles-rest :
    {s f : TicketStatus} {p : List TicketStatus} → s ≢ rejected → Settles s p f → (p ≡ []) × (f ≡ s)
Settles-rest h (rest k) = (refl, refl)
Settles-rest h (forced e k) = absurd (h e)

Settles-forced :
    {s f : TicketStatus} {p : List TicketStatus}
    → s ≡ rejected
    → Settles s p f
    → (p ≡ closed ∷ []) × (f ≡ closed)
Settles-forced e (rest k) = absurd (k e)
Settles-forced e (forced _ k) =
    let both = Settles-rest (λ q. cc) k in (ap (◌∷◌ closed) both.0, both.1)

runs_from :
    {s t : TicketStatus} {a : Action} → Edge s a t → t ≢ rejected → next_status s a ≡ ok (t, t ∷ [])
unfolding next_status
runs_from assigned h = refl
runs_from picked_up h = refl
runs_from solved h = refl
runs_from refused h = absurd (h refl)
runs_from confirmed h = refl
runs_from reopened_resolved h = refl
runs_from reopened_closed h = refl

runs_through :
    {s t : TicketStatus} {a : Action}
    → Edge s a t
    → t ≡ rejected
    → next_status s a ≡ ok (closed, rejected ∷ closed ∷ [])
unfolding next_status
runs_through assigned h = absurd (cc)
runs_through picked_up h = absurd (cc)
runs_through solved h = absurd (cc)
runs_through refused h = refl
runs_through confirmed h = absurd (cc)
runs_through reopened_resolved h = absurd (cc)
runs_through reopened_closed h = absurd (cc)

is_rejected : (t : TicketStatus) → Dec (t ≡ rejected)
is_rejected t = status_discrete t rejected

pub Moves-next_status :
    (s : TicketStatus) (a : Action) (r : TicketStatus × List TicketStatus)
    → Moves s a r
    → next_status s a ≡ ok r
Moves-next_status s a (f, path) (t, p, e, st, q) = elim (is_rejected t) [
  | yes r ↦ cc (runs_through e r, (Settles-forced r st).0, (Settles-forced r st).1)
  | no n ↦ cc (runs_from e n, (Settles-rest n st).0, (Settles-rest n st).1)
]

straight :
    (s : TicketStatus) (a : Action) (t : TicketStatus) (r : TicketStatus × List TicketStatus)
    → Edge s a t
    → t ≢ rejected
    → ok (t, t ∷ []) ≡ ok r
    → Moves s a r
straight s a t r e n q = subst (Moves s a) (ok-injective q) (t, [], e, rest n, refl)

pub next_status-Moves :
    (s : TicketStatus) (a : Action) (r : TicketStatus × List TicketStatus)
    → next_status s a ≡ ok r
    → Moves s a r
unfolding next_status
next_status-Moves new assign r q = straight new assign in_progress r assigned (λ e. cc) q
next_status-Moves new pickup r q = straight new pickup in_progress r picked_up (λ e. cc) q
next_status-Moves in_progress resolve r q =
    straight in_progress resolve resolved r solved (λ e. cc) q
next_status-Moves in_progress reject r q =
    subst (Moves in_progress reject) (ok-injective q)
      (rejected, closed ∷ [], refused, forced refl (rest (λ e. cc)), refl)
next_status-Moves resolved confirm r q = straight resolved confirm closed r confirmed (λ e. cc) q
next_status-Moves resolved reopen r q =
    straight resolved reopen in_progress r reopened_resolved (λ e. cc) q
next_status-Moves closed reopen r q =
    straight closed reopen in_progress r reopened_closed (λ e. cc) q
next_status-Moves _ _ r q = absurd (cc)

-- `nextStatus` accepts an action exactly where the diagram of the ticket lifecycle has an edge for
-- it, and returns the path that follows the edge and the forced cascade, with the status where the
-- path rests.
pub next_status_iff :
    (s : TicketStatus) (a : Action) (r : TicketStatus × List TicketStatus)
    → (next_status s a ≡ ok r) ↔ Moves s a r
next_status_iff s a r = (next_status-Moves s a r, Moves-next_status s a r)
