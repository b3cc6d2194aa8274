-- ===== src/Ticket/StateMachine.antt =====
-- internal/service/statemachine.go: the transition table, the forced cascade and `nextStatus`.
pub mod Diagram
use servicedesk.Common.{ℕ, zero, suc, Option, none, some, List, [], ◌∷◌, ◌++◌}
use servicedesk.Models.Tickets.{
  TicketStatus, new, in_progress, resolved, closed, rejected, Action, assign, pickup, resolve,
  confirm, reopen, reject,
}
use servicedesk.Store.{Error, invalid_transition, Result, ok, err}

-- The two map lookups of `nextStatus` in `transitions`, a missing key at either as `none`.
unfoldable pub transitions : TicketStatus → Action → Option TicketStatus
transitions new assign = some in_progress
transitions new pickup = some in_progress
transitions in_progress resolve = some resolved
transitions in_progress reject = some rejected
transitions resolved confirm = some closed
transitions resolved reopen = some in_progress
transitions closed reopen = some in_progress
transitions _ _ = none

unfoldable pub forced_next : TicketStatus → Option TicketStatus
forced_next rejected = some closed
forced_next _ = none

-- The `for` loop of `nextStatus`, with fuel for its rounds.
cascade : ℕ → TicketStatus → List TicketStatus → Option (TicketStatus × List TicketStatus)
cascade zero next path = none
cascade (suc fuel) next path = elim (forced_next next) [
  | some fwd ↦ cascade fuel fwd (path ++ fwd ∷ [])
  | none ↦ some (next, path)
]

-- No status is forced twice, so the loop of `nextStatus` ends within one round for each status.
abbrev cascade_fuel : ℕ
cascade_fuel = 5

or_stuck :
    Option (TicketStatus × List TicketStatus)
    → TicketStatus
    → Action
    → Result (TicketStatus × List TicketStatus)
or_stuck none s a = err (invalid_transition s a)
or_stuck (some r) s a = ok r

unfoldable pub next_status : TicketStatus → Action → Result (TicketStatus × List TicketStatus)
unfolding transitions forced_next cascade or_stuck
next_status current action = elim (transitions current action) [
  | none ↦ err (invalid_transition current action)
  | some next ↦ or_stuck (cascade cascade_fuel next (next ∷ [])) current action
]
