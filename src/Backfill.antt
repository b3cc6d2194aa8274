-- ===== src/Backfill.antt =====
-- internal/db/backfill.go: the stage timestamps of a ticket, recomputed from its event log. The
-- events come in the order of their times.
pub mod Replay
use servicedesk.Common.{
  false, not, is_some, points_to, ◌==◌, ℕ, suc, String, Bool, Option, none, some, List, [], ◌∷◌,
  str_eq, if◌then◌else◌,
}
use servicedesk.Models.Tickets.{Ticket, TicketStatus, Action, is_resolved, is_reopen}
use servicedesk.Store.{Result, ok, err, M, carry_on}
use servicedesk.Ticket.Desk.{
  Env, Desk, EventLog, Details, title_details, status_details, assignee_details, mitigated_details,
  changed_details, label_details, tag_details, empty_details,
}

-- The variables of the loop.
pub record Stages : Type 0 where
  pub acked_at : Option ℕ
  pub resolved_at : Option ℕ
  pub reopen_count : ℕ

abbrev pub keep_first : Option ℕ → ℕ → Option ℕ
keep_first none t = some t
keep_first (some s) t = some s

-- `d.To` and `d.Action` of the unmarshalled details: a status change alone has them, and the others
-- leave both empty, except that an assignment has an action, which is never "reopen".
abbrev pub changes_to_resolved : Details → Bool
changes_to_resolved (status_details from to action reason) = is_resolved to
changes_to_resolved _ = false

abbrev pub reopens : Details → Bool
reopens (status_details from to action reason) = is_reopen action
reopens (assignee_details who action) = is_reopen action
reopens _ = false

unfoldable pub replay_one : Stages → EventLog → Stages
replay_one s ev =
    if str_eq ev.event "assigned"
    then record s { acked_at = keep_first s.acked_at ev.created_at }
    else if str_eq ev.event "status_changed"
    then (let s' : Stages =
          if changes_to_resolved ev.details
          then record s { resolved_at = some ev.created_at }
          else s in
        if reopens ev.details
        then record s' { resolved_at = none; reopen_count = suc s'.reopen_count }
        else s')
    else s

unfoldable pub replay : Stages → List EventLog → Stages
unfolding replay_one
replay s [] = s
replay s (ev ∷ events) = replay (replay_one s ev) events

abbrev pub no_stages : Stages
no_stages = record { acked_at = none; resolved_at = none; reopen_count = 0 }

-- The marker of a ticket that is not yet migrated.
abbrev pub is_unmigrated : Ticket → Bool
is_unmigrated t = not (is_some t.detected_at)

-- The columns that the backfill writes, from the created time of the ticket and its replayed events;
-- gorm's `Updates` stamps `UpdatedAt`.
unfoldable pub backfilled : ℕ → Ticket → List EventLog → Ticket → Ticket
unfolding replay
backfilled now t events row =
    let s = replay no_stages events in
    record row {
      detected_at = some t.created_at;
      acked_at = s.acked_at;
      resolved_at = s.resolved_at;
      reopen_count = s.reopen_count;
      updated_at = now;
    }

-- The events of a ticket, which the database orders by their times.
events_of : Env → (List EventLog → List EventLog) → ℕ → M Desk (List EventLog)
events_of e by_created_at id d =
    elim (e.events_table.find (λ ev. points_to ev.ticket_id id) d.events) [
      | err x ↦ (d, err x)
      | ok events ↦ (d, ok (by_created_at events))
    ]

update_stages : Env → ℕ → Ticket → List EventLog → M Desk (Unit {0})
unfolding backfilled
update_stages e now t events d =
    elim (e.tickets_table.update (λ u. u.id == t.id) (backfilled now t events) d.tickets) [
      | err x ↦ (d, err x)
      | ok (n, rows) ↦ (record d { tickets = rows }, ok tt)
    ]

-- The loop over the tickets, which ends at the first error.
unfoldable pub backfill_all :
    Env → (List EventLog → List EventLog) → ℕ → List Ticket → M Desk (Unit {0})
unfolding events_of update_stages
backfill_all e by_created_at now [] d = (d, ok tt)
backfill_all e by_created_at now (t ∷ tickets) d =
    let rest = backfill_all e by_created_at now tickets in
    carry_on (carry_on (events_of e by_created_at t.id d) (update_stages e now t)) (λ _. rest)

unfoldable pub backfill_stage_timestamps :
    Env → (List EventLog → List EventLog) → ℕ → M Desk (Unit {0})
unfolding backfill_all
backfill_stage_timestamps e by_created_at now d =
    elim (e.tickets_table.find is_unmigrated d.tickets) [
      | err x ↦ (d, err x)
      | ok tickets ↦ backfill_all e by_created_at now tickets d
    ]
