-- ===== src/Backfill/Replay.antt =====
-- The backfill (internal/db/backfill.go) over the life of a ticket.
use servicedesk.Common.{ℕ, true, none, some, Bool, ◌≡◌, refl, List, [], ◌∷◌, ◌++◌, arith, ap}
use servicedesk.Models.Tickets.{Ticket}
use servicedesk.Ticket.StateMachine.{next_status}
use servicedesk.Ticket.Desk.{Desk, EventLog}
use servicedesk.Ticket.Desk.Effects.{entry}
use servicedesk.Ticket.Lifecycle.{new_ticket, stamped, taken}
use servicedesk.Ticket.Lifecycle.Success.{trail}
use servicedesk.Ticket.History.{History, born, moved, owned, mitigated}
use servicedesk.Backfill.{Stages, replay, replay_one, no_stages, is_unmigrated, backfilled}

replay-append : (s : Stages) (xs ys : List EventLog) → replay s (xs ++ ys) ≡ replay (replay s xs) ys
unfolding replay
replay-append s [] ys = refl
replay-append s (x ∷ xs) ys = replay-append (replay_one s x) xs ys

-- The stages on a row.
abbrev stages_of : Ticket → Stages
stages_of t = record {
  acked_at = t.acked_at;
  resolved_at = t.resolved_at;
  reopen_count = t.reopen_count;
}

History-replay :
    {t : Ticket} {log : List EventLog} {b : Bool}
    → History t log b
    → replay no_stages log ≡ stages_of t
unfolding new_ticket stamped taken next_status replay trail entry
History-replay (born e actor i q now details) = refl
History-replay (moved {t = t} {log = log} actor a now reason final path h m) =
    rw (replay-append no_stages log, History-replay h) (ground arith)
History-replay (owned {t = t} {log = log} actor a now who h k) =
    rw (replay-append no_stages log, History-replay h) (ground arith)
History-replay (mitigated {log = log} actor now via h k) =
    rw (replay-append no_stages log, History-replay h) refl

-- The row of a ticket as it was before there were stage columns: none of them is set.
abbrev pub before_stages : Ticket → Ticket
before_stages t = record t {
  detected_at = none;
  acked_at = none;
  mitigated_at = none;
  resolved_at = none;
  reopen_count = 0;
}

-- What the backfill makes of such a row and the log of its operations.
pub backfilled-History :
    {t : Ticket} {log : List EventLog} {b : Bool} (now : ℕ)
    → History t log b
    → (is_unmigrated (before_stages t) ≡ true)
      × (backfilled now (before_stages t) log (before_stages t) ≡ record (before_stages t) {
        detected_at = some t.created_at;
        acked_at = t.acked_at;
        resolved_at = t.resolved_at;
        reopen_count = t.reopen_count;
        updated_at = now;
      })
unfolding backfilled
backfilled-History {t} {log} now h = (
  refl,
  ap
      (λ (s : Stages). record (before_stages t) {
        detected_at = some t.created_at;
        acked_at = s.acked_at;
        resolved_at = s.resolved_at;
        reopen_count = s.reopen_count;
        updated_at = now;
      })
      (History-replay h),
)
