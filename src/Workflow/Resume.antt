-- ===== src/Workflow/Resume.antt =====
-- `Resume` and `DecideApproval` (internal/workflow/engine.go). A context is gone through in the order
-- of its list, where the code takes the order of a Go map.
pub mod Decisions
use Prim.Native.String.{◌++◌ as str_append, len, slice}
use text.Mathlib.Text.{starts_with}
use servicedesk.Common.{
  String, Bool, if◌then◌else◌, ◌&&◌, points_to, false, List, not, ℕ, [], ◌∷◌, ◌==◌,
}
use servicedesk.Models.Automation.{Approval, Approval, task_pending, is_task_waiting}
use servicedesk.Store.{pure, failure, ok, err, M, ◌>>=◌, ◌>>◌, fail_if}
use servicedesk.Workflow.Execute.{touched}
use servicedesk.Workflow.{flag, number, number, Value, Context, insert, Task, Engine, Host}

-- The loop that copies the input over the map.
unfoldable pub merge : Context → Context → Context
unfolding insert
merge [] ctx = ctx
merge ((k, v) ∷ input) ctx = merge input (insert k v ctx)

get_task : Host → ℕ → M Engine Task
get_task h id e = (e, h.tasks_table.first (λ t. t.id == id) e.tasks)

store_task : Host → ℕ → Task → M Engine (Unit {0})
store_task h now t e = elim (h.tasks_table.save (touched now t) e.tasks) [
  | ok rows ↦ (record e { tasks = rows }, ok tt)
  | err x ↦ (e, err x)
]

unfoldable pub resume : Host → ℕ → ℕ → Context → M Engine (Unit {0})
unfolding get_task store_task merge
resume h now task_id input = do
  t ← get_task h task_id
  fail_if (not (is_task_waiting t.status)) (failure "task is not waiting for input")
  store_task h now
      (record t { context = merge input t.context; status = task_pending; next_run_at = now })

-- `toInt64`
abbrev holds_id : Value → ℕ → Bool
holds_id (number n) id = n == id
holds_id _ id = false

abbrev pending_prefix : String
pending_prefix = "_pending_approval_id_"

abbrev decision_for : String → Bool → Context
decision_for k approved =
    (str_append "_approval_decision_" (slice k (len pending_prefix) (len k)), flag approved) ∷ []

-- The loop over the context of a waiting task.
resume_entries : Host → ℕ → ℕ → Bool → ℕ → Context → M Engine (Unit {0})
unfolding resume
resume_entries h now approval_id approved task_id [] e = (e, ok tt)
resume_entries h now approval_id approved task_id ((k, v) ∷ ctx) e =
    let rest = resume_entries h now approval_id approved task_id ctx in
    (if holds_id v approval_id && starts_with k pending_prefix
        then (resume h now task_id (decision_for k approved) >> rest)
        else rest)
      e

-- The loop over the waiting tasks.
resume_waiting : Host → ℕ → ℕ → Bool → List Task → M Engine (Unit {0})
unfolding resume_entries
resume_waiting h now approval_id approved [] e = (e, ok tt)
resume_waiting h now approval_id approved (t ∷ waiting) e =
    let rest = resume_waiting h now approval_id approved waiting in
    (resume_entries h now approval_id approved t.id t.context >> rest) e

list_waiting : Host → ℕ → M Engine (List Task)
list_waiting h ticket_id e = (
  e,
  h.tasks_table.find (λ t. points_to t.ticket_id ticket_id && is_task_waiting t.status) e.tasks,
)

get_approval : Host → ℕ → M Engine Approval
get_approval h id e = (e, h.approvals_table.first (λ a. a.id == id) e.approvals)

unfoldable pub decide_approval : Host → ℕ → ℕ → Bool → M Engine (Unit {0})
unfolding get_approval list_waiting resume_waiting
decide_approval h now approval_id approved = do
  a ← get_approval h approval_id
  if a.ticket_id == 0 then pure tt else (do
    waiting ← list_waiting h a.ticket_id
    resume_waiting h now approval_id approved waiting)
