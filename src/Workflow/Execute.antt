-- ===== src/Workflow/Execute.antt =====
-- `execute`, `saveTask`, `ProcessOne` and `Trigger` (internal/workflow/engine.go), and
-- `WorkflowTaskRepo.ClaimNext` (internal/repo/workflow.go).
pub mod Settled
use Prim.Native.String.{◌++◌ as str_append}
use servicedesk.Common.{
  ℕ, zero, suc, ◌+◌, ◌^◌, String, Bool, true, false, Option, none, some, List, [], ◌∷◌, ◌++◌, ◌==◌,
  ◌&&◌, leb, str_eq, length, get_elem?, if◌then◌else◌,
}
use servicedesk.Models.Automation.{
  Workflow, WorkflowTask, task_pending, task_processing, task_waiting_user, task_done, task_failed,
  is_task_pending,
}
use servicedesk.Store.{Error, record_not_found, failure, Result, ok, err, M}
use servicedesk.Workflow.{Context, WorkStep, Task, Engine, Host}
use servicedesk.Workflow.Step.{Scratch, run_step}

abbrev pub max_step_attempts : ℕ
max_step_attempts = 3

-- The text of an error.
pub error_text : Error → String
error_text (failure msg) = msg
error_text record_not_found = "record not found"
error_text _ = "error"

-- gorm's `Save` stamps `UpdatedAt`, in the row that it writes and in the caller's.
abbrev pub touched : ℕ → Task → Task
touched now t = record t { updated_at = now }

-- `saveTask`: a write that fails is logged only.
unfoldable pub save_task : Host → ℕ → Task → Engine → Engine
save_task h now t e = elim (h.tasks_table.save (touched now t) e.tasks) [
  | ok rows ↦ record e { tasks = rows }
  | err x ↦ e
]

-- The state of the loop: the task, the map `ctxMap` and the engine.
pub record Machine : Type 0 where
  pub task : Task
  pub context : Context
  pub engine : Engine

abbrev pub after_step : Machine → Scratch → Machine
after_step m s =
    let t = m.task in
    record { task = record t { step_index = s.step_index }; context = s.context; engine = s.engine }

abbrev pub saved_as : Host → ℕ → Machine → Task → Machine
saved_as h now m t = record m { task = touched now t; engine = save_task h now t m.engine }

-- The branch for a step that returns an error.
unfoldable pub step_failed : Host → ℕ → Machine → Error → Machine
unfolding save_task
step_failed h now m x =
    let t = m.task in
    let attempts = t.attempts + 1 in
    if leb max_step_attempts attempts
    then saved_as h now m
        (record t { attempts = attempts; error = error_text x; status = task_failed })
    else saved_as h now m (record t {
      attempts = attempts;
      error = error_text x;
      status = task_pending;
      next_run_at = now + 2 ^ attempts;
    })

unfoldable pub paused : Host → ℕ → Machine → Machine
unfolding save_task
paused h now m =
    let t = m.task in
    saved_as h now m (record t { context = m.context; status = task_waiting_user })

unfoldable pub completed : Host → ℕ → Machine → Machine
unfolding save_task
completed h now m =
    let t = m.task in saved_as h now m (record t { context = m.context; status = task_done })

abbrev pub advanced : Machine → Machine
advanced m =
    let t = m.task in record m { task = record t { step_index = t.step_index + 1; attempts = 0 } }

-- The three ways on after a step.
unfoldable pub settle : Host → ℕ → Machine → Result Bool → Machine → Machine
unfolding step_failed paused
settle h now m (err x) rest = step_failed h now m x
settle h now m (ok true) rest = paused h now m
settle h now m (ok false) rest = rest

abbrev pub scratch : Machine → Scratch
scratch m = record { step_index = m.task.step_index; context = m.context; engine = m.engine }

-- The `for` loop, with fuel for its rounds.
unfoldable pub loop : Host → ℕ → List WorkStep → ℕ → Machine → Machine
loop h now steps zero m = m
loop h now steps (suc fuel) m = elim (get_elem? steps m.task.step_index) [
  | none ↦ completed h now m
  | some step ↦
      (let r = run_step h now m.task.ticket_id step (scratch m) in
        let m' = after_step m r.0 in
        let rest = loop h now steps fuel (advanced m') in settle h now m' r.1 rest)
]

-- Each round moves the index on, so one round for each step and one more are enough.
abbrev pub rounds : List WorkStep → ℕ
rounds steps = suc (length steps)

failed_with : Host → ℕ → Task → String → Engine → Machine
unfolding save_task
failed_with h now t msg e =
    let t' : Task = record t { status = task_failed; error = msg } in
    record { task = touched now t'; context = t.context; engine = save_task h now t' e }

run_config : Host → ℕ → Task → Engine → Result (List WorkStep) → Machine
unfolding loop failed_with
run_config h now t e (err x) =
    failed_with h now t (str_append "invalid workflow config: " (error_text x)) e
run_config h now t e (ok steps) =
    loop h now steps (rounds steps) (record { task = t; context = t.context; engine = e })

unfoldable pub execute : Host → ℕ → Task → Engine → Machine
unfolding run_config failed_with
execute h now t e = elim (h.workflows_table.first (λ w. w.id == t.workflow_id) e.workflows) [
  | err x ↦ failed_with h now t (str_append "workflow definition missing: " (error_text x)) e
  | ok w ↦ run_config h now t e (h.parse_config w.config)
]

unfoldable pub due : ℕ → Task → Bool
due now t = is_task_pending t.status && leb t.next_run_at now

claimed : ℕ → Task → Result (ℕ × List Task) → Engine → Engine × Result Task
claimed now t (err x) e = (e, err x)
claimed now t (ok (affected, rows)) e = (
  record e { tasks = rows },
  if affected == 0 then err record_not_found else ok (record t { status = task_processing }),
)

unfoldable pub claim_next : Host → ℕ → M Engine Task
unfolding due claimed
claim_next h now e = elim (h.tasks_table.first (due now) e.tasks) [
  | err x ↦ (e, err x)
  | ok t ↦
      claimed now t
        (h.tasks_table.update (λ u. u.id == t.id && is_task_pending u.status)
          (λ u. record u { status = task_processing; updated_at = now }) e.tasks)
        e
]

finished : Host → ℕ → Engine × Result Task → Engine × Bool
finished h now (e, ok t) = ((execute h now t e).engine, true)
finished h now (e, err x) = (e, false)

unfoldable pub process_one : Host → ℕ → Engine → Engine × Bool
unfolding finished
process_one h now e = finished h now (claim_next h now e)

new_task : ℕ → ℕ → Context → Workflow → Task
new_task now ticket_id ctx w = record {
  id = 0;
  workflow_id = w.id;
  ticket_id = some ticket_id;
  status = task_pending;
  step_index = 0;
  context = ctx;
  attempts = 0;
  error = "";
  next_run_at = now;
  created_at = now;
  updated_at = now;
}

created : Result (Task × List Task) → List Task → List Task
created (ok (t, rows)) old = rows
created (err x) old = old

-- The loop of `Trigger`; a failing write is logged only.
unfoldable pub enqueue_all : Host → ℕ → ℕ → Context → List Workflow → List Task → List Task
unfolding created new_task
enqueue_all h now ticket_id ctx [] tasks = tasks
enqueue_all h now ticket_id ctx (w ∷ ws) tasks =
    enqueue_all h now ticket_id ctx ws
      (created (h.tasks_table.create (new_task now ticket_id ctx w) tasks) tasks)

unfoldable pub trigger : Host → ℕ → String → ℕ → Context → Engine → Engine
unfolding enqueue_all
trigger h now name ticket_id ctx e =
    elim (h.workflows_table.find (λ w. str_eq w.trigger name && w.active) e.workflows) [
      | ok ws ↦ record e { tasks = enqueue_all h now ticket_id ctx ws e.tasks }
      | err x ↦ e
    ]
