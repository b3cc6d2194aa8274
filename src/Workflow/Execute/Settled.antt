-- ===== src/Workflow/Execute/Settled.antt =====
-- How a run of a task ends (`execute` of internal/workflow/engine.go).
use servicedesk.Common.{
  sym, ap, ◌∙◌, ℕ, zero, suc, ◌-◌, ◌≤◌, ◌<◌, ◌+◌, ◌^◌, leb, Bool-cases, String, Bool, true, false,
  ◌≡◌, refl, ◌≢◌, ◌⊎◌, inl, inr, some, List, [], ◌∷◌, arith, ◌==◌, length, get_elem?, Option-cases,
}
use servicedesk.Models.Automation.{
  task_pending, task_processing, task_failed, task_waiting_user, task_done,
}
use servicedesk.Store.{Error, Result, ok, err, Result-cases}
use servicedesk.Workflow.{Context, WorkStep, Task, Engine, Host}
use servicedesk.Workflow.Step.{run_step, past_the_end}
use servicedesk.Workflow.Step.Index.{run_step_index}
use servicedesk.Workflow.Execute.{
  error_text, touched, save_task, saved_as, Machine, loop, settle, step_failed, paused, completed,
  advanced, after_step, scratch, execute, rounds, run_config, failed_with, max_step_attempts,
}

-- What holds of the task that a run leaves, with the context that the run began with.
pub record Outcome (first : Context) (t : Task) : Type 0 where
  pub not_processing : t.status ≢ task_processing
  pub pending_again : t.status ≡ task_pending → (0 < t.attempts) × (t.attempts < max_step_attempts)
  pub failure_forgets : (t.status ≡ task_pending) ⊎ (t.status ≡ task_failed) → t.context ≡ first

-- The last write of the table of tasks is this task, or it failed.
pub Stored : Host → Machine → Type 0
Stored h m =
    ((before : List Task) × (h.tasks_table.save m.task before ≡ ok m.engine.tasks))
    ⊎ ((x : Error) × (h.tasks_table.save m.task m.engine.tasks ≡ err x))

pub record IsSettled (h : Host) (first : Context) (m : Machine) : Type 0 where
  pub outcome : Outcome first m.task
  pub stored : Stored h m

save_task-stored :
    (h : Host) (now : ℕ) (t : Task) (e : Engine)
    → ((before : List Task) × (h.tasks_table.save (touched now t) before
          ≡ ok (save_task h now t e).tasks))
      ⊎ ((x : Error) × (h.tasks_table.save (touched now t) (save_task h now t e).tasks ≡ err x))
unfolding save_task
save_task-stored h now t e = elim (Result-cases (h.tasks_table.save (touched now t) e.tasks)) [
  | inl (rows, q) ↦
      let saved : (save_task h now t e).tasks ≡ rows = rw (q, save_task) refl in
      inl (e.tasks, q ∙ ap ok (sym saved))
  | inr (x, q) ↦
      let same : (save_task h now t e).tasks ≡ e.tasks = rw (q, save_task) refl in
      inr (x, ap (h.tasks_table.save (touched now t)) same ∙ q)
]

saved_as-IsSettled :
    (h : Host) (now : ℕ) (m : Machine) (t : Task) (first : Context)
    → Outcome first (touched now t)
    → IsSettled h first (saved_as h now m t)
unfolding Stored
saved_as-IsSettled h now m t first o = record {
  outcome = o;
  stored = save_task-stored h now t m.engine;
}

step_failed-IsSettled :
    (h : Host) (now : ℕ) (m : Machine) (x : Error) (first : Context)
    → m.task.context ≡ first
    → IsSettled h first (step_failed h now m x)
unfolding step_failed
step_failed-IsSettled h now m x first c =
    elim (Bool-cases (leb max_step_attempts (m.task.attempts + 1))) [
      | inl y ↦
          let last : Task = record m.task {
            attempts = m.task.attempts + 1;
            error = error_text x;
            status = task_failed;
          } in
          rw y (saved_as-IsSettled h now m last first (ground arith))
      | inr n ↦
          let again : Task = record m.task {
            attempts = m.task.attempts + 1;
            error = error_text x;
            status = task_pending;
            next_run_at = now + 2 ^ (m.task.attempts + 1);
          } in
          rw n (saved_as-IsSettled h now m again first (ground (arith, n)))
    ]

paused-IsSettled :
    (h : Host) (now : ℕ) (m : Machine) (first : Context) → IsSettled h first (paused h now m)
unfolding paused
paused-IsSettled h now m first =
    saved_as-IsSettled h now m (record m.task { context = m.context; status = task_waiting_user })
      first (ground arith)

completed-IsSettled :
    (h : Host) (now : ℕ) (m : Machine) (first : Context) → IsSettled h first (completed h now m)
unfolding completed
completed-IsSettled h now m first =
    saved_as-IsSettled h now m (record m.task { context = m.context; status = task_done }) first
      (ground arith)

settle-IsSettled :
    (h : Host) (now : ℕ) (m : Machine) (r : Result Bool) (rest : Machine) (first : Context)
    → m.task.context ≡ first
    → (r ≡ ok false → IsSettled h first rest)
    → IsSettled h first (settle h now m r rest)
unfolding settle
settle-IsSettled h now m (err x) rest first c k = step_failed-IsSettled h now m x first c
settle-IsSettled h now m (ok true) rest first c k = paused-IsSettled h now m first
settle-IsSettled h now m (ok false) rest first c k = k refl

get_elem?_below :
    {A : Type 0} (xs : List A) (i : ℕ) (a : A) → get_elem? xs i ≡ some a → i < length xs
get_elem?_below [] i a e = absurd (cc)
get_elem?_below (x ∷ xs) zero a e = omega arith
get_elem?_below (x ∷ xs) (suc i) a e = omega (arith, get_elem?_below xs i a e)

loop-IsSettled :
    (h : Host) (now : ℕ) (steps : List WorkStep) (fuel : ℕ) (m : Machine) (first : Context)
    → length steps ≤ past_the_end
    → length steps - m.task.step_index < fuel
    → m.task.context ≡ first
    → IsSettled h first (loop h now steps fuel m)
unfolding loop
loop-IsSettled h now steps zero m first l f c = absurd (omega arith)
loop-IsSettled h now steps (suc fuel) m first l f c =
    elim (Option-cases (get_elem? steps m.task.step_index)) [
      | inl e ↦ rw (e, loop) (completed-IsSettled h now m first)
      | inr (step, e) ↦
          let r = run_step h now m.task.ticket_id step (scratch m) in
          let m' = after_step m r.0 in
          rw (e, loop)
            (settle-IsSettled h now m' r.1 (loop h now steps fuel (advanced m')) first c (λ _.
              loop-IsSettled h now steps fuel (advanced m') first l
                (omega (
                  arith,
                  run_step_index h now m.task.ticket_id step (scratch m),
                  get_elem?_below steps m.task.step_index step e,
                ))
                c))
    ]

failed_with-IsSettled :
    (h : Host) (now : ℕ) (t : Task) (msg : String) (e : Engine)
    → IsSettled h t.context (failed_with h now t msg e)
unfolding failed_with Stored
failed_with-IsSettled h now t msg e = record {
  outcome = ground arith;
  stored = save_task-stored h now (record t { status = task_failed; error = msg }) e;
}

-- A configuration that decodes has fewer steps than the index that a condition jumps to.
abbrev pub ShortConfigs : Host → Type 0
ShortConfigs h =
    (config : String) (steps : List WorkStep)
    → h.parse_config config ≡ ok steps
    → length steps ≤ past_the_end

run_config-IsSettled :
    (h : Host) (now : ℕ) (t : Task) (e : Engine) (config : String)
    → ShortConfigs h
    → IsSettled h t.context (run_config h now t e (h.parse_config config))
unfolding run_config
run_config-IsSettled h now t e config short = elim (Result-cases (h.parse_config config)) [
  | inr (x, q) ↦ rw (q, run_config) (failed_with-IsSettled h now t _ e)
  | inl (steps, q) ↦
      rw (q, run_config)
        (loop-IsSettled h now steps (rounds steps)
          (record { task = t; context = t.context; engine = e }) t.context (short config steps q)
          (omega arith) refl)
]

-- A run of a task always ends, and what it leaves was written to the table, if the table took the
-- write: a task not in processing, and waiting for another attempt only after one or
-- two failed ones. A run that failed, for good or for now, leaves the task with the context that it
-- began with, whatever the steps before the failing one put there. Configurations are taken to have
-- fewer steps than the index that a condition jumps to.
pub execute-IsSettled :
    (h : Host) (now : ℕ) (t : Task) (e : Engine)
    → ShortConfigs h
    → IsSettled h t.context (execute h now t e)
unfolding execute
execute-IsSettled h now t e short =
    elim (Result-cases (h.workflows_table.first (λ w. w.id == t.workflow_id) e.workflows)) [
      | inr (x, q) ↦ rw (q, execute) (failed_with-IsSettled h now t _ e)
      | inl (w, q) ↦ rw (q, execute) (run_config-IsSettled h now t e w.config short)
    ]
