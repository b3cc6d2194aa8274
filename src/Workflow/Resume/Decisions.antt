-- ===== src/Workflow/Resume/Decisions.antt =====
-- What a resumed task goes on with.
use servicedesk.Common.{
  Option, none, refl, ap, sym, ◌∙◌, or_else, eq_iff, if◌then◌else◌, ℕ, String, true, ◌≡◌, inl, inr,
  some, List, [], ◌∷◌, arith, ◌==◌, str_eq, Bool-cases,
}
use servicedesk.Models.Automation.{
  WorkflowTaskStatus, task_pending, task_waiting_user, is_task_waiting,
}
use servicedesk.Store.{Error, Result, ok, err, Result-cases}
use servicedesk.Workflow.{Value, Context, lookup, insert, Task, Engine, Host}
use servicedesk.Workflow.Resume.{merge, resume, store_task}

-- The last binding of a key.
pub latest : String → Context → Option Value
latest k [] = none
latest k ((j, v) ∷ m) = or_else (latest k m) (if str_eq j k then some v else none)

lookup-insert :
    (k j : String) (v : Value) (m : Context)
    → lookup k (insert j v m) ≡ or_else (if str_eq j k then some v else none) (lookup k m)
unfolding lookup insert
lookup-insert k j v [] = elim (Bool-cases (str_eq j k)) [ inl y ↦ rw y refl | inr n ↦ rw n refl ]
lookup-insert k j v ((i, w) ∷ m) = elim (Bool-cases (str_eq i j)) [
  | inl y ↦
      let same = (eq_iff i j).0 y in
      elim (Bool-cases (str_eq j k)) [ inl z ↦ rw (y, z) refl | inr n ↦ rw (y, n, same, n) refl ]
  | inr n ↦ elim (Bool-cases (str_eq i k)) [
    | inl z ↦
        let same = (eq_iff i k).0 z in
        elim (Bool-cases (str_eq j k)) [
          | inl q ↦ absurd (cc (n, (eq_iff i j).1 (same ∙ sym ((eq_iff j k).0 q))))
          | inr q ↦ rw (n, z, q) refl
        ]
    | inr q ↦ rw (n, q) (lookup-insert k j v m)
  ]
]

or_else_assoc : (a b c : Option Value) → or_else (or_else a b) c ≡ or_else a (or_else b c)
or_else_assoc none b c = refl
or_else_assoc (some x) b c = refl

lookup-merge :
    (k : String) (input ctx : Context)
    → lookup k (merge input ctx) ≡ or_else (latest k input) (lookup k ctx)
unfolding merge latest
lookup-merge k [] ctx = refl
lookup-merge k ((j, v) ∷ input) ctx =
    lookup-merge k input (insert j v ctx)
    ∙ (ap (or_else (latest k input)) (lookup-insert k j v ctx)
        ∙ sym (or_else_assoc (latest k input) (if str_eq j k then some v else none) (lookup k ctx)))

waiting : (s : WorkflowTaskStatus) → is_task_waiting s ≡ true → s ≡ task_waiting_user
waiting s h = ground arith

module _ (h : Host) (now id : ℕ) (input : Context) (e : Engine) where
  resumed : Task → Task
  resumed t = record t {
    context = merge input t.context;
    status = task_pending;
    next_run_at = now;
    updated_at = now;
  }

  -- The ways in which a resumption ends.
  pub data Resumption : Engine × Result (Unit {0}) → Type 0 where
    not_resumed : (x : Error) → Resumption (e, err x)
    went_on :
        (t t' : Task) (rows : List Task)
        → h.tasks_table.first (λ t. t.id == id) e.tasks ≡ ok t
        → t.status ≡ task_waiting_user
        → t' ≡ record t {
          context = t'.context;
          status = task_pending;
          next_run_at = now;
          updated_at = now;
        }
        → ((k : String) → lookup k t'.context ≡ or_else (latest k input) (lookup k t.context))
        → h.tasks_table.save t' e.tasks ≡ ok rows
        → Resumption (record e { tasks = rows }, ok tt)

  -- Every resumption ends in one of two ways. It fails, and has changed nothing; or the task was
  -- found waiting for input, and all that is written is this task, pending at the present time, at
  -- the step where it waited; its context has, for every key, the value that the input gives last,
  -- or else the value that it had.
  pub resume-Resumption : Resumption (resume h now id input e)
  unfolding resume resumed
  resume-Resumption = elim (Result-cases (h.tasks_table.first (λ t. t.id == id) e.tasks)) [
    | inr (x, q) ↦ rw (q, resume) (not_resumed x)
    | inl (t, q) ↦ elim (Bool-cases (is_task_waiting t.status)) [
      | inr n ↦ rw (q, n, resume) (not_resumed _)
      | inl y ↦ elim (Result-cases (h.tasks_table.save (resumed t) e.tasks)) [
        | inr (x, w) ↦ rw (q, y, store_task, w, resume) (not_resumed x)
        | inl (rows, w) ↦
            rw (q, y, store_task, w, resume)
              (went_on t (resumed t) rows q (waiting t.status y) refl
                (λ k. lookup-merge k input t.context) w)
      ]
    ]
  ]
