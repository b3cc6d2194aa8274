-- ===== src/Workflow/Step.antt =====
-- `runStep`, `runHTTPRequest` and `deliverRenderedOutput` (internal/workflow/engine.go).
pub mod Index
pub mod Rejection
use Prim.Native.String.{◌++◌ as str_append}
use servicedesk.Common.{
  ℕ, ◌+◌, String, Bool, true, false, Option, none, some, List, [], ◌∷◌, ◌++◌, ◌==◌, not, str_eq,
  is_some, if◌then◌else◌,
}
use servicedesk.Models.Tickets.{Ticket, Note}
use servicedesk.Models.Automation.{Approval}
use servicedesk.Auth.Claims.{system_actor_id}
use servicedesk.Store.{
  Error, failure, Result, ok, err, M, pure, fail, fail_if, carry_on, ◌>>=◌, ◌>>◌,
}
use servicedesk.Workflow.{
  Value, flag, text, number, Context, lookup, insert, StepType, condition, user_input, http_request,
  template_render, add_note, auto_assign, webhook, notify, approval, unknown, WorkStep, Task,
  EngineCall, dispatched, notified, Engine, Host,
}

-- What a step works on: the index of the task, the context and the engine.
pub record Scratch : Type 0 where
  pub step_index : ℕ
  pub context : Context
  pub engine : Engine

abbrev pub past_the_end : ℕ
past_the_end = 1073741824  -- 1 << 30

abbrev pub resumed_key : String → String
resumed_key id = str_append "_resumed_" id

abbrev pub decision_key : String → String
decision_key id = str_append "_approval_decision_" id

abbrev pub pending_key : String → String
pending_key id = str_append "_pending_approval_id_" id

-- A result of the host, as a step of the computation.
abbrev pub given : {A : Type 0} → Result A → M Scratch A
given r s = (s, r)

put : String → Value → M Scratch (Unit {0})
put k v s = (record s { context = insert k v s.context }, ok tt)

render : Host → String → M Scratch String
render h tpl s = (s, h.render_template tpl s.context)

create_note : Host → ℕ → ℕ → String → Bool → M Scratch (Unit {0})
create_note h now ticket_id body internal s =
    let n : Note = record {
      id = 0;
      ticket_id = ticket_id;
      author_id = system_actor_id;
      body = body;
      internal = internal;
      created_at = now;
    } in
    elim (h.notes_table.create n s.engine.notes) [
      | ok (n', rows) ↦ (let e = s.engine in record s { engine = record e { notes = rows } }, ok tt)
      | err x ↦ (s, err x)
    ]

set_assignee : Host → ℕ → ℕ → Option ℕ → M Scratch (Unit {0})
set_assignee h now ticket_id assignee s =
    elim (h.tickets_table.first (λ t. t.id == ticket_id) s.engine.tickets) [
      | err x ↦ (s, err x)
      | ok t ↦
          elim (h.tickets_table.save (record t { assignee_id = assignee; updated_at = now })
            s.engine.tickets) [
              | ok rows ↦
                  (let e = s.engine in record s { engine = record e { tickets = rows } }, ok tt)
              | err x ↦ (s, err x)
            ]
    ]

create_approval : Host → ℕ → ℕ → String → M Scratch ℕ
create_approval h now ticket_id role s =
    let a : Approval = record {
      id = 0;
      ticket_id = ticket_id;
      step = s.step_index;
      approver_role = role;
      status = "pending";
      decided_by = none;
      decided_at = none;
      created_at = now;
    } in
    elim (h.approvals_table.create a s.engine.approvals) [
      | ok (a', rows) ↦
          (let e = s.engine in record s { engine = record e { approvals = rows } }, ok a'.id)
      | err x ↦ (s, err x)
    ]

call : EngineCall → M Scratch (Unit {0})
call c s = (let e = s.engine in record s { engine = record e { calls = e.calls ++ c ∷ [] } }, ok tt)

jump : M Scratch (Unit {0})
jump s = (record s { step_index = past_the_end }, ok tt)

run_http_request : Host → WorkStep → M Scratch (Unit {0})
unfolding render put
run_http_request h step = do
  url ← render h step.url
  parsed ← given (h.fetch (if str_eq step.method "" then "GET" else step.method) url)
  if str_eq step.save_response_to "" then pure tt else put step.save_response_to parsed

deliver_rendered_output : Host → ℕ → Option ℕ → WorkStep → String → M Scratch (Unit {0})
unfolding create_note
deliver_rendered_output h now none step rendered = pure tt
deliver_rendered_output h now (some ticket_id) step rendered =
    if str_eq step.output_target "ticket_external_note"
    then create_note h now ticket_id rendered false
    else if str_eq step.output_target "ticket_internal_note"
    then create_note h now ticket_id rendered true
    else pure tt

run_add_note : Host → ℕ → Option ℕ → WorkStep → M Scratch (Unit {0})
unfolding render create_note
run_add_note h now none step = pure tt
run_add_note h now (some ticket_id) step = do
  body ← render h step.body
  create_note h now ticket_id body step.internal

run_auto_assign : Host → ℕ → Option ℕ → WorkStep → M Scratch (Unit {0})
unfolding set_assignee
run_auto_assign h now none step = pure tt
run_auto_assign h now (some ticket_id) step =
    if is_some step.assignee_id then set_assignee h now ticket_id step.assignee_id else pure tt

run_notify : Host → Option ℕ → WorkStep → String → M Scratch (Unit {0})
unfolding call
run_notify h none step msg = pure tt
run_notify h (some ticket_id) step msg =
    if h.has_notifier then call (notified ticket_id msg) else pure tt

request_approval : Host → ℕ → Option ℕ → WorkStep → M Scratch Bool
unfolding create_approval put
request_approval h now none step = fail (failure "approval step requires a ticket")
request_approval h now (some ticket_id) step = do
  id ← create_approval h now ticket_id step.approver_role
  put (pending_key step.id) (number id)
  pure true

abbrev pub is_approved : Value → Bool
is_approved (flag true) = true
is_approved _ = false

-- The decision in the context, if there is one.
decide_approval : Host → ℕ → Option ℕ → WorkStep → Option Value → M Scratch Bool
unfolding request_approval
decide_approval h now ticket step (some v) =
    if is_approved v then pure false else fail (failure "rejected by approver")
decide_approval h now ticket step none = request_approval h now ticket step

-- The result tells whether the task pauses.
run_kind : StepType → Host → ℕ → Option ℕ → WorkStep → M Scratch Bool
unfolding put render call jump run_http_request deliver_rendered_output run_add_note run_auto_assign
    run_notify decide_approval
run_kind condition h now ticket step s =
    (do
      if str_eq (h.format (lookup step.field s.context)) step.equals then pure tt else jump
      pure false)
      s
run_kind user_input h now ticket step s =
    (if is_some (lookup (resumed_key step.id) s.context)
        then pure false
        else (do put (resumed_key step.id) (flag true); pure true))
      s
run_kind http_request h now ticket step s = (do run_http_request h step; pure false) s
run_kind template_render h now ticket step s =
    (do
      out ← render h step.template
      put step.id (text out)
      deliver_rendered_output h now ticket step out
      pure false)
      s
run_kind add_note h now ticket step s = (do run_add_note h now ticket step; pure false) s
run_kind auto_assign h now ticket step s = (do run_auto_assign h now ticket step; pure false) s
run_kind webhook h now ticket step s =
    (do if h.has_webhooks then call (dispatched step.event s.context) else pure tt; pure false) s
run_kind notify h now ticket step s =
    (do msg ← render h step.message; run_notify h ticket step msg; pure false) s
run_kind approval h now ticket step s =
    decide_approval h now ticket step (lookup (decision_key step.id) s.context) s
run_kind (unknown name) h now ticket step s = (s, err (failure "unknown step type"))

unfoldable pub run_step : Host → ℕ → Option ℕ → WorkStep → M Scratch Bool
unfolding run_kind
run_step h now ticket step = run_kind step.kind h now ticket step
