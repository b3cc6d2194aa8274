-- ===== src/Tests/Engine.antt =====
-- The interpreter of workflows on a small configuration.
use servicedesk.Workflow.Resume.{resume, decide_approval}
use servicedesk.Workflow.Resume.Decisions.{Resumption, resume-Resumption}
use servicedesk.Common.{
  subst, length, ◌≤◌, String, true, false, ◌≡◌, refl, none, some, List, [], ◌∷◌, arith,
}
use servicedesk.Models.Automation.{Workflow, task_processing, task_waiting_user, task_pending}
use servicedesk.Store.{ok-injective, ok, err, failure}
use servicedesk.Store.Memory.{memory}
use servicedesk.Workflow.{
  number, Context, flag, StepType, template_render, http_request, WorkStep, Task, Engine, Host,
}
use servicedesk.Workflow.Step.{decision_key, past_the_end}
use servicedesk.Workflow.Execute.{execute}
use servicedesk.Workflow.Execute.Settled.{execute-IsSettled, IsSettled}

abbrev step : String → StepType → WorkStep
step id kind = record {
  id = id;
  kind = kind;
  url = "http://status";
  method = "";
  save_response_to = "";
  template = "hello";
  output_target = "";
  body = "";
  internal = false;
  assignee_id = none;
  event = "";
  approver_role = "Manager";
  message = "";
  field = "";
  equals = "";
}

-- The second step fails: the server does not answer.
abbrev a_host : Host
a_host = record {
  tasks_table = memory (λ t. t.id) (λ i t. record t { id = i });
  notes_table = memory (λ n. n.id) (λ i n. record n { id = i });
  tickets_table = memory (λ t. t.id) (λ i t. record t { id = i });
  approvals_table = memory (λ a. a.id) (λ i a. record a { id = i });
  workflows_table = memory (λ w. w.id) (λ i w. record w { id = i });
  render_template = λ tpl ctx. ok tpl;
  format = λ v. "";
  fetch = λ method url. err (failure "no answer");
  parse_config = λ config. ok (step "first" template_render ∷ step "second" http_request ∷ []);
  has_webhooks = true;
  has_notifier = true;
}

abbrev a_workflow : Workflow
a_workflow = record {
  id = 1;
  name = "Greet";
  trigger = "ticket_created";
  is_runbook = false;
  config = "[]";
  active = true;
}

abbrev a_task : Task
a_task = record {
  id = 3;
  workflow_id = 1;
  ticket_id = some 1;
  status = task_processing;
  step_index = 0;
  context = [];
  attempts = 0;
  error = "";
  next_run_at = 0;
  created_at = 0;
  updated_at = 0;
}

abbrev an_engine : Engine
an_engine = record {
  tasks = a_task ∷ [];
  notes = [];
  tickets = [];
  approvals = [];
  workflows = a_workflow ∷ [];
  calls = [];
}

execute-IsSettled_example : IsSettled a_host [] (execute a_host 10 a_task an_engine)
execute-IsSettled_example = execute-IsSettled a_host 10 a_task an_engine (λ config steps h.
    subst (λ (s : List WorkStep). length s ≤ past_the_end) (ok-injective h) (omega arith))

abbrev waiting_engine : Engine
waiting_engine = record an_engine { tasks = record a_task { status = task_waiting_user } ∷ [] }

abbrev decision : Context
decision = (decision_key "ok", flag true) ∷ []

resume-Resumption_example :
    Resumption a_host 10 3 decision waiting_engine (resume a_host 10 3 decision waiting_engine)
resume-Resumption_example = resume-Resumption a_host 10 3 decision waiting_engine

-- The decision resumes the task that waits for it.
abbrev pending_engine : Engine
pending_engine = record an_engine {
  tasks =
      record a_task {
        status = task_waiting_user;
        context = ("_pending_approval_id_ok", number 6) ∷ [];
      }
      ∷ [];
  approvals =
      record {
        id = 6;
        ticket_id = 1;
        step = 0;
        approver_role = "Manager";
        status = "approved";
        decided_by = none;
        decided_at = none;
        created_at = 0;
      }
      ∷ [];
}

decided_once :
    (decide_approval a_host 10 6 true pending_engine).0.tasks
    ≡ record a_task {
      status = task_pending;
      updated_at = 10;
      context = ("_pending_approval_id_ok", number 6) ∷ ("_approval_decision_ok", flag true) ∷ [];
      next_run_at = 10;
    }
      ∷ []
unfolding memory decide_approval
decided_once = refl
