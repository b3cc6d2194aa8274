-- ===== src/Workflow.antt =====
-- internal/workflow: the data of the interpreter. A context is a Go map, as an association list; a
-- value of `any` that is neither a Boolean, a text nor an integer is its JSON text.
pub mod Step
pub mod Execute
pub mod Resume
use servicedesk.Common.{
  ℕ, String, Bool, true, false, Option, none, some, List, [], ◌∷◌, str_eq, if◌then◌else◌,
}
use servicedesk.Models.Tickets.{Ticket, Note}
use servicedesk.Models.Automation.{Workflow, WorkflowTask, Approval}
use servicedesk.Store.{Result, Table}

pub data Value : Type 0 where
  flag : Bool → Value
  text : String → Value
  number : ℕ → Value
  json : String → Value

abbrev pub Context : Type 0
Context = List (String × Value)

unfoldable pub lookup : String → Context → Option Value
lookup k [] = none
lookup k ((j, v) ∷ m) = if str_eq j k then some v else lookup k m

unfoldable pub insert : String → Value → Context → Context
insert k v [] = (k, v) ∷ []
insert k v ((j, w) ∷ m) = if str_eq j k then (k, v) ∷ m else (j, w) ∷ insert k v m

pub data StepType : Type 0 where
  condition user_input http_request template_render add_note : StepType
  auto_assign webhook notify approval : StepType
  unknown : String → StepType

-- `workflow.Step` (internal/workflow/steps.go), without the form fields, which the engine ignores.
pub record WorkStep : Type 0 where
  pub id : String
  pub kind : StepType
  pub url : String
  pub method : String
  pub save_response_to : String
  pub template : String
  pub output_target : String
  pub body : String
  pub internal : Bool
  pub assignee_id : Option ℕ
  pub event : String
  pub approver_role : String
  pub message : String
  pub field : String
  pub equals : String

abbrev pub Task : Type 0
Task = WorkflowTask Context

-- A call on the webhook dispatcher or on the publisher.
pub data EngineCall : Type 0 where
  dispatched : String → Context → EngineCall
  notified : ℕ → String → EngineCall

pub record Engine : Type 0 where
  pub tasks : List Task
  pub notes : List Note
  pub tickets : List Ticket
  pub approvals : List Approval
  pub workflows : List Workflow
  pub calls : List EngineCall

-- The tables; the standard library's templates, formatting and HTTP client with the decoding of the
-- answer (an error for a status of 400 or more); the decoding of a configuration; and whether the
-- collaborators are there.
pub record Host : Type 0 where
  pub tasks_table : Table Task
  pub notes_table : Table Note
  pub tickets_table : Table Ticket
  pub approvals_table : Table Approval
  pub workflows_table : Table Workflow
  pub render_template : String → Context → Result String
  pub format : Option Value → String
  pub fetch : String → String → Result Value
  pub parse_config : String → Result (List WorkStep)
  pub has_webhooks : Bool
  pub has_notifier : Bool
