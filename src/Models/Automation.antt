-- ===== src/Models/Automation.antt =====
-- internal/models/models.go: webhooks and their outbox, workflows and their tasks, approvals.
use servicedesk.Common.{ℕ, String, Bool, true, false, Option}

pub record Webhook : Type 0 where
  pub id : ℕ
  pub url : String
  pub events : String
  pub secret : String
  pub active : Bool

pub data DeliveryStatus : Type 0 where
  pending delivered failed : DeliveryStatus

abbrev pub is_pending : DeliveryStatus → Bool
is_pending pending = true
is_pending _ = false

pub record WebhookDelivery : Type 0 where
  pub id : ℕ
  pub webhook_id : ℕ
  pub event : String
  pub payload : String
  pub status : DeliveryStatus
  pub attempts : ℕ
  pub next_run_at : ℕ
  pub last_error : String
  pub created_at : ℕ

pub record Workflow : Type 0 where
  pub id : ℕ
  pub name : String
  pub trigger : String
  pub is_runbook : Bool
  pub config : String
  pub active : Bool

pub data WorkflowTaskStatus : Type 0 where
  task_pending task_processing task_waiting_user task_done task_failed : WorkflowTaskStatus

abbrev pub is_task_pending : WorkflowTaskStatus → Bool
is_task_pending task_pending = true
is_task_pending _ = false

abbrev pub is_task_waiting : WorkflowTaskStatus → Bool
is_task_waiting task_waiting_user = true
is_task_waiting _ = false

-- The context column holds a JSON object; its type is the caller's.
pub record WorkflowTask (Context : Type 0) : Type 0 where
  pub id : ℕ
  pub workflow_id : ℕ
  pub ticket_id : Option ℕ
  pub status : WorkflowTaskStatus
  pub step_index : ℕ
  pub context : Context
  pub attempts : ℕ
  pub error : String
  pub next_run_at : ℕ
  pub created_at : ℕ
  pub updated_at : ℕ

pub record Approval : Type 0 where
  pub id : ℕ
  pub ticket_id : ℕ
  pub step : ℕ
  pub approver_role : String
  pub status : String
  pub decided_by : Option ℕ
  pub decided_at : Option ℕ
  pub created_at : ℕ
