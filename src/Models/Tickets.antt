-- ===== src/Models/Tickets.antt =====
-- internal/models/models.go: tickets and what hangs on them. A time is a number of nanoseconds, a
-- row id a number; a column that holds JSON text is that text.
use servicedesk.Common.{ℕ, String, Bool, true, false, Option, List}

pub data TicketStatus : Type 0 where
  new in_progress resolved closed rejected : TicketStatus

pub status_discrete : Discrete TicketStatus
status_discrete = hlevel

-- `service.Action` (internal/service/statemachine.go); the handler passes on any text.
pub data Action : Type 0 where
  assign pickup resolve confirm reopen reject : Action
  other_action : String → Action

abbrev pub is_new : TicketStatus → Bool
is_new new = true
is_new _ = false

abbrev pub is_in_progress : TicketStatus → Bool
is_in_progress in_progress = true
is_in_progress _ = false

abbrev pub is_resolved : TicketStatus → Bool
is_resolved resolved = true
is_resolved _ = false

abbrev pub is_closed : TicketStatus → Bool
is_closed closed = true
is_closed _ = false

abbrev pub is_reopen : Action → Bool
is_reopen reopen = true
is_reopen _ = false

pub record Queue : Type 0 where
  pub id : ℕ
  pub name : String
  pub parent_id : Option ℕ
  pub default_priority : String
  pub default_category : String
  pub sla_targets : String

pub record QueueMembership : Type 0 where
  pub queue_id : ℕ
  pub user_id : ℕ

pub record Ticket : Type 0 where
  pub id : ℕ
  pub title : String
  pub description : String
  pub priority : String
  pub status : TicketStatus
  pub queue_id : ℕ
  pub category : String
  pub assignee_id : Option ℕ
  pub creator_id : ℕ
  pub service_id : Option ℕ
  pub org_id : ℕ
  pub custom_fields : String
  pub sla_due_at : Option ℕ
  pub sla_breach_notified_at : Option ℕ
  pub detected_at : Option ℕ
  pub acked_at : Option ℕ
  pub mitigated_at : Option ℕ
  pub resolved_at : Option ℕ
  pub reopen_count : ℕ
  pub created_at : ℕ
  pub updated_at : ℕ

pub record Tag : Type 0 where
  pub id : ℕ
  pub name : String
  pub kind : String

pub record TicketTag : Type 0 where
  pub ticket_id : ℕ
  pub tag_id : ℕ

pub record Note : Type 0 where
  pub id : ℕ
  pub ticket_id : ℕ
  pub author_id : ℕ
  pub body : String
  pub internal : Bool
  pub created_at : ℕ

pub record Attachment : Type 0 where
  pub id : ℕ
  pub ticket_id : ℕ
  pub note_id : Option ℕ
  pub uploader_id : ℕ
  pub filename : String
  pub mime_type : String
  pub size_bytes : ℕ
  pub internal : Bool
  pub customer_private : Bool
  pub storage_backend : String
  pub content : List ℕ  -- the bytes
  pub created_at : ℕ

pub record Watcher : Type 0 where
  pub ticket_id : ℕ
  pub user_id : ℕ

pub record Problem : Type 0 where
  pub id : ℕ
  pub title : String
  pub root_cause : String
  pub resolution : String
  pub preventive_measures : String
  pub created_at : ℕ

pub record ProblemTicket : Type 0 where
  pub problem_id : ℕ
  pub ticket_id : ℕ
