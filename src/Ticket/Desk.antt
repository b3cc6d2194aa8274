-- ===== src/Ticket/Desk.antt =====
-- The state and the surroundings of the ticket service (internal/service/ticket.go): the tables that
-- it writes, and the calls that it makes on its collaborators, in order.
pub mod Effects
use servicedesk.Common.{
  ℕ, String, Bool, true, false, Option, none, some, List, [], ◌∷◌, ◌++◌, if◌then◌else◌, ◌==◌, ◌&&◌,
}
use servicedesk.Models.Roles.{Role, User, Organization, OrgMembership}
use servicedesk.Models.Tickets.{
  TicketStatus, Action, Ticket, Queue, QueueMembership, Note, Watcher, Tag, TicketTag, Attachment,
}
use servicedesk.Auth.Claims.{Claims}
use servicedesk.Sla.{Rule}
use servicedesk.Store.{Error, Result, ok, err, M, Table}

-- The fields that `UpdateFields` sets, absent where the caller passed nil.
pub record UpdateFieldsInput : Type 0 where
  pub title : Option String
  pub description : Option String
  pub priority : Option String
  pub category : Option String
  pub custom_fields : Option String
  pub service_id : Option (Option ℕ)

-- The JSON object in the column `Details` of the event log.
pub data Details : Type 0 where
  title_details : String → Details
  status_details : TicketStatus → TicketStatus → Action → String → Details
  assignee_details : ℕ → Action → Details
  mitigated_details : Bool → Details
  changed_details : UpdateFieldsInput → Details
  label_details : String → String → Details
  tag_details : ℕ → Details
  sudo_details : ℕ → String → Details
  role_details : ℕ → String → Role → Role → Details
  empty_details : Details

pub record EventLog : Type 0 where
  pub id : ℕ
  pub ticket_id : Option ℕ
  pub actor_id : Option ℕ
  pub event : String
  pub details : Details
  pub sudo_by_id : Option ℕ
  pub created_at : ℕ

-- The payload of a published or dispatched event.
pub data Payload : Type 0 where
  ticket_payload : Ticket → Payload
  note_payload : Note → Payload
  status_payload : Ticket → TicketStatus → TicketStatus → Payload
  label_payload : String → String → Payload

pub data Metric : Type 0 where
  mttd mtta mttm mttr : Metric

-- A call on EventPublisher, WebhookDispatcher, WorkflowTrigger, KBProposalTrigger and
-- AISummaryTrigger (internal/service/interfaces.go), or a metric that is observed from one time to
-- another.
pub data Call : Type 0 where
  publish : ℕ → String → Payload → Call
  dispatch : String → Payload → Call
  trigger : String → ℕ → Call
  propose : ℕ → Call
  regenerate : ℕ → ℕ → Call
  observe : Metric → ℕ → ℕ → Call

pub record Desk : Type 0 where
  pub tickets : List Ticket
  pub events : List EventLog
  pub watchers : List Watcher
  pub queues : List Queue
  pub queue_members : List QueueMembership
  pub users : List User
  pub org_members : List OrgMembership
  pub notes : List Note
  pub tags : List Tag
  pub ticket_tags : List TicketTag
  pub orgs : List Organization
  pub attachments : List Attachment
  pub calls : List Call

-- The tables of the database, the collaborators that may be nil, and the decoding of the JSON text
-- of a queue's SLA rules.
pub record Env : Type 0 where
  pub tickets_table : Table Ticket
  pub events_table : Table EventLog
  pub watchers_table : Table Watcher
  pub queues_table : Table Queue
  pub queue_members_table : Table QueueMembership
  pub users_table : Table User
  pub org_members_table : Table OrgMembership
  pub notes_table : Table Note
  pub tags_table : Table Tag
  pub ticket_tags_table : Table TicketTag
  pub orgs_table : Table Organization
  pub attachments_table : Table Attachment
  pub has_notifier : Bool
  pub has_webhooks : Bool
  pub has_kb : Bool
  pub has_ai_summary : Bool
  pub has_workflows : Bool
  pub sla_rules : String → List Rule

-- gorm's `Save` stamps `UpdatedAt`, in the row that it writes and in the caller's.
abbrev pub touched : ℕ → Ticket → Ticket
touched now t = record t { updated_at = now }

-- `TicketRepo.Get` and `TicketRepo.Update`.
unfoldable pub get_ticket : Env → ℕ → M Desk Ticket
get_ticket e id d = (d, e.tickets_table.first (λ t. t.id == id) d.tickets)

unfoldable pub update_ticket : Env → ℕ → Ticket → M Desk (Unit {0})
update_ticket e now t d = elim (e.tickets_table.save (touched now t) d.tickets) [
  | ok rows ↦ (record d { tickets = rows }, ok tt)
  | err x ↦ (d, err x)
]

-- A call on a collaborator.
unfoldable pub call : Call → M Desk (Unit {0})
call c d = (record d { calls = d.calls ++ c ∷ [] }, ok tt)

unfoldable pub call_if : Bool → Call → M Desk (Unit {0})
unfolding call
call_if b c d = if b then call c d else (d, ok tt)

-- `logEvent`: a write that fails is logged only.
unfoldable pub log_event : Env → ℕ → ℕ → Claims → String → Details → M Desk (Unit {0})
log_event e now ticket_id actor event details d = elim (e.events_table.create entry d.events) [
  | ok (_, rows) ↦ (record d { events = rows }, ok tt)
  | err x ↦ (d, ok tt)
]
  where
    entry : EventLog
    entry = record {
      id = 0;
      ticket_id = some ticket_id;
      actor_id = some actor.user_id;
      event = event;
      details = details;
      sudo_by_id = actor.sudo_by_id;
      created_at = now;
    }

-- `fanOut`
unfoldable pub fan_out : Env → String → ℕ → Payload → M Desk (Unit {0})
unfolding call_if
fan_out e event ticket_id payload d =
    let d' = (call_if e.has_notifier (publish ticket_id event payload) d).0 in
    call_if e.has_webhooks (dispatch event payload) d'

-- A write whose error is logged only.
unfoldable pub ignore : M Desk (Unit {0}) → M Desk (Unit {0})
ignore m d = ((m d).0, ok tt)
