-- ===== src/Tests/Fixtures.antt =====
-- The users, rows and tables that the runs share.
use servicedesk.Common.{ℕ, true, false, none, some, List, [], ◌∷◌}
use servicedesk.Models.Roles.{Role, customer, engineer, manager}
use servicedesk.Models.Tickets.{Ticket, TicketStatus, Queue}
use servicedesk.Auth.Claims.{Claims}
use servicedesk.Store.{Table}
use servicedesk.Store.Memory.{memory}
use servicedesk.Ticket.Desk.{Env, Desk}
use servicedesk.Ticket.Lifecycle.{CreateTicketInput}

abbrev pub session : Role → ℕ → Claims
session role id = record {
  user_id = id;
  username = "user";
  role = role;
  org_id = 1;
  sudo_by_id = none;
  sudo_by_username = "";
}

abbrev pub an_engineer : Claims
an_engineer = session engineer 7

abbrev pub a_manager : Claims
a_manager = session manager 8

abbrev pub a_customer : Claims
a_customer = session customer 9

abbrev pub a_queue : Queue
a_queue = record {
  id = 1;
  name = "Default";
  parent_id = none;
  default_priority = "P3";
  default_category = "";
  sla_targets = "";
}

abbrev pub ticket : ℕ → TicketStatus → Ticket
ticket id status = record {
  id = id;
  title = "Printer";
  description = "It is on fire";
  priority = "P3";
  status = status;
  queue_id = 1;
  category = "";
  assignee_id = some 7;
  creator_id = 9;
  service_id = none;
  org_id = 1;
  custom_fields = "";
  sla_due_at = some 100;
  sla_breach_notified_at = none;
  detected_at = some 10;
  acked_at = some 20;
  mitigated_at = none;
  resolved_at = none;
  reopen_count = 0;
  created_at = 10;
  updated_at = 10;
}

abbrev pub an_input : CreateTicketInput
an_input = record {
  title = "Printer";
  description = "It is on fire";
  priority = "";
  queue_id = 1;
  category = "";
  custom_fields = "";
  service_id = none;
  detected_at = none;
}

-- A table without an id of its own.
abbrev pub joined : {Row : Type 0} → Table Row
joined = memory (λ r. 0) (λ i r. r)

abbrev pub an_env : Env
an_env = record {
  tickets_table = memory (λ t. t.id) (λ i t. record t { id = i });
  events_table = memory (λ v. v.id) (λ i v. record v { id = i });
  watchers_table = joined;
  queues_table = memory (λ q. q.id) (λ i q. record q { id = i });
  queue_members_table = joined;
  users_table = memory (λ u. u.id) (λ i u. record u { id = i });
  org_members_table = joined;
  notes_table = memory (λ n. n.id) (λ i n. record n { id = i });
  tags_table = memory (λ t. t.id) (λ i t. record t { id = i });
  ticket_tags_table = joined;
  orgs_table = memory (λ o. o.id) (λ i o. record o { id = i });
  attachments_table = memory (λ a. a.id) (λ i a. record a { id = i });
  has_notifier = true;
  has_webhooks = true;
  has_kb = true;
  has_ai_summary = false;
  has_workflows = true;
  sla_rules = λ s. [];
}

abbrev pub desk : List Ticket → Desk
desk rows = record {
  tickets = rows;
  events = [];
  watchers = [];
  queues = a_queue ∷ [];
  queue_members = record { queue_id = 1; user_id = 7 } ∷ [];
  users = [];
  org_members = [];
  notes = [];
  tags = [];
  ticket_tags = [];
  orgs = [];
  attachments = [];
  calls = [];
}
