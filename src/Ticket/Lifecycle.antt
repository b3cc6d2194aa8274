-- ===== src/Ticket/Lifecycle.antt =====
-- internal/service/ticket.go: `Create`, `Transition`, `assign` and `MarkMitigated`. One reading of
-- the clock serves a call.
pub mod Success
pub mod Failure
pub mod Invariant
pub mod Ownership
pub mod Creation
pub mod Audit
pub mod Mitigation
use servicedesk.Common.{
  ℕ, ◌+◌, String, Bool, true, false, Option, none, some, List, [], ◌∷◌, ◌==◌, ◌&&◌, not, str_eq,
  if◌then◌else◌, is_some, ltb,
}
use servicedesk.Models.Roles.{
  can, queue_ops, agent_detect, is_engineer, is_system_admin, is_agent_role,
}
use servicedesk.Models.Tickets.{
  TicketStatus, new, Action, pickup, assign as assign_action, Ticket, Queue, Note, Watcher,
  QueueMembership, is_new, is_in_progress, is_resolved, is_closed, is_reopen,
}
use servicedesk.Auth.Claims.{Claims}
use servicedesk.Sla.{due_at}
use servicedesk.Store.{
  Error, record_not_found, forbidden, Result, ok, err, M, pure, fail, fail_if, carry_on, ◌>>=◌,
  ◌>>◌,
}
use servicedesk.Ticket.StateMachine.{next_status}
use servicedesk.Ticket.Desk.{
  Env, Desk, Details, title_details, status_details, assignee_details, mitigated_details,
  ticket_payload, note_payload, status_payload, Metric, mttd, mtta, mttm, mttr, Call, trigger,
  propose, regenerate, observe, get_ticket, touched, update_ticket, call, call_if, log_event,
  fan_out, ignore,
}

pub record CreateTicketInput : Type 0 where
  pub title : String
  pub description : String
  pub priority : String
  pub queue_id : ℕ
  pub category : String
  pub custom_fields : String
  pub service_id : Option ℕ
  pub detected_at : Option ℕ

-- The value, or the default where it is the empty text.
abbrev pub or_default : String → String → String
or_default s d = if str_eq s "" then d else s

-- `DetectedAt` of the input, honoured with the capability only.
abbrev pub detected : Claims → Option ℕ → ℕ → ℕ
detected actor none now = now
detected actor (some t) now = if can actor.role agent_detect then t else now

unfoldable pub new_ticket : Env → Claims → CreateTicketInput → Queue → ℕ → Ticket
new_ticket e actor i q now =
    let priority = or_default i.priority q.default_priority in
    let category = or_default i.category q.default_category in
    record {
      id = 0;
      title = i.title;
      description = i.description;
      priority = priority;
      status = new;
      queue_id = i.queue_id;
      category = category;
      assignee_id = none;
      creator_id = actor.user_id;
      service_id = i.service_id;
      org_id = actor.org_id;
      custom_fields = i.custom_fields;
      sla_due_at = due_at (e.sla_rules q.sla_targets) priority category now;
      sla_breach_notified_at = none;
      detected_at = some (detected actor i.detected_at now);
      acked_at = none;
      mitigated_at = none;
      resolved_at = none;
      reopen_count = 0;
      created_at = now;
      updated_at = now;
    }

get_queue : Env → ℕ → M Desk Queue
get_queue e id d = (d, e.queues_table.first (λ q. q.id == id) d.queues)

create_ticket : Env → Ticket → M Desk Ticket
create_ticket e t d = elim (e.tickets_table.create t d.tickets) [
  | ok (t', rows) ↦ (record d { tickets = rows }, ok t')
  | err x ↦ (d, err x)
]

-- `WatcherRepo.Add`
unfoldable pub add_watcher : Env → ℕ → ℕ → M Desk (Unit {0})
add_watcher e ticket_id user_id d =
    let row : Watcher = record { ticket_id = ticket_id; user_id = user_id } in
    elim (e.watchers_table.first_or_create (λ w. w.ticket_id == ticket_id && w.user_id == user_id)
      row d.watchers) [ ok (_, rows) ↦ (record d { watchers = rows }, ok tt) | err x ↦ (d, err x) ]

unfoldable pub create : Env → ℕ → Claims → CreateTicketInput → M Desk Ticket
unfolding get_queue create_ticket
create e now actor i = do
  q ← get_queue e i.queue_id
  t ← create_ticket e (new_ticket e actor i q now)
  ignore (add_watcher e t.id actor.user_id)
  call (observe mttd (detected actor i.detected_at now) now)
  log_event e now t.id actor "ticket_created" (title_details t.title)
  fan_out e "ticket.created" t.id (ticket_payload t)
  call (trigger "ticket_created" t.id)
  pure t

-- The guard of `Transition`: only an administrator or the creator reopens a closed ticket.
abbrev pub reopen_denied : Claims → Ticket → Action → Bool
reopen_denied actor t action =
    is_closed t.status
    && is_reopen action
    && not (is_system_admin actor.role)
    && not (actor.user_id == t.creator_id)

-- The assignments of `Transition` to the row.
unfoldable pub stamped : Ticket → TicketStatus → Action → ℕ → Ticket
stamped t final action now =
    if is_resolved final
    then record t { status = final; resolved_at = some now }
    else if is_reopen action
    then record t {
      status = final;
      resolved_at = none;
      reopen_count = t.reopen_count + 1;
      sla_breach_notified_at = none;
    }
    else record t { status = final }

-- `metrics.….Observe(now.Sub(*from).Seconds())` where the pointer is not nil.
unfoldable pub observe_since : Metric → Option ℕ → ℕ → M Desk (Unit {0})
observe_since m none now d = (d, ok tt)
observe_since m (some from) now d = call (observe m from now) d

-- The loop over the path that `nextStatus` returns.
unfoldable pub log_path :
    Env → ℕ → ℕ → Claims → Action → String → TicketStatus → List TicketStatus → M Desk (Unit {0})
log_path e now id actor action reason cursor [] d = (d, ok tt)
log_path e now id actor action reason cursor (st ∷ path) d =
    log_path e now id actor action reason st path
      (log_event e now id actor "status_changed" (status_details cursor st action reason) d).0

unfoldable pub transition : Env → ℕ → Claims → ℕ → Action → String → M Desk Ticket
transition e now actor ticket_id action reason = do
  t ← get_ticket e ticket_id
  fail_if (reopen_denied actor t action) forbidden
  (final, path) ← (λ d. (d, next_status t.status action))
  ignore (if is_resolved final then observe_since mttr t.mitigated_at now else pure tt)
  let s = stamped t final action now
  update_ticket e now s
  let t' = touched now s
  call_if (is_resolved final && e.has_kb) (propose t'.id)
  log_path e now t'.id actor action reason t.status path
  fan_out e "ticket.status_changed" t'.id (status_payload t' t.status final)
  call (trigger "status_changed" t'.id)
  pure t'

-- `QueueMembershipRepo.IsMember`
unfoldable pub is_member : Env → ℕ → ℕ → M Desk Bool
is_member e queue_id user_id d =
    elim (e.queue_members_table.count (λ m. m.queue_id == queue_id && m.user_id == user_id)
      d.queue_members) [ ok n ↦ (d, ok (ltb 0 n)) | err x ↦ (d, err x) ]

-- The guard of `assign`: an engineer acts within the queues of the assignee.
unfoldable pub check_membership : Env → Claims → Ticket → ℕ → M Desk (Unit {0})
unfolding is_member
check_membership e actor t assignee =
    if is_engineer actor.role
    then (do member ← is_member e t.queue_id assignee; fail_if (not member) forbidden)
    else pure tt

status_or : Result (TicketStatus × List TicketStatus) → TicketStatus → TicketStatus
status_or (ok (final, path)) s = final
status_or (err x) s = s

-- The first acknowledgement is kept.
abbrev pub first_time : Option ℕ → ℕ → Option ℕ
first_time none now = some now
first_time (some t) now = some t

-- The assignments of `assign` to the row.
unfoldable pub taken : Ticket → ℕ → Action → ℕ → Ticket
unfolding status_or
taken t assignee action now = record t {
  assignee_id = some assignee;
  status = if is_new t.status then status_or (next_status t.status action) t.status else t.status;
  acked_at = first_time t.acked_at now;
}

unfoldable pub assign_as : Env → ℕ → Claims → ℕ → ℕ → Action → M Desk Ticket
assign_as e now actor ticket_id assignee action = do
  t ← get_ticket e ticket_id
  check_membership e actor t assignee
  ignore (if is_some t.acked_at then pure tt else observe_since mtta t.detected_at now)
  let s = taken t assignee action now
  update_ticket e now s
  let t' = touched now s
  log_event e now t'.id actor "assigned" (assignee_details assignee action)
  fan_out e "ticket.assigned" t'.id (ticket_payload t')
  call (trigger "field_updated" t'.id)
  pure t'

-- `Pickup` and `Assign`
unfoldable pub pick_up : Env → ℕ → Claims → ℕ → M Desk Ticket
unfolding assign_as
pick_up e now actor ticket_id = assign_as e now actor ticket_id actor.user_id pickup

unfoldable pub assign : Env → ℕ → Claims → ℕ → ℕ → M Desk Ticket
unfolding assign_as
assign e now actor ticket_id assignee = do
  fail_if (not (can actor.role queue_ops)) forbidden
  assign_as e now actor ticket_id assignee assign_action

-- The optional note of `MarkMitigated`.
unfoldable pub post_note : Env → ℕ → Claims → ℕ → String → M Desk (Unit {0})
post_note e now actor ticket_id body d =
    let n : Note = record {
      id = 0;
      ticket_id = ticket_id;
      author_id = actor.user_id;
      body = body;
      internal = false;
      created_at = now;
    } in
    if str_eq body "" then (d, ok tt) else elim (e.notes_table.create n d.notes) [
      | ok (n', rows) ↦
          (do
            fan_out e "note.added.external" ticket_id (note_payload n')
            call (trigger "note_added" ticket_id)
            call_if e.has_ai_summary (regenerate ticket_id n'.id))
            (record d { notes = rows })
      | err x ↦ (d, ok tt)
    ]

unfoldable pub mark_mitigated : Env → ℕ → Claims → ℕ → String → M Desk Ticket
mark_mitigated e now actor ticket_id note = do
  t ← get_ticket e ticket_id
  fail_if (not (is_in_progress t.status)) forbidden
  let s = record t { mitigated_at = some now }
  ignore (observe_since mttm s.acked_at now)
  update_ticket e now s
  let t' = touched now s
  log_event e now t'.id actor "ticket_mitigated" (mitigated_details (is_agent_role actor.role))
  post_note e now actor ticket_id note
  fan_out e "ticket.mitigated" t'.id (ticket_payload t')
  call (trigger "field_updated" t'.id)
  pure t'
