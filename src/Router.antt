-- ===== src/Router.antt =====
-- internal/httpapi/router.go: `Routes`, the table of the routes with their guards, in its order. A route
-- names its handler; the multiplexer itself is Go's.
pub mod Reach
use servicedesk.Common.{
  ℕ, String, Bool, true, false, Option, none, some, List, [], ◌∷◌, ◌++◌, if◌then◌else◌,
}
use servicedesk.Models.Roles.{Role, engineer, system_admin, queue_ops, sudo}
use servicedesk.Auth.Claims.{Claims}
use servicedesk.Middleware.{Access, Denial, Request, require_auth, require_role, require_capability}

pub data Guard : Type 0 where
  open_to_all protected agent_only admin_only queue_admin_only sudo_only : Guard

pub data Handler : Type 0 where
  handle_login_page handle_login handle_logout handle_tickets_list : Handler
  handle_ticket_new_page handle_custom_fields_for_category handle_ticket_create
        handle_kb_match_symptom :
      Handler
  handle_ticket_detail handle_ticket_transition handle_ticket_pickup handle_ticket_assign : Handler
  handle_ticket_mitigate handle_note_create handle_attachment_upload handle_attachment_download :
      Handler
  handle_watch handle_watchers_add handle_unwatch handle_ticket_service_update : Handler
  handle_label_add handle_label_remove handle_runbook_start handle_workflow_resume : Handler
  handle_approval_decide handle_ai_draft_description handle_ai_draft handle_ai_summary_regenerate :
      Handler
  handle_ai_summary_edit_field handle_ai_summary_regenerate_field handle_queues_list
        handle_queue_create :
      Handler
  handle_queue_delete handle_queue_member_add handle_queue_member_remove handle_queue_sla_update :
      Handler
  handle_manager_dashboard handle_manager_activity handle_problems_list handle_problem_create :
      Handler
  handle_problem_detail handle_problem_link handle_kb_list handle_kb_review : Handler
  handle_kb_detail handle_kb_update handle_kb_approve handle_kb_delete : Handler
  handle_admin_index handle_orgs_list handle_org_create handle_org_member_add : Handler
  handle_org_member_remove handle_webhooks_list handle_webhook_create handle_webhook_delete :
      Handler
  handle_workflows_list handle_workflow_create handle_users_list handle_user_create : Handler
  handle_user_role_update handle_user_issue_api_token handle_custom_fields_list
        handle_custom_field_create :
      Handler
  handle_services_list handle_service_create handle_service_update handle_service_delete : Handler
  handle_categories_list handle_category_create handle_category_update handle_category_delete :
      Handler
  handle_sudo_start handle_sudo_stop handle_audit_log handle_demo_reset : Handler
  hub_handler handle_health metrics_handler static_files : Handler
  landing : Handler

pub record Route : Type 0 where
  pub pattern : String
  pub guard : Guard
  pub handler : Handler

abbrev route : String → Guard → Handler → Route
route p g h = record { pattern = p; guard = g; handler = h }

unfoldable pub base_routes : List Route
base_routes =
    route "GET /login" open_to_all handle_login_page
    ∷ route "POST /login" open_to_all handle_login
    ∷ route "POST /logout" protected handle_logout
    ∷ route "GET /tickets" protected handle_tickets_list
    ∷ route "GET /tickets/new" protected handle_ticket_new_page
    ∷ route "GET /custom-fields/for-category" protected handle_custom_fields_for_category
    ∷ route "POST /tickets" protected handle_ticket_create
    ∷ route "POST /tickets/match-symptom" protected handle_kb_match_symptom
    ∷ route "GET /tickets/{id}" protected handle_ticket_detail
    ∷ route "POST /tickets/{id}/transition" protected handle_ticket_transition
    ∷ route "POST /tickets/{id}/pickup" agent_only handle_ticket_pickup
    ∷ route "POST /tickets/{id}/assign" queue_admin_only handle_ticket_assign
    ∷ route "POST /tickets/{id}/mitigate" agent_only handle_ticket_mitigate
    ∷ route "POST /tickets/{id}/notes" protected handle_note_create
    ∷ route "POST /tickets/{id}/attachments" protected handle_attachment_upload
    ∷ route "GET /attachments/{id}" protected handle_attachment_download
    ∷ route "POST /tickets/{id}/watch" protected handle_watch
    ∷ route "POST /tickets/{id}/watchers" protected handle_watchers_add
    ∷ route "POST /tickets/{id}/unwatch" protected handle_unwatch
    ∷ route "POST /tickets/{id}/service" agent_only handle_ticket_service_update
    ∷ route "POST /tickets/{id}/labels" agent_only handle_label_add
    ∷ route "POST /tickets/{id}/labels/{tagID}/delete" agent_only handle_label_remove
    ∷ route "POST /tickets/{id}/runbooks/{workflowID}/start" agent_only handle_runbook_start
    ∷ route "POST /workflow-tasks/{id}/resume" agent_only handle_workflow_resume
    ∷ route "POST /approvals/{id}/decide" agent_only handle_approval_decide
    ∷ route "GET /queues" agent_only handle_queues_list
    ∷ route "POST /queues" queue_admin_only handle_queue_create
    ∷ route "POST /queues/{id}/delete" queue_admin_only handle_queue_delete
    ∷ route "POST /queues/{id}/members" queue_admin_only handle_queue_member_add
    ∷ route "POST /queues/{id}/members/{userID}/remove" queue_admin_only handle_queue_member_remove
    ∷ route "POST /queues/{id}/sla" queue_admin_only handle_queue_sla_update
    ∷ route "GET /manager" queue_admin_only handle_manager_dashboard
    ∷ route "GET /manager/activity" queue_admin_only handle_manager_activity
    ∷ route "GET /problems" agent_only handle_problems_list
    ∷ route "POST /problems" agent_only handle_problem_create
    ∷ route "GET /problems/{id}" agent_only handle_problem_detail
    ∷ route "POST /problems/{id}/link" agent_only handle_problem_link
    ∷ route "GET /kb" protected handle_kb_list
    ∷ route "GET /kb/review" agent_only handle_kb_review
    ∷ route "GET /kb/{id}" protected handle_kb_detail
    ∷ route "POST /kb/{id}" agent_only handle_kb_update
    ∷ route "POST /kb/{id}/approve" agent_only handle_kb_approve
    ∷ route "POST /kb/{id}/delete" agent_only handle_kb_delete
    ∷ route "GET /admin" admin_only handle_admin_index
    ∷ route "GET /admin/orgs" admin_only handle_orgs_list
    ∷ route "POST /admin/orgs" admin_only handle_org_create
    ∷ route "POST /admin/orgs/{id}/members" admin_only handle_org_member_add
    ∷ route "POST /admin/orgs/{id}/members/{userID}/remove" admin_only handle_org_member_remove
    ∷ route "GET /admin/webhooks" admin_only handle_webhooks_list
    ∷ route "POST /admin/webhooks" admin_only handle_webhook_create
    ∷ route "POST /admin/webhooks/{id}/delete" admin_only handle_webhook_delete
    ∷ route "GET /admin/workflows" admin_only handle_workflows_list
    ∷ route "POST /admin/workflows" admin_only handle_workflow_create
    ∷ route "GET /admin/users" admin_only handle_users_list
    ∷ route "POST /admin/users" admin_only handle_user_create
    ∷ route "POST /admin/users/{id}/role" admin_only handle_user_role_update
    ∷ route "POST /admin/users/{id}/api-token" admin_only handle_user_issue_api_token
    ∷ route "GET /admin/custom-fields" admin_only handle_custom_fields_list
    ∷ route "POST /admin/custom-fields" admin_only handle_custom_field_create
    ∷ route "GET /admin/services" admin_only handle_services_list
    ∷ route "POST /admin/services" admin_only handle_service_create
    ∷ route "POST /admin/services/{id}" admin_only handle_service_update
    ∷ route "POST /admin/services/{id}/delete" admin_only handle_service_delete
    ∷ route "GET /admin/categories" admin_only handle_categories_list
    ∷ route "POST /admin/categories" admin_only handle_category_create
    ∷ route "POST /admin/categories/{id}" admin_only handle_category_update
    ∷ route "POST /admin/categories/{id}/delete" admin_only handle_category_delete
    ∷ route "POST /admin/users/{id}/sudo/start" sudo_only handle_sudo_start
    ∷ route "POST /admin/sudo/stop" protected handle_sudo_stop
    ∷ route "GET /admin/audit" admin_only handle_audit_log
    ∷ route "GET /events" protected hub_handler
    ∷ route "GET /health" open_to_all handle_health
    ∷ route "GET /metrics" open_to_all metrics_handler
    ∷ route "GET /static/" open_to_all static_files
    ∷ route "GET /" protected landing
    ∷ []

-- Registered only with a language model.
unfoldable pub ai_routes : List Route
ai_routes =
    route "POST /tickets/draft-description" protected handle_ai_draft_description
    ∷ route "POST /tickets/{id}/ai-draft" agent_only handle_ai_draft
    ∷ route "POST /tickets/{id}/ai-summary/regenerate" agent_only handle_ai_summary_regenerate
    ∷ route "POST /tickets/{id}/ai-summary/{field}/edit" agent_only handle_ai_summary_edit_field
    ∷ route "POST /tickets/{id}/ai-summary/{field}/regenerate" agent_only
        handle_ai_summary_regenerate_field
    ∷ []

-- Registered only in demo mode.
unfoldable pub demo_routes : List Route
demo_routes = route "POST /admin/demo/reset" admin_only handle_demo_reset ∷ []

unfoldable pub routes : Bool → Bool → List Route
unfolding base_routes ai_routes demo_routes
routes ai_enabled demo_mode =
    base_routes ++ (if ai_enabled then ai_routes else []) ++ (if demo_mode then demo_routes else [])

module _ {A : Type 0} (deny : Denial → A) (a : Access) (now : ℕ) (r : Request) where
  -- A handler behind a guard; the context has claims where the guard asks for a session.
  unfoldable pub guarded : Guard → (Option Claims → A) → A
  guarded open_to_all next = next none
  guarded protected next = require_auth deny a now r (λ c. next (some c))
  guarded agent_only next =
      require_auth deny a now r (λ c. require_role deny engineer (λ c. next (some c)) (some c))
  guarded admin_only next =
      require_auth deny a now r (λ c. require_role deny system_admin (λ c. next (some c)) (some c))
  guarded queue_admin_only next =
      require_auth deny a now r
        (λ c. require_capability deny queue_ops (λ c. next (some c)) (some c))
  guarded sudo_only next =
      require_auth deny a now r (λ c. require_capability deny sudo (λ c. next (some c)) (some c))
