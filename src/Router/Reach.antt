-- ===== src/Router/Reach.antt =====
-- What a session that is not staff reaches.
use servicedesk.Common.{
  String, ◌&&◌, Bool-cases, subst, ℕ, Bool, true, false, Option, none, some, List, [], ◌∷◌, ◌≡◌,
  refl, sym, ◌∙◌, ◌⊎◌, inl, inr, All, not,
}
use servicedesk.Models.Roles.{
  Role, customer, engineer, manager, system_admin, agent, other_role, is_agent, at_least, can,
  queue_ops, sudo, rank, capability_roles,
}
use servicedesk.Auth.Claims.{Claims}
use servicedesk.Middleware.{
  Access, Denial, forbidden_text, Request, require_role, require_capability,
}
use servicedesk.Middleware.Credentials.{Authenticated, require_auth-Authenticated}
use servicedesk.Router.{
  Guard, open_to_all, protected, agent_only, admin_only, queue_admin_only, sudo_only, Handler,
  Route, routes, base_routes, ai_routes, demo_routes, guarded, handle_login_page, handle_login,
  handle_logout, handle_tickets_list, handle_ticket_new_page, handle_custom_fields_for_category,
  handle_ticket_create, handle_kb_match_symptom, handle_ticket_detail, handle_ticket_transition,
  handle_note_create, handle_attachment_upload, handle_attachment_download, handle_watch,
  handle_watchers_add, handle_unwatch, handle_kb_list, handle_kb_detail, handle_sudo_stop,
  hub_handler, handle_health, metrics_handler, static_files, landing, handle_ai_draft_description,
}

-- The handlers for everybody: the login, the static parts, and what a customer works with.
unfoldable pub for_customers : Handler → Bool
for_customers handle_login_page = true
for_customers handle_login = true
for_customers handle_logout = true
for_customers handle_tickets_list = true
for_customers handle_ticket_new_page = true
for_customers handle_custom_fields_for_category = true
for_customers handle_ticket_create = true
for_customers handle_kb_match_symptom = true
for_customers handle_ticket_detail = true
for_customers handle_ticket_transition = true
for_customers handle_note_create = true
for_customers handle_attachment_upload = true
for_customers handle_attachment_download = true
for_customers handle_watch = true
for_customers handle_watchers_add = true
for_customers handle_unwatch = true
for_customers handle_kb_list = true
for_customers handle_kb_detail = true
for_customers handle_sudo_stop = true
for_customers hub_handler = true
for_customers handle_health = true
for_customers metrics_handler = true
for_customers static_files = true
for_customers landing = true
for_customers handle_ai_draft_description = true
for_customers _ = false

passes : Guard → Bool
passes open_to_all = true
passes protected = true
passes _ = false

outsiders :
    (r : Role)
    → is_agent r ≡ false
    → (at_least r engineer ≡ false)
      × (at_least r system_admin ≡ false)
      × (can r queue_ops ≡ false)
      × (can r sudo ≡ false)
unfolding is_agent at_least rank can capability_roles
outsiders customer h = (refl, refl, refl, refl)
outsiders engineer h = absurd (cc)
outsiders manager h = absurd (cc)
outsiders system_admin h = absurd (cc)
outsiders agent h = absurd (cc)
outsiders (other_role s) h = (refl, refl, refl, refl)

-- Whether the guards of a table are those that the list of handlers asks for.
agree : List Route → Bool
unfolding passes for_customers
agree [] = true
agree (r ∷ rs) = same (passes r.guard) (for_customers r.handler) && agree rs
  where
    same : Bool → Bool → Bool
    same true b = b
    same false b = not b

agree-All :
    (rs : List Route)
    → agree rs ≡ true
    → All (λ (r : Route). passes r.guard ≡ for_customers r.handler) rs
unfolding agree
agree-All [] h = tt
agree-All (r ∷ rs) h = elim (Bool-cases (passes r.guard)) [
  | inl y ↦ elim (Bool-cases (for_customers r.handler)) [
    | inl z ↦ (y ∙ sym z, agree-All rs (rw (y, z) at h))
    | inr z ↦ absurd (cc (rw (y, z) at h))
  ]
  | inr y ↦ elim (Bool-cases (for_customers r.handler)) [
    | inl z ↦ absurd (cc (rw (y, z) at h))
    | inr z ↦ (y ∙ sym z, agree-All rs (rw (y, z) at h))
  ]
]

tables : (ai_enabled demo_mode : Bool) → agree (routes ai_enabled demo_mode) ≡ true
unfolding routes base_routes ai_routes demo_routes agree passes for_customers
tables true true = refl
tables true false = refl
tables false true = refl
tables false false = refl

module _ {A : Type 0} (deny : Denial → A) (a : Access) (now : ℕ) (r : Request) (c : Claims)
    (session : Authenticated a now r c) (outside : is_agent c.role ≡ false)
    (next : Handler → Option Claims → A) where
  -- The handler runs, with the session or, on an open route, without one.
  unfoldable pub Served : Route → Type 0
  Served route =
      (guarded deny a now r route.guard (next route.handler) ≡ next route.handler none)
      ⊎ (guarded deny a now r route.guard (next route.handler) ≡ next route.handler (some c))

  unfoldable pub Answer : Bool → Route → Type 0
  unfolding Served
  Answer true route = Served route
  Answer false route = guarded deny a now r route.guard (next route.handler) ≡ deny forbidden_text

  answered :
      (g : Guard) (h : Handler) (pattern : String)
      → Answer (passes g) (record { pattern = pattern; guard = g; handler = h })
  unfolding Answer passes guarded require_role require_capability
  answered open_to_all h p = inl refl
  answered protected h p =
      inr (require_auth-Authenticated a now r deny (λ c. next h (some c)) c session)
  answered agent_only h p =
      require_auth-Authenticated a now r deny
        (λ c. require_role deny engineer (λ c. next h (some c)) (some c)) c session
      ∙ rw (outsiders c.role outside).0 refl
  answered admin_only h p =
      require_auth-Authenticated a now r deny
        (λ c. require_role deny system_admin (λ c. next h (some c)) (some c)) c session
      ∙ rw (outsiders c.role outside).1 refl
  answered queue_admin_only h p =
      require_auth-Authenticated a now r deny
        (λ c. require_capability deny queue_ops (λ c. next h (some c)) (some c)) c session
      ∙ rw (outsiders c.role outside).2 refl
  answered sudo_only h p =
      require_auth-Authenticated a now r deny
        (λ c. require_capability deny sudo (λ c. next h (some c)) (some c)) c session
      ∙ rw (outsiders c.role outside).3 refl

  All-answered :
      (rs : List Route)
      → All (λ (r : Route). passes r.guard ≡ for_customers r.handler) rs
      → All (λ route. Answer (for_customers route.handler) route) rs
  All-answered [] h = tt
  All-answered (route ∷ rs) h = (
    subst (λ b. Answer b route) h.0 (answered route.guard route.handler route.pattern),
    All-answered rs h.1,
  )

  -- Whatever the configuration, a session whose role is not staff, an unknown role included, reaches
  -- exactly the handlers for everybody: on every other route of the table it is answered that the
  -- request is forbidden, and the handler does not run.
  pub routes-customers :
      (ai_enabled demo_mode : Bool)
      → All (λ route. Answer (for_customers route.handler) route) (routes ai_enabled demo_mode)
  routes-customers ai_enabled demo_mode =
      All-answered (routes ai_enabled demo_mode)
        (agree-All (routes ai_enabled demo_mode) (tables ai_enabled demo_mode))
