-- ===== src/Tests/Pages.antt =====
-- Runs of the handlers, the routes and the lists.
use servicedesk.Common.{
  arith, is_empty, has_prefix, after_prefix, eq_iff, ==_iff, Bool-cases, ℕ, String, Bool, true,
  false, Option, none, some, List, [], ◌∷◌, ◌≡◌, refl, ◌⊎◌, inl, inr, All, ◌≤◌, length, ◌+◌, ◌*◌,
  ◌&&◌, ◌==◌, find_first, str_eq, if◌then◌else◌,
}
use servicedesk.Models.Roles.{is_agent, capability_roles, customer, can, queue_ops}
use servicedesk.Models.Tickets.{Ticket, Queue, new}
use servicedesk.Sla.{Rule, minute}
use servicedesk.Store.{Error, forbidden, Result, ok, err}
use servicedesk.Store.Memory.{memory_keeps, memory, memory-IsTable}
use servicedesk.Ticket.Desk.{Env, Desk}
use servicedesk.Ticket.Lifecycle.{new_ticket}
use servicedesk.Visibility.{in_scope, customer_can_see_ticket}
use servicedesk.Handlers.{handle_watch}
use servicedesk.Handlers.Exposure.{watch-reveals}
use servicedesk.Queues.{handle_queue_sla_update}
use servicedesk.Queues.Targets.{targets-followed}
use servicedesk.Listing.{Search, Query, load_tickets_list}
use servicedesk.Listing.Opens.{Opens, load_tickets_list-Opens}
use servicedesk.Middleware.{Access, Request, credential, bearer_token, cookie_value}
use servicedesk.Middleware.Credentials.{Authenticated, by_session}
use servicedesk.Auth.Sessions.{parse_token}
use servicedesk.Auth.Tokens.{parse_api_token}
use servicedesk.Router.{Handler, routes}
use servicedesk.Router.Reach.{Answer, for_customers, routes-customers}
use servicedesk.Tests.Fixtures.{an_env, an_input, desk, session, ticket, a_customer, a_manager}

-- The rules of a queue as text, for one set of rules.
abbrev four_hours : List Rule
four_hours =
    record { priority = "P1"; category = ""; minutes = 10 }
    ∷ record { priority = "P2"; category = ""; minutes = 20 }
    ∷ record { priority = "P3"; category = ""; minutes = 30 }
    ∷ record { priority = "P4"; category = ""; minutes = 40 }
    ∷ []

minutes_form : String → Option ℕ
minutes_form p =
    if str_eq p "P1"
    then some 10
    else if str_eq p "P2"
    then some 20
    else if str_eq p "P3"
    then some 30
    else some 40

watch-reveals_example :
    ((x : Error) × (an_env.watchers_table.first_or_create
          (λ w. w.ticket_id == 1 && w.user_id == 5)
          (record { ticket_id = 1; user_id = 5 })
          []
        ≡ err x))
    ⊎ (customer_can_see_ticket an_env.watchers_table
          (session customer 5)
          (ticket 1 new)
          (handle_watch an_env (session customer 5) (some 1) (desk (ticket 1 new ∷ []))).0.watchers
        ≡ true)
unfolding memory
watch-reveals_example =
    watch-reveals an_env (memory_keeps (λ w. 0)) (session customer 5) (ticket 1 new)
      (desk (ticket 1 new ∷ [])) (λ rows p. refl) refl

abbrev search : Search
search = record { matches_text = λ s t. true; by_update = λ ts. ts; status_text = λ s. "New" }

abbrev a_query : Query
a_query = record {
  status = "New";
  priority = "";
  queue_id = none;
  label = "";
  text = "";
  view = "mine-created";
}

load_tickets_list-Opens_example :
    (length (ticket 1 new ∷ []) ≤ 100)
    × All (Opens an_env a_customer (desk (ticket 1 new ∷ []))) (ticket 1 new ∷ [])
unfolding load_tickets_list memory is_empty in_scope
load_tickets_list-Opens_example =
    load_tickets_list-Opens an_env search a_customer a_query (desk (ticket 1 new ∷ []))
      (ticket 1 new ∷ [])
      (memory-IsTable (λ (t : Ticket). t.id) (λ i t. record t { id = i })).find_ok (λ P ts h. h)
      (λ p. refl) refl

same_rules : List Rule → List Rule → Bool
same_rules [] [] = true
same_rules [] (r ∷ rs) = false
same_rules (r ∷ rs) [] = false
same_rules (r ∷ rs) (q ∷ qs) =
    str_eq r.priority q.priority
    && (str_eq r.category q.category && (r.minutes == q.minutes && same_rules rs qs))

both_true : (a b : Bool) → (a && b) ≡ true → (a ≡ true) × (b ≡ true)
both_true true b h = (refl, h)
both_true false b h = absurd (cc)

same_rules_sound : (rs qs : List Rule) → same_rules rs qs ≡ true → qs ≡ rs
unfolding same_rules
same_rules_sound [] [] h = refl
same_rules_sound [] (r ∷ rs) h = absurd (cc)
same_rules_sound (r ∷ rs) [] h = absurd (cc)
same_rules_sound (r ∷ rs) (q ∷ qs) h =
    let (a, h1) =
      both_true (str_eq r.priority q.priority)
        (str_eq r.category q.category && (r.minutes == q.minutes && same_rules rs qs)) h in
    let (b, h2) =
      both_true (str_eq r.category q.category) (r.minutes == q.minutes && same_rules rs qs) h1 in
    let (c, h3) = both_true (r.minutes == q.minutes) (same_rules rs qs) h2 in
    cc (
      (eq_iff r.priority q.priority).0 a,
      (eq_iff r.category q.category).0 b,
      (==_iff r.minutes q.minutes).0 c,
      same_rules_sound rs qs h3,
    )

four_env : Env
four_env = record an_env { sla_rules = λ s. four_hours }

encode_four : List Rule → Result String
unfolding same_rules
encode_four table = if same_rules table four_hours then ok "four" else err forbidden

encodes :
    (table : List Rule) (blob : String)
    → encode_four table ≡ ok blob
    → four_env.sla_rules blob ≡ table
unfolding encode_four four_env
encodes table blob h = elim (Bool-cases (same_rules table four_hours)) [
  | inl y ↦ same_rules_sound table four_hours y
  | inr n ↦ absurd (cc (rw (n, encode_four) at h))
]

targets_desk : Desk
unfolding four_env encode_four minutes_form handle_queue_sla_update
targets_desk =
    (handle_queue_sla_update four_env encode_four a_manager (some 1) minutes_form (desk [])).0

targets-followed_example :
    (q : Queue) × (find_first (λ (q : Queue). q.id == 1) targets_desk.queues ≡ some q)
    × (can a_manager.role queue_ops ≡ true)
    × ((new_ticket four_env a_customer (record an_input { priority = "P2" }) q 7).sla_due_at
        ≡ some (7 + 20 * minute))
unfolding targets_desk four_env encode_four minutes_form handle_queue_sla_update memory can
    capability_roles
targets-followed_example =
    targets-followed four_env (memory-IsTable (λ (q : Queue). q.id) (λ i q. record q { id = i }))
      encode_four encodes a_manager 1 (desk []) targets_desk minutes_form refl a_customer
      (record an_input { priority = "P2" }) 7 20 (inr (inl refl)) refl (omega arith)

guest_access : Access
guest_access = record {
  digests = record { sha256 = λ s. []; hex = λ b. "" };
  jwt = record {
    sign = λ key c. err forbidden;
    parse_with_claims = λ now token key_of. ok (
      record {
        claims = a_customer;
        registered = record { issuer = ""; subject = ""; issued_at = 0; expires_at = 9 };
      },
      true,
    );
  };
  manager = record { secret = "k"; issuer = "sd"; ttl = 9 };
  lookup_api_token = none;
}

abbrev guest_request : Request
guest_request = record {
  authorization = "";
  accepts_json = false;
  sd_token = some "eyJ";
  sd_return_token = none;
}

guest : Authenticated guest_access 1 guest_request a_customer
unfolding credential bearer_token cookie_value guest_access parse_token parse_api_token is_empty
    has_prefix after_prefix
guest = by_session a_customer refl refl refl

outside : is_agent a_customer.role ≡ false
unfolding is_agent
outside = refl

routes-customers_example :
    All
      (λ route.
        Answer {A = Option Handler}
          (λ d. none)
          guest_access
          1
          guest_request
          a_customer
          guest
          outside
          (λ h c. some h)
          (for_customers route.handler)
          route)
      (routes true false)
routes-customers_example =
    routes-customers (λ d. none) guest_access 1 guest_request a_customer guest outside
      (λ h c. some h) true false
