-- ===== src/Queues.antt =====
-- internal/service/queue.go, internal/repo/queue.go, internal/repo/queue_membership.go and
-- internal/httpapi/queue_handlers.go: queues, their members and their SLA rules. The JSON text of the
-- rules is decoded by the tables' parameter `sla_rules`, and made by a parameter here.
pub mod Targets
use servicedesk.Common.{
  ℕ, zero, suc, String, Bool, true, false, Option, none, some, List, [], ◌∷◌, ◌⊎◌, inl, inr, ◌&&◌,
  not, if◌then◌else◌, ◌==◌, str_eq, is_empty,
}
use servicedesk.Models.Roles.{queue_ops, can}
use servicedesk.Models.Tickets.{Queue, QueueMembership}
use servicedesk.Auth.Claims.{Claims}
use servicedesk.Sla.{Rule, evaluate}
use servicedesk.Store.{Error, forbidden, Result, ok, err, M}
use servicedesk.Ticket.Desk.{Env, Desk}
use servicedesk.Http.{
  Response, Handled, http_error, not_found, redirect, page, plain, error_text, after_call,
}

unfoldable pub get_queue : Env → ℕ → Desk → Result Queue
get_queue e id d = e.queues_table.first (λ q. q.id == id) d.queues

unfoldable pub update_queue : Env → Queue → M Desk (Unit {0})
update_queue e q d = elim (e.queues_table.save q d.queues) [
  | ok rows ↦ (record d { queues = rows }, ok tt)
  | err x ↦ (d, err x)
]

-- The column defaults of `models.Queue`, which gorm's `Create` puts in place of empty texts.
unfoldable pub with_defaults : Queue → Queue
with_defaults q = record q {
  default_priority = if is_empty q.default_priority then "P3" else q.default_priority;
  sla_targets = if is_empty q.sla_targets then "{}" else q.sla_targets;
}

unfoldable pub create_queue : Env → Queue → M Desk (Unit {0})
unfolding with_defaults
create_queue e q d = elim (e.queues_table.create (with_defaults q) d.queues) [
  | ok (_, rows) ↦ (record d { queues = rows }, ok tt)
  | err x ↦ (d, err x)
]

unfoldable pub delete_queue : Env → ℕ → M Desk (Unit {0})
delete_queue e id d = elim (e.queues_table.delete (λ q. q.id == id) d.queues) [
  | ok rows ↦ (record d { queues = rows }, ok tt)
  | err x ↦ (d, err x)
]

abbrev is_membership : ℕ → ℕ → QueueMembership → Bool
is_membership queue_id user_id m = m.queue_id == queue_id && m.user_id == user_id

unfoldable pub add_member : Env → ℕ → ℕ → M Desk (Unit {0})
add_member e queue_id user_id d =
    elim (e.queue_members_table.first_or_create (is_membership queue_id user_id)
      (record { queue_id = queue_id; user_id = user_id }) d.queue_members) [
        | ok (_, rows) ↦ (record d { queue_members = rows }, ok tt)
        | err x ↦ (d, err x)
      ]

unfoldable pub remove_member : Env → ℕ → ℕ → M Desk (Unit {0})
remove_member e queue_id user_id d =
    elim (e.queue_members_table.delete (is_membership queue_id user_id) d.queue_members) [
      | ok rows ↦ (record d { queue_members = rows }, ok tt)
      | err x ↦ (d, err x)
    ]

-- `QueueService.SLATable`
unfoldable pub sla_table : Env → ℕ → Desk → Result (List Rule)
unfolding get_queue
sla_table e queue_id d = elim (get_queue e queue_id d) [
  | ok q ↦ ok (e.sla_rules q.sla_targets)
  | err x ↦ err x
]

with_rules : Env → Queue → Result String → M Desk (Unit {0})
unfolding update_queue
with_rules e q (ok blob) d = update_queue e (record q { sla_targets = blob }) d
with_rules e q (err x) d = (d, err x)

-- `QueueService.SetSLATable`
unfoldable pub set_sla_table :
    Env → (List Rule → Result String) → Claims → ℕ → List Rule → M Desk (Unit {0})
unfolding with_rules get_queue
set_sla_table e encode actor queue_id table d =
    if not (can actor.role queue_ops) then (d, err forbidden) else elim (get_queue e queue_id d) [
      | err x ↦ (d, err x)
      | ok q ↦ with_rules e q (encode table) d
    ]

unfoldable pub priorities : List String
priorities = "P1" ∷ "P2" ∷ "P3" ∷ "P4" ∷ []

or_zero : Option ℕ → ℕ
or_zero none = 0
or_zero (some n) = n

values_for : List Rule → List String → List (String × ℕ)
unfolding or_zero
values_for table [] = []
values_for table (p ∷ ps) = (p, or_zero (evaluate table p "")) ∷ values_for table ps

-- The minutes that the form shows.
unfoldable pub sla_form_values : List Rule → List (String × ℕ)
unfolding values_for priorities
sla_form_values table = values_for table priorities

with_row : String → Option ℕ → String ⊎ List Rule → String ⊎ List Rule
with_row p none rest = inl p
with_row p (some zero) rest = inl p
with_row p (some (suc n)) (inl q) = inl q
with_row p (some (suc n)) (inr rules) =
    inr (record { priority = p; category = ""; minutes = suc n } ∷ rules)

-- The rows of a form, or the first priority whose minutes are not a positive number. The form gives
-- the number of a field, if it is one and not negative.
unfoldable pub rows_of : (String → Option ℕ) → List String → String ⊎ List Rule
unfolding with_row
rows_of form [] = inr []
rows_of form (p ∷ ps) = with_row p (form p) (rows_of form ps)

store_rules :
    Env → (List Rule → Result String) → Claims → ℕ → String ⊎ List Rule → Desk → Handled Desk
unfolding set_sla_table
store_rules e encode actor queue_id (inl p) d = (d, http_error 400 (plain p))
store_rules e encode actor queue_id (inr table) d =
    after_call (set_sla_table e encode actor queue_id table d)
      (λ x d. (d, http_error 400 (error_text "" x))) (λ _ d. (d, redirect "/queues"))

unfoldable pub handle_queue_sla_update :
    Env
    → (List Rule → Result String)
    → Claims
    → Option ℕ
    → (String → Option ℕ)
    → Desk
    → Handled Desk
unfolding store_rules rows_of priorities
handle_queue_sla_update e encode actor none form d = (d, not_found)
handle_queue_sla_update e encode actor (some queue_id) form d =
    store_rules e encode actor queue_id (rows_of form priorities) d

-- The form of a new queue; the parent is absent where its field is empty or not a number.
pub record QueueForm : Type 0 where
  pub name : String
  pub default_priority : String
  pub default_category : String
  pub parent_id : Option ℕ

unfoldable pub handle_queue_create : Env → QueueForm → Desk → Handled Desk
unfolding create_queue
handle_queue_create e form d =
    after_call
      (create_queue e
        (record {
          id = 0;
          name = form.name;
          parent_id = form.parent_id;
          default_priority = form.default_priority;
          default_category = form.default_category;
          sla_targets = "";
        })
        d)
      (λ x d. (d, page "queues" (error_text "" x))) (λ _ d. (d, redirect "/queues"))

unfoldable pub handle_queue_delete : Env → Option ℕ → Desk → Handled Desk
unfolding delete_queue
handle_queue_delete e none d = (d, not_found)
handle_queue_delete e (some id) d =
    after_call (delete_queue e id d) (λ x d. (d, http_error 500 (plain "could not delete queue")))
      (λ _ d. (d, redirect "/queues"))

unfoldable pub handle_queue_member_add : Env → Option ℕ → Option ℕ → Desk → Handled Desk
unfolding add_member
handle_queue_member_add e none user_id d = (d, not_found)
handle_queue_member_add e (some queue_id) none d = (d, http_error 400 (plain "invalid user id"))
handle_queue_member_add e (some queue_id) (some user_id) d =
    after_call (add_member e queue_id user_id d)
      (λ x d. (d, http_error 500 (plain "could not add member"))) (λ _ d. (d, redirect "/queues"))

unfoldable pub handle_queue_member_remove : Env → Option ℕ → Option ℕ → Desk → Handled Desk
unfolding remove_member
handle_queue_member_remove e none user_id d = (d, not_found)
handle_queue_member_remove e (some queue_id) none d = (d, not_found)
handle_queue_member_remove e (some queue_id) (some user_id) d =
    after_call (remove_member e queue_id user_id d)
      (λ x d. (d, http_error 500 (plain "could not remove member")))
      (λ _ d. (d, redirect "/queues"))
