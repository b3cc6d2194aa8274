-- ===== src/Listing.antt =====
-- `TicketRepo.List` (internal/repo/ticket.go) and `loadTicketsList` of
-- internal/httpapi/ticket_handlers.go: the tickets that a session is shown. The full text search, the
-- order of the rows and the text of a status are the database's own: parameters.
pub mod Opens
use servicedesk.Common.{
  ℕ, zero, suc, String, Bool, true, false, Option, none, some, List, [], ◌∷◌, ◌&&◌, ◌||◌, not,
  if◌then◌else◌, ◌==◌, ltb, any, str_eq, points_to, is_empty, map,
}
use servicedesk.Models.Tickets.{TicketStatus, Ticket, QueueMembership}
use servicedesk.Auth.Claims.{Claims}
use servicedesk.Store.{Error, Result, ok, err}
use servicedesk.Ticket.Desk.{Env, Desk}
use servicedesk.Visibility.{CustomerScope, in_scope, scope_of}

pub record Search : Type 0 where
  pub matches_text : String → Ticket → Bool
  pub by_update : List Ticket → List Ticket
  pub status_text : TicketStatus → String

pub record ListFilter : Type 0 where
  pub status : List String
  pub priority : List String
  pub queue_id : Option ℕ
  pub queue_ids : List ℕ
  pub category : String
  pub label : String
  pub assignee_id : Option ℕ
  pub creator_id : Option ℕ
  pub watcher_id : Option ℕ
  pub query : String
  pub limit : ℕ
  pub offset : ℕ
  pub customer_scope : Option CustomerScope

-- A condition that is added only for a list that is not empty, and `IN` over the list.
unfoldable pub in_texts : List String → String → Bool
in_texts [] s = true
in_texts (x ∷ xs) s = any (λ y. str_eq y s) (x ∷ xs)

unfoldable pub in_ids : List ℕ → ℕ → Bool
in_ids [] n = true
in_ids (x ∷ xs) n = any (λ y. y == n) (x ∷ xs)

-- A condition on a text that is added only where the text is not empty.
unfoldable pub if_given : String → Bool → Bool
if_given s b = is_empty s || b

-- A condition on a pointer that is added only where it is not nil.
unfoldable pub if_set : Option ℕ → (ℕ → Bool) → Bool
if_set none test = true
if_set (some n) test = test n

-- The joins with the watchers and with the tags.
watched_by : Desk → Ticket → ℕ → Bool
watched_by d t user_id = any (λ w. w.ticket_id == t.id && w.user_id == user_id) d.watchers

has_label : Desk → Ticket → String → Bool
has_label d t name =
    any (λ m. m.ticket_id == t.id && any (λ g. g.id == m.tag_id && str_eq g.name name) d.tags)
      d.ticket_tags

-- The conditions of a filter, but for the scope.
unfoldable pub filtered : Search → ListFilter → Desk → Ticket → Bool
unfolding in_texts in_ids if_given if_set watched_by has_label
filtered s f d t =
    in_texts f.status (s.status_text t.status)
    && in_texts f.priority t.priority
    && if_set f.queue_id (λ n. t.queue_id == n)
    && in_ids f.queue_ids t.queue_id
    && if_given f.category (str_eq t.category f.category)
    && if_set f.assignee_id (points_to t.assignee_id)
    && if_set f.creator_id (λ n. t.creator_id == n)
    && if_set f.watcher_id (watched_by d t)
    && if_given f.label (has_label d t f.label)
    && if_given f.query (s.matches_text f.query t)

unfoldable pub matches : Search → ListFilter → Desk → Ticket → Bool
unfolding filtered
matches s f d t = filtered s f d t && in_scope f.customer_scope d.watchers t

unfoldable pub take : ℕ → List Ticket → List Ticket
take zero ts = []
take (suc n) [] = []
take (suc n) (t ∷ ts) = t ∷ take n ts

unfoldable pub drop : ℕ → List Ticket → List Ticket
drop zero ts = ts
drop (suc n) [] = []
drop (suc n) (t ∷ ts) = drop n ts

unfoldable pub page : ListFilter → List Ticket → List Ticket
unfolding take drop
page f ts = if ltb 0 f.limit then take f.limit (drop f.offset ts) else ts

-- `TicketRepo.List`
unfoldable pub list : Env → Search → ListFilter → Desk → Result (List Ticket)
unfolding matches page
list e s f d = elim (e.tickets_table.find (matches s f d) d.tickets) [
  | ok found ↦ ok (page f (s.by_update found))
  | err x ↦ err x
]

-- The query of the page; the queue is absent where its field is empty or not a number.
pub record Query : Type 0 where
  pub status : String
  pub priority : String
  pub queue_id : Option ℕ
  pub label : String
  pub text : String
  pub view : String

unfoldable pub one_text : String → List String
one_text s = if is_empty s then [] else s ∷ []

-- The queues of a user; a lookup that fails gives none.
unfoldable pub list_queue_ids_for_user : Env → ℕ → Desk → List ℕ
list_queue_ids_for_user e user_id d =
    elim (e.queue_members_table.find (λ m. m.user_id == user_id) d.queue_members) [
      | ok found ↦ map (λ m. m.queue_id) found
      | err x ↦ []
    ]

only_if : Bool → ℕ → Option ℕ
only_if b n = if b then some n else none

-- The filter that the handler makes of a query.
unfoldable pub filter_of : Env → Claims → Query → Desk → ListFilter
unfolding one_text list_queue_ids_for_user only_if scope_of
filter_of e c q d = record {
  status = one_text q.status;
  priority = one_text q.priority;
  queue_id = q.queue_id;
  queue_ids = if str_eq q.view "my-queues" then list_queue_ids_for_user e c.user_id d else [];
  category = "";
  label = q.label;
  assignee_id = only_if (str_eq q.view "mine-assigned") c.user_id;
  creator_id = only_if (str_eq q.view "mine-created") c.user_id;
  watcher_id = only_if (str_eq q.view "watched") c.user_id;
  query = q.text;
  limit = 100;
  offset = 0;
  customer_scope = scope_of c;
}

unfoldable pub load_tickets_list : Env → Search → Claims → Query → Desk → Result (List Ticket)
unfolding list filter_of
load_tickets_list e s c q d = list e s (filter_of e c q d) d
