-- ===== src/Visibility/Scope.antt =====
-- The two customer rules against each other, and what a customer never sees.
use servicedesk.Common.{
  Bool-cases, inl, inr, Bool, true, false, ◌≡◌, refl, ◌↔◌, ◌≢◌, ◌&&◌, not, List, [], ◌∷◌, arith,
  ◌==◌, any, count_if, ◌⊎◌,
}
use servicedesk.Models.Roles.{is_customer, is_agent}
use servicedesk.Models.Tickets.{Ticket, Watcher, Attachment}
use servicedesk.Auth.Claims.{Claims}
use servicedesk.Store.{ok, Table}
use servicedesk.Visibility.{
  customer_can_see_ticket, is_watching, in_scope, scope_of, can_view_attachment,
  list_visible_for_ticket,
}

-- A test that some item passes is counted at least once, and the other way round.
count_any : {A : Type 0} (p : A → Bool) (xs : List A) → any p xs ≡ not (count_if p xs == 0)
count_any p [] = refl
count_any p (x ∷ xs) = ground (arith, count_any p xs)

-- The documented behaviour of a count that succeeds.
abbrev pub Counts : Table Watcher → List Watcher → Type 0
Counts table rows = (p : Watcher → Bool) → table.count p rows ≡ ok (count_if p rows)

module _ (table : Table Watcher) (rows : List Watcher) (counts : Counts table rows)
    (claims : Claims) (t : Ticket) where
  watches :
      is_watching table t.id claims.user_id rows
      ≡ ok (any (λ w. w.ticket_id == t.id && w.user_id == claims.user_id) rows)
  unfolding is_watching
  watches =
      let mine : Watcher → Bool = λ w. w.ticket_id == t.id && w.user_id == claims.user_id in
      ground (arith, counts mine, count_any mine rows)

  -- While the database answers, whatever ticket the list shows, the page of the ticket opens too.
  -- The other way round there is one difference: a customer opens the page of a ticket of their own
  -- making under the session of another organization, which leaves it off the list.
  pub can_see_iff_listed : (customer_can_see_ticket table claims t rows ≡ true) ↔ (
      (in_scope (scope_of claims) rows t ≡ true)
      ⊎ ((is_customer claims.role ≡ true)
          × (t.creator_id ≡ claims.user_id)
          × (t.org_id ≢ claims.org_id)))
  unfolding customer_can_see_ticket in_scope scope_of
  can_see_iff_listed = ground (arith, watches)

-- Who sees an attachment: staff, and others one that is not internal and, where it is private, is
-- their own.
abbrev pub Seen : Claims → Attachment → Type 0
Seen viewer a =
    (is_agent viewer.role ≡ true)
    ⊎ ((a.internal ≡ false) × ((a.customer_private ≡ false) ⊎ (a.uploader_id ≡ viewer.user_id)))

-- Which attachments of a list are shown, in order.
pub data Shown (viewer : Claims) : List Attachment → List Attachment → Type 0 where
  all_shown : Shown viewer [] []
  shown :
      {all visible : List Attachment} (a : Attachment)
      → Seen viewer a
      → Shown viewer all visible
      → Shown viewer (a ∷ all) (a ∷ visible)
  hidden :
      {all visible : List Attachment} (a : Attachment)
      → ¬ Seen viewer a
      → Shown viewer all visible
      → Shown viewer (a ∷ all) visible

Seen-can_view :
    (viewer : Claims) (a : Attachment) → can_view_attachment viewer a ≡ true → Seen viewer a
unfolding can_view_attachment
Seen-can_view viewer a h = ground arith

not_Seen-can_view :
    (viewer : Claims) (a : Attachment) → can_view_attachment viewer a ≡ false → ¬ Seen viewer a
unfolding can_view_attachment
not_Seen-can_view viewer a h k = ground arith

-- The list of a ticket shows a viewer, in order, exactly these attachments: all of them to staff, and
-- to anybody else those that are not internal and either not private to a customer or the viewer's own.
pub list_visible-Shown :
    (viewer : Claims) (all : List Attachment)
    → Shown viewer all (list_visible_for_ticket viewer all)
unfolding list_visible_for_ticket
list_visible-Shown viewer [] = all_shown
list_visible-Shown viewer (a ∷ all) = elim (Bool-cases (can_view_attachment viewer a)) [
  | inl y ↦ rw y (shown a (Seen-can_view viewer a y) (list_visible-Shown viewer all))
  | inr n ↦ rw n (hidden a (not_Seen-can_view viewer a n) (list_visible-Shown viewer all))
]
