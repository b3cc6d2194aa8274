-- ===== src/Handlers/Exposure.antt =====
-- What a customer can make visible to themselves.
use servicedesk.Common.{
  Bool, true, some, List, ◌≡◌, refl, ◌⊎◌, inl, inr, ◌&&◌, any, ◌==◌, arith, Bool-cases,
}
use servicedesk.Models.Roles.{is_customer}
use servicedesk.Models.Tickets.{Ticket, Watcher}
use servicedesk.Auth.Claims.{Claims}
use servicedesk.Store.{Error, ok, err, Result-cases}
use servicedesk.Ticket.Desk.{Env, Desk}
use servicedesk.Ticket.Lifecycle.{add_watcher}
use servicedesk.Ticket.Edits.{watch}
use servicedesk.Visibility.{in_scope, scope_of, customer_can_see_ticket}
use servicedesk.Visibility.Scope.{Counts, can_see_iff_listed}
use servicedesk.Handlers.{handle_watch}

module _ (e : Env)
    (keeps : (p : Watcher → Bool) (row r : Watcher) (rows after : List Watcher)
      → p row ≡ true
      → e.watchers_table.first_or_create p row rows ≡ ok (r, after)
      → any p after ≡ true)
    (c : Claims) (t : Ticket) (d : Desk) where
  mine : Watcher → Bool
  mine w = w.ticket_id == t.id && w.user_id == c.user_id

  own_row : Watcher
  own_row = record { ticket_id = t.id; user_id = c.user_id }

  watched :
      ((x : Error) × (e.watchers_table.first_or_create mine own_row d.watchers ≡ err x))
      ⊎ (any mine (handle_watch e c (some t.id) d).0.watchers ≡ true)
  unfolding handle_watch watch add_watcher mine own_row
  watched = elim (Result-cases (e.watchers_table.first_or_create mine own_row d.watchers)) [
    | inr (x, f) ↦ inl (x, f)
    | inl ((r, rows), f) ↦ inr (
        rw (f, handle_watch, watch, add_watcher)
          (keeps mine own_row r d.watchers rows (ground arith) f))
  ]

  in_scope-watched :
      (rows : List Watcher)
      → t.org_id ≡ c.org_id
      → any mine rows ≡ true
      → in_scope (scope_of c) rows t ≡ true
  unfolding in_scope scope_of mine
  in_scope-watched rows same seen = elim (Bool-cases (is_customer c.role)) [
    | inr n ↦ rw n refl
    | inl y ↦ rw (y, seen) (ground (arith, same))
  ]

  -- Any session can ask to watch any ticket, and a customer who does so for a ticket of the session's
  -- organization sees the ticket from then on, also one that somebody else made and that nobody
  -- shared; only a failure of the database prevents it.
  pub watch-reveals :
      ((rows : List Watcher) → Counts e.watchers_table rows)
      → t.org_id ≡ c.org_id
      → ((x : Error) × (e.watchers_table.first_or_create
              (λ w. w.ticket_id == t.id && w.user_id == c.user_id)
              (record { ticket_id = t.id; user_id = c.user_id })
              d.watchers
            ≡ err x))
        ⊎ (customer_can_see_ticket e.watchers_table c t (handle_watch e c (some t.id) d).0.watchers
            ≡ true)
  unfolding mine own_row
  watch-reveals counts same = elim watched [
    | inl failed ↦ inl failed
    | inr seen ↦
        let rows : List Watcher = (handle_watch e c (some t.id) d).0.watchers in
        inr (
          (can_see_iff_listed e.watchers_table rows (counts rows) c t).1
            (inl (in_scope-watched rows same seen)))
  ]
