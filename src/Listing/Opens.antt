-- ===== src/Listing/Opens.antt =====
-- What the list shows against what opens.
use servicedesk.Common.{
  ℕ, zero, suc, Bool, true, false, List, [], ◌∷◌, ◌≡◌, sym, subst, inl, inr, All, length, ◌≤◌, ◌&&◌,
  keep_if, ltb, arith, Bool-cases,
}
use servicedesk.Models.Tickets.{Ticket}
use servicedesk.Auth.Claims.{Claims}
use servicedesk.Store.{ok, Result-cases, ok-injective}
use servicedesk.Ticket.Desk.{Env, Desk}
use servicedesk.Visibility.{customer_can_see_ticket, in_scope, scope_of}
use servicedesk.Visibility.Scope.{Counts, can_see_iff_listed}
use servicedesk.Listing.{
  Search, ListFilter, filtered, matches, take, drop, page, list, Query, filter_of,
  load_tickets_list,
}

last_of : (a b : Bool) → (a && b) ≡ true → b ≡ true
last_of true b h = h
last_of false b h = absurd (cc)

matches-in_scope :
    (s : Search) (f : ListFilter) (d : Desk) (t : Ticket)
    → matches s f d t ≡ true
    → in_scope f.customer_scope d.watchers t ≡ true
unfolding matches
matches-in_scope s f d t h = last_of (filtered s f d t) (in_scope f.customer_scope d.watchers t) h

-- The page of a ticket opens, and the ticket is in the scope of the session.
abbrev pub Opens : Env → Claims → Desk → Ticket → Type 0
Opens e c d t =
    (customer_can_see_ticket e.watchers_table c t d.watchers ≡ true)
    × (in_scope (scope_of c) d.watchers t ≡ true)

module _ (P : Ticket → Type 0) where
  All-kept :
      (p : Ticket → Bool) (ts : List Ticket)
      → ((t : Ticket) → p t ≡ true → P t)
      → All P (keep_if p ts)
  All-kept p [] h = tt
  All-kept p (t ∷ ts) h = elim (Bool-cases (p t)) [
    | inl y ↦ rw y (h t y, All-kept p ts h)
    | inr n ↦ rw n (All-kept p ts h)
  ]

  All-take : (n : ℕ) (ts : List Ticket) → All P ts → All P (take n ts)
  unfolding take
  All-take zero ts h = tt
  All-take (suc n) [] h = tt
  All-take (suc n) (t ∷ ts) h = (h.0, All-take n ts h.1)

  All-drop : (n : ℕ) (ts : List Ticket) → All P ts → All P (drop n ts)
  unfolding drop
  All-drop zero ts h = h
  All-drop (suc n) [] h = tt
  All-drop (suc n) (t ∷ ts) h = All-drop n ts h.1

  All-page : (f : ListFilter) (ts : List Ticket) → All P ts → All P (page f ts)
  unfolding page
  All-page f ts h = elim (Bool-cases (ltb 0 f.limit)) [
    | inl y ↦ rw y (All-take f.limit (drop f.offset ts) (All-drop f.offset ts h))
    | inr n ↦ rw n h
  ]

length-take : (n : ℕ) (ts : List Ticket) → length (take n ts) ≤ n
unfolding take
length-take zero ts = omega arith
length-take (suc n) [] = omega arith
length-take (suc n) (t ∷ ts) = omega (arith, length-take n ts)

-- Whatever a session asks the list for, every view, filter and search, it is shown at most 100 tickets
-- and the page of each opens for it; for a customer they are all of the session's organization, and
-- made or watched by the customer. The database is taken to answer counts, and its order to bring in
-- no other rows.
pub load_tickets_list-Opens :
    (e : Env) (s : Search) (c : Claims) (q : Query) (d : Desk) (shown : List Ticket)
    → ((p : Ticket → Bool) (rows found : List Ticket)
        → e.tickets_table.find p rows ≡ ok found
        → found ≡ keep_if p rows)
    → ((P : Ticket → Type 0) (ts : List Ticket) → All P ts → All P (s.by_update ts))
    → Counts e.watchers_table d.watchers
    → load_tickets_list e s c q d ≡ ok shown
    → (length shown ≤ 100) × All (Opens e c d) shown
unfolding load_tickets_list list filter_of page
load_tickets_list-Opens e s c q d shown finds ordered counts h =
    let f : ListFilter = filter_of e c q d in
    elim (Result-cases (e.tickets_table.find (matches s f d) d.tickets)) [
      | inr (x, g) ↦ absurd (cc (rw (g, load_tickets_list, list) at h))
      | inl (found, g) ↦
          let made : page f (s.by_update found) ≡ shown =
            ok-injective (rw (g, load_tickets_list, list) at h) in
          let opens : (t : Ticket) → matches s f d t ≡ true → Opens e c d t = λ t k.
            let scoped = matches-in_scope s f d t k in
            ((can_see_iff_listed e.watchers_table d.watchers counts c t).1 (inl scoped), scoped) in
          (
            subst (λ ts. length ts ≤ 100) made (length-take 100 (s.by_update found)),
            subst (All (Opens e c d)) made (
                All-page (Opens e c d) f (s.by_update found) (
                  ordered (Opens e c d) found (
                    subst (All (Opens e c d)) (sym (finds (matches s f d) d.tickets found g))
                      (All-kept (Opens e c d) (matches s f d) d.tickets opens)))),
          )
    ]
