-- ===== src/Notes/Latest.antt =====
-- The previews of the activity list: the loop against the last note of each ticket.
use servicedesk.Common.{
  ==_iff, ℕ, Bool, Option, none, some, List, [], ◌∷◌, ◌≡◌, refl, sym, ◌∙◌, ap, inl, inr, arith,
  ◌==◌, any, find_last, keep_if, or_else, Bool-cases, if◌then◌else◌,
}
use servicedesk.Models.Tickets.{Note}
use servicedesk.Store.{ok, ok-injective, Table, Result-cases}
use servicedesk.Notes.{Latest, put, read, keep_latest, list_for_tickets, latest_for_tickets}

read-put :
    (k j : ℕ) (n : Note) (m : Latest) → read k (put j n m) ≡ (if j == k then some n else read k m)
unfolding read put
read-put k j n [] = refl
read-put k j n ((i, x) ∷ m) = ground (arith, read-put k j n m)

abbrev mine : ℕ → Note → Bool
mine k n = n.ticket_id == k

read-keep_latest :
    (k : ℕ) (notes : List Note) (m : Latest)
    → read k (keep_latest notes m) ≡ or_else (find_last (mine k) notes) (read k m)
unfolding keep_latest
read-keep_latest k [] m = refl
read-keep_latest k (n ∷ notes) m =
    read-keep_latest k notes (put n.ticket_id n m) ∙ ground (arith, read-put k n.ticket_id n m)

or_else-none : {A : Type 0} (o : Option A) → or_else o none ≡ o
or_else-none none = refl
or_else-none (some a) = refl

-- Of the notes on the asked tickets, the last one of a ticket is its last one of all, where the
-- ticket was asked for.
last_kept :
    (k : ℕ) (ids : List ℕ) (notes : List Note)
    → find_last (mine k) (keep_if (λ n. any (λ j. n.ticket_id == j) ids) notes)
      ≡ (if any (λ j. k == j) ids then find_last (mine k) notes else none)
last_kept k ids [] = ground arith
last_kept k ids (n ∷ notes) = elim (Bool-cases (n.ticket_id == k)) [
  | inl y ↦
      let e : n.ticket_id ≡ k = (==_iff n.ticket_id k).0 y in
      let same = ap (λ i. any (λ j. i == j) ids) e in
      elim (Bool-cases (any (λ j. k == j) ids)) [
        | inl a ↦ rw (same ∙ a, a, y) (rw (last_kept k ids notes) (rw a refl))
        | inr a ↦ rw (same ∙ a, a) (last_kept k ids notes ∙ rw a refl)
      ]
  | inr x ↦ ground (arith, x, last_kept k ids notes)
]

-- The preview of a ticket that was asked for is the last of all its notes, and a ticket without notes
-- or that was not asked for has none.
pub read-latest_for_tickets :
    (table : Table Note)
    → ((p : Note → Bool) (rows found : List Note)
        → table.find p rows ≡ ok found
        → found ≡ keep_if p rows)
    → (k : ℕ) (ids : List ℕ) (rows : List Note) (latest : Latest)
    → latest_for_tickets table ids rows ≡ ok latest
    → read k latest
      ≡ (if any (λ j. k == j) ids then find_last (λ n. n.ticket_id == k) rows else none)
unfolding latest_for_tickets list_for_tickets keep_latest read
read-latest_for_tickets table finds k [] rows latest h = ap (read k) (sym (ok-injective h))
read-latest_for_tickets table finds k (i ∷ ids) rows latest h =
    let asked : Note → Bool = λ n. any (λ j. n.ticket_id == j) (i ∷ ids) in
    elim (Result-cases (table.find asked rows)) [
      | inr (x, f) ↦ absurd (cc (rw (f, latest_for_tickets) at h))
      | inl (notes, f) ↦
          let made : ok (keep_latest notes []) ≡ ok latest = rw (f, latest_for_tickets) at h in
          ap (read k) (sym (ok-injective made))
          ∙ read-keep_latest k notes []
          ∙ ap (λ ns. or_else (find_last (mine k) ns) none) (finds asked rows notes f)
          ∙ or_else-none (find_last (mine k) (keep_if asked rows))
          ∙ last_kept k (i ∷ ids) rows
    ]
