-- ===== src/Dashboard/Counts.antt =====
-- The counts of a queue: the loop against counting.
use servicedesk.Common.{
  ℕ, ◌+◌, Bool, true, false, ◌&&◌, not, List, [], ◌∷◌, ◌≡◌, refl, ◌∙◌, inl, inr, arith, map, map_if,
  count_if, ◌==◌, if◌then◌else◌, Bool-cases,
}
use servicedesk.Models.Tickets.{Ticket, Queue, is_closed}
use servicedesk.Dashboard.{QueueStat, past_due, count_in, count_all, empty_stat, queue_stats}

-- The tickets of a queue that are not closed, and those of them that are past their due time.
abbrev pub is_open_in : ℕ → Ticket → Bool
is_open_in id t = not (is_closed t.status) && id == t.queue_id

abbrev pub is_breaching_in : ℕ → ℕ → Ticket → Bool
is_breaching_in now id t = is_open_in id t && past_due now t

-- An entry with the tickets counted into it.
counted : ℕ → List Ticket → QueueStat → QueueStat
counted now tickets s = record s {
  open_count = s.open_count + count_if (is_open_in s.queue_id) tickets;
  breaching = s.breaching + count_if (is_breaching_in now s.queue_id) tickets;
}

same_counts :
    (s : QueueStat) (a b c d : ℕ)
    → a ≡ c
    → b ≡ d
    → record s { open_count = a; breaching = b } ≡ record s { open_count = c; breaching = d }
same_counts s a b c d e f = cc

one_more :
    (now : ℕ) (t : Ticket) (tickets : List Ticket) (s : QueueStat)
    → is_closed t.status ≡ false
    → counted now tickets (if s.queue_id == t.queue_id then count_in now t s else s)
      ≡ counted now (t ∷ tickets) s
unfolding counted count_in
one_more now t tickets s h = elim (Bool-cases (s.queue_id == t.queue_id)) [
  | inl y ↦ elim (Bool-cases (past_due now t)) [
    | inl p ↦ rw (h, y, p) (same_counts s _ _ _ _ (omega arith) (omega arith))
    | inr p ↦ rw (h, y, p) (same_counts s _ _ _ _ (omega arith) (omega arith))
  ]
  | inr n ↦ rw (h, n) (same_counts s _ _ _ _ (omega arith) (omega arith))
]

none_more :
    (now : ℕ) (t : Ticket) (tickets : List Ticket) (s : QueueStat)
    → is_closed t.status ≡ true
    → counted now tickets s ≡ counted now (t ∷ tickets) s
unfolding counted
none_more now t tickets s h = rw h (same_counts s _ _ _ _ (omega arith) (omega arith))

none_more_all :
    (now : ℕ) (t : Ticket) (tickets : List Ticket) (stats : List QueueStat)
    → is_closed t.status ≡ true
    → map (counted now tickets) stats ≡ map (counted now (t ∷ tickets)) stats
none_more_all now t tickets [] h = refl
none_more_all now t tickets (s ∷ stats) h =
    cc (none_more now t tickets s h, none_more_all now t tickets stats h)

one_more_all :
    (now : ℕ) (t : Ticket) (tickets : List Ticket) (stats : List QueueStat)
    → is_closed t.status ≡ false
    → map (counted now tickets) (map_if (λ s. s.queue_id == t.queue_id) (count_in now t) stats)
      ≡ map (counted now (t ∷ tickets)) stats
one_more_all now t tickets [] h = refl
one_more_all now t tickets (s ∷ stats) h =
    cc (one_more now t tickets s h, one_more_all now t tickets stats h)

zero : (now : ℕ) (s : QueueStat) → s ≡ counted now [] s
unfolding counted
zero now s = same_counts s _ _ _ _ (omega arith) (omega arith)

count_all_lem :
    (now : ℕ) (tickets : List Ticket) (stats : List QueueStat)
    → count_all now tickets stats ≡ map (counted now tickets) stats
unfolding count_all
count_all_lem now [] stats = zero_all stats
  where
    zero_all : (stats : List QueueStat) → stats ≡ map (counted now []) stats
    zero_all [] = refl
    zero_all (s ∷ stats) = cc (zero now s, zero_all stats)
count_all_lem now (t ∷ tickets) stats = elim (Bool-cases (is_closed t.status)) [
  | inl y ↦
      rw (y, count_all) (count_all_lem now tickets stats ∙ none_more_all now t tickets stats y)
  | inr n ↦
      rw (n, count_all)
        (count_all_lem now tickets (map_if (λ s. s.queue_id == t.queue_id) (count_in now t) stats)
          ∙ one_more_all now t tickets stats n)
]

-- The tile of each queue, in the order of the queues, counts its tickets that are not closed, and
-- those of them whose due time is before now.
pub queue_stats-counts :
    (now : ℕ) (tickets : List Ticket) (queues : List Queue)
    → queue_stats now tickets queues
      ≡ map
          (λ q. record {
            queue_id = q.id;
            name = q.name;
            open_count = count_if (is_open_in q.id) tickets;
            breaching = count_if (is_breaching_in now q.id) tickets;
          })
          queues
unfolding queue_stats empty_stat counted
queue_stats-counts now tickets queues =
    count_all_lem now tickets (map empty_stat queues) ∙ joined queues
  where
    head :
        (q : Queue)
        → counted now tickets (empty_stat q) ≡ record {
          queue_id = q.id;
          name = q.name;
          open_count = count_if (is_open_in q.id) tickets;
          breaching = count_if (is_breaching_in now q.id) tickets;
        }
    head q = same_counts (empty_stat q) _ _ _ _ (omega arith) (omega arith)

    joined :
        (queues : List Queue)
        → map (counted now tickets) (map empty_stat queues)
          ≡ map
              (λ q. record {
                queue_id = q.id;
                name = q.name;
                open_count = count_if (is_open_in q.id) tickets;
                breaching = count_if (is_breaching_in now q.id) tickets;
              })
              queues
    joined [] = refl
    joined (q ∷ queues) = cc (head q, joined queues)
