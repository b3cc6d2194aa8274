-- ===== src/Queues/Targets.antt =====
-- From the form of a queue's SLA targets to the due times of the tickets that are created next.
use servicedesk.Common.{
  ℕ, ◌≤◌, zero, suc, ◌+◌, ◌*◌, String, true, false, Option, none, some, List, [], ◌∷◌, ◌⊎◌, inl,
  inr, ◌≡◌, refl, sym, ap, ◌∙◌, find_first, ◌==◌, ==_iff, str_eq, str_eq_ne, subst,
  find_first-holds, Bool-cases, arith, if◌then◌else◌,
}
use servicedesk.Models.Roles.{queue_ops, can}
use servicedesk.Models.Tickets.{Queue}
use servicedesk.Auth.Claims.{Claims}
use servicedesk.Sla.{Rule, evaluate, due_at, minute}
use servicedesk.Sla.Decision.{KnownPriority, most_minutes, due_at-some}
use servicedesk.Store.{Result, ok, err, IsTable, saved, Result-cases}
use servicedesk.Ticket.Desk.{Env, Desk}
use servicedesk.Ticket.Lifecycle.{CreateTicketInput, new_ticket, or_default}
use servicedesk.Http.{Response, http_error, error_text, after_call, redirect}
use servicedesk.Queues.{
  get_queue, update_queue, set_sla_table, with_rules, rows_of, with_row, priorities, store_rules,
  handle_queue_sla_update,
}

abbrev row : String → ℕ → Rule
row p n = record { priority = p; category = ""; minutes = n }

abbrev four : ℕ → ℕ → ℕ → ℕ → List Rule
four a b c d = row "P1" a ∷ row "P2" b ∷ row "P3" c ∷ row "P4" d ∷ []

not_empty : (c : String) → str_eq c "" ≡ false → str_eq "" c ≡ false
not_empty c h = str_eq_ne "" c (λ e. absurd (cc (h, ap (λ s. str_eq s "") e)))

-- The minutes of a priority in a table of four rows.
pick : String → ℕ → ℕ → ℕ → ℕ → Option ℕ
pick p a b c d =
    if str_eq "P1" p
    then some a
    else if str_eq "P2" p
    then some b
    else if str_eq "P3" p
    then some c
    else if str_eq "P4" p
    then some d
    else none

module _ (a b c d : ℕ) (k : String) where
  evaluate-four :
      (p : String) (n : ℕ)
      → pick p a b c d ≡ some n
      → KnownPriority p
      → evaluate (four a b c d) p k ≡ some n
  unfolding evaluate pick
  evaluate-four p n h (inl e) = elim (Bool-cases (str_eq k "")) [
    | inl y ↦ rw e (rw y (rw e at h))
    | inr z ↦ rw e (rw (z, not_empty k z) (rw e at h))
  ]
  evaluate-four p n h (inr (inl e)) = elim (Bool-cases (str_eq k "")) [
    | inl y ↦ rw e (rw y (rw e at h))
    | inr z ↦ rw e (rw (z, not_empty k z) (rw e at h))
  ]
  evaluate-four p n h (inr (inr (inl e))) = elim (Bool-cases (str_eq k "")) [
    | inl y ↦ rw e (rw y (rw e at h))
    | inr z ↦ rw e (rw (z, not_empty k z) (rw e at h))
  ]
  evaluate-four p n h (inr (inr (inr e))) = elim (Bool-cases (str_eq k "")) [
    | inl y ↦ rw e (rw y (rw e at h))
    | inr z ↦ rw e (rw (z, not_empty k z) (rw e at h))
  ]

with_row-inr :
    (p : String) (o : Option ℕ) (rest : String ⊎ List Rule) (table : List Rule)
    → with_row p o rest ≡ inr table
    → (n : ℕ) × (more : List Rule) × (o ≡ some n) × (rest ≡ inr more) × (table ≡ row p n ∷ more)
unfolding with_row
with_row-inr p none rest table h = absurd (cc)
with_row-inr p (some zero) rest table h = absurd (cc)
with_row-inr p (some (suc n)) (inl q) table h = absurd (cc)
with_row-inr p (some (suc n)) (inr rules) table h = (suc n, rules, refl, refl, cc)

rows_of-four :
    (form : String → Option ℕ) (table : List Rule)
    → rows_of form priorities ≡ inr table
    → (a : ℕ) × (b : ℕ) × (c : ℕ) × (d : ℕ) × (table ≡ four a b c d)
      × (form "P1" ≡ some a)
      × (form "P2" ≡ some b)
      × (form "P3" ≡ some c)
      × (form "P4" ≡ some d)
unfolding rows_of priorities
rows_of-four form table h =
    let (a, t1, fa, h1, e1) =
      with_row-inr "P1" (form "P1") (rows_of form ("P2" ∷ "P3" ∷ "P4" ∷ [])) table h in
    let (b, t2, fb, h2, e2) =
      with_row-inr "P2" (form "P2") (rows_of form ("P3" ∷ "P4" ∷ [])) t1 h1 in
    let (c, t3, fc, h3, e3) = with_row-inr "P3" (form "P3") (rows_of form ("P4" ∷ [])) t2 h2 in
    let (d, t4, fd, h4, e4) = with_row-inr "P4" (form "P4") (rows_of form []) t3 h3 in
    (a, b, c, d, cc (e1, e2, e3, e4, h4), fa, fb, fc, fd)

picked :
    (form : String → Option ℕ) (a b c d : ℕ) (p : String) (n : ℕ)
    → form "P1" ≡ some a
    → form "P2" ≡ some b
    → form "P3" ≡ some c
    → form "P4" ≡ some d
    → KnownPriority p
    → form p ≡ some n
    → pick p a b c d ≡ some n
unfolding pick
picked form a b c d p n fa fb fc fd (inl e) h = rw e (sym fa ∙ rw e at h)
picked form a b c d p n fa fb fc fd (inr (inl e)) h = rw e (sym fb ∙ rw e at h)
picked form a b c d p n fa fb fc fd (inr (inr (inl e))) h = rw e (sym fc ∙ rw e at h)
picked form a b c d p n fa fb fc fd (inr (inr (inr e))) h = rw e (sym fd ∙ rw e at h)

find_first-saved :
    (r : Queue) (k : ℕ) (rows : List Queue)
    → r.id ≡ k
    → find_first (λ q. q.id == k) (saved (λ q. q.id) r rows) ≡ some r
find_first-saved r k [] e = ground (arith, e)
find_first-saved r k (x ∷ rows) e = ground (arith, e, find_first-saved r k rows e)

known_kept : (p other : String) → KnownPriority p → or_default p other ≡ p
known_kept p other (inl e) = rw e refl
known_kept p other (inr (inl e)) = rw e refl
known_kept p other (inr (inr (inl e))) = rw e refl
known_kept p other (inr (inr (inr e))) = rw e refl

module _ (e : Env)
    (lawful : IsTable (λ q. q.id) (λ i (q : Queue). record q { id = i }) e.queues_table)
    (encode : List Rule → Result String)
    (decodes : (table : List Rule) (blob : String)
      → encode table ≡ ok blob
      → e.sla_rules blob ≡ table)
    (actor : Claims) (queue_id : ℕ) (d d' : Desk) where
  set-stored :
      (table : List Rule)
      → set_sla_table e encode actor queue_id table d ≡ (d', ok tt)
      → (q : Queue) × (find_first (λ q. q.id == queue_id) d'.queues ≡ some q)
        × (e.sla_rules q.sla_targets ≡ table)
        × (can actor.role queue_ops ≡ true)
  unfolding set_sla_table with_rules update_queue get_queue
  set-stored table h = elim (Bool-cases (can actor.role queue_ops)) [
    | inr n ↦ absurd (cc (rw (n, set_sla_table) at h))
    | inl y ↦ elim (Result-cases (e.queues_table.first (λ q. q.id == queue_id) d.queues)) [
      | inr (x, f) ↦ absurd (cc (rw f at (rw (y, set_sla_table) at h)))
      | inl (q, f) ↦
          let h1 = rw f at (rw (y, set_sla_table) at h) in
          elim (Result-cases (encode table)) [
            | inr (x, g) ↦ absurd (cc (rw (g, with_rules) at h1))
            | inl (blob, g) ↦
                let h2 = rw (g, with_rules) at h1 in
                let q' : Queue = record q { sla_targets = blob } in
                elim (Result-cases (e.queues_table.save q' d.queues)) [
                  | inr (x, k) ↦ absurd (cc (rw (k, update_queue) at h2))
                  | inl (rows, k) ↦
                      let kept : rows ≡ d'.queues =
                        ap (λ r. r.0.queues) (rw (k, update_queue) at h2) in
                      let found = lawful.first_ok (λ q. q.id == queue_id) d.queues q f in
                      let same : q.id ≡ queue_id =
                        (==_iff q.id queue_id).0
                          (find_first-holds (λ q. q.id == queue_id) q d.queues found) in
                      (
                        q',
                        subst (λ rs. find_first (λ q. q.id == queue_id) rs ≡ some q')
                            (sym (lawful.save_ok q' d.queues rows k) ∙ kept)
                            (find_first-saved q' queue_id d.queues same),
                        decodes table blob g,
                        y,
                      )
                ]
          ]
    ]
  ]

  set-answered :
      (form : String → Option ℕ)
      → handle_queue_sla_update e encode actor (some queue_id) form d ≡ (d', redirect "/queues")
      → (table : List Rule) × (rows_of form priorities ≡ inr table)
        × (set_sla_table e encode actor queue_id table d ≡ (d', ok tt))
  unfolding handle_queue_sla_update
  set-answered form h = answered (rows_of form priorities) refl h
    where
      through :
          (r : Desk × Result (Unit {0}))
          → after_call {R = Desk × Response} r
              (λ x d. (d, http_error 400 (error_text "" x)))
              (λ _ d. (d, redirect "/queues"))
            ≡ (d', redirect "/queues")
          → r ≡ (d', ok tt)
      through (s, ok u) k = cc
      through (s, err x) k = absurd (cc)

      answered :
          (rows : String ⊎ List Rule)
          → rows_of form priorities ≡ rows
          → store_rules e encode actor queue_id rows d ≡ (d', redirect "/queues")
          → (table : List Rule) × (rows_of form priorities ≡ inr table)
            × (set_sla_table e encode actor queue_id table d ≡ (d', ok tt))
      answered (inl p) same k = absurd (cc)
      answered (inr table) same k =
          (table, same, through (set_sla_table e encode actor queue_id table d) k)

  -- After a manager's form of SLA targets was accepted, the queue is found with rules that a new
  -- ticket of the queue with one of the priorities P1 to P4 follows, whoever makes it and whatever its
  -- category: it is due as many minutes after its creation as the form said for its priority, if these
  -- are at most 153722867, whose nanoseconds a 64-bit integer still holds.
  pub targets-followed :
      (form : String → Option ℕ)
      → handle_queue_sla_update e encode actor (some queue_id) form d ≡ (d', redirect "/queues")
      → (creator : Claims) (i : CreateTicketInput) (now n : ℕ) → KnownPriority i.priority
      → form i.priority ≡ some n
      → n ≤ most_minutes
      → (q : Queue) × (find_first (λ q. q.id == queue_id) d'.queues ≡ some q)
        × (can actor.role queue_ops ≡ true)
        × ((new_ticket e creator i q now).sla_due_at ≡ some (now + n * minute))
  unfolding new_ticket due_at
  targets-followed form h creator i now n known asked small =
      let (table, read, stored) = set-answered form h in
      let (q, found, decoded, allowed) = set-stored table stored in
      let (a, b, c, k, same, fa, fb, fc, fk) = rows_of-four form table read in
      let follows =
        evaluate-four a b c k (or_default i.category q.default_category) i.priority n
          (picked form a b c k i.priority n fa fb fc fk known asked) known in
      (
        q,
        found,
        allowed,
        ap
              (λ p.
                due_at (e.sla_rules q.sla_targets) p (or_default i.category q.default_category) now)
              (known_kept i.priority q.default_priority known)
            ∙ due_at-some (e.sla_rules q.sla_targets) i.priority
                (or_default i.category q.default_category) now n small
                (ap (λ t. evaluate t i.priority (or_default i.category q.default_category))
                    (decoded ∙ same)
                  ∙ follows),
      )
