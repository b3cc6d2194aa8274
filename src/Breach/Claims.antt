-- ===== src/Breach/Claims.antt =====
-- Claims of overdue tickets by several workers (`ClaimNextBreach` of internal/repo/ticket.go).
use servicedesk.Common.{
  some-injective, ap, Option-cases, ◌∙◌, sym, subst, ==_iff, ℕ, Bool, true, false, ◌≡◌, refl, ◌≢◌,
  ◌↔◌, Option, none, some, List, [], ◌∷◌, arith, ◌==◌, points_to, All, map_if, find_last,
  Bool-cases, inl, inr, if◌then◌else◌,
}
use servicedesk.Models.Tickets.{Ticket}
use servicedesk.Store.{ok, Table, IsTable}
use servicedesk.Breach.{breaching, breach_candidate, claim_breach, select_claimed}

-- The primary key: no two rows have one id.
abbrev pub DistinctIds : List Ticket → Type 0
DistinctIds [] = Unit {0}
DistinctIds (t ∷ rows) = All (λ x. x.id ≢ t.id) rows × DistinctIds rows

-- The rows after a claim: the first breaching row has the time of the claim.
unfoldable pub stamp_first : ℕ → List Ticket → List Ticket
stamp_first now [] = []
stamp_first now (t ∷ rows) =
    if breaching now t
    then record t { sla_breach_notified_at = some now } ∷ rows
    else t ∷ stamp_first now rows

-- Claims at the times of a list, in order.
unfoldable pub stamp_all : List ℕ → List Ticket → List Ticket
stamp_all [] rows = rows
stamp_all (now ∷ times) rows = stamp_all times (stamp_first now rows)

stamped_row : ℕ → Ticket → Ticket
stamped_row now t = record t { sla_breach_notified_at = some now }

others_untouched :
    (i now : ℕ) (rows : List Ticket)
    → All (λ x. x.id ≢ i) rows
    → map_if (λ t. i == t.id) (λ t. record t { sla_breach_notified_at = some now }) rows ≡ rows
others_untouched i now [] h = refl
others_untouched i now (x ∷ rows) h = ground (arith, others_untouched i now rows h.1)

none_untouched :
    (now : ℕ) (rows : List Ticket)
    → map_if (λ t. false) (λ t. record t { sla_breach_notified_at = some now }) rows ≡ rows
none_untouched now [] = refl
none_untouched now (x ∷ rows) = ground (arith, none_untouched now rows)

candidate_ne :
    (now i : ℕ) (rows : List Ticket)
    → All (λ x. x.id ≢ i) rows
    → points_to (breach_candidate now rows) i ≡ false
unfolding breach_candidate
candidate_ne now i [] h = refl
candidate_ne now i (x ∷ rows) h = ground (arith, candidate_ne now i rows h.1, h.0)

abbrev stamp_if : (Ticket → Bool) → ℕ → List Ticket → List Ticket
stamp_if p now rows = map_if p (λ t. record t { sla_breach_notified_at = some now }) rows

-- The statement of the claim stamps one row, the first that breaches.
claim_stamps :
    (now : ℕ) (rows : List Ticket)
    → DistinctIds rows
    → stamp_if (λ t. points_to (breach_candidate now rows) t.id) now rows ≡ stamp_first now rows
unfolding breach_candidate stamp_first
claim_stamps now [] h = refl
claim_stamps now (t ∷ rows) h = elim (Bool-cases (breaching now t)) [
  | inl y ↦ hit y
  | inr n ↦ miss n (claim_stamps now rows h.1)
]
  where
    hit :
        breaching now t ≡ true
        → stamp_if (λ x. points_to (breach_candidate now (t ∷ rows)) x.id) now (t ∷ rows)
          ≡ stamp_first now (t ∷ rows)
    hit y =
        let mine : breach_candidate now (t ∷ rows) ≡ some t.id = rw y in
        let same : (t.id == t.id) ≡ true = (==_iff t.id t.id).1 refl in
        subst (λ c. stamp_if (λ x. points_to c x.id) now (t ∷ rows) ≡ stamp_first now (t ∷ rows))
          (sym mine) (rw (same, y, others_untouched t.id now rows h.0))

    miss :
        breaching now t ≡ false
        → stamp_if (λ x. points_to (breach_candidate now rows) x.id) now rows ≡ stamp_first now rows
        → stamp_if (λ x. points_to (breach_candidate now (t ∷ rows)) x.id) now (t ∷ rows)
          ≡ stamp_first now (t ∷ rows)
    miss n ih =
        let mine : breach_candidate now (t ∷ rows) ≡ breach_candidate now rows = rw n in
        subst (λ c. stamp_if (λ x. points_to c x.id) now (t ∷ rows) ≡ stamp_first now (t ∷ rows))
          (sym mine) (rw (candidate_ne now t.id rows h.0, n, ih))

-- Which row has the time of one claim: the row with the id, and no other.
abbrev pub OnlyStamp : ℕ → ℕ → List Ticket → Type 0
OnlyStamp now i rows = All (λ t. (t.sla_breach_notified_at ≡ some now) ↔ (t.id ≡ i)) rows

-- No row has the time yet.
abbrev pub Unused : ℕ → List Ticket → Type 0
Unused now rows = All (λ t. t.sla_breach_notified_at ≢ some now) rows

Unused-OnlyStamp :
    (now i : ℕ) (rows : List Ticket)
    → Unused now rows
    → All (λ x. x.id ≢ i) rows
    → OnlyStamp now i rows
Unused-OnlyStamp now i [] u h = tt
Unused-OnlyStamp now i (t ∷ rows) u h =
    ((λ e. absurd (u.0 e), λ e. absurd (h.0 e)), Unused-OnlyStamp now i rows u.1 h.1)

claimed_only :
    (now i : ℕ) (rows : List Ticket)
    → DistinctIds rows
    → Unused now rows
    → breach_candidate now rows ≡ some i
    → OnlyStamp now i (stamp_first now rows)
unfolding breach_candidate stamp_first
claimed_only now i [] h u e = absurd (cc)
claimed_only now i (t ∷ rows) h u e = elim (Bool-cases (breaching now t)) [
  | inl y ↦
      let same : t.id ≡ i = ground (arith, y) in
      rw y (
        (λ _. same, λ _. refl),
        Unused-OnlyStamp now i rows u.1 (subst (λ k. All (λ x. x.id ≢ k) rows) same h.0),
      )
  | inr n ↦
      let below : breach_candidate now rows ≡ some i = ground (arith, n) in
      let fresh : t.id ≢ i =
        λ q. cc (candidate_ne now t.id rows h.0, below, (==_iff i t.id).1 (sym q)) in
      rw n ((λ q. absurd (u.0 q), λ q. absurd (fresh q)), claimed_only now i rows h.1 u.1 below)
]

breaching_unset : (now : ℕ) (t : Ticket) → breaching now t ≡ true → t.sla_breach_notified_at ≡ none
unfolding breaching
breaching_unset now t y = ground arith

stamped_passes :
    (now : ℕ) (t : Ticket) → breaching now (record t { sla_breach_notified_at = some now }) ≡ false
unfolding breaching
stamped_passes now t = ground arith

-- A claim at another time leaves the stamp where it is.
stamp_first-OnlyStamp :
    (now other i : ℕ) (rows : List Ticket)
    → other ≢ now
    → OnlyStamp now i rows
    → OnlyStamp now i (stamp_first other rows)
unfolding stamp_first breaching
stamp_first-OnlyStamp now other i [] h o = tt
stamp_first-OnlyStamp now other i (t ∷ rows) h o = elim (Bool-cases (breaching other t)) [
  | inl y ↦
      let unset = breaching_unset other t y in
      rw y ((λ q. absurd (h (cc)), λ q. absurd (cc (o.0.1 q, unset))), o.1)
  | inr n ↦ rw n (o.0, stamp_first-OnlyStamp now other i rows h o.1)
]

points_to_eq : (o : Option ℕ) (n : ℕ) → points_to o n ≡ true → o ≡ some n
points_to_eq none n h = absurd (cc)
points_to_eq (some m) n h = ground (arith, h)

selected :
    (now i : ℕ) (rows : List Ticket) (t : Ticket)
    → OnlyStamp now i rows
    → find_last (λ x. points_to x.sla_breach_notified_at now) rows ≡ some t
    → t.id ≡ i
selected now i [] t o e = absurd (cc)
selected now i (x ∷ rows) t o e =
    elim (Option-cases (find_last (λ x. points_to x.sla_breach_notified_at now) rows)) [
      | inr (t', q) ↦ selected now i rows t o.1 (q ∙ last_of q)
      | inl q ↦
          let mine = only_here q in
          subst (λ (r : Ticket). r.id ≡ i) mine.1
            (o.0.0 (points_to_eq x.sla_breach_notified_at now mine.0))
    ]
  where
    last_of :
        {t' : Ticket}
        → find_last (λ x. points_to x.sla_breach_notified_at now) rows ≡ some t'
        → some t' ≡ some t
    last_of q = ground (arith, q)

    only_here :
        find_last (λ x. points_to x.sla_breach_notified_at now) rows ≡ none
        → (points_to x.sla_breach_notified_at now ≡ true) × (x ≡ t)
    only_here q = elim (Bool-cases (points_to x.sla_breach_notified_at now)) [
      | inl y ↦ (y, ground (arith, q, y))
      | inr n ↦ absurd (ground (arith, q, n))
    ]

stamp_all-OnlyStamp :
    (now i : ℕ) (times : List ℕ) (rows : List Ticket)
    → All (λ other. other ≢ now) times
    → OnlyStamp now i rows
    → OnlyStamp now i (stamp_all times rows)
unfolding stamp_all
stamp_all-OnlyStamp now i [] rows h o = o
stamp_all-OnlyStamp now i (other ∷ times) rows h o =
    stamp_all-OnlyStamp now i times (stamp_first other rows) h.1
      (stamp_first-OnlyStamp now other i rows h.0 o)

abbrev at_time : ℕ → Ticket → Ticket
at_time now t = record t { sla_breach_notified_at = some now }

second_claim :
    (now : ℕ) (a b : Ticket)
    → breaching now b ≡ true
    → stamp_first now (at_time now a ∷ b ∷ []) ≡ at_time now a ∷ at_time now b ∷ []
unfolding stamp_first
second_claim now a b y =
    let passed : breaching now (at_time now a) ≡ false = stamped_passes now a in rw (passed, y)

last_of_two :
    (now : ℕ) (a b r : Ticket)
    → find_last (λ x. points_to x.sla_breach_notified_at now) (at_time now a ∷ at_time now b ∷ [])
      ≡ some r
    → r.id ≡ b.id
last_of_two now a b r e =
    let same : (now == now) ≡ true = (==_iff now now).1 refl in
    let found : some (at_time now b) ≡ some r = rw same at e in
    ap (λ (t : Ticket). t.id) (sym (some-injective found))

module _ (table : Table Ticket)
    (laws : IsTable (λ (t : Ticket). t.id) (λ i t. record t { id = i }) table) where
  claim_breach_lem :
      (now : ℕ) (rows after : List Ticket) (n : ℕ)
      → DistinctIds rows
      → claim_breach table now rows ≡ ok (n, after)
      → after ≡ stamp_first now rows
  unfolding claim_breach
  claim_breach_lem now rows after n h e =
      (laws.update_ok _ _ rows n after e).1 ∙ claim_stamps now rows h

  -- A worker alerts the ticket that it claimed: after its claim at an instant at which no row was
  -- claimed before, and any further claims by other workers at other instants, the ticket that it
  -- selects is the first that was breaching when it made the claim.
  pub select-claim :
      (now i n : ℕ) (rows after : List Ticket) (times : List ℕ) (t : Ticket)
      → DistinctIds rows
      → Unused now rows
      → breach_candidate now rows ≡ some i
      → claim_breach table now rows ≡ ok (n, after)
      → All (λ other. other ≢ now) times
      → select_claimed table now (stamp_all times after) ≡ ok t
      → t.id ≡ i
  unfolding select_claimed
  select-claim now i n rows after times t h u c e others s =
      selected now i (stamp_all times after) t
        (stamp_all-OnlyStamp now i times after others (
          subst (OnlyStamp now i) (sym (claim_breach_lem now rows after n h e))
            (claimed_only now i rows h u c)))
        (laws.last_ok _ _ t s)

  -- Two claims at one instant go wrong: of two overdue tickets that are claimed at the same time
  -- before either worker selects, whatever a worker then selects is the later one.
  pub claims_collide :
      (now m n : ℕ) (a b r : Ticket) (first second : List Ticket)
      → a.id ≢ b.id
      → breaching now a ≡ true
      → breaching now b ≡ true
      → claim_breach table now (a ∷ b ∷ []) ≡ ok (m, first)
      → claim_breach table now first ≡ ok (n, second)
      → select_claimed table now second ≡ ok r
      → r.id ≡ b.id
  unfolding stamp_first select_claimed
  claims_collide now m n a b r first second ne x y e f s =
      let pair : DistinctIds (a ∷ b ∷ []) = ((λ q. ne (sym q), tt), (tt, tt)) in
      let one : first ≡ record a { sla_breach_notified_at = some now } ∷ b ∷ [] =
        claim_breach_lem now (a ∷ b ∷ []) first m pair e ∙ (rw x) in
      let again : DistinctIds first = subst DistinctIds (sym one) pair in
      let two : second
          ≡ record a { sla_breach_notified_at = some now }
            ∷ record b { sla_breach_notified_at = some now }
            ∷ [] =
        claim_breach_lem now first second n again f ∙ (rw one (second_claim now a b y)) in
      let last = laws.last_ok _ _ r s in last_of_two now a b r (rw two at last)
