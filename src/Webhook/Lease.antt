-- ===== src/Webhook/Lease.antt =====
-- The lease of a claim (`ClaimNext` of internal/repo/webhook.go).
use servicedesk.Common.{
  String, false, ◌≤◌, ◌⊎◌, sym, if◌then◌else◌, inr, ==_iff, inl, Bool-cases, subst, ◌≢◌, All, ℕ,
  ◌+◌, ◌<◌, Bool, ◌≡◌, refl, List, [], ◌∷◌, arith, ◌==◌, ◌&&◌, map_if, count_if, ◌∙◌,
}
use servicedesk.Models.Automation.{WebhookDelivery, is_pending}
use servicedesk.Store.{Result, ok, err, IsTable, Result-cases}
use servicedesk.Webhook.{
  Env, Outbox, mark_delivered, mark_failed, due, leased, guarded_claim, claim_lease_seconds,
}

abbrev pub DeliveriesTable : Env → Type 0
DeliveriesTable e =
    IsTable (λ (d : WebhookDelivery). d.id) (λ i d. record d { id = i }) e.deliveries_table

count_none :
    (now id : ℕ) (rows : List WebhookDelivery)
    → All (λ x. x.id ≢ id) rows
    → count_if (λ d. d.id == id && due now d) rows ≡ 0
count_none now id [] h = refl
count_none now id (x ∷ rows) h = ground (arith, count_none now id rows h.1, h.0)

-- The primary key: no two rows have one id.
abbrev pub DistinctIds : List WebhookDelivery → Type 0
DistinctIds [] = Unit {0}
DistinctIds (d ∷ rows) = All (λ x. x.id ≢ d.id) rows × DistinctIds rows

-- A row that no claim before a time takes.
abbrev HeldUntil : ℕ → ℕ → WebhookDelivery → Type 0
HeldUntil limit id d = d.id ≡ id → (is_pending d.status ≡ false) ⊎ (limit ≤ d.next_run_at)

-- What the workers write: a claim for a candidate, and the outcome of a delivery.
pub data Write : Type 0 where
  claim_write : ℕ → ℕ → Write
  delivered_write : ℕ → Write
  failed_write : ℕ → String → ℕ → Bool → Write

-- A write before a time that is not the outcome of the given delivery.
unfoldable pub Foreign : ℕ → ℕ → Write → Type 0
Foreign limit id (claim_write at candidate) = at < limit
Foreign limit id (delivered_write other) = other ≢ id
Foreign limit id (failed_write other msg at give_up) = other ≢ id

or_before : Result (ℕ × List WebhookDelivery) → Outbox → Outbox
or_before (ok (n, rows)) o = record o { deliveries = rows }
or_before (err x) o = o

unfoldable pub write : Env → Outbox → Write → Outbox
unfolding or_before
write e o (claim_write at candidate) = or_before (guarded_claim e at candidate o.deliveries) o
write e o (delivered_write id) = mark_delivered e id o
write e o (failed_write id msg at give_up) = mark_failed e id msg at give_up o

unfoldable pub write_all : Env → Outbox → List Write → Outbox
write_all e o [] = o
write_all e o (w ∷ ws) = write_all e (write e o w) ws

-- Rows of other deliveries are held anyway, whatever a write does to them.
foreign_held :
    (limit id : ℕ) (p : WebhookDelivery → Bool) (f : WebhookDelivery → WebhookDelivery)
    (rows : List WebhookDelivery)
    → ((d : WebhookDelivery) → (f d).id ≡ d.id)
    → All (λ x. x.id ≢ id) rows
    → All (HeldUntil limit id) (map_if p f rows)
foreign_held limit id p f [] same h = tt
foreign_held limit id p f (x ∷ rows) same h = elim (Bool-cases (p x)) [
  | inl y ↦
      (rw y (λ own. absurd (h.0 (sym (same x) ∙ own))), foreign_held limit id p f rows same h.1)
  | inr n ↦ (rw n (λ own. absurd (h.0 own)), foreign_held limit id p f rows same h.1)
]

leased_held :
    (now id : ℕ) (x : WebhookDelivery) (rows : List WebhookDelivery)
    → x.id ≡ id
    → All (λ d. d.id ≢ id) rows
    → 0 < count_if (λ d. d.id == id && due now d) (x ∷ rows)
    → HeldUntil (now + claim_lease_seconds) id (if x.id == id && due now x then leased now x else x)
leased_held now id x rows same others c = elim (Bool-cases (due now x)) [
  | inl y ↦ rw ((==_iff x.id id).1 same, y) (λ own. inr (omega arith))
  | inr n ↦ absurd (ground (arith, n, count_none now id rows others))
]

claimed-HeldUntil :
    (now id : ℕ) (rows : List WebhookDelivery)
    → DistinctIds rows
    → 0 < count_if (λ d. d.id == id && due now d) rows
    → All
        (HeldUntil (now + claim_lease_seconds) id)
        (map_if (λ d. d.id == id && due now d) (leased now) rows)
claimed-HeldUntil now id [] h c = absurd (omega arith)
claimed-HeldUntil now id (x ∷ rows) h c = elim (Bool-cases (x.id == id)) [
  | inr n ↦ (
    rw n (λ own. absurd (cc (n, (==_iff x.id id).1 own))),
    claimed-HeldUntil now id rows h.1 (ground (arith, n)),
  )
  | inl y ↦
      let same = (==_iff x.id id).0 y in
      let others : All (λ d. d.id ≢ id) rows = subst (λ k. All (λ d. d.id ≢ k) rows) same h.0 in
      (
        leased_held now id x rows same others c,
        foreign_held (now + claim_lease_seconds) id (λ d. d.id == id && due now d) (leased now) rows
            (λ d. refl) others,
      )
]

-- A claim before the time changes no held row, and the outcome of another delivery none of this one.
claim_keeps :
    (limit id at candidate : ℕ) (rows : List WebhookDelivery)
    → at < limit
    → All (HeldUntil limit id) rows
    → All (HeldUntil limit id) (map_if (λ d. d.id == candidate && due at d) (leased at) rows)
unfolding due
claim_keeps limit id at candidate [] l h = tt
claim_keeps limit id at candidate (x ∷ rows) l h =
    (ground (arith, h.0), claim_keeps limit id at candidate rows l h.1)

outcome_keeps :
    (limit id other : ℕ) (f : WebhookDelivery → WebhookDelivery) (rows : List WebhookDelivery)
    → ((d : WebhookDelivery) → (f d).id ≡ d.id)
    → other ≢ id
    → All (HeldUntil limit id) rows
    → All (HeldUntil limit id) (map_if (λ d. d.id == other) f rows)
outcome_keeps limit id other f [] same l h = tt
outcome_keeps limit id other f (x ∷ rows) same l h = elim (Bool-cases (x.id == other)) [
  | inl y ↦ (
    rw y (λ own. absurd (l (sym ((==_iff x.id other).0 y) ∙ (sym (same x) ∙ own)))),
    outcome_keeps limit id other f rows same l h.1,
  )
  | inr n ↦ (rw n h.0, outcome_keeps limit id other f rows same l h.1)
]

held_none :
    (limit id later : ℕ) (rows : List WebhookDelivery)
    → later < limit
    → All (HeldUntil limit id) rows
    → count_if (λ d. d.id == id && due later d) rows ≡ 0
unfolding due
held_none limit id later [] l h = refl
held_none limit id later (x ∷ rows) l h = ground (arith, held_none limit id later rows l h.1, h.0)

module _ (e : Env) (laws : DeliveriesTable e) (limit id : ℕ) where
  abbrev AllHeld : Outbox → Type 0
  AllHeld o = All (HeldUntil limit id) o.deliveries

  updated-AllHeld :
      (p : WebhookDelivery → Bool) (f : WebhookDelivery → WebhookDelivery) (o : Outbox)
      → All (HeldUntil limit id) (map_if p f o.deliveries)
      → AllHeld o
      → AllHeld (or_before (e.deliveries_table.update p f o.deliveries) o)
  unfolding or_before
  updated-AllHeld p f o new old = elim (Result-cases (e.deliveries_table.update p f o.deliveries)) [
    | inr (x, h) ↦ rw h old
    | inl ((n, rows), h) ↦
        rw h
          (subst (All (HeldUntil limit id)) (sym (laws.update_ok p f o.deliveries n rows h).1) new)
  ]

  write-AllHeld : (o : Outbox) (w : Write) → Foreign limit id w → AllHeld o → AllHeld (write e o w)
  unfolding Foreign write guarded_claim mark_delivered mark_failed
  write-AllHeld o (claim_write at candidate) l h =
      updated-AllHeld _ _ o (claim_keeps limit id at candidate o.deliveries l h) h
  write-AllHeld o (delivered_write other) l h =
      updated-AllHeld _ _ o (outcome_keeps limit id other _ o.deliveries (λ d. refl) l h) h
  write-AllHeld o (failed_write other msg at give_up) l h =
      updated-AllHeld _ _ o (outcome_keeps limit id other _ o.deliveries (λ d. refl) l h) h

  write_all-AllHeld :
      (o : Outbox) (ws : List Write)
      → All (Foreign limit id) ws
      → AllHeld o
      → AllHeld (write_all e o ws)
  unfolding write_all
  write_all-AllHeld o [] l h = h
  write_all-AllHeld o (w ∷ ws) l h =
      write_all-AllHeld (write e o w) ws l.1 (write-AllHeld o w l.0 h)

-- A claim that took a row holds the delivery for 30 seconds, until its own outcome is written: after
-- any claims within that time, of this delivery or of others, and any outcomes of other deliveries,
-- the guarded update of a worker for this delivery within that time affects no row. The outcome of
-- the delivery itself, which ends the lease, is not among these writes.
pub lease_excludes :
    (e : Env)
    → DeliveriesTable e
    → (now later id n m : ℕ) (o : Outbox) (rows third : List WebhookDelivery)
    → DistinctIds o.deliveries
    → guarded_claim e now id o.deliveries ≡ ok (n, rows)
    → 0 < n
    → (ws : List Write) → All (Foreign (now + claim_lease_seconds) id) ws
    → later < now + claim_lease_seconds
    → guarded_claim e later id (write_all e (record o { deliveries = rows }) ws).deliveries
      ≡ ok (m, third)
    → m ≡ 0
unfolding guarded_claim
lease_excludes e laws now later id n m o rows third distinct first took ws foreign soon second =
    let limit : ℕ = now + claim_lease_seconds in
    let (count, claimed) = laws.update_ok _ _ o.deliveries n rows first in
    let start : All (HeldUntil limit id) rows =
      subst (All (HeldUntil limit id)) (sym claimed)
        (claimed-HeldUntil now id o.deliveries distinct (rw count at took)) in
    let held =
      write_all-AllHeld e laws limit id (record o { deliveries = rows }) ws foreign start in
    (laws.update_ok _ _ (write_all e (record o { deliveries = rows }) ws).deliveries m third
      second).0
    ∙ held_none limit id later (write_all e (record o { deliveries = rows }) ws).deliveries soon
        held
