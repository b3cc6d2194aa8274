-- ===== src/Webhook/Attempts.antt =====
-- The attempts of a delivery (`ProcessOne` of internal/webhook/dispatcher.go).
use servicedesk.Common.{
  ℕ, ◌+◌, ◌≤◌, ◌<◌, String, Bool, true, false, ◌≡◌, refl, ◌≢◌, some, List, [], ◌∷◌, arith, ◌==◌,
  ◌&&◌, leb, All, map_if, count_if, find_first, Bool-cases, inl, inr, ◌⊎◌, if◌then◌else◌, ==_iff,
  subst, sym,
}
use servicedesk.Models.Automation.{WebhookDelivery, pending, delivered, failed, is_pending}
use servicedesk.Store.{All-found, ok, err, Error, Result-cases}
use servicedesk.Webhook.{
  Env, Outbox, due, leased, max_attempts, process_one, claim_next, deliver, succeeded,
}
use servicedesk.Webhook.Lease.{DistinctIds, DeliveriesTable}

-- The database takes every write.
abbrev pub Writes : Env → Type 0
Writes e =
    (p : WebhookDelivery → Bool) (f : WebhookDelivery → WebhookDelivery)
    (rows : List WebhookDelivery)
    → e.deliveries_table.update p f rows ≡ ok (count_if p rows, map_if p f rows)

-- A delivery was sent at most as often as it was claimed, at most three times, and it waits for
-- another attempt only after fewer.
pub record IsBounded (sent : List ℕ) (d : WebhookDelivery) : Type 0 where
  pub sent_claimed : count_if (λ i. i == d.id) sent ≤ d.attempts
  pub claimed_limited : d.attempts ≤ max_attempts
  pub pending_below : is_pending d.status ≡ true → d.attempts < max_attempts

abbrev pub AllBounded : Outbox → Type 0
AllBounded o = All (IsBounded o.sent) o.deliveries

first_ne :
    (b : WebhookDelivery → Bool) (rows : List WebhookDelivery) (d : WebhookDelivery) (k : ℕ)
    → All (λ z. z.id ≢ k) rows
    → find_first b rows ≡ some d
    → d.id ≢ k
first_ne b [] d k h e = absurd (cc)
first_ne b (x ∷ rows) d k h e = elim (Bool-cases (b x)) [
  | inl y ↦
      let same : x ≡ d = ground (arith, y) in subst (λ (r : WebhookDelivery). r.id ≢ k) same h.0
  | inr n ↦ first_ne b rows d k h.1 (ground (arith, n))
]

first_passes :
    (b : WebhookDelivery → Bool) (rows : List WebhookDelivery) (d : WebhookDelivery)
    → find_first b rows ≡ some d
    → b d ≡ true
first_passes b [] d e = absurd (cc)
first_passes b (x ∷ rows) d e = elim (Bool-cases (b x)) [
  | inl y ↦
      let same : x ≡ d = ground (arith, y) in subst (λ (r : WebhookDelivery). b r ≡ true) same y
  | inr n ↦ first_passes b rows d (ground (arith, n))
]

-- The rows with the id of the row found are that row.
only_found :
    (b : WebhookDelivery → Bool) (rows : List WebhookDelivery) (d : WebhookDelivery)
    → DistinctIds rows
    → find_first b rows ≡ some d
    → All (λ x. (x.id ≢ d.id) ⊎ (x ≡ d)) rows
only_found b [] d h e = tt
only_found b (x ∷ rows) d h e = elim (Bool-cases (b x)) [
  | inl y ↦
      let same : x ≡ d = ground (arith, y) in
      (
        inr same,
        others rows (subst (λ (k : WebhookDelivery). All (λ z. z.id ≢ k.id) rows) same h.0),
      )
  | inr n ↦
      let below = only_found b rows d h.1 (ground (arith, n)) in
      (inl (λ q. first_ne b rows d x.id h.0 (ground (arith, n)) (sym q)), below)
]
  where
    others :
        (ys : List WebhookDelivery)
        → All (λ z. z.id ≢ d.id) ys
        → All (λ z. (z.id ≢ d.id) ⊎ (z ≡ d)) ys
    others [] k = tt
    others (z ∷ ys) k = (inl k.0, others ys k.1)

module _ (d : WebhookDelivery) (now : ℕ) (g : WebhookDelivery → WebhookDelivery)
    (sent sent' : List ℕ) (is_due : due now d ≡ true)
    (other : (x : WebhookDelivery) → x.id ≢ d.id → IsBounded sent x → IsBounded sent' x)
    (mine : IsBounded sent' (g (leased now d))) where
  after_one :
      (x : WebhookDelivery)
      → (x.id ≢ d.id) ⊎ (x ≡ d)
      → IsBounded sent x
      → IsBounded sent' (
          let y : WebhookDelivery = (if x.id == d.id && due now x then leased now x else x) in
          if y.id == d.id then g y else y)
  after_one x (inl ne) k =
      let miss : (x.id == d.id) ≡ false = ground arith in rw (miss, miss) (other x ne k)
  after_one x (inr e) k =
      subst
        (λ (x : WebhookDelivery). IsBounded sent' (
          let y : WebhookDelivery = (if x.id == d.id && due now x then leased now x else x) in
          if y.id == d.id then g y else y))
        (sym e)
        (let hit : (d.id == d.id) ≡ true = (==_iff d.id d.id).1 refl in rw (hit, is_due, hit) mine)

  after-AllBounded :
      (rows : List WebhookDelivery)
      → All (λ x. (x.id ≢ d.id) ⊎ (x ≡ d)) rows
      → All (IsBounded sent) rows
      → All
          (IsBounded sent')
          (map_if (λ x. x.id == d.id) g (map_if (λ x. x.id == d.id && due now x) (leased now) rows))
  after-AllBounded [] h k = tt
  after-AllBounded (x ∷ rows) h k = (after_one x h.0 k.0, after-AllBounded rows h.1 k.1)

other_sent :
    (d x : WebhookDelivery) (sent : List ℕ)
    → x.id ≢ d.id
    → IsBounded sent x
    → IsBounded (d.id ∷ sent) x
other_sent d x sent ne k = record {
  sent_claimed = ground (arith, k.sent_claimed);
  claimed_limited = k.claimed_limited;
  pending_below = k.pending_below;
}

found_counted :
    (b : WebhookDelivery → Bool) (rows : List WebhookDelivery) (d : WebhookDelivery)
    → find_first b rows ≡ some d
    → 0 < count_if (λ x. x.id == d.id && b x) rows
found_counted b [] d e = absurd (cc)
found_counted b (x ∷ rows) d e = elim (Bool-cases (b x)) [
  | inl y ↦ let same : x ≡ d = ground (arith, y) in ground (arith, y, same)
  | inr n ↦ ground (arith, n, found_counted b rows d)
]

abbrev failing : String → ℕ → Bool → WebhookDelivery → WebhookDelivery
failing msg at give_up d = record d {
  status = if give_up then failed else pending;
  last_error = msg;
  next_run_at = at;
}

abbrev as_delivered : WebhookDelivery → WebhookDelivery
as_delivered d = record d { status = delivered }

module _ (now : ℕ) (d : WebhookDelivery) (sent : List ℕ) (k : IsBounded sent d)
    (is_due : due now d ≡ true) where
  room : d.attempts < max_attempts
  unfolding due
  room = ground (arith, k.pending_below)

  missing_hook : (msg : String) (at : ℕ) → IsBounded sent (failing msg at true (leased now d))
  missing_hook msg at = record {
    sent_claimed = omega (arith, k.sent_claimed);
    claimed_limited = omega (arith, room);
    pending_below = λ h. absurd (cc);
  }

  counted_once : count_if (λ i. i == d.id) (d.id ∷ sent) ≤ d.attempts + 1
  counted_once = ground (arith, k.sent_claimed)

  delivered_once : IsBounded (d.id ∷ sent) (as_delivered (leased now d))
  delivered_once = record {
    sent_claimed = counted_once;
    claimed_limited = omega (arith, room);
    pending_below = λ h. absurd (cc);
  }

  failed_once :
      (msg : String) (at : ℕ)
      → IsBounded (d.id ∷ sent) (failing msg at (leb max_attempts (d.attempts + 1)) (leased now d))
  failed_once msg at = record {
    sent_claimed = counted_once;
    claimed_limited = omega (arith, room);
    pending_below = λ h. ground (arith, h);
  }

module _ (e : Env) (laws : DeliveriesTable e) (writes : Writes e) (now later : ℕ) (o : Outbox)
    (distinct : DistinctIds o.deliveries) (bounded : AllBounded o) where
  leased_rows : WebhookDelivery → List WebhookDelivery
  leased_rows d = map_if (λ x. x.id == d.id && due now x) (leased now) o.deliveries

  module _ (d : WebhookDelivery) (first : find_first (due now) o.deliveries ≡ some d) where
    self : IsBounded o.sent d
    self = All-found (IsBounded o.sent) (due now) d o.deliveries bounded first

    delivered-AllBounded : AllBounded (
        deliver e later
          (record d { attempts = d.attempts + 1 })
          (record o { deliveries = leased_rows d }))
    unfolding deliver leased_rows
    delivered-AllBounded =
        elim (Result-cases (e.webhooks_table.first (λ w. w.id == d.webhook_id) o.webhooks)) [
          | inr (x, h) ↦
              rw (h, deliver, writes)
                (after-AllBounded d now _ o.sent o.sent passes (λ x _ k. k)
                  (missing_hook now d o.sent self passes _ _) o.deliveries only bounded)
          | inl (hook, h) ↦
              elim (Bool-cases (succeeded (e.send hook (record d { attempts = d.attempts + 1 })))) [
                | inl y ↦
                    rw (h, deliver, y, writes)
                      (after-AllBounded d now _ o.sent (d.id ∷ o.sent) passes
                        (λ x. other_sent d x o.sent) (delivered_once now d o.sent self passes)
                        o.deliveries only bounded)
                | inr n ↦
                    rw (h, deliver, n, writes)
                      (after-AllBounded d now _ o.sent (d.id ∷ o.sent) passes
                        (λ x. other_sent d x o.sent) (failed_once now d o.sent self passes _ _)
                        o.deliveries only bounded)
              ]
        ]
      where
        passes : due now d ≡ true
        passes = first_passes (due now) o.deliveries d first

        only : All (λ x. (x.id ≢ d.id) ⊎ (x ≡ d)) o.deliveries
        only = only_found (due now) o.deliveries d distinct first

    claims :
        e.deliveries_table.first (due now) o.deliveries ≡ ok d
        → claim_next e now o
          ≡ (record o { deliveries = leased_rows d }, ok (record d { attempts = d.attempts + 1 }))
    unfolding claim_next leased_rows
    claims h =
        let some_row : (count_if (λ x. x.id == d.id && due now x) o.deliveries == 0) ≡ false =
          ground (arith, found_counted (due now) o.deliveries d first) in
        rw (h, claim_next, writes, some_row)

  idle :
      (x : Error)
      → e.deliveries_table.first (due now) o.deliveries ≡ err x
      → claim_next e now o ≡ (o, err x)
  unfolding claim_next
  idle x h = rw (h, claim_next)

  -- Three attempts at most: while the database takes every write, each run of the worker keeps every
  -- delivery within its limit. It was sent at most as often as it was claimed, it was claimed at most
  -- three times, and it waits for another attempt only after fewer than three.
  pub process_one-AllBounded : AllBounded (process_one e now later o).0
  unfolding process_one
  process_one-AllBounded = elim (Result-cases (e.deliveries_table.first (due now) o.deliveries)) [
    | inr (x, h) ↦ rw (idle x h) bounded
    | inl (d, h) ↦
        let first = laws.first_ok (due now) o.deliveries d h in
        rw (claims d first h) (delivered-AllBounded d first)
  ]
