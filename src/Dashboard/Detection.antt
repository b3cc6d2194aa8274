-- ===== src/Dashboard/Detection.antt =====
-- The time to detect on the dashboard.
use servicedesk.Common.{
  ℕ, ◌≤◌, ◌-◌, String, some, List, [], ◌∷◌, ◌≡◌, ◌⊎◌, inl, inr, refl, ap, arith, All, leb,
  Bool-cases, ◌==◌,
}
use servicedesk.Models.Tickets.{Ticket}
use servicedesk.Dashboard.{
  pos, negsuc, sub, between, DurationAvg, add_sample, MttxAverages, ticket_mttx, add_ticket,
  averages, no_averages, compute_mttx, label,
}

-- A ticket is detected when it is created, or before.
unfoldable pub DetectedInTime : Ticket → Type 0
DetectedInTime t = (at : ℕ) × (t.detected_at ≡ some at) × (at ≤ t.created_at)

sub_small : (a b : ℕ) → a ≤ b → (sub a b ≡ pos 0) ⊎ ((n : ℕ) × (sub a b ≡ negsuc n))
unfolding sub
sub_small a b h = elim (Bool-cases (leb b a)) [
  | inl y ↦ inl (rw y (ap pos (ground (arith, y, h))))
  | inr n ↦ inr (b - a - 1, rw n refl)
]

nothing_added :
    (a : DurationAvg) (t : Ticket)
    → DetectedInTime t
    → a.sum ≡ 0
    → (add_sample a (ticket_mttx t).mttd).sum ≡ 0
unfolding DetectedInTime add_sample ticket_mttx between
nothing_added a t (at, e, early) h = elim (sub_small at t.created_at early) [
  | inl z ↦ rw (e, add_sample, ticket_mttx, between) (rw z (omega (arith, h)))
  | inr (n, z) ↦ rw (e, add_sample, ticket_mttx, between) (rw z h)
]

sum_stays :
    (tickets : List Ticket) (a : MttxAverages)
    → All DetectedInTime tickets
    → a.mttd.sum ≡ 0
    → (averages tickets a).mttd.sum ≡ 0
unfolding averages add_ticket
sum_stays [] a all h = h
sum_stays (t ∷ tickets) a all h =
    sum_stays tickets (add_ticket a t) all.1 (nothing_added a.mttd t all.0 h)

-- The dashboard never shows a time to detect: for tickets that were detected when they were created or
-- before, the tile says "-" or the average of samples that are all zero, however long before its
-- creation a ticket was detected.
pub mttd-zero :
    (human : ℕ → ℕ → String) (tickets : List Ticket)
    → All DetectedInTime tickets
    → ((compute_mttx human tickets).mttd ≡ "-")
      ⊎ ((count : ℕ) × ((compute_mttx human tickets).mttd ≡ human 0 count))
unfolding compute_mttx label no_averages
mttd-zero human tickets all =
    let a = averages tickets no_averages in
    elim (Bool-cases (a.mttd.count == 0)) [
      | inl y ↦ inl (rw y refl)
      | inr n ↦ inr (
        a.mttd.count,
        rw n (ap (λ s. human s a.mttd.count) (sum_stays tickets no_averages all refl)),
      )
    ]
