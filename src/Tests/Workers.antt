-- ===== src/Tests/Workers.antt =====
-- The workers of the outbox and of the breaches, on small tables.
use servicedesk.Common.{false, ℕ, true, ◌≡◌, refl, some, [], ◌∷◌, arith}
use servicedesk.Models.Tickets.{Ticket, in_progress}
use servicedesk.Models.Automation.{Webhook, WebhookDelivery, pending}
use servicedesk.Store.{Table}
use servicedesk.Store.Memory.{memory, memory-IsTable}
use servicedesk.Webhook.{Env, Outbox, status, guarded_claim, process_one, mark_failed, leased}
use servicedesk.Webhook.Lease.{claim_write, failed_write, Foreign, write, write_all, lease_excludes}
use servicedesk.Webhook.Attempts.{process_one-AllBounded, AllBounded}
use servicedesk.Breach.{breach_candidate, claim_breach, select_claimed}
use servicedesk.Breach.Claims.{stamp_all, stamp_first, select-claim, claims_collide}
use servicedesk.Tests.Fixtures.{ticket}

abbrev outbox_env : Env
outbox_env = record {
  webhooks_table = memory (λ w. w.id) (λ i w. record w { id = i });
  deliveries_table = memory (λ d. d.id) (λ i d. record d { id = i });
  send = λ w d. status 500 "down";
  split_events = λ s. s ∷ [];
}

abbrev a_hook : Webhook
a_hook = record { id = 1; url = "http://hook"; events = "*"; secret = "s"; active = true }

abbrev delivery : ℕ → WebhookDelivery
delivery attempts = record {
  id = 5;
  webhook_id = 1;
  event = "ticket.created";
  payload = "{}";
  status = pending;
  attempts = attempts;
  next_run_at = 100;
  last_error = "";
  created_at = 90;
}

abbrev an_outbox : Outbox
an_outbox = record { webhooks = a_hook ∷ []; deliveries = delivery 2 ∷ []; sent = 5 ∷ [] }

process_one-AllBounded_example : AllBounded (process_one outbox_env 100 101 an_outbox).0
unfolding memory
process_one-AllBounded_example =
    process_one-AllBounded outbox_env (memory-IsTable (λ d. d.id) (λ i d. record d { id = i }))
      (λ p f rows. refl) 100 101 an_outbox (tt, tt)
      (
        record {
          sent_claimed = omega arith;
          claimed_limited = omega arith;
          pending_below = λ h. omega arith;
        },
        tt,
      )

-- One delivery that is due.
abbrev one_delivery : Outbox
one_delivery = record { webhooks = []; deliveries = delivery 0 ∷ []; sent = [] }

lease_excludes_example : ◌≡◌ {A = ℕ} 0 0
unfolding memory guarded_claim Foreign write write_all mark_failed
lease_excludes_example =
    lease_excludes outbox_env (memory-IsTable (λ d. d.id) (λ i d. record d { id = i })) 100 120 5 1
      0 one_delivery (leased 100 (delivery 0) ∷ []) (leased 100 (delivery 0) ∷ []) (tt, tt) refl
      (omega arith) (claim_write 110 5 ∷ failed_write 6 "down" 112 false ∷ [])
      (omega arith, ((λ e. absurd (cc e)), tt)) (omega arith) refl

abbrev tickets_table : Table Ticket
tickets_table = memory (λ t. t.id) (λ i t. record t { id = i })

abbrev claimed_at : ℕ → ℕ → Ticket
claimed_at id now = record (ticket id in_progress) { sla_breach_notified_at = some now }

select-claim_example : (claimed_at 1 200).id ≡ 1
unfolding memory claim_breach select_claimed breach_candidate stamp_all stamp_first
select-claim_example =
    select-claim tickets_table (memory-IsTable (λ t. t.id) (λ i t. record t { id = i })) 200 1 1
      (ticket 1 in_progress ∷ ticket 2 in_progress ∷ [])
      (claimed_at 1 200 ∷ ticket 2 in_progress ∷ []) (300 ∷ []) (claimed_at 1 200)
      ((λ q. absurd (omega arith), tt), (tt, tt)) (λ q. absurd (cc), (λ q. absurd (cc), tt)) refl
      refl ((λ q. omega arith), tt) refl

claims_collide_example : (claimed_at 2 200).id ≡ (ticket 2 in_progress).id
unfolding memory claim_breach select_claimed breach_candidate
claims_collide_example =
    claims_collide tickets_table (memory-IsTable (λ t. t.id) (λ i t. record t { id = i })) 200 1 1
      (ticket 1 in_progress) (ticket 2 in_progress) (claimed_at 2 200)
      (claimed_at 1 200 ∷ ticket 2 in_progress ∷ []) (claimed_at 1 200 ∷ claimed_at 2 200 ∷ [])
      (λ q. omega arith) refl refl refl refl refl
