-- ===== src/Webhook.antt =====
-- internal/webhook/dispatcher.go and internal/repo/webhook.go: the durable outbox. Times are Unix
-- seconds. The HTTP exchange is a parameter: what a request of a delivery to a hook came back with.
pub mod Attempts
pub mod Lease
use Prim.Native.String.{◌++◌ as str_append}
use servicedesk.Common.{
  ℕ, ◌+◌, ◌^◌, String, Bool, true, false, Option, none, some, List, [], ◌∷◌, ◌++◌, ◌==◌, ◌&&◌, ◌||◌,
  leb, ltb, str_eq, not, keep_if, any, if◌then◌else◌,
}
use servicedesk.Models.Automation.{
  Webhook, WebhookDelivery, DeliveryStatus, pending, delivered, failed, is_pending,
}
use servicedesk.Store.{Error, record_not_found, Result, ok, err, M, Table}

abbrev pub max_attempts : ℕ
max_attempts = 3

abbrev pub claim_lease_seconds : ℕ
claim_lease_seconds = 30

-- A transport error with its text, or a status code with its text.
pub data Response : Type 0 where
  broken : String → Response
  status : ℕ → String → Response

pub record Env : Type 0 where
  pub webhooks_table : Table Webhook
  pub deliveries_table : Table WebhookDelivery
  pub send : Webhook → WebhookDelivery → Response
  pub split_events : String → List String  -- strings.Split at "," and strings.TrimSpace of each part

-- The tables, and the ids of the deliveries of which a request was sent.
pub record Outbox : Type 0 where
  pub webhooks : List Webhook
  pub deliveries : List WebhookDelivery
  pub sent : List ℕ

-- The filter of `ListActiveForEvent`.
unfoldable pub subscribed : Env → String → Webhook → Bool
subscribed e event w =
    w.active && any (λ part. str_eq part event || str_eq part "*") (e.split_events w.events)

unfoldable pub new_delivery : ℕ → ℕ → String → String → WebhookDelivery
new_delivery now webhook_id event payload = record {
  id = 0;
  webhook_id = webhook_id;
  event = event;
  payload = payload;
  status = pending;
  attempts = 0;
  next_run_at = now;
  last_error = "";
  created_at = now;
}

-- `Enqueue`; an error is logged only.
enqueued :
    Result (WebhookDelivery × List WebhookDelivery) → List WebhookDelivery → List WebhookDelivery
enqueued (ok (x, rows)) old = rows
enqueued (err x) old = old

-- The loop of `Dispatch` over the hooks, of which those that are subscribed get a delivery.
unfoldable pub enqueue_all :
    Env → ℕ → String → String → List Webhook → List WebhookDelivery → List WebhookDelivery
unfolding enqueued new_delivery
enqueue_all e now event payload [] rows = rows
enqueue_all e now event payload (h ∷ hooks) rows =
    enqueue_all e now event payload hooks
      (enqueued (e.deliveries_table.create (new_delivery now h.id event payload) rows) rows)

unfoldable pub dispatch : Env → ℕ → String → String → Outbox → Outbox
unfolding subscribed enqueue_all
dispatch e now event payload o = elim (e.webhooks_table.find (λ w. true) o.webhooks) [
  | ok hooks ↦ record o {
    deliveries = enqueue_all e now event payload (keep_if (subscribed e event) hooks) o.deliveries;
  }
  | err x ↦ o
]

unfoldable pub due : ℕ → WebhookDelivery → Bool
due now d = is_pending d.status && leb d.next_run_at now

abbrev pub leased : ℕ → WebhookDelivery → WebhookDelivery
leased now d = record d { attempts = d.attempts + 1; next_run_at = now + claim_lease_seconds }

-- The guarded UPDATE of `ClaimNext`, for the candidate that the SELECT found earlier.
unfoldable pub guarded_claim :
    Env → ℕ → ℕ → List WebhookDelivery → Result (ℕ × List WebhookDelivery)
unfolding due
guarded_claim e now id rows =
    e.deliveries_table.update (λ d. d.id == id && due now d) (leased now) rows

claimed :
    WebhookDelivery → Result (ℕ × List WebhookDelivery) → Outbox → Outbox × Result WebhookDelivery
claimed d (err x) o = (o, err x)
claimed d (ok (affected, rows)) o = (
  record o { deliveries = rows },
  if affected == 0 then err record_not_found else ok (record d { attempts = d.attempts + 1 }),
)

unfoldable pub claim_next : Env → ℕ → M Outbox WebhookDelivery
unfolding due guarded_claim claimed
claim_next e now o = elim (e.deliveries_table.first (due now) o.deliveries) [
  | err x ↦ (o, err x)
  | ok d ↦ claimed d (guarded_claim e now d.id o.deliveries) o
]

-- A write whose error is logged only.
written : Result (ℕ × List WebhookDelivery) → Outbox → Outbox
written (ok (n, rows)) o = record o { deliveries = rows }
written (err x) o = o

unfoldable pub mark_delivered : Env → ℕ → Outbox → Outbox
unfolding written
mark_delivered e id o =
    written
      (e.deliveries_table.update (λ d. d.id == id) (λ d. record d { status = delivered })
        o.deliveries)
      o

unfoldable pub mark_failed : Env → ℕ → String → ℕ → Bool → Outbox → Outbox
unfolding written
mark_failed e id msg next_run_at give_up o =
    written
      (e.deliveries_table.update (λ d. d.id == id)
        (λ d. record d {
          status = if give_up then failed else pending;
          last_error = msg;
          next_run_at = next_run_at;
        })
        o.deliveries)
      o

abbrev pub succeeded : Response → Bool
succeeded (broken msg) = false
succeeded (status code text) = leb 200 code && ltb code 300

abbrev pub failure_text : Response → String
failure_text (broken msg) = msg
failure_text (status code text) = str_append "non-2xx status " text

-- What `ProcessOne` does with the claimed delivery, at the time when the answer is there.
unfoldable pub deliver : Env → ℕ → WebhookDelivery → Outbox → Outbox
unfolding mark_delivered mark_failed
deliver e later d o = elim (e.webhooks_table.first (λ w. w.id == d.webhook_id) o.webhooks) [
  | err x ↦ mark_failed e d.id "webhook config missing" later true o
  | ok hook ↦
      (let o' : Outbox = record o { sent = d.id ∷ o.sent } in
        let r = e.send hook d in
        if succeeded r
        then mark_delivered e d.id o'
        else mark_failed e d.id (failure_text r) (later + 2 ^ d.attempts)
            (leb max_attempts d.attempts) o')
]

finished : Env → ℕ → Outbox × Result WebhookDelivery → Outbox × Bool
unfolding deliver
finished e later (o, ok d) = (deliver e later d o, true)
finished e later (o, err x) = (o, false)

-- `ProcessOne`: a claim at one time, and the outcome written at a later one.
unfoldable pub process_one : Env → ℕ → ℕ → Outbox → Outbox × Bool
unfolding finished
process_one e now later o = finished e later (claim_next e now o)
