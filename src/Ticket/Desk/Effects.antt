-- ===== src/Ticket/Desk/Effects.antt =====
-- What the helpers of the ticket service change: the event log, or the calls, and nothing else.
use servicedesk.Common.{
  ℕ, String, ◌≡◌, some, List, [], ◌∷◌, ◌++◌, arith, append-nil, append_assoc, if◌then◌else◌,
  Bool-cases, inl, inr,
}
use servicedesk.Auth.Claims.{Claims}
use servicedesk.Store.{Result, ok, err}
use servicedesk.Ticket.Desk.{
  Env, Desk, Details, EventLog, Payload, Call, publish, dispatch, log_event, fan_out,
}

-- The row that an action of a session writes to the event log.
unfoldable pub entry : ℕ → ℕ → Claims → String → Details → EventLog
entry now ticket_id actor event details = record {
  id = 0;
  ticket_id = some ticket_id;
  actor_id = some actor.user_id;
  event = event;
  details = details;
  sudo_by_id = actor.sudo_by_id;
  created_at = now;
}

created : Result (EventLog × List EventLog) → List EventLog → List EventLog
created (ok (x, rows)) old = rows
created (err x) old = old

-- The event log after a row was offered to it: a write that fails leaves it as it was.
pub appended : Env → EventLog → List EventLog → List EventLog
unfolding created
appended e row rows = created (e.events_table.create row rows) rows

pub fan_calls : Env → String → ℕ → Payload → List Call
fan_calls e event id p =
    (if e.has_notifier then publish id event p ∷ [] else [])
    ++ (if e.has_webhooks then dispatch event p ∷ [] else [])

pub log_event_lem :
    (e : Env) (now id : ℕ) (actor : Claims) (event : String) (details : Details) (d : Desk)
    → log_event e now id actor event details d
      ≡ (record d { events = appended e (entry now id actor event details) d.events }, ok tt)
unfolding log_event appended entry
log_event_lem e now id actor event details d = ground arith

pub fan_out_lem :
    (e : Env) (event : String) (id : ℕ) (p : Payload) (d : Desk)
    → fan_out e event id p d ≡ (record d { calls = d.calls ++ fan_calls e event id p }, ok tt)
unfolding fan_out fan_calls
fan_out_lem e event id p d = elim (Bool-cases e.has_notifier) [
  | inl n ↦ elim (Bool-cases e.has_webhooks) [
    | inl w ↦ rw (n, w) (simp append_assoc)
    | inr w ↦ rw (n, w)
  ]
  | inr n ↦ elim (Bool-cases e.has_webhooks) [
    | inl w ↦ rw (n, w)
    | inr w ↦ rw (n, w) (simp append-nil)
  ]
]
