-- ===== src/Hub.antt =====
-- internal/sse/hub.go: the event hub. A Go channel with a buffer of 16 is a list; the lock makes every
-- operation one step. What a handler has written to its client stands beside its channel. The text of
-- a message on the wire and the keepalive are left out.
pub mod Streams
use servicedesk.Common.{
  ℕ, suc, String, Bool, true, false, Option, none, some, List, [], ◌∷◌, ◌++◌, ◌||◌, not,
  if◌then◌else◌, ◌==◌, ltb, any, map, map_if, keep_if, length, points_to,
}
use servicedesk.Models.Tickets.{Ticket, Watcher}
use servicedesk.Store.{Result, ok, err, Table}
use servicedesk.Ticket.Desk.{Env, Desk, Payload}

pub record Message : Type 0 where
  pub ticket_id : ℕ
  pub event : String
  pub payload : Payload

-- A channel, the user it is registered for, what waits in it, and what its handler has written.
pub record Subscription : Type 0 where
  pub channel : ℕ
  pub user_id : ℕ
  pub buffer : List Message
  pub written : List Message

-- The registered channels; `next` is a channel that was never made.
pub record Hub : Type 0 where
  pub next : ℕ
  pub subscribers : List Subscription

abbrev pub buffer_size : ℕ
buffer_size = 16

unfoldable pub subscribe : ℕ → Hub → Hub
subscribe user_id h = record {
  next = suc h.next;
  subscribers =
      record { channel = h.next; user_id = user_id; buffer = []; written = [] } ∷ h.subscribers;
}

unfoldable pub cancel : ℕ → Hub → Hub
cancel channel h = record h {
  subscribers = keep_if (λ s. not (s.channel == channel)) h.subscribers;
}

-- `WatcherRepo.ListUserIDsForTicket`
unfoldable pub list_user_ids_for_ticket : Table Watcher → ℕ → List Watcher → Result (List ℕ)
list_user_ids_for_ticket table ticket_id rows =
    elim (table.find (λ w. w.ticket_id == ticket_id) rows) [
      | ok found ↦ ok (map (λ w. w.user_id) found)
      | err x ↦ err x
    ]

among : Result (List ℕ) → ℕ → Bool
among (ok ids) user_id = any (λ id. id == user_id) ids
among (err x) user_id = false

owns : Result Ticket → ℕ → Bool
owns (ok t) user_id = points_to t.assignee_id user_id
owns (err x) user_id = false

-- The set `recipients`: the watchers of the ticket and its assignee; a lookup that fails adds nobody.
unfoldable pub is_recipient : Env → Desk → ℕ → ℕ → Bool
unfolding list_user_ids_for_ticket among owns
is_recipient e d ticket_id user_id =
    among (list_user_ids_for_ticket e.watchers_table ticket_id d.watchers) user_id
    || owns (e.tickets_table.first (λ t. t.id == ticket_id) d.tickets) user_id

-- A send that does not block: a full channel drops the message.
unfoldable pub offer : Message → Subscription → Subscription
offer m s =
    if ltb (length s.buffer) buffer_size then record s { buffer = s.buffer ++ m ∷ [] } else s

unfoldable pub publish : Env → Desk → Message → Hub → Hub
unfolding is_recipient offer
publish e d m h = record h {
  subscribers = map_if (λ s. is_recipient e d m.ticket_id s.user_id) (offer m) h.subscribers;
}

-- The handler receives one message of its channel and writes it.
unfoldable pub receive : Subscription → Subscription
receive s = elim s.buffer [
  | [] ↦ s
  | m ∷ rest ↦ record s { buffer = rest; written = s.written ++ m ∷ [] }
]

unfoldable pub deliver : ℕ → Hub → Hub
unfolding receive
deliver channel h = record h {
  subscribers = map_if (λ s. s.channel == channel) receive h.subscribers;
}
