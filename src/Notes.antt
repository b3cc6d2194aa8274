-- ===== src/Notes.antt =====
-- internal/service/note.go, with internal/repo/note.go and `TicketRepo.TouchUpdatedAt` of
-- internal/repo/ticket.go: notes on tickets. The regeneration of the panel that a note starts in the
-- background is a call like the others.
pub mod Latest
use servicedesk.Common.{
  ℕ, String, Bool, true, false, Option, none, some, List, [], ◌∷◌, if◌then◌else◌, ◌==◌, any,
}
use servicedesk.Models.Tickets.{Ticket, Note}
use servicedesk.Auth.Claims.{Claims}
use servicedesk.Store.{Error, Result, ok, err, M, pure, carry_on, ◌>>=◌, ◌>>◌, Table}
use servicedesk.Ticket.Desk.{
  Env, Desk, Call, note_payload, publish, dispatch, trigger, regenerate, call_if, ignore,
}

-- `NoteRepo.Create`
unfoldable pub create_note : Env → Note → M Desk Note
create_note e n d = elim (e.notes_table.create n d.notes) [
  | ok (n', rows) ↦ (record d { notes = rows }, ok n')
  | err x ↦ (d, err x)
]

unfoldable pub touch_updated_at : Env → ℕ → ℕ → M Desk (Unit {0})
touch_updated_at e now id d =
    elim (e.tickets_table.update (λ t. t.id == id) (λ t. record t { updated_at = now }) d.tickets) [
      | ok (_, rows) ↦ (record d { tickets = rows }, ok tt)
      | err x ↦ (d, err x)
    ]

unfoldable pub note_event : Bool → String
note_event internal = if internal then "note.added.internal" else "note.added.external"

unfoldable pub new_note : ℕ → Claims → ℕ → String → Bool → Note
new_note now actor ticket_id body internal = record {
  id = 0;
  ticket_id = ticket_id;
  author_id = actor.user_id;
  body = body;
  internal = internal;
  created_at = now;
}

-- `NoteService.Add`
unfoldable pub add : Env → ℕ → Claims → ℕ → String → Bool → M Desk Note
unfolding note_event new_note
add e now actor ticket_id body internal = do
  n ← create_note e (new_note now actor ticket_id body internal)
  ignore (touch_updated_at e now ticket_id)
  call_if e.has_notifier (publish ticket_id (note_event internal) (note_payload n))
  call_if e.has_webhooks (dispatch (note_event internal) (note_payload n))
  call_if e.has_workflows (trigger "note_added" ticket_id)
  call_if e.has_ai_summary (regenerate ticket_id n.id)
  pure n

-- `NoteRepo.ListForTickets`, whose rows come in the order of their creation.
unfoldable pub list_for_tickets : Table Note → List ℕ → List Note → Result (List Note)
list_for_tickets table [] rows = ok []
list_for_tickets table (id ∷ ids) rows =
    table.find (λ n. any (λ k. n.ticket_id == k) (id ∷ ids)) rows

-- A Go map with numbers for keys: the last write of a key wins.
abbrev pub Latest : Type 0
Latest = List (ℕ × Note)

unfoldable pub put : ℕ → Note → Latest → Latest
put k n [] = (k, n) ∷ []
put k n ((j, m) ∷ rest) = if j == k then (k, n) ∷ rest else (j, m) ∷ put k n rest

unfoldable pub read : ℕ → Latest → Option Note
read k [] = none
read k ((j, m) ∷ rest) = if j == k then some m else read k rest

-- The loop over the notes.
unfoldable pub keep_latest : List Note → Latest → Latest
unfolding put
keep_latest [] latest = latest
keep_latest (n ∷ notes) latest = keep_latest notes (put n.ticket_id n latest)

unfoldable pub latest_for_tickets : Table Note → List ℕ → List Note → Result Latest
unfolding list_for_tickets keep_latest
latest_for_tickets table ids rows = elim (list_for_tickets table ids rows) [
  | ok notes ↦ ok (keep_latest notes [])
  | err x ↦ err x
]
