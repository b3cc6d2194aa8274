-- ===== src/Tests/Feeds.antt =====
-- Runs of the attachments, the notes, the event hub and the dashboard.
use servicedesk.Common.{
  false, not, any, ◌⊎◌, arith, ℕ, true, false, none, some, List, [], ◌∷◌, ◌≡◌, refl, ◌⊎◌,
}
use servicedesk.Models.Roles.{is_agent, User, customer, engineer}
use servicedesk.Models.Tickets.{in_progress, closed, Note, Attachment, new}
use servicedesk.Store.{IsTable}
use servicedesk.Store.Memory.{memory, memory-IsTable}
use servicedesk.Notes.{Latest, read, latest_for_tickets}
use servicedesk.Notes.Latest.{read-latest_for_tickets}
use servicedesk.Attachments.{Files}
use servicedesk.Attachments.Stored.{
  Request, upload_request, note_request, serve_all, AllSound, serve_all-AllSound,
}
use servicedesk.Hub.{Message}
use servicedesk.Hub.Streams.{
  Step, subscribe_step, publish_step, deliver_step, run, addressed, AllFaithful, run-streams,
}
use servicedesk.Ticket.Desk.{note_payload}
use servicedesk.Dashboard.Counts.{queue_stats-counts}
use servicedesk.Dashboard.Loads.{carried, engineer_loads-counts}
use servicedesk.Dashboard.{
  queue_stats, engineer_loads, is_overloaded, staff_of, EngineerLoad, compute_mttx,
}
use servicedesk.Dashboard.Detection.{DetectedInTime, mttd-zero}
use servicedesk.Tests.Fixtures.{a_queue, an_env, desk, session, ticket}

abbrev files : Files
files = record { ext = λ s. ".txt"; to_lower = λ s. s; detect_content_type = λ b. "text/plain" }

abbrev notes_law : IsTable (λ n. n.id) (λ i (n : Note). record n { id = i }) an_env.notes_table
notes_law = memory-IsTable (λ n. n.id) (λ i (n : Note). record n { id = i })

-- An internal note, a file on it, a file that is too large, and a file of a customer.
abbrev uploads : List (ℕ × Request)
uploads =
    (5, note_request (session engineer 7) 1 "look" true)
    ∷ (6, upload_request (session engineer 7) 1 (some 1) "log.txt" (1 ∷ 2 ∷ []))
    ∷ (7, upload_request (session engineer 7) 1 none "log.txt" (1 ∷ 2 ∷ 3 ∷ 4 ∷ []))
    ∷ (8, upload_request (session customer 9) 1 none "log.txt" (1 ∷ []))
    ∷ []

serve_all-AllSound_example :
    AllSound files 3 (serve_all an_env files 3 (desk (ticket 1 new ∷ [])) uploads)
serve_all-AllSound_example =
    serve_all-AllSound an_env files 3
      (memory-IsTable (λ a. a.id) (λ i (a : Attachment). record a { id = i })) notes_law.first_ok
      (λ n n' rows after h.
        let (i, made, grown, free) = notes_law.create_ok n n' rows after h in grown)
      (desk (ticket 1 new ∷ [])) uploads tt

abbrev a_note : ℕ → ℕ → Note
a_note id ticket_id = record {
  id = id;
  ticket_id = ticket_id;
  author_id = 7;
  body = "look";
  internal = false;
  created_at = 5;
}

notes : List Note
notes = a_note 1 4 ∷ a_note 2 5 ∷ a_note 3 4 ∷ []

previews : Latest
unfolding notes latest_for_tickets
previews = (4, a_note 3 4) ∷ []

read-latest_for_tickets_example : read 4 previews ≡ some (a_note 3 4)
unfolding previews notes memory latest_for_tickets
read-latest_for_tickets_example =
    read-latest_for_tickets an_env.notes_table notes_law.find_ok 4 (4 ∷ []) notes previews refl

abbrev a_message : Message
a_message = record {
  ticket_id = 1;
  event = "note.added.internal";
  payload = note_payload (a_note 1 1);
}

abbrev steps : List Step
steps = subscribe_step 7 ∷ publish_step (desk (ticket 1 new ∷ [])) a_message ∷ deliver_step 0 ∷ []

run-streams_example :
    AllFaithful
      (λ u. addressed an_env steps u [])
      (run an_env (record { next = 0; subscribers = [] }) steps)
run-streams_example = run-streams an_env steps

mttd-zero_example :
    ((compute_mttx (λ s n. "0m") (ticket 1 new ∷ [])).mttd ≡ "-")
    ⊎ ((count : ℕ) × ((compute_mttx (λ s n. "0m") (ticket 1 new ∷ [])).mttd ≡ "0m"))
unfolding DetectedInTime
mttd-zero_example = mttd-zero (λ s n. "0m") (ticket 1 new ∷ []) ((10, refl, omega arith), tt)

abbrev a_member : User
a_member = record {
  id = 7;
  username = "eve";
  email = "";
  password_hash = "h";
  role = engineer;
  source = "db";
  api_token_id = none;
  api_token_hash = none;
  created_at = 0;
}

engineer_loads-counts_example :
    (engineer_loads (ticket 1 in_progress ∷ []) (a_member ∷ [])
      ≡ record { user_id = 7; username = "eve"; load = 1; overloaded = false } ∷ [])
    × ((staff_of (a_member ∷ []) ≡ [])
        ⊎ (any
              (λ (l : EngineerLoad). not l.overloaded)
              (engineer_loads (ticket 1 in_progress ∷ []) (a_member ∷ []))
            ≡ true))
unfolding is_overloaded staff_of carried is_agent
engineer_loads-counts_example = engineer_loads-counts (ticket 1 in_progress ∷ []) (a_member ∷ [])

queue_stats-counts_example :
    queue_stats 200 (ticket 1 in_progress ∷ ticket 2 closed ∷ []) (a_queue ∷ [])
    ≡ record { queue_id = 1; name = "Default"; open_count = 1; breaching = 1 } ∷ []
queue_stats-counts_example =
    queue_stats-counts 200 (ticket 1 in_progress ∷ ticket 2 closed ∷ []) (a_queue ∷ [])
