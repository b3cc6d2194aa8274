-- ===== src/Tests/Panel.antt =====
-- A correction on the AI panel of a ticket.
use servicedesk.Common.{◌≡◌, refl, none, [], ◌∷◌, eq_iff, set_key}
use servicedesk.Models.Tickets.{in_progress}
use servicedesk.Store.{ok}
use servicedesk.Store.Memory.{memory, memory-IsTable}
use servicedesk.Summary.{Env, Panel, snapshot, persist, edit_field, latest, extract_json_object}
use servicedesk.Summary.Locks.{
  IsLocked, regenerate_request, edit_request, serve_all, edit_field-IsLocked,
}
use servicedesk.Tests.Fixtures.{ticket}

-- A model that wraps its reply in a sentence.
abbrev panel_env : Env
panel_env = record {
  tickets_table = memory (λ t. t.id) (λ i t. record t { id = i });
  notes_table = memory (λ n. n.id) (λ i n. record n { id = i });
  snapshots_table = memory (λ s. s.id) (λ i s. record s { id = i });
  prompt = "Summarize";
  llm_complete = λ prompt text. ok "Sure: {} there";
  decode_fields = λ json. ok (("symptom", json) ∷ ("diagnosis", "unknown") ∷ []);
}

abbrev empty_panel : Panel
empty_panel = record { tickets = ticket 1 in_progress ∷ []; notes = []; snapshots = [] }

abbrev edited_panel : Panel
edited_panel = record empty_panel {
  snapshots =
      record (snapshot 10 1 none "human_edit" (("symptom", "Smoke") ∷ []) ("symptom" ∷ [])) {
        id = 1;
      }
      ∷ [];
}

extracted : extract_json_object "Sure: {\"a\": \"{}\"} there" ≡ "{\"a\": \"{}\"}"
unfolding extract_json_object
extracted = refl

edit_field-IsLocked_example :
    IsLocked 1 "symptom" "Smoke"
      (serve_all panel_env 1 edited_panel
        ((20, regenerate_request none) ∷ (30, edit_request "diagnosis" "Fire") ∷ [])).snapshots
unfolding memory edit_field persist snapshot latest set_key
edit_field-IsLocked_example =
    edit_field-IsLocked panel_env (memory-IsTable (λ s. s.id) (λ i s. record s { id = i }))
      (λ p rows s h. rw h refl) 1 "symptom" "Smoke" 10 empty_panel edited_panel
      ((20, regenerate_request none) ∷ (30, edit_request "diagnosis" "Fire") ∷ []) refl
      (tt, (λ q. cc ((eq_iff "diagnosis" "symptom").1 q), tt))
