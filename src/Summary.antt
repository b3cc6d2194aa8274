-- ===== src/Summary.antt =====
-- internal/service/aisummary.go: the snapshots of the AI panel, and the fields that a person locked.
-- The reply of the language model and the decoding of its JSON text are parameters.
pub mod Merging
pub mod Locks
use Prim.Native.String.{◌++◌ as str_append, len, slice}
use text.Mathlib.Text.{find?}
use servicedesk.Common.{
  ℕ, zero, suc, String, Bool, true, false, Option, none, some, List, [], ◌∷◌, ◌++◌, ◌==◌, ltb, not,
  str_eq, any, keep_if, if◌then◌else◌, get_key, set_key,
}
use servicedesk.Models.Tickets.{Ticket, Note}
use servicedesk.Models.Knowledge.{TicketAiSnapshot}
use servicedesk.Store.{Error, failure, Result, ok, err, M, fail_if, carry_on, ◌>>=◌, ◌>>◌, Table}
use servicedesk.Visibility.{list_by_ticket}

abbrev pub Fields : Type 0
Fields = List (String × String)

abbrev pub summary_field_order : List (String × String)
summary_field_order =
    ("symptom", "Symptom")
    ∷ ("what_tried", "What the user already tried")
    ∷ ("problem_statement", "Problem statement")
    ∷ ("diagnosis", "Diagnosis")
    ∷ ("mitigation", "Mitigation")
    ∷ ("resolution", "Resolution")
    ∷ []

pub record Env : Type 0 where
  pub tickets_table : Table Ticket
  pub notes_table : Table Note
  pub snapshots_table : Table TicketAiSnapshot
  pub prompt : String
  pub llm_complete : String → String → Result String
  pub decode_fields : String → Result Fields

pub record Panel : Type 0 where
  pub tickets : List Ticket
  pub notes : List Note
  pub snapshots : List TicketAiSnapshot

-- `strings.LastIndexByte` for a closing brace, among the first bytes.
last_brace : String → ℕ → Option ℕ
last_brace s zero = none
last_brace s (suc n) =
    let rest = last_brace s n in if str_eq (slice s n (suc n)) "}" then some n else rest

unfoldable pub extract_json_object : String → String
unfolding last_brace
extract_json_object s = elim (find? s "{") [
  | none ↦ s
  | some start ↦ elim (last_brace s (len s)) [
    | none ↦ s
    | some end ↦ if ltb end start then s else slice s start (suc end)
  ]
]

abbrev pub valid_summary_field : String → Bool
valid_summary_field field = any (λ f. str_eq f.0 field) summary_field_order

abbrev pub contains : List String → String → Bool
contains ss v = any (λ s. str_eq s v) ss

abbrev pub remove_string : List String → String → List String
remove_string ss v = keep_if (λ s. not (str_eq s v)) ss

-- The text of the ticket and its notes that the model reads.
note_lines : List Note → String
note_lines [] = ""
note_lines (n ∷ notes) =
    let kind = if n.internal then "internal" else "external" in
    str_append (str_append "- [" (str_append kind (str_append "] " (str_append n.body "\n"))))
      (note_lines notes)

unfoldable pub history : Ticket → List Note → String
unfolding note_lines
history t notes = str_append "Title: " (
    str_append t.title (
      str_append "\nDescription: "
        (str_append t.description (str_append "\n\nNotes:\n" (note_lines notes)))))

decoded : Env → Result String → Result Fields
unfolding extract_json_object
decoded e (ok reply) = e.decode_fields (extract_json_object reply)
decoded e (err x) = err x

unfoldable pub complete : Env → Ticket → List Note → Result Fields
unfolding history decoded
complete e t notes = decoded e (e.llm_complete e.prompt (history t notes))

get_ticket : Env → ℕ → M Panel Ticket
get_ticket e id p = (p, e.tickets_table.first (λ t. t.id == id) p.tickets)

list_notes : Env → ℕ → M Panel (List Note)
list_notes e id p = (p, e.notes_table.find (λ n. n.ticket_id == id) p.notes)

-- `AISnapshotRepo.Latest`
unfoldable pub latest : Env → ℕ → Panel → Result TicketAiSnapshot
latest e id p = e.snapshots_table.last (λ s. s.ticket_id == id) p.snapshots

unfoldable pub snapshot : ℕ → ℕ → Option ℕ → String → Fields → List String → TicketAiSnapshot
snapshot now id note source fields locked = record {
  id = 0;
  ticket_id = id;
  triggering_note_id = note;
  source = source;
  fields = fields;
  edited_fields = locked;
  generated_at = now;
}

unfoldable pub persist : Env → ℕ → ℕ → Option ℕ → String → Fields → List String → M Panel (Unit {0})
unfolding snapshot
persist e now id note source fields locked p =
    elim (e.snapshots_table.create (snapshot now id note source fields locked) p.snapshots) [
      | ok (_, rows) ↦ (record p { snapshots = rows }, ok tt)
      | err x ↦ (p, err x)
    ]

keep_value : Option String → String → Fields → Fields
keep_value none k fresh = fresh
keep_value (some v) k fresh = set_key k v fresh

-- The loop over the locked fields.
unfoldable pub merge_locked : List String → Fields → Fields → Fields
unfolding keep_value
merge_locked [] prev fresh = fresh
merge_locked (k ∷ locked) prev fresh =
    merge_locked locked prev (keep_value (get_key k prev) k fresh)

merged : Result TicketAiSnapshot → Fields → Fields × List String
unfolding merge_locked
merged (ok prev) fresh = (merge_locked prev.edited_fields prev.fields fresh, prev.edited_fields)
merged (err x) fresh = (fresh, [])

unfoldable pub regenerate : Env → ℕ → ℕ → Option ℕ → M Panel (Unit {0})
unfolding get_ticket list_notes merged
regenerate e now id note = do
  t ← get_ticket e id
  notes ← list_notes e id
  fresh ← (λ p. (p, complete e t notes))
  (fields, locked) ← (λ p. (p, ok (merged (latest e id p) fresh)))
  persist e now id note "ai" fields locked

-- A missing snapshot is an empty base, and so is one that cannot be read.
unfoldable pub latest_or_empty : Result TicketAiSnapshot → Fields × List String
latest_or_empty (ok prev) = (prev.fields, prev.edited_fields)
latest_or_empty (err x) = ([], [])

unfoldable pub edit_field : Env → ℕ → ℕ → String → String → M Panel (Unit {0})
unfolding latest_or_empty
edit_field e now id field value = do
  fail_if (not (valid_summary_field field)) (failure "unknown summary field")
  (fields, locked) ← (λ p. (p, ok (latest_or_empty (latest e id p))))
  persist e now id none "human_edit" (set_key field value fields)
      (if contains locked field then locked else locked ++ field ∷ [])

-- The zero value of a missing key.
abbrev pub value_of : Option String → String
value_of none = ""
value_of (some v) = v

unfoldable pub regenerate_field : Env → ℕ → ℕ → String → M Panel (Unit {0})
unfolding get_ticket list_notes latest_or_empty
regenerate_field e now id field = do
  fail_if (not (valid_summary_field field)) (failure "unknown summary field")
  t ← get_ticket e id
  notes ← list_notes e id
  fresh ← (λ p. (p, complete e t notes))
  (fields, locked) ← (λ p. (p, ok (latest_or_empty (latest e id p))))
  persist e now id none "ai" (set_key field (value_of (get_key field fresh)) fields)
      (remove_string locked field)
