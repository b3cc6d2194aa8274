-- ===== src/Summary/Locks.antt =====
-- Requests on the AI panel of a ticket (internal/service/aisummary.go), and its locked fields.
use servicedesk.Common.{
  All, ℕ, String, Bool, true, ◌≡◌, refl, ◌≢◌, inl, inr, Option, none, some, List, [], ◌∷◌, ◌++◌,
  not, get_key, set_key, get_key-set_key, get_key_other, find_last, ◌∙◌, Bool-cases, if◌then◌else◌,
  ◌==◌, subst, sym, ap, ==_iff,
}
use servicedesk.Models.Knowledge.{TicketAiSnapshot}
use servicedesk.Store.{failure, Result, ok, err, Result-cases, IsTable}
use servicedesk.Summary.Merging.{
  merge_locked-keeps, find_last-append_one, contains-remove_string, contains-added, contains-edited,
}
use servicedesk.Summary.{
  Env, Panel, Fields, latest, snapshot, persist, regenerate, edit_field, regenerate_field, contains,
  valid_summary_field, latest_or_empty, complete,
}

abbrev pub SnapshotsTable : Env → Type 0
SnapshotsTable e =
    IsTable (λ (s : TicketAiSnapshot). s.id) (λ i s. record s { id = i }) e.snapshots_table

-- A read of the last row that meets a condition returns it.
abbrev pub Reads : Env → Type 0
Reads e =
    (p : TicketAiSnapshot → Bool) (rows : List TicketAiSnapshot) (s : TicketAiSnapshot)
    → find_last p rows ≡ some s
    → e.snapshots_table.last p rows ≡ ok s

-- The latest snapshot of the ticket has the value for the field, and has it locked.
pub record IsLocked (id : ℕ) (k v : String) (rows : List TicketAiSnapshot) : Type 0 where
  pub current : TicketAiSnapshot
  pub is_current : find_last (λ s. s.ticket_id == id) rows ≡ some current
  pub has_value : get_key k current.fields ≡ some v
  pub has_lock : contains current.edited_fields k ≡ true

module _ (e : Env) (laws : SnapshotsTable e) (id : ℕ) (k v : String) where
  appended-IsLocked :
      (i now : ℕ) (note : Option ℕ) (source : String) (fields : Fields) (locked : List String)
      (rows : List TicketAiSnapshot)
      → get_key k fields ≡ some v
      → contains locked k ≡ true
      → IsLocked id k v (rows ++ record (snapshot now id note source fields locked) { id = i } ∷ [])
  unfolding snapshot
  appended-IsLocked i now note source fields locked rows g c = record {
    current = record (snapshot now id note source fields locked) { id = i };
    is_current = find_last-append_one (λ s. s.ticket_id == id) rows _ ((==_iff id id).1 refl);
    has_value = g;
    has_lock = c;
  }

  created-IsLocked :
      (now : ℕ) (note : Option ℕ) (source : String) (fields : Fields) (locked : List String)
      (old rows : List TicketAiSnapshot) (s : TicketAiSnapshot)
      → get_key k fields ≡ some v
      → contains locked k ≡ true
      → e.snapshots_table.create (snapshot now id note source fields locked) old ≡ ok (s, rows)
      → IsLocked id k v rows
  created-IsLocked now note source fields locked old rows s g c q =
      let (i, made, after, fresh) =
        laws.create_ok (snapshot now id note source fields locked) s old rows q in
      subst (IsLocked id k v) (sym (after ∙ ap (λ r. old ++ r ∷ []) made))
        (appended-IsLocked i now note source fields locked old g c)

  persist-IsLocked :
      (now : ℕ) (note : Option ℕ) (source : String) (fields : Fields) (locked : List String)
      (p : Panel)
      → get_key k fields ≡ some v
      → contains locked k ≡ true
      → IsLocked id k v p.snapshots
      → IsLocked id k v (persist e now id note source fields locked p).0.snapshots
  unfolding persist
  persist-IsLocked now note source fields locked p g c h =
      elim (Result-cases
        (e.snapshots_table.create (snapshot now id note source fields locked) p.snapshots)) [
          | inr (x, q) ↦ rw (q, persist) h
          | inl ((s, rows), q) ↦
              rw (q, persist)
                (created-IsLocked now note source fields locked p.snapshots rows s g c q)
        ]

  module _ (reads : Reads e) (now : ℕ) (p : Panel) (h : IsLocked id k v p.snapshots) where
    known : latest e id p ≡ ok h.current
    unfolding latest
    known = reads (λ s. s.ticket_id == id) p.snapshots h.current h.is_current

    regenerate-IsLocked :
        (note : Option ℕ) → IsLocked id k v (regenerate e now id note p).0.snapshots
    unfolding regenerate
    regenerate-IsLocked note =
        elim (Result-cases (e.tickets_table.first (λ t. t.id == id) p.tickets)) [
          | inr (x, q) ↦ rw (q, regenerate) h
          | inl (t, q) ↦ elim (Result-cases (e.notes_table.find (λ n. n.ticket_id == id) p.notes)) [
            | inr (x, r) ↦ rw (q, r, regenerate) h
            | inl (notes, r) ↦ elim (Result-cases (complete e t notes)) [
              | inr (x, c) ↦ rw (q, r, c, regenerate) h
              | inl (fresh, c) ↦
                  rw (q, r, c, known, regenerate)
                    (persist-IsLocked now note "ai" _ _ p
                      (merge_locked-keeps k v h.current.edited_fields h.current.fields fresh
                        h.has_value h.has_lock)
                      h.has_lock h)
            ]
          ]
        ]

    edit_other-IsLocked :
        (j w : String) → j ≢ k → IsLocked id k v (edit_field e now id j w p).0.snapshots
    unfolding edit_field
    edit_other-IsLocked j w d = elim (Bool-cases (not (valid_summary_field j))) [
      | inl y ↦ rw (y, edit_field) h
      | inr n ↦
          rw (n, known, edit_field)
            (persist-IsLocked now none "human_edit" _ _ p
              (get_key_other k j w h.current.fields d ∙ h.has_value)
              (contains-added h.current.edited_fields j k h.has_lock) h)
    ]

    regenerate_other-IsLocked :
        (j : String) → j ≢ k → IsLocked id k v (regenerate_field e now id j p).0.snapshots
    unfolding regenerate_field
    regenerate_other-IsLocked j d = elim (Bool-cases (not (valid_summary_field j))) [
      | inl y ↦ rw (y, regenerate_field) h
      | inr z ↦ elim (Result-cases (e.tickets_table.first (λ t. t.id == id) p.tickets)) [
        | inr (x, q) ↦ rw (z, q, regenerate_field) h
        | inl (t, q) ↦ elim (Result-cases (e.notes_table.find (λ n. n.ticket_id == id) p.notes)) [
          | inr (x, r) ↦ rw (z, q, r, regenerate_field) h
          | inl (notes, r) ↦ elim (Result-cases (complete e t notes)) [
            | inr (x, c) ↦ rw (z, q, r, c, regenerate_field) h
            | inl (fresh, c) ↦
                rw (z, q, r, c, known, regenerate_field)
                  (persist-IsLocked now none "ai" _ _ p
                    (get_key_other k j _ h.current.fields d ∙ h.has_value)
                    (contains-remove_string h.current.edited_fields j k d h.has_lock) h)
          ]
        ]
      ]
    ]

  persisted-IsLocked :
      (now : ℕ) (note : Option ℕ) (source : String) (fields : Fields) (locked : List String)
      (p p' : Panel)
      → get_key k fields ≡ some v
      → contains locked k ≡ true
      → persist e now id note source fields locked p ≡ (p', ok tt)
      → IsLocked id k v p'.snapshots
  unfolding persist
  persisted-IsLocked now note source fields locked p p' g c h =
      elim (Result-cases
        (e.snapshots_table.create (snapshot now id note source fields locked) p.snapshots)) [
          | inr (x, q) ↦
              let failed : (p, err x) ≡ (p', ok tt) = rw (q, persist) at h in
              absurd (cc (ap (λ (r : Panel × Result (Unit {0})). r.1) failed))
          | inl ((s, rows), q) ↦
              let written : (record p { snapshots = rows }, ok tt) ≡ (p', ok tt) =
                rw (q, persist) at h in
              subst (λ (r : Panel × Result (Unit {0})). IsLocked id k v r.0.snapshots) written
                (created-IsLocked now note source fields locked p.snapshots rows s g c q)
        ]

  edited-IsLocked :
      (now : ℕ) (p p' : Panel)
      → edit_field e now id k v p ≡ (p', ok tt)
      → IsLocked id k v p'.snapshots
  unfolding edit_field
  edited-IsLocked now p p' h = elim (Bool-cases (not (valid_summary_field k))) [
    | inl y ↦
        let failed : edit_field e now id k v p ≡ (p, err (failure "unknown summary field")) =
          rw (y, edit_field) in
        absurd (cc (ap (λ (r : Panel × Result (Unit {0})). r.1) (sym failed ∙ h)))
    | inr n ↦
        let base = latest_or_empty (latest e id p) in
        persisted-IsLocked now none "human_edit" (set_key k v base.0)
          (if contains base.1 k then base.1 else base.1 ++ k ∷ []) p p' (get_key-set_key k v base.0)
          (contains-edited base.1 k) (rw (n, edit_field) at h)
  ]

-- A request on the panel of one ticket.
pub data PanelRequest : Type 0 where
  regenerate_request : Option ℕ → PanelRequest
  edit_request : String → String → PanelRequest
  regenerate_field_request : String → PanelRequest

pub serve : Env → ℕ → Panel → ℕ × PanelRequest → Panel
serve e id p (now, regenerate_request note) = (regenerate e now id note p).0
serve e id p (now, edit_request j w) = (edit_field e now id j w p).0
serve e id p (now, regenerate_field_request j) = (regenerate_field e now id j p).0

pub serve_all : Env → ℕ → Panel → List (ℕ × PanelRequest) → Panel
serve_all e id p [] = p
serve_all e id p (r ∷ rs) = serve_all e id (serve e id p r) rs

-- The request is not one for the field.
abbrev pub Spares : String → ℕ × PanelRequest → Type 0
Spares k (now, regenerate_request _) = Unit {0}
Spares k (now, edit_request j w) = j ≢ k
Spares k (now, regenerate_field_request j) = j ≢ k

module _ (e : Env) (laws : SnapshotsTable e) (reads : Reads e) (id : ℕ) (k v : String) where
  serve-IsLocked :
      (p : Panel) (r : ℕ × PanelRequest)
      → Spares k r
      → IsLocked id k v p.snapshots
      → IsLocked id k v (serve e id p r).snapshots
  unfolding serve
  serve-IsLocked p (now, regenerate_request note) s h =
      regenerate-IsLocked e laws id k v reads now p h note
  serve-IsLocked p (now, edit_request j w) s h =
      edit_other-IsLocked e laws id k v reads now p h j w s
  serve-IsLocked p (now, regenerate_field_request j) s h =
      regenerate_other-IsLocked e laws id k v reads now p h j s

  serve_all-IsLocked :
      (p : Panel) (rs : List (ℕ × PanelRequest))
      → All (Spares k) rs
      → IsLocked id k v p.snapshots
      → IsLocked id k v (serve_all e id p rs).snapshots
  unfolding serve_all
  serve_all-IsLocked p [] s h = h
  serve_all-IsLocked p (r ∷ rs) s h =
      serve_all-IsLocked (serve e id p r) rs s.1 (serve-IsLocked p r s.0 h)

  -- A correction by a person survives: after an edit of a field that succeeded, and any later
  -- regenerations of the panel, edits of other fields and regenerations of other fields, failing ones
  -- included, the latest snapshot still has the corrected value, and the field is still locked. The
  -- database is taken to answer every read of a snapshot that it has.
  pub edit_field-IsLocked :
      (now : ℕ) (p p' : Panel) (rs : List (ℕ × PanelRequest))
      → edit_field e now id k v p ≡ (p', ok tt)
      → All (Spares k) rs
      → IsLocked id k v (serve_all e id p' rs).snapshots
  edit_field-IsLocked now p p' rs h s =
      serve_all-IsLocked p' rs s (edited-IsLocked e laws id k v now p p' h)
