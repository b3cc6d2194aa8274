-- ===== src/Attachments/Stored.antt =====
-- What is stored of a file, over any sequence of uploads and notes.
use servicedesk.Common.{
  ℕ, String, Bool, true, false, Option, none, some, List, [], ◌∷◌, ◌++◌, ◌≡◌, ◌≤◌, inl, inr, refl,
  sym, subst, arith, All, find_first, length, ltb, ◌==◌, ==_iff, Bool-cases, Option-cases,
}
use servicedesk.Models.Tickets.{Note, Attachment}
use servicedesk.Auth.Claims.{Claims}
use servicedesk.Store.{ok-injective, ok, IsTable, Result-cases, All-append_one}
use servicedesk.Ticket.Desk.{Env, Desk, ignore}
use servicedesk.Notes.{add, create_note, new_note, touch_updated_at}
use servicedesk.Ticket.Lifecycle.Success.{call_if_lem}
use servicedesk.Attachments.{
  Files, is_allowed, refused_file, inherited, new_attachment, create_attachment, upload,
}

-- The note of a file: on the same ticket, and as internal as the file.
pub FromNote : List Note → Attachment → Option ℕ → Type 0
FromNote notes a none = a.internal ≡ false
FromNote notes a (some id) =
    (n : Note) × (find_first (λ n. n.id == id) notes ≡ some n)
    × (n.ticket_id ≡ a.ticket_id)
    × (n.internal ≡ a.internal)

pub record IsSound (f : Files) (max_size : ℕ) (notes : List Note) (a : Attachment) : Type 0 where
  pub bounded : length a.content ≤ max_size
  pub measured : a.size_bytes ≡ length a.content
  pub allowed : is_allowed (f.to_lower (f.ext a.filename)) ≡ true
  pub from_note : FromNote notes a a.note_id

abbrev pub AllSound : Files → ℕ → Desk → Type 0
AllSound f max_size d = All (IsSound f max_size d.notes) d.attachments

find_first-append :
    {A : Type 0} (p : A → Bool) (xs ys : List A) (x : A)
    → find_first p xs ≡ some x
    → find_first p (xs ++ ys) ≡ some x
find_first-append p [] ys x h = absurd (cc)
find_first-append p (y ∷ xs) ys x h = elim (Bool-cases (p y)) [
  | inl k ↦ rw k (rw k at h)
  | inr n ↦ rw n (find_first-append p xs ys x (rw n at h))
]

grown-IsSound :
    (f : Files) (max_size : ℕ) (notes more : List Note) (a : Attachment)
    → IsSound f max_size notes a
    → IsSound f max_size (notes ++ more) a
unfolding FromNote
grown-IsSound f max_size notes more a s = record {
  bounded = s.bounded;
  measured = s.measured;
  allowed = s.allowed;
  from_note = kept a.note_id s.from_note;
}
  where
    kept : (id : Option ℕ) → FromNote notes a id → FromNote (notes ++ more) a id
    kept none h = h
    kept (some id) (n, found, rest, same) =
        (n, find_first-append (λ n. n.id == id) notes more n found, rest, same)

All-grown :
    (f : Files) (max_size : ℕ) (notes more : List Note) (rows : List Attachment)
    → All (IsSound f max_size notes) rows
    → All (IsSound f max_size (notes ++ more)) rows
All-grown f max_size notes more [] h = tt
All-grown f max_size notes more (a ∷ rows) h =
    (grown-IsSound f max_size notes more a h.0, All-grown f max_size notes more rows h.1)

pub data Request : Type 0 where
  upload_request : Claims → ℕ → Option ℕ → String → List ℕ → Request
  note_request : Claims → ℕ → String → Bool → Request

pub serve : Env → Files → ℕ → Desk → ℕ × Request → Desk
unfolding upload add
serve e f max_size d (now, upload_request actor id note_id name bytes) =
    (upload e f max_size now actor id note_id name bytes d).0
serve e f max_size d (now, note_request actor id body internal) =
    (add e now actor id body internal d).0

pub serve_all : Env → Files → ℕ → Desk → List (ℕ × Request) → Desk
unfolding serve
serve_all e f max_size d [] = d
serve_all e f max_size d (r ∷ rs) = serve_all e f max_size (serve e f max_size d r) rs

module _ (e : Env) (f : Files) (max_size : ℕ)
    (attachments : IsTable (λ a. a.id) (λ i a. record a { id = i }) e.attachments_table)
    (notes_first : (p : Note → Bool) (rows : List Note) (n : Note)
      → e.notes_table.first p rows ≡ ok n
      → find_first p rows ≡ some n)
    (notes_create : (n n' : Note) (rows after : List Note)
      → e.notes_table.create n rows ≡ ok (n', after)
      → after ≡ rows ++ n' ∷ []) where
  allowed_file :
      (name : String) (bytes : List ℕ)
      → refused_file f max_size name bytes ≡ none
      → (length bytes ≤ max_size) × (is_allowed (f.to_lower (f.ext name)) ≡ true)
  unfolding refused_file
  allowed_file name bytes h = elim (Bool-cases (ltb max_size (length bytes))) [
    | inl y ↦ absurd (cc (rw (y, refused_file) at h))
    | inr n ↦
        let h1 = rw (n, refused_file) at h in
        elim (Bool-cases (is_allowed (f.to_lower (f.ext name)))) [
          | inl y ↦ (not_less (length bytes) n, y)
          | inr m ↦ absurd (cc (rw m at h1))
        ]
  ]
    where
      not_less : (k : ℕ) → ltb max_size k ≡ false → k ≤ max_size
      not_less k h = ground arith

  inherits :
      (now : ℕ) (actor : Claims) (ticket_id : ℕ) (note_id : Option ℕ) (name : String)
      (bytes : List ℕ) (internal : Bool) (d : Desk)
      → inherited e ticket_id note_id d ≡ ok internal
      → FromNote d.notes (new_attachment f now actor ticket_id note_id name bytes internal) note_id
  unfolding inherited FromNote new_attachment
  inherits now actor ticket_id none name bytes internal d h = sym (ok-injective h)
  inherits now actor ticket_id (some id) name bytes internal d h =
      let p : Note → Bool = λ n. n.id == id in
      elim (Result-cases (e.notes_table.first p d.notes)) [
        | inr (x, g) ↦ absurd (cc (rw (g, inherited) at h))
        | inl (n, g) ↦
            let h1 = rw (g, inherited) at h in
            elim (Bool-cases (n.ticket_id == ticket_id)) [
              | inr m ↦ absurd (cc (rw m at h1))
              | inl y ↦ (
                n,
                notes_first p d.notes n g,
                (==_iff n.ticket_id ticket_id).0 y,
                ok-injective (rw y at h1),
              )
            ]
      ]

  new-IsSound :
      (now : ℕ) (actor : Claims) (ticket_id : ℕ) (note_id : Option ℕ) (name : String)
      (bytes : List ℕ) (internal : Bool) (i : ℕ) (d : Desk)
      → refused_file f max_size name bytes ≡ none
      → inherited e ticket_id note_id d ≡ ok internal
      → IsSound f max_size d.notes
          (record (new_attachment f now actor ticket_id note_id name bytes internal) { id = i })
  unfolding new_attachment FromNote
  new-IsSound now actor ticket_id note_id name bytes internal i d passes h = record {
    bounded = (allowed_file name bytes passes).0;
    measured = refl;
    allowed = (allowed_file name bytes passes).1;
    from_note = renumbered note_id (inherits now actor ticket_id note_id name bytes internal d h);
  }
    where
      renumbered :
          (id : Option ℕ)
          → FromNote d.notes (new_attachment f now actor ticket_id note_id name bytes internal) id
          → FromNote d.notes
              (record (new_attachment f now actor ticket_id note_id name bytes internal) { id = i })
              id
      renumbered none h = h
      renumbered (some k) h = h

  upload-AllSound :
      (now : ℕ) (actor : Claims) (ticket_id : ℕ) (note_id : Option ℕ) (name : String)
      (bytes : List ℕ) (d : Desk)
      → AllSound f max_size d
      → AllSound f max_size (upload e f max_size now actor ticket_id note_id name bytes d).0
  unfolding upload create_attachment
  upload-AllSound now actor ticket_id note_id name bytes d sound =
      elim (Option-cases (refused_file f max_size name bytes)) [
        | inr (x, g) ↦ rw (g, upload) sound
        | inl g ↦ elim (Result-cases (inherited e ticket_id note_id d)) [
          | inr (x, h) ↦ rw (g, upload) (rw h sound)
          | inl (internal, h) ↦
              let a : Attachment =
                new_attachment f now actor ticket_id note_id name bytes internal in
              elim (Result-cases (e.attachments_table.create a d.attachments)) [
                | inr (x, k) ↦ rw (g, upload) (rw h (rw (k, create_attachment) sound))
                | inl ((a', rows), k) ↦
                    let (i, made, after, fresh) = attachments.create_ok a a' d.attachments rows k in
                    rw (g, upload)
                      (rw h (
                        rw (k, create_attachment)
                          (subst (All (IsSound f max_size d.notes)) (sym after) (
                            All-append_one (IsSound f max_size d.notes) a' d.attachments
                              (subst (IsSound f max_size d.notes) (sym made) (
                                new-IsSound now actor ticket_id note_id name bytes internal i d g
                                  h))
                              sound))))
              ]
        ]
      ]

  touch_lem :
      (now id : ℕ) (d : Desk)
      → (touch_updated_at e now id d).0
        ≡ record d { tickets = (touch_updated_at e now id d).0.tickets }
  unfolding touch_updated_at
  touch_lem now id d =
      elim (Result-cases
        (e.tickets_table.update (λ t. t.id == id) (λ t. record t { updated_at = now }) d.tickets)) [
          | inl (r, h) ↦ rw (h, touch_updated_at) refl
          | inr (x, h) ↦ rw (h, touch_updated_at) refl
        ]

  note-AllSound :
      (now : ℕ) (actor : Claims) (ticket_id : ℕ) (body : String) (internal : Bool) (d : Desk)
      → AllSound f max_size d
      → AllSound f max_size (add e now actor ticket_id body internal d).0
  unfolding add create_note ignore touch_updated_at
  note-AllSound now actor ticket_id body internal d sound =
      elim (Result-cases
        (e.notes_table.create (new_note now actor ticket_id body internal) d.notes)) [
          | inr (x, k) ↦ rw (k, add, create_note) sound
          | inl ((n, rows), k) ↦
              rw
                (
                  k,
                  add,
                  create_note,
                  touch_lem now ticket_id (record d { notes = rows }),
                  call_if_lem,
                  call_if_lem,
                  call_if_lem,
                  call_if_lem,
                )
                (subst (λ ns. All (IsSound f max_size ns) d.attachments)
                  (sym (notes_create (new_note now actor ticket_id body internal) n d.notes rows k))
                  (All-grown f max_size d.notes (n ∷ []) d.attachments sound))
        ]

  serve-AllSound :
      (d : Desk) (r : ℕ × Request)
      → AllSound f max_size d
      → AllSound f max_size (serve e f max_size d r)
  unfolding serve
  serve-AllSound d (now, upload_request actor id note_id name bytes) sound =
      upload-AllSound now actor id note_id name bytes d sound
  serve-AllSound d (now, note_request actor id body internal) sound =
      note-AllSound now actor id body internal d sound

  -- Over any sequence of uploads and notes, refused ones included, every stored file is within the
  -- maximum size and its recorded size is its own, its extension is on the list, and it is as internal
  -- as the note it belongs to, which is on the same ticket; a file without note is not internal.
  pub serve_all-AllSound :
      (d : Desk) (rs : List (ℕ × Request))
      → AllSound f max_size d
      → AllSound f max_size (serve_all e f max_size d rs)
  unfolding serve_all
  serve_all-AllSound d [] sound = sound
  serve_all-AllSound d (r ∷ rs) sound =
      serve_all-AllSound (serve e f max_size d r) rs (serve-AllSound d r sound)
