-- ===== src/Attachments.antt =====
-- internal/service/attachment.go and internal/httpapi/attachment_handlers.go: files on tickets.
-- `filepath.Ext`, `strings.ToLower`, `http.DetectContentType` and the reading of a multipart form are
-- Go's: parameters, or the parsed request.
pub mod Stored
use servicedesk.Common.{
  ℕ, zero, suc, String, Bool, true, false, Option, none, some, List, [], ◌∷◌, not, if◌then◌else◌,
  ◌==◌, ◌+◌, ltb, length, any, str_eq,
}
use servicedesk.Models.Roles.{is_customer}
use servicedesk.Models.Tickets.{Ticket, Note, Attachment}
use servicedesk.Auth.Claims.{Claims}
use servicedesk.Store.{
  Error, attachment_too_large, attachment_type_not_allowed, forbidden, Result, ok, err, M, pure,
  Table,
}
use servicedesk.Ticket.Desk.{Env, Desk}
use servicedesk.Visibility.{customer_can_see_ticket, can_view_attachment}
use servicedesk.Http.{
  Response, Handled, http_error, not_found, to_ticket, to_ticket_with_error, plain, error_text,
  after_call,
}

pub record Files : Type 0 where
  pub ext : String → String
  pub to_lower : String → String
  pub detect_content_type : List ℕ → String

unfoldable pub allowed_exts : List String
allowed_exts =
    ".png" ∷ ".jpg" ∷ ".jpeg" ∷ ".gif" ∷ ".webp" ∷ ".pdf" ∷ ".txt" ∷ ".log" ∷ ".csv" ∷ ".doc"
    ∷ ".docx" ∷ ".xls" ∷ ".xlsx" ∷ ".ppt" ∷ ".pptx" ∷ ".mp4" ∷ ".webm" ∷ ".mov" ∷ []

unfoldable pub sniffed_image_types : List String
sniffed_image_types = "image/png" ∷ "image/jpeg" ∷ "image/gif" ∷ "image/webp" ∷ []

unfoldable pub is_allowed : String → Bool
unfolding allowed_exts
is_allowed ext = any (λ x. str_eq x ext) allowed_exts

unfoldable pub is_inlineable : String → Bool
unfolding sniffed_image_types
is_inlineable mime_type = any (λ x. str_eq x mime_type) sniffed_image_types

take : ℕ → List ℕ → List ℕ
take zero xs = []
take (suc n) [] = []
take (suc n) (x ∷ xs) = x ∷ take n xs

-- Whether the file is internal: as its note is, which has to be on the same ticket.
unfoldable pub inherited : Env → ℕ → Option ℕ → Desk → Result Bool
inherited e ticket_id none d = ok false
inherited e ticket_id (some note_id) d = elim (e.notes_table.first (λ n. n.id == note_id) d.notes) [
  | err x ↦ err x
  | ok n ↦ if not (n.ticket_id == ticket_id) then err forbidden else ok n.internal
]

unfoldable pub new_attachment :
    Files → ℕ → Claims → ℕ → Option ℕ → String → List ℕ → Bool → Attachment
unfolding take
new_attachment f now actor ticket_id note_id filename bytes internal = record {
  id = 0;
  ticket_id = ticket_id;
  note_id = note_id;
  uploader_id = actor.user_id;
  filename = filename;
  mime_type = f.detect_content_type (take 512 bytes);
  size_bytes = length bytes;
  internal = internal;
  customer_private = is_customer actor.role;
  storage_backend = "db";
  content = bytes;
  created_at = now;
}

unfoldable pub create_attachment : Env → Attachment → M Desk Attachment
create_attachment e a d = elim (e.attachments_table.create a d.attachments) [
  | ok (a', rows) ↦ (record d { attachments = rows }, ok a')
  | err x ↦ (d, err x)
]

-- What `Upload` refuses before it looks at the note.
unfoldable pub refused_file : Files → ℕ → String → List ℕ → Option Error
unfolding is_allowed
refused_file f max_size filename bytes =
    if ltb max_size (length bytes)
    then some attachment_too_large
    else if not (is_allowed (f.to_lower (f.ext filename)))
    then some attachment_type_not_allowed
    else none

-- `AttachmentService.Upload`
unfoldable pub upload :
    Env → Files → ℕ → ℕ → Claims → ℕ → Option ℕ → String → List ℕ → M Desk Attachment
unfolding refused_file inherited new_attachment create_attachment
upload e f max_size now actor ticket_id note_id filename bytes d =
    elim (refused_file f max_size filename bytes) [
      | some x ↦ (d, err x)
      | none ↦ elim (inherited e ticket_id note_id d) [
        | err x ↦ (d, err x)
        | ok internal ↦
            create_attachment e
              (new_attachment f now actor ticket_id note_id filename bytes internal) d
      ]
    ]

-- What the handler reads of a multipart form.
pub data Form : Type 0 where
  too_large no_file unreadable : Form
  file : String → List ℕ → Form

upload_form : Env → Files → ℕ → ℕ → Claims → ℕ → Form → Desk → Handled Desk
unfolding upload
upload_form e f max_size now actor id too_large d =
    (d, to_ticket_with_error id (plain "That file is too large to attach."))
upload_form e f max_size now actor id no_file d =
    (d, to_ticket_with_error id (plain "Choose a file before clicking Add attachment."))
upload_form e f max_size now actor id unreadable d =
    (d, to_ticket_with_error id (plain "Could not read that file. Please try again."))
upload_form e f max_size now actor id (file name bytes) d =
    after_call (upload e f max_size now actor id none name bytes d)
      (λ x d. (d, to_ticket_with_error id (error_text "Could not attach that file: " x)))
      (λ a d. (d, to_ticket id))

unfoldable pub handle_attachment_upload :
    Env → Files → ℕ → ℕ → Claims → Option ℕ → Form → Desk → Handled Desk
unfolding upload_form
handle_attachment_upload e f max_size now actor none form d = (d, not_found)
handle_attachment_upload e f max_size now actor (some id) form d =
    elim (e.tickets_table.first (λ t. t.id == id) d.tickets) [
      | err x ↦ (d, not_found)
      | ok t ↦
          if not (customer_can_see_ticket e.watchers_table actor t d.watchers)
          then (d, http_error 403 (plain "forbidden"))
          else upload_form e f max_size now actor id form d
    ]

-- The file, and whether a browser shows it in the page.
pub data Download : Type 0 where
  refused : Response → Download
  sent : Attachment → Bool → Download

unfoldable pub handle_attachment_download : Env → Claims → Option ℕ → Desk → Download
unfolding is_inlineable
handle_attachment_download e viewer none d = refused not_found
handle_attachment_download e viewer (some id) d =
    elim (e.attachments_table.first (λ a. a.id == id) d.attachments) [
      | err x ↦ refused not_found
      | ok a ↦ elim (e.tickets_table.first (λ t. t.id == a.ticket_id) d.tickets) [
        | err x ↦ refused not_found
        | ok t ↦
            if not (customer_can_see_ticket e.watchers_table viewer t d.watchers)
            then refused (http_error 403 (plain "forbidden"))
            else if not (can_view_attachment viewer a)
            then refused (http_error 403 (plain "forbidden"))
            else sent a (is_inlineable a.mime_type)
      ]
    ]
