-- ===== src/Models/Knowledge.antt =====
-- internal/models/models.go: snapshots of the AI panel and articles of the knowledge base.
use servicedesk.Common.{ℕ, String, Bool, true, false, Option, List}

-- The JSON columns `Fields` and `EditedFields` hold a map and a list of texts.
pub record TicketAiSnapshot : Type 0 where
  pub id : ℕ
  pub ticket_id : ℕ
  pub triggering_note_id : Option ℕ
  pub source : String
  pub fields : List (String × String)
  pub edited_fields : List String
  pub generated_at : ℕ

pub data KbArticleStatus : Type 0 where
  draft published : KbArticleStatus

abbrev pub is_draft : KbArticleStatus → Bool
is_draft draft = true
is_draft published = false

abbrev pub is_published : KbArticleStatus → Bool
is_published published = true
is_published draft = false

pub record KbArticle : Type 0 where
  pub id : ℕ
  pub title : String
  pub status : KbArticleStatus
  pub symptom : String
  pub what_to_observe : String
  pub self_service_steps : String
  pub resolution : String
  pub environment : String
  pub root_cause : String
  pub validation_steps : String
  pub resolution_steps : String
  pub workaround : String
  pub blast_radius : String
  pub source_ticket_id : Option ℕ
  pub source_snapshot_id : Option ℕ
  pub related_article_id : Option ℕ
  pub created_by_id : ℕ
  pub approved_by_id : Option ℕ
  pub published_at : Option ℕ
  pub external_source : String
  pub external_id : String
  pub external_url : String
  pub last_synced_at : Option ℕ
  pub created_at : ℕ
  pub updated_at : ℕ

pub record KbArticleService : Type 0 where
  pub kb_article_id : ℕ
  pub service_id : ℕ
