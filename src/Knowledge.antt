-- ===== src/Knowledge.antt =====
-- internal/service/kb.go: the articles of the knowledge base. `strings.Fields` with
-- `strings.ToLower`, the order by the time of creation, and the join of the links with the services
-- are parameters. A score is a
-- fraction, and two scores are compared as fractions.
pub mod Curation
use Prim.Native.String.{◌++◌ as str_append, len}
use servicedesk.Common.{
  ℕ, ◌+◌, ◌-◌, ◌*◌, String, Bool, true, false, Option, none, some, List, [], ◌∷◌, ◌==◌, ◌&&◌, ◌||◌,
  leb, ltb, not, str_eq, any, keep_if, count_if, is_some, length, if◌then◌else◌, get_key,
}
use servicedesk.Models.Tickets.{Ticket}
use servicedesk.Models.Knowledge.{
  TicketAiSnapshot, KbArticle, KbArticleService, KbArticleStatus, draft, published, is_draft,
  is_published,
}
use servicedesk.Store.{
  Error, not_draft, Result, ok, err, M, pure, fail_if, carry_on, ◌>>=◌, ◌>>◌, Table,
}
use servicedesk.Summary.{value_of}

pub record Env : Type 0 where
  pub articles_table : Table KbArticle
  pub links_table : Table KbArticleService
  pub tickets_table : Table Ticket
  pub snapshots_table : Table TicketAiSnapshot
  pub lower_fields : String → List String
  pub newest_first : List KbArticle → List KbArticle
  pub services_for_article : ℕ → List KbArticleService → Result (List ℕ)

pub record Base : Type 0 where
  pub articles : List KbArticle
  pub links : List KbArticleService
  pub tickets : List Ticket
  pub snapshots : List TicketAiSnapshot

abbrev member : List String → String → Bool
member ws w = any (λ v. str_eq v w) ws

-- The words of a text, each once.
distinct : List String → List String
distinct [] = []
distinct (w ∷ ws) = if member ws w then distinct ws else w ∷ distinct ws

unfoldable pub token_set : Env → String → List String
unfolding distinct
token_set e s = distinct (keep_if (λ w. ltb 2 (len w)) (e.lower_fields s))

-- The numerator and the denominator of a score.
abbrev pub Score : Type 0
Score = ℕ × ℕ

abbrev pub greater : Score → Score → Bool
greater (a, b) (c, d) = ltb (c * b) (a * d)

unfoldable pub jaccard : List String → List String → Score
jaccard a b =
    let intersection = count_if (λ w. member b w) a in
    if length a == 0 || length b == 0
    then (0, 1)
    else (intersection, length a + length b - intersection)

abbrev article_score : Env → List String → KbArticle → Score
article_score e query a =
    jaccard query (token_set e (str_append a.symptom (str_append " " a.what_to_observe)))

-- The loop over the published articles.
best_match :
    Env → List String → List KbArticle → Option KbArticle → Score → Option KbArticle × Score
unfolding token_set jaccard
best_match e query [] best score = (best, score)
best_match e query (a ∷ articles) best score =
    let s = article_score e query a in
    let better = greater s score in
    best_match e query articles (if better then some a else best) (if better then s else score)

matched : Env → List String → Result (List KbArticle) → Result (Option KbArticle × Score)
unfolding best_match
matched e query (err x) = err x
matched e query (ok articles) =
    if length query == 0
    then ok (none, (0, 1))
    else ok (best_match e query (e.newest_first articles) none (0, 1))

unfoldable pub match_for_symptom :
    Env → String → String → List KbArticle → Result (Option KbArticle × Score)
unfolding matched
match_for_symptom e symptom what_to_observe articles =
    matched e (token_set e (str_append symptom (str_append " " what_to_observe)))
      (e.articles_table.find (λ a. is_published a.status) articles)

-- `KBMatchThreshold` is 0.3.
abbrev pub reaches_threshold : Score → Bool
reaches_threshold (a, b) = leb (3 * b) (10 * a)

abbrev related : Result (Option KbArticle × Score) → Option ℕ
related (ok (some m, score)) = if reaches_threshold score then some m.id else none
related (ok (none, score)) = none
related (err x) = none

abbrev field_of : Result TicketAiSnapshot → String → String
field_of (ok s) k = value_of (get_key k s.fields)
field_of (err x) k = ""

abbrev snapshot_id : Result TicketAiSnapshot → Option ℕ
snapshot_id (ok s) = some s.id
snapshot_id (err x) = none

abbrev author : Option ℕ → ℕ → ℕ
author none creator = creator
author (some assignee) creator = assignee

unfoldable pub proposal : ℕ → ℕ → Ticket → Result TicketAiSnapshot → Option ℕ → KbArticle
proposal now ticket_id t snap related_id = record {
  id = 0;
  title = t.title;
  status = draft;
  symptom = field_of snap "symptom";
  what_to_observe = "";
  self_service_steps = field_of snap "what_tried";
  resolution = field_of snap "resolution";
  environment = "";
  root_cause = field_of snap "diagnosis";
  validation_steps = field_of snap "diagnosis";
  resolution_steps = "";
  workaround = "";
  blast_radius = "";
  source_ticket_id = some ticket_id;
  source_snapshot_id = snapshot_id snap;
  related_article_id = related_id;
  created_by_id = author t.assignee_id t.creator_id;
  approved_by_id = none;
  published_at = none;
  external_source = "";
  external_id = "";
  external_url = "";
  last_synced_at = none;
  created_at = now;
  updated_at = now;
}

get_ticket : Env → ℕ → M Base Ticket
get_ticket e id b = (b, e.tickets_table.first (λ t. t.id == id) b.tickets)

unfoldable pub get_article : Env → ℕ → M Base KbArticle
get_article e id b = (b, e.articles_table.first (λ a. a.id == id) b.articles)

unfoldable pub create_article : Env → KbArticle → M Base KbArticle
create_article e a b = elim (e.articles_table.create a b.articles) [
  | ok (a', rows) ↦ (record b { articles = rows }, ok a')
  | err x ↦ (b, err x)
]

-- gorm's `Save` stamps `UpdatedAt`, in the row that it writes and in the caller's.
abbrev pub touched : ℕ → KbArticle → KbArticle
touched now a = record a { updated_at = now }

unfoldable pub update_article : Env → ℕ → KbArticle → M Base (Unit {0})
update_article e now a b = elim (e.articles_table.save (touched now a) b.articles) [
  | ok rows ↦ (record b { articles = rows }, ok tt)
  | err x ↦ (b, err x)
]

unfoldable pub link_service : Env → ℕ → ℕ → M Base (Unit {0})
link_service e article_id service_id b =
    let row : KbArticleService = record { kb_article_id = article_id; service_id = service_id } in
    elim (e.links_table.first_or_create
      (λ m. m.kb_article_id == article_id && m.service_id == service_id) row b.links) [
        | ok (_, rows) ↦ (record b { links = rows }, ok tt)
        | err x ↦ (b, err x)
      ]

unfoldable pub unlink_service : Env → ℕ → ℕ → M Base (Unit {0})
unlink_service e article_id service_id b =
    elim (e.links_table.delete (λ m. m.kb_article_id == article_id && m.service_id == service_id)
      b.links) [ ok rows ↦ (record b { links = rows }, ok tt) | err x ↦ (b, err x) ]

abbrev link_if_some : Env → ℕ → Option ℕ → M Base (Unit {0})
link_if_some e id none = pure tt
link_if_some e id (some service) = link_service e id service

latest : Env → ℕ → Base → Result TicketAiSnapshot
latest e id b = e.snapshots_table.last (λ s. s.ticket_id == id) b.snapshots

-- The article that `ProposeFromTicket` makes for a ticket.
drafted : Env → ℕ → ℕ → Ticket → Base → KbArticle
unfolding match_for_symptom proposal latest
drafted e now ticket_id t b =
    let snap = latest e ticket_id b in
    proposal now ticket_id t snap
      (related (match_for_symptom e (field_of snap "symptom") "" b.articles))

unfoldable pub propose_from_ticket : Env → ℕ → ℕ → M Base KbArticle
unfolding get_ticket drafted
propose_from_ticket e now ticket_id = do
  t ← get_ticket e ticket_id
  a ← (λ b. create_article e (drafted e now ticket_id t b) b)
  link_if_some e a.id t.service_id
  pure a

pub record KbArticleUpdate : Type 0 where
  pub title : String
  pub symptom : String
  pub what_to_observe : String
  pub self_service_steps : String
  pub resolution : String
  pub environment : String
  pub root_cause : String
  pub validation_steps : String
  pub resolution_steps : String
  pub workaround : String
  pub blast_radius : String
  pub service_ids : Option (List ℕ)

abbrev pub wants : List ℕ → ℕ → Bool
wants ids id = any (λ i. i == id) ids

-- The two loops of `setServices`; the wanted ids are linked in the order of the list, where the code
-- takes the order of a Go map.
unlink_unwanted : Env → ℕ → List ℕ → List ℕ → M Base (Unit {0})
unlink_unwanted e id want [] b = (b, ok tt)
unlink_unwanted e id want (have ∷ existing) b =
    let rest = unlink_unwanted e id want existing in
    (if wants want have then rest else (unlink_service e id have >> rest)) b

link_missing : Env → ℕ → List ℕ → List ℕ → M Base (Unit {0})
link_missing e id existing [] b = (b, ok tt)
link_missing e id existing (want ∷ ids) b =
    let rest = link_missing e id existing ids in
    (if wants existing want then rest else (link_service e id want >> rest)) b

unfoldable pub set_services : Env → ℕ → List ℕ → M Base (Unit {0})
unfolding unlink_unwanted link_missing
set_services e id ids = do
  existing ← (λ b. (b, e.services_for_article id b.links))
  unlink_unwanted e id ids existing
  link_missing e id existing ids

unfoldable pub edited : KbArticle → KbArticleUpdate → KbArticle
edited a i = record a {
  title = i.title;
  symptom = i.symptom;
  what_to_observe = i.what_to_observe;
  self_service_steps = i.self_service_steps;
  resolution = i.resolution;
  environment = i.environment;
  root_cause = i.root_cause;
  validation_steps = i.validation_steps;
  resolution_steps = i.resolution_steps;
  workaround = i.workaround;
  blast_radius = i.blast_radius;
}

abbrev pub set_if_given : Env → ℕ → Option (List ℕ) → M Base (Unit {0})
set_if_given e id none = pure tt
set_if_given e id (some ids) = set_services e id ids

unfoldable pub update : Env → ℕ → ℕ → KbArticleUpdate → M Base KbArticle
update e now id i = do
  a ← get_article e id
  update_article e now (edited a i)
  set_if_given e a.id i.service_ids
  pure (touched now (edited a i))

unfoldable pub approved : ℕ → ℕ → KbArticle → KbArticle
approved now actor_id a = record a {
  status = published;
  approved_by_id = some actor_id;
  published_at = some now;
}

unfoldable pub approve : Env → ℕ → ℕ → ℕ → M Base KbArticle
approve e now actor_id id = do
  a ← get_article e id
  fail_if (not (is_draft a.status)) not_draft
  update_article e now (approved now actor_id a)
  pure (touched now (approved now actor_id a))

unfoldable pub delete : Env → ℕ → M Base (Unit {0})
delete e id b = elim (e.articles_table.delete (λ a. a.id == id) b.articles) [
  | ok rows ↦ (record b { articles = rows }, ok tt)
  | err x ↦ (b, err x)
]
