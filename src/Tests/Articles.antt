-- ===== src/Tests/Articles.antt =====
-- A resolved ticket that becomes an article.
use servicedesk.Common.{some, [], ◌∷◌}
use servicedesk.Models.Tickets.{resolved}
use servicedesk.Store.{ok}
use servicedesk.Store.Memory.{memory, memory-IsTable}
use servicedesk.Knowledge.{Env, Base, KbArticleUpdate}
use servicedesk.Knowledge.Curation.{
  AllCurated, propose_request, update_request, approve_request, delete_request, serve_all,
  serve_all-AllCurated,
}
use servicedesk.Tests.Fixtures.{ticket, joined}

abbrev base_env : Env
base_env = record {
  articles_table = memory (λ a. a.id) (λ i a. record a { id = i });
  links_table = joined;
  tickets_table = memory (λ t. t.id) (λ i t. record t { id = i });
  snapshots_table = memory (λ s. s.id) (λ i s. record s { id = i });
  lower_fields = λ s. s ∷ [];
  newest_first = λ rows. rows;
  services_for_article = λ id links. ok [];
}

abbrev base : Base
base = record { articles = []; links = []; tickets = ticket 1 resolved ∷ []; snapshots = [] }

abbrev revision : KbArticleUpdate
revision = record {
  title = "Burning printer";
  symptom = "smoke";
  what_to_observe = "";
  self_service_steps = "";
  resolution = "water";
  environment = "";
  root_cause = "";
  validation_steps = "";
  resolution_steps = "";
  workaround = "";
  blast_radius = "";
  service_ids = some (4 ∷ []);
}

serve_all-AllCurated_example : AllCurated (
    serve_all base_env base (
      (10, propose_request 1)
      ∷ (20, update_request 1 revision)
      ∷ (30, approve_request 8 1)
      ∷ (40, propose_request 1)
      ∷ (50, delete_request 1)
      ∷ []))
serve_all-AllCurated_example =
    serve_all-AllCurated base_env (memory-IsTable (λ a. a.id) (λ i a. record a { id = i })) base
      ((10, propose_request 1)
        ∷ (20, update_request 1 revision)
        ∷ (30, approve_request 8 1)
        ∷ (40, propose_request 1)
        ∷ (50, delete_request 1)
        ∷ [])
      tt
