-- ===== src/Config/Precedence.antt =====
-- The precedence of the layers of internal/config/config.go: the environment before the file.
use servicedesk.Common.{
  String, Bool, true, false, some, List, [], ◌∷◌, ◌≡◌, refl, ap, ◌||◌, if◌then◌else◌, is_empty,
  str_eq,
}
use servicedesk.Dashboard.{ℤ, pos}
use servicedesk.Store.{Result}
use servicedesk.Config.{
  Machine, CliFlags, FileConfig, Config, from_ptr, db_str_field, jwt_field, smtp_str_field,
  smtp_int_field, worker_int_field, ai_bool_field, ai_str_field, ai_prompt_field, get_env,
  get_env_bool, get_env_int, loaded, load, load_file_config, config_path,
}

abbrev pub named : String → List String → Bool
named k [] = false
named k (x ∷ xs) = str_eq k x || named k xs

-- The variables that hold a text, a switch or a number.
abbrev pub text_keys : List String
text_keys =
    "SERVICEDESK_ADDR" ∷ "SERVICEDESK_DB_DRIVER" ∷ "SERVICEDESK_DB_DSN" ∷ "SERVICEDESK_JWT_SECRET"
    ∷ "SERVICEDESK_JWT_ISSUER" ∷ "SERVICEDESK_STATIC_USERS" ∷ "SERVICEDESK_SMTP_HOST"
    ∷ "SERVICEDESK_SMTP_FROM" ∷ "SERVICEDESK_SMTP_USER" ∷ "SERVICEDESK_SMTP_PASS"
    ∷ "SERVICEDESK_LOG_LEVEL" ∷ "SERVICEDESK_LLM_BASE_URL" ∷ "SERVICEDESK_LLM_API_KEY"
    ∷ "SERVICEDESK_LLM_MODEL" ∷ "SERVICEDESK_AI_SUMMARY_PROMPT"
    ∷ "SERVICEDESK_AI_DRAFT_DESCRIPTION_PROMPT" ∷ "SERVICEDESK_AI_DRAFT_RESOLUTION_PROMPT"
    ∷ "SERVICEDESK_AI_DRAFT_TRANSFER_PROMPT" ∷ []

abbrev pub switch_keys : List String
switch_keys = "LDAP_ENABLED" ∷ "DEMO_MODE" ∷ "DEMO_RESET" ∷ "SERVICEDESK_AI_ENABLED" ∷ []

abbrev pub number_keys : List String
number_keys =
    "SERVICEDESK_SMTP_PORT" ∷ "SERVICEDESK_WORKER_POOL_SIZE" ∷ "SERVICEDESK_WORKER_POLL_MS"
    ∷ "SERVICEDESK_ATTACHMENT_MAX_SIZE_BYTES" ∷ []

-- The environment gives every setting a usable value.
pub record IsComplete (m : Machine) : Type 0 where
  pub texts :
      (k : String)
      → named k text_keys ≡ true
      → (v : String) × (m.lookup_env k ≡ some v) × (is_empty v ≡ false)
  pub switches :
      (k : String) → named k switch_keys ≡ true → (v : String) × (m.lookup_env k ≡ some v)
  pub numbers :
      (k : String)
      → named k number_keys ≡ true
      → (v : String) × (n : ℤ) × (m.lookup_env k ≡ some v) × (m.atoi v ≡ some n)

get_env-set :
    (m : Machine) (k a b : String)
    → (v : String) × (m.lookup_env k ≡ some v) × (is_empty v ≡ false)
    → get_env m k a ≡ get_env m k b
unfolding get_env
get_env-set m k a b (v, e, f) = rw (e, get_env) (rw f refl)

get_env_bool-set :
    (m : Machine) (k : String) (a b : Bool)
    → (v : String) × (m.lookup_env k ≡ some v)
    → get_env_bool m k a ≡ get_env_bool m k b
unfolding get_env_bool
get_env_bool-set m k a b (v, e) = rw (e, get_env_bool) refl

get_env_int-set :
    (m : Machine) (k : String) (a b : ℤ)
    → (v : String) × (n : ℤ) × (m.lookup_env k ≡ some v) × (m.atoi v ≡ some n)
    → get_env_int m k a ≡ get_env_int m k b
unfolding get_env_int from_ptr
get_env_int-set m k a b (v, n, e, f) = rw (e, get_env_int) (rw f refl)

module _ (m : Machine) (c : IsComplete m) where
  text : (k : String) → named k text_keys ≡ true → (a b : String) → get_env m k a ≡ get_env m k b
  text k h a b = get_env-set m k a b (c.texts k h)

  switch :
      (k : String)
      → named k switch_keys ≡ true
      → (a b : Bool) → get_env_bool m k a ≡ get_env_bool m k b
  switch k h a b = get_env_bool-set m k a b (c.switches k h)

  number :
      (k : String) → named k number_keys ≡ true → (a b : ℤ) → get_env_int m k a ≡ get_env_int m k b
  number k h a b = get_env_int-set m k a b (c.numbers k h)

-- What `Load` does to its literal.
demo : Config → Config
demo c = if c.demo_reset then record c { demo_mode = true } else c

-- Two files that may say different things make the same configuration.
loaded-set :
    (m : Machine) (flags : CliFlags) (f g : FileConfig)
    → IsComplete m
    → loaded m flags f ≡ loaded m flags g
unfolding loaded
loaded-set m flags f g c = λ i. record {
  addr = text m c "SERVICEDESK_ADDR" refl (from_ptr f.addr ":8080") (from_ptr g.addr ":8080") i;
  db_driver =
      text m c "SERVICEDESK_DB_DRIVER" refl (db_str_field f "driver" "sqlite")
        (db_str_field g "driver" "sqlite") i;
  db_dsn =
      text m c "SERVICEDESK_DB_DSN" refl
        (db_str_field f "dsn"
          "file:servicedesk.db?_pragma=busy_timeout(5000)&_pragma=journal_mode(WAL)&_pragma=foreign_keys(ON)")
        (db_str_field g "dsn"
          "file:servicedesk.db?_pragma=busy_timeout(5000)&_pragma=journal_mode(WAL)&_pragma=foreign_keys(ON)")
        i;
  jwt_secret =
      text m c "SERVICEDESK_JWT_SECRET" refl (jwt_field f "secret" "dev-insecure-secret-change-me")
        (jwt_field g "secret" "dev-insecure-secret-change-me") i;
  jwt_issuer =
      text m c "SERVICEDESK_JWT_ISSUER" refl (jwt_field f "issuer" "servicedesk")
        (jwt_field g "issuer" "servicedesk") i;
  static_users =
      text m c "SERVICEDESK_STATIC_USERS" refl (from_ptr f.static_users "")
        (from_ptr g.static_users "") i;
  ldap_enabled =
      switch m c "LDAP_ENABLED" refl (from_ptr f.ldap_enabled false) (from_ptr g.ldap_enabled false)
        i;
  smtp_host =
      text m c "SERVICEDESK_SMTP_HOST" refl (smtp_str_field f "host" "")
        (smtp_str_field g "host" "") i;
  smtp_port =
      number m c "SERVICEDESK_SMTP_PORT" refl (smtp_int_field f "port" (pos 587))
        (smtp_int_field g "port" (pos 587)) i;
  smtp_from =
      text m c "SERVICEDESK_SMTP_FROM" refl (smtp_str_field f "from" "servicedesk@example.com")
        (smtp_str_field g "from" "servicedesk@example.com") i;
  smtp_user =
      text m c "SERVICEDESK_SMTP_USER" refl (smtp_str_field f "user" "")
        (smtp_str_field g "user" "") i;
  smtp_pass =
      text m c "SERVICEDESK_SMTP_PASS" refl (smtp_str_field f "pass" "")
        (smtp_str_field g "pass" "") i;
  worker_pool_size =
      number m c "SERVICEDESK_WORKER_POOL_SIZE" refl (worker_int_field f "pool_size" (pos 4))
        (worker_int_field g "pool_size" (pos 4)) i;
  worker_poll_millis =
      number m c "SERVICEDESK_WORKER_POLL_MS" refl (worker_int_field f "poll_ms" (pos 500))
        (worker_int_field g "poll_ms" (pos 500)) i;
  log_level =
      text m c "SERVICEDESK_LOG_LEVEL" refl (from_ptr f.log_level "info")
        (from_ptr g.log_level "info") i;
  demo_mode =
      flags.demo_mode
      || switch m c "DEMO_MODE" refl (from_ptr f.demo_mode false) (from_ptr g.demo_mode false) i;
  demo_reset =
      flags.demo_reset
      || switch m c "DEMO_RESET" refl (from_ptr f.demo_reset false) (from_ptr g.demo_reset false) i;
  seed_demo_only = flags.seed_demo_only || get_env_bool m "SEED_DEMO_ONLY" false;
  attachment_max_size_bytes =
      number m c "SERVICEDESK_ATTACHMENT_MAX_SIZE_BYTES" refl
        (from_ptr f.attachment_max_size_bytes (pos 10485760))
        (from_ptr g.attachment_max_size_bytes (pos 10485760)) i;
  ai_enabled =
      switch m c "SERVICEDESK_AI_ENABLED" refl (ai_bool_field f false) (ai_bool_field g false) i;
  llm_base_url =
      text m c "SERVICEDESK_LLM_BASE_URL" refl
        (ai_str_field f "base_url" "http://localhost:11434/v1")
        (ai_str_field g "base_url" "http://localhost:11434/v1") i;
  llm_api_key =
      text m c "SERVICEDESK_LLM_API_KEY" refl (ai_str_field f "api_key" "")
        (ai_str_field g "api_key" "") i;
  llm_model =
      text m c "SERVICEDESK_LLM_MODEL" refl (ai_str_field f "model" "qwen3:8b")
        (ai_str_field g "model" "qwen3:8b") i;
  ai_summary_prompt =
      text m c "SERVICEDESK_AI_SUMMARY_PROMPT" refl (ai_prompt_field f "summary")
        (ai_prompt_field g "summary") i;
  ai_draft_description_prompt =
      text m c "SERVICEDESK_AI_DRAFT_DESCRIPTION_PROMPT" refl
        (ai_prompt_field f "draft_description") (ai_prompt_field g "draft_description") i;
  ai_draft_resolution_prompt =
      text m c "SERVICEDESK_AI_DRAFT_RESOLUTION_PROMPT" refl (ai_prompt_field f "draft_resolution")
        (ai_prompt_field g "draft_resolution") i;
  ai_draft_transfer_prompt =
      text m c "SERVICEDESK_AI_DRAFT_TRANSFER_PROMPT" refl (ai_prompt_field f "draft_transfer")
        (ai_prompt_field g "draft_transfer") i;
}

-- Where the environment gives every setting a usable value (a text that is not empty, a number that
-- parses), the configuration is that of the environment and the flags: another configuration file, or
-- one that cannot be read or decoded, does not change it.
pub load-file :
    (m : Machine) (files : String → Result FileConfig) (flags : CliFlags)
    → IsComplete m
    → load (record m { read_file = files }) flags ≡ load m flags
unfolding load loaded demo config_path get_env get_env_bool get_env_int
load-file m files flags c = ap demo (
    loaded-set m flags (load_file_config (record m { read_file = files }) (config_path m flags))
      (load_file_config m (config_path m flags)) c)
