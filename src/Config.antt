-- ===== src/Config.antt =====
-- internal/config/config.go: the configuration of a start, from the flags, a file and the environment.
-- Reading the flags, the file and the environment is Go's: parsed flags, the decoded file and a lookup
-- are arguments, and so is `strconv.Atoi`.
pub mod Precedence
pub mod StaticUsers
use servicedesk.Common.{
  String, Bool, true, false, Option, none, some, ◌||◌, if◌then◌else◌, is_empty, str_eq,
}
use servicedesk.Dashboard.{ℤ, pos}
use servicedesk.Store.{Result, ok, err}

pub record Config : Type 0 where
  pub addr : String
  pub db_driver : String
  pub db_dsn : String
  pub jwt_secret : String
  pub jwt_issuer : String
  pub static_users : String
  pub ldap_enabled : Bool
  pub smtp_host : String
  pub smtp_port : ℤ
  pub smtp_from : String
  pub smtp_user : String
  pub smtp_pass : String
  pub worker_pool_size : ℤ
  pub worker_poll_millis : ℤ
  pub log_level : String
  pub demo_mode : Bool
  pub demo_reset : Bool
  pub seed_demo_only : Bool
  pub attachment_max_size_bytes : ℤ
  pub ai_enabled : Bool
  pub llm_base_url : String
  pub llm_api_key : String
  pub llm_model : String
  pub ai_summary_prompt : String
  pub ai_draft_description_prompt : String
  pub ai_draft_resolution_prompt : String
  pub ai_draft_transfer_prompt : String

pub record DbBlock : Type 0 where
  pub driver : Option String
  pub dsn : Option String

pub record JwtBlock : Type 0 where
  pub secret : Option String
  pub issuer : Option String

pub record SmtpBlock : Type 0 where
  pub host : Option String
  pub port : Option ℤ
  pub from : Option String
  pub user : Option String
  pub pass : Option String

pub record WorkerBlock : Type 0 where
  pub pool_size : Option ℤ
  pub poll_ms : Option ℤ

pub record PromptsBlock : Type 0 where
  pub summary : Option String
  pub draft_description : Option String
  pub draft_resolution : Option String
  pub draft_transfer : Option String

pub record AiBlock : Type 0 where
  pub enabled : Option Bool
  pub base_url : Option String
  pub api_key : Option String
  pub model : Option String
  pub prompts : Option PromptsBlock

pub record FileConfig : Type 0 where
  pub addr : Option String
  pub log_level : Option String
  pub static_users : Option String
  pub ldap_enabled : Option Bool
  pub db : Option DbBlock
  pub jwt : Option JwtBlock
  pub smtp : Option SmtpBlock
  pub worker : Option WorkerBlock
  pub demo_mode : Option Bool
  pub demo_reset : Option Bool
  pub attachment_max_size_bytes : Option ℤ
  pub ai : Option AiBlock

-- The file that says nothing.
unfoldable pub empty_file : FileConfig
empty_file = record {
  addr = none;
  log_level = none;
  static_users = none;
  ldap_enabled = none;
  db = none;
  jwt = none;
  smtp = none;
  worker = none;
  demo_mode = none;
  demo_reset = none;
  attachment_max_size_bytes = none;
  ai = none;
}

pub record CliFlags : Type 0 where
  pub config_path : String
  pub demo_mode : Bool
  pub demo_reset : Bool
  pub seed_demo_only : Bool

-- `os.LookupEnv`, `strconv.Atoi`, and the reading and decoding of a file.
pub record Machine : Type 0 where
  pub lookup_env : String → Option String
  pub atoi : String → Option ℤ
  pub read_file : String → Result FileConfig

-- `fromPtr`, `fromBoolPtr` and `fromIntPtr`.
unfoldable pub from_ptr : {A : Type 0} → Option A → A → A
from_ptr none fallback = fallback
from_ptr (some x) fallback = x

-- A field of a block that may be absent.
field : {B A : Type 0} → Option B → (B → Option A) → A → A
unfolding from_ptr
field none get fallback = fallback
field (some b) get fallback = from_ptr (get b) fallback

unfoldable pub db_str_field : FileConfig → String → String → String
unfolding field
db_str_field f which fallback =
    if str_eq which "driver"
    then field f.db (λ b. b.driver) fallback
    else if str_eq which "dsn"
    then field f.db (λ b. b.dsn) fallback
    else fallback

unfoldable pub jwt_field : FileConfig → String → String → String
unfolding field
jwt_field f which fallback =
    if str_eq which "secret"
    then field f.jwt (λ b. b.secret) fallback
    else if str_eq which "issuer"
    then field f.jwt (λ b. b.issuer) fallback
    else fallback

unfoldable pub smtp_str_field : FileConfig → String → String → String
unfolding field
smtp_str_field f which fallback =
    if str_eq which "host"
    then field f.smtp (λ b. b.host) fallback
    else if str_eq which "from"
    then field f.smtp (λ b. b.from) fallback
    else if str_eq which "user"
    then field f.smtp (λ b. b.user) fallback
    else if str_eq which "pass"
    then field f.smtp (λ b. b.pass) fallback
    else fallback

unfoldable pub smtp_int_field : FileConfig → String → ℤ → ℤ
unfolding field
smtp_int_field f which fallback =
    if str_eq which "port" then field f.smtp (λ b. b.port) fallback else fallback

unfoldable pub worker_int_field : FileConfig → String → ℤ → ℤ
unfolding field
worker_int_field f which fallback =
    if str_eq which "pool_size"
    then field f.worker (λ b. b.pool_size) fallback
    else if str_eq which "poll_ms"
    then field f.worker (λ b. b.poll_ms) fallback
    else fallback

unfoldable pub ai_bool_field : FileConfig → Bool → Bool
unfolding field
ai_bool_field f fallback = field f.ai (λ b. b.enabled) fallback

unfoldable pub ai_str_field : FileConfig → String → String → String
unfolding field
ai_str_field f which fallback =
    if str_eq which "base_url"
    then field f.ai (λ b. b.base_url) fallback
    else if str_eq which "api_key"
    then field f.ai (λ b. b.api_key) fallback
    else if str_eq which "model"
    then field f.ai (λ b. b.model) fallback
    else fallback

prompt_in : Option PromptsBlock → String → String
unfolding field
prompt_in p which =
    if str_eq which "summary"
    then field p (λ b. b.summary) ""
    else if str_eq which "draft_description"
    then field p (λ b. b.draft_description) ""
    else if str_eq which "draft_resolution"
    then field p (λ b. b.draft_resolution) ""
    else if str_eq which "draft_transfer"
    then field p (λ b. b.draft_transfer) ""
    else ""

unfoldable pub ai_prompt_field : FileConfig → String → String
unfolding prompt_in
ai_prompt_field f which = elim f.ai [ none ↦ "" | some b ↦ prompt_in b.prompts which ]

-- A variable that is set to the empty text counts as not set.
unfoldable pub get_env : Machine → String → String → String
get_env m key fallback = elim (m.lookup_env key) [
  | none ↦ fallback
  | some v ↦ if is_empty v then fallback else v
]

unfoldable pub get_env_bool : Machine → String → Bool → Bool
get_env_bool m key fallback = elim (m.lookup_env key) [ none ↦ fallback | some v ↦ str_eq v "true" ]

unfoldable pub get_env_int : Machine → String → ℤ → ℤ
unfolding from_ptr
get_env_int m key fallback = elim (m.lookup_env key) [
  | none ↦ fallback
  | some v ↦ from_ptr (m.atoi v) fallback
]

unfoldable pub load_file_config : Machine → String → FileConfig
unfolding empty_file
load_file_config m path =
    if is_empty path then empty_file else elim (m.read_file path) [ ok f ↦ f | err x ↦ empty_file ]

-- The path of the flag, else that of the environment.
unfoldable pub config_path : Machine → CliFlags → String
unfolding from_ptr
config_path m flags =
    if is_empty flags.config_path
    then from_ptr (m.lookup_env "SERVICEDESK_CONFIG_FILE") ""
    else flags.config_path

-- The literal of `Load`.
unfoldable pub loaded : Machine → CliFlags → FileConfig → Config
unfolding from_ptr db_str_field jwt_field smtp_str_field smtp_int_field worker_int_field
    ai_bool_field ai_str_field ai_prompt_field get_env get_env_bool get_env_int
loaded m flags f = record {
  addr = get_env m "SERVICEDESK_ADDR" (from_ptr f.addr ":8080");
  db_driver = get_env m "SERVICEDESK_DB_DRIVER" (db_str_field f "driver" "sqlite");
  db_dsn = get_env m "SERVICEDESK_DB_DSN" (
      db_str_field f "dsn"
        "file:servicedesk.db?_pragma=busy_timeout(5000)&_pragma=journal_mode(WAL)&_pragma=foreign_keys(ON)");
  jwt_secret =
      get_env m "SERVICEDESK_JWT_SECRET" (jwt_field f "secret" "dev-insecure-secret-change-me");
  jwt_issuer = get_env m "SERVICEDESK_JWT_ISSUER" (jwt_field f "issuer" "servicedesk");
  static_users = get_env m "SERVICEDESK_STATIC_USERS" (from_ptr f.static_users "");
  ldap_enabled = get_env_bool m "LDAP_ENABLED" (from_ptr f.ldap_enabled false);
  smtp_host = get_env m "SERVICEDESK_SMTP_HOST" (smtp_str_field f "host" "");
  smtp_port = get_env_int m "SERVICEDESK_SMTP_PORT" (smtp_int_field f "port" (pos 587));
  smtp_from = get_env m "SERVICEDESK_SMTP_FROM" (smtp_str_field f "from" "servicedesk@example.com");
  smtp_user = get_env m "SERVICEDESK_SMTP_USER" (smtp_str_field f "user" "");
  smtp_pass = get_env m "SERVICEDESK_SMTP_PASS" (smtp_str_field f "pass" "");
  worker_pool_size =
      get_env_int m "SERVICEDESK_WORKER_POOL_SIZE" (worker_int_field f "pool_size" (pos 4));
  worker_poll_millis =
      get_env_int m "SERVICEDESK_WORKER_POLL_MS" (worker_int_field f "poll_ms" (pos 500));
  log_level = get_env m "SERVICEDESK_LOG_LEVEL" (from_ptr f.log_level "info");
  demo_mode = flags.demo_mode || get_env_bool m "DEMO_MODE" (from_ptr f.demo_mode false);
  demo_reset = flags.demo_reset || get_env_bool m "DEMO_RESET" (from_ptr f.demo_reset false);
  seed_demo_only = flags.seed_demo_only || get_env_bool m "SEED_DEMO_ONLY" false;
  attachment_max_size_bytes =
      get_env_int m "SERVICEDESK_ATTACHMENT_MAX_SIZE_BYTES"
        (from_ptr f.attachment_max_size_bytes (pos 10485760));
  ai_enabled = get_env_bool m "SERVICEDESK_AI_ENABLED" (ai_bool_field f false);
  llm_base_url =
      get_env m "SERVICEDESK_LLM_BASE_URL" (ai_str_field f "base_url" "http://localhost:11434/v1");
  llm_api_key = get_env m "SERVICEDESK_LLM_API_KEY" (ai_str_field f "api_key" "");
  llm_model = get_env m "SERVICEDESK_LLM_MODEL" (ai_str_field f "model" "qwen3:8b");
  ai_summary_prompt = get_env m "SERVICEDESK_AI_SUMMARY_PROMPT" (ai_prompt_field f "summary");
  ai_draft_description_prompt =
      get_env m "SERVICEDESK_AI_DRAFT_DESCRIPTION_PROMPT" (ai_prompt_field f "draft_description");
  ai_draft_resolution_prompt =
      get_env m "SERVICEDESK_AI_DRAFT_RESOLUTION_PROMPT" (ai_prompt_field f "draft_resolution");
  ai_draft_transfer_prompt =
      get_env m "SERVICEDESK_AI_DRAFT_TRANSFER_PROMPT" (ai_prompt_field f "draft_transfer");
}

-- Resetting the demo data implies the demo mode.
unfoldable pub load : Machine → CliFlags → Config
unfolding loaded load_file_config config_path
load m flags =
    let c = loaded m flags (load_file_config m (config_path m flags)) in
    if c.demo_reset then record c { demo_mode = true } else c
