-- ===== src/Tests/Settings.antt =====
-- A start of the program on small inputs.
use Prim.Native.Char.{code}
use servicedesk.Common.{
  some, ◌≡◌, refl, false, is_empty, String, [], ◌∷◌, Lacks, ℕ, Bool, true, not, ◌&&◌, Bool-cases,
  inl, inr, ◌==◌, if◌then◌else◌,
}
use servicedesk.Dashboard.{pos}
use servicedesk.Store.{Result, record_not_found}
use servicedesk.Config.{Machine, CliFlags, empty_file, load, FileConfig}
use servicedesk.Config.StaticUsers.{
  IsPlain, entry_text, entries_text, static_user_entries, static_user_entries-entries_text,
}
use servicedesk.Config.Precedence.{IsComplete, load-file}

-- A process with every variable set to a number, which has no file.
abbrev machine : Machine
machine = record {
  lookup_env = λ k. some "8080";
  atoi = λ v. some (pos 8080);
  read_file = λ path. Result.err record_not_found;
}

abbrev flags : CliFlags
flags = record {
  config_path = "config.yaml";
  demo_mode = false;
  demo_reset = false;
  seed_demo_only = false;
}

machine-IsComplete : IsComplete machine
unfolding is_empty
machine-IsComplete = record {
  texts = λ k h. ("8080", refl, refl);
  switches = λ k h. ("8080", refl);
  numbers = λ k h. ("8080", pos 8080, refl, refl);
}

-- A file with another address.
abbrev other_file : FileConfig
unfolding empty_file
other_file = record empty_file { addr = some ":9090" }

load-file_example :
    load (record machine { read_file = λ path. Result.ok other_file }) flags ≡ load machine flags
load-file_example = load-file machine (λ path. Result.ok other_file) flags machine-IsComplete

-- `strings.TrimSpace`, as far as leading spaces go.
trim_space : String → String
trim_space String.[] = ""
trim_space (String.◌∷◌ c s) =
    let rest = trim_space s in if code c == 32 then rest else String.◌∷◌ c s

lacks : ℕ → String → Bool
lacks sep String.[] = true
lacks sep (String.◌∷◌ c s) = not (code c == sep) && lacks sep s

lacks-Lacks : (sep : ℕ) (s : String) → lacks sep s ≡ true → Lacks sep s
unfolding lacks Lacks
lacks-Lacks sep String.[] h = tt
lacks-Lacks sep (String.◌∷◌ c s) h = elim (Bool-cases (code c == sep)) [
  | inl y ↦ absurd (cc (rw y at h))
  | inr n ↦ (n, lacks-Lacks sep s (rw n at h))
]

abbrev alice : String × String × String
alice = ("alice", "pass", "SystemAdmin")

abbrev bob : String × String × String
bob = ("bob", "word", "Engineer")

alice-IsPlain : IsPlain trim_space alice
unfolding IsPlain entry_text trim_space lacks
alice-IsPlain = (
  lacks-Lacks 58 alice.0 refl,
  lacks-Lacks 58 alice.1 refl,
  lacks-Lacks 44 (entry_text alice) refl,
  refl,
)

bob-IsPlain : IsPlain trim_space bob
unfolding IsPlain entry_text trim_space lacks
bob-IsPlain = (
  lacks-Lacks 58 bob.0 refl,
  lacks-Lacks 58 bob.1 refl,
  lacks-Lacks 44 (entry_text bob) refl,
  refl,
)

static_user_entries-entries_text_example :
    static_user_entries trim_space
      (record (load machine flags) { static_users = entries_text alice (bob ∷ []) })
    ≡ alice ∷ bob ∷ []
unfolding entries_text entry_text trim_space
static_user_entries-entries_text_example =
    static_user_entries-entries_text trim_space alice (bob ∷ []) (load machine flags) alice-IsPlain
      (bob-IsPlain, tt) refl
