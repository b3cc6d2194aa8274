-- ===== src/Common.antt =====
-- The names that the other modules share: the libraries', passed on, Boolean tests, lists over the
-- native numbers, results with the program's errors, and the state monad of the services.
mod Tests
mod Lists
mod Maps
mod Texts
pub use Tests.*
pub use Lists.*
unfoldable pub use Texts.{after_prefix, has_prefix, trim_prefix, cut, Lacks, is_empty}
pub use Texts.{after_prefix-append, has_prefix-append, trim_prefix-append, cut-append}
unfoldable pub use Maps.{get_key, set_key}
pub use Maps.{str_eq_refl, str_eq_ne, get_key-set_key, get_key_other}
pub use Prim.Native.Nat.{ℕ, zero, suc, ◌+◌, ◌-◌, ◌*◌, ◌/◌, ◌%◌, ◌^◌, ◌≤◌, ◌<◌}
pub use Prim.Native.String.{String}
pub use mathlib.Core.Path.{◌≡◌, refl, sym, ap, ◌∙◌, subst, fun_ext}
pub use mathlib.Core.Logic.{◌≢◌, ◌↔◌, ◌⊎◌, inl, inr}
pub use mathlib.Core.Bool.{Bool, true, false, ◌&&◌, ◌||◌, not}
pub use mathlib.Core.Option.{Option, none, some}
pub use mathlib.Core.List.{List, [], ◌∷◌, ◌++◌, map, append-nil, append_assoc}
pub use native.Mathlib.Omega.{arith}
unfoldable pub use native.Mathlib.Decide.{dec_lt, ℕ_discrete}
unfoldable pub use text.Mathlib.Text.{◌==◌ as str_eq}
pub use text.Mathlib.TextEquality.{eq_iff}
