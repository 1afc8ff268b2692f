-- ===== src/Libraries/Boost.antt =====
-- Boost, and FireBreath's UTF-8 functions: the plain functions that the plugin calls.
use trezor_plugin.Prelude.{ℕ, Bool, Bytes}
use trezor_plugin.Exceptions.{Outcome}

-- `hex` and `unhex` are boost::algorithm's, which throw on bad input; `regex_match text pattern`
-- compiles the pattern first, which throws if it is none.
pub record Boost : Type 0 where
  pub lexical_cast : ℕ → Bytes
  pub hex : Bytes → Outcome Bytes
  pub unhex : Bytes → Outcome Bytes
  pub regex_match : Bytes → Bytes → Outcome Bool
  pub wstring_to_utf8 : Bytes → Bytes
  pub utf8_to_wstring : Bytes → Bytes
