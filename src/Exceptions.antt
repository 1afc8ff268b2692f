-- ===== src/Exceptions.antt =====
-- exceptions.h, and how a call of the source ends.
use trezor_plugin.Prelude.{ℕ, Bytes, codes, ◌++◌, []}

-- What the code throws. `foreign` is any other std::exception, thrown by a library (a failed
-- convert_cast, a bad regular expression); `thread_interrupted` is boost's, which is none.
pub data Exception : Type 0 where
  read_error : Bytes → Exception
  write_error : Bytes → Exception
  configuration_error : Bytes → Exception
  message_type_unknown_id : ℕ → Exception
  message_type_unknown_name : Bytes → Exception
  open_error : Exception
  read_timeout : Exception
  script_error : Bytes → Exception
  invalid_argument : Bytes → Exception
  runtime_error : Bytes → Exception
  foreign : Bytes → Exception
  thread_interrupted : Exception

-- `fault` is undefined behaviour, here a write past the end of an array, and a call of protobuf on a
-- field that it is not for. `blocked` is a call that waits for ever: on the device, or on a mutex that nobody unlocks. `out_of_fuel` is no outcome of
-- the code: a loop of the model used up its rounds.
pub data Outcome {ℓ} (A : Type ℓ) : Type ℓ where
  ok : A → Outcome A
  throw : Exception → Outcome A
  fault : Outcome A
  blocked : Outcome A
  out_of_fuel : Outcome A

infixl 5 ◌>>=◌ ◌>>◌
abbrev pub ◌>>=◌ {ℓ κ} : {A : Type ℓ} {B : Type κ} → Outcome A → (A → Outcome B) → Outcome B
ok a >>= f = f a
throw e >>= f = throw e
fault >>= f = fault
blocked >>= f = blocked
out_of_fuel >>= f = out_of_fuel

abbrev pub ◌>>◌ {ℓ κ} : {A : Type ℓ} {B : Type κ} → Outcome A → Outcome B → Outcome B
m >> k = m >>= λ _. k

-- `e.what()`; `lexical_cast` is boost's, from a number to its text.
unfoldable pub what : (ℕ → Bytes) → Exception → Bytes
what lexical_cast (read_error msg) = codes "Read error: " ++ msg
what lexical_cast (write_error msg) = codes "Write error: " ++ msg
what lexical_cast (configuration_error msg) = codes "Configuration error: " ++ msg
what lexical_cast (message_type_unknown_id n) = codes "Message type unknown: " ++ lexical_cast n
what lexical_cast (message_type_unknown_name s) =
    codes "Message type unknown: '" ++ (s ++ codes "'")
what lexical_cast open_error = codes "Opening device failed"
what lexical_cast read_timeout = codes "Reading timed out"
what lexical_cast (script_error msg) = msg
what lexical_cast (invalid_argument msg) = msg
what lexical_cast (runtime_error msg) = msg
what lexical_cast (foreign msg) = msg
what lexical_cast thread_interrupted = []

-- `try { … } catch (const std::exception &e) { … }`: boost::thread_interrupted passes through.
abbrev pub catch_exception {ℓ} : {A : Type ℓ} → Outcome A → (Exception → Outcome A) → Outcome A
catch_exception (ok a) handle = ok a
catch_exception (throw thread_interrupted) handle = throw thread_interrupted
catch_exception (throw e) handle = handle e
catch_exception fault handle = fault
catch_exception blocked handle = blocked
catch_exception out_of_fuel handle = out_of_fuel
