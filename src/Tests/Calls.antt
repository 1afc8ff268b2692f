-- ===== src/Tests/Calls.antt =====
-- Calls of a page, from the map to the answer.
use trezor_plugin.Prelude.{ℕ, refl, true, false, List, [], ◌∷◌, Bytes, codes, map, arith}
use trezor_plugin.Prelude.Tests.{bytes_eq}
use trezor_plugin.Libraries.Protobuf.{string}
use trezor_plugin.Messages.Names.{
  type_of_message, message_type, message_name, message_descriptor, create_message, decode,
}
use trezor_plugin.Messages.Serialize.{
  message_to_map, fields_to_map, field_to_map, serialize_single_as, insert,
}
use trezor_plugin.Messages.Parse.{
  message_from_map, fields_from_map, field_from_map, find, parse_single_as,
}
use trezor_plugin.Devices.Buffer.{copy_out}
use trezor_plugin.Devices.Channel.{little, swap16, swap32, header, frame}
use trezor_plugin.Plugin.Executor.{Executor, call_job, run_job}
use trezor_plugin.Plugin.Executor.Opening.{IsHealthy}
use trezor_plugin.Plugin.Executor.Exchange.{
  Agrees, Exchanges, arguments, request, run_job-Exchanges,
}
use trezor_plugin.Devices.State.{ReadStep}
use trezor_plugin.Plugin.Executor.Late.{tardy, Requests, TimesOut, run_job-late}
use trezor_plugin.Plugin.Worker.{Line, Runs}
use trezor_plugin.Plugin.Worker.Conversation.{Round, job_of, Served, Runs-Served}
use trezor_plugin.Tests.{plain_boost, notes, Note, arriving, wire_with}
use trezor_plugin.Tests.Variants.{Value, values}
use trezor_plugin.Tests.Plugin.{same_text, idle}

-- The page's map, and the message that it makes.
abbrev asked : List (Bytes × Value)
asked = (codes "text", values.of string (codes "hi")) ∷ []

abbrev hi : Note
hi = (codes "Ping", codes "hi")

-- The answer, a Ping of two bytes.
abbrev told : Bytes → List (Bytes × Value)
told bytes = (codes "text", values.of string bytes) ∷ []

hi-Agrees :
    (x y : ℕ)
    → Agrees plain_boost notes values 0 3
        (codes "Ping")
        asked
        1
        1
        (x ∷ y ∷ [])
        hi
        (codes "Ping", x ∷ y ∷ [])
        (told (x ∷ y ∷ []))
unfolding create_message message_descriptor message_from_map fields_from_map field_from_map find
    parse_single_as type_of_message message_type decode message_name message_to_map fields_to_map
    field_to_map serialize_single_as insert bytes_eq
hi-Agrees x y = record {
  prototype = (codes "Ping", []);
  created = refl;
  filled = refl;
  typed = refl;
  narrow = omega arith;
  small = omega arith;
  decoded = refl;
  shown = refl;
}

-- An answer in one report: a stray byte, its frame, and a zero.
abbrev answering : Executor Value
answering = record idle {
  wire = wire_with (arriving (7 ∷ b'#' ∷ b'#' ∷ 0 ∷ 1 ∷ 0 ∷ 0 ∷ 0 ∷ 2 ∷ 10 ∷ 11 ∷ 0 ∷ []) ∷ []);
}

answering-IsHealthy : IsHealthy 100 answering
answering-IsHealthy = record {
  ready = record { free = refl; begun = omega arith; prompt = ((omega arith, omega arith), tt) };
  openable = record { free = refl; accepting = λ k. omega arith; opens = λ e. refl };
}

run_job-Exchanges_example :
    Exchanges 100
      (request little notes hi 1)
      7
      (arguments notes values (codes "Ping", 10 ∷ 11 ∷ []) (told (10 ∷ 11 ∷ [])))
      (0 ∷ [])
      answering
      (run_job plain_boost notes values same_text little 0 3
        (call_job true (codes "Ping") asked 7)
        answering)
unfolding frame header swap16 swap32 copy_out
run_job-Exchanges_example =
    run_job-Exchanges plain_boost notes values same_text little 0 3 true (codes "Ping") asked 7 1 1
      (10 ∷ 11 ∷ []) (7 ∷ []) (0 ∷ []) hi (codes "Ping", 10 ∷ 11 ∷ []) (told (10 ∷ 11 ∷ [])) 100
      answering (hi-Agrees 10 11) answering-IsHealthy ((λ e. omega arith), tt) refl

-- Two calls, and a device that answers the second with other bytes behind some zeros.
abbrev first_round : Round plain_boost notes values same_text little 0 3
first_round = record {
  use_timeout = true;
  type_name = codes "Ping";
  message_map = asked;
  callbacks = 7;
  type = 1;
  type' = 1;
  bytes = 10 ∷ 11 ∷ [];
  garbage = 7 ∷ [];
  inmsg = hi;
  outmsg = (codes "Ping", 10 ∷ 11 ∷ []);
  answer = told (10 ∷ 11 ∷ []);
  agrees = hi-Agrees 10 11;
  clean = ((λ e. omega arith), tt);
}

abbrev second_round : Round plain_boost notes values same_text little 0 3
second_round = record first_round {
  use_timeout = false;
  callbacks = 8;
  bytes = 20 ∷ 21 ∷ [];
  garbage = 0 ∷ 0 ∷ [];
  outmsg = (codes "Ping", 20 ∷ 21 ∷ []);
  answer = told (20 ∷ 21 ∷ []);
  agrees = hi-Agrees 20 21;
  clean = ((λ e. omega arith), ((λ e. omega arith), tt));
}

abbrev two_rounds : List (Round plain_boost notes values same_text little 0 3)
two_rounds = first_round ∷ second_round ∷ []

abbrev answering_twice : Executor Value
answering_twice = record idle {
  wire = wire_with (
      arriving (7 ∷ b'#' ∷ b'#' ∷ 0 ∷ 1 ∷ 0 ∷ 0 ∷ 0 ∷ 2 ∷ 10 ∷ 11 ∷ 0 ∷ [])
      ∷ arriving (0 ∷ b'#' ∷ b'#' ∷ 0 ∷ 1 ∷ 0 ∷ 0 ∷ 0 ∷ 2 ∷ 20 ∷ 21 ∷ 9 ∷ [])
      ∷ []);
}

answering_twice-IsHealthy : IsHealthy 100 answering_twice
answering_twice-IsHealthy = record {
  ready = record {
    free = refl;
    begun = omega arith;
    prompt = ((omega arith, omega arith), ((omega arith, omega arith), tt));
  };
  openable = record { free = refl; accepting = λ k. omega arith; opens = λ e. refl };
}

Runs-Served_example :
    (l : Line Value) × Runs plain_boost notes values same_text little 0 3
      (record {
        queue = map (job_of plain_boost notes values same_text little 0 3) two_rounds;
        executor = answering_twice;
      })
      []
      l
    × Served plain_boost notes values same_text little 0 3 100 two_rounds (9 ∷ []) answering_twice l
unfolding frame header swap16 swap32 copy_out
Runs-Served_example =
    Runs-Served plain_boost notes values same_text little 0 3 100 two_rounds (9 ∷ [])
      answering_twice answering_twice-IsHealthy refl

-- A device that answers when the clock is 16 seconds on.
abbrev belated : List ReadStep
belated =
    record (arriving (7 ∷ b'#' ∷ b'#' ∷ 0 ∷ 1 ∷ 0 ∷ 0 ∷ 0 ∷ 2 ∷ 10 ∷ 11 ∷ 0 ∷ [])) { now = 120 }
    ∷ []

abbrev waiting_long : Executor Value
waiting_long = record idle { wire = wire_with (tardy (101 ∷ 110 ∷ []) 116 belated) }

hi-Requests : Requests plain_boost notes values same_text little 0 3 (codes "Ping") asked hi
hi-Requests =
    let a = hi-Agrees 10 11 in
    record {
      prototype = a.prototype;
      type = 1;
      created = a.created;
      filled = a.filled;
      typed = a.typed;
    }

run_job-late_example :
    let first =
      run_job plain_boost notes values same_text little 0 3
        (call_job true (codes "Ping") asked 7)
        waiting_long in
    TimesOut plain_boost notes values same_text little 0 3 7 116 belated waiting_long first
    × Exchanges 116
        (request little notes hi 1)
        8
        (arguments notes values (codes "Ping", 10 ∷ 11 ∷ []) (told (10 ∷ 11 ∷ [])))
        (0 ∷ [])
        first.1
        (run_job plain_boost notes values same_text little 0 3
          (call_job true (codes "Ping") asked 8)
          first.1)
unfolding frame header swap16 swap32
run_job-late_example =
    run_job-late plain_boost notes values same_text little 0 3 (codes "Ping") asked 7 hi
      (101 ∷ 110 ∷ []) 116 belated true (codes "Ping") asked 8 1 1 (10 ∷ 11 ∷ []) (7 ∷ []) (0 ∷ [])
      hi (codes "Ping", 10 ∷ 11 ∷ []) (told (10 ∷ 11 ∷ [])) waiting_long hi-Requests
      (hi-Agrees 10 11) (record { free = refl; accepting = λ k. omega arith; opens = λ e. refl })
      refl refl (omega arith, (omega arith, tt)) (omega arith) ((omega arith, omega arith), tt)
      ((λ e. omega arith), tt) refl
