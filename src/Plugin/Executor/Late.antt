-- ===== src/Plugin/Executor/Late.antt =====
-- A call of DeviceJobExecutor that times out, and the next one (plugin.cpp, devices.cpp).
use trezor_plugin.Prelude.{
  ℕ, ◌-◌, ◌≤◌, ◌<◌, ◌≡◌, ◌≢◌, refl, ap, ◌∙◌, Bool, true, false, List, [], ◌∷◌, ◌++◌, Bytes, codes,
  length, map, arith, All,
}
use trezor_plugin.Exceptions.{Outcome, ok, throw, read_timeout, what}
use trezor_plugin.Libraries.Boost.{Boost}
use trezor_plugin.Libraries.Protobuf.{Protobuf}
use trezor_plugin.Libraries.FireBreath.{Variants}
use trezor_plugin.Messages.Names.{create_message, type_of_message}
use trezor_plugin.Messages.Parse.{message_from_map}
use trezor_plugin.Devices.State.{Io, Wire, ReadStep}
use trezor_plugin.Devices.Buffer.{copy_out, read}
use trezor_plugin.Devices.Buffer.Stream.{flow}
use trezor_plugin.Devices.Buffer.Array.{contents}
use trezor_plugin.Devices.Buffer.Answer.{IsPrompt}
use trezor_plugin.Devices.Buffer.Quiet.{quiet, waiting, read_times_out}
use trezor_plugin.Devices.Channel.{Endian, frame, align, read_header, read_message, write_message}
use trezor_plugin.Devices.Channel.Loopback.{write_message-Sends}
use trezor_plugin.Plugin.Executor.{
  Executor, error, call_job, call, guarded, report, on_channel, run_job,
}
use trezor_plugin.Plugin.Executor.Opening.{
  io_of, IsOpenable, IsHealthy, ensure_channel-Opens, IsOpenable-after,
}
use trezor_plugin.Plugin.Executor.Exchange.{
  Exchanges, Agrees, arguments, request, run_job-Exchanges,
}

-- The answers of a device that is quiet until the clock is beyond the timeout, and then goes on.
abbrev pub tardy : List ℕ → ℕ → List ReadStep → List ReadStep
tardy early late later = map waiting early ++ (quiet (late, false) ∷ later)

module _ (utf8 : Bytes → Bytes) (e : Endian) (pb : Protobuf) (pool : pb.Pool) where
  -- The state behind a read that timed out.
  abbrev timed_out : Io → ℕ → List ReadStep → Io
  timed_out io late later = record io { wire = record (io.wire) { reads = later; now = late } }

  read_message_times_out :
      (early : List ℕ) (late : ℕ) (later : List ReadStep) (io : Io)
      → io.wire.reads ≡ tardy early late later
      → io.wire.locked ≡ false
      → io.buffer.buffer_length < 1
      → All (λ t. t - io.wire.now ≤ io.buffer.seconds) early
      → io.buffer.seconds < late - io.wire.now
      → read_message utf8 e true pb pool io ≡ (throw read_timeout, timed_out io late later)
  unfolding read_message read_header align
  read_message_times_out early late later io same free short all over =
      let first : read utf8 1 true io ≡ (throw read_timeout, timed_out io late later) =
        ap (λ r. read utf8 1 true (record io { wire = record (io.wire) { reads = r } })) same
        ∙ read_times_out utf8 1 early late false later io free short all over in
      rw first refl

module _ (boost : Boost) (pb : Protobuf) (fb : Variants pb) (utf8 : Bytes → Bytes) (e : Endian)
    (pool : pb.Pool) (depth : ℕ) where
  -- A page's map makes a message of a known type.
  pub record Requests (type_name : Bytes) (map : List (Bytes × fb.Variant)) (inmsg : pb.Message)
      : Type 0 where
    pub prototype : pb.Message
    pub type : ℕ
    pub created : create_message pb pool type_name ≡ ok prototype
    pub filled : message_from_map boost pb fb depth prototype map ≡ ok inmsg
    pub typed : type_of_message pb pool inmsg ≡ ok type

  -- A call that timed out: the callbacks got the exception's text, and what comes late is kept.
  pub record TimesOut (c : ℕ) (late : ℕ) (later : List ReadStep) (x : Executor fb.Variant)
      (result : Outcome (Unit {0}) × Executor fb.Variant) : Type 0 where
    pub done : result.0 ≡ ok tt
    pub answered : result.1.answers ≡ x.answers ++ ((c, error (codes "Reading timed out")) ∷ [])
    pub channel : result.1.channel ≡ true
    pub buffer : (io_of result.1).buffer ≡ (io_of x).buffer
    pub reads : result.1.wire.reads ≡ later
    pub clock : result.1.wire.now ≡ late
    pub openable : IsOpenable result.1

  run_job-TimesOut :
      (type_name : Bytes) (map' : List (Bytes × fb.Variant)) (c : ℕ) (inmsg : pb.Message)
      (early : List ℕ) (late : ℕ) (later : List ReadStep) (x : Executor fb.Variant)
      → Requests type_name map' inmsg
      → IsOpenable x
      → x.wire.reads ≡ tardy early late later
      → (io_of x).buffer.buffer_length < 1
      → All (λ t. t - x.wire.now ≤ (io_of x).buffer.seconds) early
      → (io_of x).buffer.seconds < late - x.wire.now
      → TimesOut c late later x
          (run_job boost pb fb utf8 e pool depth (call_job true type_name map' c) x)
  unfolding run_job guarded report call on_channel what
  run_job-TimesOut type_name map' c inmsg early late later x q h same short all over =
      let (y, o) = ensure_channel-Opens x h in
      let io = io_of y in
      let (written, w, kept) =
        write_message-Sends utf8 e pb pool inmsg q.type io q.typed o.openable.free
          o.openable.accepting in
      let io1 = (write_message utf8 e pb pool inmsg io).1 in
      let buffers = kept ∙ o.buffer in
      let clocks = ap (λ (v : Wire). v.now) w.appended ∙ o.clock in
      let late_read : read_message utf8 e true pb pool io1
          ≡ (throw read_timeout, timed_out utf8 e pb pool io1 late later) =
        read_message_times_out utf8 e pb pool early late later io1
          (ap (λ (v : Wire). v.reads) w.appended ∙ o.reads ∙ same)
          (ap (λ (v : Wire). v.locked) w.appended ∙ o.openable.free) (rw buffers short)
          (rw (buffers, clocks) all) (rw (buffers, clocks) over) in
      rw (o.opened, q.created, q.filled, written, late_read)
        (record {
          done = refl;
          answered = ap (λ k. k ++ ((c, error (codes "Reading timed out")) ∷ [])) o.answers;
          channel = o.channel;
          buffer = buffers;
          reads = refl;
          clock = refl;
          openable = IsOpenable-after y _ io1.wire _ w.appended refl o.channel o.openable;
        })

  -- A late answer is taken for the next call's. The device is quiet until a call has timed out,
  -- with nothing buffered, and then sends the frame of an answer, behind bytes that are no `#`, and
  -- keeps up. The first call's callbacks get "Reading timed out" under "error", and the answer goes,
  -- under "success", to the callbacks of the call that comes next, whatever that one requests: no
  -- code matches answers with requests. Both requests are of known types, the device can be opened
  -- and takes every report.
  pub run_job-late :
      (type_name : Bytes) (map' : List (Bytes × fb.Variant)) (c : ℕ) (inmsg : pb.Message)
      (early : List ℕ) (late : ℕ) (later : List ReadStep) (use_timeout : Bool) (type_name2 : Bytes)
      (map2 : List (Bytes × fb.Variant)) (c2 : ℕ) (type2 type' : ℕ) (bytes garbage rest : Bytes)
      (inmsg2 outmsg : pb.Message) (answer : List (Bytes × fb.Variant)) (x : Executor fb.Variant)
      → Requests type_name map' inmsg
      → Agrees boost pb fb pool depth type_name2 map2 type2 type' bytes inmsg2 outmsg answer
      → IsOpenable x
      → x.wire.reads ≡ tardy early late later
      → (io_of x).buffer.buffer_length ≡ 0
      → All (λ t. t - x.wire.now ≤ (io_of x).buffer.seconds) early
      → (io_of x).buffer.seconds < late - x.wire.now
      → All (IsPrompt late (io_of x).buffer.seconds) later
      → All (λ b. b ≢ b'#') garbage
      → flow later ≡ garbage ++ (frame e type' (length bytes) bytes ++ rest)
      → let first = run_job boost pb fb utf8 e pool depth (call_job true type_name map' c) x in
        let second = call_job use_timeout type_name2 map2 c2 in
        TimesOut c late later x first
        × Exchanges late
            (request e pb inmsg2 type2)
            c2
            (arguments pb fb outmsg answer)
            rest
            first.1
            (run_job boost pb fb utf8 e pool depth second first.1)
  unfolding copy_out
  run_job-late type_name map' c inmsg early late later use_timeout type_name2 map2 c2 type2 type'
        bytes garbage rest inmsg2 outmsg answer x q a h same none_buffered all over prompt clean s =
      let x' = (run_job boost pb fb utf8 e pool depth (call_job true type_name map' c) x).1 in
      let t =
        run_job-TimesOut type_name map' c inmsg early late later x q h same (omega arith) all
          over in
      let empty : contents (io_of x').buffer ≡ [] = rw (t.buffer, none_buffered) refl in
      let healthy : IsHealthy late x' = record {
        ready = record {
          free = t.openable.free;
          begun = omega (arith, t.clock);
          prompt = rw (t.reads, t.buffer) prompt;
        };
        openable = t.openable;
      } in
      (
        t,
        run_job-Exchanges boost pb fb utf8 e pool depth use_timeout type_name2 map2 c2 type2 type'
            bytes garbage rest inmsg2 outmsg answer late x' a healthy clean
            (ap (λ k. k ++ flow x'.wire.reads) empty ∙ ap flow t.reads ∙ s),
      )
