-- ===== src/Plugin/Executor/Exchange.antt =====
-- A call of DeviceJobExecutor from its request to its answer: the page's map, the reports out, the
-- stream in, and the callbacks (plugin.cpp, messages.cpp and devices.cpp together).
use trezor_plugin.Prelude.{
  ℕ, ◌≤◌, ◌<◌, ◌^◌, ◌≡◌, ◌≢◌, refl, ap, ◌∙◌, Bool, true, List, [], ◌∷◌, ◌++◌, Bytes, length,
  replicate, All,
}
use trezor_plugin.Exceptions.{Outcome, ok}
use trezor_plugin.Libraries.Boost.{Boost}
use trezor_plugin.Libraries.Protobuf.{Protobuf, string}
use trezor_plugin.Libraries.FireBreath.{Variants}
use trezor_plugin.Messages.Names.{create_message, type_of_message, decode}
use trezor_plugin.Messages.Serialize.{message_to_map}
use trezor_plugin.Messages.Parse.{message_from_map}
use trezor_plugin.Devices.Buffer.Stream.{stream}
use trezor_plugin.Devices.Buffer.Read.{safe_length}
use trezor_plugin.Devices.Buffer.Write.{payloads, IsReport}
use trezor_plugin.Devices.Channel.{Endian, frame, read_message, write_message}
use trezor_plugin.Devices.Channel.Header.{read_message-frame}
use trezor_plugin.Devices.Channel.Loopback.{write_message-Sends}
use trezor_plugin.Devices.Channel.Received.{IsReceived, Receives-read_message}
use trezor_plugin.Plugin.Executor.{
  success, Executor, call_job, invoke, on_channel, report, guarded, call, run_job,
}
use trezor_plugin.Plugin.Executor.Opening.{
  io_of, with_io, IsHealthy, IsReady-sent, stream-sent, IsOpenable-after, ensure_channel-Opens,
  Opens-IsReady, Opens-stream,
}

-- A call went through: the reports behind those sent before carry `request` and fewer than 63
-- zeros, the callbacks got `args` under "success", and the next call finds the rest of the stream.
pub record Exchanges {V : Type 0} (base : ℕ) (request : Bytes) (c : ℕ) (args : List V)
    (rest : Bytes) (x : Executor V) (result : Outcome (Unit {0}) × Executor V) : Type 0 where
  pub done : result.0 ≡ ok tt
  pub answered : result.1.answers ≡ x.answers ++ ((c, success args) ∷ [])
  pub reports : List Bytes
  pub padding : ℕ
  pub sent : result.1.wire.sent ≡ x.wire.sent ++ reports
  pub carries : payloads reports ≡ request ++ replicate padding 0
  pub short : padding < 63
  pub shape : All IsReport reports
  pub channel : result.1.channel ≡ true
  pub left : stream (io_of result.1) ≡ rest
  pub healthy : IsHealthy base result.1

-- The arguments of "success" for an answer.
abbrev pub arguments :
    (pb : Protobuf) (fb : Variants pb) → pb.Message → List (Bytes × fb.Variant) → List fb.Variant
arguments pb fb m map = fb.of string (pb.type_name m) ∷ fb.of_map map ∷ []

-- The bytes of DeviceChannel::write for a message of a type.
abbrev pub request : Endian → (pb : Protobuf) → pb.Message → ℕ → Bytes
request e pb m type = frame e type (pb.byte_size m) (pb.serialize m (pb.byte_size m))

module _ (boost : Boost) (pb : Protobuf) (fb : Variants pb) (pool : pb.Pool) (depth : ℕ) where
  -- What a call's request and answer are: the page's map makes `inmsg`, and the answer's bytes
  -- decode to `outmsg`, whose map is `answer`.
  pub record Agrees (type_name : Bytes) (map : List (Bytes × fb.Variant)) (type type' : ℕ)
      (bytes : Bytes) (inmsg outmsg : pb.Message) (answer : List (Bytes × fb.Variant))
      : Type 0 where
    pub prototype : pb.Message
    pub created : create_message pb pool type_name ≡ ok prototype
    pub filled : message_from_map boost pb fb depth prototype map ≡ ok inmsg
    pub typed : type_of_message pb pool inmsg ≡ ok type
    pub narrow : type' < 2 ^ 16
    pub small : length bytes ≤ safe_length
    pub decoded : decode pb pool type' bytes ≡ ok outmsg
    pub shown : message_to_map boost pb fb depth outmsg ≡ ok answer

module _ (boost : Boost) (pb : Protobuf) (fb : Variants pb) (utf8 : Bytes → Bytes) (e : Endian)
    (pool : pb.Pool) (depth : ℕ) where
  -- The executor of a call that wrote and read.
  abbrev exchanged : Bool → pb.Message → Executor fb.Variant → Executor fb.Variant
  exchanged use_timeout inmsg y =
      let io = (write_message utf8 e pb pool inmsg (io_of y)).1 in
      with_io (with_io y io) (read_message utf8 e use_timeout pb pool io).1

  call_runs :
      (use_timeout : Bool) (type_name : Bytes) (map : List (Bytes × fb.Variant)) (type type' : ℕ)
      (bytes : Bytes) (inmsg outmsg : pb.Message) (answer : List (Bytes × fb.Variant))
      (y : Executor fb.Variant)
      → Agrees boost pb fb pool depth type_name map type type' bytes inmsg outmsg answer
      → (write_message utf8 e pb pool inmsg (io_of y)).0 ≡ ok tt
      → (read_message utf8 e use_timeout pb pool (write_message utf8 e pb pool inmsg (io_of y)).1).0
        ≡ ok outmsg
      → call boost pb fb utf8 e pool depth use_timeout type_name map y
        ≡ (ok (arguments pb fb outmsg answer), exchanged use_timeout inmsg y)
  unfolding call on_channel
  call_runs use_timeout type_name map type type' bytes inmsg outmsg answer y a written received =
      rw (a.created, a.filled, written, received, a.shown) refl

  -- A call of a healthy executor comes to its end, when the stream has bytes that are no `#`, then
  -- the frame of an answer, then more. The callbacks got the type and the map of the message that
  -- the frame decodes to, under "success"; behind the reports sent before stand whole reports that
  -- carry the frame of the request, the message of the page's map, and fewer than 63 zeros; a
  -- channel is open, the stream is left behind the answer's frame, and the executor is healthy. The
  -- request's type is known, and the answer has at most 1986 bytes and a type of 16 bits.
  pub run_job-Exchanges :
      (use_timeout : Bool) (type_name : Bytes) (map : List (Bytes × fb.Variant)) (c : ℕ)
      (type type' : ℕ) (bytes garbage rest : Bytes) (inmsg outmsg : pb.Message)
      (answer : List (Bytes × fb.Variant)) (base : ℕ) (x : Executor fb.Variant)
      → Agrees boost pb fb pool depth type_name map type type' bytes inmsg outmsg answer
      → IsHealthy base x
      → All (λ b. b ≢ b'#') garbage
      → stream (io_of x) ≡ garbage ++ (frame e type' (length bytes) bytes ++ rest)
      → Exchanges base
          (request e pb inmsg type)
          c
          (arguments pb fb outmsg answer)
          rest
          x
          (run_job boost pb fb utf8 e pool depth (call_job use_timeout type_name map c) x)
  unfolding run_job guarded report call
  run_job-Exchanges use_timeout type_name map c type type' bytes garbage rest inmsg outmsg answer
        base x a h g s =
      let (y, o) = ensure_channel-Opens x h.openable in
      let io = io_of y in
      let ready = Opens-IsReady base x y o h.ready in
      let (written, w, kept) =
        write_message-Sends utf8 e pb pool inmsg type io a.typed ready.free o.openable.accepting in
      let io1 = (write_message utf8 e pb pool inmsg io).1 in
      let t =
        read_message-frame utf8 base use_timeout pb pool e type' bytes garbage rest outmsg io1
          (IsReady-sent base io io1 _ w.appended kept ready) a.narrow a.small g
          (stream-sent io io1 _ w.appended kept ∙ Opens-stream x y o ∙ s) a.decoded in
      let io2 = (read_message utf8 e use_timeout pb pool io1).1 in
      let received : IsReceived io1.wire io2.wire =
        Receives-read_message utf8 e pb pool use_timeout io1 in
      let z = exchanged use_timeout inmsg y in
      let runs : run_job boost pb fb utf8 e pool depth (call_job use_timeout type_name map c) x
          ≡ (ok tt, invoke c (success (arguments pb fb outmsg answer)) z) =
        rw
          (
            o.opened,
            call_runs use_timeout type_name map type type' bytes inmsg outmsg answer y a written
                t.done,
          )
          refl in
      let openable =
        IsOpenable-after y (invoke c (success (arguments pb fb outmsg answer)) z) io1.wire _
          w.appended received o.channel o.openable in
      rw runs (record {
        done = refl;
        answered = ap (λ k. k ++ ((c, success (arguments pb fb outmsg answer)) ∷ [])) o.answers;
        reports = w.reports;
        padding = w.padding;
        sent =
            ap (λ v. v.sent) received
            ∙ ap (λ v. v.sent) w.appended
            ∙ ap (λ k. k ++ w.reports) o.sent;
        carries = w.carries;
        short = w.short;
        shape = w.shape;
        channel = o.channel;
        left = t.left;
        healthy = record { ready = t.ready; openable = openable };
      })
