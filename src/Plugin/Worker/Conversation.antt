-- ===== src/Plugin/Worker/Conversation.antt =====
-- The thread of a DeviceCommunicator over a queue of calls (plugin.cpp).
use trezor_plugin.Prelude.{
  ℕ, ◌<◌, ◌≡◌, ◌≢◌, refl, ap, sym, ◌∙◌, ◌++◌, append_assoc, append-nil, Bool, List, [], ◌∷◌, Bytes,
  length, map, All, replicate,
}
use trezor_plugin.Exceptions.{ok}
use trezor_plugin.Libraries.Boost.{Boost}
use trezor_plugin.Libraries.Protobuf.{Protobuf}
use trezor_plugin.Libraries.FireBreath.{Variants}
use trezor_plugin.Devices.Buffer.Stream.{stream}
use trezor_plugin.Devices.Buffer.Write.{payloads, IsReport}
use trezor_plugin.Devices.Channel.{Endian, frame}
use trezor_plugin.Plugin.Communicators.{take_job}
use trezor_plugin.Plugin.Executor.{Reply, success, Executor, Job, call_job, run_job}
use trezor_plugin.Plugin.Executor.Opening.{io_of, IsHealthy}
use trezor_plugin.Plugin.Executor.Exchange.{
  Exchanges, Agrees, arguments, request, run_job-Exchanges,
}
use trezor_plugin.Plugin.Worker.{Line, Runs, consume, caught}

module _ (boost : Boost) (pb : Protobuf) (fb : Variants pb) (utf8 : Bytes → Bytes) (e : Endian)
    (pool : pb.Pool) (depth : ℕ) where
  -- A call of the page, and what the device puts on the wire for it.
  pub record Round : Type 0 where
    pub use_timeout : Bool
    pub type_name : Bytes
    pub message_map : List (Bytes × fb.Variant)
    pub callbacks : ℕ
    pub type : ℕ
    pub type' : ℕ
    pub bytes : Bytes
    pub garbage : Bytes
    pub inmsg : pb.Message
    pub outmsg : pb.Message
    pub answer : List (Bytes × fb.Variant)
    pub agrees :
        Agrees boost pb fb pool depth type_name message_map type type' bytes inmsg outmsg answer
    pub clean : All (λ b. b ≢ b'#') garbage

  abbrev pub job_of : Round → Job fb.Variant
  job_of t = call_job t.use_timeout t.type_name t.message_map t.callbacks

  abbrev pub reply_of : Round → ℕ × Reply fb.Variant
  reply_of t = (t.callbacks, success (arguments pb fb t.outmsg t.answer))

  -- The stream of the device for these calls, with `rest` behind it.
  abbrev pub flow_of : List Round → Bytes → Bytes
  flow_of [] rest = rest
  flow_of (t ∷ ts) rest = t.garbage ++ (frame e t.type' (length t.bytes) t.bytes ++ flow_of ts rest)

  -- The reports of the calls, in order: of each, whole reports that carry its request and fewer
  -- than 63 zeros.
  abbrev pub Carried : List Round → List Bytes → Type 0
  Carried [] reports = reports ≡ []
  Carried (t ∷ ts) reports =
      (mine : List Bytes) × (others : List Bytes) × (padding : ℕ) × (reports ≡ mine ++ others)
      × (payloads mine ≡ request e pb t.inmsg t.type ++ replicate padding 0)
      × (padding < 63)
      × All IsReport mine
      × Carried ts others

  -- From an executor to a line that has served the calls: nothing waits, the callbacks got their
  -- answers and the device its requests, in order, and both are ready for more.
  pub record Served (base : ℕ) (ts : List Round) (rest : Bytes) (y : Executor fb.Variant)
      (l : Line fb.Variant) : Type 0 where
    pub served : l.queue ≡ []
    pub answers : l.executor.answers ≡ y.answers ++ map reply_of ts
    pub reports : List Bytes
    pub sent : l.executor.wire.sent ≡ y.wire.sent ++ reports
    pub carried : Carried ts reports
    pub left : stream (io_of l.executor) ≡ rest
    pub healthy : IsHealthy base l.executor

  -- One call, and then the others.
  Served-step :
      (base : ℕ) (t : Round) (ts : List Round) (rest flow : Bytes) (y y' : Executor fb.Variant)
      (l : Line fb.Variant)
      → Exchanges base
          (request e pb t.inmsg t.type)
          t.callbacks
          (arguments pb fb t.outmsg t.answer)
          flow
          y
          (ok tt, y')
      → Served base ts rest y' l
      → Served base (t ∷ ts) rest y l
  Served-step base t ts rest flow y y' l x s = record {
    served = s.served;
    answers =
        s.answers
        ∙ ap (λ k. k ++ map reply_of ts) x.answered
        ∙ append_assoc y.answers (reply_of t ∷ []) (map reply_of ts);
    reports = x.reports ++ s.reports;
    sent = s.sent ∙ ap (λ k. k ++ s.reports) x.sent ∙ append_assoc y.wire.sent x.reports s.reports;
    carried = (x.reports, s.reports, x.padding, refl, x.carries, x.short, x.shape, s.carried);
    left = s.left;
    healthy = s.healthy;
  }

  -- From a line that a run has come to, for the calls that are left.
  Runs-from :
      (base : ℕ) (l : Line fb.Variant) (ts : List Round) (rest : Bytes) (y : Executor fb.Variant)
      → Runs boost pb fb utf8 e pool depth l [] (record { queue = map job_of ts; executor = y })
      → IsHealthy base y
      → stream (io_of y) ≡ flow_of ts rest
      → (l' : Line fb.Variant) × Runs boost pb fb utf8 e pool depth l [] l'
        × Served base ts rest y l'
  unfolding consume take_job
  Runs-from base l [] rest y run h s = (
    record { queue = []; executor = y },
    run,
    record {
      served = refl;
      answers = sym (append-nil y.answers);
      reports = [];
      sent = sym (append-nil y.wire.sent);
      carried = refl;
      left = s;
      healthy = h;
    },
  )
  Runs-from base l (t ∷ ts) rest y run h s =
      let (r, y') = run_job boost pb fb utf8 e pool depth (job_of t) y in
      let x : Exchanges base (request e pb t.inmsg t.type) t.callbacks
          (arguments pb fb t.outmsg t.answer) (flow_of ts rest) y (r, y') =
        run_job-Exchanges boost pb fb utf8 e pool depth t.use_timeout t.type_name t.message_map
          t.callbacks t.type t.type' t.bytes t.garbage (flow_of ts rest) t.inmsg t.outmsg t.answer
          base y t.agrees h t.clean s in
      let (l', run', all) =
        Runs-from base l ts rest y' (Runs.consumed run (ap caught x.done)) x.healthy x.left in
      (l', run', Served-step base t ts rest (flow_of ts rest) y y' l' (rw x.done at x) all)

  -- The thread serves a queue of calls: with a healthy executor, and a stream that has the
  -- answers' frames in the order of the calls, each behind bytes that are no `#`, its rounds alone
  -- come to a line with nothing in the queue. Every call's callbacks got the map of its own answer
  -- under "success", and every request went out, in order; the stream is left behind the last
  -- frame, and the executor is healthy again.
  pub Runs-Served :
      (base : ℕ) (ts : List Round) (rest : Bytes) (y : Executor fb.Variant)
      → IsHealthy base y
      → stream (io_of y) ≡ flow_of ts rest
      → (l : Line fb.Variant) × Runs boost pb fb utf8 e pool depth
          (record { queue = map job_of ts; executor = y })
          []
          l
        × Served base ts rest y l
  Runs-Served base ts rest y h s = Runs-from base _ ts rest y Runs.begun h s
