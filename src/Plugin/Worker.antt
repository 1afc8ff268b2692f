-- ===== src/Plugin/Worker.antt =====
-- DeviceCommunicator (plugin.cpp): the queue that the page fills and its thread empties.
pub mod Conversation
use trezor_plugin.Prelude.{
  ℕ, ◌≡◌, ap, sym, ◌∙◌, ◌++◌, append_assoc, append-nil, none, some, List, [], ◌∷◌, Bytes, map,
}
use mathlib.Core.List.{map-append}
use trezor_plugin.Exceptions.{Outcome, ok, throw, fault, blocked, out_of_fuel, thread_interrupted}
use trezor_plugin.Libraries.Boost.{Boost}
use trezor_plugin.Libraries.Protobuf.{Protobuf}
use trezor_plugin.Libraries.FireBreath.{Variants}
use trezor_plugin.Devices.Channel.{Endian}
use trezor_plugin.Plugin.Communicators.{put, take_job}
use trezor_plugin.Plugin.Executor.{Executor, Job, callbacks, run_job}
use trezor_plugin.Plugin.Executor.Answers.{Answered, run_job-Answered}

-- A communicator at work: the queue, and the executor of its thread.
pub record Line (V : Type 0) : Type 0 where
  pub queue : List (Job V)
  pub executor : Executor V

-- The catch blocks of DeviceCommunicator::consumer: an interruption ends the thread, another
-- exception does not.
abbrev pub caught : Outcome (Unit {0}) → Outcome (Unit {0})
caught (ok tt) = ok tt
caught (throw thread_interrupted) = throw thread_interrupted
caught (throw e) = ok tt
caught fault = fault
caught blocked = blocked
caught out_of_fuel = out_of_fuel

-- The callbacks that were answered, and those of the jobs that wait.
abbrev pub ids : {V : Type 0} → Line V → List ℕ
ids l = map (λ a. a.0) l.executor.answers ++ map callbacks l.queue

module _ (boost : Boost) (pb : Protobuf) (fb : Variants pb) (utf8 : Bytes → Bytes) (e : Endian)
    (pool : pb.Pool) (depth : ℕ) where
  -- One round of the loop of DeviceCommunicator::consumer; with an empty queue it waits.
  unfoldable pub consume : Line fb.Variant → Outcome (Unit {0}) × Line fb.Variant
  unfolding take_job
  consume l = elim (take_job l.queue) [
    | none ↦ (blocked, l)
    | some (job, rest) ↦
        let (r, x) = run_job boost pb fb utf8 e pool depth job l.executor in
        (caught r, record { queue = rest; executor = x })
  ]

  -- A run: the page puts jobs into the queue, whose callbacks are listed, and the thread goes its
  -- rounds, in any order of the two.
  pub data Runs (l : Line fb.Variant) : List ℕ → Line fb.Variant → Type 0 where
    begun : Runs l [] l
    enqueued :
        {cs : List ℕ} {l' : Line fb.Variant}
        → Runs l cs l'
        → (job : Job fb.Variant)
        → Runs l (cs ++ (callbacks job ∷ [])) (record l' { queue = put job l'.queue })
    consumed :
        {cs : List ℕ} {l' : Line fb.Variant}
        → Runs l cs l'
        → (consume l').0 ≡ ok tt
        → Runs l cs (consume l').1

  ids-put :
      (l : Line fb.Variant) (job : Job fb.Variant)
      → ids (record l { queue = put job l.queue }) ≡ ids l ++ (callbacks job ∷ [])
  unfolding put
  ids-put l job =
      ap (λ t. map (λ a. a.0) l.executor.answers ++ t) (map-append callbacks l.queue (job ∷ []))
      ∙ sym (
          append_assoc (map (λ a. a.0) l.executor.answers) (map callbacks l.queue)
            (callbacks job ∷ []))

  -- What a job that came to an end did to the callbacks.
  pub ids-Answered :
      (y : Executor fb.Variant) (job : Job fb.Variant) (rest : List (Job fb.Variant))
      (r : Outcome (Unit {0})) (x : Executor fb.Variant)
      → Answered (callbacks job) y (r, x)
      → caught r ≡ ok tt
      → ids (record { queue = rest; executor = x })
        ≡ map (λ a. a.0) y.answers ++ map callbacks (job ∷ rest)
  ids-Answered y job rest (ok tt) x (reply, a) c =
      ap (λ t. map (λ b. b.0) t ++ map callbacks rest) a
      ∙ ap (λ t. t ++ map callbacks rest)
          (map-append (λ b. b.0) y.answers ((callbacks job, reply) ∷ []))
      ∙ append_assoc (map (λ b. b.0) y.answers) (callbacks job ∷ []) (map callbacks rest)
  ids-Answered y job rest (throw t) x (only, a) c =
      let clash : throw thread_interrupted ≡ ok tt = ap (λ u. caught (throw u)) (sym only) ∙ c in
      absurd cc
  ids-Answered y job rest fault x a c = cc
  ids-Answered y job rest blocked x a c = cc
  ids-Answered y job rest out_of_fuel x a c = cc

  -- A round that goes on has answered the first job of the queue.
  ids-consume :
      (queue : List (Job fb.Variant)) (y : Executor fb.Variant)
      → (consume (record { queue = queue; executor = y })).0 ≡ ok tt
      → ids (consume (record { queue = queue; executor = y })).1
        ≡ ids (record { queue = queue; executor = y })
  unfolding consume take_job
  ids-consume [] y h = cc
  ids-consume (job ∷ rest) y h =
      let (r, x) = run_job boost pb fb utf8 e pool depth job y in
      ids-Answered y job rest r x (run_job-Answered boost pb fb utf8 e pool depth job y) h

  -- Jobs are answered in the order in which they were enqueued, each exactly once: along every run,
  -- the callbacks that were answered, followed by those of the jobs that wait, are those of the
  -- beginning followed by those enqueued since. No job is lost, answered twice or overtaken.
  ids-Runs :
      (l : Line fb.Variant) {cs : List ℕ} {l' : Line fb.Variant}
      → Runs l cs l'
      → ids l' ≡ ids l ++ cs
  ids-Runs l begun = sym (append-nil (ids l))
  ids-Runs l (enqueued {cs} {l'} run job) =
      ids-put l' job
      ∙ ap (λ t. t ++ (callbacks job ∷ [])) (ids-Runs l run)
      ∙ append_assoc (ids l) cs (callbacks job ∷ [])
  ids-Runs l (consumed {cs} {l'} run h) = ids-consume l'.queue l'.executor h ∙ ids-Runs l run
