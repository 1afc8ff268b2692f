-- ===== src/Plugin/Lifecycle/Shutdown.antt =====
-- BitcoinTrezorPlugin::shutdown (plugin.cpp): what it leaves behind.
use trezor_plugin.Prelude.{
  ℕ, ◌≡◌, refl, ap, sym, ◌∙◌, ◌++◌, append_assoc, List, [], ◌∷◌, Bytes, map, All, arith,
}
use mathlib.Core.List.{map-append}
use trezor_plugin.Exceptions.{Outcome, ok, throw, fault, blocked, out_of_fuel, thread_interrupted}
use trezor_plugin.Libraries.Boost.{Boost}
use trezor_plugin.Libraries.Protobuf.{Protobuf}
use trezor_plugin.Libraries.FireBreath.{Variants}
use trezor_plugin.Devices.Channel.{Endian, close_channel}
use trezor_plugin.Plugin.Executor.{Executor, Job, callbacks, reset_channel, run_job}
use trezor_plugin.Plugin.Executor.Answers.{Answered, run_job-Answered}
use trezor_plugin.Plugin.Executor.Handles.{Holds, run_job-Holds}
use trezor_plugin.Plugin.Worker.{Line, caught}
use trezor_plugin.Plugin.Lifecycle.{destroy_executor, join, shutdown}

abbrev pub answered : {V : Type 0} → Executor V → List ℕ
answered x = map (λ a. a.0) x.answers

-- How an executor `x` with the jobs of `queue` before it was given up, as `x'`: its handle is closed,
-- and the jobs that it answered since are the first ones of the queue.
pub record GivenUp {V : Type 0} (queue : List (Job V)) (x x' : Executor V) : Type 0 where
  pub closed : x'.wire.handles ≡ 0
  pub dropped : List ℕ
  pub order : answered x ++ map callbacks queue ≡ answered x' ++ dropped

module _ {V : Type 0} where
  pub destroy_executor-closes :
      (x : Executor V)
      → Holds x
      → (destroy_executor x).0 ≡ ok tt
      → (destroy_executor x).1.wire.handles ≡ 0
  unfolding destroy_executor reset_channel close_channel
  destroy_executor-closes x h e = ground arith

  pub answers-destroy_executor : (x : Executor V) → (destroy_executor x).1.answers ≡ x.answers
  unfolding destroy_executor reset_channel close_channel
  answers-destroy_executor x = ground arith

  destroy_executor-GivenUp :
      (queue : List (Job V)) (x x' : Executor V)
      → Holds x'
      → x'.answers ≡ x.answers
      → (destroy_executor x').0 ≡ ok tt
      → GivenUp queue x (destroy_executor x').1
  destroy_executor-GivenUp queue x x' h a e = record {
    closed = destroy_executor-closes x' h e;
    dropped = map callbacks queue;
    order =
        ap (λ t. map (λ b. b.0) t ++ map callbacks queue) (sym (answers-destroy_executor x' ∙ a));
  }

  -- A job that was answered, and then the rest.
  answered-GivenUp :
      (queue : List (Job V)) (job : Job V) (x x' x'' : Executor V)
      → answered x' ≡ answered x ++ (callbacks job ∷ [])
      → GivenUp queue x' x''
      → GivenUp (job ∷ queue) x x''
  answered-GivenUp queue job x x' x'' a g = record {
    closed = g.closed;
    dropped = g.dropped;
    order =
        sym (append_assoc (answered x) (callbacks job ∷ []) (map callbacks queue))
        ∙ ap (λ t. t ++ map callbacks queue) (sym a)
        ∙ g.order;
  }

module _ (boost : Boost) (pb : Protobuf) (fb : Variants pb) (utf8 : Bytes → Bytes) (e : Endian)
    (pool : pb.Pool) (depth : ℕ) where
  -- What `join` does with the outcome of a job.
  abbrev goes_on :
      Outcome (Unit {0})
      → Executor fb.Variant
      → Outcome (Unit {0}) × Executor fb.Variant
      → Outcome (Unit {0}) × Executor fb.Variant
  goes_on r x' next = elim (caught r) [
    | ok u ↦ next
    | throw t ↦ destroy_executor x'
    | fault ↦ (fault, x')
    | blocked ↦ (blocked, x')
    | out_of_fuel ↦ (out_of_fuel, x')
  ]

  goes_on-GivenUp :
      (job : Job fb.Variant) (rest : List (Job fb.Variant)) (x : Executor fb.Variant)
      (r : Outcome (Unit {0})) (x' : Executor fb.Variant)
      (next : Outcome (Unit {0}) × Executor fb.Variant)
      → Holds x'
      → Answered (callbacks job) x (r, x')
      → (next.0 ≡ ok tt → GivenUp rest x' next.1)
      → (goes_on r x' next).0 ≡ ok tt
      → GivenUp (job ∷ rest) x (goes_on r x' next).1
  goes_on-GivenUp job rest x (ok tt) x' next h (reply, a) ih d =
      answered-GivenUp rest job x x' next.1
        (ap (map (λ b. b.0)) a ∙ map-append (λ b. b.0) x.answers ((callbacks job, reply) ∷ []))
        (ih d)
  goes_on-GivenUp job rest x (throw thread_interrupted) x' next h (only, a) ih d =
      destroy_executor-GivenUp (job ∷ rest) x x' h a d
  goes_on-GivenUp job rest x (throw t) x' next h (only, a) ih d = cc
  goes_on-GivenUp job rest x fault x' next h a ih d = cc
  goes_on-GivenUp job rest x blocked x' next h a ih d = cc
  goes_on-GivenUp job rest x out_of_fuel x' next h a ih d = cc

  join-GivenUp :
      (queue : List (Job fb.Variant)) (x : Executor fb.Variant)
      → Holds x
      → (join boost pb fb utf8 e pool depth queue x).0 ≡ ok tt
      → GivenUp queue x (join boost pb fb utf8 e pool depth queue x).1
  unfolding join
  join-GivenUp [] x h d = destroy_executor-GivenUp [] x x h refl d
  join-GivenUp (job ∷ rest) x h d =
      let (r, x') = run_job boost pb fb utf8 e pool depth job x in
      let h' = run_job-Holds boost pb fb utf8 e pool depth job x h in
      goes_on-GivenUp job rest x r x' (join boost pb fb utf8 e pool depth rest x') h'
        (run_job-Answered boost pb fb utf8 e pool depth job x) (join-GivenUp rest x' h') d

  -- Each executor of the lines as it was given up.
  abbrev pub AllGivenUp : List (Line fb.Variant) → List (Executor fb.Variant) → Type 0
  AllGivenUp [] [] = Unit
  AllGivenUp (l ∷ ls) (x ∷ xs) = GivenUp l.queue l.executor x × AllGivenUp ls xs
  AllGivenUp _ _ = ⊥

  -- What `shutdown` makes of a joined thread, and of the communicators after it.
  abbrev pub and_the_rest :
      Outcome (Unit {0}) × Executor fb.Variant
      → Outcome (Unit {0}) × List (Executor fb.Variant)
      → Outcome (Unit {0}) × List (Executor fb.Variant)
  and_the_rest (r, x) (r', xs) = elim r [ ok u ↦ (r', x ∷ xs) | other ↦ (other, x ∷ []) ]

  and_the_rest-AllGivenUp :
      (l : Line fb.Variant) (ls : List (Line fb.Variant))
      (j : Outcome (Unit {0}) × Executor fb.Variant)
      (next : Outcome (Unit {0}) × List (Executor fb.Variant))
      → (j.0 ≡ ok tt → GivenUp l.queue l.executor j.1)
      → (next.0 ≡ ok tt → AllGivenUp ls next.1)
      → (and_the_rest j next).0 ≡ ok tt
      → AllGivenUp (l ∷ ls) (and_the_rest j next).1
  and_the_rest-AllGivenUp l ls (ok tt, x) next g gs d = (g refl, gs d)
  and_the_rest-AllGivenUp l ls (throw t, x) next g gs d = cc
  and_the_rest-AllGivenUp l ls (fault, x) next g gs d = cc
  and_the_rest-AllGivenUp l ls (blocked, x) next g gs d = cc
  and_the_rest-AllGivenUp l ls (out_of_fuel, x) next g gs d = cc

  -- When shutdown returns, the handle of every communicator is closed, and each of them has answered
  -- jobs from the front of its queue only, each once and in order; the others were dropped. It needs
  -- executors whose handle is the one of their channel.
  pub shutdown-AllGivenUp :
      (ls : List (Line fb.Variant))
      → All (λ l. Holds l.executor) ls
      → (shutdown boost pb fb utf8 e pool depth ls).0 ≡ ok tt
      → AllGivenUp ls (shutdown boost pb fb utf8 e pool depth ls).1
  unfolding shutdown
  shutdown-AllGivenUp [] h d = tt
  shutdown-AllGivenUp (l ∷ ls) (h, hs) d =
      and_the_rest-AllGivenUp l ls (join boost pb fb utf8 e pool depth l.queue l.executor)
        (shutdown boost pb fb utf8 e pool depth ls) (join-GivenUp l.queue l.executor h)
        (shutdown-AllGivenUp ls hs) d
