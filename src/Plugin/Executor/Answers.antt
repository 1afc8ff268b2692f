-- ===== src/Plugin/Executor/Answers.antt =====
-- The answers of DeviceJobExecutor (plugin.cpp).
use trezor_plugin.Prelude.{ℕ, ◌≡◌, refl, ap, ◌++◌, Bool, arith, List, [], ◌∷◌, Bytes}
use trezor_plugin.Exceptions.{Outcome, ok, throw, fault, blocked, out_of_fuel}
use trezor_plugin.Exceptions.{thread_interrupted, what}
use trezor_plugin.Libraries.Boost.{Boost}
use trezor_plugin.Libraries.Protobuf.{Protobuf}
use trezor_plugin.Libraries.FireBreath.{Variants}
use trezor_plugin.Devices.Channel.{Endian}
use trezor_plugin.Plugin.Executor.{
  Reply, success, error, Executor, Job, close_job, open_job, call_job, callbacks, Exec, ◌>>◌, pure,
  report, guarded, reset_channel, ensure_channel, call, run_job,
}

-- What a job has answered, by how it ended: a normal end invoked its callbacks once, an exception
-- is an interruption of the thread, and then, as on any other end, nobody was called.
abbrev pub Answered : {V : Type 0} → ℕ → Executor V → Outcome (Unit {0}) × Executor V → Type 0
Answered c x (ok u, x') = (reply : Reply _) × (x'.answers ≡ x.answers ++ ((c, reply) ∷ []))
Answered c x (throw e, x') = (e ≡ thread_interrupted) × (x'.answers ≡ x.answers)
Answered c x (fault, x') = x'.answers ≡ x.answers
Answered c x (blocked, x') = x'.answers ≡ x.answers
Answered c x (out_of_fuel, x') = x'.answers ≡ x.answers

module _ {V : Type 0} where
  report-Answered :
      (boost : Boost) (c : ℕ) (r : Outcome (List V)) (x x' : Executor V)
      → x'.answers ≡ x.answers
      → Answered c x (report boost c r x')
  unfolding report
  report-Answered boost c (ok args) x x' h =
      (success args, ap (λ t. t ++ ((c, success args) ∷ [])) h)
  report-Answered boost c (throw thread_interrupted) x x' h = (refl, h)
  report-Answered boost c (throw e) x x' h = (
    error (what boost.lexical_cast e),
    ap (λ t. t ++ ((c, error (what boost.lexical_cast e)) ∷ [])) h,
  )
  report-Answered boost c fault x x' h = h
  report-Answered boost c blocked x x' h = h
  report-Answered boost c out_of_fuel x x' h = h

  guarded-Answered :
      (boost : Boost) (c : ℕ) (body : Exec V (List V)) (x : Executor V)
      → (body x).1.answers ≡ x.answers
      → Answered c x (guarded boost c body x)
  unfolding guarded
  guarded-Answered boost c body x h = report-Answered boost c (body x).0 x (body x).1 h

  answers-reset_channel : (x : Executor V) → (reset_channel x).1.answers ≡ x.answers
  unfolding reset_channel
  answers-reset_channel x = ground arith

  answers-ensure_channel : (x : Executor V) → (ensure_channel x).1.answers ≡ x.answers
  unfolding ensure_channel
  answers-ensure_channel x = ground arith

module _ (boost : Boost) (pb : Protobuf) (fb : Variants pb) (utf8 : Bytes → Bytes) (e : Endian)
    (pool : pb.Pool) (depth : ℕ) where
  answers-call :
      (use_timeout : Bool) (type_name : Bytes) (map : List (Bytes × fb.Variant))
      (x : Executor fb.Variant)
      → (call boost pb fb utf8 e pool depth use_timeout type_name map x).1.answers ≡ x.answers
  unfolding call
  answers-call use_timeout type_name map x = ground arith

  -- A job that comes to its end has called its own callbacks exactly once, with "success" or with
  -- "error", whatever was thrown inside it; only an interruption of the thread leaves the job with
  -- an exception, and then nobody was called.
  pub run_job-Answered :
      (job : Job fb.Variant) (x : Executor fb.Variant)
      → Answered (callbacks job) x (run_job boost pb fb utf8 e pool depth job x)
  unfolding run_job
  run_job-Answered (close_job c) x =
      guarded-Answered boost c reset_channel x (answers-reset_channel x)
  run_job-Answered (open_job c) x =
      guarded-Answered boost c (ensure_channel >> pure []) x
        (ground (arith, answers-ensure_channel x))
  run_job-Answered (call_job use_timeout type_name map c) x =
      let body = call boost pb fb utf8 e pool depth use_timeout type_name map in
      guarded-Answered boost c (ensure_channel >> body) x (
        ground (
          arith,
          answers-ensure_channel x,
          answers-call use_timeout type_name map (ensure_channel x).1,
        ))
