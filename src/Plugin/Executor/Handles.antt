-- ===== src/Plugin/Executor/Handles.antt =====
-- The device handle of DeviceJobExecutor (plugin.cpp).
use trezor_plugin.Prelude.{ℕ, ◌≡◌, refl, ap, ◌∙◌, Bool, arith, List, [], ◌∷◌, Bytes, if◌then◌else◌}
use trezor_plugin.Exceptions.{Outcome, ok, throw, fault, blocked, out_of_fuel, thread_interrupted}
use trezor_plugin.Libraries.Boost.{Boost}
use trezor_plugin.Libraries.Protobuf.{Protobuf, string}
use trezor_plugin.Libraries.FireBreath.{Variants}
use trezor_plugin.Config.{value_or}
use trezor_plugin.Messages.Names.{create_message}
use trezor_plugin.Messages.Serialize.{message_to_map}
use trezor_plugin.Messages.Parse.{message_from_map}
use trezor_plugin.Devices.State.{Io, Action, new_buffer}
use trezor_plugin.Devices.Channel.{Endian, read_message, write_message, open_channel, close_channel}
use trezor_plugin.Devices.Channel.Fixed.{fixed, fixed-read_message, fixed-write_message}
use trezor_plugin.Plugin.Executor.{
  Executor, Exec, and_then, Job, close_job, open_job, call_job, on_channel, lift, pure, ◌>>◌, ◌>>=◌,
  report, guarded, reset_channel, ensure_channel, call, run_job,
}

-- An open channel has its buffer and the one handle of the executor; without a channel there is
-- no handle.
abbrev pub Holds : {V : Type 0} → Executor V → Type 0
Holds x = x.wire.handles ≡ (if x.channel then 1 else 0)

-- From an executor to what a job makes of it: the device and the mutex stay, and so does `Holds`.
pub record Steady {V : Type 0} (x x' : Executor V) : Type 0 where
  pub device : x'.device ≡ x.device
  pub locked : x'.wire.locked ≡ x.wire.locked
  pub holds : Holds x → Holds x'

abbrev pub Keeps : {V A : Type 0} → Exec V A → Type 0
Keeps m = (x : Executor _) → Steady x (m x).1

module _ {V : Type 0} where
  same : (x : Executor V) → Steady x x
  same x = record { device = refl; locked = refl; holds = λ h. h }

  and_so : {x y z : Executor V} → Steady x y → Steady y z → Steady x z
  and_so s t = record {
    device = t.device ∙ s.device;
    locked = t.locked ∙ s.locked;
    holds = λ h. t.holds (s.holds h);
  }

  Keeps-and_then :
      {A B : Type 0} (k : A → Exec V B)
      → ((a : A) → Keeps (k a))
      → (r : Outcome A) → Keeps (and_then k r)
  Keeps-and_then k h (ok a) x = h a x
  Keeps-and_then k h (throw e) x = same x
  Keeps-and_then k h fault x = same x
  Keeps-and_then k h blocked x = same x
  Keeps-and_then k h out_of_fuel x = same x

  Keeps-bind :
      {A B : Type 0} (m : Exec V A) (k : A → Exec V B)
      → Keeps m
      → ((a : A) → Keeps (k a))
      → Keeps (m >>= k)
  Keeps-bind m k g h x = and_so (g x) (Keeps-and_then k h (m x).0 (m x).1)

  Keeps-report : (boost : Boost) (c : ℕ) (r : Outcome (List V)) → Keeps (report boost c r)
  unfolding report
  Keeps-report boost c (ok args) x = record { device = refl; locked = refl; holds = λ h. h }
  Keeps-report boost c (throw thread_interrupted) x = same x
  Keeps-report boost c (throw e) x = record { device = refl; locked = refl; holds = λ h. h }
  Keeps-report boost c fault x = same x
  Keeps-report boost c blocked x = same x
  Keeps-report boost c out_of_fuel x = same x

  Keeps-guarded :
      (boost : Boost) (c : ℕ) (m : Exec V (List V)) → Keeps m → Keeps (guarded boost c m)
  unfolding guarded
  Keeps-guarded boost c m h x = and_so (h x) (Keeps-report boost c (m x).0 (m x).1)

  Keeps-on_channel :
      {A : Type 0} (m : Action A)
      → ((io : Io) → fixed (m io).1.wire ≡ fixed io.wire)
      → Keeps {V = V} (on_channel m)
  unfolding on_channel
  Keeps-on_channel m h x =
      let kept = h (record { buffer = value_or new_buffer x.buffer; wire = x.wire }) in
      record {
        device = refl;
        locked = ap (λ (t : ℕ × Bool). t.1) kept;
        holds = λ p. ap (λ (t : ℕ × Bool). t.0) kept ∙ p;
      }

  pub Keeps-reset_channel : Keeps {V = V} reset_channel
  unfolding reset_channel close_channel
  Keeps-reset_channel x = record {
    device = ground arith;
    locked = ground arith;
    holds = λ h. ground arith;
  }

  Keeps-ensure_channel : Keeps {V = V} ensure_channel
  unfolding ensure_channel open_channel
  Keeps-ensure_channel x = record {
    device = ground arith;
    locked = ground arith;
    holds = λ h. ground arith;
  }

module _ (boost : Boost) (pb : Protobuf) (fb : Variants pb) (utf8 : Bytes → Bytes) (e : Endian)
    (pool : pb.Pool) (depth : ℕ) where
  Keeps-call :
      (use_timeout : Bool) (type_name : Bytes) (map : List (Bytes × fb.Variant))
      → Keeps (call boost pb fb utf8 e pool depth use_timeout type_name map)
  unfolding call
  Keeps-call use_timeout type_name map =
      let V = fb.Variant in
      let answer : pb.Message → Exec V (List V) = λ m.
        lift (message_to_map boost pb fb depth m) >>= λ map'.
        pure (fb.of string (pb.type_name m) ∷ fb.of_map map' ∷ []) in
      let send : pb.Message → Exec V (Unit {0}) =
        λ m. on_channel (write_message utf8 e pb pool m) in
      let receive : Exec V pb.Message = on_channel (read_message utf8 e use_timeout pb pool) in
      let exchange : pb.Message → Exec V (List V) = λ m. send m >> (receive >>= answer) in
      let request : pb.Message → Exec V (List V) =
        λ m. lift (message_from_map boost pb fb depth m map) >>= exchange in
      Keeps-bind (lift (create_message pb pool type_name)) request same λ prototype.
        Keeps-bind (lift (message_from_map boost pb fb depth prototype map)) exchange same λ inmsg.
          Keeps-bind (send inmsg) (λ _. receive >>= answer)
            (Keeps-on_channel (write_message utf8 e pb pool inmsg)
              (fixed-write_message utf8 e pb pool inmsg))
            λ _.
              Keeps-bind receive answer
                (Keeps-on_channel (read_message utf8 e use_timeout pb pool)
                  (fixed-read_message utf8 e pb pool use_timeout))
                λ m. Keeps-bind (lift (message_to_map boost pb fb depth m)) _ same (λ map'. same)

  pub run_job-Keeps : (job : Job fb.Variant) → Keeps (run_job boost pb fb utf8 e pool depth job)
  unfolding run_job
  run_job-Keeps (close_job c) = Keeps-guarded boost c reset_channel Keeps-reset_channel
  run_job-Keeps (open_job c) =
      Keeps-guarded boost c (ensure_channel >> pure [])
        (Keeps-bind ensure_channel (λ _. pure []) Keeps-ensure_channel (λ _. same))
  run_job-Keeps (call_job use_timeout type_name map c) =
      let body = call boost pb fb utf8 e pool depth use_timeout type_name map in
      Keeps-guarded boost c (ensure_channel >> body) (
        Keeps-bind ensure_channel (λ _. body) Keeps-ensure_channel
          (λ _. Keeps-call use_timeout type_name map))

  -- An open channel is the one handle that the executor has, and without a channel it has none:
  -- every job keeps this, however it ends, so no job leaks a handle.
  pub run_job-Holds :
      (job : Job fb.Variant) (x : Executor fb.Variant)
      → Holds x
      → Holds (run_job boost pb fb utf8 e pool depth job x).1
  run_job-Holds job x h = (run_job-Keeps job x).holds h
