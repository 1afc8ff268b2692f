-- ===== src/Plugin/Lifecycle.antt =====
-- The lives of communicators, executors and the plugin object (plugin.cpp, plugin.h).
pub mod Shutdown
use trezor_plugin.Prelude.{ℕ, Bool, true, false, none, List, [], ◌∷◌, Bytes}
use trezor_plugin.Exceptions.{Outcome, ok, throw, fault, blocked, out_of_fuel}
use trezor_plugin.Libraries.Boost.{Boost}
use trezor_plugin.Libraries.Protobuf.{Protobuf}
use trezor_plugin.Libraries.FireBreath.{Variants}
use trezor_plugin.Config.{DeviceDescriptor, default_configuration}
use trezor_plugin.Devices.State.{Wire}
use trezor_plugin.Devices.Channel.{Endian}
use trezor_plugin.Plugin.Configure.{Setup}
use trezor_plugin.Plugin.Communicators.{put}
use trezor_plugin.Plugin.Executor.{
  Executor, Job, close_job, open_job, call_job, Exec, ◌>>◌, pure, reset_channel, run_job,
}
use trezor_plugin.Plugin.Worker.{Line, caught}

-- DeviceJobExecutor's constructor: no buffer, no channel. `wire` is the device as it is found.
abbrev pub new_executor : {V : Type 0} → DeviceDescriptor → Wire → Executor V
new_executor device wire = record {
  device = device;
  buffer = none;
  channel = false;
  wire = wire;
  answers = [];
}

-- What the destruction of an executor does: `_channel` closes its handle, then `_buffer` goes.
unfoldable pub destroy_executor : {V : Type 0} → Exec V (Unit {0})
unfolding reset_channel
destroy_executor = reset_channel >> pure tt

-- DeviceCommunicator's constructor, which starts the thread.
abbrev pub new_communicator : {V : Type 0} → DeviceDescriptor → Wire → Line V
new_communicator device wire = record { queue = []; executor = new_executor device wire }

-- DeviceCommunicator::close, open and call.
unfoldable pub enqueue_close : {V : Type 0} → ℕ → Line V → Line V
unfolding put
enqueue_close c l = record l { queue = put (close_job c) l.queue }

unfoldable pub enqueue_open : {V : Type 0} → ℕ → Line V → Line V
unfolding put
enqueue_open c l = record l { queue = put (open_job c) l.queue }

unfoldable pub enqueue_call :
    {V : Type 0}
    → (use_timeout : Bool) → (type_name : Bytes) → List (Bytes × V)
    → ℕ
    → Line V
    → Line V
unfolding put
enqueue_call use_timeout type_name message_map c l = record l {
  queue = put (call_job use_timeout type_name message_map c) l.queue;
}

-- BitcoinTrezorPlugin, and its constructor, in the program's descriptor pool.
pub record PluginObject (pb : Protobuf) (V : Type 0) : Type 0 where
  pub setup : Setup pb
  pub communicators : List (Line V)

abbrev pub new_plugin : {V : Type 0} (pb : Protobuf) → pb.Pool → PluginObject pb V
new_plugin pb pool = record {
  setup = record { configuration = default_configuration pb; pool = pool };
  communicators = [];
}

module _ (boost : Boost) (pb : Protobuf) (fb : Variants pb) (utf8 : Bytes → Bytes) (e : Endian)
    (pool : pb.Pool) (depth : ℕ) where
  -- ~DeviceCommunicator: the thread was interrupted, and is joined. It goes on with the jobs of its
  -- queue until it comes to an interruption point, which the wait for an empty queue is one of;
  -- then its executor is destroyed.
  unfoldable pub join : List (Job fb.Variant) → Exec fb.Variant (Unit {0})
  unfolding destroy_executor
  join [] x = destroy_executor x
  join (job ∷ rest) x =
      let (r, x') = run_job boost pb fb utf8 e pool depth job x in
      let next = join rest x' in
      elim (caught r) [
        | ok u ↦ next
        | throw t ↦ destroy_executor x'
        | fault ↦ (fault, x')
        | blocked ↦ (blocked, x')
        | out_of_fuel ↦ (out_of_fuel, x')
      ]

  -- BitcoinTrezorPlugin::shutdown: what is left of the executors.
  unfoldable pub shutdown : List (Line fb.Variant) → Outcome (Unit {0}) × List (Executor fb.Variant)
  unfolding join
  shutdown [] = (ok tt, [])
  shutdown (l ∷ ls) =
      let (r, x) = join l.queue l.executor in
      let (r', xs) = shutdown ls in elim r [ ok u ↦ (r', x ∷ xs) | other ↦ (other, x ∷ []) ]
