-- ===== src/World.antt =====
-- The whole plugin at work: the page's calls (apis.cpp), the communicators and their threads
-- (plugin.cpp, plugin.h), and hidapi's mutex, in any order of their steps. A job is one step: what
-- the threads do to each other inside a job is only hidapi's mutex.
pub mod Threads
pub mod Invariant
pub mod Reached
pub mod Gate
pub mod Ending
pub mod Progress
pub mod Seats
use trezor_plugin.Prelude.{
  ℕ, zero, suc, ◌≡◌, Bool, true, false, Option, none, some, List, [], ◌∷◌, ◌++◌, Bytes, bytes_eq,
  get_elem?, if◌then◌else◌, map,
}
use trezor_plugin.Exceptions.{Outcome, ok, throw, fault, blocked, out_of_fuel}
use trezor_plugin.Libraries.Boost.{Boost}
use trezor_plugin.Libraries.Protobuf.{Protobuf}
use trezor_plugin.Libraries.FireBreath.{Variants}
use trezor_plugin.Libraries.OpenSsl.{OpenSsl}
use trezor_plugin.Utils.Signature.{Heap}
use trezor_plugin.Config.{DeviceDescriptor, Configuration, path, value_or}
use trezor_plugin.Devices.State.{Wire}
use trezor_plugin.Devices.Channel.{Endian}
use trezor_plugin.Plugin.Configure.{Setup}
use trezor_plugin.Plugin.Enumerate.{HidDeviceInfo, Hidapi}
use trezor_plugin.Plugin.Communicators.{Communicator, put}
use trezor_plugin.Plugin.Executor.{Executor, Job, callbacks}
use trezor_plugin.Plugin.Worker.{Line, consume}
use trezor_plugin.Plugin.Lifecycle.{PluginObject, new_communicator}
use trezor_plugin.Plugin.Factory.{create_plugin}
use trezor_plugin.Api.{api_configure, api_devices}

-- A communicator with its thread. `stuck` is the job, by its callbacks, in which the thread ended or
-- waits for ever; `none` while it goes its rounds.
pub record Thread (V : Type 0) : Type 0 where
  pub line : Line V
  pub stuck : Option ℕ

-- The plugin object, the memory of OpenSSL, hidapi, the devices that pages were handed, each with the
-- place that the page was at, and the communicators in their order.
pub record World (pb : Protobuf) (V : Type 0) : Type 0 where
  pub setup : Setup pb
  pub heap : Heap
  pub hidapi : Hidapi
  pub listed : List (Bytes × DeviceDescriptor)
  pub threads : List (Thread V)

-- The plugin as it is created: it knows no device and lets no site in.
abbrev pub start : {V : Type 0} (pb : Protobuf) → pb.Pool → Heap → World pb V
start pb pool heap =
    let plugin : PluginObject pb _ = create_plugin pb pool [] in
    record {
      setup = plugin.setup;
      heap = heap;
      hidapi = record { locked = false; unfreed = 0 };
      listed = [];
      threads = map (λ l. record { line = l; stuck = none }) plugin.communicators;
    }

-- DeviceCommunicator::device
abbrev pub device : {V : Type 0} → Thread V → DeviceDescriptor
device t = t.line.executor.device

-- A thread as the page sees it.
abbrev pub seat : {V : Type 0} → Thread V → Communicator (Job V)
seat t = record { device = device t; queue = t.line.queue }

-- JobQueue::put on a communicator's queue.
abbrev pub put_job : {V : Type 0} → Job V → Thread V → Thread V
put_job job t = record t { line = record t.line { queue = put job t.line.queue } }

-- `communicator(device)->…`: the job goes to the first communicator of the device's path, or to a
-- new one, which finds the device as `found`.
unfoldable pub submit_to :
    {V : Type 0} → DeviceDescriptor → Wire → Job V → List (Thread V) → List (Thread V)
submit_to d found job [] =
    put_job job (record { line = new_communicator d found; stuck = none }) ∷ []
submit_to d found job (t ∷ ts) =
    let rest = submit_to d found job ts in
    if bytes_eq (path (device t)) (path d) then put_job job t ∷ ts else t ∷ rest

-- hidapi's mutex, which every device's calls of hidapi take.
abbrev pub relock : {V : Type 0} → Bool → Thread V → Thread V
relock b t = record t {
  line = record t.line {
    executor = record t.line.executor { wire = record t.line.executor.wire { locked = b } };
  };
}

abbrev pub listed_by : Outcome (List DeviceDescriptor) → List DeviceDescriptor
listed_by (ok ds) = ds
listed_by (throw e) = []
listed_by fault = []
listed_by blocked = []
listed_by out_of_fuel = []

-- A job was done, as `r`, or the thread ended or waits in it.
abbrev pub stuck_in : ℕ → Outcome (Unit {0}) → Option ℕ
stuck_in c (ok u) = none
stuck_in c (throw e) = some c
stuck_in c fault = some c
stuck_in c blocked = some c
stuck_in c out_of_fuel = some c

module _ (boost : Boost) (pb : Protobuf) (fb : Variants pb) (utf8 : Bytes → Bytes) (e : Endian)
    (depth : ℕ) where
  -- A thread's next round: with an empty queue it waits.
  abbrev pub turn_with : pb.Pool → Line fb.Variant → List (Job fb.Variant) → Thread fb.Variant
  turn_with pool l [] = record { line = l; stuck = none }
  turn_with pool l (job ∷ rest) =
      let (r, l') = consume boost pb fb utf8 e pool depth l in
      record { line = l'; stuck = stuck_in (callbacks job) r }

  unfoldable pub turn : pb.Pool → Thread fb.Variant → Thread fb.Variant
  turn pool t = elim t.stuck [ none ↦ turn_with pool t.line t.line.queue | some c ↦ t ]

  unfoldable pub turn_at : pb.Pool → ℕ → List (Thread fb.Variant) → List (Thread fb.Variant)
  unfolding turn
  turn_at pool i [] = []
  turn_at pool zero (t ∷ ts) = turn pool t ∷ ts
  turn_at pool (suc i) (t ∷ ts) = t ∷ turn_at pool i ts

module _ (boost : Boost) (pb : Protobuf) (fb : Variants pb) (utf8 : Bytes → Bytes) (e : Endian)
    (depth : ℕ) (ssl : OpenSsl) (parse : Bytes → Configuration pb) where
  abbrev V : Type 0
  V = fb.Variant

  -- A page at `location` calls configure at the time `now`.
  unfoldable pub page_configure : (location : Bytes) (now : ℕ) → Bytes → World pb V → World pb V
  page_configure location now text w =
      let (r, heap, plugin) =
        api_configure boost pb ssl parse now location text w.heap (some w.setup) in
      record w { setup = value_or w.setup plugin; heap = heap }

  -- A page at `location` calls devices, when hidapi finds those in `connected`.
  unfoldable pub page_devices : (location : Bytes) → List HidDeviceInfo → World pb V → World pb V
  page_devices location connected w =
      let (r, hidapi) = api_devices boost pb location (some w.setup) connected w.hidapi in
      record w {
        hidapi = hidapi;
        listed = w.listed ++ map (λ d. (location, d)) (listed_by r);
        threads = map (relock hidapi.locked) w.threads;
      }

  -- The page passes an object to call or close, which take the descriptor in it for a device's.
  unfoldable pub page_submit : DeviceDescriptor → Wire → Job V → World pb V → World pb V
  unfolding submit_to
  page_submit d found job w = record w {
    threads = submit_to d (record found { locked = w.hidapi.locked; handles = 0 }) job w.threads;
  }

  -- The thread of the communicator at place `i` goes a round.
  unfoldable pub thread_turn : ℕ → World pb V → World pb V
  unfolding turn_at
  thread_turn i w = record w { threads = turn_at boost pb fb utf8 e depth w.setup.pool i w.threads }

  -- The worlds that the plugin comes to, with the jobs that the page passed: the device's path and
  -- the callbacks. The page may be at another place at each call. What it passes to call and close is
  -- cast to a DeviceAPI unchecked, so the descriptor is any, whatever devices handed out.
  pub data Reach (w0 : World pb V) : List (Bytes × ℕ) → World pb V → Type 0 where
    begun : Reach w0 [] w0
    configured :
        {es : List (Bytes × ℕ)} {w : World pb V}
        → Reach w0 es w
        → (location : Bytes) → (now : ℕ) → (text : Bytes)
        → Reach w0 es (page_configure location now text w)
    enumerated :
        {es : List (Bytes × ℕ)} {w : World pb V}
        → Reach w0 es w
        → (location : Bytes) → (connected : List HidDeviceInfo)
        → Reach w0 es (page_devices location connected w)
    submitted :
        {es : List (Bytes × ℕ)} {w : World pb V}
        → Reach w0 es w
        → (d : DeviceDescriptor) → (found : Wire) → (job : Job V)
        → Reach w0 (es ++ ((path d, callbacks job) ∷ [])) (page_submit d found job w)
    turned :
        {es : List (Bytes × ℕ)} {w : World pb V}
        → Reach w0 es w
        → (i : ℕ) → Reach w0 es (thread_turn i w)
