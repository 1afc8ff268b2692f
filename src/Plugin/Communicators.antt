-- ===== src/Plugin/Communicators.antt =====
-- BitcoinTrezorPlugin::communicator, and the job queue of a communicator.
pub mod Paths
use trezor_plugin.Prelude.{
  ℕ, ◌+◌, Option, none, some, List, [], ◌∷◌, ◌++◌, Bytes, bytes_eq, if◌then◌else◌, length,
}
use trezor_plugin.Config.{DeviceDescriptor, path}

-- JobQueue: the std::queue behind the mutex, the next item first. A call holds the mutex to its end,
-- so it is one step.
abbrev pub JobQueue : Type 0 → Type 0
JobQueue T = List T

-- JobQueue::put
unfoldable pub put : {T : Type 0} → T → JobQueue T → JobQueue T
put item queue = queue ++ (item ∷ [])

-- JobQueue::take: with an empty queue the thread waits.
unfoldable pub take_job : {T : Type 0} → JobQueue T → Option (T × JobQueue T)
take_job [] = none
take_job (item ∷ queue) = some (item, queue)

-- A communicator: its device, and the queue of its thread. Communicators are never moved, so the
-- place in the vector stands for the pointer.
pub record Communicator (Job : Type 0) : Type 0 where
  pub device : DeviceDescriptor
  pub queue : JobQueue Job

-- The loop over the vector, from place `i` on.
unfoldable pub find_communicator : {Job : Type 0} → Bytes → ℕ → List (Communicator Job) → Option ℕ
find_communicator p i [] = none
find_communicator p i (c ∷ cs) =
    if bytes_eq (path (c.device)) p then some i else find_communicator p (i + 1) cs

-- communicator(const DeviceDescriptor &): the place of the device's communicator, made if none is
-- there.
unfoldable pub communicator :
    {Job : Type 0} → DeviceDescriptor → List (Communicator Job) → ℕ × List (Communicator Job)
unfolding find_communicator
communicator desc cs = elim (find_communicator (path desc) 0 cs) [
  | some i ↦ (i, cs)
  | none ↦ (length cs, cs ++ (record { device = desc; queue = [] } ∷ []))
]
