-- ===== src/Api/Jobs.antt =====
-- PluginAPI::call and the queues of the communicators (apis.cpp, plugin.h).
use trezor_plugin.Prelude.{
  ℕ, zero, suc, Bool, ◌≡◌, ◌≢◌, refl, ap, sym, ◌∙◌, some, List, [], ◌∷◌, ◌++◌, Bytes, get_elem?,
  arith,
}
use mathlib.Core.Option.{some-injective}
use trezor_plugin.Config.{DeviceDescriptor, path}
use trezor_plugin.Plugin.Communicators.{Communicator, communicator, put}
use trezor_plugin.Plugin.Communicators.Paths.{PathsDistinct, Added, communicator-Serves}
use trezor_plugin.Plugin.Executor.{Job, call_job}
use trezor_plugin.Api.{Desk, enqueue_at, enqueue, submit, api_call}

module _ {T : Type 0} where
  enqueue_at_here :
      (job : T) (i : ℕ) (cs : List (Communicator T)) (c : Communicator T)
      → get_elem? cs i ≡ some c
      → get_elem? (enqueue_at job i cs) i ≡ some (record c { queue = put job c.queue })
  enqueue_at_here job i [] c e = cc
  enqueue_at_here job zero (d ∷ cs) c e =
      ap some
        (ap (λ (t : Communicator T). record t { queue = put job t.queue }) (some-injective d c e))
  enqueue_at_here job (suc i) (d ∷ cs) c e = enqueue_at_here job i cs c e

  enqueue_at_elsewhere :
      (job : T) (i j : ℕ) (cs : List (Communicator T))
      → j ≢ i
      → get_elem? (enqueue_at job i cs) j ≡ get_elem? cs j
  enqueue_at_elsewhere job i j [] ne = refl
  enqueue_at_elsewhere job zero zero (d ∷ cs) ne = absurd (ne refl)
  enqueue_at_elsewhere job zero (suc j) (d ∷ cs) ne = refl
  enqueue_at_elsewhere job (suc i) zero (d ∷ cs) ne = refl
  enqueue_at_elsewhere job (suc i) (suc j) (d ∷ cs) ne =
      enqueue_at_elsewhere job i j cs (λ e. ne (ap suc e))

  -- One communicator, of the device's path, has the job at the end of its queue; the others are
  -- those of the list before. A new one, with no other job, is added exactly when none of the list
  -- has the device's path.
  pub record Enqueued (device : DeviceDescriptor) (job : T) (before after : List (Communicator T))
      : Type 0 where
    pub place : ℕ
    pub one : Communicator T
    pub here : get_elem? after place ≡ some (record one { queue = put job one.queue })
    pub same_path : path one.device ≡ path device
    pub new : List (Communicator T)
    pub added : Added device before new
    pub source : get_elem? (before ++ new) place ≡ some one
    pub others : (j : ℕ) → j ≢ place → get_elem? after j ≡ get_elem? (before ++ new) j

  pub enqueue-Enqueued :
      (device : DeviceDescriptor) (job : T) (cs : List (Communicator T))
      → PathsDistinct cs
      → Enqueued device job cs (enqueue device job cs)
  unfolding enqueue
  enqueue-Enqueued device job cs distinct =
      let (i, cs') = communicator device cs in
      let (s, _) = communicator-Serves device cs distinct in
      record {
        place = i;
        one = s.one;
        here = enqueue_at_here job i cs' s.one s.found;
        same_path = s.same_path;
        new = s.new;
        added = s.added;
        source = ap (λ t. get_elem? t i) (sym s.kept) ∙ s.found;
        others = λ j ne. enqueue_at_elsewhere job i j cs' ne ∙ ap (λ t. get_elem? t j) s.kept;
      }

-- A call of the page puts its job at the end of the queue of the communicator of the device's path,
-- and of no other, when the communicators have distinct paths: of the one that is there, or of a new
-- one, which is created only when none has the path. Nobody is answered yet.
pub api_call-Enqueued :
    {V : Type 0} (device : DeviceDescriptor) (use_timeout : Bool) (type_name : Bytes)
    (map : List (Bytes × V)) (c : ℕ) (d : Desk V) (cs : List (Communicator (Job V)))
    → d.communicators ≡ some cs
    → PathsDistinct cs
    → (after : List (Communicator (Job V))) × ((api_call device use_timeout type_name map c
          d).communicators
        ≡ some after)
      × Enqueued device (call_job use_timeout type_name map c) cs after
      × ((api_call device use_timeout type_name map c d).answers ≡ d.answers)
unfolding api_call submit
api_call-Enqueued device use_timeout type_name map c d cs there distinct =
    let job = call_job use_timeout type_name map c in
    (enqueue device job cs, ground arith, enqueue-Enqueued device job cs distinct, ground arith)
