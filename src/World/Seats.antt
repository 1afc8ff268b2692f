-- ===== src/World/Seats.antt =====
-- The page's view of the communicators (apis.cpp, plugin.cpp).
use trezor_plugin.Prelude.{
  ℕ, suc, ◌+◌, ◌-◌, ◌≡◌, refl, ap, sym, ◌∙◌, ◌++◌, Option, none, some, List, [], ◌∷◌, bytes_eq,
  Bool-cases, Option-cases, inl, inr, map, length, arith,
}
use trezor_plugin.Config.{DeviceDescriptor, path}
use trezor_plugin.Devices.State.{Wire}
use trezor_plugin.Plugin.Communicators.{Communicator, find_communicator, communicator, put}
use trezor_plugin.Plugin.Communicators.Paths.{find_some}
use trezor_plugin.Plugin.Executor.{Job}
use trezor_plugin.Api.{enqueue_at, enqueue}
use trezor_plugin.World.{Thread, device, seat, submit_to}

module _ {T : Type 0} (d : DeviceDescriptor) (job : T) where
  -- What enqueue does with what the loop of communicator found, from place `i` on, in a list.
  abbrev enqueue_found : ℕ → List (Communicator T) → Option ℕ → List (Communicator T)
  enqueue_found i cs none =
      enqueue_at job (length cs) (cs ++ (record { device = d; queue = [] } ∷ []))
  enqueue_found i cs (some j) = enqueue_at job (j - i) cs

  enqueue_lem :
      (cs : List (Communicator T))
      → enqueue d job cs ≡ enqueue_found 0 cs (find_communicator (path d) 0 cs)
  unfolding enqueue communicator
  enqueue_lem cs = elim (Option-cases (find_communicator (path d) 0 cs)) [
    | inl e ↦ rw (e, communicator) refl
    | inr (j, e) ↦ rw (e, communicator) (ap (λ k. enqueue_at job k cs) (omega arith))
  ]

  -- The loop goes on behind a communicator of another path.
  enqueue_found_later :
      (i : ℕ) (c : Communicator T) (cs : List (Communicator T))
      → enqueue_found i (c ∷ cs) (find_communicator (path d) (i + 1) cs)
        ≡ c ∷ enqueue_found (i + 1) cs (find_communicator (path d) (i + 1) cs)
  enqueue_found_later i c cs = elim (Option-cases (find_communicator (path d) (i + 1) cs)) [
    | inl e ↦ rw e refl
    | inr (j, e) ↦
        let (k, _, at_k, _, _) = find_some (path d) (i + 1) j cs e in
        let place : j - i ≡ suc (j - (i + 1)) = omega (arith, at_k) in
        rw e (ap (λ n. enqueue_at job n (c ∷ cs)) place)
  ]

module _ {V : Type 0} (d : DeviceDescriptor) (found : Wire) (job : Job V) where
  seat-submit_to_from :
      (i : ℕ) (ts : List (Thread V))
      → map seat (submit_to d found job ts)
        ≡ enqueue_found d job i (map seat ts) (find_communicator (path d) i (map seat ts))
  unfolding submit_to find_communicator put
  seat-submit_to_from i [] = refl
  seat-submit_to_from i (t ∷ ts) = elim (Bool-cases (bytes_eq (path (device t)) (path d))) [
    | inl e ↦ rw e (ap (λ n. enqueue_at job n (seat t ∷ map seat ts)) (here i))
    | inr e ↦ rw e (
        ap (λ cs. seat t ∷ cs) (seat-submit_to_from (i + 1) ts)
        ∙ sym (enqueue_found_later d job i (seat t) (map seat ts)))
  ]
    where
      here : (n : ℕ) → 0 ≡ n - n
      here n = omega arith

  -- The threads refine the queues that the page sees: passing a job to the threads, seen as devices
  -- with their queues, is what PluginAPI::call and close do with the communicators.
  pub seat-submit_to :
      (ts : List (Thread V)) → map seat (submit_to d found job ts) ≡ enqueue d job (map seat ts)
  seat-submit_to ts = seat-submit_to_from 0 ts ∙ sym (enqueue_lem d job (map seat ts))
