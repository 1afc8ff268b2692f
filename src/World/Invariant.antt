-- ===== src/World/Invariant.antt =====
-- The invariant of the plugin, and that a job passed by the page keeps it (apis.cpp, plugin.cpp).
use trezor_plugin.Prelude.{
  ℕ, ◌≡◌, ◌≢◌, refl, ap, sym, ◌∙◌, ◌++◌, Bool, true, false, none, List, [], ◌∷◌, Bytes, bytes_eq,
  bytes_eq→eq, bytes_eq_refl, Bool-cases, inl, inr, map, All,
}
use trezor_plugin.Config.{DeviceDescriptor, path}
use trezor_plugin.Devices.State.{Wire}
use trezor_plugin.Plugin.Executor.{Job, callbacks}
use trezor_plugin.Plugin.Lifecycle.{new_communicator}
use trezor_plugin.World.{Thread, device, put_job, submit_to}
use trezor_plugin.World.Threads.{
  sent_to, sent_to_here, sent_to_elsewhere, Served, Served-later, Served-put_job,
}

-- No device of the list has this path.
abbrev pub NoneAt : Bytes → List DeviceDescriptor → Type 0
NoneAt p = All (λ d. path d ≢ p)

abbrev pub DistinctPaths : List DeviceDescriptor → Type 0
DistinctPaths [] = Unit
DistinctPaths (d ∷ ds) = NoneAt (path d) ds × DistinctPaths ds

-- No thread of the list has this path; no two have the same.
abbrev pub NoThread : {V : Type 0} → Bytes → List (Thread V) → Type 0
NoThread p ts = NoneAt p (map device ts)

abbrev pub DevicesDistinct : {V : Type 0} → List (Thread V) → Type 0
DevicesDistinct ts = DistinctPaths (map device ts)

-- After the jobs `es`: each device has one communicator, a path without one was passed no job, and
-- each thread has accounted for the jobs of its path.
pub record Sound {V : Type 0} (es : List (Bytes × ℕ)) (lk : Bool) (ts : List (Thread V))
    : Type 0 where
  pub distinct : DevicesDistinct ts
  pub silent : (p : Bytes) → NoThread p ts → sent_to p es ≡ []
  pub served : All (Served es lk) ts

module _ {V : Type 0} (d : DeviceDescriptor) (found : Wire) (job : Job V) where
  -- Another path finds no thread after the submission, only if it found none before.
  NoThread-submit_to :
      (p : Bytes) (ts : List (Thread V))
      → NoThread p (submit_to d found job ts)
      → NoThread p ts × (path d ≢ p)
  unfolding submit_to
  NoThread-submit_to p [] (ne, h) = (tt, ne)
  NoThread-submit_to p (t ∷ ts) h = elim (Bool-cases (bytes_eq (path (device t)) (path d))) [
    | inl e ↦
        let (ne, hs) : NoThread p (put_job job t ∷ ts) = rw e at h in
        ((ne, hs), λ same. ne (bytes_eq→eq _ _ e ∙ same))
    | inr e ↦
        let (ne, hs) : NoThread p (t ∷ submit_to d found job ts) = rw e at h in
        let (rest, other) = NoThread-submit_to p ts hs in ((ne, rest), other)
  ]

  submit_to-NoThread :
      (p : Bytes) (ts : List (Thread V))
      → NoThread p ts
      → path d ≢ p
      → NoThread p (submit_to d found job ts)
  unfolding submit_to
  submit_to-NoThread p [] h ne = (ne, tt)
  submit_to-NoThread p (t ∷ ts) (h, hs) ne =
      elim (Bool-cases (bytes_eq (path (device t)) (path d))) [
        | inl e ↦ rw e (h, hs)
        | inr e ↦ rw e (h, submit_to-NoThread p ts hs ne)
      ]

  differ : (t : Thread V) → bytes_eq (path (device t)) (path d) ≡ false → path d ≢ path (device t)
  differ t e same =
      let clash : true ≡ false =
        sym (bytes_eq_refl (path d)) ∙ ap (λ p. bytes_eq p (path d)) same ∙ e in
      cc

  submit_to-DevicesDistinct :
      (ts : List (Thread V)) → DevicesDistinct ts → DevicesDistinct (submit_to d found job ts)
  unfolding submit_to
  submit_to-DevicesDistinct [] h = (tt, tt)
  submit_to-DevicesDistinct (t ∷ ts) (h, hs) =
      elim (Bool-cases (bytes_eq (path (device t)) (path d))) [
        | inl e ↦ rw e (h, hs)
        | inr e ↦ rw e (
          submit_to-NoThread (path (device t)) ts h (differ t e),
          submit_to-DevicesDistinct ts hs,
        )
      ]

  -- The threads of other paths owe nothing for the job.
  others-Served :
      (es : List (Bytes × ℕ)) (lk : Bool) (ts : List (Thread V))
      → NoThread (path d) ts
      → All (Served es lk) ts
      → All (Served (es ++ ((path d, callbacks job) ∷ [])) lk) ts
  others-Served es lk [] h s = tt
  others-Served es lk (t ∷ ts) (ne, h) (s, ss) = (
    Served-later es _ lk t (sent_to_elsewhere _ _ es (callbacks job) (λ same. ne (sym same))) s,
    others-Served es lk ts h ss,
  )

  submit_to-Served :
      (es : List (Bytes × ℕ)) (ts : List (Thread V))
      → found.handles ≡ 0
      → DevicesDistinct ts
      → (NoThread (path d) ts → sent_to (path d) es ≡ [])
      → All (Served es found.locked) ts
      → All (Served (es ++ ((path d, callbacks job) ∷ [])) found.locked) (submit_to d found job ts)
  unfolding submit_to
  submit_to-Served es [] closed h quiet s = (
    Served-put_job es _ found.locked job (record { line = new_communicator d found; stuck = none })
        (sent_to_here _ _ es (callbacks job) refl)
        (record { order = sym (quiet tt); holds = closed; locked = refl }),
    tt,
  )
  submit_to-Served es (t ∷ ts) closed (h, hs) quiet (s, ss) =
      elim (Bool-cases (bytes_eq (path (device t)) (path d))) [
        | inl e ↦
            let same = bytes_eq→eq (path (device t)) (path d) e in
            rw e (
              Served-put_job es _ found.locked job t
                  (sent_to_here _ _ es (callbacks job) (sym same)) s,
              others-Served es found.locked ts (rw same at h) ss,
            )
        | inr e ↦
            let ne = differ t e in
            rw e (
              Served-later es _ found.locked t (sent_to_elsewhere _ _ es (callbacks job) ne) s,
              submit_to-Served es ts closed hs (λ q. quiet ((λ same. ne (sym same)), q)) ss,
            )
      ]

  pub submit_to-Sound :
      (es : List (Bytes × ℕ)) (ts : List (Thread V))
      → found.handles ≡ 0
      → Sound es found.locked ts
      → Sound (es ++ ((path d, callbacks job) ∷ [])) found.locked (submit_to d found job ts)
  submit_to-Sound es ts closed s = record {
    distinct = submit_to-DevicesDistinct ts s.distinct;
    silent = λ p q.
        let (before, ne) = NoThread-submit_to p ts q in
        sent_to_elsewhere p (path d) es (callbacks job) ne ∙ s.silent p before;
    served = submit_to-Served es ts closed s.distinct (s.silent (path d)) s.served;
  }
