-- ===== src/World/Threads.antt =====
-- One thread of the plugin, and what it owes the page (plugin.cpp).
use trezor_plugin.Prelude.{
  ℕ, ◌≡◌, ◌≢◌, refl, ap, sym, ◌∙◌, ◌++◌, append_assoc, append-nil, Bool, Option, none, some, List,
  [], ◌∷◌, Bytes, bytes_eq, bytes_eq→eq, bytes_eq_refl, if◌then◌else◌, if_true, if_false,
  Bool-cases, inl, inr, map,
}
use mathlib.Core.List.{map-append}
use trezor_plugin.Exceptions.{Outcome, ok, throw, fault, blocked, out_of_fuel, thread_interrupted}
use trezor_plugin.Libraries.Boost.{Boost}
use trezor_plugin.Libraries.Protobuf.{Protobuf}
use trezor_plugin.Libraries.FireBreath.{Variants}
use trezor_plugin.Config.{path}
use trezor_plugin.Devices.Channel.{Endian}
use trezor_plugin.Plugin.Communicators.{put, take_job}
use trezor_plugin.Plugin.Executor.{Executor, Job, callbacks, run_job}
use trezor_plugin.Plugin.Executor.Answers.{Answered, run_job-Answered}
use trezor_plugin.Plugin.Executor.Handles.{Holds, run_job-Keeps}
use trezor_plugin.Plugin.Worker.{Line, caught, consume, ids-Answered}
use trezor_plugin.World.{Thread, device, put_job, relock, stuck_in, turn_with, turn}

-- The callbacks of the jobs that were passed for a path, in their order.
abbrev pub sent_to : Bytes → List (Bytes × ℕ) → List ℕ
sent_to p [] = []
sent_to p ((q, c) ∷ es) = let rest = sent_to p es in if bytes_eq q p then c ∷ rest else rest

sent_to-append :
    (p : Bytes) (es fs : List (Bytes × ℕ)) → sent_to p (es ++ fs) ≡ sent_to p es ++ sent_to p fs
sent_to-append p [] fs = refl
sent_to-append p ((q, c) ∷ es) fs = elim (Bool-cases (bytes_eq q p)) [
  | inl e ↦ rw e (ap (λ t. c ∷ t) (sent_to-append p es fs))
  | inr e ↦ rw e (sent_to-append p es fs)
]

pub sent_to_here :
    (p q : Bytes) (es : List (Bytes × ℕ)) (c : ℕ)
    → q ≡ p
    → sent_to p (es ++ ((q, c) ∷ [])) ≡ sent_to p es ++ (c ∷ [])
sent_to_here p q es c e =
    sent_to-append p es ((q, c) ∷ [])
    ∙ ap (λ t. sent_to p es ++ t) (if_true _ _ _ (ap (λ t. bytes_eq t p) e ∙ bytes_eq_refl p))

pub sent_to_elsewhere :
    (p q : Bytes) (es : List (Bytes × ℕ)) (c : ℕ)
    → q ≢ p
    → sent_to p (es ++ ((q, c) ∷ [])) ≡ sent_to p es
sent_to_elsewhere p q es c ne = elim (Bool-cases (bytes_eq q p)) [
  | inl e ↦ absurd (ne (bytes_eq→eq q p e))
  | inr e ↦
      sent_to-append p es ((q, c) ∷ [])
      ∙ ap (λ t. sent_to p es ++ t) (if_false _ _ _ e)
      ∙ append-nil (sent_to p es)
]

abbrev pub in_hand : Option ℕ → List ℕ
in_hand none = []
in_hand (some c) = c ∷ []

-- The callbacks that were answered, that of the job the thread is stuck in, and those that wait.
abbrev pub accounted : {V : Type 0} → Thread V → List ℕ
accounted t =
    map (λ a. a.0) t.line.executor.answers ++ (in_hand t.stuck ++ map callbacks t.line.queue)

-- What holds of a thread after the jobs `es`, with hidapi's mutex as `lk` says.
pub record Served {V : Type 0} (es : List (Bytes × ℕ)) (lk : Bool) (t : Thread V) : Type 0 where
  pub order : accounted t ≡ sent_to (path (device t)) es
  pub holds : Holds t.line.executor
  pub locked : t.line.executor.wire.locked ≡ lk

module _ {V : Type 0} where
  pub Served-later :
      (es es' : List (Bytes × ℕ)) (lk : Bool) (t : Thread V)
      → sent_to (path (device t)) es' ≡ sent_to (path (device t)) es
      → Served es lk t
      → Served es' lk t
  Served-later es es' lk t same s = record {
    order = s.order ∙ sym same;
    holds = s.holds;
    locked = s.locked;
  }

  pub Served-relock :
      (es : List (Bytes × ℕ)) (lk b : Bool) (t : Thread V)
      → Served es lk t
      → Served es b (relock b t)
  Served-relock es lk b t s = record { order = s.order; holds = s.holds; locked = refl }

  pub accounted-put_job :
      (job : Job V) (t : Thread V) → accounted (put_job job t) ≡ accounted t ++ (callbacks job ∷ [])
  unfolding put
  accounted-put_job job t =
      let done = map (λ a. a.0) t.line.executor.answers in
      let waiting = map callbacks t.line.queue in
      ap (λ u. done ++ (in_hand t.stuck ++ u)) (map-append callbacks t.line.queue (job ∷ []))
      ∙ ap (λ u. done ++ u) (sym (append_assoc (in_hand t.stuck) waiting (callbacks job ∷ [])))
      ∙ sym (append_assoc done (in_hand t.stuck ++ waiting) (callbacks job ∷ []))

  pub Served-put_job :
      (es es' : List (Bytes × ℕ)) (lk : Bool) (job : Job V) (t : Thread V)
      → sent_to (path (device t)) es' ≡ sent_to (path (device t)) es ++ (callbacks job ∷ [])
      → Served es lk t
      → Served es' lk (put_job job t)
  Served-put_job es es' lk job t more s = record {
    order = accounted-put_job job t ∙ ap (λ u. u ++ (callbacks job ∷ [])) s.order ∙ sym more;
    holds = s.holds;
    locked = s.locked;
  }

module _ (boost : Boost) (pb : Protobuf) (fb : Variants pb) (utf8 : Bytes → Bytes) (e : Endian)
    (depth : ℕ) (pool : pb.Pool) where
  -- However a job ends, its callbacks are answered or in hand.
  accounted-Answered :
      (y : Executor fb.Variant) (job : Job fb.Variant) (rest : List (Job fb.Variant))
      (r : Outcome (Unit {0})) (x : Executor fb.Variant)
      → Answered (callbacks job) y (r, x)
      → accounted (record {
        line = record { queue = rest; executor = x };
        stuck = stuck_in (callbacks job) (caught r);
      })
        ≡ map (λ a. a.0) y.answers ++ map callbacks (job ∷ rest)
  accounted-Answered y job rest (ok tt) x a =
      ids-Answered boost pb fb utf8 e pool depth y job rest (ok tt) x a refl
  accounted-Answered y job rest (throw thread_interrupted) x (only, a) =
      ap (λ t. map (λ b. b.0) t ++ map callbacks (job ∷ rest)) a
  accounted-Answered y job rest (throw t) x (only, a) = absurd cc
  accounted-Answered y job rest fault x a =
      ap (λ t. map (λ b. b.0) t ++ map callbacks (job ∷ rest)) a
  accounted-Answered y job rest blocked x a =
      ap (λ t. map (λ b. b.0) t ++ map callbacks (job ∷ rest)) a
  accounted-Answered y job rest out_of_fuel x a =
      ap (λ t. map (λ b. b.0) t ++ map callbacks (job ∷ rest)) a

  abbrev turn_of : Thread fb.Variant → Thread fb.Variant
  turn_of = turn boost pb fb utf8 e depth pool

  -- What a round keeps.
  pub record Turned (t t' : Thread fb.Variant) : Type 0 where
    pub same_device : device t' ≡ device t
    pub same_locked : t'.line.executor.wire.locked ≡ t.line.executor.wire.locked
    pub holds : Holds t.line.executor → Holds t'.line.executor
    pub same_accounted : accounted t' ≡ accounted t

  turn_with-Turned :
      (queue : List (Job fb.Variant)) (y : Executor fb.Variant)
      → let l : Line fb.Variant = record { queue = queue; executor = y } in
        Turned (record { line = l; stuck = none }) (turn_with boost pb fb utf8 e depth pool l queue)
  unfolding consume take_job
  turn_with-Turned [] y = record {
    same_device = refl;
    same_locked = refl;
    holds = λ h. h;
    same_accounted = refl;
  }
  turn_with-Turned (job ∷ rest) y =
      let (r, x) = run_job boost pb fb utf8 e pool depth job y in
      let steady = run_job-Keeps boost pb fb utf8 e pool depth job y in
      record {
        same_device = steady.device;
        same_locked = steady.locked;
        holds = steady.holds;
        same_accounted =
            accounted-Answered y job rest r x
              (run_job-Answered boost pb fb utf8 e pool depth job y);
      }

  stuck_or_not :
      (l : Line fb.Variant) (s : Option ℕ)
      → let t : Thread fb.Variant = record { line = l; stuck = s } in Turned t (turn_of t)
  unfolding turn
  stuck_or_not l none = turn_with-Turned l.queue l.executor
  stuck_or_not l (some c) = record {
    same_device = refl;
    same_locked = refl;
    holds = λ h. h;
    same_accounted = refl;
  }

  pub turn-Turned : (t : Thread fb.Variant) → Turned t (turn_of t)
  turn-Turned t = stuck_or_not t.line t.stuck

  pub Served-turn :
      (es : List (Bytes × ℕ)) (lk : Bool) (t : Thread fb.Variant)
      → Served es lk t
      → Served es lk (turn_of t)
  Served-turn es lk t s =
      let u = turn-Turned t in
      record {
        order = u.same_accounted ∙ s.order ∙ ap (λ d. sent_to (path d) es) (sym u.same_device);
        holds = u.holds s.holds;
        locked = u.same_locked ∙ s.locked;
      }
