-- ===== src/Plugin/Communicators/Paths.antt =====
-- The paths of the communicators (BitcoinTrezorPlugin::communicator, plugin.cpp).
use trezor_plugin.Prelude.{
  ℕ, suc, ◌+◌, ◌≡◌, ◌≢◌, refl, ap, sym, ◌∙◌, Bool, true, false, none, some, List, [], ◌∷◌, ◌++◌,
  Bytes, bytes_eq, bytes_eq→eq, bytes_eq_refl, Bool-cases, Option-cases, inl, inr, ◌⊎◌, get_elem?,
  get_elem?-append_length, All, All-append, append-nil, arith,
}
use mathlib.Core.Option.{some-injective}
use trezor_plugin.Config.{DeviceDescriptor, path}
use trezor_plugin.Plugin.Communicators.{Communicator, find_communicator, communicator}

module _ {Job : Type 0} where
  abbrev pub Elsewhere : Bytes → List (Communicator Job) → Type 0
  Elsewhere p = All (λ c. path (c.device) ≢ p)

  -- No two communicators have the same path.
  abbrev pub PathsDistinct : List (Communicator Job) → Type 0
  PathsDistinct [] = Unit
  PathsDistinct (c ∷ cs) = Elsewhere (path (c.device)) cs × PathsDistinct cs

  pub find_some :
      (p : Bytes) (i j : ℕ) (cs : List (Communicator Job))
      → find_communicator p i cs ≡ some j
      → (k : ℕ) × (c : Communicator Job) × (j ≡ i + k)
        × (get_elem? cs k ≡ some c)
        × (path (c.device) ≡ p)
  unfolding find_communicator
  find_some p i j [] h = cc
  find_some p i j (c ∷ cs) h = elim (Bool-cases (bytes_eq (path (c.device)) p)) [
    | inl e ↦
        let same : some i ≡ some j = rw e at h in
        (0, c, omega (arith, some-injective i j same), refl, bytes_eq→eq _ _ e)
    | inr e ↦
        let (k, d, at_k, is_d, same) = find_some p (i + 1) j cs (rw e at h) in
        (suc k, d, omega arith, is_d, same)
  ]

  find_none :
      (p : Bytes) (i : ℕ) (cs : List (Communicator Job))
      → find_communicator p i cs ≡ none
      → Elsewhere p cs
  unfolding find_communicator
  find_none p i [] h = tt
  find_none p i (c ∷ cs) h = elim (Bool-cases (bytes_eq (path (c.device)) p)) [
    | inl e ↦ absurd (clash (rw e at h))
    | inr e ↦ (
      (λ same. differ e (ap (λ t. bytes_eq t p) same ∙ bytes_eq_refl p)),
      find_none p (i + 1) cs (rw e at h),
    )
  ]
    where
      clash : some i ≡ none → ⊥
      clash e = cc

      differ : {b : Bool} → b ≡ false → b ≡ true → ⊥
      differ f t = cc

  PathsDistinct-snoc :
      (cs : List (Communicator Job)) (c : Communicator Job)
      → PathsDistinct cs
      → Elsewhere (path (c.device)) cs
      → PathsDistinct (cs ++ (c ∷ []))
  PathsDistinct-snoc [] c h n = (tt, tt)
  PathsDistinct-snoc (a ∷ rest) c (h, hs) (ne, n) =
      (All-append _ rest (c ∷ []) h ((λ e. ne (sym e)), tt), PathsDistinct-snoc rest c hs n)

  -- What is added to the communicators: nothing, or, when none has the device's path, one for the
  -- device with no job.
  abbrev pub Added : DeviceDescriptor → List (Communicator Job) → List (Communicator Job) → Type 0
  Added desc before new =
      (new ≡ [])
      ⊎ ((new ≡ record { device = desc; queue = [] } ∷ []) × Elsewhere (path desc) before)

  -- What a call of communicator answers.
  pub record Serves (desc : DeviceDescriptor) (before after : List (Communicator Job)) (place : ℕ)
      : Type 0 where
    pub one : Communicator Job
    pub found : get_elem? after place ≡ some one
    pub same_path : path (one.device) ≡ path desc
    pub new : List (Communicator Job)
    pub kept : after ≡ before ++ new
    pub added : Added desc before new

  -- communicator returns a communicator of the device's path, adds one only when there is none,
  -- moves none that was there, and keeps their paths distinct, if they are.
  pub communicator-Serves :
      (desc : DeviceDescriptor) (cs : List (Communicator Job))
      → PathsDistinct cs
      → let (i, cs') = communicator desc cs in Serves desc cs cs' i × PathsDistinct cs'
  unfolding communicator
  communicator-Serves desc cs h = elim (Option-cases (find_communicator (path desc) 0 cs)) [
    | inl e ↦
        rw (e, communicator)
          (
            record {
              one = record { device = desc; queue = [] };
              found = get_elem?-append_length cs _;
              same_path = refl;
              new = record { device = desc; queue = [] } ∷ [];
              kept = refl;
              added = inr (refl, find_none (path desc) 0 cs e);
            },
            PathsDistinct-snoc cs _ h (find_none (path desc) 0 cs e),
          )
    | inr (i, e) ↦
        let (k, c, at_k, is_c, same) = find_some (path desc) 0 i cs e in
        rw (e, communicator)
          (
            record {
              one = c;
              found = ap (get_elem? cs) (omega arith) ∙ is_c;
              same_path = same;
              new = [];
              kept = sym (append-nil cs);
              added = inl refl;
            },
            h,
          )
  ]
