-- ===== src/Plugin/Enumerate/Laws.antt =====
-- The outcomes of BitcoinTrezorPlugin::enumerate (plugin.cpp).
use trezor_plugin.Prelude.{
  ◌+◌, ◌≡◌, ◌≢◌, ◌⊎◌, inl, inr, refl, ap, sym, ◌∙◌, ◌++◌, Bool, true, false, not, ◌&&◌, ◌||◌, List,
  [], ◌∷◌, append_assoc, append-nil, Bytes, codes, bytes_eq, bytes_eq→eq, bytes_eq_refl,
  if◌then◌else◌, if_false, Bool-cases, All, All-append, All-append_back, arith,
}
use trezor_plugin.Exceptions.{Outcome, ok, throw, runtime_error, ◌>>=◌}
use trezor_plugin.Libraries.Boost.{Boost}
use trezor_plugin.Config.{DeviceDescriptor, serial_number}
use trezor_plugin.Plugin.Enumerate.{
  HidDeviceInfo, Hidapi, is_foreign, is_null, describe, matches, has_serial, push_unique,
  add_if_known, release, enumerate_loop, enumerate,
}

-- No device of the list has this serial number.
abbrev pub NoneHas : Bytes → List DeviceDescriptor → Type 0
NoneHas s = All (λ d. serial_number d ≢ s)

-- No two devices of the list share a serial number.
abbrev pub Distinct : List DeviceDescriptor → Type 0
Distinct [] = Unit
Distinct (d ∷ ds) = NoneHas (serial_number d) ds × Distinct ds

abbrev pub is_known : List DeviceDescriptor → DeviceDescriptor → Bool
is_known [] desc = false
is_known (dd ∷ dds) desc = matches dd desc || is_known dds desc

-- What the code's conditions let through: no foreign interface, a product string, a known device.
abbrev pub is_candidate : Boost → List DeviceDescriptor → HidDeviceInfo → Bool
is_candidate boost known d =
    not (is_foreign (d.interface_number) || is_null (d.product_string))
    && is_known known (describe boost d)

abbrev pub candidates : Boost → List DeviceDescriptor → List HidDeviceInfo → List DeviceDescriptor
candidates boost known [] = []
candidates boost known (d ∷ ds) =
    if is_candidate boost known d
    then describe boost d ∷ candidates boost known ds
    else candidates boost known ds

has_serial-false : (s : Bytes) (ds : List DeviceDescriptor) → has_serial s ds ≡ false → NoneHas s ds
unfolding has_serial
has_serial-false s [] h = tt
has_serial-false s (d ∷ ds) h = elim (Bool-cases (bytes_eq (serial_number d) s)) [
  | inl e ↦ absurd (clash (rw e at h))
  | inr e ↦ (
    (λ same. clash (sym (bytes_eq_refl s) ∙ ap (λ t. bytes_eq t s) (sym same) ∙ e)),
    has_serial-false s ds (rw e at h),
  )
]
  where
    clash : true ≡ false → ⊥
    clash e = cc

NoneHas-false : (s : Bytes) (ds : List DeviceDescriptor) → NoneHas s ds → has_serial s ds ≡ false
unfolding has_serial
NoneHas-false s [] h = refl
NoneHas-false s (d ∷ ds) (ne, h) = elim (Bool-cases (bytes_eq (serial_number d) s)) [
  | inl e ↦ absurd (ne (bytes_eq→eq _ _ e))
  | inr e ↦ rw e (NoneHas-false s ds h)
]

Distinct-middle :
    (acc : List DeviceDescriptor) (d : DeviceDescriptor) (ds : List DeviceDescriptor)
    → Distinct (acc ++ (d ∷ ds))
    → NoneHas (serial_number d) acc
Distinct-middle [] d ds h = tt
Distinct-middle (a ∷ rest) d ds (h, hs) =
    let (ne, _) = All-append_back _ rest (d ∷ ds) h in
    ((λ e. ne (sym e)), Distinct-middle rest d ds hs)

Distinct-snoc :
    (acc : List DeviceDescriptor) (d : DeviceDescriptor)
    → Distinct acc
    → NoneHas (serial_number d) acc
    → Distinct (acc ++ (d ∷ []))
Distinct-snoc [] d h n = (tt, tt)
Distinct-snoc (a ∷ rest) d (h, hs) (ne, n) =
    (All-append _ rest (d ∷ []) h ((λ e. ne (sym e)), tt), Distinct-snoc rest d hs n)

add_if_known_lem :
    (known : List DeviceDescriptor) (desc : DeviceDescriptor) (result : List DeviceDescriptor)
    → add_if_known known desc result
      ≡ (if is_known known desc then push_unique result desc else ok result)
unfolding add_if_known
add_if_known_lem [] desc result = refl
add_if_known_lem (dd ∷ dds) desc result = elim (Bool-cases (matches dd desc)) [
  | inl e ↦ rw e
  | inr e ↦ rw e (add_if_known_lem dds desc result)
]

abbrev pub duplicit : Outcome (List DeviceDescriptor)
duplicit = throw (runtime_error (codes "Duplicit devices detected"))

module _ (boost : Boost) (known : List DeviceDescriptor) where
  enumerate_skip :
      (d : HidDeviceInfo) (ds : List HidDeviceInfo) (acc : List DeviceDescriptor)
      → is_candidate boost known d ≡ false
      → enumerate_loop boost known (d ∷ ds) acc ≡ enumerate_loop boost known ds acc
  unfolding enumerate_loop
  enumerate_skip d ds acc h =
      elim (Bool-cases (is_foreign (d.interface_number) || is_null (d.product_string))) [
        | inl skip ↦ rw skip
        | inr keep ↦
            let unknown : is_known known (describe boost d) ≡ false = rw keep at h in
            rw (keep, add_if_known_lem known (describe boost d) acc, unknown)
      ]

  enumerate_keep :
      (d : HidDeviceInfo) (ds : List HidDeviceInfo) (acc : List DeviceDescriptor)
      → is_candidate boost known d ≡ true
      → enumerate_loop boost known (d ∷ ds) acc
        ≡ (push_unique acc (describe boost d) >>= λ r. enumerate_loop boost known ds r)
  unfolding enumerate_loop
  enumerate_keep d ds acc h =
      elim (Bool-cases (is_foreign (d.interface_number) || is_null (d.product_string))) [
        | inl skip ↦ absurd (clash (rw skip at h))
        | inr keep ↦
            let found : is_known known (describe boost d) ≡ true = rw keep at h in
            rw (keep, add_if_known_lem known (describe boost d) acc, found)
      ]
    where
      clash : false ≡ true → ⊥
      clash e = cc

  -- The loop, from a result without duplicates: the candidates behind it, or the exception.
  abbrev Enumerated : List DeviceDescriptor → Outcome (List DeviceDescriptor) → Type 0
  Enumerated all r = (Distinct all × (r ≡ ok all)) ⊎ (¬ Distinct all × (r ≡ duplicit))

  -- One candidate more: what the rest of the loop comes to, or the exception.
  push_unique-Enumerated :
      (acc all : List DeviceDescriptor) (desc : DeviceDescriptor) (ds : List HidDeviceInfo)
      → all ≡ acc ++ (desc ∷ candidates boost known ds)
      → (NoneHas (serial_number desc) acc
          → Enumerated all (enumerate_loop boost known ds (acc ++ (desc ∷ []))))
      → Enumerated all (push_unique acc desc >>= λ r. enumerate_loop boost known ds r)
  unfolding push_unique
  push_unique-Enumerated acc all desc ds e k =
      elim (Bool-cases (has_serial (serial_number desc) acc)) [
        | inl dup ↦ rw dup (
            inr (
              (λ distinct.
                  taken dup (NoneHas-false _ acc (Distinct-middle acc desc _ (rw e at distinct)))),
              refl,
            ))
        | inr new ↦ rw new (k (has_serial-false (serial_number desc) acc new))
      ]
    where
      taken : {b : Bool} → b ≡ true → b ≡ false → ⊥
      taken t f = cc

  enumerate_loop-Enumerated :
      (devices : List HidDeviceInfo) (acc : List DeviceDescriptor)
      → Distinct acc
      → Enumerated (acc ++ candidates boost known devices) (enumerate_loop boost known devices acc)
  enumerate_loop-Enumerated [] acc h = unfold enumerate_loop in rw (append-nil acc) (inl (h, refl))
  enumerate_loop-Enumerated (d ∷ ds) acc h = elim (Bool-cases (is_candidate boost known d)) [
    | inl keep ↦
        let desc = describe boost d in
        rw (enumerate_keep d ds acc keep, keep)
          (push_unique-Enumerated acc (acc ++ (desc ∷ candidates boost known ds)) desc ds refl
            λ new.
              rw (append_assoc acc (desc ∷ []) (candidates boost known ds)) at
                (enumerate_loop-Enumerated ds (acc ++ (desc ∷ [])) (Distinct-snoc acc desc h new)))
    | inr skip ↦ rw (enumerate_skip d ds acc skip, skip) (enumerate_loop-Enumerated ds acc h)
  ]

  -- enumerate lists the candidates in hidapi's order, frees the list and unlocks the mutex, if no
  -- two candidates share a serial number. If two do, it throws, and leaves the mutex locked and
  -- the list unfreed.
  pub enumerate_result :
      (devices : List HidDeviceInfo) (h : Hidapi)
      → h.locked ≡ false
      → (Distinct (candidates boost known devices)
          × (enumerate boost known devices h ≡ (ok (candidates boost known devices), h)))
        ⊎ (¬ Distinct (candidates boost known devices)
            × (enumerate boost known devices h
                ≡ (duplicit, record { locked = true; unfreed = h.unfreed + 1 })))
  unfolding enumerate
  enumerate_result devices h free = elim (enumerate_loop-Enumerated devices [] tt) [
    | inl (distinct, e) ↦
        inl (distinct, if_false _ _ _ free ∙ ap (λ r. release r held) e ∙ restored)
    | inr (twice, e) ↦ inr (twice, if_false _ _ _ free ∙ ap (λ r. release r held) e)
  ]
    where
      held : Hidapi
      held = record { locked = true; unfreed = h.unfreed + 1 }

      restored :
          release (ok (candidates boost known devices)) held
          ≡ (ok (candidates boost known devices), h)
      restored = ground arith
