-- ===== src/Utils/Signature/Keys.antt =====
-- signature_verify (utils.cpp) and the keys.
use trezor_plugin.Prelude.{
  ◌+◌, ◌≡◌, refl, ap, sym, ◌∙◌, ◌↔◌, ◌⊎◌, inl, inr, Bool, true, false, Option, none, some, List, [],
  ◌∷◌, Bytes, take, drop, arith, if◌then◌else◌, Bool-cases,
}
use mathlib.Core.Option.{some-injective}
use trezor_plugin.Libraries.OpenSsl.{OpenSsl}
use trezor_plugin.Utils.Signature.{
  Heap, is_positive, make_digest, read_eckey, verify_loop, signature_verify, signature_keys,
}

module _ (ssl : OpenSsl) where
  open ssl use {
    EcKey, BigNum, sha256, bn_bin2bn, bio_new_mem_buf, pem_read_bio_pubkey, evp_pkey_get1_ec_key,
    ecdsa_do_verify,
  }

  -- The key that a text in PEM format holds, if it holds one.
  abbrev pub key_of : Bytes → Option EcKey
  key_of buf = elim (bio_new_mem_buf buf) [
    | none ↦ none
    | some bio ↦ elim (pem_read_bio_pubkey bio) [
      | none ↦ none
      | some evpkey ↦ evp_pkey_get1_ec_key evpkey
    ]
  ]

  -- A key of the list verifies the signature.
  abbrev pub SomeVerifies : Bytes → BigNum → BigNum → List Bytes → Type 0
  SomeVerifies dig r s [] = ⊥
  SomeVerifies dig r s (k ∷ ks) =
      ((key : EcKey) × (key_of k ≡ some key) × (is_positive (ecdsa_do_verify dig r s key) ≡ true))
      ⊎ SomeVerifies dig r s ks

  -- What read_eckey leaves allocated is the key that it returns.
  abbrev kept : Option EcKey → Heap → Heap
  kept none h = h
  kept (some key) h = record h { ec_keys = h.ec_keys + 1 }

  read_eckey_lem :
      (buf : Bytes) (h : Heap) → read_eckey ssl buf h ≡ (key_of buf, kept (key_of buf) h)
  unfolding read_eckey
  read_eckey_lem buf h = by_bio (bio_new_mem_buf buf) refl
    where
      by_bio :
          (o : Option ssl.Bio)
          → bio_new_mem_buf buf ≡ o
          → read_eckey ssl buf h ≡ (key_of buf, kept (key_of buf) h)
      by_bio none e = ground arith
      by_bio (some bio) e = ground arith

  -- A turn of the loop, in terms of the key.
  abbrev turn : Bytes → BigNum → BigNum → Option EcKey → Heap → Bool × Heap → Bool × Heap
  turn dig r s none h rest = rest
  turn dig r s (some key) h rest =
      if is_positive (ecdsa_do_verify dig r s key) then (true, h) else rest

  verify_loop-turn :
      (dig : Bytes) (r s : BigNum) (k : Bytes) (ks : List Bytes) (h : Heap)
      → verify_loop ssl dig r s (k ∷ ks) h
        ≡ turn dig r s (key_of k) h (verify_loop ssl dig r s ks h)
  unfolding verify_loop
  verify_loop-turn dig r s k ks h = ground (arith, read_eckey_lem k h)

  turn-heap :
      (dig : Bytes) (r s : BigNum) (o : Option EcKey) (h : Heap) (rest : Bool × Heap)
      → rest.1 ≡ h
      → (turn dig r s o h rest).1 ≡ h
  turn-heap dig r s none h rest e = e
  turn-heap dig r s (some key) h rest e = ground arith

  verify_loop-heap :
      (dig : Bytes) (r s : BigNum) (ks : List Bytes) (h : Heap)
      → (verify_loop ssl dig r s ks h).1 ≡ h
  unfolding verify_loop
  verify_loop-heap dig r s [] h = refl
  verify_loop-heap dig r s (k ∷ ks) h =
      ap (λ (t : Bool × Heap). t.1) (verify_loop-turn dig r s k ks h)
      ∙ turn-heap dig r s (key_of k) h _ (verify_loop-heap dig r s ks h)

  -- The answer of a turn is true for its own key or for the rest of the keys.
  turn_iff :
      (dig : Bytes) (r s : BigNum) (o : Option EcKey) (h : Heap) (rest : Bool × Heap)
      → ((turn dig r s o h rest).0 ≡ true) ↔ (
          ((key : EcKey) × (o ≡ some key) × (is_positive (ecdsa_do_verify dig r s key) ≡ true))
          ⊎ (rest.0 ≡ true))
  turn_iff dig r s none h rest = (λ e. inr e, from)
    where
      from :
          ((key : EcKey) × (none ≡ some key) × (is_positive (ecdsa_do_verify dig r s key) ≡ true))
            ⊎ (rest.0 ≡ true)
          → rest.0 ≡ true
      from (inl (key, e, v)) = cc
      from (inr e) = e
  turn_iff dig r s (some key) h rest =
      elim (Bool-cases (is_positive (ecdsa_do_verify dig r s key))) [
        | inl good ↦ (λ e. inl (key, refl, good), λ e. rw good refl)
        | inr bad ↦ (λ e. inr (rw bad at e), from bad)
      ]
    where
      from :
          is_positive (ecdsa_do_verify dig r s key) ≡ false
          → ((k : EcKey) × (some key ≡ some k) × (is_positive (ecdsa_do_verify dig r s k) ≡ true))
            ⊎ (rest.0 ≡ true)
          → (turn dig r s (some key) h rest).0 ≡ true
      from bad (inl (k, e, v)) =
          let same : key ≡ k = some-injective key k e in
          let clash : false ≡ true =
            sym bad ∙ ap (λ t. is_positive (ecdsa_do_verify dig r s t)) same ∙ v in
          absurd cc
      from bad (inr e) = rw bad e

  verify_loop_iff :
      (dig : Bytes) (r s : BigNum) (ks : List Bytes) (h : Heap)
      → ((verify_loop ssl dig r s ks h).0 ≡ true) ↔ SomeVerifies dig r s ks
  unfolding verify_loop
  verify_loop_iff dig r s [] h = (λ e. cc, λ e. absurd e)
  verify_loop_iff dig r s (k ∷ ks) h =
      let both = turn_iff dig r s (key_of k) h (verify_loop ssl dig r s ks h) in
      let first = ap (λ (t : Bool × Heap). t.0) (verify_loop-turn dig r s k ks h) in
      let rest = verify_loop_iff dig r s ks h in
      (
        λ e. elim (both.0 (sym first ∙ e)) [ inl v ↦ inl v | inr t ↦ inr (rest.0 t) ],
        λ v. first ∙ both.1 (elim v [ inl w ↦ inl w | inr t ↦ inr (rest.1 t) ]),
      )

  -- signature_verify accepts a signature exactly when one of the keys of utils_keys.h can be read
  -- and verifies the SHA-256 digest of the data with the two halves of the signature. Every key and
  -- reader that it makes is freed, on every path; the two numbers of the signature are not.
  pub signature_verify_iff :
      (sig bytes : Bytes) (h : Heap)
      → (((signature_verify ssl sig bytes h).0 ≡ true)
          ↔ SomeVerifies
              (sha256 bytes)
              (bn_bin2bn (take 32 sig))
              (bn_bin2bn (take 32 (drop 32 sig)))
              signature_keys)
        × ((signature_verify ssl sig bytes h).1 ≡ record h { big_nums = h.big_nums + 2 })
  unfolding signature_verify make_digest
  signature_verify_iff sig bytes h =
      (verify_loop_iff _ _ _ signature_keys _, verify_loop-heap _ _ _ signature_keys _)
