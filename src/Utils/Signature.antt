-- ===== src/Utils/Signature.antt =====
-- The signature check of utils.cpp, with the keys of utils_keys.h.
pub mod Keys
use trezor_plugin.Prelude.{
  ℕ, ◌+◌, ◌-◌, Bool, true, false, Option, none, some, List, [], ◌∷◌, ◌++◌, Bytes, codes, take, drop,
  ltb,
}
use trezor_plugin.Prelude.Int.{ℤ, pos, negsuc}
use trezor_plugin.Libraries.OpenSsl.{OpenSsl}

-- The objects of OpenSSL that are allocated and not freed, by their kind.
pub record Heap : Type 0 where
  pub bios : ℕ
  pub evp_keys : ℕ
  pub ec_keys : ℕ
  pub big_nums : ℕ

abbrev pub signature_length : ℕ
signature_length = 64

-- A public key of 124 base64 digits, in its two lines.
abbrev pub pem : Bytes → Bytes → Bytes
pem first second =
    codes "-----BEGIN PUBLIC KEY-----"
    ++ (10 ∷ (first ++ (10 ∷ (second ++ (10 ∷ (codes "-----END PUBLIC KEY-----" ++ (10 ∷ [])))))))

abbrev pub signature_keys : List Bytes
signature_keys =
    pem (codes "MFYwEAYHKoZIzj0CAQYFK4EEAAoDQgAE1XG38UjF5CMsOBT3d9j66vGoQhbHjVab")
      (codes "cQQf/HaKWy2BD8O7E03QJrV+ZQBSda7e9D4VX0j8EaMux5CpMxK9WA==")
    ∷ pem (codes "MFYwEAYHKoZIzj0CAQYFK4EEAAoDQgAEYyecDAhm5QwFx5nTK9a6sBiLbeBlNtEQ")
        (codes "nS7ZznbLM1xJDlWu4QzJASFRMuhTCX1UMu2ga3kgc713QMlM5FFssQ==")
    ∷ pem (codes "MFYwEAYHKoZIzj0CAQYFK4EEAAoDQgAEQ67btvfnHFY/jtLvZOyZgUglGefvT0qp")
        (codes "iyeFToxJEm1JVtMAq0X9w0zSa8hxDeCjHb323nQ1/QtJK+cKx1/eWA==")
    ∷ pem (codes "MFYwEAYHKoZIzj0CAQYFK4EEAAoDQgAEh3w5/XxiI34DgjXpwHXasmFjD3juuO25")
        (codes "JIcVn//t/fYEbG+LiB+kB8Skzmwo3gsZwfTinx/LxaWP/RQyo+CTig==")
    ∷ pem (codes "MFYwEAYHKoZIzj0CAQYFK4EEAAoDQgAEc4TFGuga3QpSOtuxhskbkG/7ZMLHZYAr")
        (codes "8m29E73xLDGegMIhOhNsjuA9eHT9IrcNaOfe5Gnez7u1EO6aRgzaRQ==")
    ∷ []

-- `ret > 0`
abbrev pub is_positive : ℤ → Bool
is_positive (pos n) = ltb 0 n
is_positive (negsuc n) = false

module _ (ssl : OpenSsl) where
  open ssl use {
    EcKey, BigNum, sha256, bn_bin2bn, bio_new_mem_buf, pem_read_bio_pubkey, evp_pkey_get1_ec_key,
    ecdsa_do_verify,
  }

  -- make_digest(EVP_sha256(), …); the context that it makes is cleaned up.
  unfoldable pub make_digest : Bytes → Bytes
  make_digest bytes = sha256 bytes

  -- EVP_PKEY_free and BIO_free
  abbrev free_evp_key : Heap → Heap
  free_evp_key h = record h { evp_keys = h.evp_keys - 1 }

  abbrev free_bio : Heap → Heap
  free_bio h = record h { bios = h.bios - 1 }

  -- read_eckey, with its jumps to the labels that free what was made so far.
  unfoldable pub read_eckey : Bytes → Heap → Option EcKey × Heap
  read_eckey buf h = elim (bio_new_mem_buf buf) [
    | none ↦ (none, h)
    | some bio ↦
        let h1 : Heap = record h { bios = h.bios + 1 } in
        elim (pem_read_bio_pubkey bio) [
          | none ↦ (none, free_bio h1)
          | some evpkey ↦
              let h2 : Heap = record h1 { evp_keys = h1.evp_keys + 1 } in
              elim (evp_pkey_get1_ec_key evpkey) [
                | none ↦ (none, free_bio (free_evp_key h2))
                | some eckey ↦
                    (some eckey, free_bio (free_evp_key (record h2 { ec_keys = h2.ec_keys + 1 })))
              ]
        ]
  ]

  -- The loop over the keys, with the digest and the two halves of the signature.
  unfoldable pub verify_loop : Bytes → BigNum → BigNum → List Bytes → Heap → Bool × Heap
  unfolding read_eckey
  verify_loop dig r s [] h = (false, h)
  verify_loop dig r s (k ∷ ks) h =
      let (key, h') = read_eckey k h in
      elim key [
        | none ↦ verify_loop dig r s ks h'
        | some eckey ↦
            let freed : Heap = record h' { ec_keys = h'.ec_keys - 1 } in
            elim (is_positive (ecdsa_do_verify dig r s eckey)) [
              | true ↦ (true, freed)
              | false ↦ verify_loop dig r s ks freed
            ]
      ]

  -- signature_verify: the two numbers that it makes of the signature are not freed.
  unfoldable pub signature_verify : Bytes → Bytes → Heap → Bool × Heap
  unfolding make_digest verify_loop
  signature_verify sig bytes h =
      verify_loop (make_digest bytes) (bn_bin2bn (take 32 sig)) (bn_bin2bn (take 32 (drop 32 sig)))
        signature_keys (record h { big_nums = h.big_nums + 2 })
