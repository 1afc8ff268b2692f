-- ===== src/Libraries/OpenSsl.antt =====
-- OpenSSL, as far as utils.cpp uses it.
use trezor_plugin.Prelude.{Option, Bytes}
use trezor_plugin.Prelude.Int.{ℤ}

-- A null pointer is `none`. `ecdsa_do_verify digest r s key` is 1 for a good signature, 0 for a bad
-- one and -1 for an error.
pub record OpenSsl : Type 1 where
  pub Bio : Type 0
  pub EvpKey : Type 0
  pub EcKey : Type 0
  pub BigNum : Type 0
  pub sha256 : Bytes → Bytes
  pub bn_bin2bn : Bytes → BigNum
  pub bio_new_mem_buf : Bytes → Option Bio
  pub pem_read_bio_pubkey : Bio → Option EvpKey
  pub evp_pkey_get1_ec_key : EvpKey → Option EcKey
  pub ecdsa_do_verify : Bytes → BigNum → BigNum → EcKey → ℤ
