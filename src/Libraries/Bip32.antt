-- ===== src/Libraries/Bip32.antt =====
-- trezor-crypto's bip32.h, a submodule: extended public keys.
use trezor_plugin.Prelude.{ℕ, Bytes}
use trezor_plugin.Prelude.Int.{ℤ}

-- hdnode_from_xpub makes a node of depth, fingerprint, child number, chain code and public key.
pub record Bip32 : Type 1 where
  pub HdNode : Type 0
  pub hdnode_from_xpub : ℤ → ℤ → ℤ → Bytes → Bytes → HdNode
  pub hdnode_public_ckd : HdNode → ℕ → HdNode
  pub depth : HdNode → ℤ
  pub fingerprint : HdNode → ℤ
  pub child_num : HdNode → ℤ
  pub chain_code : HdNode → Bytes
  pub public_key : HdNode → Bytes
