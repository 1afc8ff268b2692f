-- ===== src/Messages/HdNode.antt =====
-- messages.cpp: BIP32 nodes and their messages (message_to_hdnode, message_from_hdnode).
pub mod RoundTrip
pub mod Held
pub mod Copied
pub mod Mapped
use trezor_plugin.Prelude.{◌++◌, none, some, Bytes, codes}
use trezor_plugin.Exceptions.{Outcome, ok, throw, invalid_argument, ◌>>=◌}
use trezor_plugin.Libraries.Protobuf.{Protobuf, uint32, string}
use trezor_plugin.Libraries.Bip32.{Bip32}

module _ (pb : Protobuf) (bip : Bip32) where
  open pb use {Message, Field, find_field, get, set}
  open bip use {HdNode, hdnode_from_xpub, depth, fingerprint, child_num, chain_code, public_key}

  unfoldable pub field_or_throw : Message → Bytes → Outcome Field
  field_or_throw m name = elim (find_field m name) [
    | none ↦ throw (invalid_argument (codes "Field '" ++ (name ++ codes "' not found")))
    | some fd ↦ ok fd
  ]

  -- message_to_hdnode; the arguments of a call are evaluated in an order that C++ leaves open, which
  -- only decides which missing field is named.
  unfoldable pub message_to_hdnode : Message → Outcome HdNode
  unfolding field_or_throw
  message_to_hdnode m = do
    chain ← field_or_throw m (codes "chain_code")
    key ← field_or_throw m (codes "public_key")
    d ← field_or_throw m (codes "depth")
    f ← field_or_throw m (codes "fingerprint")
    c ← field_or_throw m (codes "child_num")
    ok (
        hdnode_from_xpub (get uint32 m d) (get uint32 m f) (get uint32 m c) (get string m chain)
          (get string m key))

  -- The five setters, over the fields.
  abbrev pub set_node : Message → HdNode → Field → Field → Field → Field → Field → Message
  set_node m node d f c chain key =
      let m1 = set uint32 m d (depth node) in
      let m2 = set uint32 m1 f (fingerprint node) in
      let m3 = set uint32 m2 c (child_num node) in
      let m4 = set string m3 chain (chain_code node) in set string m4 key (public_key node)

  -- message_from_hdnode. A setter does not change the message's type, so the fields are looked up
  -- in the message as it came; an exception passes to derive_child_node, which drops the message.
  unfoldable pub message_from_hdnode : Message → HdNode → Outcome Message
  unfolding field_or_throw
  message_from_hdnode m node = do
    d ← field_or_throw m (codes "depth")
    f ← field_or_throw m (codes "fingerprint")
    c ← field_or_throw m (codes "child_num")
    chain ← field_or_throw m (codes "chain_code")
    key ← field_or_throw m (codes "public_key")
    ok (set_node m node d f c chain key)
