-- ===== src/Messages/HdNode/Copied.antt =====
-- The copy of a message that holds a node (messages.cpp).
use trezor_plugin.Prelude.{
  ℕ, suc, ◌≡◌, ◌≢◌, refl, ap, sym, ◌∙◌, true, false, some, List, [], ◌∷◌, Bytes, if_true, if_false,
}
use trezor_plugin.Prelude.Tests.{bytes_eq}
use trezor_plugin.Libraries.Protobuf.{
  Protobuf, FieldType, Carrier, uint32, string, type_uint32, type_bytes, type_enum, type_message,
}
use trezor_plugin.Libraries.Bip32.{Bip32}
use trezor_plugin.Messages.Copy.{copy, copy_as, copy_fields, KnownField, NamesDistinct}
use trezor_plugin.Messages.HdNode.RoundTrip.{Stores, NodeFields, names_differ}
use trezor_plugin.Messages.HdNode.Held.{
  Presents, IsSingle, node_fields, NodeTypes, IsNode, Holds, filled,
}

module _ (pb : Protobuf) (bip : Bip32) (laws : Stores pb) (shown : Presents pb) (n : NodeFields pb)
    (secret : pb.Field) where
  -- One field copied, and then the others.
  module _ (sub : pb.Message → pb.Message → pb.Message) (m to : pb.Message) (f : pb.Field)
      (fs : List pb.Field) where
    copy_number :
        (v : Carrier pb.Double pb.Float uint32)
        → IsSingle pb type_uint32 f
        → pb.has_field m f ≡ true
        → pb.get uint32 m f ≡ v
        → copy_fields pb sub m (f ∷ fs) to ≡ copy_fields pb sub m fs (pb.set uint32 to f v)
    unfolding copy_fields
    copy_number v t h e = ap (copy_fields pb sub m fs) (
        if_false _ _ _ t.single
        ∙ if_true _ _ _ h
        ∙ ap (copy_as pb sub m to f) t.typed
        ∙ ap (pb.set uint32 to f) e)

    copy_bytes :
        (v : Bytes)
        → IsSingle pb type_bytes f
        → pb.has_field m f ≡ true
        → pb.get string m f ≡ v
        → copy_fields pb sub m (f ∷ fs) to ≡ copy_fields pb sub m fs (pb.set string to f v)
    unfolding copy_fields
    copy_bytes v t h e = ap (copy_fields pb sub m fs) (
        if_false _ _ _ t.single
        ∙ if_true _ _ _ h
        ∙ ap (copy_as pb sub m to f) t.typed
        ∙ ap (pb.set string to f) e)

    copy_unset :
        pb.is_repeated f ≡ false
        → pb.has_field m f ≡ false
        → copy_fields pb sub m (f ∷ fs) to ≡ copy_fields pb sub m fs to
    unfolding copy_fields
    copy_unset single unset =
        ap (copy_fields pb sub m fs) (if_false _ _ _ single ∙ if_false _ _ _ unset)

  -- The copy of a message that holds a node is filled with the node.
  pub copy-Holds :
      (depth : ℕ) (m to : pb.Message) (node : bip.HdNode)
      → NodeTypes pb n secret
      → Holds pb bip n secret m node
      → copy pb (suc depth) m to ≡ filled pb bip laws shown n secret to node
  unfolding copy copy_fields
  copy-Holds depth m to node t h =
      let sub = copy pb depth in
      let fs1 = n.public_key ∷ [] in
      let fs2 = secret ∷ fs1 in
      let fs3 = n.chain_code ∷ fs2 in
      let fs4 = n.child_num ∷ fs3 in
      let fs5 = n.fingerprint ∷ fs4 in
      let m1 = pb.set uint32 to n.depth (bip.depth node) in
      let m2 = pb.set uint32 m1 n.fingerprint (bip.fingerprint node) in
      let m3 = pb.set uint32 m2 n.child_num (bip.child_num node) in
      let m4 = pb.set string m3 n.chain_code (bip.chain_code node) in
      ap (λ fs. copy_fields pb sub m fs to) h.is_node.shape
      ∙ copy_number sub m to n.depth fs5 _ t.depth h.set_depth h.get_depth
      ∙ copy_number sub m m1 n.fingerprint fs4 _ t.fingerprint h.set_fingerprint h.get_fingerprint
      ∙ copy_number sub m m2 n.child_num fs3 _ t.child_num h.set_child_num h.get_child_num
      ∙ copy_bytes sub m m3 n.chain_code fs2 _ t.chain_code h.set_chain_code h.get_chain_code
      ∙ copy_unset sub m m4 secret fs1 t.private_key.single h.is_node.unset
      ∙ copy_bytes sub m m4 n.public_key [] _ t.public_key h.set_public_key h.get_public_key

  -- Fields that were found under two names.
  pub apart :
      (m : pb.Message) (a b : Bytes) (f f' : pb.Field)
      → pb.find_field m a ≡ some f
      → pb.find_field m b ≡ some f'
      → bytes_eq a b ≡ false
      → pb.field_name f ≢ pb.field_name f'
  apart = names_differ pb bip laws

  pub IsSingle-Known :
      (type : FieldType) (Sub : pb.Message → Type 0) (m : pb.Message) (f : pb.Field)
      → type ≢ type_enum
      → type ≢ type_message
      → IsSingle pb type f
      → KnownField pb Sub m f
  IsSingle-Known type Sub m f enum message t = record {
    enum = λ single e. absurd (enum (sym t.typed ∙ e));
    enums = λ many e i. absurd (enum (sym t.typed ∙ e));
    message = λ single e. absurd (message (sym t.typed ∙ e));
    messages = λ many e i. absurd (message (sym t.typed ∙ e));
  }

  pub NamesDistinct-node :
      (m : pb.Message) → IsNode pb n secret m → NamesDistinct pb (node_fields pb n secret)
  unfolding bytes_eq
  NamesDistinct-node m h =
      let d = h.finds.has_depth in
      let f = h.finds.has_fingerprint in
      let c = h.finds.has_child_num in
      let chain = h.finds.has_chain_code in
      let key = h.finds.has_public_key in
      let s = h.has_private_key in
      (
        (
          apart m _ _ _ _ d f refl,
          (
            apart m _ _ _ _ d c refl,
            (
              apart m _ _ _ _ d chain refl,
              (apart m _ _ _ _ d s refl, (apart m _ _ _ _ d key refl, tt)),
            ),
          ),
        ),
        (
          (
            apart m _ _ _ _ f c refl,
            (
              apart m _ _ _ _ f chain refl,
              (apart m _ _ _ _ f s refl, (apart m _ _ _ _ f key refl, tt)),
            ),
          ),
          (
            (
              apart m _ _ _ _ c chain refl,
              (apart m _ _ _ _ c s refl, (apart m _ _ _ _ c key refl, tt)),
            ),
            (
              (apart m _ _ _ _ chain s refl, (apart m _ _ _ _ chain key refl, tt)),
              ((apart m _ _ _ _ s key refl, tt), (tt, tt)),
            ),
          ),
        ),
      )
