-- ===== src/Messages/HdNode/Mapped.antt =====
-- A message that holds a node, as a map of the page (messages.cpp).
use trezor_plugin.Prelude.{ℕ, suc, ◌≡◌, refl, ap, sym, ◌∙◌, List, [], ◌∷◌, Bytes, All, true, false}
use trezor_plugin.Exceptions.{Outcome, ok}
use trezor_plugin.Libraries.Boost.{Boost}
use trezor_plugin.Libraries.Protobuf.{Protobuf, FieldType, string, type_uint32, type_bytes}
use trezor_plugin.Libraries.FireBreath.{Variants}
use trezor_plugin.Libraries.Bip32.{Bip32}
use trezor_plugin.Utils.Codecs.{hex_encode}
use trezor_plugin.Messages.Serialize.{
  VariantMap, insert, serialize_single_as, field_to_map, fields_to_map, message_to_map,
}
use trezor_plugin.Messages.Parse.{message_from_map}
use trezor_plugin.Messages.RoundTrip.{Converts, Unhexes, bind-ok}
use trezor_plugin.Messages.Copy.{Known, KnownField}
use trezor_plugin.Messages.Copy.Whole.{message_from_map-message_to_map}
use trezor_plugin.Messages.HdNode.RoundTrip.{Stores, NodeFields}
use trezor_plugin.Messages.HdNode.Held.{
  Presents, IsSingle, node_fields, NodeTypes, IsNode, Holds, filled,
}
use trezor_plugin.Messages.HdNode.Copied.{copy-Holds, IsSingle-Known, NamesDistinct-node}

module _ (boost : Boost) (pb : Protobuf) (fb : Variants pb) where
  -- The loop of message_to_map gets past a field, whatever the map was.
  abbrev Passes : (pb.Message → Outcome (VariantMap boost pb fb)) → pb.Message → pb.Field → Type 0
  Passes rec m f =
      (result : VariantMap boost pb fb)
      → (result' : VariantMap boost pb fb) × (field_to_map boost pb fb rec m f result ≡ ok result')

  fields_to_map-Passes :
      (rec : pb.Message → Outcome (VariantMap boost pb fb)) (m : pb.Message) (fs : List pb.Field)
      (result : VariantMap boost pb fb)
      → All (Passes rec m) fs
      → (map : VariantMap boost pb fb) × (fields_to_map boost pb fb rec m fs result ≡ ok map)
  unfolding fields_to_map
  fields_to_map-Passes rec m [] result h = (result, refl)
  fields_to_map-Passes rec m (f ∷ fs) result (h, hs) =
      let (result', e) = h result in
      let (map, e') = fields_to_map-Passes rec m fs result' hs in
      (map, bind-ok _ result' (λ r. fields_to_map boost pb fb rec m fs r) e ∙ e')

  Passes-set :
      (rec : pb.Message → Outcome (VariantMap boost pb fb)) (m : pb.Message) (f : pb.Field)
      (type : FieldType) (v : fb.Variant)
      → IsSingle pb type f
      → pb.has_field m f ≡ true
      → serialize_single_as boost pb fb rec m f type ≡ ok v
      → Passes rec m f
  unfolding field_to_map
  Passes-set rec m f type v t h e result =
      (insert (pb.field_name f) v result, rw (t.single, h, t.typed, e) refl)

  Passes-unset :
      (rec : pb.Message → Outcome (VariantMap boost pb fb)) (m : pb.Message) (f : pb.Field)
      → pb.is_repeated f ≡ false
      → pb.has_field m f ≡ false
      → Passes rec m f
  unfolding field_to_map
  Passes-unset rec m f single unset result = (result, rw (single, unset) refl)

  Passes-number :
      (rec : pb.Message → Outcome (VariantMap boost pb fb)) (m : pb.Message) (f : pb.Field)
      → IsSingle pb type_uint32 f
      → pb.has_field m f ≡ true
      → Passes rec m f
  unfolding serialize_single_as
  Passes-number rec m f t h = Passes-set rec m f type_uint32 _ t h refl

  Passes-bytes :
      ((b : Bytes) → (s : Bytes) × (boost.hex b ≡ ok s))
      → (rec : pb.Message → Outcome (VariantMap boost pb fb)) (m : pb.Message) (f : pb.Field)
      → IsSingle pb type_bytes f
      → pb.has_field m f ≡ true
      → Passes rec m f
  unfolding serialize_single_as hex_encode
  Passes-bytes hexes rec m f t h =
      let (s, e) = hexes (pb.get string m f) in
      Passes-set rec m f type_bytes (fb.of string s) t h (rw e refl)

-- What the libraries document, for messages that go through maps: setters and getters, variants
-- and hexadecimal texts that convert back, and submessages that have the fields of their type.
pub record Lawful (boost : Boost) (pb : Protobuf) (fb : Variants pb) : Type 0 where
  pub stores : Stores pb
  pub presents : Presents pb
  pub converts : Converts pb fb
  pub unhexes : Unhexes boost pb fb
  pub hexes : (b : Bytes) → (s : Bytes) × (boost.hex b ≡ ok s)
  pub mutable_fields :
      (m to : pb.Message) (f : pb.Field)
      → pb.fields (pb.mutable_message to f) ≡ pb.fields (pb.get_message m f)
  pub element_fields :
      (m to : pb.Message) (f : pb.Field) (i : ℕ)
      → pb.fields (pb.new_element to f) ≡ pb.fields (pb.get_repeated_message m f i)

module _ (boost : Boost) (pb : Protobuf) (fb : Variants pb) (bip : Bip32)
    (laws : Lawful boost pb fb) (n : NodeFields pb) (secret : pb.Field)
    (types : NodeTypes pb n secret) where
  -- message_to_map makes a map of a message that holds a node.
  pub message_to_map-Holds :
      (depth : ℕ) (m : pb.Message) (node : bip.HdNode)
      → Holds pb bip n secret m node
      → (map : VariantMap boost pb fb) × (message_to_map boost pb fb (suc depth) m ≡ ok map)
  unfolding message_to_map
  message_to_map-Holds depth m node h =
      let rec = message_to_map boost pb fb depth in
      let number = Passes-number boost pb fb rec m in
      let bytes = Passes-bytes boost pb fb laws.hexes rec m in
      let (map, e) = fields_to_map-Passes boost pb fb rec m (node_fields pb n secret) [] (
        number _ types.depth h.set_depth,
        (
          number _ types.fingerprint h.set_fingerprint,
          (
            number _ types.child_num h.set_child_num,
            (
              bytes _ types.chain_code h.set_chain_code,
              (
                Passes-unset boost pb fb rec m _ types.private_key.single h.is_node.unset,
                (bytes _ types.public_key h.set_public_key, tt),
              ),
            ),
          ),
        ),
      ) in
      (map, ap (λ fs. fields_to_map boost pb fb rec m fs []) h.is_node.shape ∙ e)

  Known-Holds :
      (depth : ℕ) (m : pb.Message) (node : bip.HdNode)
      → Holds pb bip n secret m node
      → Known pb (suc depth) m
  Known-Holds depth m node h =
      let number : (f : pb.Field) → IsSingle pb type_uint32 f → KnownField pb (Known pb depth) m f =
        λ f.
          IsSingle-Known pb bip laws.stores laws.presents n secret type_uint32 _ m f (λ e. cc)
            (λ e. cc) in
      let bytes : (f : pb.Field) → IsSingle pb type_bytes f → KnownField pb (Known pb depth) m f =
        λ f.
          IsSingle-Known pb bip laws.stores laws.presents n secret type_bytes _ m f (λ e. cc)
            (λ e. cc) in
      rw h.is_node.shape (
        NamesDistinct-node pb bip laws.stores laws.presents n secret m h.is_node,
        (
          number _ types.depth,
          (
            number _ types.fingerprint,
            (
              number _ types.child_num,
              (
                bytes _ types.chain_code,
                (bytes _ types.private_key, (bytes _ types.public_key, tt)),
              ),
            ),
          ),
        ),
      )

  -- The map of a message that holds a node fills another message of the type with the node.
  pub message_from_map-Holds :
      (depth : ℕ) (m to : pb.Message) (node : bip.HdNode) (map : VariantMap boost pb fb)
      → Holds pb bip n secret m node
      → IsNode pb n secret to
      → message_to_map boost pb fb (suc depth) m ≡ ok map
      → message_from_map boost pb fb (suc depth) to map
        ≡ ok (filled pb bip laws.stores laws.presents n secret to node)
  message_from_map-Holds depth m to node map h empty e =
      message_from_map-message_to_map boost pb fb laws.converts laws.unhexes laws.mutable_fields
        laws.element_fields (suc depth) m to map (Known-Holds depth m node h)
        (empty.shape ∙ sym h.is_node.shape) e
      ∙ ap ok (copy-Holds pb bip laws.stores laws.presents n secret depth m to node types h)
