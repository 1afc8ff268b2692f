-- ===== src/Messages/HdNode/Held.antt =====
-- A message of the type HDNodeType that holds a node: the way through a page's map and back
-- (messages.cpp).
use trezor_plugin.Prelude.{◌≡◌, ◌≢◌, refl, ◌∙◌, true, false, some, List, [], ◌∷◌, Bytes, codes}
use trezor_plugin.Prelude.Tests.{bytes_eq}
use trezor_plugin.Libraries.Protobuf.{
  Protobuf, FieldType, Scalar, Carrier, uint32, string, type_uint32, type_bytes,
}
use trezor_plugin.Libraries.Bip32.{Bip32}
use trezor_plugin.Messages.HdNode.{set_node}
use trezor_plugin.Messages.HdNode.RoundTrip.{
  Stores, NodeFields, Finds, Finds-set, names_differ, get-set_node,
}

-- More of what protobuf documents of its setters: the field is set, a set field stays set, one that
-- is not set stays so, and a message has the fields of its type.
pub record Presents (pb : Protobuf) : Type 0 where
  pub has_field-set :
      (s : Scalar) (m : pb.Message) (f : pb.Field) (v : Carrier pb.Double pb.Float s)
      → pb.has_field (pb.set s m f v) f ≡ true
  pub has_field_kept :
      (s : Scalar) (m : pb.Message) (f f' : pb.Field) (v : Carrier pb.Double pb.Float s)
      → pb.has_field m f ≡ true
      → pb.has_field (pb.set s m f' v) f ≡ true
  pub has_field_other :
      (s : Scalar) (m : pb.Message) (f f' : pb.Field) (v : Carrier pb.Double pb.Float s)
      → pb.field_name f ≢ pb.field_name f'
      → pb.has_field (pb.set s m f' v) f ≡ pb.has_field m f
  pub fields-set :
      (s : Scalar) (m : pb.Message) (f : pb.Field) (v : Carrier pb.Double pb.Float s)
      → pb.fields (pb.set s m f v) ≡ pb.fields m

-- A field of a node is single.
pub record IsSingle (pb : Protobuf) (type : FieldType) (f : pb.Field) : Type 0 where
  pub typed : pb.field_type f ≡ type
  pub single : pb.is_repeated f ≡ false

-- The six fields of HDNodeType, of which the plugin leaves `private_key` alone.
abbrev pub node_fields : (pb : Protobuf) → NodeFields pb → pb.Field → List pb.Field
node_fields pb n private_key =
    n.depth ∷ n.fingerprint ∷ n.child_num ∷ n.chain_code ∷ private_key ∷ n.public_key ∷ []

pub record NodeTypes (pb : Protobuf) (n : NodeFields pb) (secret : pb.Field) : Type 0 where
  pub depth : IsSingle pb type_uint32 n.depth
  pub fingerprint : IsSingle pb type_uint32 n.fingerprint
  pub child_num : IsSingle pb type_uint32 n.child_num
  pub chain_code : IsSingle pb type_bytes n.chain_code
  pub private_key : IsSingle pb type_bytes secret
  pub public_key : IsSingle pb type_bytes n.public_key

-- A message of that type, without a private key.
pub record IsNode (pb : Protobuf) (n : NodeFields pb) (secret : pb.Field) (m : pb.Message)
    : Type 0 where
  pub finds : Finds pb n m
  pub has_private_key : pb.find_field m (codes "private_key") ≡ some secret
  pub shape : pb.fields m ≡ node_fields pb n secret
  pub unset : pb.has_field m secret ≡ false

-- The message holds the node: its public fields are set, to the node's parts.
pub record Holds (pb : Protobuf) (bip : Bip32) (n : NodeFields pb) (secret : pb.Field)
    (m : pb.Message) (node : bip.HdNode) : Type 0 where
  pub is_node : IsNode pb n secret m
  pub set_depth : pb.has_field m n.depth ≡ true
  pub set_fingerprint : pb.has_field m n.fingerprint ≡ true
  pub set_child_num : pb.has_field m n.child_num ≡ true
  pub set_chain_code : pb.has_field m n.chain_code ≡ true
  pub set_public_key : pb.has_field m n.public_key ≡ true
  pub get_depth : pb.get uint32 m n.depth ≡ bip.depth node
  pub get_fingerprint : pb.get uint32 m n.fingerprint ≡ bip.fingerprint node
  pub get_child_num : pb.get uint32 m n.child_num ≡ bip.child_num node
  pub get_chain_code : pb.get string m n.chain_code ≡ bip.chain_code node
  pub get_public_key : pb.get string m n.public_key ≡ bip.public_key node

module _ (pb : Protobuf) (bip : Bip32) (laws : Stores pb) (shown : Presents pb) (n : NodeFields pb)
    (secret : pb.Field) where
  abbrev pub filled : pb.Message → bip.HdNode → pb.Message
  filled m node = set_node pb bip m node n.depth n.fingerprint n.child_num n.chain_code n.public_key

  -- A setter of another field than the private key.
  IsNode-set :
      (s : Scalar) (m : pb.Message) (f : pb.Field) (v : Carrier pb.Double pb.Float s) (name : Bytes)
      → IsNode pb n secret m
      → pb.find_field m name ≡ some f
      → bytes_eq (codes "private_key") name ≡ false
      → IsNode pb n secret (pb.set s m f v)
  IsNode-set s m f v name h e ne = record {
    finds = Finds-set pb bip laws n s m f v h.finds;
    has_private_key = laws.find_field-set s m f v _ ∙ h.has_private_key;
    shape = shown.fields-set s m f v ∙ h.shape;
    unset =
        shown.has_field_other s m secret f v
          (names_differ pb bip laws m _ name secret f h.has_private_key e ne)
        ∙ h.unset;
  }

  pub IsNode-filled :
      (m : pb.Message) (node : bip.HdNode)
      → IsNode pb n secret m
      → IsNode pb n secret (filled m node)
  unfolding bytes_eq
  IsNode-filled m node h =
      let m1 = pb.set uint32 m n.depth (bip.depth node) in
      let h1 = IsNode-set uint32 m _ (bip.depth node) _ h h.finds.has_depth refl in
      let m2 = pb.set uint32 m1 n.fingerprint (bip.fingerprint node) in
      let h2 = IsNode-set uint32 m1 _ (bip.fingerprint node) _ h1 h1.finds.has_fingerprint refl in
      let m3 = pb.set uint32 m2 n.child_num (bip.child_num node) in
      let h3 = IsNode-set uint32 m2 _ (bip.child_num node) _ h2 h2.finds.has_child_num refl in
      let m4 = pb.set string m3 n.chain_code (bip.chain_code node) in
      let h4 = IsNode-set string m3 _ (bip.chain_code node) _ h3 h3.finds.has_chain_code refl in
      IsNode-set string m4 _ (bip.public_key node) _ h4 h4.finds.has_public_key refl

  -- message_from_hdnode on a message of the type makes one that holds the node.
  pub filled-Holds :
      (m : pb.Message) (node : bip.HdNode)
      → IsNode pb n secret m
      → Holds pb bip n secret (filled m node) node
  filled-Holds m node h =
      let (d, f, c, chain, key) = get-set_node pb bip laws n m node h.finds in
      let kept = shown.has_field_kept in
      record {
        is_node = IsNode-filled m node h;
        set_depth = kept string _ _ _ _ (
            kept string _ _ _ _
              (kept uint32 _ _ _ _ (kept uint32 _ _ _ _ (shown.has_field-set uint32 _ _ _))));
        set_fingerprint =
            kept string _ _ _ _
              (kept string _ _ _ _ (kept uint32 _ _ _ _ (shown.has_field-set uint32 _ _ _)));
        set_child_num =
            kept string _ _ _ _ (kept string _ _ _ _ (shown.has_field-set uint32 _ _ _));
        set_chain_code = kept string _ _ _ _ (shown.has_field-set string _ _ _);
        set_public_key = shown.has_field-set string _ _ _;
        get_depth = d;
        get_fingerprint = f;
        get_child_num = c;
        get_chain_code = chain;
        get_public_key = key;
      }
