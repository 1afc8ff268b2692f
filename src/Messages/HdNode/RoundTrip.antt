-- ===== src/Messages/HdNode/RoundTrip.antt =====
-- message_from_hdnode, and message_to_hdnode behind it (messages.cpp).
use trezor_plugin.Prelude.{
  ◌≡◌, ◌≢◌, refl, ap, sym, ◌∙◌, some, Bytes, codes, bytes_eq_refl, elim_some, true, false,
}
use trezor_plugin.Prelude.Tests.{bytes_eq}
use trezor_plugin.Exceptions.{ok, ◌>>=◌}
use trezor_plugin.Libraries.Protobuf.{Protobuf, Scalar, Carrier, uint32, string}
use trezor_plugin.Libraries.Bip32.{Bip32}
use trezor_plugin.Messages.HdNode.{field_or_throw, message_to_hdnode, set_node, message_from_hdnode}

-- What protobuf documents of PB::Reflection: a getter gives what was set in the field, setting one
-- field leaves the others, the fields of a message stay, and a field is found by its own name.
pub record Stores (pb : Protobuf) : Type 0 where
  pub get-set :
      (s : Scalar) (m : pb.Message) (f : pb.Field) (v : Carrier pb.Double pb.Float s)
      → pb.get s (pb.set s m f v) f ≡ v
  pub get_other :
      (s s' : Scalar) (m : pb.Message) (f f' : pb.Field) (v : Carrier pb.Double pb.Float s')
      → pb.field_name f ≢ pb.field_name f'
      → pb.get s (pb.set s' m f' v) f ≡ pb.get s m f
  pub find_field-set :
      (s : Scalar) (m : pb.Message) (f : pb.Field) (v : Carrier pb.Double pb.Float s) (name : Bytes)
      → pb.find_field (pb.set s m f v) name ≡ pb.find_field m name
  pub field_name-find_field :
      (m : pb.Message) (name : Bytes) (f : pb.Field)
      → pb.find_field m name ≡ some f
      → pb.field_name f ≡ name

-- The fields of a node.
pub record NodeFields (pb : Protobuf) : Type 0 where
  pub depth : pb.Field
  pub fingerprint : pb.Field
  pub child_num : pb.Field
  pub chain_code : pb.Field
  pub public_key : pb.Field

-- A message has them, as one of the type HDNodeType does.
pub record Finds (pb : Protobuf) (n : NodeFields pb) (m : pb.Message) : Type 0 where
  pub has_depth : pb.find_field m (codes "depth") ≡ some n.depth
  pub has_fingerprint : pb.find_field m (codes "fingerprint") ≡ some n.fingerprint
  pub has_child_num : pb.find_field m (codes "child_num") ≡ some n.child_num
  pub has_chain_code : pb.find_field m (codes "chain_code") ≡ some n.chain_code
  pub has_public_key : pb.find_field m (codes "public_key") ≡ some n.public_key

module _ (pb : Protobuf) (bip : Bip32) (laws : Stores pb) where
  -- The node that trezor-crypto makes of the public parts of a node.
  abbrev pub public_part : bip.HdNode → bip.HdNode
  public_part node =
      bip.hdnode_from_xpub (bip.depth node) (bip.fingerprint node) (bip.child_num node)
        (bip.chain_code node) (bip.public_key node)

  -- Fields that were found by different names have different names.
  pub names_differ :
      (m : pb.Message) (a b : Bytes) (f f' : pb.Field)
      → pb.find_field m a ≡ some f
      → pb.find_field m b ≡ some f'
      → bytes_eq a b ≡ false
      → pb.field_name f ≢ pb.field_name f'
  names_differ m a b f f' e e' ne same =
      let names : a ≡ b =
        sym (laws.field_name-find_field m a f e) ∙ same ∙ laws.field_name-find_field m b f' e' in
      let clash : true ≡ false = sym (bytes_eq_refl b) ∙ ap (λ t. bytes_eq t b) (sym names) ∙ ne in
      absurd cc

  field_or_throw-ok :
      (m : pb.Message) (name : Bytes) (f : pb.Field)
      → pb.find_field m name ≡ some f
      → field_or_throw pb bip m name ≡ ok f
  unfolding field_or_throw
  field_or_throw-ok m name f e = elim_some _ f _ _ e

  pub from-Finds :
      (n : NodeFields pb) (m : pb.Message) (node : bip.HdNode) (h : Finds pb n m)
      → message_from_hdnode pb bip m node
        ≡ ok (set_node pb bip m node n.depth n.fingerprint n.child_num n.chain_code n.public_key)
  unfolding message_from_hdnode
  from-Finds n m node h =
      rw
        (
          field_or_throw-ok m _ _ h.has_depth,
          field_or_throw-ok m _ _ h.has_fingerprint,
          field_or_throw-ok m _ _ h.has_child_num,
          field_or_throw-ok m _ _ h.has_chain_code,
          field_or_throw-ok m _ _ h.has_public_key,
        )
        refl

  pub to-Finds :
      (n : NodeFields pb) (m : pb.Message) (h : Finds pb n m)
      → message_to_hdnode pb bip m
        ≡ ok (
            bip.hdnode_from_xpub
              (pb.get uint32 m n.depth)
              (pb.get uint32 m n.fingerprint)
              (pb.get uint32 m n.child_num)
              (pb.get string m n.chain_code)
              (pb.get string m n.public_key))
  unfolding message_to_hdnode
  to-Finds n m h =
      rw
        (
          field_or_throw-ok m _ _ h.has_depth,
          field_or_throw-ok m _ _ h.has_fingerprint,
          field_or_throw-ok m _ _ h.has_child_num,
          field_or_throw-ok m _ _ h.has_chain_code,
          field_or_throw-ok m _ _ h.has_public_key,
        )
        refl

  -- A setter of a message with the fields of a node.
  pub Finds-set :
      (n : NodeFields pb) (s : Scalar) (m : pb.Message) (f : pb.Field)
      (v : Carrier pb.Double pb.Float s)
      → Finds pb n m
      → Finds pb n (pb.set s m f v)
  Finds-set n s m f v h = record {
    has_depth = laws.find_field-set s m f v _ ∙ h.has_depth;
    has_fingerprint = laws.find_field-set s m f v _ ∙ h.has_fingerprint;
    has_child_num = laws.find_field-set s m f v _ ∙ h.has_child_num;
    has_chain_code = laws.find_field-set s m f v _ ∙ h.has_chain_code;
    has_public_key = laws.find_field-set s m f v _ ∙ h.has_public_key;
  }

  pub Finds-set_node :
      (n : NodeFields pb) (m : pb.Message) (node : bip.HdNode) (h : Finds pb n m)
      → Finds pb n
          (set_node pb bip m node n.depth n.fingerprint n.child_num n.chain_code n.public_key)
  Finds-set_node n m node h = Finds-set n string _ _ _ (
      Finds-set n string _ _ _
        (Finds-set n uint32 _ _ _ (Finds-set n uint32 _ _ _ (Finds-set n uint32 _ _ _ h))))

  -- What the five getters read behind the five setters.
  pub get-set_node :
      (n : NodeFields pb) (m : pb.Message) (node : bip.HdNode) (h : Finds pb n m)
      → let m' =
          set_node pb bip m node n.depth n.fingerprint n.child_num n.chain_code n.public_key in
        (pb.get uint32 m' n.depth ≡ bip.depth node)
        × (pb.get uint32 m' n.fingerprint ≡ bip.fingerprint node)
        × (pb.get uint32 m' n.child_num ≡ bip.child_num node)
        × (pb.get string m' n.chain_code ≡ bip.chain_code node)
        × (pb.get string m' n.public_key ≡ bip.public_key node)
  unfolding bytes_eq
  get-set_node n m node h =
      let apart = names_differ m in
      let m1 = pb.set uint32 m n.depth (bip.depth node) in
      let m2 = pb.set uint32 m1 n.fingerprint (bip.fingerprint node) in
      let m3 = pb.set uint32 m2 n.child_num (bip.child_num node) in
      let m4 = pb.set string m3 n.chain_code (bip.chain_code node) in
      (
        laws.get_other uint32 string m4 n.depth n.public_key (bip.public_key node)
              (apart _ _ _ _ h.has_depth h.has_public_key refl)
            ∙ laws.get_other uint32 string m3 n.depth n.chain_code (bip.chain_code node)
                (apart _ _ _ _ h.has_depth h.has_chain_code refl)
            ∙ laws.get_other uint32 uint32 m2 n.depth n.child_num (bip.child_num node)
                (apart _ _ _ _ h.has_depth h.has_child_num refl)
            ∙ laws.get_other uint32 uint32 m1 n.depth n.fingerprint (bip.fingerprint node)
                (apart _ _ _ _ h.has_depth h.has_fingerprint refl)
            ∙ laws.get-set uint32 m n.depth (bip.depth node),
        laws.get_other uint32 string m4 n.fingerprint n.public_key (bip.public_key node)
              (apart _ _ _ _ h.has_fingerprint h.has_public_key refl)
            ∙ laws.get_other uint32 string m3 n.fingerprint n.chain_code (bip.chain_code node)
                (apart _ _ _ _ h.has_fingerprint h.has_chain_code refl)
            ∙ laws.get_other uint32 uint32 m2 n.fingerprint n.child_num (bip.child_num node)
                (apart _ _ _ _ h.has_fingerprint h.has_child_num refl)
            ∙ laws.get-set uint32 m1 n.fingerprint (bip.fingerprint node),
        laws.get_other uint32 string m4 n.child_num n.public_key (bip.public_key node)
              (apart _ _ _ _ h.has_child_num h.has_public_key refl)
            ∙ laws.get_other uint32 string m3 n.child_num n.chain_code (bip.chain_code node)
                (apart _ _ _ _ h.has_child_num h.has_chain_code refl)
            ∙ laws.get-set uint32 m2 n.child_num (bip.child_num node),
        laws.get_other string string m4 n.chain_code n.public_key (bip.public_key node)
              (apart _ _ _ _ h.has_chain_code h.has_public_key refl)
            ∙ laws.get-set string m3 n.chain_code (bip.chain_code node),
        laws.get-set string m4 n.public_key (bip.public_key node),
      )

  -- A node that message_from_hdnode puts into a message with the fields of a node, and that
  -- message_to_hdnode reads from there, is its public part: depth, fingerprint, child number, chain
  -- code and public key are as they were.
  pub message_to_hdnode-message_from_hdnode :
      (n : NodeFields pb) (m : pb.Message) (node : bip.HdNode)
      → Finds pb n m
      → (message_from_hdnode pb bip m node >>= message_to_hdnode pb bip) ≡ ok (public_part node)
  message_to_hdnode-message_from_hdnode n m node h =
      let (d, f, c, chain, key) = get-set_node n m node h in
      rw (from-Finds n m node h)
        (to-Finds n _ (Finds-set_node n m node h) ∙ rw (d, f, c, chain, key) refl)
