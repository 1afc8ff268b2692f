-- ===== src/Api/Derive.antt =====
-- PluginAPI::derive_child_node (apis.cpp) on the maps of nodes.
use trezor_plugin.Prelude.{ℕ, suc, ◌≡◌, refl, sym, ◌∙◌, List, [], ◌∷◌, codes}
use trezor_plugin.Exceptions.{Outcome, ok, ◌>>=◌}
use trezor_plugin.Libraries.Boost.{Boost}
use trezor_plugin.Libraries.Protobuf.{Protobuf}
use trezor_plugin.Libraries.FireBreath.{Variants}
use trezor_plugin.Libraries.Bip32.{Bip32}
use trezor_plugin.Messages.Names.{create_message}
use trezor_plugin.Messages.Serialize.{VariantMap, message_to_map}
use trezor_plugin.Messages.RoundTrip.{bind-ok}
use trezor_plugin.Messages.HdNode.{message_to_hdnode}
use trezor_plugin.Messages.HdNode.RoundTrip.{
  NodeFields, public_part, from-Finds, message_to_hdnode-message_from_hdnode,
}
use trezor_plugin.Messages.HdNode.Held.{NodeTypes, IsNode, Holds, filled, filled-Holds}
use trezor_plugin.Messages.HdNode.Mapped.{Lawful, message_to_map-Holds, message_from_map-Holds}
use trezor_plugin.Api.{derive_child_node}

module _ (boost : Boost) (pb : Protobuf) (fb : Variants pb) (bip : Bip32) (pool : pb.Pool)
    (depth : ℕ) where
  -- A page that goes down a path: the answer of each call is the argument of the next.
  abbrev pub derive_path : VariantMap boost pb fb → List ℕ → Outcome (VariantMap boost pb fb)
  derive_path node_map [] = ok node_map
  derive_path node_map (index ∷ path) =
      derive_child_node boost pb fb bip pool (suc depth) node_map index >>= λ child.
      derive_path child path

  module _ (laws : Lawful boost pb fb) (n : NodeFields pb) (secret : pb.Field)
      (types : NodeTypes pb n secret) where
    -- trezor-crypto's derivation down a path, of public parts.
    abbrev pub descend : bip.HdNode → List ℕ → bip.HdNode
    descend node [] = node
    descend node (index ∷ path) =
        descend (bip.hdnode_public_ckd (public_part pb bip laws.stores node) index) path

    -- A map that message_to_map made of a message that holds the node.
    pub record Shows (map : VariantMap boost pb fb) (node : bip.HdNode) : Type 0 where
      pub message : pb.Message
      pub holds : Holds pb bip n secret message node
      pub shown : message_to_map boost pb fb (suc depth) message ≡ ok map

    -- What message_to_hdnode reads from a message that was filled with a node.
    to_hdnode-filled :
        (m : pb.Message) (node : bip.HdNode)
        → IsNode pb n secret m
        → message_to_hdnode pb bip (filled pb bip laws.stores laws.presents n secret m node)
          ≡ ok (public_part pb bip laws.stores node)
    to_hdnode-filled m node h =
        sym
          (bind-ok _ _ (message_to_hdnode pb bip) (from-Finds pb bip laws.stores n m node h.finds))
        ∙ message_to_hdnode-message_from_hdnode pb bip laws.stores n m node h.finds

    derive_child_node-Shows :
        (empty : pb.Message) (map : VariantMap boost pb fb) (node : bip.HdNode) (index : ℕ)
        → create_message pb pool (codes "HDNodeType") ≡ ok empty
        → IsNode pb n secret empty
        → Shows map node
        → (child : VariantMap boost pb fb) × (derive_child_node boost pb fb bip pool
              (suc depth)
              map
              index
            ≡ ok child)
          × Shows child (bip.hdnode_public_ckd (public_part pb bip laws.stores node) index)
    unfolding derive_child_node
    derive_child_node-Shows empty map node index c is_node s =
        let public = public_part pb bip laws.stores node in
        let next = bip.hdnode_public_ckd public index in
        let fill = filled pb bip laws.stores laws.presents n secret in
        let held = filled-Holds pb bip laws.stores laws.presents n secret empty node is_node in
        let held' =
          filled-Holds pb bip laws.stores laws.presents n secret (fill empty node) next
            held.is_node in
        let (child, e) =
          message_to_map-Holds boost pb fb bip laws n secret types depth _ next held' in
        (
          child,
          rw
              (
                c,
                message_from_map-Holds boost pb fb bip laws n secret types depth s.message empty
                    node map s.holds is_node s.shown,
                to_hdnode-filled empty node is_node,
                from-Finds pb bip laws.stores n (fill empty node) next held.is_node.finds,
                e,
              )
              refl,
          record { message = fill (fill empty node) next; holds = held'; shown = e },
        )

    -- deriveChildNode, called along a path on the map of a node, succeeds each time, and the last
    -- answer is the map of the node that trezor-crypto derives down the path from the public parts.
    -- The pool knows HDNodeType, whose messages have the six fields of a node, single, and come
    -- without a private key; protobuf, the variants and the hex codec keep what they document.
    pub derive_path-Shows :
        (empty : pb.Message) (path : List ℕ) (map : VariantMap boost pb fb) (node : bip.HdNode)
        → create_message pb pool (codes "HDNodeType") ≡ ok empty
        → IsNode pb n secret empty
        → Shows map node
        → (last : VariantMap boost pb fb) × (derive_path map path ≡ ok last)
          × Shows last (descend node path)
    derive_path-Shows empty [] map node c is_node s = (map, refl, s)
    derive_path-Shows empty (index ∷ path) map node c is_node s =
        let (child, e, s') = derive_child_node-Shows empty map node index c is_node s in
        let (last, e', s'') = derive_path-Shows empty path child _ c is_node s' in
        (last, bind-ok _ child (λ t. derive_path t path) e ∙ e', s'')
