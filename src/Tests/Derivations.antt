-- ===== src/Tests/Derivations.antt =====
-- A page that derives nodes.
use trezor_plugin.Prelude.{
  ◌≡◌, ◌≢◌, refl, ap, sym, ◌∙◌, Bool, true, List, [], ◌∷◌, Bytes, codes, if_true, if_false,
  Bool-cases, inl, inr,
}
use trezor_plugin.Prelude.Int.{pos}
use trezor_plugin.Prelude.Tests.{bytes_eq, bytes_eq_refl, bytes_eq→eq}
use trezor_plugin.Exceptions.{ok}
use trezor_plugin.Libraries.Protobuf.{Scalar, Carrier, uint32, string}
use trezor_plugin.Libraries.FireBreath.{Variants}
use trezor_plugin.Messages.Names.{create_message, message_descriptor}
use trezor_plugin.Messages.Serialize.{
  VariantMap, message_to_map, fields_to_map, field_to_map, serialize_single_as, insert,
}
use trezor_plugin.Messages.HdNode.Held.{Presents, NodeTypes, IsNode, filled, filled-Holds}
use trezor_plugin.Messages.HdNode.Mapped.{Lawful}
use trezor_plugin.Api.Derive.{derive_path, descend, Shows, derive_path-Shows}
use trezor_plugin.Tests.{plain_boost}
use trezor_plugin.Tests.Variants.{Value, values, values-Converts}
use trezor_plugin.Tests.Nodes.{
  Cell, Table, put_cell, tables, tables-Stores, keys, names, node, empty,
}

abbrev table_values : Variants tables
table_values = record {
  Variant = Value;
  of = values.of;
  of_list = values.of_list;
  of_map = values.of_map;
  cast = values.cast;
  cast_list = values.cast_list;
  cast_map = values.cast_map;
}

has_field_kept_lem :
    (s : Scalar) (m : Table) (f f' : Bytes) (v : Carrier Bool Bool s)
    → (m f).present ≡ true
    → (put_cell s m f' v f).present ≡ true
has_field_kept_lem s m f f' v h = elim (Bool-cases (bytes_eq f f')) [
  | inl e ↦ ap (λ (c : Cell). c.present) (if_true _ _ _ e)
  | inr e ↦ ap (λ (c : Cell). c.present) (if_false _ _ _ e) ∙ h
]

has_field_other_lem :
    (s : Scalar) (m : Table) (f f' : Bytes) (v : Carrier Bool Bool s)
    → f ≢ f'
    → (put_cell s m f' v f).present ≡ (m f).present
has_field_other_lem s m f f' v ne = elim (Bool-cases (bytes_eq f f')) [
  | inl e ↦ absurd (ne (bytes_eq→eq f f' e))
  | inr e ↦ ap (λ (c : Cell). c.present) (if_false _ _ _ e)
]

tables-Presents : Presents tables
tables-Presents = record {
  has_field-set = λ s m f v. ap (λ (c : Cell). c.present) (if_true _ _ _ (bytes_eq_refl f));
  has_field_kept = has_field_kept_lem;
  has_field_other = has_field_other_lem;
  fields-set = λ s m f v. refl;
}

tables-Lawful : Lawful plain_boost tables table_values
tables-Lawful = record {
  stores = tables-Stores;
  presents = tables-Presents;
  converts = record {
    cast-of = values-Converts.cast-of;
    cast_list-of_list = values-Converts.cast_list-of_list;
    cast_map-of_map = values-Converts.cast_map-of_map;
  };
  unhexes = λ b s e. sym e;
  hexes = λ b. (b, refl);
  mutable_fields = λ m to f. refl;
  element_fields = λ m to f i. refl;
}

names-NodeTypes : NodeTypes tables names (codes "private_key")
unfolding bytes_eq
names-NodeTypes = record {
  depth = record { typed = refl; single = refl };
  fingerprint = record { typed = refl; single = refl };
  child_num = record { typed = refl; single = refl };
  chain_code = record { typed = refl; single = refl };
  private_key = record { typed = refl; single = refl };
  public_key = record { typed = refl; single = refl };
}

empty-IsNode : IsNode tables names (codes "private_key") empty
empty-IsNode = record {
  finds = record {
    has_depth = refl;
    has_fingerprint = refl;
    has_child_num = refl;
    has_chain_code = refl;
    has_public_key = refl;
  };
  has_private_key = refl;
  shape = refl;
  unset = refl;
}

-- The node's map, as a page has it.
abbrev node_map : List (Bytes × Value)
node_map =
    (codes "depth", table_values.of uint32 (pos 1))
    ∷ (codes "fingerprint", table_values.of uint32 (pos 2))
    ∷ (codes "child_num", table_values.of uint32 (pos 3))
    ∷ (codes "chain_code", table_values.of string (codes "c"))
    ∷ (codes "public_key", table_values.of string (codes "k"))
    ∷ []

node_map-Shows :
    Shows plain_boost tables table_values keys 0 0 tables-Lawful names
      (codes "private_key")
      names-NodeTypes
      node_map
      node
unfolding message_to_map fields_to_map field_to_map serialize_single_as insert bytes_eq
node_map-Shows = record {
  message = filled tables keys tables-Stores tables-Presents names (codes "private_key") empty node;
  holds =
      filled-Holds tables keys tables-Stores tables-Presents names (codes "private_key") empty node
        empty-IsNode;
  shown = refl;
}

derive_path-Shows_example :
    (last : VariantMap plain_boost tables table_values) × (derive_path plain_boost tables
        table_values keys 0 0 node_map
        (5 ∷ 7 ∷ [])
      ≡ ok last)
    × Shows plain_boost tables table_values keys 0 0 tables-Lawful names
        (codes "private_key")
        names-NodeTypes
        last
        (descend plain_boost tables table_values keys 0 0 tables-Lawful names
          (codes "private_key")
          names-NodeTypes
          node
          (5 ∷ 7 ∷ []))
unfolding create_message message_descriptor
derive_path-Shows_example =
    derive_path-Shows plain_boost tables table_values keys 0 0 tables-Lawful names
      (codes "private_key") names-NodeTypes empty (5 ∷ 7 ∷ []) node_map node refl empty-IsNode
      node_map-Shows
