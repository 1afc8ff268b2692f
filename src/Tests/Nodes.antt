-- ===== src/Tests/Nodes.antt =====
-- Messages as tables of cells, and a BIP32 node in one of them.
use trezor_plugin.Prelude.{
  ℕ, ◌≡◌, ◌≢◌, refl, ap, sym, ◌∙◌, Bool, true, false, some, [], ◌∷◌, Bytes, codes, bytes_eq→eq,
  bytes_eq_refl, if◌then◌else◌, if_true, if_false, Bool-cases, inl, inr,
}
use mathlib.Core.Option.{some-injective}
use trezor_plugin.Prelude.Int.{ℤ, pos}
use trezor_plugin.Prelude.Tests.{bytes_eq}
use trezor_plugin.Libraries.Protobuf.{
  Protobuf, Scalar, Carrier, double, float, int64, uint64, int32, uint32, boolean, string,
  type_uint32, type_bytes,
}
use trezor_plugin.Libraries.Bip32.{Bip32}
use trezor_plugin.Messages.HdNode.RoundTrip.{Stores, NodeFields}
use trezor_plugin.Tests.{ping}

pub record Cell : Type 0 where
  number : ℤ
  text : Bytes
  flag : Bool
  pub present : Bool

abbrev pub Table : Type 0
Table = Bytes → Cell

abbrev pub empty : Table
empty f = record { number = pos 0; text = []; flag = false; present = false }

abbrev read_cell : (s : Scalar) → Cell → Carrier Bool Bool s
read_cell double c = c.flag
read_cell float c = c.flag
read_cell int64 c = c.number
read_cell uint64 c = c.number
read_cell int32 c = c.number
read_cell uint32 c = c.number
read_cell boolean c = c.flag
read_cell string c = c.text

abbrev write_cell : (s : Scalar) → Carrier Bool Bool s → Cell → Cell
write_cell double v c = record c { flag = v }
write_cell float v c = record c { flag = v }
write_cell int64 v c = record c { number = v }
write_cell uint64 v c = record c { number = v }
write_cell int32 v c = record c { number = v }
write_cell uint32 v c = record c { number = v }
write_cell boolean v c = record c { flag = v }
write_cell string v c = record c { text = v }

abbrev present_cell : Cell → Cell
present_cell c = record c { present = true }

abbrev pub put_cell : (s : Scalar) → Table → Bytes → Carrier Bool Bool s → Table
put_cell s m f v g = if bytes_eq g f then present_cell (write_cell s v (m g)) else m g

-- The fields of a node that are numbers.
abbrev is_number : Bytes → Bool
is_number f =
    if bytes_eq f (codes "depth")
    then true
    else if bytes_eq f (codes "fingerprint")
    then true
    else bytes_eq f (codes "child_num")

abbrev pub tables : Protobuf
tables = record {
  Pool = ℕ;
  FileDescriptor = Bytes;
  Descriptor = Bytes;
  EnumDescriptor = Unit {0};
  Field = Bytes;
  Message = Table;
  Double = Bool;
  Float = Bool;
  build_file = λ pool file. pool;
  find_message_type = λ pool name. some name;
  find_enum_type = λ pool name. some tt;
  value_by_number = λ ed n. some ping;
  value_by_name = λ ed name. some ping;
  new_message = λ name. empty;
  type_name = λ m. codes "HDNodeType";
  byte_size = λ m. 0;
  serialize = λ m n. [];
  parse = λ m bytes. m;
  fields = λ m.
      codes "depth"
      ∷ codes "fingerprint"
      ∷ codes "child_num"
      ∷ codes "chain_code"
      ∷ codes "private_key"
      ∷ codes "public_key"
      ∷ [];
  find_field = λ m name. some name;
  field_name = λ f. f;
  full_name = λ f. f;
  field_type = λ f. if is_number f then type_uint32 else type_bytes;
  is_repeated = λ f. false;
  enum_type = λ f. tt;
  has_field = λ m f. (m f).present;
  field_size = λ m f. 0;
  get = λ s m f. read_cell s (m f);
  get_repeated = λ s m f i. read_cell s (m f);
  set = put_cell;
  add = put_cell;
  get_enum = λ m f. ping;
  get_repeated_enum = λ m f i. ping;
  set_enum = λ m f v. m;
  add_enum = λ m f v. m;
  get_message = λ m f. m;
  get_repeated_message = λ m f i. m;
  mutable_message = λ m f. m;
  set_message = λ m f sub. m;
  new_element = λ m f. m;
  add_message = λ m f sub. m;
}

read-write :
    (s : Scalar) (v : Carrier Bool Bool s) (c : Cell)
    → read_cell s (present_cell (write_cell s v c)) ≡ v
read-write double v c = refl
read-write float v c = refl
read-write int64 v c = refl
read-write uint64 v c = refl
read-write int32 v c = refl
read-write uint32 v c = refl
read-write boolean v c = refl
read-write string v c = refl

put_cell_elsewhere :
    (s s' : Scalar) (m : Table) (f f' : Bytes) (v : Carrier Bool Bool s')
    → f ≢ f'
    → read_cell s (put_cell s' m f' v f) ≡ read_cell s (m f)
put_cell_elsewhere s s' m f f' v ne = elim (Bool-cases (bytes_eq f f')) [
  | inl e ↦ absurd (ne (bytes_eq→eq f f' e))
  | inr e ↦ ap (read_cell s) (if_false _ _ _ e)
]

pub tables-Stores : Stores tables
tables-Stores = record {
  get-set = λ s m f v. ap (read_cell s) (if_true _ _ _ (bytes_eq_refl f)) ∙ read-write s v (m f);
  get_other = put_cell_elsewhere;
  find_field-set = λ s m f v name. refl;
  field_name-find_field = λ m name f e. sym (some-injective name f e);
}

pub record Node : Type 0 where
  level : ℤ
  parent : ℤ
  place : ℤ
  chain : Bytes
  key : Bytes

abbrev pub keys : Bip32
keys = record {
  HdNode = Node;
  hdnode_from_xpub =
      λ d f c chain key. record { level = d; parent = f; place = c; chain = chain; key = key };
  hdnode_public_ckd = λ node i. record node { parent = node.place; place = pos i };
  depth = λ node. node.level;
  fingerprint = λ node. node.parent;
  child_num = λ node. node.place;
  chain_code = λ node. node.chain;
  public_key = λ node. node.key;
}

abbrev pub names : NodeFields tables
names = record {
  depth = codes "depth";
  fingerprint = codes "fingerprint";
  child_num = codes "child_num";
  chain_code = codes "chain_code";
  public_key = codes "public_key";
}

abbrev pub node : Node
node = record { level = pos 1; parent = pos 2; place = pos 3; chain = codes "c"; key = codes "k" }
