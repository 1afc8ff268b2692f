-- ===== src/Tests.antt =====
-- Concrete libraries, devices and messages, and the theorems at work on them.
pub mod Devices
pub mod Frames
pub mod Calls
pub mod Plugin
pub mod Variants
pub mod Api
pub mod World
pub mod Nodes
pub mod Derivations
pub mod Copies
pub mod Configurations
pub mod Attributes
use trezor_plugin.Prelude.{
  ℕ, ◌+◌, ◌≡◌, refl, ap, Bool, true, false, Option, none, some, List, [], ◌∷◌, Bytes, codes, length,
  take, bytes_eq, ◌==◌, if◌then◌else◌,
}
use trezor_plugin.Prelude.Int.{ℤ, pos}
use trezor_plugin.Exceptions.{Outcome, ok}
use trezor_plugin.Libraries.Boost.{Boost}
use trezor_plugin.Libraries.Protobuf.{
  EnumValue, FieldType, type_string, Scalar, Carrier, double, float, int64, uint64, int32, uint32,
  boolean, string, Protobuf,
}
use trezor_plugin.Devices.State.{HidRead, received, nothing, ReadStep, Wire, Io, new_buffer}

-- Library functions that leave texts as they are; a pattern matches itself.
abbrev pub plain_boost : Boost
plain_boost = record {
  lexical_cast = λ n. n ∷ [];
  hex = λ b. ok b;
  unhex = λ s. ok s;
  regex_match = λ location pattern. ok (bytes_eq location pattern);
  wstring_to_utf8 = λ s. s;
  utf8_to_wstring = λ s. s;
}

abbrev pub ping : EnumValue
ping = record { name = codes "MessageType_Ping"; number = pos 1 }

-- A message is its type's name and its bytes, which every string field reads.
abbrev pub Note : Type 0
Note = Bytes × Bytes

abbrev pub get_note : (s : Scalar) → Note → Carrier Bool Bool s
get_note double m = true
get_note float m = true
get_note int64 m = pos (length m.1)
get_note uint64 m = pos (length m.1)
get_note int32 m = pos (length m.1)
get_note uint32 m = pos (length m.1)
get_note boolean m = true
get_note string m = m.1

abbrev pub set_note : (s : Scalar) → Note → Carrier Bool Bool s → Note
set_note string m v = (m.0, v)
set_note _ m v = m

-- Protobuf with one enum value, and message types of every name. A field is its type and whether
-- it is repeated.
abbrev pub notes : Protobuf
notes = record {
  Pool = ℕ;
  FileDescriptor = Bytes;
  Descriptor = Bytes;
  EnumDescriptor = Unit {0};
  Field = FieldType × Bool;
  Message = Note;
  Double = Bool;
  Float = Bool;
  build_file = λ pool file. pool + 1;
  find_message_type = λ pool name. some name;
  find_enum_type = λ pool name. some tt;
  value_by_number = λ ed n. if n == 1 then some ping else none;
  value_by_name = λ ed name. if bytes_eq name (codes "MessageType_Ping") then some ping else none;
  new_message = λ name. (name, []);
  type_name = λ m. m.0;
  byte_size = λ m. length m.1;
  serialize = λ m n. take n m.1;
  parse = λ m bytes. (m.0, bytes);
  fields = λ m. (type_string, false) ∷ [];
  find_field = λ m name. some (type_string, false);
  field_name = λ f. codes "text";
  full_name = λ f. codes "Ping.text";
  field_type = λ f. f.0;
  is_repeated = λ f. f.1;
  enum_type = λ f. tt;
  has_field = λ m f. true;
  field_size = λ m f. 2;
  get = λ s m f. get_note s m;
  get_repeated = λ s m f i. get_note s m;
  set = λ s m f v. set_note s m v;
  add = λ s m f v. set_note s m v;
  get_enum = λ m f. ping;
  get_repeated_enum = λ m f i. ping;
  set_enum = λ m f v. m;
  add_enum = λ m f v. m;
  get_message = λ m f. m;
  get_repeated_message = λ m f i. m;
  mutable_message = λ m f. m;
  set_message = λ m f sub. sub;
  new_element = λ m f. (m.0, []);
  add_message = λ m f sub. sub;
}

abbrev pub hello : Note
hello = (codes "Ping", codes "hello")

-- A report with these bytes at once.
abbrev pub arriving : Bytes → ReadStep
arriving others = record { answer = received 63 others; now = 100; interrupted = false }

-- A device that takes every report whole, and gives these.
abbrev pub wire_with : List ReadStep → Wire
wire_with steps = record {
  locked = false;
  now = 100;
  reads = steps;
  write_result = λ k. pos 64;
  last_error = none;
  sent = [];
  opened = [];
  open_result = λ k. true;
  handles = 0;
  features = [];
}

abbrev pub io_with : List ReadStep → Io
io_with steps = record { buffer = new_buffer; wire = wire_with steps }

-- A quiet round, and then a report of three bytes.
abbrev pub three_bytes : Io
three_bytes = io_with (
    record { answer = nothing; now = 101; interrupted = false }
    ∷ record { answer = received 3 (1 ∷ 2 ∷ 3 ∷ []); now = 102; interrupted = false }
    ∷ [])
