-- ===== src/Libraries/Protobuf.antt =====
-- Google's protobuf library, as far as messages.cpp and devices.cpp use it.
use trezor_plugin.Prelude.{ℕ, Bool, Option, Bytes, List}
use trezor_plugin.Prelude.Int.{ℤ}

-- PB::EnumValueDescriptor
pub record EnumValue : Type 0 where
  pub name : Bytes
  pub number : ℤ

-- PB::FieldDescriptor::Type
pub data FieldType : Type 0 where
  type_double type_float type_int64 type_uint64 type_int32 type_fixed64 type_fixed32 : FieldType
  type_bool type_string type_group type_message type_bytes type_uint32 type_enum : FieldType
  type_sfixed32 type_sfixed64 type_sint32 type_sint64 : FieldType

-- The C++ types of plain values, by which the accessors of PB::Reflection are named: `get int64` is
-- GetInt64, `add string` is AddString.
pub data Scalar : Type 0 where
  double float int64 uint64 int32 uint32 boolean string : Scalar

-- The values of a scalar type, over those of the floating-point types.
abbrev pub Carrier : Type 0 → Type 0 → Scalar → Type 0
Carrier D F double = D
Carrier D F float = F
Carrier D F int64 = ℤ
Carrier D F uint64 = ℤ
Carrier D F int32 = ℤ
Carrier D F uint32 = ℤ
Carrier D F boolean = Bool
Carrier D F string = Bytes

-- `parse` is ParseFromArray: the message afterwards, also when it returned false.
-- `serialize m n` is what SerializeToArray leaves in an array of n bytes.
-- `find_field` is FindFieldByName of the message's descriptor. Setters return the changed message. `mutable_message` is the submessage that MutableMessage
-- points to, and `set_message` puts it back as it became; so for AddMessage.
pub record Protobuf : Type 1 where
  pub Pool : Type 0
  pub FileDescriptor : Type 0
  pub Descriptor : Type 0
  pub EnumDescriptor : Type 0
  pub Field : Type 0
  pub Message : Type 0
  pub Double : Type 0
  pub Float : Type 0
  pub build_file : Pool → FileDescriptor → Pool
  pub find_message_type : Pool → Bytes → Option Descriptor
  pub find_enum_type : Pool → Bytes → Option EnumDescriptor
  pub value_by_number : EnumDescriptor → ℕ → Option EnumValue
  pub value_by_name : EnumDescriptor → Bytes → Option EnumValue
  pub new_message : Descriptor → Message
  pub type_name : Message → Bytes
  pub byte_size : Message → ℕ
  pub serialize : Message → ℕ → Bytes
  pub parse : Message → Bytes → Message
  pub fields : Message → List Field
  pub find_field : Message → Bytes → Option Field
  pub field_name : Field → Bytes
  pub full_name : Field → Bytes
  pub field_type : Field → FieldType
  pub is_repeated : Field → Bool
  pub enum_type : Field → EnumDescriptor
  pub has_field : Message → Field → Bool
  pub field_size : Message → Field → ℕ
  pub get : (s : Scalar) → Message → Field → Carrier Double Float s
  pub get_repeated : (s : Scalar) → Message → Field → ℕ → Carrier Double Float s
  pub set : (s : Scalar) → Message → Field → Carrier Double Float s → Message
  pub add : (s : Scalar) → Message → Field → Carrier Double Float s → Message
  pub get_enum : Message → Field → EnumValue
  pub get_repeated_enum : Message → Field → ℕ → EnumValue
  pub set_enum : Message → Field → EnumValue → Message
  pub add_enum : Message → Field → EnumValue → Message
  pub get_message : Message → Field → Message
  pub get_repeated_message : Message → Field → ℕ → Message
  pub mutable_message : Message → Field → Message
  pub set_message : Message → Field → Message → Message
  pub new_element : Message → Field → Message
  pub add_message : Message → Field → Message → Message
