-- ===== src/Messages/Names.antt =====
-- The descriptor pool of messages.cpp: message types by name and by number.
use trezor_plugin.Prelude.{
  ℕ, ◌-◌, ◌%◌, ◌^◌, ◌++◌, none, some, List, [], ◌∷◌, Bytes, codes, length, drop, ltb, if◌then◌else◌,
}
use trezor_plugin.Prelude.Int.{ℤ, pos, negsuc}
use trezor_plugin.Exceptions.{
  Outcome, ok, throw, message_type_unknown_id, message_type_unknown_name,
}
use trezor_plugin.Exceptions.{foreign, ◌>>=◌}
use trezor_plugin.Libraries.Protobuf.{Protobuf}

abbrev pub message_type_enum_name : Bytes
message_type_enum_name = codes "MessageType"

abbrev pub message_type_prefix : Bytes
message_type_prefix = message_type_enum_name ++ codes "_"

-- std::string::substr from a position to the end, which throws beyond the string's end.
abbrev pub substr : Bytes → ℕ → Outcome Bytes
substr s at_pos =
    if ltb (length s) at_pos
    then throw (foreign (codes "basic_string::substr"))
    else ok (drop at_pos s)

-- The conversion of an int to uint16_t.
abbrev pub to_u16 : ℤ → ℕ
to_u16 (pos n) = n % 2 ^ 16
to_u16 (negsuc n) = 2 ^ 16 - 1 - n % 2 ^ 16

module _ (pb : Protobuf) where
  open pb use {
    Pool, FileDescriptor, Descriptor, Message, build_file, find_message_type, find_enum_type,
    value_by_number, value_by_name, new_message, type_name, parse,
  }

  -- The files are added in order; what BuildFile returns is not looked at.
  unfoldable pub load_protobuf : Pool → List FileDescriptor → Pool
  load_protobuf pool [] = pool
  load_protobuf pool (file ∷ files) = load_protobuf (build_file pool file) files

  unfoldable pub message_descriptor : Pool → Bytes → Outcome Descriptor
  message_descriptor pool name = elim (find_message_type pool name) [
    | none ↦ throw (message_type_unknown_name name)
    | some md ↦ ok md
  ]

  -- message_name(uint16_t)
  unfoldable pub message_name : Pool → ℕ → Outcome Bytes
  message_name pool type = elim (find_enum_type pool message_type_enum_name) [
    | none ↦ throw (message_type_unknown_id type)
    | some ed ↦ elim (value_by_number ed type) [
      | none ↦ throw (message_type_unknown_id type)
      | some evd ↦ substr evd.name (length message_type_prefix)
    ]
  ]

  -- message_type(const std::string &)
  unfoldable pub message_type : Pool → Bytes → Outcome ℕ
  message_type pool name = elim (find_enum_type pool message_type_enum_name) [
    | none ↦ throw (message_type_unknown_name name)
    | some ed ↦ elim (value_by_name ed (message_type_prefix ++ name)) [
      | none ↦ throw (message_type_unknown_name name)
      | some evd ↦ ok (to_u16 evd.number)
    ]
  ]

  -- message_type(const PB::Message &), by way of message_name(const PB::Message &)
  unfoldable pub type_of_message : Pool → Message → Outcome ℕ
  unfolding message_type
  type_of_message pool m = message_type pool (type_name m)

  unfoldable pub create_message : Pool → Bytes → Outcome Message
  unfolding message_descriptor
  create_message pool name = do
    descriptor ← message_descriptor pool name
    ok (new_message descriptor)

  -- The message of a type, with bytes parsed into it, as DeviceChannel::read makes it.
  unfoldable pub decode : Pool → ℕ → Bytes → Outcome Message
  unfolding message_name create_message
  decode pool type bytes = do
    name ← message_name pool type
    m ← create_message pool name
    ok (parse m bytes)
