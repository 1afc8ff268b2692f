-- ===== src/Messages/Parse.antt =====
-- messages.cpp: variants to messages (parse_single_field, parse_repeated_field, message_from_map).
use trezor_plugin.Prelude.{
  ℕ, zero, suc, Option, none, some, List, [], ◌∷◌, Bytes, codes, bytes_eq, if◌then◌else◌,
}
use trezor_plugin.Exceptions.{Exception, Outcome, ok, throw, out_of_fuel, invalid_argument, ◌>>=◌}
use trezor_plugin.Libraries.Boost.{Boost}
use trezor_plugin.Libraries.Protobuf.{
  Protobuf, EnumValue, double, float, int64, uint64, int32, uint32, boolean, string, FieldType,
  type_double, type_float, type_int64, type_uint64, type_int32, type_bool, type_string,
  type_message, type_bytes, type_uint32, type_enum,
}
use trezor_plugin.Libraries.FireBreath.{Variants}
use trezor_plugin.Utils.Codecs.{hex_decode}
use trezor_plugin.Messages.Serialize.{annotate}

-- `map.find(name)`
unfoldable pub find : {V : Type 0} → Bytes → List (Bytes × V) → Option V
find name [] = none
find name ((k, v) ∷ rest) = if bytes_eq k name then some v else find name rest

module _ (boost : Boost) (pb : Protobuf) (fb : Variants pb) where
  open pb use {
    Message, Field, fields, field_name, full_name, field_type, is_repeated, enum_type,
    value_by_name, set, add, set_enum, add_enum, mutable_message, set_message, new_element,
    add_message,
  }
  open fb use {Variant, cast, cast_list, cast_map}

  abbrev pub Rec : Type 0
  Rec = Message → List (Bytes × Variant) → Outcome Message

  abbrev unknown_type : Exception
  unknown_type = invalid_argument (codes "Protobuf field of unknown/invalid type")

  -- FindValueByName, and what the code throws without one.
  abbrev pub enum_value : Field → Bytes → Outcome EnumValue
  enum_value f name = elim (value_by_name (enum_type f) name) [
    | none ↦ throw (invalid_argument (codes "Unknown enum value"))
    | some evd ↦ ok evd
  ]

  -- parse_single_field, over the call of message_from_map for a submessage.
  unfoldable pub parse_single_as : Rec → Message → Field → FieldType → Variant → Outcome Message
  unfolding hex_decode
  parse_single_as rec m f type_double v = cast double v >>= λ x. ok (set double m f x)
  parse_single_as rec m f type_float v = cast float v >>= λ x. ok (set float m f x)
  parse_single_as rec m f type_int64 v = cast int64 v >>= λ x. ok (set int64 m f x)
  parse_single_as rec m f type_int32 v = cast int32 v >>= λ x. ok (set int32 m f x)
  parse_single_as rec m f type_uint64 v = cast uint64 v >>= λ x. ok (set uint64 m f x)
  parse_single_as rec m f type_uint32 v = cast uint32 v >>= λ x. ok (set uint32 m f x)
  parse_single_as rec m f type_bool v = cast boolean v >>= λ x. ok (set boolean m f x)
  parse_single_as rec m f type_string v = cast string v >>= λ x. ok (set string m f x)
  parse_single_as rec m f type_bytes v =
      cast string v >>= λ x. hex_decode boost x >>= λ b. ok (set string m f b)
  parse_single_as rec m f type_enum v =
      cast string v >>= λ x. enum_value f x >>= λ evd. ok (set_enum m f evd)
  parse_single_as rec m f type_message v =
      cast_map v >>= λ map. rec (mutable_message m f) map >>= λ fm. ok (set_message m f fm)
  parse_single_as rec m f _ v = throw unknown_type

  abbrev pub parse_single_field : Rec → Message → Field → Variant → Outcome Message
  parse_single_field rec m f v = parse_single_as rec m f (field_type f) v

  -- The body of parse_repeated_field's loop, by the type. 64-bit elements are cast to int and
  -- unsigned int.
  unfoldable pub add_element : Rec → Message → Field → FieldType → Variant → Outcome Message
  unfolding hex_decode
  add_element rec m f type_double v = cast double v >>= λ x. ok (add double m f x)
  add_element rec m f type_float v = cast float v >>= λ x. ok (add float m f x)
  add_element rec m f type_int64 v = cast int32 v >>= λ x. ok (add int64 m f x)
  add_element rec m f type_int32 v = cast int32 v >>= λ x. ok (add int32 m f x)
  add_element rec m f type_uint64 v = cast uint32 v >>= λ x. ok (add uint64 m f x)
  add_element rec m f type_uint32 v = cast uint32 v >>= λ x. ok (add uint32 m f x)
  add_element rec m f type_bool v = cast boolean v >>= λ x. ok (add boolean m f x)
  add_element rec m f type_string v = cast string v >>= λ x. ok (add string m f x)
  add_element rec m f type_bytes v =
      cast string v >>= λ x. hex_decode boost x >>= λ b. ok (add string m f b)
  add_element rec m f type_enum v =
      cast string v >>= λ x. enum_value f x >>= λ evd. ok (add_enum m f evd)
  add_element rec m f type_message v =
      cast_map v >>= λ map. rec (new_element m f) map >>= λ fm. ok (add_message m f fm)
  add_element rec m f _ v = throw unknown_type

  -- Whether the switch has a case for the type.
  abbrev pub is_parsed : FieldType → Outcome (Unit {0})
  is_parsed type_double = ok tt
  is_parsed type_float = ok tt
  is_parsed type_int64 = ok tt
  is_parsed type_int32 = ok tt
  is_parsed type_uint64 = ok tt
  is_parsed type_uint32 = ok tt
  is_parsed type_bool = ok tt
  is_parsed type_string = ok tt
  is_parsed type_bytes = ok tt
  is_parsed type_enum = ok tt
  is_parsed type_message = ok tt
  is_parsed _ = throw unknown_type

  unfoldable pub add_elements : Rec → Message → Field → List Variant → Outcome Message
  unfolding add_element
  add_elements rec m f [] = ok m
  add_elements rec m f (v ∷ vs) =
      add_element rec m f (field_type f) v >>= λ m'. add_elements rec m' f vs

  -- parse_repeated_field: without a case it throws, also for an empty list.
  unfoldable pub parse_repeated_field : Rec → Message → Field → List Variant → Outcome Message
  unfolding add_elements
  parse_repeated_field rec m f vs = is_parsed (field_type f) >>= λ _. add_elements rec m f vs

  -- The body of message_from_map's loop for one field.
  unfoldable pub field_from_map : Rec → Message → Field → List (Bytes × Variant) → Outcome Message
  unfolding find parse_repeated_field parse_single_as
  field_from_map rec m f map = elim (find (field_name f) map) [
    | none ↦ ok m
    | some v ↦ annotate boost (codes "Error while parsing ") (full_name f) (codes ", caused by: ") (
        if is_repeated f
        then cast_list v >>= (λ vs. parse_repeated_field rec m f vs)
        else parse_single_field rec m f v)
  ]

  unfoldable pub fields_from_map :
      Rec → Message → List Field → List (Bytes × Variant) → Outcome Message
  fields_from_map rec m [] map = ok m
  fields_from_map rec m (f ∷ fs) map =
      field_from_map rec m f map >>= λ m'. fields_from_map rec m' fs map

  -- message_from_map; the fuel bounds how deep maps stand in one another.
  unfoldable pub message_from_map : ℕ → Message → List (Bytes × Variant) → Outcome Message
  unfolding fields_from_map field_from_map
  message_from_map zero m map = out_of_fuel
  message_from_map (suc depth) m map = fields_from_map (message_from_map depth) m (fields m) map
