-- ===== src/Messages/Serialize.antt =====
-- messages.cpp: messages to variants (serialize_single_field, serialize_repeated_field,
-- message_to_map).
use trezor_plugin.Prelude.{
  ℕ, zero, suc, ◌+◌, ◌++◌, List, [], ◌∷◌, Bytes, codes, bytes_eq, if◌then◌else◌,
}
use trezor_plugin.Exceptions.{
  Exception, Outcome, ok, throw, fault, out_of_fuel, invalid_argument, what, catch_exception, ◌>>=◌,
}
use trezor_plugin.Libraries.Boost.{Boost}
use trezor_plugin.Libraries.Protobuf.{
  Protobuf, double, float, int64, uint64, int32, uint32, boolean, string, FieldType, type_double,
  type_float, type_int64, type_uint64, type_int32, type_bool, type_string, type_message, type_bytes,
  type_uint32, type_enum,
}
use trezor_plugin.Libraries.FireBreath.{Variants}
use trezor_plugin.Utils.Codecs.{hex_encode}

-- `result[name] = v` on a std::map.
unfoldable pub insert : {V : Type 0} → Bytes → V → List (Bytes × V) → List (Bytes × V)
insert name v [] = (name, v) ∷ []
insert name v ((k, w) ∷ rest) =
    if bytes_eq k name then (name, v) ∷ rest else (k, w) ∷ insert name v rest

-- What both catch blocks throw: the exception's text behind the field's name.
abbrev pub annotate : {A : Type 0} → Boost → Bytes → Bytes → Bytes → Outcome A → Outcome A
annotate boost before name behind r =
    catch_exception r
      λ e. throw (invalid_argument (before ++ (name ++ (behind ++ what (boost.lexical_cast) e))))

-- `for (i = 0; i < size; i++) result.push_back(f(i))`, with `n` rounds left.
unfoldable pub collect : {V : Type 0} → (ℕ → Outcome V) → ℕ → ℕ → Outcome (List V)
collect f zero i = ok []
collect f (suc n) i = f i >>= λ v. collect f n (i + 1) >>= λ vs. ok (v ∷ vs)

module _ (boost : Boost) (pb : Protobuf) (fb : Variants pb) where
  open pb use {
    Message, Field, fields, field_name, full_name, field_type, is_repeated, has_field, field_size,
    get, get_repeated, get_enum, get_repeated_enum, get_message, get_repeated_message,
  }
  open fb use {Variant, of, of_list, of_map}

  abbrev pub VariantMap : Type 0
  VariantMap = List (Bytes × Variant)

  abbrev unknown_single : Exception
  unknown_single = invalid_argument (codes "Protobuf field of unknown type")

  abbrev unknown_repeated : Exception
  unknown_repeated = invalid_argument (codes "Protobuf field of unknown/invalid type")

  -- serialize_single_field, over the call of message_to_map for a submessage.
  unfoldable pub serialize_single_as :
      (Message → Outcome VariantMap) → Message → Field → FieldType → Outcome Variant
  unfolding hex_encode
  serialize_single_as rec m f type_double = ok (of double (get double m f))
  serialize_single_as rec m f type_float = ok (of float (get float m f))
  serialize_single_as rec m f type_int64 = ok (of int64 (get int64 m f))
  serialize_single_as rec m f type_uint64 = ok (of uint64 (get uint64 m f))
  serialize_single_as rec m f type_int32 = ok (of int32 (get int32 m f))
  serialize_single_as rec m f type_uint32 = ok (of uint32 (get uint32 m f))
  serialize_single_as rec m f type_bool = ok (of boolean (get boolean m f))
  serialize_single_as rec m f type_string = ok (of string (get string m f))
  serialize_single_as rec m f type_bytes =
      hex_encode boost (get string m f) >>= λ s. ok (of string s)
  serialize_single_as rec m f type_enum = ok (of string ((get_enum m f).name))
  serialize_single_as rec m f type_message = rec (get_message m f) >>= λ map. ok (of_map map)
  serialize_single_as rec m f _ = throw unknown_single

  abbrev pub serialize_single_field :
      (Message → Outcome VariantMap) → Message → Field → Outcome Variant
  serialize_single_field rec m f = serialize_single_as rec m f (field_type f)

  -- The loop of serialize_repeated_field over one kind of element.
  abbrev each : Message → Field → (ℕ → Outcome Variant) → Outcome Variant
  each m f element = collect element (field_size m f) 0 >>= λ vs. ok (of_list vs)

  -- serialize_repeated_field. For each element of strings and of bytes it calls GetString, which is
  -- for fields that are not repeated: protobuf leaves undefined what it does on this one.
  unfoldable pub serialize_repeated_as :
      (Message → Outcome VariantMap) → Message → Field → FieldType → Outcome Variant
  serialize_repeated_as rec m f type_double =
      each m f λ i. ok (of double (get_repeated double m f i))
  serialize_repeated_as rec m f type_float = each m f λ i. ok (of float (get_repeated float m f i))
  serialize_repeated_as rec m f type_int32 = each m f λ i. ok (of int32 (get_repeated int32 m f i))
  serialize_repeated_as rec m f type_uint32 =
      each m f λ i. ok (of uint32 (get_repeated uint32 m f i))
  serialize_repeated_as rec m f type_bool =
      each m f λ i. ok (of boolean (get_repeated boolean m f i))
  serialize_repeated_as rec m f type_string = each m f λ i. fault
  serialize_repeated_as rec m f type_bytes = each m f λ i. fault
  serialize_repeated_as rec m f type_enum =
      each m f λ i. ok (of string ((get_repeated_enum m f i).name))
  serialize_repeated_as rec m f type_message =
      each m f λ i. rec (get_repeated_message m f i) >>= λ map. ok (of_map map)
  serialize_repeated_as rec m f _ = throw unknown_repeated

  abbrev pub serialize_repeated_field :
      (Message → Outcome VariantMap) → Message → Field → Outcome Variant
  serialize_repeated_field rec m f = serialize_repeated_as rec m f (field_type f)

  -- The body of message_to_map's loop for one field.
  unfoldable pub field_to_map :
      (Message → Outcome VariantMap) → Message → Field → VariantMap → Outcome VariantMap
  field_to_map rec m f result =
      annotate boost (codes "Error while serializing '") (full_name f) (codes "', caused by: ") (
        if is_repeated f
        then serialize_repeated_field rec m f >>= (λ v. ok (insert (field_name f) v result))
        else if has_field m f
        then serialize_single_field rec m f >>= (λ v. ok (insert (field_name f) v result))
        else ok result)

  unfoldable pub fields_to_map :
      (Message → Outcome VariantMap) → Message → List Field → VariantMap → Outcome VariantMap
  fields_to_map rec m [] result = ok result
  fields_to_map rec m (f ∷ fs) result =
      field_to_map rec m f result >>= λ result'. fields_to_map rec m fs result'

  -- message_to_map; the fuel bounds how deep messages stand in one another.
  unfoldable pub message_to_map : ℕ → Message → Outcome VariantMap
  unfolding fields_to_map field_to_map serialize_single_as serialize_repeated_as
  message_to_map zero m = out_of_fuel
  message_to_map (suc depth) m = fields_to_map (message_to_map depth) m (fields m) []
