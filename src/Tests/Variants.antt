-- ===== src/Tests/Variants.antt =====
-- Variants as trees, and the message functions at work on them.
use trezor_plugin.Prelude.{
  ◌≡◌, refl, ap, inl, inr, Bool, true, false, none, some, List, [], ◌∷◌, Bytes, codes, arith,
  Bool-cases, bytes_eq→eq, if_true, if_false, sym, ◌∙◌,
}
use trezor_plugin.Prelude.Tests.{bytes_eq}
use mathlib.Core.Option.{some-injective}
use trezor_plugin.Exceptions.{Outcome, ok, throw, fault, foreign, invalid_argument, what, ◌>>=◌}
use trezor_plugin.Libraries.Protobuf.{
  EnumValue, Scalar, Carrier, double, float, int64, uint64, int32, uint32, boolean, string,
  type_string, type_int64,
}
use trezor_plugin.Libraries.FireBreath.{Variants}
use trezor_plugin.Messages.Names.{message_type_enum_name, message_name, message_type}
use trezor_plugin.Messages.Laws.{Numbered, message_name-message_type}
use trezor_plugin.Messages.Serialize.{
  collect, serialize_single_as, serialize_repeated_as, field_to_map, VariantMap,
}
use trezor_plugin.Messages.Parse.{parse_single_as, is_parsed}
use trezor_plugin.Messages.RoundTrip.{Converts, copied, parse_single_as-serialize_single_as}
use trezor_plugin.Tests.{plain_boost, notes, Note, hello, ping}

mutual
  pub data Value : Type 0 where
    plain : (s : Scalar) → Carrier Bool Bool s → Value
    sequence : Values → Value
    mapping : Entries → Value

  pub data Values : Type 0 where
    nothing_more : Values
    value_then : Value → Values → Values

  pub data Entries : Type 0 where
    no_entry : Entries
    entry_then : Bytes → Value → Entries → Entries

abbrev to_values : List Value → Values
to_values [] = nothing_more
to_values (v ∷ vs) = value_then v (to_values vs)

abbrev from_values : Values → List Value
from_values nothing_more = []
from_values (value_then v vs) = v ∷ from_values vs

abbrev to_entries : List (Bytes × Value) → Entries
to_entries [] = no_entry
to_entries ((k, v) ∷ rest) = entry_then k v (to_entries rest)

abbrev from_entries : Entries → List (Bytes × Value)
from_entries no_entry = []
from_entries (entry_then k v rest) = (k, v) ∷ from_entries rest

from_entries-to_entries : (m : List (Bytes × Value)) → from_entries (to_entries m) ≡ m
from_entries-to_entries [] = refl
from_entries-to_entries ((k, v) ∷ rest) = ap (λ t. (k, v) ∷ t) (from_entries-to_entries rest)

from_values-to_values : (vs : List Value) → from_values (to_values vs) ≡ vs
from_values-to_values [] = refl
from_values-to_values (v ∷ vs) = ap (λ t. v ∷ t) (from_values-to_values vs)

-- A value converts to its own type only.
abbrev bad_cast : {A : Type 0} → Outcome A
bad_cast = throw (foreign (codes "bad cast"))

abbrev as_type : (s t : Scalar) → Carrier Bool Bool t → Outcome (Carrier Bool Bool s)
as_type double double v = ok v
as_type float float v = ok v
as_type int64 int64 v = ok v
as_type uint64 uint64 v = ok v
as_type int32 int32 v = ok v
as_type uint32 uint32 v = ok v
as_type boolean boolean v = ok v
as_type string string v = ok v
as_type _ _ v = bad_cast

abbrev cast_value : (s : Scalar) → Value → Outcome (Carrier Bool Bool s)
cast_value s (plain t v) = as_type s t v
cast_value s _ = bad_cast

abbrev cast_sequence : Value → Outcome (List Value)
cast_sequence (sequence vs) = ok (from_values vs)
cast_sequence _ = bad_cast

abbrev cast_mapping : Value → Outcome (List (Bytes × Value))
cast_mapping (mapping m) = ok (from_entries m)
cast_mapping _ = bad_cast

abbrev pub values : Variants notes
values = record {
  Variant = Value;
  of = plain;
  of_list = λ vs. sequence (to_values vs);
  of_map = λ m. mapping (to_entries m);
  cast = cast_value;
  cast_list = cast_sequence;
  cast_map = cast_mapping;
}

as_type_self : (s : Scalar) (v : Carrier Bool Bool s) → as_type s s v ≡ ok v
as_type_self double v = refl
as_type_self float v = refl
as_type_self int64 v = refl
as_type_self uint64 v = refl
as_type_self int32 v = refl
as_type_self uint32 v = refl
as_type_self boolean v = refl
as_type_self string v = refl

pub values-Converts : Converts notes values
values-Converts = record {
  cast-of = as_type_self;
  cast_list-of_list = λ vs. ap ok (from_values-to_values vs);
  cast_map-of_map = λ m. ap ok (from_entries-to_entries m);
}

abbrev no_map : Note → Outcome (VariantMap plain_boost notes values)
no_map m = ok []

abbrev same_note : Note → List (Bytes × Value) → Outcome Note
same_note m map = ok m

parse_single_as-serialize_single_as_example :
    (serialize_single_as plain_boost notes values no_map hello (type_string, false) type_string
      >>= parse_single_as plain_boost notes values same_note
          (codes "Ping", [])
          (type_string, false)
          type_string)
    ≡ copied plain_boost notes values no_map same_note hello
        (codes "Ping", [])
        (type_string, false)
        type_string
unfolding bytes_eq
parse_single_as-serialize_single_as_example =
    parse_single_as-serialize_single_as plain_boost notes values no_map same_note hello
      (codes "Ping", []) (type_string, false) type_string values-Converts (λ b s e. sym e)
      (λ is_enum. refl)

ping-Numbered :
    (ed : notes.EnumDescriptor)
    → notes.find_enum_type 0 message_type_enum_name ≡ some ed
    → Numbered notes 0 ed
ping-Numbered ed e name v found = elim (Bool-cases (bytes_eq name (codes "MessageType_Ping"))) [
  | inl hit ↦
      let same : ping ≡ v = some-injective ping v (sym (if_true _ _ _ hit) ∙ found) in
      (
        sym (ap (λ (t : EnumValue). t.name) same) ∙ sym (bytes_eq→eq _ _ hit),
        1,
        sym (ap (λ (t : EnumValue). t.number) same),
        omega arith,
        ap some same,
      )
  | inr miss ↦ let clash : none ≡ some v = sym (if_false _ _ _ miss) ∙ found in absurd cc
]

message_name-message_type_example : message_name notes 0 1 ≡ ok (codes "Ping")
unfolding message_type bytes_eq
message_name-message_type_example =
    message_name-message_type notes 0 (codes "Ping") 1 ping-Numbered refl

-- An element of a repeated string cannot be had.
repeated_strings_fault :
    serialize_repeated_as plain_boost notes values no_map hello (type_string, true) type_string
    ≡ fault
unfolding serialize_repeated_as collect
repeated_strings_fault = refl

-- A repeated int64 field is parsed, but not serialized.
repeated_int64_throws :
    (is_parsed plain_boost notes values type_int64 ≡ ok tt)
    × (field_to_map plain_boost notes values no_map hello (type_int64, true) []
        ≡ throw (
            invalid_argument (
              codes
                "Error while serializing 'Ping.text', caused by: Protobuf field of unknown/invalid type")))
unfolding serialize_repeated_as field_to_map what
repeated_int64_throws = (refl, refl)
