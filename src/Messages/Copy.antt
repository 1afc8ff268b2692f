-- ===== src/Messages/Copy.antt =====
-- A reference for message_from_map behind message_to_map (messages.cpp): the copy of a message's
-- fields into another message.
pub mod Recorded
pub mod Elements
pub mod Whole
use trezor_plugin.Prelude.{
  ℕ, zero, suc, ◌+◌, ◌≡◌, ◌≢◌, refl, ap, sym, ◌∙◌, Bool, true, false, some, List, [], ◌∷◌, Bytes,
  if◌then◌else◌, All,
}
use trezor_plugin.Exceptions.{Outcome, ok, throw, fault, blocked, out_of_fuel, ◌>>=◌}
use trezor_plugin.Libraries.Boost.{Boost}
use trezor_plugin.Libraries.Protobuf.{
  Protobuf, double, float, int64, uint64, int32, uint32, boolean, string, FieldType, type_double,
  type_float, type_int64, type_uint64, type_int32, type_fixed64, type_fixed32, type_bool,
  type_string, type_group, type_message, type_bytes, type_uint32, type_enum, type_sfixed32,
  type_sfixed64, type_sint32, type_sint64,
}
use trezor_plugin.Libraries.FireBreath.{Variants}
use trezor_plugin.Utils.Codecs.{hex_encode}
use trezor_plugin.Messages.Serialize.{serialize_single_as}
use trezor_plugin.Messages.Parse.{Rec, parse_single_as}
use trezor_plugin.Messages.RoundTrip.{
  Converts, Unhexes, copied, bind-ok, parse_single_as-serialize_single_as,
}

pub bind-inv :
    {A B : Type 0} (r : Outcome A) (k : A → Outcome B) (b : B)
    → (r >>= k) ≡ ok b
    → (a : A) × (r ≡ ok a) × (k a ≡ ok b)
bind-inv (ok a) k b e = (a, refl, e)
bind-inv (throw x) k b e = absurd cc
bind-inv fault k b e = absurd cc
bind-inv blocked k b e = absurd cc
bind-inv out_of_fuel k b e = absurd cc

module _ (pb : Protobuf) where
  open pb use {
    Message, Field, fields, field_name, field_type, is_repeated, has_field, field_size, get,
    get_repeated, set, add, get_enum, get_repeated_enum, add_enum, get_repeated_message,
    new_element, add_message, set_enum, get_message, mutable_message, set_message, enum_type,
    value_by_name,
  }

  -- One field, by its type; `sub` copies submessages.
  abbrev pub copy_as :
      (Message → Message → Message) → Message → Message → Field → FieldType → Message
  copy_as sub m to f type_double = set double to f (get double m f)
  copy_as sub m to f type_float = set float to f (get float m f)
  copy_as sub m to f type_int64 = set int64 to f (get int64 m f)
  copy_as sub m to f type_uint64 = set uint64 to f (get uint64 m f)
  copy_as sub m to f type_int32 = set int32 to f (get int32 m f)
  copy_as sub m to f type_uint32 = set uint32 to f (get uint32 m f)
  copy_as sub m to f type_bool = set boolean to f (get boolean m f)
  copy_as sub m to f type_string = set string to f (get string m f)
  copy_as sub m to f type_bytes = set string to f (get string m f)
  copy_as sub m to f type_enum = set_enum to f (get_enum m f)
  copy_as sub m to f type_message = set_message to f (sub (get_message m f) (mutable_message to f))
  copy_as sub m to f _ = to

  -- One element of a repeated field.
  abbrev pub copy_element :
      (Message → Message → Message) → Message → Field → FieldType → ℕ → Message → Message
  copy_element sub m f type_double i to = add double to f (get_repeated double m f i)
  copy_element sub m f type_float i to = add float to f (get_repeated float m f i)
  copy_element sub m f type_int32 i to = add int32 to f (get_repeated int32 m f i)
  copy_element sub m f type_uint32 i to = add uint32 to f (get_repeated uint32 m f i)
  copy_element sub m f type_bool i to = add boolean to f (get_repeated boolean m f i)
  copy_element sub m f type_string i to = add string to f (get_repeated string m f i)
  copy_element sub m f type_bytes i to = add string to f (get_repeated string m f i)
  copy_element sub m f type_enum i to = add_enum to f (get_repeated_enum m f i)
  copy_element sub m f type_message i to =
      add_message to f (sub (get_repeated_message m f i) (new_element to f))
  copy_element sub m f _ i to = to

  -- `n` elements, from the one at `i` on.
  unfoldable pub copy_elements :
      (Message → Message → Message) → Message → Field → FieldType → (n i : ℕ) → Message → Message
  copy_elements sub m f t zero i to = to
  copy_elements sub m f t (suc n) i to =
      copy_elements sub m f t n (i + 1) (copy_element sub m f t i to)

  abbrev pub copy_field : (Message → Message → Message) → Message → Message → Field → Message
  copy_field sub m to f =
      if is_repeated f
      then copy_elements sub m f (field_type f) (field_size m f) 0 to
      else (if has_field m f then copy_as sub m to f (field_type f) else to)

  unfoldable pub copy_fields :
      (Message → Message → Message) → Message → List Field → Message → Message
  copy_fields sub m [] to = to
  copy_fields sub m (f ∷ fs) to = copy_fields sub m fs (copy_field sub m to f)

  -- The set fields of `m` are set in `to`, and those of its submessages in the submessages, up to a
  -- depth.
  unfoldable pub copy : ℕ → Message → Message → Message
  unfolding copy_fields
  copy zero m to = to
  copy (suc depth) m to = copy_fields (copy depth) m (fields m) to

  -- No two fields have the same name.
  abbrev pub NamesDistinct : List Field → Type 0
  NamesDistinct [] = Unit
  NamesDistinct (f ∷ fs) = All (λ g. field_name f ≢ field_name g) fs × NamesDistinct fs

  -- A field whose enum knows its values; submessages are as `Sub` says.
  pub record KnownField (Sub : Message → Type 0) (m : Message) (f : Field) : Type 0 where
    pub enum :
        is_repeated f ≡ false
        → field_type f ≡ type_enum
        → value_by_name (enum_type f) ((get_enum m f).name) ≡ some (get_enum m f)
    pub enums :
        is_repeated f ≡ true
        → field_type f ≡ type_enum
        → (i : ℕ)
        → value_by_name (enum_type f) ((get_repeated_enum m f i).name)
          ≡ some (get_repeated_enum m f i)
    pub message : is_repeated f ≡ false → field_type f ≡ type_message → Sub (get_message m f)
    pub messages :
        is_repeated f ≡ true
        → field_type f ≡ type_message
        → (i : ℕ) → Sub (get_repeated_message m f i)

  -- A message with such fields, whose names are distinct, and so are its submessages.
  abbrev pub Known : ℕ → Message → Type 0
  Known zero m = Unit
  Known (suc depth) m = NamesDistinct (fields m) × All (KnownField (Known depth) m) (fields m)

module _ (boost : Boost) (pb : Protobuf) (fb : Variants pb) where
  open pb use {Message, Field, get_enum, get_message, mutable_message, enum_type, value_by_name}
  open fb use {Variant}

  hex_encode_inv :
      {A B : Type 0} (r : Outcome Bytes) (k : Bytes → Outcome A) (a : A) (b : B)
      → (r >>= k) ≡ ok a
      → (r >>= λ _. ok b) ≡ ok b
  hex_encode_inv r k a b e = let (s, is_s, _) = bind-inv r k a e in bind-ok r s (λ _. ok b) is_s

  -- A field that serializes is copied, when submessages are.
  copied-ok :
      (rec : Message → Outcome (List (Bytes × Variant))) (back : Rec boost pb fb)
      (sub : Message → Message → Message) (m to : Message) (f : Field) (t : FieldType) (v : Variant)
      → (t ≡ type_message
          → (map : List (Bytes × Variant)) → rec (get_message m f) ≡ ok map
          → back (mutable_message to f) map ≡ ok (sub (get_message m f) (mutable_message to f)))
      → serialize_single_as boost pb fb rec m f t ≡ ok v
      → copied boost pb fb rec back m to f t ≡ ok (copy_as pb sub m to f t)
  unfolding serialize_single_as
  copied-ok rec back sub m to f type_double v h e = refl
  copied-ok rec back sub m to f type_float v h e = refl
  copied-ok rec back sub m to f type_int64 v h e = refl
  copied-ok rec back sub m to f type_uint64 v h e = refl
  copied-ok rec back sub m to f type_int32 v h e = refl
  copied-ok rec back sub m to f type_uint32 v h e = refl
  copied-ok rec back sub m to f type_bool v h e = refl
  copied-ok rec back sub m to f type_string v h e = refl
  copied-ok rec back sub m to f type_bytes v h e =
      hex_encode_inv (hex_encode boost (pb.get string m f)) _ v (copy_as pb sub m to f type_bytes) e
  copied-ok rec back sub m to f type_enum v h e = refl
  copied-ok rec back sub m to f type_message v h e =
      let (map, is_map, _) = bind-inv (rec (get_message m f)) _ v e in
      rw (is_map, h refl map is_map) refl
  copied-ok rec back sub m to f type_group v h e = absurd cc
  copied-ok rec back sub m to f type_fixed64 v h e = absurd cc
  copied-ok rec back sub m to f type_fixed32 v h e = absurd cc
  copied-ok rec back sub m to f type_sfixed32 v h e = absurd cc
  copied-ok rec back sub m to f type_sfixed64 v h e = absurd cc
  copied-ok rec back sub m to f type_sint32 v h e = absurd cc
  copied-ok rec back sub m to f type_sint64 v h e = absurd cc

  pub parse_single_as-copy_as :
      (rec : Message → Outcome (List (Bytes × Variant))) (back : Rec boost pb fb)
      (sub : Message → Message → Message) (m to : Message) (f : Field) (t : FieldType) (v : Variant)
      → Converts pb fb
      → Unhexes boost pb fb
      → (t ≡ type_enum → value_by_name (enum_type f) ((get_enum m f).name) ≡ some (get_enum m f))
      → (t ≡ type_message
          → (map : List (Bytes × Variant)) → rec (get_message m f) ≡ ok map
          → back (mutable_message to f) map ≡ ok (sub (get_message m f) (mutable_message to f)))
      → serialize_single_as boost pb fb rec m f t ≡ ok v
      → parse_single_as boost pb fb back to f t v ≡ ok (copy_as pb sub m to f t)
  parse_single_as-copy_as rec back sub m to f t v c u n h e =
      sym (bind-ok _ v (parse_single_as boost pb fb back to f t) e)
      ∙ parse_single_as-serialize_single_as boost pb fb rec back m to f t c u n
      ∙ copied-ok rec back sub m to f t v h e
