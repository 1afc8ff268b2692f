-- ===== src/Messages/RoundTrip.antt =====
-- serialize_single_field and parse_single_field (messages.cpp), one behind the other.
use trezor_plugin.Prelude.{◌≡◌, refl, ap, ◌∙◌, some, List, Bytes, codes, elim_some}
use trezor_plugin.Exceptions.{
  invalid_argument, thread_interrupted, catch_exception, Outcome, ok, throw, fault, blocked,
  out_of_fuel, ◌>>=◌,
}
use trezor_plugin.Libraries.Boost.{Boost}
use trezor_plugin.Libraries.Protobuf.{
  Protobuf, EnumValue, Scalar, Carrier, double, float, int64, uint64, int32, uint32, boolean,
  string, FieldType, type_double, type_float, type_int64, type_uint64, type_int32, type_fixed64,
  type_fixed32, type_bool, type_string, type_group, type_message, type_bytes, type_uint32,
  type_enum, type_sfixed32, type_sfixed64, type_sint32, type_sint64,
}
use trezor_plugin.Libraries.FireBreath.{Variants}
use trezor_plugin.Utils.Codecs.{hex_encode, hex_decode}
use trezor_plugin.Messages.Serialize.{serialize_single_as}
use trezor_plugin.Messages.Parse.{Rec, parse_single_as}

-- A variant converts back to the type that it was made from.
pub record Converts (pb : Protobuf) (fb : Variants pb) : Type 0 where
  pub cast-of : (s : Scalar) (v : Carrier pb.Double pb.Float s) → fb.cast s (fb.of s v) ≡ ok v
  pub cast_list-of_list : (vs : List fb.Variant) → fb.cast_list (fb.of_list vs) ≡ ok vs
  pub cast_map-of_map : (map : List (Bytes × fb.Variant)) → fb.cast_map (fb.of_map map) ≡ ok map

pub bind-ok :
    {A B : Type 0} (r : Outcome A) (a : A) (k : A → Outcome B) → r ≡ ok a → (r >>= k) ≡ k a
bind-ok r a k e = ap (λ t. t >>= k) e

-- A result whose value is taken on by the same two steps.
pub bind-cong :
    {A B : Type 0} (r : Outcome A) (f g : A → Outcome B)
    → ((a : A) → f a ≡ g a)
    → (r >>= f) ≡ (r >>= g)
bind-cong (ok a) f g h = h a
bind-cong (throw e) f g h = refl
bind-cong fault f g h = refl
bind-cong blocked f g h = refl
bind-cong out_of_fuel f g h = refl

pub bind_assoc :
    {A B C : Type 0} (r : Outcome A) (f : A → Outcome B) (g : B → Outcome C)
    → ((r >>= f) >>= g) ≡ (r >>= λ a. f a >>= g)
bind_assoc (ok a) f g = refl
bind_assoc (throw e) f g = refl
bind_assoc fault f g = refl
bind_assoc blocked f g = refl
bind_assoc out_of_fuel f g = refl

module _ (boost : Boost) (pb : Protobuf) (fb : Variants pb) where
  open pb use {
    Message, Field, get, set, get_enum, set_enum, get_message, mutable_message, set_message,
    enum_type,
  }
  open fb use {Variant}

  -- What a field of `m` becomes in `to`, by its type: the value itself, and a submessage by the way
  -- of its map. Types that the code does not know throw.
  abbrev pub copied :
      (Message → Outcome (List (Bytes × Variant)))
      → Rec boost pb fb
      → Message
      → Message
      → Field
      → FieldType
      → Outcome Message
  copied rec back m to f type_double = ok (set double to f (get double m f))
  copied rec back m to f type_float = ok (set float to f (get float m f))
  copied rec back m to f type_int64 = ok (set int64 to f (get int64 m f))
  copied rec back m to f type_uint64 = ok (set uint64 to f (get uint64 m f))
  copied rec back m to f type_int32 = ok (set int32 to f (get int32 m f))
  copied rec back m to f type_uint32 = ok (set uint32 to f (get uint32 m f))
  copied rec back m to f type_bool = ok (set boolean to f (get boolean m f))
  copied rec back m to f type_string = ok (set string to f (get string m f))
  copied rec back m to f type_bytes =
      hex_encode boost (get string m f) >>= λ _. ok (set string to f (get string m f))
  copied rec back m to f type_enum = ok (set_enum to f (get_enum m f))
  copied rec back m to f type_message = rec (get_message m f) >>= λ map.
      back (mutable_message to f) map >>= λ sub. ok (set_message to f sub)
  copied rec back m to f _ = throw (invalid_argument (codes "Protobuf field of unknown type"))

  -- boost's unhex undoes its hex.
  abbrev pub Unhexes : Type 0
  Unhexes = (b s : Bytes) → boost.hex b ≡ ok s → boost.unhex s ≡ ok b

  pub hex_decode-hex_encode :
      {A : Type 0} (b : Bytes) (k : Bytes → Outcome A)
      → Unhexes
      → (hex_encode boost b >>= (λ s. hex_decode boost s >>= k)) ≡ (hex_encode boost b >>= λ _. k b)
  unfolding hex_encode hex_decode
  hex_decode-hex_encode {A} b k h = by_hex (boost.hex b) (λ s e. h b s e)
    where
      by_hex :
          (r : Outcome Bytes)
          → ((s : Bytes) → r ≡ ok s → boost.unhex s ≡ ok b)
          → (catch_exception r (λ e. throw (invalid_argument (codes "Cannot encode to HEX")))
              >>= (λ s. hex_decode boost s >>= k))
            ≡ (catch_exception r (λ e. throw (invalid_argument (codes "Cannot encode to HEX")))
                >>= λ _. k b)
      by_hex (ok s) u =
          ap
            (λ (o : Outcome Bytes).
              catch_exception o (λ e. throw (invalid_argument (codes "Cannot decode from HEX")))
              >>= k)
            (u s refl)
      by_hex (throw thread_interrupted) u = refl
      by_hex (throw e) u = refl
      by_hex fault u = refl
      by_hex blocked u = refl
      by_hex out_of_fuel u = refl

  -- A field that serialize_single_field makes a variant of and parse_single_field takes that
  -- variant for comes out as the field was, for every type of field: plain values, bytes by way of
  -- their hex text, enum values by way of their name, and a submessage by way of its map. A type
  -- that is not serialized throws. It needs variants that convert back, a hex codec that undoes
  -- itself, and, for an enum, one that finds the field's value under its name.
  pub parse_single_as-serialize_single_as :
      (rec : Message → Outcome (List (Bytes × Variant))) (back : Rec boost pb fb) (m to : Message)
      (f : Field) (t : FieldType)
      → Converts pb fb
      → Unhexes
      → (t ≡ type_enum → pb.value_by_name (enum_type f) ((get_enum m f).name) ≡ some (get_enum m f))
      → (serialize_single_as boost pb fb rec m f t >>= parse_single_as boost pb fb back to f t)
        ≡ copied rec back m to f t
  unfolding serialize_single_as parse_single_as
  parse_single_as-serialize_single_as rec back m to f type_double c u n =
      bind-ok _ _ _ (c.cast-of double _)
  parse_single_as-serialize_single_as rec back m to f type_float c u n =
      bind-ok _ _ _ (c.cast-of float _)
  parse_single_as-serialize_single_as rec back m to f type_int64 c u n =
      bind-ok _ _ _ (c.cast-of int64 _)
  parse_single_as-serialize_single_as rec back m to f type_uint64 c u n =
      bind-ok _ _ _ (c.cast-of uint64 _)
  parse_single_as-serialize_single_as rec back m to f type_int32 c u n =
      bind-ok _ _ _ (c.cast-of int32 _)
  parse_single_as-serialize_single_as rec back m to f type_uint32 c u n =
      bind-ok _ _ _ (c.cast-of uint32 _)
  parse_single_as-serialize_single_as rec back m to f type_bool c u n =
      bind-ok _ _ _ (c.cast-of boolean _)
  parse_single_as-serialize_single_as rec back m to f type_string c u n =
      bind-ok _ _ _ (c.cast-of string _)
  parse_single_as-serialize_single_as rec back m to f type_bytes c u n =
      bind_assoc (hex_encode boost (get string m f)) _ _
      ∙ bind-cong (hex_encode boost (get string m f)) _ _ (λ s. bind-ok _ _ _ (c.cast-of string s))
      ∙ hex_decode-hex_encode (get string m f) _ u
  parse_single_as-serialize_single_as rec back m to f type_enum c u n =
      bind-ok _ _ _ (c.cast-of string _)
      ∙ ap (λ (o : Outcome EnumValue). o >>= λ v. ok (set_enum to f v)) (elim_some _ _ _ _ (n refl))
  parse_single_as-serialize_single_as rec back m to f type_message c u n =
      bind_assoc (rec (get_message m f)) _ _
      ∙ bind-cong (rec (get_message m f)) _ _ (λ map. bind-ok _ _ _ (c.cast_map-of_map map))
  parse_single_as-serialize_single_as rec back m to f type_group c u n = refl
  parse_single_as-serialize_single_as rec back m to f type_fixed64 c u n = refl
  parse_single_as-serialize_single_as rec back m to f type_fixed32 c u n = refl
  parse_single_as-serialize_single_as rec back m to f type_sfixed32 c u n = refl
  parse_single_as-serialize_single_as rec back m to f type_sfixed64 c u n = refl
  parse_single_as-serialize_single_as rec back m to f type_sint32 c u n = refl
  parse_single_as-serialize_single_as rec back m to f type_sint64 c u n = refl
