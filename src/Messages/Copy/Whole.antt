-- ===== src/Messages/Copy/Whole.antt =====
-- message_from_map behind message_to_map (messages.cpp): a whole message.
use trezor_plugin.Prelude.{
  ℕ, zero, suc, ◌≡◌, refl, ap, sym, ◌∙◌, inl, inr, true, false, Bool-cases, none, some, List, [],
  ◌∷◌, codes, if_true, if_false, All,
}
use trezor_plugin.Exceptions.{Outcome, ok}
use trezor_plugin.Libraries.Boost.{Boost}
use trezor_plugin.Libraries.Protobuf.{Protobuf, type_message, type_enum}
use trezor_plugin.Libraries.FireBreath.{Variants}
use trezor_plugin.Messages.Serialize.{annotate, VariantMap, message_to_map}
use trezor_plugin.Messages.Parse.{Rec, find, field_from_map, fields_from_map, message_from_map}
use trezor_plugin.Messages.RoundTrip.{Converts, Unhexes}
use trezor_plugin.Messages.Copy.{
  Known, KnownField, copy_field, copy_fields, copy, parse_single_as-copy_as,
}
use trezor_plugin.Messages.Copy.Elements.{parse_repeated-copy_elements}
use trezor_plugin.Messages.Copy.Recorded.{Recorded, fields_to_map-Recorded}

module _ (boost : Boost) (pb : Protobuf) (fb : Variants pb) (c : Converts pb fb)
    (u : Unhexes boost pb fb) where
  open pb use {
    Message, Field, fields, field_name, field_type, is_repeated, has_field, get_enum, get_message,
    mutable_message, enum_type, value_by_name, get_repeated_enum, get_repeated_message, new_element,
  }

  -- The submessages of a field come back as copies, and its enum knows its values.
  record Ready (rec : Message → Outcome (VariantMap boost pb fb)) (back : Rec boost pb fb)
      (sub : Message → Message → Message) (m : Message) (f : Field) : Type 0 where
    enum :
        is_repeated f ≡ false
        → field_type f ≡ type_enum
        → value_by_name (enum_type f) ((get_enum m f).name) ≡ some (get_enum m f)
    enums :
        is_repeated f ≡ true
        → field_type f ≡ type_enum
        → (i : ℕ)
        → value_by_name (enum_type f) ((get_repeated_enum m f i).name)
          ≡ some (get_repeated_enum m f i)
    message :
        is_repeated f ≡ false
        → field_type f ≡ type_message
        → (to : Message) (map : VariantMap boost pb fb) → rec (get_message m f) ≡ ok map
        → back (mutable_message to f) map ≡ ok (sub (get_message m f) (mutable_message to f))
    messages :
        is_repeated f ≡ true
        → field_type f ≡ type_message
        → (i : ℕ) (to : Message) (map : VariantMap boost pb fb)
        → rec (get_repeated_message m f i) ≡ ok map
        → back (new_element to f) map ≡ ok (sub (get_repeated_message m f i) (new_element to f))

  field_from_map-copy_field :
      (rec : Message → Outcome (VariantMap boost pb fb)) (back : Rec boost pb fb)
      (sub : Message → Message → Message) (m to : Message) (f : Field)
      (map : VariantMap boost pb fb)
      → Ready rec back sub m f
      → Recorded boost pb fb rec m map f
      → field_from_map boost pb fb back to f map ≡ ok (copy_field pb sub m to f)
  unfolding field_from_map
  field_from_map-copy_field rec back sub m to f map r (inl (skipped, absent)) =
      elim (Bool-cases (is_repeated f)) [
        | inl many ↦ let clash : true ≡ false = sym (if_true _ _ _ many) ∙ skipped in absurd cc
        | inr single ↦
            let unset : has_field m f ≡ false = sym (if_false _ _ _ single) ∙ skipped in
            rw (absent, field_from_map) (ap ok (sym (if_false _ _ _ single ∙ if_false _ _ _ unset)))
      ]
  field_from_map-copy_field rec back sub m to f map r (inr (taken, v, is_v, found)) =
      elim (Bool-cases (is_repeated f)) [
        | inl many ↦
            rw (found, many, field_from_map)
              (ap parsing (
                parse_repeated-copy_elements boost pb fb c u rec back sub m f (field_type f) v to
                  refl (r.enums many) (r.messages many) (sym (if_true _ _ _ many) ∙ is_v)))
        | inr single ↦
            let set : has_field m f ≡ true = sym (if_false _ _ _ single) ∙ taken in
            rw (found, single, field_from_map)
              (ap parsing (
                  parse_single_as-copy_as boost pb fb rec back sub m to f (field_type f) v c u
                    (r.enum single) (λ is_message. r.message single is_message to)
                    (sym (if_false _ _ _ single) ∙ is_v))
                ∙ ap ok (sym (if_true _ _ _ set)))
      ]
    where
      parsing : Outcome Message → Outcome Message
      parsing =
          annotate boost (codes "Error while parsing ") (pb.full_name f) (codes ", caused by: ")

  fields_from_map-copy_fields :
      (rec : Message → Outcome (VariantMap boost pb fb)) (back : Rec boost pb fb)
      (sub : Message → Message → Message) (m : Message) (fs : List Field) (to : Message)
      (map : VariantMap boost pb fb)
      → All (Ready rec back sub m) fs
      → All (Recorded boost pb fb rec m map) fs
      → fields_from_map boost pb fb back to fs map ≡ ok (copy_fields pb sub m fs to)
  unfolding fields_from_map copy_fields
  fields_from_map-copy_fields rec back sub m [] to map r h = refl
  fields_from_map-copy_fields rec back sub m (f ∷ fs) to map (r, rs) (h, hs) =
      rw (field_from_map-copy_field rec back sub m to f map r h)
        (fields_from_map-copy_fields rec back sub m fs (copy_field pb sub m to f) map rs hs)

  -- The fields of a message, when its submessages come back as copies.
  KnownField-Ready :
      (rec : Message → Outcome (VariantMap boost pb fb)) (back : Rec boost pb fb)
      (sub : Message → Message → Message) (depth : ℕ) (m : Message) (fs : List Field)
      → ((part : Message) (to : Message) (map : VariantMap boost pb fb)
          → Known pb depth part
          → fields to ≡ fields part
          → rec part ≡ ok map
          → back to map ≡ ok (sub part to))
      → ((m to : Message) (f : Field) → fields (mutable_message to f) ≡ fields (get_message m f))
      → ((m to : Message) (f : Field) (i : ℕ)
          → fields (new_element to f) ≡ fields (get_repeated_message m f i))
      → All (KnownField pb (Known pb depth) m) fs
      → All (Ready rec back sub m) fs
  KnownField-Ready rec back sub depth m [] ih typed typed_element h = tt
  KnownField-Ready rec back sub depth m (f ∷ fs) ih typed typed_element (h, hs) = (
    record {
      enum = h.enum;
      enums = h.enums;
      message = λ single is_message to map.
          ih (get_message m f) (mutable_message to f) map (h.message single is_message)
            (typed m to f);
      messages = λ many is_message i to map.
          ih (get_repeated_message m f i) (new_element to f) map (h.messages many is_message i)
            (typed_element m to f i);
    },
    KnownField-Ready rec back sub depth m fs ih typed typed_element hs,
  )

  nothing_found : (fs : List Field) → All (λ f. find {V = fb.Variant} (field_name f) [] ≡ none) fs
  unfolding find
  nothing_found [] = tt
  nothing_found (f ∷ fs) = (refl, nothing_found fs)

  -- When message_to_map made a map of a message, message_from_map succeeds on that map, and copies
  -- the message: `to`, of the same type, gets every set field of `m` by the setter of the field's
  -- type, every element of its repeated fields, and each submessage the fields of its own likewise,
  -- up to the depth that was given. A message with an element in a repeated field of strings or bytes
  -- has no such map. It needs fields with distinct names, enums that know their values, variants that
  -- convert back, a hex codec that undoes itself, and submessages whose fields are those of the
  -- field's type.
  pub message_from_map-message_to_map :
      ((m to : Message) (f : Field) → fields (mutable_message to f) ≡ fields (get_message m f))
      → ((m to : Message) (f : Field) (i : ℕ)
          → fields (new_element to f) ≡ fields (get_repeated_message m f i))
      → (depth : ℕ) (m to : Message) (map : VariantMap boost pb fb) → Known pb depth m
      → fields to ≡ fields m
      → message_to_map boost pb fb depth m ≡ ok map
      → message_from_map boost pb fb depth to map ≡ ok (copy pb depth m to)
  unfolding message_to_map message_from_map copy
  message_from_map-message_to_map typed typed_element zero m to map known same e = absurd cc
  message_from_map-message_to_map typed typed_element (suc depth) m to map (distinct, known) same
        e =
      let rec = message_to_map boost pb fb depth in
      let back = message_from_map boost pb fb depth in
      let ready =
        KnownField-Ready rec back (copy pb depth) depth m (fields m)
          (message_from_map-message_to_map typed typed_element depth) typed typed_element known in
      rw same (
        fields_from_map-copy_fields rec back (copy pb depth) m (fields m) to map ready (
          fields_to_map-Recorded boost pb fb rec m (fields m) [] map distinct
            (nothing_found (fields m)) e))
