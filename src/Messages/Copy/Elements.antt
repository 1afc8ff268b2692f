-- ===== src/Messages/Copy/Elements.antt =====
-- parse_repeated_field behind serialize_repeated_field (messages.cpp).
use trezor_plugin.Prelude.{ℕ, zero, suc, ◌+◌, ◌≡◌, refl, ap, sym, ◌∙◌, some, List, elim_some}
use trezor_plugin.Exceptions.{Outcome, ok, fault, ◌>>=◌}
use trezor_plugin.Libraries.Boost.{Boost}
use trezor_plugin.Libraries.Protobuf.{
  Protobuf, EnumValue, Scalar, Carrier, double, float, int32, uint32, boolean, string, FieldType,
  type_double, type_float, type_int32, type_bool, type_string, type_message, type_bytes,
  type_uint32, type_enum,
}
use trezor_plugin.Libraries.FireBreath.{Variants}
use trezor_plugin.Messages.Serialize.{VariantMap, collect, serialize_repeated_as}
use trezor_plugin.Messages.Parse.{Rec, is_parsed, add_element, add_elements, parse_repeated_field}
use trezor_plugin.Messages.RoundTrip.{Converts, Unhexes, bind-ok}
use trezor_plugin.Messages.Copy.{bind-inv, copy_element, copy_elements}

ok-injective : {A : Type 0} {a b : A} → ok a ≡ ok b → a ≡ b
ok-injective h = cc

module _ (boost : Boost) (pb : Protobuf) (fb : Variants pb) (c : Converts pb fb)
    (u : Unhexes boost pb fb) (rec : pb.Message → Outcome (VariantMap boost pb fb))
    (back : Rec boost pb fb) (sub : pb.Message → pb.Message → pb.Message) (m : pb.Message)
    (f : pb.Field) where
  open pb use {
    Message, field_type, field_size, get_repeated, get, get_repeated_enum, get_repeated_message,
    new_element, enum_type, value_by_name,
  }

  -- A variant made of a plain value, and taken for it.
  cast-made :
      {A : Type 0} (s : Scalar) (x : Carrier pb.Double pb.Float s) (v : fb.Variant)
      (k : Carrier pb.Double pb.Float s → Outcome A)
      → ok (fb.of s x) ≡ ok v
      → (fb.cast s v >>= k) ≡ k x
  cast-made s x v k h =
      ap (λ w. fb.cast s w >>= k) (sym (ok-injective h))
      ∙ bind-ok (fb.cast s (fb.of s x)) x k (c.cast-of s x)

  -- The elements from `i` on, when each is added as it was serialized.
  add_elements-collect :
      (t : FieldType) (element : ℕ → Outcome fb.Variant)
      → field_type f ≡ t
      → ((i : ℕ) (to : Message) (v : fb.Variant)
          → element i ≡ ok v
          → add_element boost pb fb back to f t v ≡ ok (copy_element pb sub m f t i to))
      → (n i : ℕ) (vs : List fb.Variant) (to : Message) → collect element n i ≡ ok vs
      → add_elements boost pb fb back to f vs ≡ ok (copy_elements pb sub m f t n i to)
  unfolding collect add_elements copy_elements
  add_elements-collect t element same step zero i vs to e =
      ap (add_elements boost pb fb back to f) (sym (ok-injective e))
  add_elements-collect t element same step (suc n) i vs to e =
      let (v, is_v, more) = bind-inv (element i) _ vs e in
      let (ws, is_ws, all) = bind-inv (collect element n (i + 1)) _ vs more in
      let added : add_element boost pb fb back to f (field_type f) v
          ≡ ok (copy_element pb sub m f t i to) =
        ap (λ k. add_element boost pb fb back to f k v) same ∙ step i to v is_v in
      ap (add_elements boost pb fb back to f) (sym (ok-injective all))
      ∙ bind-ok _ _ (λ to'. add_elements boost pb fb back to' f ws) added
      ∙ add_elements-collect t element same step n (i + 1) ws _ is_ws

  parse_repeated-collect :
      (t : FieldType) (element : ℕ → Outcome fb.Variant)
      → field_type f ≡ t
      → is_parsed boost pb fb t ≡ ok tt
      → ((i : ℕ) (to : Message) (v : fb.Variant)
          → element i ≡ ok v
          → add_element boost pb fb back to f t v ≡ ok (copy_element pb sub m f t i to))
      → (v : fb.Variant) (to : Message)
      → (collect element (field_size m f) 0 >>= λ vs. ok (fb.of_list vs)) ≡ ok v
      → (fb.cast_list v >>= λ vs. parse_repeated_field boost pb fb back to f vs)
        ≡ ok (copy_elements pb sub m f t (field_size m f) 0 to)
  unfolding parse_repeated_field
  parse_repeated-collect t element same parsed step v to e =
      let (vs, is_vs, made) = bind-inv (collect element (field_size m f) 0) _ v e in
      ap (λ w. fb.cast_list w >>= λ vs. parse_repeated_field boost pb fb back to f vs)
        (sym (ok-injective made))
      ∙ bind-ok _ vs (λ vs. parse_repeated_field boost pb fb back to f vs) (c.cast_list-of_list vs)
      ∙ bind-ok _ tt (λ _. add_elements boost pb fb back to f vs)
          (ap (is_parsed boost pb fb) same ∙ parsed)
      ∙ add_elements-collect t element same step (field_size m f) 0 vs to is_vs

  -- A repeated field that serializes is copied, when its submessages are.
  pub parse_repeated-copy_elements :
      (t : FieldType) (v : fb.Variant) (to : Message)
      → field_type f ≡ t
      → (t ≡ type_enum
          → (i : ℕ)
          → value_by_name (enum_type f) ((get_repeated_enum m f i).name)
            ≡ some (get_repeated_enum m f i))
      → (t ≡ type_message
          → (i : ℕ) (to : Message) (map : VariantMap boost pb fb)
          → rec (get_repeated_message m f i) ≡ ok map
          → back (new_element to f) map ≡ ok (sub (get_repeated_message m f i) (new_element to f)))
      → serialize_repeated_as boost pb fb rec m f t ≡ ok v
      → (fb.cast_list v >>= λ vs. parse_repeated_field boost pb fb back to f vs)
        ≡ ok (copy_elements pb sub m f t (field_size m f) 0 to)
  unfolding serialize_repeated_as add_element
  parse_repeated-copy_elements type_double v to same enum message e =
      parse_repeated-collect type_double (λ i. ok (fb.of double (get_repeated double m f i))) same
        refl (λ i to v h. cast-made double _ v _ h) v to e
  parse_repeated-copy_elements type_float v to same enum message e =
      parse_repeated-collect type_float (λ i. ok (fb.of float (get_repeated float m f i))) same refl
        (λ i to v h. cast-made float _ v _ h) v to e
  parse_repeated-copy_elements type_int32 v to same enum message e =
      parse_repeated-collect type_int32 (λ i. ok (fb.of int32 (get_repeated int32 m f i))) same refl
        (λ i to v h. cast-made int32 _ v _ h) v to e
  parse_repeated-copy_elements type_uint32 v to same enum message e =
      parse_repeated-collect type_uint32 (λ i. ok (fb.of uint32 (get_repeated uint32 m f i))) same
        refl (λ i to v h. cast-made uint32 _ v _ h) v to e
  parse_repeated-copy_elements type_bool v to same enum message e =
      parse_repeated-collect type_bool (λ i. ok (fb.of boolean (get_repeated boolean m f i))) same
        refl (λ i to v h. cast-made boolean _ v _ h) v to e
  parse_repeated-copy_elements type_string v to same enum message e =
      parse_repeated-collect type_string (λ i. fault) same refl (λ i to v h. absurd cc) v to e
  parse_repeated-copy_elements type_bytes v to same enum message e =
      parse_repeated-collect type_bytes (λ i. fault) same refl (λ i to v h. absurd cc) v to e
  parse_repeated-copy_elements type_enum v to same enum message e =
      parse_repeated-collect type_enum (λ i. ok (fb.of string ((get_repeated_enum m f i).name)))
        same refl
        (λ i to v h.
          cast-made string _ v _ h
          ∙ ap (λ (o : Outcome EnumValue). o >>= λ w. ok (pb.add_enum to f w))
              (elim_some _ _ _ _ (enum refl i)))
        v to e
  parse_repeated-copy_elements type_message v to same enum message e =
      parse_repeated-collect type_message
        (λ i. rec (get_repeated_message m f i) >>= λ map. ok (fb.of_map map)) same refl
        (λ i to v h.
          let (map, is_map, made) = bind-inv (rec (get_repeated_message m f i)) _ v h in
          let add_it : VariantMap boost pb fb → Outcome Message =
            λ map. back (new_element to f) map >>= λ fm. ok (pb.add_message to f fm) in
          ap (λ w. fb.cast_map w >>= add_it) (sym (ok-injective made))
          ∙ bind-ok _ map add_it (c.cast_map-of_map map)
          ∙ bind-ok _ _ (λ fm. ok (pb.add_message to f fm)) (message refl i to map is_map))
        v to e
  parse_repeated-copy_elements _ v to same enum message e = absurd cc
