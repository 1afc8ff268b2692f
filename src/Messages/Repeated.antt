-- ===== src/Messages/Repeated.antt =====
-- What message_to_map and serialize_repeated_field (messages.cpp) do not carry over: repeated fields
-- of 64-bit integers, and of strings and bytes.
use trezor_plugin.Prelude.{
  ℕ, zero, suc, ◌+◌, ◌≤◌, ◌<◌, ◌≡◌, ◌≢◌, refl, ap, sym, ◌∙◌, ◌⊎◌, inl, inr, List, [], ◌∷◌, codes,
  true, false, if_true, if_false, ltb, ltb→lt, ltb→le, All, Bool-cases, arith,
}
use trezor_plugin.Exceptions.{Outcome, ok, fault, ◌>>=◌}
use trezor_plugin.Libraries.Boost.{Boost}
use trezor_plugin.Libraries.Protobuf.{
  Protobuf, FieldType, type_int64, type_uint64, type_string, type_bytes, type_message,
}
use trezor_plugin.Libraries.FireBreath.{Variants}
use trezor_plugin.Messages.Serialize.{
  collect, serialize_single_as, serialize_repeated_as, field_to_map, fields_to_map, message_to_map,
  VariantMap, annotate,
}
use trezor_plugin.Messages.Copy.{bind-inv}
use trezor_plugin.Messages.Copy.Recorded.{annotate-inv}

-- What holds of each element that a loop collected.
collect-each :
    {V : Type 0} (element : ℕ → Outcome V) (P : ℕ → Type 0)
    → ((i : ℕ) (v : V) → element i ≡ ok v → P i)
    → (n i : ℕ) (vs : List V) → collect element n i ≡ ok vs
    → (j : ℕ) → i ≤ j
    → j < i + n
    → P j
unfolding collect
collect-each element P h zero i vs e j low high = absurd (omega arith)
collect-each element P h (suc n) i vs e j low high =
    let (v, is_v, more) = bind-inv (element i) _ vs e in
    let (ws, is_ws, all) = bind-inv (collect element n (i + 1)) _ vs more in
    elim (Bool-cases (ltb i j)) [
      | inl later ↦
          let above : i < j = ltb→lt i j later in
          collect-each element P h n (i + 1) ws is_ws j (omega arith) (omega arith)
      | inr first ↦
          let below : j ≤ i = ltb→le i j first in
          let same : j ≡ i = omega arith in rw same (h i v is_v)
    ]

-- Elements that cannot be had: there are none.
collect-fault : {V : Type 0} (n i : ℕ) (vs : List V) → collect (λ i. fault) n i ≡ ok vs → n ≡ 0
unfolding collect
collect-fault zero i vs e = refl
collect-fault (suc n) i vs e = absurd cc

module _ (boost : Boost) (pb : Protobuf) (fb : Variants pb) where
  open pb use {
    Message, Field, fields, field_size, field_type, is_repeated, has_field, get_message,
    get_repeated_message,
  }

  -- What a field of a message that message_to_map takes is like; `Sub` is what its submessages are.
  pub record Serializes (Sub : Message → Type 0) (m : Message) (f : Field) : Type 0 where
    pub narrow : is_repeated f ≡ true → (field_type f ≢ type_int64) × (field_type f ≢ type_uint64)
    pub no_strings :
        is_repeated f ≡ true
        → (field_type f ≡ type_string) ⊎ (field_type f ≡ type_bytes)
        → field_size m f ≡ 0
    pub part :
        is_repeated f ≡ false
        → has_field m f ≡ true
        → field_type f ≡ type_message
        → Sub (get_message m f)
    pub parts :
        is_repeated f ≡ true
        → field_type f ≡ type_message
        → (i : ℕ) → i < field_size m f
        → Sub (get_repeated_message m f i)

  -- Such are the fields of the message and of its submessages, up to a depth.
  abbrev pub Serializable : ℕ → Message → Type 0
  Serializable zero m = Unit
  Serializable (suc depth) m = All (Serializes (Serializable depth) m) (fields m)

  narrow-serialize_repeated_as :
      (rec : Message → Outcome (VariantMap boost pb fb)) (m : Message) (f : Field) (v : fb.Variant)
      → (t : FieldType) → serialize_repeated_as boost pb fb rec m f t ≡ ok v
      → (t ≢ type_int64) × (t ≢ type_uint64)
  unfolding serialize_repeated_as
  narrow-serialize_repeated_as rec m f v type_int64 e = absurd cc
  narrow-serialize_repeated_as rec m f v type_uint64 e = absurd cc
  narrow-serialize_repeated_as rec m f v t e = ((λ same. cc), λ same. cc)

  no_strings-serialize_repeated_as :
      (rec : Message → Outcome (VariantMap boost pb fb)) (m : Message) (f : Field) (v : fb.Variant)
      → (t : FieldType) → serialize_repeated_as boost pb fb rec m f t ≡ ok v
      → (t ≡ type_string) ⊎ (t ≡ type_bytes)
      → field_size m f ≡ 0
  unfolding serialize_repeated_as
  no_strings-serialize_repeated_as rec m f v type_string e s =
      let (vs, is_vs, _) = bind-inv (collect (λ i. fault) (field_size m f) 0) _ v e in
      collect-fault (field_size m f) 0 vs is_vs
  no_strings-serialize_repeated_as rec m f v type_bytes e s =
      let (vs, is_vs, _) = bind-inv (collect (λ i. fault) (field_size m f) 0) _ v e in
      collect-fault (field_size m f) 0 vs is_vs
  no_strings-serialize_repeated_as rec m f v t e (inl same) = absurd cc
  no_strings-serialize_repeated_as rec m f v t e (inr same) = absurd cc

  -- The submessages that a field serialized were taken themselves.
  part-serialize_single_as :
      (rec : Message → Outcome (VariantMap boost pb fb)) (Sub : Message → Type 0) (m : Message)
      (f : Field) (v : fb.Variant)
      → ((part : Message) (map : VariantMap boost pb fb) → rec part ≡ ok map → Sub part)
      → serialize_single_as boost pb fb rec m f type_message ≡ ok v
      → Sub (get_message m f)
  unfolding serialize_single_as
  part-serialize_single_as rec Sub m f v ih e =
      let (map, is_map, _) = bind-inv (rec (get_message m f)) _ v e in
      ih (get_message m f) map is_map

  parts-serialize_repeated_as :
      (rec : Message → Outcome (VariantMap boost pb fb)) (Sub : Message → Type 0) (m : Message)
      (f : Field) (v : fb.Variant)
      → ((part : Message) (map : VariantMap boost pb fb) → rec part ≡ ok map → Sub part)
      → serialize_repeated_as boost pb fb rec m f type_message ≡ ok v
      → (i : ℕ) → i < field_size m f
      → Sub (get_repeated_message m f i)
  unfolding serialize_repeated_as
  parts-serialize_repeated_as rec Sub m f v ih e i small =
      let element : ℕ → Outcome fb.Variant =
        λ i. rec (get_repeated_message m f i) >>= λ map. ok (fb.of_map map) in
      let (vs, is_vs, _) = bind-inv (collect element (field_size m f) 0) _ v e in
      collect-each element (λ i. Sub (get_repeated_message m f i))
        (λ i v is_v.
          let (map, is_map, _) = bind-inv (rec (get_repeated_message m f i)) _ v is_v in
          ih (get_repeated_message m f i) map is_map)
        (field_size m f) 0 vs is_vs i (omega arith) (omega arith)

  field_to_map-Serializes :
      (rec : Message → Outcome (VariantMap boost pb fb)) (Sub : Message → Type 0) (m : Message)
      (f : Field) (result map : VariantMap boost pb fb)
      → ((part : Message) (map : VariantMap boost pb fb) → rec part ≡ ok map → Sub part)
      → field_to_map boost pb fb rec m f result ≡ ok map
      → Serializes Sub m f
  unfolding field_to_map
  field_to_map-Serializes rec Sub m f result map ih e =
      let body = taken _ e in
      elim (Bool-cases (is_repeated f)) [
        | inl many ↦
            let (v, is_v, _) =
              bind-inv (serialize_repeated_as boost pb fb rec m f (field_type f)) _ map
                (sym (if_true _ _ _ many) ∙ body) in
            record {
              narrow = λ _. narrow-serialize_repeated_as rec m f v (field_type f) is_v;
              no_strings = λ _ s. no_strings-serialize_repeated_as rec m f v (field_type f) is_v s;
              part = λ single. absurd cc;
              parts = λ _ is_message.
                  parts-serialize_repeated_as rec Sub m f v ih
                    (ap (serialize_repeated_as boost pb fb rec m f) (sym is_message) ∙ is_v);
            }
        | inr single ↦ record {
          narrow = λ many. absurd cc;
          no_strings = λ many. absurd cc;
          part = λ _ set is_message.
              let (v, is_v, _) =
                bind-inv (serialize_single_as boost pb fb rec m f (field_type f)) _ map
                  (sym (if_true _ _ _ set) ∙ sym (if_false _ _ _ single) ∙ body) in
              part-serialize_single_as rec Sub m f v ih
                (ap (serialize_single_as boost pb fb rec m f) (sym is_message) ∙ is_v);
          parts = λ many. absurd cc;
        }
      ]
    where
      taken :
          (r : Outcome (VariantMap boost pb fb))
          → annotate boost
              (codes "Error while serializing '")
              (pb.full_name f)
              (codes "', caused by: ")
              r
            ≡ ok map
          → r ≡ ok map
      taken r =
          annotate-inv boost (codes "Error while serializing '") (pb.full_name f)
            (codes "', caused by: ") r map

  fields_to_map-All :
      (rec : Message → Outcome (VariantMap boost pb fb)) (Sub : Message → Type 0) (m : Message)
      (fs : List Field) (result map : VariantMap boost pb fb)
      → ((part : Message) (map : VariantMap boost pb fb) → rec part ≡ ok map → Sub part)
      → fields_to_map boost pb fb rec m fs result ≡ ok map
      → All (Serializes Sub m) fs
  unfolding fields_to_map
  fields_to_map-All rec Sub m [] result map ih e = tt
  fields_to_map-All rec Sub m (f ∷ fs) result map ih e =
      let (map', is_map, more) = bind-inv (field_to_map boost pb fb rec m f result) _ map e in
      (
        field_to_map-Serializes rec Sub m f result map' ih is_map,
        fields_to_map-All rec Sub m fs map' map ih more,
      )

  -- A message that message_to_map returns a map for, with no undefined call of protobuf on the way,
  -- has, up to the depth given, itself and in its submessages, no repeated field of type int64 or
  -- uint64, even an empty one, and no element in a repeated field of strings or bytes.
  pub message_to_map-Serializable :
      (depth : ℕ) (m : Message) (map : VariantMap boost pb fb)
      → message_to_map boost pb fb depth m ≡ ok map
      → Serializable depth m
  unfolding message_to_map
  message_to_map-Serializable zero m map e = tt
  message_to_map-Serializable (suc depth) m map e =
      fields_to_map-All (message_to_map boost pb fb depth) (Serializable depth) m (fields m) [] map
        (message_to_map-Serializable depth) e
