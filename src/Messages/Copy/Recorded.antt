-- ===== src/Messages/Copy/Recorded.antt =====
-- What message_to_map leaves in its map (messages.cpp).
use trezor_plugin.Prelude.{
  Bool, ◌≡◌, ◌≢◌, refl, ap, sym, ◌∙◌, ◌⊎◌, inl, inr, true, false, none, some, List, [], ◌∷◌, Bytes,
  codes, bytes_eq, bytes_eq→eq, bytes_eq_refl, if◌then◌else◌, if_true, if_false, Bool-cases, All,
}
use trezor_plugin.Exceptions.{Outcome, ok, throw, fault, blocked, out_of_fuel, thread_interrupted}
use trezor_plugin.Libraries.Boost.{Boost}
use trezor_plugin.Libraries.Protobuf.{Protobuf}
use trezor_plugin.Libraries.FireBreath.{Variants}
use trezor_plugin.Messages.Serialize.{
  insert, annotate, VariantMap, serialize_single_field, serialize_repeated_field, field_to_map,
  fields_to_map,
}
use trezor_plugin.Messages.Parse.{find}
use trezor_plugin.Messages.Copy.{bind-inv, NamesDistinct}

module _ {V : Type 0} where
  find_cons :
      (p k : Bytes) (v : V) (r : List (Bytes × V))
      → find p ((k, v) ∷ r) ≡ (if bytes_eq k p then some v else find p r)
  unfolding find
  find_cons p k v r = refl

  -- The entry that was inserted is found, and so are the others.
  find-insert : (name : Bytes) (v : V) (r : List (Bytes × V)) → find name (insert name v r) ≡ some v
  unfolding insert find
  find-insert name v [] = if_true _ _ _ (bytes_eq_refl name)
  find-insert name v ((k, w) ∷ r) = elim (Bool-cases (bytes_eq k name)) [
    | inl e ↦ rw e (if_true _ _ _ (bytes_eq_refl name))
    | inr e ↦ rw e (rw e (find-insert name v r))
  ]

  find-insert_other :
      (p name : Bytes) (v : V) (r : List (Bytes × V))
      → bytes_eq name p ≡ false
      → find p (insert name v r) ≡ find p r
  unfolding insert find
  find-insert_other p name v [] ne = if_false _ _ _ ne
  find-insert_other p name v ((k, w) ∷ r) ne = elim (Bool-cases (bytes_eq k name)) [
    | inl e ↦
        let same : bytes_eq k p ≡ false = ap (λ t. bytes_eq t p) (bytes_eq→eq k name e) ∙ ne in
        rw (e, ne, same)
    | inr e ↦ rw (e, find_cons p k w (insert name v r), find-insert_other p name v r ne)
  ]

pub annotate-inv :
    {A : Type 0} (boost : Boost) (b n c : Bytes) (r : Outcome A) (a : A)
    → annotate boost b n c r ≡ ok a
    → r ≡ ok a
annotate-inv boost b n c (ok x) a e = e
annotate-inv boost b n c (throw thread_interrupted) a e = absurd cc
annotate-inv boost b n c (throw x) a e = absurd cc
annotate-inv boost b n c fault a e = absurd cc
annotate-inv boost b n c blocked a e = absurd cc
annotate-inv boost b n c out_of_fuel a e = absurd cc

ok-injective : {A : Type 0} {a b : A} → ok a ≡ ok b → a ≡ b
ok-injective h = cc

pub bytes_eq_apart : (a b : Bytes) → a ≢ b → bytes_eq a b ≡ false
bytes_eq_apart a b ne = elim (Bool-cases (bytes_eq a b)) [
  | inl e ↦ absurd (ne (bytes_eq→eq a b e))
  | inr e ↦ e
]

module _ (boost : Boost) (pb : Protobuf) (fb : Variants pb) where
  open pb use {Message, Field, field_name, is_repeated, has_field}

  -- Whether the loop takes a field, and what it makes of it.
  abbrev pub is_taken : Message → Field → Bool
  is_taken m f = if is_repeated f then true else has_field m f

  abbrev pub serialize_field :
      (Message → Outcome (VariantMap boost pb fb)) → Message → Field → Outcome fb.Variant
  serialize_field rec m f =
      if is_repeated f
      then serialize_repeated_field boost pb fb rec m f
      else serialize_single_field boost pb fb rec m f

  -- A field is not taken and not in the map, or is in the map as it serializes.
  abbrev pub Recorded :
      (Message → Outcome (VariantMap boost pb fb))
      → Message
      → VariantMap boost pb fb
      → Field
      → Type 0
  Recorded rec m map f =
      ((is_taken m f ≡ false) × (find (field_name f) map ≡ none))
      ⊎ ((is_taken m f ≡ true)
          × (v : fb.Variant) × (serialize_field rec m f ≡ ok v)
          × (find (field_name f) map ≡ some v))

  -- A round of the loop.
  abbrev Rounded :
      (Message → Outcome (VariantMap boost pb fb))
      → Message
      → Field
      → (result result' : VariantMap boost pb fb) → Type 0
  Rounded rec m f result result' =
      ((is_taken m f ≡ false) × (result' ≡ result))
      ⊎ ((is_taken m f ≡ true)
          × (v : fb.Variant) × (serialize_field rec m f ≡ ok v)
          × (result' ≡ insert (field_name f) v result))

  field_to_map-Rounded :
      (rec : Message → Outcome (VariantMap boost pb fb)) (m : Message) (f : Field)
      (result result' : VariantMap boost pb fb)
      → field_to_map boost pb fb rec m f result ≡ ok result'
      → Rounded rec m f result result'
  unfolding field_to_map
  field_to_map-Rounded rec m f result result' e = elim (Bool-cases (is_repeated f)) [
    | inl many ↦
        let (v, is_v, last) =
          bind-inv (serialize_repeated_field boost pb fb rec m f) _ result'
            (serialized f _ result' (rw many at e)) in
        inr (if_true _ _ _ many, v, (if_true _ _ _ many ∙ is_v), sym (ok-injective last))
    | inr single ↦ elim (Bool-cases (has_field m f)) [
      | inl set ↦
          let (v, is_v, last) =
            bind-inv (serialize_single_field boost pb fb rec m f) _ result'
              (serialized f _ result' (rw (single, set) at e)) in
          inr (
            (if_false _ _ _ single ∙ set),
            v,
            (if_false _ _ _ single ∙ is_v),
            sym (ok-injective last),
          )
      | inr unset ↦ inl (
        (if_false _ _ _ single ∙ unset),
        sym (ok-injective (serialized f _ result' (rw (single, unset) at e))),
      )
    ]
  ]
    where
      serialized :
          (f : Field) (r : Outcome (VariantMap boost pb fb)) (map : VariantMap boost pb fb)
          → annotate boost
              (codes "Error while serializing '")
              (pb.full_name f)
              (codes "', caused by: ")
              r
            ≡ ok map
          → r ≡ ok map
      serialized f r map =
          annotate-inv boost (codes "Error while serializing '") (pb.full_name f)
            (codes "', caused by: ") r map

  -- What the rounds of other fields leave of an entry.
  find-fields_to_map :
      (rec : Message → Outcome (VariantMap boost pb fb)) (m : Message) (p : Bytes) (fs : List Field)
      (result map : VariantMap boost pb fb)
      → All (λ f. p ≢ field_name f) fs
      → fields_to_map boost pb fb rec m fs result ≡ ok map
      → find p map ≡ find p result
  unfolding fields_to_map
  find-fields_to_map rec m p [] result map n e = ap (find p) (sym (ok-injective e))
  find-fields_to_map rec m p (f ∷ fs) result map (n, ns) e =
      let (result', is_result', later) =
        bind-inv (field_to_map boost pb fb rec m f result) _ map e in
      find-fields_to_map rec m p fs result' map ns later
      ∙ elim (field_to_map-Rounded rec m f result result' is_result') [
        | inl (unset, same) ↦ ap (find p) same
        | inr (set, v, is_v, same) ↦
            ap (find p) same
            ∙ find-insert_other p (field_name f) v result (bytes_eq_apart _ _ (λ h. n (sym h)))
      ]

  pub fields_to_map-Recorded :
      (rec : Message → Outcome (VariantMap boost pb fb)) (m : Message) (fs : List Field)
      (result map : VariantMap boost pb fb)
      → NamesDistinct pb fs
      → All (λ f. find (field_name f) result ≡ none) fs
      → fields_to_map boost pb fb rec m fs result ≡ ok map
      → All (Recorded rec m map) fs
  unfolding fields_to_map
  fields_to_map-Recorded rec m [] result map n absent e = tt
  fields_to_map-Recorded rec m (f ∷ fs) result map (n, ns) (absent, others) e =
      let (result', is_result', later) =
        bind-inv (field_to_map boost pb fb rec m f result) _ map e in
      let kept = find-fields_to_map rec m (field_name f) fs result' map n later in
      let round = field_to_map-Rounded rec m f result result' is_result' in
      (
        elim round [
          | inl (unset, same) ↦ inl (unset, kept ∙ ap (find (field_name f)) same ∙ absent)
          | inr (set, v, is_v, same) ↦ inr (
            set,
            v,
            is_v,
            kept ∙ ap (find (field_name f)) same ∙ find-insert (field_name f) v result,
          )
        ],
        fields_to_map-Recorded rec m fs result' map ns (still_absent result' round fs n others)
            later,
      )
    where
      still_absent :
          (result' : VariantMap boost pb fb)
          → Rounded rec m f result result'
          → (gs : List Field) → All (λ g. field_name f ≢ field_name g) gs
          → All (λ g. find (field_name g) result ≡ none) gs
          → All (λ g. find (field_name g) result' ≡ none) gs
      still_absent result' round [] n a = tt
      still_absent result' (inl (unset, same)) (g ∷ gs) (n, ns) (a, rest) =
          (ap (find (field_name g)) same ∙ a, still_absent result' (inl (unset, same)) gs ns rest)
      still_absent result' (inr (set, v, is_v, same)) (g ∷ gs) (n, ns) (a, rest) = (
        ap (find (field_name g)) same
            ∙ find-insert_other (field_name g) (field_name f) v result (bytes_eq_apart _ _ n)
            ∙ a,
        still_absent result' (inr (set, v, is_v, same)) gs ns rest,
      )
