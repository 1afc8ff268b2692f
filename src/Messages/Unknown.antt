-- ===== src/Messages/Unknown.antt =====
-- message_from_map (messages.cpp) and keys that name no field.
use trezor_plugin.Prelude.{
  ℕ, zero, suc, ◌≡◌, refl, ap, ◌∙◌, false, List, [], ◌∷◌, Bytes, All, if_false,
}
use trezor_plugin.Prelude.Tests.{bytes_eq}
use trezor_plugin.Exceptions.{Outcome, ◌>>=◌}
use trezor_plugin.Libraries.Boost.{Boost}
use trezor_plugin.Libraries.Protobuf.{Protobuf}
use trezor_plugin.Libraries.FireBreath.{Variants}
use trezor_plugin.Messages.Parse.{Rec, find, field_from_map, fields_from_map, message_from_map}
use trezor_plugin.Messages.RoundTrip.{bind-cong}

find_other :
    {V : Type 0} (name k : Bytes) (v : V) (rest : List (Bytes × V))
    → bytes_eq k name ≡ false
    → find name ((k, v) ∷ rest) ≡ find name rest
unfolding find
find_other name k v rest h = if_false _ _ _ h

module _ (boost : Boost) (pb : Protobuf) (fb : Variants pb) where
  open pb use {Message, Field, fields, field_name}

  field_from_map_other :
      (rec : Rec boost pb fb) (m : Message) (f : Field) (k : Bytes) (v : fb.Variant)
      (map : List (Bytes × fb.Variant))
      → bytes_eq k (field_name f) ≡ false
      → field_from_map boost pb fb rec m f ((k, v) ∷ map) ≡ field_from_map boost pb fb rec m f map
  unfolding field_from_map
  field_from_map_other rec m f k v map h =
      rw (find_other (field_name f) k v map h, field_from_map) refl

  fields_from_map_other :
      (rec : Rec boost pb fb) (m : Message) (fs : List Field) (k : Bytes) (v : fb.Variant)
      (map : List (Bytes × fb.Variant))
      → All (λ f. bytes_eq k (field_name f) ≡ false) fs
      → fields_from_map boost pb fb rec m fs ((k, v) ∷ map)
        ≡ fields_from_map boost pb fb rec m fs map
  unfolding fields_from_map
  fields_from_map_other rec m [] k v map h = refl
  fields_from_map_other rec m (f ∷ fs) k v map (h, hs) =
      ap (λ (r : Outcome Message). r >>= λ m'. fields_from_map boost pb fb rec m' fs ((k, v) ∷ map))
        (field_from_map_other rec m f k v map h)
      ∙ bind-cong (field_from_map boost pb fb rec m f map) _ _
          (λ m'. fields_from_map_other rec m' fs k v map hs)

  -- An entry of the map whose key names no field of the message is ignored by message_from_map: it
  -- makes the same message, or fails in the same way, as without the entry.
  message_from_map_unknown :
      (depth : ℕ) (m : Message) (k : Bytes) (v : fb.Variant) (map : List (Bytes × fb.Variant))
      → All (λ f. bytes_eq k (field_name f) ≡ false) (fields m)
      → message_from_map boost pb fb depth m ((k, v) ∷ map)
        ≡ message_from_map boost pb fb depth m map
  unfolding message_from_map
  message_from_map_unknown zero m k v map h = refl
  message_from_map_unknown (suc depth) m k v map h =
      fields_from_map_other (message_from_map boost pb fb depth) m (fields m) k v map h
