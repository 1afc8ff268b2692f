-- ===== src/Tests/Copies.antt =====
-- A message made a map, and a message again.
use trezor_plugin.Prelude.{◌≡◌, refl, sym, [], ◌∷◌, codes}
use trezor_plugin.Prelude.Tests.{bytes_eq}
use trezor_plugin.Exceptions.{ok}
use trezor_plugin.Libraries.Protobuf.{string}
use trezor_plugin.Messages.Serialize.{
  insert, serialize_single_as, field_to_map, fields_to_map, message_to_map,
}
use trezor_plugin.Messages.Parse.{message_from_map}
use trezor_plugin.Messages.Copy.{copy, copy_fields}
use trezor_plugin.Messages.Copy.Whole.{message_from_map-message_to_map}
use trezor_plugin.Messages.Repeated.{Serializable, message_to_map-Serializable}
use trezor_plugin.Tests.{plain_boost, notes, hello}
use trezor_plugin.Tests.Variants.{values, values-Converts}

message_from_map-message_to_map_example :
    message_from_map plain_boost notes values 1
      (codes "Ping", [])
      ((codes "text", values.of string (codes "hello")) ∷ [])
    ≡ ok (copy notes 1 hello (codes "Ping", []))
unfolding message_to_map fields_to_map field_to_map serialize_single_as insert bytes_eq
message_from_map-message_to_map_example =
    message_from_map-message_to_map plain_boost notes values values-Converts (λ b s e. sym e)
      (λ m to f. refl) (λ m to f i. refl) 1 hello (codes "Ping", [])
      ((codes "text", values.of string (codes "hello")) ∷ [])
      (
        (tt, tt),
        (
          record {
            enum = λ single e. refl;
            enums = λ many e i. refl;
            message = λ single e. tt;
            messages = λ many e i. tt;
          },
          tt,
        ),
      )
      refl refl

-- The copy is the message.
copy-hello : copy notes 1 hello (codes "Ping", []) ≡ hello
unfolding copy copy_fields
copy-hello = refl

message_to_map-Serializable_example : Serializable plain_boost notes values 1 hello
unfolding message_to_map fields_to_map field_to_map serialize_single_as insert bytes_eq
message_to_map-Serializable_example =
    message_to_map-Serializable plain_boost notes values 1 hello
      ((codes "text", values.of string (codes "hello")) ∷ []) refl
