-- ===== src/Messages/Laws.antt =====
-- message_name and message_type (messages.cpp).
use trezor_plugin.Prelude.{
  ℕ, ◌%◌, ◌^◌, ◌<◌, ◌≡◌, ◌≢◌, refl, ap, sym, ◌∙◌, ◌++◌, Bytes, length, length-append, drop-append,
  le→ltb, arith, elim_some, some, if_false, Option-cases, inl, inr,
}
use trezor_plugin.Prelude.Int.{pos}
use trezor_plugin.Exceptions.{ok, out_of_fuel, blocked}
use trezor_plugin.Libraries.Protobuf.{Protobuf}
use trezor_plugin.Messages.Names.{
  message_type_enum_name, message_type_prefix, to_u16, substr, message_name, message_type, decode,
}

substr-append : (s t : Bytes) → substr (s ++ t) (length s) ≡ ok t
substr-append s t =
    if_false _ _ _ (le→ltb (length (s ++ t)) (length s) (omega (arith, length-append s t)))
    ∙ ap ok (drop-append (length s) s t refl)

module _ (pb : Protobuf) (pool : pb.Pool) where
  pub decode-ne-out_of_fuel : (type : ℕ) (bytes : Bytes) → decode pb pool type bytes ≢ out_of_fuel
  unfolding decode
  decode-ne-out_of_fuel type bytes = ground arith

  pub decode-ne-blocked : (type : ℕ) (bytes : Bytes) → decode pb pool type bytes ≢ blocked
  unfolding decode
  decode-ne-blocked type bytes = ground arith

  -- An enum whose values have 16-bit numbers and no aliases: a value that is found under a name has
  -- that name, and is the one that is found under its number.
  abbrev pub Numbered : pb.EnumDescriptor → Type 0
  Numbered ed =
      (name : Bytes) (v : trezor_plugin.Libraries.Protobuf.EnumValue)
      → pb.value_by_name ed name ≡ some v
      → (v.name ≡ name)
        × (n : ℕ) × (v.number ≡ pos n)
        × (n < 2 ^ 16)
        × (pb.value_by_number ed n ≡ some v)

  -- The number that message_type finds for a name is one under which message_name finds the name
  -- again, the prefix "MessageType_" put on and taken off, if the enum of message types has 16-bit
  -- numbers and no aliases.
  pub message_name-message_type :
      (name : Bytes) (type : ℕ)
      → ((ed : pb.EnumDescriptor)
          → pb.find_enum_type pool message_type_enum_name ≡ some ed
          → Numbered ed)
      → message_type pb pool name ≡ ok type
      → message_name pb pool type ≡ ok name
  unfolding message_type message_name
  message_name-message_type name type h e =
      elim (Option-cases (pb.find_enum_type pool message_type_enum_name)) [
        | inl none_found ↦ absurd (ground (arith))
        | inr (ed, there) ↦
            elim (Option-cases (pb.value_by_name ed (message_type_prefix ++ name))) [
              | inl none_found ↦ absurd (ground (arith))
              | inr (v, by_name) ↦
                  let (named, n, num, small, back) = h ed there _ v by_name in
                  let t : to_u16 (v.number) ≡ type = ground arith in
                  let kept : n % 2 ^ 16 ≡ n = omega arith in
                  let same : type ≡ n = sym t ∙ ap to_u16 num ∙ kept in
                  ap (message_name pb pool) same
                  ∙ elim_some _ ed _ _ there
                  ∙ elim_some _ v _ _ back
                  ∙ ap (λ s. substr s (length message_type_prefix)) named
                  ∙ substr-append message_type_prefix name
            ]
      ]
