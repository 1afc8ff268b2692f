-- ===== src/Config/Wire/Size.antt =====
-- config.pb.cc: ByteSize of the messages of config.proto, which it also caches.
use trezor_plugin.Prelude.{
  ℕ, ◌+◌, ◌*◌, ◌%◌, ◌^◌, ◌<◌, ◌≡◌, refl, ap, ◌∙◌, ◌++◌, Option, none, some, List, [], ◌∷◌, Bytes,
  length, length-append, arith,
}
use trezor_plugin.Libraries.Protobuf.{Protobuf}
use trezor_plugin.Libraries.Coded.{Coded, Sizes, Measures, write_uint32, write_string}
use trezor_plugin.Config.{DeviceDescriptor, Configuration}
use trezor_plugin.Config.Wire.{if_set, each, descriptor_bytes, configuration_bytes}

-- What a field adds that is set, and the elements of a repeated one: a byte for the tag, and the
-- value's size.
abbrev pub size_if_set : {A : Type 0} → (A → ℕ) → Option A → ℕ
size_if_set size none = 0
size_if_set size (some a) = 1 + size a

abbrev pub size_of_values : {A : Type 0} → (A → ℕ) → List A → ℕ
size_of_values size [] = 0
size_of_values size (a ∷ as') = size a + size_of_values size as'

-- A repeated field: the code adds the tags first.
abbrev pub size_of_each : {A : Type 0} → (A → ℕ) → List A → ℕ
size_of_each size as' = length as' + size_of_values size as'

module _ {pb : Protobuf} (sizes : Sizes pb) where
  open sizes use {uint32_size, delimited_size, files_size}

  abbrev pub string_size : Bytes → ℕ
  string_size s = delimited_size (length s)

  -- DeviceDescriptor::ByteSize. The code sums in an int: what is returned are its 32 bits.
  unfoldable pub descriptor_size : DeviceDescriptor → ℕ
  descriptor_size d =
      (size_if_set uint32_size d.vendor_id_
        + size_if_set uint32_size d.product_id_
        + size_if_set string_size d.serial_number_
        + size_if_set string_size d.path_)
      % 2 ^ 32

  -- Configuration::ByteSize, which sums in an int, too.
  unfoldable pub configuration_size : Configuration pb → ℕ
  unfolding descriptor_size
  configuration_size c =
      (size_if_set (λ fs. delimited_size (files_size fs)) c.wire_protocol_
        + size_if_set uint32_size c.valid_until_
        + size_of_each string_size c.whitelist_urls
        + size_of_each string_size c.blacklist_urls
        + size_of_each (λ d. delimited_size (descriptor_size d)) c.known_devices)
      % 2 ^ 32

module _ {pb : Protobuf} (coded : Coded pb) (sizes : Sizes pb) (laws : Measures coded sizes) where
  length-if_set :
      {A : Type 0} (write : A → Bytes) (size : A → ℕ)
      → ((a : A) → length (write a) ≡ 1 + size a)
      → (o : Option A) → length (if_set coded write o) ≡ size_if_set size o
  length-if_set write size h none = refl
  length-if_set write size h (some a) = h a

  length-each :
      {A : Type 0} (write : A → Bytes) (size : A → ℕ)
      → ((a : A) → length (write a) < 2 ^ 31 → length (write a) ≡ 1 + size a)
      → (as' : List A) → length (each coded write as') < 2 ^ 31
      → length (each coded write as') ≡ size_of_each size as'
  length-each write size h [] small = refl
  length-each write size h (a ∷ as') small =
      let parts = length-append (write a) (each coded write as') in
      omega (
        arith,
        parts,
        h a (omega (arith, parts)),
        length-each write size h as' (omega (arith, parts)),
      )

  length-write_uint32 :
      (number v : ℕ) → number < 16 → length (write_uint32 coded number v) ≡ 1 + sizes.uint32_size v
  length-write_uint32 number v h = omega (
    arith,
    length-append (coded.tag_bytes (number * 8)) (coded.varint v),
    laws.tag_size (number * 8) (omega arith),
    laws.uint32_measured v,
  )

  length-write_string :
      (number : ℕ) (s : Bytes)
      → number < 15
      → length (write_string coded number s) ≡ 1 + sizes.delimited_size (length s)
  length-write_string number s h = omega (
    arith,
    length-append (coded.tag_bytes (number * 8 + 2)) (coded.delimited s),
    laws.tag_size (number * 8 + 2) (omega arith),
    laws.delimited_measured s,
  )

  length-descriptor_bytes :
      (d : DeviceDescriptor)
      → length (descriptor_bytes coded d) < 2 ^ 31
      → length (descriptor_bytes coded d) ≡ descriptor_size sizes d
  unfolding descriptor_bytes descriptor_size
  length-descriptor_bytes d small =
      let b1 = if_set coded (write_uint32 coded 1) d.vendor_id_ in
      let b2 = if_set coded (write_uint32 coded 2) d.product_id_ in
      let b3 = if_set coded (write_string coded 3) d.serial_number_ in
      let b4 = if_set coded (write_string coded 4) d.path_ in
      let number = λ (n : ℕ) (h : n < 16).
        length-if_set (write_uint32 coded n) sizes.uint32_size (λ v. length-write_uint32 n v h) in
      let text = λ (n : ℕ) (h : n < 15).
        length-if_set (write_string coded n) (string_size sizes) (λ s. length-write_string n s h) in
      omega (
        arith,
        length-append b1 (b2 ++ (b3 ++ b4)),
        length-append b2 (b3 ++ b4),
        length-append b3 b4,
        number 1 (omega arith) d.vendor_id_,
        number 2 (omega arith) d.product_id_,
        text 3 (omega arith) d.serial_number_,
        text 4 (omega arith) d.path_,
      )

  -- A device as it is written in a configuration: its own ByteSize stands before its bytes.
  length-known_device :
      (d : DeviceDescriptor)
      → length (write_string coded 4 (descriptor_bytes coded d)) < 2 ^ 31
      → length (write_string coded 4 (descriptor_bytes coded d))
        ≡ 1 + sizes.delimited_size (descriptor_size sizes d)
  length-known_device d small =
      let b = descriptor_bytes coded d in
      let whole = length-append (coded.tag_bytes (4 * 8 + 2)) (coded.delimited b) in
      let shorter : length b < 2 ^ 31 = omega (arith, whole, laws.delimited_longer b) in
      length-write_string 4 b (omega arith)
      ∙ ap (λ n. 1 + sizes.delimited_size n) (length-descriptor_bytes d shorter)

  -- ByteSize of a Configuration, summed in 32 bits, is the number of bytes that
  -- SerializeWithCachedSizes writes, when these are fewer than 2^31, which an int holds, and given
  -- that the library's sizes are those of what it writes: a device's is its own ByteSize, which is
  -- the number of the device's bytes.
  pub length-configuration_bytes :
      (c : Configuration pb)
      → length (configuration_bytes coded c) < 2 ^ 31
      → length (configuration_bytes coded c) ≡ configuration_size sizes c
  unfolding configuration_bytes configuration_size
  length-configuration_bytes c small =
      let write3 : List pb.FileDescriptor → Bytes =
        λ fs. write_string coded 3 (coded.files_bytes fs) in
      let write4 : DeviceDescriptor → Bytes =
        λ d. write_string coded 4 (descriptor_bytes coded d) in
      let b1 = each coded (write_string coded 1) c.whitelist_urls in
      let b2 = each coded (write_string coded 2) c.blacklist_urls in
      let b3 = if_set coded write3 c.wire_protocol_ in
      let b4 = each coded write4 c.known_devices in
      let b5 = if_set coded (write_uint32 coded 5) c.valid_until_ in
      let text = λ (n : ℕ) (h : n < 15).
        length-each (write_string coded n) (string_size sizes) (λ s _. length-write_string n s h) in
      let s1 = length-append b1 (b2 ++ (b3 ++ (b4 ++ b5))) in
      let s2 = length-append b2 (b3 ++ (b4 ++ b5)) in
      let s3 = length-append b3 (b4 ++ b5) in
      let s4 = length-append b4 b5 in
      omega (
        arith,
        s1,
        s2,
        s3,
        s4,
        text 1 (omega arith) c.whitelist_urls (omega (arith, s1)),
        text 2 (omega arith) c.blacklist_urls (omega (arith, s1, s2)),
        length-if_set write3 (λ fs. sizes.delimited_size (sizes.files_size fs))
            (λ fs.
              length-write_string 3 (coded.files_bytes fs) (omega arith)
              ∙ ap (λ n. 1 + sizes.delimited_size n) (laws.files_measured fs))
            c.wire_protocol_,
        length-each write4 (λ d. sizes.delimited_size (descriptor_size sizes d)) length-known_device
            c.known_devices (omega (arith, s1, s2, s3, s4)),
        length-if_set (write_uint32 coded 5) sizes.uint32_size
            (λ v. length-write_uint32 5 v (omega arith)) c.valid_until_,
      )
