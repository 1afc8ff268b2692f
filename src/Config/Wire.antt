-- ===== src/Config/Wire.antt =====
-- config.pb.cc: the wire format of the messages of config.proto (MergePartialFromCodedStream and
-- SerializeWithCachedSizes). The loop of a parser, with its jumps into the cases, is a machine that
-- goes from label to label.
pub mod Machine
pub mod Fields
pub mod Descriptor
pub mod Labels
pub mod RoundTrip
pub mod Size
use trezor_plugin.Prelude.{
  ℕ, zero, suc, ◌+◌, ◌*◌, ◌/◌, ◌%◌, ◌++◌, Bool, true, false, Option, none, some, List, [], ◌∷◌,
  Bytes, length, ◌==◌, if◌then◌else◌,
}
use trezor_plugin.Libraries.Protobuf.{Protobuf}
use trezor_plugin.Libraries.Coded.{Coded, write_uint32, write_string}
use trezor_plugin.Config.{
  DeviceDescriptor, Configuration, default_configuration, wire_protocol, value_or,
}
use trezor_plugin.Config.Merge.{
  default_descriptor, set_vendor_id, set_product_id, set_serial_number, set_path, set_valid_until,
}

-- How a parser returns: true at the end of its bytes, true behind the end of a group, or false.
pub data Ending : Type 0 where
  finished grouped failed : Ending

-- Where a parser is: at the head of its loop (`none`) or at a field's label, with the message as
-- it is and the bytes to come; or it has returned.
pub data State (L M : Type 0) : Type 0 where
  at : Option L → M → Bytes → State L M
  halted : Ending → M → Bytes → State L M

-- GetTagFieldNumber and GetTagWireType.
abbrev pub is_field : (number wire_type : ℕ) → ℕ → Bool
is_field number wire_type tag = if tag / 8 == number then tag % 8 == wire_type else false

module _ {pb : Protobuf} (coded : Coded pb) where
  open coded use {
    read_tag, expect_tag, expect_at_end, read_uint32, read_string, enter, skip_field, merge_files,
    files_bytes,
  }

  -- `if (input->ExpectTag(tag)) goto label; break;`
  abbrev pub expect : {L M : Type 0} → ℕ → L → M → Bytes → State L M
  expect tag l m s = elim (expect_tag tag s) [ none ↦ at none m s | some s' ↦ at (some l) m s' ]

  abbrev pub expect_either : {L M : Type 0} → ℕ → L → ℕ → L → M → Bytes → State L M
  expect_either tag l tag' l' m s = elim (expect_tag tag s) [
    | none ↦ expect tag' l' m s
    | some s' ↦ at (some l) m s'
  ]

  -- `if (input->ExpectAtEnd()) return true; break;`
  abbrev pub expect_end : {L M : Type 0} → M → Bytes → State L M
  expect_end m s = if expect_at_end s then halted finished m s else at none m s

  -- handle_uninterpreted
  abbrev pub uninterpreted : {L M : Type 0} → ℕ → M → Bytes → State L M
  uninterpreted tag m s =
      if tag % 8 == 4
      then halted grouped m s
      else elim (skip_field tag s) [ none ↦ halted failed m s | some s' ↦ at none m s' ]

  module _ {L M : Type 0} (field_of : ℕ → Option L) (body : L → M → Bytes → State L M) where
    -- The switch, for a tag that was read.
    abbrev pub dispatch : ℕ × Bytes → M → State L M
    dispatch (tag, s) m =
        if tag == 0
        then halted finished m s
        else elim (field_of tag) [ none ↦ uninterpreted tag m s | some l ↦ at (some l) m s ]

    unfoldable pub step : State L M → State L M
    step (at none m s) = dispatch (read_tag s) m
    step (at (some l) m s) = body l m s
    step (halted e m s) = halted e m s

    unfoldable pub run : ℕ → State L M → State L M
    unfolding step
    run zero x = x
    run (suc n) x = run n (step x)

    -- Every two steps take a tag, so this is fuel enough.
    unfoldable pub parse : M → Bytes → State L M
    unfolding run
    parse m s = run (2 * length s + 2) (at none m s)

  -- A number behind its tag.
  abbrev pub read_number :
      {L M : Type 0} → (ℕ → M → M) → (M → Bytes → State L M) → M → Bytes → State L M
  read_number put go m s = elim (read_uint32 s) [
    | none ↦ halted failed m s
    | some (v, s') ↦ go (put v m) s'
  ]

  -- A string behind its tag; it is there, as far as it was read, when that fails.
  abbrev pub read_text :
      {L M : Type 0} → (Bytes → M → M) → (M → Bytes → State L M) → M → Bytes → State L M
  read_text put go m s =
      let (good, v, s') = read_string s in
      if good then go (put v m) s' else halted failed (put v m) s'

-- The labels of DeviceDescriptor::MergePartialFromCodedStream.
pub data DeviceLabel : Type 0 where
  at_vendor_id at_product_id at_serial_number at_path : DeviceLabel

abbrev pub device_field : ℕ → Option DeviceLabel
device_field tag =
    if is_field 1 0 tag
    then some at_vendor_id
    else if is_field 2 0 tag
    then some at_product_id
    else if is_field 3 2 tag
    then some at_serial_number
    else if is_field 4 2 tag
    then some at_path
    else none

-- The labels of Configuration::MergePartialFromCodedStream.
pub data ConfigurationLabel : Type 0 where
  at_whitelist_urls at_blacklist_urls at_wire_protocol at_known_devices at_valid_until :
      ConfigurationLabel

abbrev pub configuration_field : ℕ → Option ConfigurationLabel
configuration_field tag =
    if is_field 1 2 tag
    then some at_whitelist_urls
    else if is_field 2 2 tag
    then some at_blacklist_urls
    else if is_field 3 2 tag
    then some at_wire_protocol
    else if is_field 4 2 tag
    then some at_known_devices
    else if is_field 5 0 tag
    then some at_valid_until
    else none

module _ {pb : Protobuf} (coded : Coded pb) where
  open coded use {enter, merge_files, files_bytes}

  unfoldable pub device_body :
      DeviceLabel → DeviceDescriptor → Bytes → State DeviceLabel DeviceDescriptor
  device_body at_vendor_id = read_number coded set_vendor_id (expect coded 16 at_product_id)
  device_body at_product_id = read_number coded set_product_id (expect coded 26 at_serial_number)
  device_body at_serial_number = read_text coded set_serial_number (expect coded 34 at_path)
  device_body at_path = read_text coded set_path (expect_end coded)

  -- DeviceDescriptor::MergePartialFromCodedStream, on a message that ends with its bytes.
  unfoldable pub parse_descriptor : DeviceDescriptor → Bytes → State DeviceLabel DeviceDescriptor
  unfolding parse device_body
  parse_descriptor = parse coded device_field device_body

  -- What a parser made, and whether ReadMessageNoVirtual goes on with it.
  abbrev pub consumed : {L M : Type 0} → State L M → Bool × M
  consumed (at l m s) = (false, m)
  consumed (halted finished m s) = (true, m)
  consumed (halted grouped m s) = (false, m)
  consumed (halted failed m s) = (false, m)

  -- Behind a submessage, `go` if it was read well.
  abbrev pub after_message : {L M : Type 0} → (M → Bytes → State L M) → Bool × M → Bytes → State L M
  after_message go (true, m) s = go m s
  after_message go (false, m) s = halted failed m s

  abbrev pub put_files : Configuration pb → Bool × List pb.FileDescriptor → Bool × Configuration pb
  put_files c (good, files) = (good, record c { wire_protocol_ = some files })

  abbrev pub add_device : Configuration pb → Bool × DeviceDescriptor → Bool × Configuration pb
  add_device c (good, d) = (good, record c { known_devices = c.known_devices ++ (d ∷ []) })

  abbrev pub add_whitelist_url : Bytes → Configuration pb → Configuration pb
  add_whitelist_url v c = record c { whitelist_urls = c.whitelist_urls ++ (v ∷ []) }

  abbrev pub add_blacklist_url : Bytes → Configuration pb → Configuration pb
  add_blacklist_url v c = record c { blacklist_urls = c.blacklist_urls ++ (v ∷ []) }

  unfoldable pub configuration_body :
      ConfigurationLabel → Configuration pb → Bytes → State ConfigurationLabel (Configuration pb)
  unfolding parse_descriptor
  configuration_body at_whitelist_urls =
      read_text coded add_whitelist_url
        (expect_either coded 10 at_whitelist_urls 18 at_blacklist_urls)
  configuration_body at_blacklist_urls =
      read_text coded add_blacklist_url
        (expect_either coded 18 at_blacklist_urls 26 at_wire_protocol)
  configuration_body at_wire_protocol = λ c s. elim (enter s) [
    | none ↦ halted failed (put_files c (false, wire_protocol pb c)).1 s
    | some (b, s') ↦
        after_message (expect coded 34 at_known_devices)
          (put_files c (merge_files (wire_protocol pb c) b)) s'
  ]
  configuration_body at_known_devices = λ c s. elim (enter s) [
    | none ↦ halted failed (add_device c (false, default_descriptor)).1 s
    | some (b, s') ↦
        after_message (expect_either coded 34 at_known_devices 40 at_valid_until)
          (add_device c (consumed (parse_descriptor default_descriptor b))) s'
  ]
  configuration_body at_valid_until = read_number coded (set_valid_until pb) (expect_end coded)

  -- Configuration::MergePartialFromCodedStream
  unfoldable pub parse_configuration :
      Configuration pb → Bytes → State ConfigurationLabel (Configuration pb)
  unfolding parse configuration_body
  parse_configuration = parse coded configuration_field configuration_body

  -- What ParseFromArray leaves in a new message, whatever it returns.
  abbrev pub parse_from_array : Bytes → Configuration pb
  parse_from_array bytes = (consumed (parse_configuration (default_configuration pb) bytes)).1

  -- A field that is written if it is set, and the elements of a repeated one.
  abbrev pub if_set : {A : Type 0} → (A → Bytes) → Option A → Bytes
  if_set write none = []
  if_set write (some a) = write a

  abbrev pub each : {A : Type 0} → (A → Bytes) → List A → Bytes
  each write [] = []
  each write (a ∷ as') = write a ++ each write as'

  -- DeviceDescriptor::SerializeWithCachedSizes
  unfoldable pub descriptor_bytes : DeviceDescriptor → Bytes
  descriptor_bytes d =
      if_set (write_uint32 coded 1) d.vendor_id_
      ++ (if_set (write_uint32 coded 2) d.product_id_
          ++ (if_set (write_string coded 3) d.serial_number_
              ++ if_set (write_string coded 4) d.path_))

  -- Configuration::SerializeWithCachedSizes
  unfoldable pub configuration_bytes : Configuration pb → Bytes
  unfolding descriptor_bytes
  configuration_bytes c =
      each (write_string coded 1) c.whitelist_urls
      ++ (each (write_string coded 2) c.blacklist_urls
          ++ (if_set (λ fs. write_string coded 3 (files_bytes fs)) c.wire_protocol_
              ++ (each (λ d. write_string coded 4 (descriptor_bytes d)) c.known_devices
                  ++ if_set (write_uint32 coded 5) c.valid_until_)))
