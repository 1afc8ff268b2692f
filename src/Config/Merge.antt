-- ===== src/Config/Merge.antt =====
-- config.pb.cc: setting, clearing, merging and copying the messages of config.proto.
use trezor_plugin.Prelude.{
  ◌≡◌, ◌++◌, Bool, false, none, some, List, [], Bytes, ℕ, arith, if◌then◌else◌,
}
use trezor_plugin.Libraries.Protobuf.{Protobuf}
use trezor_plugin.Config.{
  DeviceDescriptor, Configuration, has_vendor_id, vendor_id, has_product_id, product_id,
  has_serial_number, serial_number, has_path, path, has_valid_until, valid_until, has_wire_protocol,
  wire_protocol,
}

-- The message that DeviceDescriptor's constructor makes.
abbrev pub default_descriptor : DeviceDescriptor
default_descriptor = record {
  vendor_id_ = none;
  product_id_ = none;
  serial_number_ = none;
  path_ = none;
}

abbrev pub set_vendor_id : ℕ → DeviceDescriptor → DeviceDescriptor
set_vendor_id v d = record d { vendor_id_ = some v }

abbrev pub set_product_id : ℕ → DeviceDescriptor → DeviceDescriptor
set_product_id v d = record d { product_id_ = some v }

abbrev pub set_serial_number : Bytes → DeviceDescriptor → DeviceDescriptor
set_serial_number v d = record d { serial_number_ = some v }

abbrev pub set_path : Bytes → DeviceDescriptor → DeviceDescriptor
set_path v d = record d { path_ = some v }

-- DeviceDescriptor::Clear
unfoldable pub clear_descriptor : DeviceDescriptor → DeviceDescriptor
clear_descriptor d = record d {
  vendor_id_ = none;
  product_id_ = none;
  serial_number_ = none;
  path_ = none;
}

-- DeviceDescriptor::MergeFrom: what is set in `from` is set in `to`.
unfoldable pub merge_descriptor : (from to : DeviceDescriptor) → DeviceDescriptor
merge_descriptor from to =
    let to1 = if has_vendor_id from then set_vendor_id (vendor_id from) to else to in
    let to2 = if has_product_id from then set_product_id (product_id from) to1 else to1 in
    let to3 = if has_serial_number from then set_serial_number (serial_number from) to2 else to2 in
    if has_path from then set_path (path from) to3 else to3

-- DeviceDescriptor::CopyFrom, from another object.
unfoldable pub copy_descriptor : (from to : DeviceDescriptor) → DeviceDescriptor
unfolding clear_descriptor merge_descriptor
copy_descriptor from to = merge_descriptor from (clear_descriptor to)

module _ (pb : Protobuf) where
  abbrev pub set_valid_until : ℕ → Configuration pb → Configuration pb
  set_valid_until v c = record c { valid_until_ = some v }

  -- Configuration::Clear
  unfoldable pub clear_configuration : Configuration pb → Configuration pb
  clear_configuration c = record c {
    wire_protocol_ = none;
    valid_until_ = none;
    whitelist_urls = [];
    blacklist_urls = [];
    known_devices = [];
  }

  -- Configuration::MergeFrom. FileDescriptorSet::MergeFrom appends the files.
  unfoldable pub merge_configuration : (from to : Configuration pb) → Configuration pb
  merge_configuration from to =
      let to1 : Configuration pb = record to {
        whitelist_urls = to.whitelist_urls ++ from.whitelist_urls;
        blacklist_urls = to.blacklist_urls ++ from.blacklist_urls;
        known_devices = to.known_devices ++ from.known_devices;
      } in
      let files = wire_protocol pb to1 ++ wire_protocol pb from in
      let to2 : Configuration pb =
        if has_wire_protocol pb from then record to1 { wire_protocol_ = some files } else to1 in
      if has_valid_until pb from then set_valid_until (valid_until pb from) to2 else to2

  -- Configuration::CopyFrom, from another object; config.pb.h's assignment is this.
  unfoldable pub copy_configuration : (from to : Configuration pb) → Configuration pb
  unfolding clear_configuration merge_configuration
  copy_configuration from to = merge_configuration from (clear_configuration to)

  -- Configuration::IsInitialized; `initialized` is FileDescriptorSet::IsInitialized.
  unfoldable pub is_initialized : (List pb.FileDescriptor → Bool) → Configuration pb → Bool
  is_initialized initialized c =
      if has_wire_protocol pb c then initialized (wire_protocol pb c) else false

  copy_configuration_lem : (from to : Configuration pb) → copy_configuration from to ≡ from
  unfolding copy_configuration
  copy_configuration_lem from to = ground arith

-- DeviceDescriptor::Swap and Configuration::Swap, with another object: every field goes over.
abbrev pub swap : {M : Type 0} → M × M → M × M
swap (this, other) = (other, this)

copy_descriptor_lem : (from to : DeviceDescriptor) → copy_descriptor from to ≡ from
unfolding copy_descriptor clear_descriptor merge_descriptor
copy_descriptor_lem from to = ground arith
