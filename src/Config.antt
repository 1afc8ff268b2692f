-- ===== src/Config.antt =====
-- config.pb.h: the messages of config.proto, DeviceDescriptor and Configuration, and their
-- accessors. A field with presence is an Option; reading one that is not set gives its default.
-- Fields that a message of a later version may have, which no code reads, are left out.
pub mod Merge
pub mod Wire
use trezor_plugin.Prelude.{ℕ, Bool, true, false, Option, none, some, List, [], Bytes}
use trezor_plugin.Libraries.Protobuf.{Protobuf}

pub record DeviceDescriptor : Type 0 where
  pub vendor_id_ : Option ℕ
  pub product_id_ : Option ℕ
  pub serial_number_ : Option Bytes
  pub path_ : Option Bytes

abbrev pub is_set : {A : Type 0} → Option A → Bool
is_set none = false
is_set (some a) = true

abbrev pub value_or : {A : Type 0} → A → Option A → A
value_or d none = d
value_or d (some a) = a

abbrev pub has_vendor_id : DeviceDescriptor → Bool
has_vendor_id d = is_set d.vendor_id_

abbrev pub vendor_id : DeviceDescriptor → ℕ
vendor_id d = value_or 0 d.vendor_id_

abbrev pub has_product_id : DeviceDescriptor → Bool
has_product_id d = is_set d.product_id_

abbrev pub product_id : DeviceDescriptor → ℕ
product_id d = value_or 0 d.product_id_

abbrev pub has_serial_number : DeviceDescriptor → Bool
has_serial_number d = is_set d.serial_number_

abbrev pub serial_number : DeviceDescriptor → Bytes
serial_number d = value_or [] d.serial_number_

abbrev pub has_path : DeviceDescriptor → Bool
has_path d = is_set d.path_

abbrev pub path : DeviceDescriptor → Bytes
path d = value_or [] d.path_

pub record Configuration (pb : Protobuf) : Type 0 where
  pub whitelist_urls : List Bytes
  pub blacklist_urls : List Bytes
  pub wire_protocol_ : Option (List pb.FileDescriptor)
  pub known_devices : List DeviceDescriptor
  pub valid_until_ : Option ℕ

module _ (pb : Protobuf) where
  -- The message that the constructor makes.
  abbrev pub default_configuration : Configuration pb
  default_configuration = record {
    whitelist_urls = [];
    blacklist_urls = [];
    wire_protocol_ = none;
    known_devices = [];
    valid_until_ = none;
  }

  abbrev pub has_valid_until : Configuration pb → Bool
  has_valid_until c = is_set c.valid_until_

  abbrev pub valid_until : Configuration pb → ℕ
  valid_until c = value_or 0 c.valid_until_

  abbrev pub has_wire_protocol : Configuration pb → Bool
  has_wire_protocol c = is_set c.wire_protocol_

  -- The set of the default instance is empty.
  abbrev pub wire_protocol : Configuration pb → List pb.FileDescriptor
  wire_protocol c = value_or [] c.wire_protocol_
