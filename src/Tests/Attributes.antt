-- ===== src/Tests/Attributes.antt =====
-- The page's objects as lists of attributes, and a device among them.
use trezor_plugin.Prelude.{
  Option, none, some, List, [], ◌∷◌, Bytes, codes, bytes_eq_refl, if◌then◌else◌, if_true, if_false,
  arith,
}
use trezor_plugin.Prelude.Tests.{bytes_eq}
use trezor_plugin.Libraries.FireBreath.{JsAuto, Registers}
use trezor_plugin.Config.{DeviceDescriptor}
use trezor_plugin.Api.Attributes.{device_api, Shows, device_api-Shows}

abbrev look_up : Bytes → List (Bytes × Bytes) → Option Bytes
look_up name [] = none
look_up name ((n, text) ∷ rest) =
    let next = look_up name rest in if bytes_eq name n then some text else next

abbrev table : JsAuto
table = record {
  Object = List (Bytes × Bytes);
  new_object = [];
  register_attribute = λ name text read_only o. (name, text) ∷ o;
  register_method = λ name o. o;
  get_attribute = look_up;
}

table-Registers : Registers table
table-Registers = record {
  registered = λ name text read_only o. if_true (bytes_eq name name) _ _ (bytes_eq_refl name);
  other = λ name name' text read_only o e. if_false (bytes_eq name name') _ _ e;
}

abbrev trezor : DeviceDescriptor
trezor = record {
  vendor_id_ = some 0x10c4;
  product_id_ = some 0xea80;
  serial_number_ = some (codes "s");
  path_ = some (codes "p");
}

device_api-Shows_example : Shows table trezor (device_api table trezor).object
device_api-Shows_example = device_api-Shows table trezor table-Registers (omega arith) (omega arith)
