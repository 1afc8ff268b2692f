-- ===== src/Plugin/Enumerate.antt =====
-- BitcoinTrezorPlugin::enumerate: the connected devices that a configuration knows.
pub mod Laws
pub mod Wedge
use trezor_plugin.Prelude.{
  ℕ, ◌+◌, ◌-◌, ◌++◌, Bool, true, false, not, ◌&&◌, ◌||◌, Option, none, some, List, [], ◌∷◌, Bytes,
  codes, ◌==◌, bytes_eq, if◌then◌else◌,
}
use trezor_plugin.Prelude.Int.{ℤ, pos, negsuc}
use trezor_plugin.Exceptions.{Outcome, ok, throw, fault, blocked, out_of_fuel, runtime_error, ◌>>=◌}
use trezor_plugin.Libraries.Boost.{Boost}
use trezor_plugin.Utils.Codecs.{utf8_encode}
use trezor_plugin.Config.{
  DeviceDescriptor, has_vendor_id, vendor_id, has_product_id, product_id, has_serial_number,
  serial_number, path,
}

-- struct hid_device_info of hidapi.h; a null string is `none`, a serial number is a wide string.
pub record HidDeviceInfo : Type 0 where
  pub device_path : Bytes
  pub vendor : ℕ
  pub product : ℕ
  pub serial : Option Bytes
  pub product_string : Option Bytes
  pub interface_number : ℤ

-- hidapi's mutex, and the enumerations that were not freed.
pub record Hidapi : Type 0 where
  pub locked : Bool
  pub unfreed : ℕ

-- `current->interface_number > 0`
abbrev pub is_foreign : ℤ → Bool
is_foreign (pos n) = not (n == 0)
is_foreign (negsuc n) = false

abbrev pub is_null : {A : Type 0} → Option A → Bool
is_null none = true
is_null (some a) = false

-- `desc`, from the interface.
unfoldable pub describe : Boost → HidDeviceInfo → DeviceDescriptor
unfolding utf8_encode
describe boost d = record {
  vendor_id_ = some d.vendor;
  product_id_ = some d.product;
  serial_number_ = elim (d.serial) [ none ↦ none | some wide ↦ some (utf8_encode boost wide) ];
  path_ = some d.device_path;
}

-- matches_serial_number && matches_vendor && matches_product
unfoldable pub matches : DeviceDescriptor → DeviceDescriptor → Bool
matches dd desc =
    (not (has_serial_number dd) || bytes_eq (serial_number dd) (serial_number desc))
    && ((not (has_vendor_id dd) || vendor_id dd == vendor_id desc)
        && (not (has_product_id dd) || product_id dd == product_id desc))

-- The loop over the result so far: is there a device with this serial number?
unfoldable pub has_serial : Bytes → List DeviceDescriptor → Bool
has_serial s [] = false
has_serial s (d ∷ ds) = bytes_eq (serial_number d) s || has_serial s ds

unfoldable pub push_unique :
    List DeviceDescriptor → DeviceDescriptor → Outcome (List DeviceDescriptor)
push_unique result desc =
    if has_serial (serial_number desc) result
    then throw (runtime_error (codes "Duplicit devices detected"))
    else ok (result ++ (desc ∷ []))

-- The loop over the known devices, which breaks at the first match.
unfoldable pub add_if_known :
    List DeviceDescriptor
    → DeviceDescriptor
    → List DeviceDescriptor
    → Outcome (List DeviceDescriptor)
unfolding matches push_unique
add_if_known [] desc result = ok result
add_if_known (dd ∷ dds) desc result =
    if matches dd desc then push_unique result desc else add_if_known dds desc result

-- The end of enumerate: only a normal end frees the list and unlocks the mutex.
abbrev pub release :
    Outcome (List DeviceDescriptor) → Hidapi → Outcome (List DeviceDescriptor) × Hidapi
release (ok ds) h = (ok ds, record h { locked = false; unfreed = h.unfreed - 1 })
release (throw e) h = (throw e, h)
release fault h = (fault, h)
release blocked h = (blocked, h)
release out_of_fuel h = (out_of_fuel, h)

module _ (boost : Boost) (known : List DeviceDescriptor) where
  -- The loop over hidapi's list.
  unfoldable pub enumerate_loop :
      List HidDeviceInfo → List DeviceDescriptor → Outcome (List DeviceDescriptor)
  unfolding describe add_if_known
  enumerate_loop [] result = ok result
  enumerate_loop (d ∷ ds) result =
      if is_foreign (d.interface_number) || is_null (d.product_string)
      then enumerate_loop ds result
      else (add_if_known known (describe boost d) result >>= λ result'. enumerate_loop ds result')

  -- enumerate(const Configuration &): an exception leaves the mutex locked and the list unfreed.
  unfoldable pub enumerate : List HidDeviceInfo → Hidapi → Outcome (List DeviceDescriptor) × Hidapi
  unfolding enumerate_loop
  enumerate devices h =
      let held : Hidapi = record { locked = true; unfreed = h.unfreed + 1 } in
      if h.locked then (blocked, h) else release (enumerate_loop devices []) held
