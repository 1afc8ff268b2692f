-- ===== src/Config/Wire/Descriptor.antt =====
-- DeviceDescriptor's parser on what its writer wrote (config.pb.cc).
use trezor_plugin.Prelude.{
  ℕ, ◌^◌, ◌<◌, ◌≡◌, refl, ap, ◌∙◌, ◌++◌, Option, some, [], Bytes, length, arith,
}
use trezor_plugin.Libraries.Protobuf.{Protobuf}
use trezor_plugin.Libraries.Coded.{Coded, Decodes, total_limit, write_uint32, write_string}
use trezor_plugin.Config.{DeviceDescriptor}
use trezor_plugin.Config.Merge.{
  default_descriptor, set_vendor_id, set_product_id, set_serial_number, set_path,
}
use trezor_plugin.Config.Wire.{
  halted, finished, expect, expect_end, if_set, at_vendor_id, at_product_id, at_serial_number,
  at_path, device_field, device_body, parse_descriptor, descriptor_bytes,
}
use trezor_plugin.Config.Wire.Machine.{
  expect-Continues, expect_end-Continues, Moves-number, Moves-text,
}
use trezor_plugin.Config.Wire.Fields.{put_if, Takes, Takes-if_set, Takes-both, parse-Takes}

-- A uint32 that is set is one.
abbrev pub IsSmall : Option ℕ → Type 0
IsSmall o = (v : ℕ) → o ≡ some v → v < 2 ^ 32

pub record IsWritable (d : DeviceDescriptor) : Type 0 where
  pub small_vendor_id : IsSmall d.vendor_id_
  pub small_product_id : IsSmall d.product_id_

-- The fields that were read, put into the default message.
put_if_device :
    (v p : Option ℕ) (s t : Option Bytes)
    → put_if set_path t (
        put_if set_serial_number s
          (put_if set_product_id p (put_if set_vendor_id v default_descriptor)))
      ≡ record { vendor_id_ = v; product_id_ = p; serial_number_ = s; path_ = t }
put_if_device v p s t = ground arith

module _ {pb : Protobuf} (coded : Coded pb) (laws : Decodes coded) where
  -- A field of DeviceDescriptor, at its label.
  abbrev DeviceTakes : Bytes → (DeviceDescriptor → DeviceDescriptor) → Type 0
  DeviceTakes = Takes coded laws device_field (device_body coded)

  vendor_id-Takes : (v : ℕ) → v < 2 ^ 32 → DeviceTakes (write_uint32 coded 1 v) (set_vendor_id v)
  unfolding device_body
  vendor_id-Takes v hv m s x fits h =
      Moves-number coded laws device_field (device_body coded) 1 v at_vendor_id set_vendor_id
        (expect coded 16 at_product_id) m s x refl (omega arith) (omega arith) refl
        (λ m' s'.
          expect-Continues coded laws device_field (device_body coded) 16 at_product_id m' s' refl)
        hv h

  product_id-Takes : (v : ℕ) → v < 2 ^ 32 → DeviceTakes (write_uint32 coded 2 v) (set_product_id v)
  unfolding device_body
  product_id-Takes v hv m s x fits h =
      Moves-number coded laws device_field (device_body coded) 2 v at_product_id set_product_id
        (expect coded 26 at_serial_number) m s x refl (omega arith) (omega arith) refl
        (λ m' s'.
          expect-Continues coded laws device_field (device_body coded) 26 at_serial_number m' s'
            refl)
        hv h

  serial_number-Takes : (b : Bytes) → DeviceTakes (write_string coded 3 b) (set_serial_number b)
  unfolding device_body
  serial_number-Takes b m s x fits h =
      Moves-text coded laws device_field (device_body coded) 3 b at_serial_number set_serial_number
        (expect coded 34 at_path) m s x refl (omega arith) refl
        (λ m' s'.
          expect-Continues coded laws device_field (device_body coded) 34 at_path m' s' refl)
        fits h

  path-Takes : (b : Bytes) → DeviceTakes (write_string coded 4 b) (set_path b)
  unfolding device_body
  path-Takes b m s x fits h =
      Moves-text coded laws device_field (device_body coded) 4 b at_path set_path (expect_end coded)
        m s x refl (omega arith) refl
        (expect_end-Continues coded laws device_field (device_body coded)) fits h

  -- A DeviceDescriptor is parsed as it was written.
  pub parse_descriptor-descriptor_bytes :
      (d : DeviceDescriptor)
      → IsWritable d
      → length (descriptor_bytes coded d) < total_limit
      → parse_descriptor coded default_descriptor (descriptor_bytes coded d) ≡ halted finished d []
  unfolding parse_descriptor descriptor_bytes
  parse_descriptor-descriptor_bytes d w fits =
      let F = device_field in
      let B = device_body coded in
      let b1 = if_set coded (write_uint32 coded 1) d.vendor_id_ in
      let b2 = if_set coded (write_uint32 coded 2) d.product_id_ in
      let b3 = if_set coded (write_string coded 3) d.serial_number_ in
      let b4 = if_set coded (write_string coded 4) d.path_ in
      let f1 = put_if set_vendor_id d.vendor_id_ in
      let f2 = put_if set_product_id d.product_id_ in
      let f3 = put_if set_serial_number d.serial_number_ in
      let f4 = put_if set_path d.path_ in
      let t1 =
        Takes-if_set coded laws F B (write_uint32 coded 1) set_vendor_id d.vendor_id_
          λ v e. vendor_id-Takes v (w.small_vendor_id v e) in
      let t2 =
        Takes-if_set coded laws F B (write_uint32 coded 2) set_product_id d.product_id_
          λ v e. product_id-Takes v (w.small_product_id v e) in
      let t3 =
        Takes-if_set coded laws F B (write_string coded 3) set_serial_number d.serial_number_
          λ b e. serial_number-Takes b in
      let t4 =
        Takes-if_set coded laws F B (write_string coded 4) set_path d.path_ λ b e. path-Takes b in
      let both = Takes-both coded laws F B in
      parse-Takes coded laws F B (b1 ++ (b2 ++ (b3 ++ b4))) (λ m. f4 (f3 (f2 (f1 m))))
        default_descriptor refl fits
        (both b1 (b2 ++ (b3 ++ b4)) f1 (λ m. f4 (f3 (f2 m))) t1
          (both b2 (b3 ++ b4) f2 (λ m. f4 (f3 m)) t2 (both b3 b4 f3 f4 t3 t4)))
      ∙ ap (λ m. halted finished m []) (put_if_device _ _ _ _)
