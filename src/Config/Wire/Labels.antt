-- ===== src/Config/Wire/Labels.antt =====
-- The fields of Configuration at their labels (config.pb.cc).
use trezor_plugin.Prelude.{
  ℕ, ◌^◌, ◌<◌, ◌≡◌, refl, ap, ◌∙◌, ◌++◌, append_assoc, some, List, [], ◌∷◌, Bytes, length,
  length-append, arith, elim_some,
}
use trezor_plugin.Libraries.Protobuf.{Protobuf}
use trezor_plugin.Libraries.Coded.{Coded, Decodes, total_limit, write_uint32, write_string}
use trezor_plugin.Config.{DeviceDescriptor, Configuration, wire_protocol}
use trezor_plugin.Config.Merge.{default_descriptor, set_valid_until}
use trezor_plugin.Config.Wire.{
  expect, expect_either, expect_end, parse_descriptor, at_whitelist_urls, at_blacklist_urls,
  at_wire_protocol, at_known_devices, at_valid_until, configuration_field, configuration_body,
  add_whitelist_url, add_blacklist_url, add_device, after_message, consumed, put_files,
  descriptor_bytes,
}
use trezor_plugin.Config.Wire.Machine.{
  expect-Continues, expect_either-Continues, expect_end-Continues, Moves-label, Moves-number,
  Moves-text,
}
use trezor_plugin.Config.Wire.Fields.{Takes}
use trezor_plugin.Config.Wire.Descriptor.{IsWritable, parse_descriptor-descriptor_bytes}

module _ {pb : Protobuf} (coded : Coded pb) (laws : Decodes coded) where
  -- A field of Configuration, at its label.
  abbrev pub ConfigurationTakes : Bytes → (Configuration pb → Configuration pb) → Type 0
  ConfigurationTakes = Takes coded laws configuration_field (configuration_body coded)

  pub whitelist_url-Takes :
      (b : Bytes) → ConfigurationTakes (write_string coded 1 b) (add_whitelist_url coded b)
  unfolding configuration_body
  whitelist_url-Takes b m s x fits h =
      let F = configuration_field in
      let B = configuration_body coded in
      Moves-text coded laws F B 1 b at_whitelist_urls (add_whitelist_url coded)
        (expect_either coded 10 at_whitelist_urls 18 at_blacklist_urls) m s x refl (omega arith)
        refl
        (λ m' s'.
          expect_either-Continues coded laws F B 10 at_whitelist_urls 18 at_blacklist_urls m' s'
            refl refl)
        fits h

  pub blacklist_url-Takes :
      (b : Bytes) → ConfigurationTakes (write_string coded 2 b) (add_blacklist_url coded b)
  unfolding configuration_body
  blacklist_url-Takes b m s x fits h =
      let F = configuration_field in
      let B = configuration_body coded in
      Moves-text coded laws F B 2 b at_blacklist_urls (add_blacklist_url coded)
        (expect_either coded 18 at_blacklist_urls 26 at_wire_protocol) m s x refl (omega arith) refl
        (λ m' s'.
          expect_either-Continues coded laws F B 18 at_blacklist_urls 26 at_wire_protocol m' s' refl
            refl)
        fits h

  pub valid_until-Takes :
      (v : ℕ) → v < 2 ^ 32 → ConfigurationTakes (write_uint32 coded 5 v) (set_valid_until pb v)
  unfolding configuration_body
  valid_until-Takes v hv m s x fits h =
      let F = configuration_field in
      let B = configuration_body coded in
      Moves-number coded laws F B 5 v at_valid_until (set_valid_until pb) (expect_end coded) m s x
        refl (omega arith) (omega arith) refl (expect_end-Continues coded laws F B) hv h

  -- The bytes behind a tag are shorter than what they stand in.
  fits_inside :
      (t : ℕ) (b s : Bytes)
      → length ((coded.tag_bytes t ++ coded.delimited b) ++ s) < total_limit
      → (length (coded.delimited b ++ s) < total_limit) × (length b < total_limit)
  fits_inside t b s h =
      let e : length ((coded.tag_bytes t ++ coded.delimited b) ++ s)
          ≡ length (coded.tag_bytes t ++ (coded.delimited b ++ s)) =
        ap (λ (r : Bytes). length r) (append_assoc (coded.tag_bytes t) (coded.delimited b) s) in
      let outer = length-append (coded.tag_bytes t) (coded.delimited b ++ s) in
      let inner = length-append (coded.delimited b) s in
      let long = laws.delimited_long b in (omega arith, omega arith)

  abbrev pub add_files : List pb.FileDescriptor → Configuration pb → Configuration pb
  add_files fs c = record c { wire_protocol_ = some (wire_protocol pb c ++ fs) }

  pub wire_protocol-Takes :
      (fs : List pb.FileDescriptor)
      → ConfigurationTakes (write_string coded 3 (coded.files_bytes fs)) (add_files fs)
  unfolding configuration_body
  wire_protocol-Takes fs m s x fits h =
      let F = configuration_field in
      let B = configuration_body coded in
      let go = expect coded 34 at_known_devices in
      let b = coded.files_bytes fs in
      let (outer, inner) = fits_inside 26 b s fits in
      Moves-label coded laws F B 26 at_wire_protocol (coded.delimited b) s m (add_files fs m) x
        (go (add_files fs m) s) refl (omega arith) (omega arith)
        (elim_some (coded.enter (coded.delimited b ++ s)) (b, s) _
            (λ r.
              after_message coded go
                (put_files coded m (coded.merge_files (wire_protocol pb m) r.0)) r.1)
            (laws.enter-delimited b s outer)
          ∙ ap (λ r. after_message coded go (put_files coded m r) s)
              (laws.merge_files-files_bytes (wire_protocol pb m) fs inner))
        (expect-Continues coded laws F B 34 at_known_devices (add_files fs m) s refl) h

  abbrev pub add_known_device : DeviceDescriptor → Configuration pb → Configuration pb
  add_known_device d c = record c { known_devices = c.known_devices ++ (d ∷ []) }

  pub known_device-Takes :
      (d : DeviceDescriptor)
      → IsWritable d
      → ConfigurationTakes (write_string coded 4 (descriptor_bytes coded d)) (add_known_device d)
  unfolding configuration_body
  known_device-Takes d w m s x fits h =
      let F = configuration_field in
      let B = configuration_body coded in
      let go = expect_either coded 34 at_known_devices 40 at_valid_until in
      let b = descriptor_bytes coded d in
      let (outer, inner) = fits_inside 34 b s fits in
      Moves-label coded laws F B 34 at_known_devices (coded.delimited b) s m (add_known_device d m)
        x (go (add_known_device d m) s) refl (omega arith) (omega arith)
        (elim_some (coded.enter (coded.delimited b ++ s)) (b, s) _
            (λ r.
              after_message coded go
                (add_device coded m
                  (consumed coded (parse_descriptor coded default_descriptor r.0)))
                r.1)
            (laws.enter-delimited b s outer)
          ∙ ap (λ r. after_message coded go (add_device coded m (consumed coded r)) s)
              (parse_descriptor-descriptor_bytes coded laws d w inner))
        (expect_either-Continues coded laws F B 34 at_known_devices 40 at_valid_until
          (add_known_device d m) s refl refl)
        h
