-- ===== src/Config/Wire/RoundTrip.antt =====
-- Configuration's parser on what its writer wrote (config.pb.cc).
use trezor_plugin.Prelude.{
  ◌<◌, ◌≡◌, refl, ap, sym, ◌∙◌, ◌++◌, append_assoc, append-nil, List, [], ◌∷◌, Bytes, length, arith,
  All,
}
use trezor_plugin.Libraries.Protobuf.{Protobuf}
use trezor_plugin.Libraries.Coded.{Coded, Decodes, total_limit, write_uint32, write_string}
use trezor_plugin.Config.{DeviceDescriptor, Configuration, default_configuration}
use trezor_plugin.Config.Merge.{set_valid_until}
use trezor_plugin.Config.Wire.{
  halted, finished, if_set, each, configuration_field, configuration_body, parse_configuration,
  add_whitelist_url, add_blacklist_url, descriptor_bytes, configuration_bytes,
}
use trezor_plugin.Config.Wire.Fields.{
  put_if, put_each, Takes-if_set, Takes-each, Takes-both, parse-Takes,
}
use trezor_plugin.Config.Wire.Descriptor.{IsSmall, IsWritable}
use trezor_plugin.Config.Wire.Labels.{
  add_files, add_known_device, whitelist_url-Takes, blacklist_url-Takes, valid_until-Takes,
  wire_protocol-Takes, known_device-Takes,
}

All-map :
    {A : Type 0} {P Q : A → Type 0} → ((a : A) → P a → Q a) → (as' : List A) → All P as' → All Q as'
All-map f [] h = tt
All-map f (a ∷ as') (h, hs) = (f a h, All-map f as' hs)

All-every : {A : Type 0} {Q : A → Type 0} → ((a : A) → Q a) → (as' : List A) → All Q as'
All-every f [] = tt
All-every f (a ∷ as') = (f a, All-every f as')

module _ {pb : Protobuf} (coded : Coded pb) (laws : Decodes coded) where
  -- Elements behind those that are there.
  add_whitelist_urls :
      (us : List Bytes) (c : Configuration pb)
      → put_each (add_whitelist_url coded) us c
        ≡ record c { whitelist_urls = c.whitelist_urls ++ us }
  add_whitelist_urls [] c =
      ap (λ t. record c { whitelist_urls = t }) (sym (append-nil c.whitelist_urls))
  add_whitelist_urls (u ∷ us) c =
      add_whitelist_urls us (add_whitelist_url coded u c)
      ∙ ap (λ t. record c { whitelist_urls = t }) (append_assoc c.whitelist_urls (u ∷ []) us)

  add_blacklist_urls :
      (us : List Bytes) (c : Configuration pb)
      → put_each (add_blacklist_url coded) us c
        ≡ record c { blacklist_urls = c.blacklist_urls ++ us }
  add_blacklist_urls [] c =
      ap (λ t. record c { blacklist_urls = t }) (sym (append-nil c.blacklist_urls))
  add_blacklist_urls (u ∷ us) c =
      add_blacklist_urls us (add_blacklist_url coded u c)
      ∙ ap (λ t. record c { blacklist_urls = t }) (append_assoc c.blacklist_urls (u ∷ []) us)

  add_known_devices :
      (ds : List DeviceDescriptor) (c : Configuration pb)
      → put_each (add_known_device coded laws) ds c
        ≡ record c { known_devices = c.known_devices ++ ds }
  add_known_devices [] c =
      ap (λ t. record c { known_devices = t }) (sym (append-nil c.known_devices))
  add_known_devices (d ∷ ds) c =
      add_known_devices ds ((add_known_device coded laws) d c)
      ∙ ap (λ t. record c { known_devices = t }) (append_assoc c.known_devices (d ∷ []) ds)

  put_all :
      (c : Configuration pb)
      → put_if (set_valid_until pb) c.valid_until_ (
          put_each (add_known_device coded laws) c.known_devices (
            put_if (add_files coded laws) c.wire_protocol_ (
              put_each
                (add_blacklist_url coded)
                c.blacklist_urls
                (put_each (add_whitelist_url coded) c.whitelist_urls (default_configuration pb)))))
        ≡ c
  put_all c =
      rw
        (
          add_whitelist_urls c.whitelist_urls (default_configuration pb),
          add_blacklist_urls c.blacklist_urls,
          add_known_devices c.known_devices,
        )
        (ground arith)

  -- A Configuration is parsed as it was written: MergePartialFromCodedStream, on an empty message
  -- and the bytes of SerializeWithCachedSizes, returns true behind all of them, with every pattern,
  -- file and device, in order, and the time. The uint32 fields have 32 bits, the bytes are fewer
  -- than a CodedInputStream's limit of 64 MB, and the library reads what it writes; whether its
  -- ExpectTag and ExpectAtEnd ever say yes does not matter.
  pub parse_configuration-configuration_bytes :
      (c : Configuration pb)
      → All IsWritable c.known_devices
      → IsSmall c.valid_until_
      → length (configuration_bytes coded c) < total_limit
      → parse_configuration coded (default_configuration pb) (configuration_bytes coded c)
        ≡ halted finished c []
  unfolding parse_configuration configuration_bytes
  parse_configuration-configuration_bytes c ws small fits =
      let F = configuration_field in
      let B = configuration_body coded in
      let write3 : List pb.FileDescriptor → Bytes =
        λ fs. write_string coded 3 (coded.files_bytes fs) in
      let write4 : DeviceDescriptor → Bytes =
        λ d. write_string coded 4 (descriptor_bytes coded d) in
      let b1 = each coded (write_string coded 1) c.whitelist_urls in
      let b2 = each coded (write_string coded 2) c.blacklist_urls in
      let b3 = if_set coded write3 c.wire_protocol_ in
      let b4 = each coded write4 c.known_devices in
      let b5 = if_set coded (write_uint32 coded 5) c.valid_until_ in
      let f1 = put_each (add_whitelist_url coded) c.whitelist_urls in
      let f2 = put_each (add_blacklist_url coded) c.blacklist_urls in
      let f3 = put_if (add_files coded laws) c.wire_protocol_ in
      let f4 = put_each (add_known_device coded laws) c.known_devices in
      let f5 = put_if (set_valid_until pb) c.valid_until_ in
      let t1 =
        Takes-each coded laws F B (write_string coded 1) (add_whitelist_url coded) c.whitelist_urls
          (All-every (whitelist_url-Takes coded laws) c.whitelist_urls) in
      let t2 =
        Takes-each coded laws F B (write_string coded 2) (add_blacklist_url coded) c.blacklist_urls
          (All-every (blacklist_url-Takes coded laws) c.blacklist_urls) in
      let t3 =
        Takes-if_set coded laws F B write3 (add_files coded laws) c.wire_protocol_
          λ fs e. wire_protocol-Takes coded laws fs in
      let t4 =
        Takes-each coded laws F B write4 (add_known_device coded laws) c.known_devices
          (All-map (known_device-Takes coded laws) c.known_devices ws) in
      let t5 =
        Takes-if_set coded laws F B (write_uint32 coded 5) (set_valid_until pb) c.valid_until_
          λ v e. valid_until-Takes coded laws v (small v e) in
      let both = Takes-both coded laws F B in
      parse-Takes coded laws F B (b1 ++ (b2 ++ (b3 ++ (b4 ++ b5)))) (λ m. f5 (f4 (f3 (f2 (f1 m)))))
        (default_configuration pb) refl fits
        (both b1 (b2 ++ (b3 ++ (b4 ++ b5))) f1 (λ m. f5 (f4 (f3 (f2 m)))) t1
          (both b2 (b3 ++ (b4 ++ b5)) f2 (λ m. f5 (f4 (f3 m))) t2
            (both b3 (b4 ++ b5) f3 (λ m. f5 (f4 m)) t3 (both b4 b5 f4 f5 t4 t5))))
      ∙ ap (λ m. halted finished m []) (put_all c)
