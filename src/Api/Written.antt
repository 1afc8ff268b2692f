-- ===== src/Api/Written.antt =====
-- PluginAPI::configure on a configuration that was written and signed (apis.cpp, config.pb.cc).
use trezor_plugin.Prelude.{
  ℕ, ◌<◌, ◌≡◌, refl, ap, ◌++◌, true, false, some, Bytes, length, length-append, drop-append, ltb,
  le→ltb, All, arith,
}
use trezor_plugin.Exceptions.{ok}
use trezor_plugin.Libraries.Boost.{Boost}
use trezor_plugin.Libraries.Protobuf.{Protobuf}
use trezor_plugin.Libraries.Coded.{Coded, Decodes, total_limit}
use trezor_plugin.Libraries.OpenSsl.{OpenSsl}
use trezor_plugin.Utils.Codecs.{hex_decode}
use trezor_plugin.Utils.Signature.{Heap, signature_length, signature_verify}
use trezor_plugin.Config.{Configuration, wire_protocol}
use trezor_plugin.Config.Wire.{configuration_bytes, parse_from_array, consumed}
use trezor_plugin.Config.Wire.Descriptor.{IsSmall, IsWritable}
use trezor_plugin.Config.Wire.RoundTrip.{parse_configuration-configuration_bytes}
use trezor_plugin.Messages.Names.{load_protobuf}
use trezor_plugin.Plugin.Site.{authenticate}
use trezor_plugin.Plugin.Configure.{Setup, is_expired, configure}
use trezor_plugin.Api.{verified, configure_decoded, api_configure}

-- A configuration that the writer can write, and a signature before it.
pub record IsWrittenText (boost : Boost) {pb : Protobuf} (coded : Coded pb) (text : Bytes)
    (signature : Bytes) (c : Configuration pb) : Type 0 where
  pub decoded : hex_decode boost text ≡ ok (signature ++ configuration_bytes coded c)
  pub long : length signature ≡ signature_length
  pub writable : All IsWritable c.known_devices
  pub small : IsSmall c.valid_until_
  pub fits : length (configuration_bytes coded c) < total_limit

module _ (boost : Boost) (pb : Protobuf) (ssl : OpenSsl) (coded : Coded pb)
    (laws : Decodes coded) where
  -- A page configures the plugin with the hexadecimal text of 64 bytes that sign the bytes of a
  -- configuration under one of the plugin's keys. If that has not expired, and lets in the site,
  -- PluginAPI::configure returns, and the plugin has this configuration and its wire protocol.
  pub api_configure-configuration_bytes :
      (now : ℕ) (location text signature : Bytes) (c : Configuration pb) (h : Heap) (s : Setup pb)
      → IsWrittenText boost coded text signature c
      → (signature_verify ssl
          (signature ++ configuration_bytes coded c)
          (configuration_bytes coded c)
          h).0
        ≡ true
      → is_expired boost pb now c ≡ false
      → authenticate boost pb location c ≡ ok true
      → api_configure boost pb ssl (parse_from_array coded) now location text h (some s) ≡ (
        ok tt,
        (signature_verify ssl
            (signature ++ configuration_bytes coded c)
            (configuration_bytes coded c)
            h).1,
        some (record { configuration = c; pool = load_protobuf pb s.pool (wire_protocol pb c) }),
      )
  unfolding api_configure configure_decoded verified configure
  api_configure-configuration_bytes now location text signature c h s w signed current allowed =
      let bytes = configuration_bytes coded c in
      let long : ltb (length (signature ++ bytes)) signature_length ≡ false =
        le→ltb (length (signature ++ bytes)) signature_length
          (omega (arith, w.long, length-append signature bytes)) in
      let parsed : parse_from_array coded bytes ≡ c =
        ap (λ x. (consumed coded x).1)
          (parse_configuration-configuration_bytes coded laws c w.writable w.small w.fits) in
      rw
        (
          w.decoded,
          long,
          drop-append signature_length signature bytes w.long,
          signed,
          parsed,
          current,
          allowed,
        )
        refl
