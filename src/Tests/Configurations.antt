-- ===== src/Tests/Configurations.antt =====
-- A configuration on the wire.
use trezor_plugin.Prelude.{
  ℕ, ◌+◌, ◌≡◌, refl, ◌++◌, Bool, true, false, Option, none, some, [], ◌∷◌, Bytes, codes, length,
  take, drop, take-append, drop-append, arith, ◌==◌, if◌then◌else◌, All, replicate,
}
use mathlib.Core.Option.{some-injective}
use trezor_plugin.Libraries.Protobuf.{Protobuf}
use trezor_plugin.Libraries.Coded.{Coded, Decodes, Sizes, Measures}
use trezor_plugin.Config.{Configuration, default_configuration}
use trezor_plugin.Config.Wire.{
  halted, finished, parse_configuration, configuration_bytes, descriptor_bytes,
}
use trezor_plugin.Config.Wire.Size.{configuration_size, length-configuration_bytes}
use trezor_plugin.Config.Wire.RoundTrip.{parse_configuration-configuration_bytes}
use trezor_plugin.Prelude.Tests.{bytes_eq}
use trezor_plugin.Exceptions.{ok}
use trezor_plugin.Utils.Codecs.{hex_decode}
use trezor_plugin.Utils.Signature.{signature_verify, verify_loop, make_digest, read_eckey}
use trezor_plugin.Messages.Names.{load_protobuf}
use trezor_plugin.Plugin.Site.{authenticate, on_match}
use trezor_plugin.Plugin.Configure.{Setup}
use trezor_plugin.Config.Wire.{parse_from_array}
use trezor_plugin.Config.Wire.Descriptor.{IsSmall, IsWritable}
use trezor_plugin.Api.{api_configure}
use trezor_plugin.Api.Written.{api_configure-configuration_bytes}
use trezor_plugin.Tests.{plain_boost, notes}
use trezor_plugin.Tests.Api.{plain_ssl, clean}

-- A protobuf whose files are numbers.
abbrev numbered : Protobuf
numbered = record notes { FileDescriptor = ℕ; build_file = λ pool file. pool + file }

abbrev next_tag : Bytes → ℕ × Bytes
next_tag [] = (0, [])
next_tag (t ∷ s) = (t, s)

abbrev expect_next : ℕ → Bytes → Option Bytes
expect_next t [] = none
expect_next t (t' ∷ s) = if t == t' then some s else none

abbrev is_end : Bytes → Bool
is_end [] = true
is_end (x ∷ s) = false

abbrev next_number : Bytes → Option (ℕ × Bytes)
next_number [] = none
next_number (v ∷ s) = some (v, s)

abbrev next_text : Bytes → Bool × Bytes × Bytes
next_text [] = (false, [], [])
next_text (n ∷ s) = (true, take n s, drop n s)

abbrev next_message : Bytes → Option (Bytes × Bytes)
next_message [] = none
next_message (n ∷ s) = some (take n s, drop n s)

-- Tags, numbers and lengths of one byte each.
abbrev plain : Coded numbered
plain = record {
  read_tag = next_tag;
  expect_tag = expect_next;
  expect_at_end = is_end;
  read_uint32 = next_number;
  read_string = next_text;
  enter = next_message;
  skip_field = λ t s. some s;
  merge_files = λ files s. (true, files ++ s);
  tag_bytes = λ t. t ∷ [];
  varint = λ v. v ∷ [];
  delimited = λ b. length b ∷ b;
  files_bytes = λ files. files;
}

expected_lem : (t : ℕ) (s s' : Bytes) → expect_next t s ≡ some s' → next_tag s ≡ (t, s')
expected_lem t [] s' e = cc
expected_lem t (t' ∷ s) s' e = ground arith

at_end_lem : (s : Bytes) → is_end s ≡ true → s ≡ []
at_end_lem [] e = refl
at_end_lem (x ∷ s) e = cc

plain-Decodes : Decodes plain
plain-Decodes = record {
  read_tag-tag_bytes = λ t s pos small. refl;
  read_tag_end = refl;
  expected = expected_lem;
  at_end = at_end_lem;
  read_uint32-varint = λ v s small. refl;
  read_string-delimited =
      λ b s fits. rw (take-append (length b) b s refl, drop-append (length b) b s refl) refl;
  enter-delimited =
      λ b s fits. rw (take-append (length b) b s refl, drop-append (length b) b s refl) refl;
  merge_files-files_bytes = λ fs fs' fits. refl;
  tag_long = λ t. omega arith;
  delimited_long = λ b. omega arith;
}

-- Three sites, a file, a device by its numbers and one by its serial number, and a time.
abbrev written : Configuration numbered
written = record {
  whitelist_urls = codes "https://a" ∷ codes "https://b" ∷ [];
  blacklist_urls = codes "https://c" ∷ [];
  wire_protocol_ = some (17 ∷ []);
  known_devices =
      record { vendor_id_ = some 0x10c4; product_id_ = some 1; serial_number_ = none; path_ = none }
      ∷ record {
        vendor_id_ = none;
        product_id_ = none;
        serial_number_ = some (codes "x");
        path_ = none;
      }
      ∷ [];
  valid_until_ = some 200;
}

written-IsWritable : All IsWritable written.known_devices
written-IsWritable = (
  record {
    small_vendor_id = λ v e. omega (arith, some-injective 0x10c4 v e);
    small_product_id = λ v e. omega (arith, some-injective 1 v e);
  },
  (record { small_vendor_id = λ v e. cc; small_product_id = λ v e. cc }, tt),
)

written-IsSmall : IsSmall written.valid_until_
written-IsSmall v e = omega (arith, some-injective 200 v e)

parse_configuration-configuration_bytes_example :
    parse_configuration plain (default_configuration numbered) (configuration_bytes plain written)
    ≡ halted finished written []
unfolding configuration_bytes descriptor_bytes
parse_configuration-configuration_bytes_example =
    parse_configuration-configuration_bytes plain plain-Decodes written written-IsWritable
      written-IsSmall (omega arith)

-- A signature that plain_ssl takes for these bytes, whose first half is their digest.
abbrev seal : Bytes
seal = take 32 (configuration_bytes plain written) ++ replicate 32 7

abbrev unconfigured : Setup numbered
unconfigured = record { configuration = default_configuration numbered; pool = 0 }

api_configure-configuration_bytes_example :
    api_configure plain_boost numbered plain_ssl
      (parse_from_array plain)
      100
      (codes "https://a")
      (seal ++ configuration_bytes plain written)
      clean
      (some unconfigured)
    ≡ (
      ok tt,
      (signature_verify plain_ssl
          (seal ++ configuration_bytes plain written)
          (configuration_bytes plain written)
          clean).1,
      some (record { configuration = written; pool = load_protobuf numbered 0 (17 ∷ []) }),
    )
unfolding configuration_bytes descriptor_bytes authenticate on_match signature_verify verify_loop
    make_digest read_eckey hex_decode bytes_eq
api_configure-configuration_bytes_example =
    api_configure-configuration_bytes plain_boost numbered plain_ssl plain plain-Decodes 100
      (codes "https://a") (seal ++ configuration_bytes plain written) seal written clean
      unconfigured
      (record {
        decoded = refl;
        long = refl;
        writable = written-IsWritable;
        small = written-IsSmall;
        fits = omega arith;
      })
      refl refl refl

abbrev plain_sizes : Sizes numbered
plain_sizes = record {
  uint32_size = λ v. 1;
  delimited_size = λ n. n + 1;
  files_size = λ files. length files;
}

plain-Measures : Measures plain plain_sizes
plain-Measures = record {
  tag_size = λ t small. refl;
  uint32_measured = λ v. refl;
  delimited_longer = λ b. omega arith;
  delimited_measured = λ b. omega arith;
  files_measured = λ files. refl;
}

length-configuration_bytes_example :
    length (configuration_bytes plain written) ≡ configuration_size plain_sizes written
unfolding configuration_bytes
length-configuration_bytes_example =
    length-configuration_bytes plain plain_sizes plain-Measures written (omega arith)
