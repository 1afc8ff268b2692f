-- ===== src/Tests/Plugin.antt =====
-- The plugin object and the executor at work.
use trezor_plugin.Prelude.{
  ◌+◌, ◌≡◌, refl, ◌↔◌, ◌⊎◌, true, false, none, some, List, [], ◌∷◌, Bytes, codes, All,
}
use trezor_plugin.Prelude.Int.{pos}
use trezor_plugin.Prelude.Tests.{bytes_eq}
use trezor_plugin.Utils.Codecs.{utf8_encode}
use trezor_plugin.Exceptions.{ok, blocked}
use trezor_plugin.Config.{wire_protocol, DeviceDescriptor, Configuration}
use trezor_plugin.Devices.State.{Io}
use trezor_plugin.Devices.Buffer.{write}
use trezor_plugin.Devices.Channel.{little}
use trezor_plugin.Messages.Names.{load_protobuf}
use trezor_plugin.Plugin.Site.{authenticate, Allows, Misses, authenticate_iff}
use trezor_plugin.Plugin.Configure.{Setup, is_expired, configure, configure_result}
use trezor_plugin.Plugin.Enumerate.{
  HidDeviceInfo, Hidapi, describe, matches, has_serial, push_unique, add_if_known, enumerate_loop,
  enumerate,
}
use trezor_plugin.Plugin.Enumerate.Laws.{Distinct, candidates, duplicit, enumerate_result}
use trezor_plugin.Plugin.Enumerate.Wedge.{enumerate_wedges}
use trezor_plugin.Plugin.Executor.{Executor, Job, call_job, run_job}
use trezor_plugin.Plugin.Executor.Answers.{Answered, run_job-Answered}
use trezor_plugin.Tests.{plain_boost, notes, three_bytes, wire_with}
use trezor_plugin.Tests.Variants.{Value, values}

abbrev pub same_text : Bytes → Bytes
same_text s = s

-- One site is let in, another is not; one device is known.
abbrev pub settings : Configuration notes
settings = record {
  whitelist_urls = codes "https://a" ∷ [];
  blacklist_urls = codes "https://b" ∷ [];
  wire_protocol_ = some ([] ∷ []);
  known_devices =
      record { vendor_id_ = some 0x10c4; product_id_ = none; serial_number_ = none; path_ = none }
      ∷ [];
  valid_until_ = some 200;
}

authenticate_iff_example :
    (authenticate plain_boost notes (codes "https://a") settings ≡ ok true) ↔ (
      All (Misses plain_boost (codes "https://a")) settings.blacklist_urls
      × Allows plain_boost (codes "https://a") settings.whitelist_urls)
authenticate_iff_example = authenticate_iff plain_boost notes (codes "https://a") settings

abbrev pub fresh : Setup notes
fresh = record { configuration = settings; pool = 0 }

configure_result_example :
    ((is_expired plain_boost notes 100 settings ≡ false)
      × (authenticate plain_boost notes (codes "https://a") settings ≡ ok true)
      × (configure plain_boost notes 100 (codes "https://a") settings fresh ≡ (
        ok tt,
        record {
          configuration = settings;
          pool = load_protobuf notes fresh.pool (wire_protocol notes settings);
        },
      )))
    ⊎ (¬ (
          (is_expired plain_boost notes 100 settings ≡ false)
          × (authenticate plain_boost notes (codes "https://a") settings ≡ ok true))
        × ((configure plain_boost notes 100 (codes "https://a") settings fresh).1 ≡ fresh)
        × ¬ ((configure plain_boost notes 100 (codes "https://a") settings fresh).0 ≡ ok tt))
configure_result_example = configure_result plain_boost notes 100 (codes "https://a") settings fresh

-- A device of the known vendor, with this serial number.
abbrev plugged : Bytes → HidDeviceInfo
plugged serial = record {
  device_path = serial;
  vendor = 0x10c4;
  product = 1;
  serial = some serial;
  product_string = some (codes "TREZOR");
  interface_number = pos 0;
}

abbrev pub unlocked : Hidapi
unlocked = record { locked = false; unfreed = 0 }

abbrev pub twins : List HidDeviceInfo
twins = plugged (codes "x") ∷ plugged (codes "x") ∷ []

abbrev known : List DeviceDescriptor
known = settings.known_devices

enumerate_result_example :
    (Distinct (candidates plain_boost known twins)
      × (enumerate plain_boost known twins unlocked
          ≡ (ok (candidates plain_boost known twins), unlocked)))
    ⊎ (¬ Distinct (candidates plain_boost known twins)
        × (enumerate plain_boost known twins unlocked
            ≡ (duplicit, record { locked = true; unfreed = unlocked.unfreed + 1 })))
enumerate_result_example = enumerate_result plain_boost known twins unlocked refl

twins_clash : ¬ Distinct (candidates plain_boost known twins)
unfolding describe matches utf8_encode bytes_eq
twins_clash d = d.0.0 refl

-- The device layer after the exception: its mutex is as enumerate left it.
abbrev left_locked : Io
left_locked = record three_bytes { wire = record (wire_with []) { locked = true } }

enumerate_wedges_example :
    ((enumerate plain_boost known [] (enumerate plain_boost known twins unlocked).1).0 ≡ blocked)
    × ((write same_text (1 ∷ []) left_locked).0 ≡ blocked)
unfolding enumerate enumerate_loop describe add_if_known matches push_unique has_serial utf8_encode
    bytes_eq
enumerate_wedges_example =
    enumerate_wedges plain_boost known twins [] unlocked same_text 1 [] left_locked refl twins_clash
      refl

-- A device at a path.
abbrev pub at_path : Bytes → DeviceDescriptor
at_path p = record { vendor_id_ = none; product_id_ = none; serial_number_ = none; path_ = some p }

abbrev pub idle : Executor Value
idle = record {
  device = at_path (codes "p");
  buffer = none;
  channel = false;
  wire = wire_with [];
  answers = [];
}

abbrev ping_job : Job Value
ping_job = call_job true (codes "Ping") [] 7

run_job-Answered_example :
    Answered 7 idle (run_job plain_boost notes values same_text little 0 3 ping_job idle)
run_job-Answered_example =
    run_job-Answered plain_boost notes values same_text little 0 3 ping_job idle
