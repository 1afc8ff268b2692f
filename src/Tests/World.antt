-- ===== src/Tests/World.antt =====
-- A day of the plugin: a page configures it, lists a device, passes a job, and the plugin goes.
use trezor_plugin.Prelude.{
  ℕ, ◌≡◌, ◌⊎◌, get_elem?, refl, false, none, some, List, [], ◌∷◌, Bytes, codes, map,
}
use trezor_plugin.Prelude.Int.{negsuc}
use trezor_plugin.Prelude.Tests.{bytes_eq}
use trezor_plugin.Exceptions.{ok}
use trezor_plugin.Config.{DeviceDescriptor, path}
use trezor_plugin.Utils.Codecs.{hex_decode, utf8_encode}
use trezor_plugin.Utils.Signature.{signature_verify, make_digest, verify_loop, read_eckey}
use trezor_plugin.Plugin.Site.{authenticate}
use trezor_plugin.Plugin.Configure.{configure}
use trezor_plugin.Plugin.Enumerate.{
  describe, matches, has_serial, push_unique, add_if_known, enumerate_loop, enumerate,
}
use trezor_plugin.Devices.Channel.{open_channel, close_channel}
use trezor_plugin.Plugin.Executor.{run_job, guarded, report, ensure_channel, reset_channel}
use trezor_plugin.Plugin.Worker.{consume}
use trezor_plugin.Devices.Channel.{little}
use trezor_plugin.Plugin.Enumerate.{HidDeviceInfo}
use trezor_plugin.Plugin.Executor.{close_job, open_job}
use trezor_plugin.Plugin.Lifecycle.{new_communicator, shutdown, join, destroy_executor}
use trezor_plugin.Plugin.Communicators.{put, take_job}
use trezor_plugin.Api.{enqueue, api_devices, api_configure, configure_decoded, verified}
use trezor_plugin.World.{
  Thread, World, device, put_job, seat, submit_to, turn, turn_at, start, page_configure,
  page_devices, page_submit, thread_turn, Reach, begun, configured, enumerated, submitted, turned,
}
use trezor_plugin.World.Invariant.{Sound}
use trezor_plugin.World.Reached.{Reach-Sound}
use trezor_plugin.World.Gate.{Gated, Reach-Gated}
use trezor_plugin.World.Ending.{lines, AllEnded, AllFinished, Reach-AllEnded, Reach-shutdown_idle}
use trezor_plugin.World.Progress.{thread_turns, Reach-answers}
use trezor_plugin.World.Threads.{sent_to}
use trezor_plugin.Plugin.Lifecycle.Shutdown.{answered}
use trezor_plugin.World.Seats.{seat-submit_to}
use trezor_plugin.Tests.{plain_boost, notes, wire_with}
use trezor_plugin.Tests.Variants.{Value, values}
use trezor_plugin.Tests.Plugin.{same_text}
use trezor_plugin.Tests.Api.{plain_ssl, clean, signed, parsed}

abbrev plugged : HidDeviceInfo
plugged = record {
  device_path = codes "p";
  vendor = 0x10c4;
  product = 0xea80;
  serial = some (codes "s");
  product_string = some (codes "t");
  interface_number = negsuc 0;
}

abbrev trezor : DeviceDescriptor
trezor = record {
  vendor_id_ = some 0x10c4;
  product_id_ = some 0xea80;
  serial_number_ = some (codes "s");
  path_ = some (codes "p");
}

abbrev at_start : World notes Value
at_start = start notes 0 clean

abbrev configured_world : World notes Value
configured_world =
    page_configure plain_boost notes values same_text little 3 plain_ssl parsed (codes "https://a")
      100 signed at_start

abbrev listing : World notes Value
listing =
    page_devices plain_boost notes values same_text little 3 plain_ssl parsed (codes "https://a")
      (plugged ∷ []) configured_world

abbrev one_job : World notes Value
one_job =
    page_submit plain_boost notes values same_text little 3 plain_ssl parsed trezor (wire_with [])
      (open_job 1) listing

abbrev worked : World notes Value
worked = thread_turn plain_boost notes values same_text little 3 plain_ssl parsed 0 one_job

abbrev a_day : List (Bytes × ℕ)
a_day = (codes "p", 1) ∷ []

morning : Reach plain_boost notes values same_text little 3 plain_ssl parsed at_start a_day one_job
unfolding page_devices api_devices page_configure api_configure configure_decoded verified
    signature_verify hex_decode configure authenticate enumerate enumerate_loop describe
    add_if_known matches push_unique has_serial utf8_encode bytes_eq make_digest verify_loop
    read_eckey
morning =
    submitted {es = []} {w = listing}
      (enumerated {es = []} {w = configured_world}
        (configured {es = []} {w = at_start} begun (codes "https://a") 100 signed)
        (codes "https://a") (plugged ∷ []))
      trezor (wire_with []) (open_job 1)

day : Reach plain_boost notes values same_text little 3 plain_ssl parsed at_start a_day worked
day = turned {es = a_day} {w = one_job} morning 0

-- The thread with its job.
abbrev begun_thread : Thread Value
begun_thread = put_job (open_job 1) (record {
  line = new_communicator trezor (record (wire_with []) { locked = false; handles = 0 });
  stuck = none;
})

Reach-answers_example :
    (t' : Thread Value) × (get_elem?
        (thread_turns plain_boost notes values same_text little 3 plain_ssl parsed 0 1
          one_job).threads
        0
      ≡ some t')
    × (((c : ℕ) × (t'.stuck ≡ some c))
        ⊎ (answered t'.line.executor ≡ sent_to (path (device t')) a_day))
unfolding page_devices api_devices page_configure api_configure configure_decoded verified
    signature_verify hex_decode configure authenticate enumerate enumerate_loop describe
    add_if_known matches push_unique has_serial utf8_encode bytes_eq make_digest verify_loop
    read_eckey page_submit submit_to put
Reach-answers_example =
    Reach-answers plain_boost notes values same_text little 3 plain_ssl parsed 0 clean morning 0
      begun_thread refl

Reach-Sound_example : Sound a_day worked.hidapi.locked worked.threads
Reach-Sound_example =
    Reach-Sound plain_boost notes values same_text little 3 plain_ssl parsed 0 clean day

Reach-Gated_example : Gated plain_boost notes plain_ssl parsed worked
Reach-Gated_example =
    Reach-Gated plain_boost notes values same_text little 3 plain_ssl parsed 0 clean day

Reach-AllEnded_example :
    AllEnded a_day worked.threads
      (shutdown plain_boost notes values same_text little worked.setup.pool 3
        (lines worked.threads)).1
unfolding page_devices api_devices page_configure api_configure configure_decoded verified
    signature_verify hex_decode configure authenticate enumerate enumerate_loop describe
    add_if_known matches push_unique has_serial utf8_encode bytes_eq make_digest verify_loop
    read_eckey page_submit submit_to put thread_turn turn_at turn consume take_job run_job guarded
    report ensure_channel reset_channel open_channel close_channel shutdown join destroy_executor
Reach-AllEnded_example =
    Reach-AllEnded plain_boost notes values same_text little 3 plain_ssl parsed 0 clean day
      (refl, tt) refl

Reach-shutdown_idle_example :
    ((shutdown plain_boost notes values same_text little worked.setup.pool 3
        (lines worked.threads)).0
      ≡ ok tt)
    × AllFinished a_day worked.threads
        (shutdown plain_boost notes values same_text little worked.setup.pool 3
          (lines worked.threads)).1
unfolding page_devices api_devices page_configure api_configure configure_decoded verified
    signature_verify hex_decode configure authenticate enumerate enumerate_loop describe
    add_if_known matches push_unique has_serial utf8_encode bytes_eq make_digest verify_loop
    read_eckey page_submit submit_to put thread_turn turn_at turn consume take_job run_job guarded
    report ensure_channel reset_channel open_channel close_channel shutdown join destroy_executor
Reach-shutdown_idle_example =
    Reach-shutdown_idle plain_boost notes values same_text little 3 plain_ssl parsed 0 clean day
      refl (refl, tt) (refl, tt)

seat-submit_to_example :
    map seat (submit_to trezor (wire_with []) (close_job 2) one_job.threads)
    ≡ enqueue trezor (close_job 2) (map seat one_job.threads)
seat-submit_to_example = seat-submit_to trezor (wire_with []) (close_job 2) one_job.threads
