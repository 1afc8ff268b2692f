-- ===== src/Tests/Api.antt =====
-- The page's calls, the signature check and a communicator at work.
use trezor_plugin.Prelude.{
  ◌+◌, ◌≡◌, refl, ◌↔◌, true, some, List, [], ◌∷◌, Bytes, codes, take, drop, if◌then◌else◌,
  replicate,
}
use trezor_plugin.Prelude.Tests.{bytes_eq}
use trezor_plugin.Prelude.Int.{pos}
use trezor_plugin.Libraries.OpenSsl.{OpenSsl}
use trezor_plugin.Utils.Signature.{Heap, signature_keys, signature_verify}
use trezor_plugin.Utils.Signature.Keys.{SomeVerifies, signature_verify_iff}
use trezor_plugin.Config.{Configuration}
use trezor_plugin.Plugin.Communicators.{Communicator}
use trezor_plugin.Plugin.Executor.{
  Job, call_job, close_job, run_job, guarded, report, reset_channel,
}
use trezor_plugin.Plugin.Worker.{Line, Runs, begun, enqueued, consumed, consume}
use trezor_plugin.Plugin.Communicators.{put, take_job}
use trezor_plugin.Devices.Channel.{little}
use trezor_plugin.Api.{Desk, api_configure, api_call}
use trezor_plugin.Api.Laws.{Configured, api_configure-Configured}
use trezor_plugin.Api.Jobs.{Enqueued, api_call-Enqueued}
use trezor_plugin.Tests.{plain_boost, notes}
use trezor_plugin.Tests.Variants.{Value, values}
use trezor_plugin.Tests.Plugin.{same_text, settings, fresh, at_path, idle}

-- Signatures whose first half is the data's beginning are good, under every key.
abbrev pub plain_ssl : OpenSsl
plain_ssl = record {
  Bio = Bytes;
  EvpKey = Bytes;
  EcKey = Bytes;
  BigNum = Bytes;
  sha256 = λ bytes. take 32 bytes;
  bn_bin2bn = λ bytes. bytes;
  bio_new_mem_buf = λ text. some text;
  pem_read_bio_pubkey = λ bio. some bio;
  evp_pkey_get1_ec_key = λ key. some key;
  ecdsa_do_verify = λ digest r s key. if bytes_eq digest r then pos 1 else pos 0;
}

abbrev pub clean : Heap
clean = record { bios = 0; evp_keys = 0; ec_keys = 0; big_nums = 0 }

-- 64 bytes of signature, and 32 of data.
abbrev pub signed : Bytes
signed = replicate 96 7

signature_verify_iff_example :
    (((signature_verify plain_ssl signed (replicate 32 7) clean).0 ≡ true)
      ↔ SomeVerifies plain_ssl
          (plain_ssl.sha256 (replicate 32 7))
          (plain_ssl.bn_bin2bn (take 32 signed))
          (plain_ssl.bn_bin2bn (take 32 (drop 32 signed)))
          signature_keys)
    × ((signature_verify plain_ssl signed (replicate 32 7) clean).1
        ≡ record clean { big_nums = clean.big_nums + 2 })
signature_verify_iff_example = signature_verify_iff plain_ssl signed (replicate 32 7) clean

abbrev pub parsed : Bytes → Configuration notes
parsed bytes = settings

api_configure-Configured_example :
    Configured plain_boost notes plain_ssl parsed 100 (codes "https://a") signed clean fresh (
      api_configure plain_boost notes plain_ssl parsed 100
        (codes "https://a")
        signed
        clean
        (some fresh))
api_configure-Configured_example =
    api_configure-Configured plain_boost notes plain_ssl parsed 100 (codes "https://a") signed clean
      fresh

abbrev one_queue : List (Communicator (Job Value))
one_queue = record { device = at_path (codes "p"); queue = close_job 1 ∷ [] } ∷ []

abbrev desk : Desk Value
desk = record { communicators = some one_queue; answers = [] }

api_call-Enqueued_example :
    (after : List (Communicator (Job Value))) × ((api_call
        (at_path (codes "p"))
        true
        (codes "Ping")
        []
        2
        desk).communicators
      ≡ some after)
    × Enqueued (at_path (codes "p")) (call_job true (codes "Ping") [] 2) one_queue after
    × ((api_call (at_path (codes "p")) true (codes "Ping") [] 2 desk).answers ≡ desk.answers)
api_call-Enqueued_example =
    api_call-Enqueued (at_path (codes "p")) true (codes "Ping") [] 2 desk one_queue refl (tt, tt)

abbrev line : Line Value
line = record { queue = []; executor = idle }

-- Two jobs are put into the queue, and the thread closes for the first.
abbrev two_jobs : Line Value
two_jobs = record line { queue = put (close_job 2) (put (close_job 1) []) }

busy_day :
    Runs plain_boost notes values same_text little 0 3 line
      (1 ∷ 2 ∷ [])
      (consume plain_boost notes values same_text little 0 3 two_jobs).1
unfolding consume take_job put run_job guarded report reset_channel
busy_day =
    consumed {cs = 1 ∷ 2 ∷ []} {l' = two_jobs}
      (enqueued (enqueued begun (close_job 1)) (close_job 2)) refl
