-- ===== src/Api.antt =====
-- PluginAPI (apis.cpp, apis.h): the methods that a page calls.
pub mod Laws
pub mod Jobs
pub mod Derive
pub mod Written
pub mod Attributes
use trezor_plugin.Prelude.{
  ℕ, zero, suc, ◌+◌, ◌-◌, Bool, true, false, Option, none, some, List, [], ◌∷◌, ◌++◌, Bytes, codes,
  length, drop, ltb, if◌then◌else◌, map,
}
use trezor_plugin.Exceptions.{
  Exception, Outcome, ok, throw, fault, blocked, out_of_fuel, script_error, configuration_error,
  what, catch_exception, ◌>>=◌,
}
use trezor_plugin.Libraries.Boost.{Boost}
use trezor_plugin.Libraries.Protobuf.{Protobuf}
use trezor_plugin.Libraries.FireBreath.{Variants}
use trezor_plugin.Libraries.OpenSsl.{OpenSsl}
use trezor_plugin.Libraries.Bip32.{Bip32}
use trezor_plugin.Utils.Codecs.{hex_decode}
use trezor_plugin.Utils.Signature.{Heap, signature_length, signature_verify}
use trezor_plugin.Config.{DeviceDescriptor, Configuration}
use trezor_plugin.Messages.Names.{create_message}
use trezor_plugin.Messages.Serialize.{message_to_map}
use trezor_plugin.Messages.Parse.{message_from_map}
use trezor_plugin.Messages.HdNode.{message_to_hdnode, message_from_hdnode}
use trezor_plugin.Plugin.Site.{authenticate}
use trezor_plugin.Plugin.Configure.{Setup, configure}
use trezor_plugin.Plugin.Enumerate.{HidDeviceInfo, Hidapi, enumerate}
use trezor_plugin.Plugin.Communicators.{Communicator, communicator, put}
use trezor_plugin.Plugin.Executor.{Job, close_job, call_job, Reply, error}

-- `catch (const std::exception &e) { throw FB::script_error(e.what()); }`
abbrev pub rethrown : {A : Type 0} → Boost → Outcome A → Outcome A
rethrown boost r = catch_exception r (λ e. throw (script_error (what boost.lexical_cast e)))

-- `acquire_plugin()->…`, for a plugin that was released (`none`) or is there.
abbrev pub update_plugin :
    {A : Type 0} → Option A → (A → Outcome (Unit {0}) × A) → Outcome (Unit {0}) × Option A
update_plugin none f = (throw (script_error (codes "The plugin is invalid")), none)
update_plugin (some plugin) f = let (r, plugin') = f plugin in (r, some plugin')

module _ (boost : Boost) (pb : Protobuf) (ssl : OpenSsl) (parse : Bytes → Configuration pb) where
  -- `config_len >= SIGNATURE_LENGTH` and the signature's check; without the first there is none.
  unfoldable pub verified : Bytes → Heap → Bool × Heap
  verified config h =
      if ltb (length config) signature_length
      then (false, h)
      else signature_verify ssl config (drop signature_length config) h

  -- PluginAPI::configure, from the decoded text on. `parse` is Configuration::ParseFromArray.
  unfoldable pub configure_decoded :
      (now : ℕ) (location : Bytes)
      → Bytes
      → Heap
      → Option (Setup pb)
      → Outcome (Unit {0}) × Heap × Option (Setup pb)
  unfolding verified
  configure_decoded now location config h plugin =
      let (good, h') = verified config h in
      let (r, plugin') =
        update_plugin plugin
          (configure boost pb now location (parse (drop signature_length config))) in
      if good
      then (r, h', plugin')
      else (throw (configuration_error (codes "Signature verification failed")), h', plugin)

  abbrev pub after_decoding :
      (now : ℕ) (location : Bytes)
      → Outcome Bytes
      → Heap
      → Option (Setup pb)
      → Outcome (Unit {0}) × Heap × Option (Setup pb)
  after_decoding now location (ok config) h plugin = configure_decoded now location config h plugin
  after_decoding now location (throw e) h plugin = (throw e, h, plugin)
  after_decoding now location fault h plugin = (fault, h, plugin)
  after_decoding now location blocked h plugin = (blocked, h, plugin)
  after_decoding now location out_of_fuel h plugin = (out_of_fuel, h, plugin)

  -- PluginAPI::configure
  unfoldable pub api_configure :
      (now : ℕ) (location : Bytes)
      → Bytes
      → Heap
      → Option (Setup pb)
      → Outcome (Unit {0}) × Heap × Option (Setup pb)
  unfolding configure_decoded
  api_configure now location config_str_hex h plugin =
      let (r, h', plugin') =
        after_decoding now location (hex_decode boost config_str_hex) h plugin in
      (rethrown boost r, h', plugin')

-- The map to the page, or the exception: deriveChildNode. `pool` is the descriptor pool.
module _ (boost : Boost) (pb : Protobuf) (fb : Variants pb) (bip : Bip32) (pool : pb.Pool)
    (depth : ℕ) where
  unfoldable pub derive_child_node :
      List (Bytes × fb.Variant) → ℕ → Outcome (List (Bytes × fb.Variant))
  derive_child_node node_map index = rethrown boost (do
    empty ← create_message pb pool (codes "HDNodeType")
    node_msg ← message_from_map boost pb fb depth empty node_map
    node ← message_to_hdnode pb bip node_msg
    derived ← message_from_hdnode pb bip node_msg (bip.hdnode_public_ckd node index)
    message_to_map boost pb fb depth derived)

module _ (boost : Boost) (pb : Protobuf) where
  -- PluginAPI::devices, by the answer of authenticate. Each descriptor is wrapped for the page.
  abbrev pub list_devices :
      List DeviceDescriptor
      → List HidDeviceInfo
      → Hidapi
      → Outcome Bool
      → Outcome (List DeviceDescriptor) × Hidapi
  list_devices known connected h (ok true) =
      let (r, h') = enumerate boost known connected h in (rethrown boost r, h')
  list_devices known connected h (ok false) =
      (throw (configuration_error (codes "URL not allowed")), h)
  list_devices known connected h (throw e) = (throw e, h)
  list_devices known connected h fault = (fault, h)
  list_devices known connected h blocked = (blocked, h)
  list_devices known connected h out_of_fuel = (out_of_fuel, h)

  unfoldable pub api_devices :
      (location : Bytes)
      → Option (Setup pb)
      → List HidDeviceInfo
      → Hidapi
      → Outcome (List DeviceDescriptor) × Hidapi
  api_devices location none connected h = (throw (script_error (codes "The plugin is invalid")), h)
  api_devices location (some plugin) connected h =
      let config = plugin.configuration in
      list_devices config.known_devices connected h (authenticate boost pb location config)

-- What call and close change: the communicators of a plugin that is there, and the answers to a page.
pub record Desk (V : Type 0) : Type 0 where
  pub communicators : Option (List (Communicator (Job V)))
  pub answers : List (ℕ × Reply V)

abbrev pub enqueue_at : {T : Type 0} → T → ℕ → List (Communicator T) → List (Communicator T)
enqueue_at job i [] = []
enqueue_at job zero (c ∷ cs) = record c { queue = put job c.queue } ∷ cs
enqueue_at job (suc i) (c ∷ cs) = c ∷ enqueue_at job i cs

-- `communicator(device)->…`, which puts the job into its queue.
unfoldable pub enqueue :
    {T : Type 0} → DeviceDescriptor → T → List (Communicator T) → List (Communicator T)
unfolding communicator put
enqueue device job cs = let (i, cs') = communicator device cs in enqueue_at job i cs'

-- The body of call and close: a plugin that is gone is answered with "error".
unfoldable pub submit : {V : Type 0} → DeviceDescriptor → Job V → ℕ → Desk V → Desk V
unfolding enqueue
submit device job c d = elim (d.communicators) [
  | none ↦ record d { answers = d.answers ++ ((c, error (codes "The plugin is invalid")) ∷ []) }
  | some cs ↦ record d { communicators = some (enqueue device job cs) }
]

unfoldable pub api_call :
    {V : Type 0}
    → DeviceDescriptor
    → (use_timeout : Bool) → (type_name : Bytes) → List (Bytes × V)
    → ℕ
    → Desk V
    → Desk V
unfolding submit
api_call device use_timeout type_name message_map c d =
    submit device (call_job use_timeout type_name message_map c) c d

unfoldable pub api_close : {V : Type 0} → DeviceDescriptor → ℕ → Desk V → Desk V
unfolding submit
api_close device c d = submit device (close_job c) c d
