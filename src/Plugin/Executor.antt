-- ===== src/Plugin/Executor.antt =====
-- DeviceJobExecutor: the jobs of a communicator's thread. It owns the buffer and the channel.
pub mod Answers
pub mod Handles
pub mod Opening
pub mod Exchange
pub mod Late
use trezor_plugin.Prelude.{
  ℕ, ◌++◌, Bool, true, false, Option, none, some, List, [], ◌∷◌, Bytes, if◌then◌else◌,
}
use trezor_plugin.Exceptions.{
  Exception, Outcome, ok, throw, fault, blocked, out_of_fuel, thread_interrupted, what,
}
use trezor_plugin.Libraries.Boost.{Boost}
use trezor_plugin.Libraries.Protobuf.{Protobuf, string}
use trezor_plugin.Libraries.FireBreath.{Variants}
use trezor_plugin.Config.{DeviceDescriptor, path, value_or}
use trezor_plugin.Messages.Names.{create_message}
use trezor_plugin.Messages.Serialize.{message_to_map}
use trezor_plugin.Messages.Parse.{message_from_map}
use trezor_plugin.Devices.State.{Wire, HidBuffer, new_buffer, Io, Action}
use trezor_plugin.Devices.Channel.{Endian, read_message, write_message, open_channel, close_channel}

-- What InvokeAsync hands to a page's callbacks: "success" with its arguments, or "error" with a text.
pub data Reply (V : Type 0) : Type 0 where
  success : List V → Reply V
  error : Bytes → Reply V

-- The executor, with the answers it gave: the callbacks object by its number, and the reply.
-- `channel` says whether a channel is open; the channel's handle is in the wire.
pub record Executor (V : Type 0) : Type 0 where
  pub device : DeviceDescriptor
  pub buffer : Option HidBuffer
  pub channel : Bool
  pub wire : Wire
  pub answers : List (ℕ × Reply V)

-- DeviceJob: DeviceCloseJob, DeviceOpenJob and DeviceCallJob.
pub data Job (V : Type 0) : Type 0 where
  close_job : ℕ → Job V
  open_job : ℕ → Job V
  call_job : Bool → Bytes → List (Bytes × V) → ℕ → Job V

abbrev pub callbacks : {V : Type 0} → Job V → ℕ
callbacks (close_job c) = c
callbacks (open_job c) = c
callbacks (call_job use_timeout type_name message_map c) = c

abbrev pub Exec : Type 0 → Type 0 → Type 0
Exec V A = Executor V → Outcome A × Executor V

abbrev pub and_then : {V A B : Type 0} → (A → Exec V B) → Outcome A → Exec V B
and_then f (ok a) x = f a x
and_then f (throw e) x = (throw e, x)
and_then f fault x = (fault, x)
and_then f blocked x = (blocked, x)
and_then f out_of_fuel x = (out_of_fuel, x)

infixl 5 ◌>>=◌ ◌>>◌
abbrev pub ◌>>=◌ : {V A B : Type 0} → Exec V A → (A → Exec V B) → Exec V B
◌>>=◌ m f x = let (r, x') = m x in and_then f r x'

abbrev pub ◌>>◌ : {V A B : Type 0} → Exec V A → Exec V B → Exec V B
m >> k = m >>= λ _. k

abbrev pub pure : {V A : Type 0} → A → Exec V A
pure a x = (ok a, x)

abbrev pub lift : {V A : Type 0} → Outcome A → Exec V A
lift r x = (r, x)

-- `callbacks->InvokeAsync`
abbrev pub invoke : {V : Type 0} → ℕ → Reply V → Executor V → Executor V
invoke c reply x = record x { answers = x.answers ++ ((c, reply) ∷ []) }

-- A call of the channel, on the executor's buffer and wire.
unfoldable pub on_channel : {V A : Type 0} → Action A → Exec V A
on_channel m x =
    let (r, io) = m (record { buffer = value_or new_buffer x.buffer; wire = x.wire }) in
    (r, record x { buffer = some io.buffer; wire = io.wire })

-- The end of a job's try block: arguments go to "success", an exception's text to "error", and an
-- interruption is thrown on.
unfoldable pub report : {V : Type 0} → Boost → ℕ → Outcome (List V) → Exec V (Unit {0})
report boost c (ok args) x = (ok tt, invoke c (success args) x)
report boost c (throw thread_interrupted) x = (throw thread_interrupted, x)
report boost c (throw e) x = (ok tt, invoke c (error (what boost.lexical_cast e)) x)
report boost c fault x = (fault, x)
report boost c blocked x = (blocked, x)
report boost c out_of_fuel x = (out_of_fuel, x)

unfoldable pub guarded : {V : Type 0} → Boost → ℕ → Exec V (List V) → Exec V (Unit {0})
unfolding report
guarded boost c body x = let (r, x') = body x in report boost c r x'

-- `_channel.reset()` of an open channel closes it; then the buffer goes.
unfoldable pub reset_channel : {V : Type 0} → Exec V (List V)
reset_channel x =
    let (r, w) = close_channel x.wire in
    let closed : Outcome (List _) × Executor _ =
      and_then (λ _ x'. (ok [], record x' { channel = false; buffer = none })) r
        (record x { wire = w }) in
    if x.channel then closed else (ok [], record x { buffer = none })

-- `if (!_buffer.get()) …; if (!_channel.get()) …`. A channel that fails to open is not kept.
unfoldable pub ensure_channel : {V : Type 0} → Exec V (Unit {0})
ensure_channel x =
    let x' : Executor _ = record x { buffer = some (value_or new_buffer x.buffer) } in
    let (r, w) = open_channel (path (x.device)) x.wire in
    let opened : Outcome (Unit {0}) × Executor _ =
      and_then (λ _ y. (ok tt, record y { channel = true })) r (record x' { wire = w }) in
    if x.channel then (ok tt, x') else opened

module _ (boost : Boost) (pb : Protobuf) (fb : Variants pb) (utf8 : Bytes → Bytes) (e : Endian)
    (pool : pb.Pool) (depth : ℕ) where
  open fb use {Variant, of, of_map}

  -- DeviceJobExecutor::call, up to its arguments of "success".
  unfoldable pub call : Bool → Bytes → List (Bytes × Variant) → Exec Variant (List Variant)
  unfolding on_channel
  call use_timeout type_name message_map = do
    prototype ← lift (create_message pb pool type_name)
    inmsg ← lift (message_from_map boost pb fb depth prototype message_map)
    on_channel (write_message utf8 e pb pool inmsg)
    outmsg ← on_channel (read_message utf8 e use_timeout pb pool)
    map ← lift (message_to_map boost pb fb depth outmsg)
    pure (of string (pb.type_name outmsg) ∷ of_map map ∷ [])

  -- DeviceJobExecutor::operator(), by the job.
  unfoldable pub run_job : Job Variant → Exec Variant (Unit {0})
  unfolding guarded reset_channel ensure_channel call
  run_job (close_job c) = guarded boost c reset_channel
  run_job (open_job c) = guarded boost c (ensure_channel >> pure [])
  run_job (call_job use_timeout type_name message_map c) =
      guarded boost c (ensure_channel >> call use_timeout type_name message_map)
