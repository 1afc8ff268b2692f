-- ===== src/Devices/Channel/Header.antt =====
-- DeviceChannel::read_header and DeviceChannel::read on a stream with a header (devices.cpp).
use trezor_plugin.Prelude.{
  ℕ, zero, suc, ◌≤◌, ◌<◌, ◌^◌, ◌≡◌, ◌≢◌, refl, ap, ◌∙◌, Bool, [], ◌∷◌, ◌++◌, Bytes, codes, length,
  length-append, take, drop, take-append, drop-append, append_assoc, arith, All, ◌==◌,
  if◌then◌else◌, le→ltb, lt→ltb, eq_false_of_ne,
}
use trezor_plugin.Exceptions.{Outcome, ok, throw, read_error}
use trezor_plugin.Libraries.Protobuf.{Protobuf}
use trezor_plugin.Messages.Names.{decode}
use trezor_plugin.Devices.State.{Io, buffer_size}
use trezor_plugin.Devices.Buffer.{read}
use trezor_plugin.Devices.Buffer.Stream.{stream}
use trezor_plugin.Devices.Buffer.Read.{safe_length}
use trezor_plugin.Devices.Buffer.Answer.{IsReady, read-Answers}
use trezor_plugin.Devices.Channel.{
  Endian, header, align, read_header, read_body, read_message, frame,
}
use trezor_plugin.Devices.Channel.Fields.{fields-header, header_shape}

-- A call came to `a`, and left `rest` of the stream.
pub record Takes {A : Type 0} (base : ℕ) (rest : Bytes) (a : A) (result : Outcome A × Io)
    : Type 0 where
  pub done : result.0 ≡ ok a
  pub left : stream result.1 ≡ rest
  pub ready : IsReady base result.1

one_byte : (x : ℕ) → length (x ∷ []) ≡ 1
one_byte x = refl

one_safe : 1 ≤ safe_length
one_safe = omega arith

six_safe : 6 ≤ safe_length
six_safe = omega arith

-- `frame` writes no bytes if there are none.
no_bytes : (bytes : Bytes) → (if length bytes == 0 then [] else bytes) ≡ bytes
no_bytes [] = refl
no_bytes (x ∷ xs) = ground arith

module _ (utf8 : Bytes → Bytes) (base : ℕ) (timeout : Bool) where
  pub read-Takes :
      (wanted : ℕ) (io : Io) (bytes rest : Bytes)
      → IsReady base io
      → stream io ≡ bytes ++ rest
      → length bytes ≡ wanted
      → wanted ≤ safe_length
      → Takes base rest bytes (read utf8 wanted timeout io)
  read-Takes wanted io bytes rest h s len small =
      let enough : wanted ≤ length (stream io) = rw s (omega (arith, length-append bytes rest)) in
      let (e, left, ready) = read-Answers utf8 base wanted timeout io h small enough in
      record {
        done = e ∙ ap (λ t. ok (take wanted t)) s ∙ ap ok (take-append wanted bytes rest len);
        left = left ∙ ap (drop wanted) s ∙ drop-append wanted bytes rest len;
        ready = ready;
      }

  -- The loop passes what is no `#`, and the first `#`.
  align-Takes :
      (e : Endian) (fuel : ℕ) (io : Io) (garbage rest : Bytes)
      → IsReady base io
      → stream io ≡ garbage ++ (b'#' ∷ rest)
      → All (λ b. b ≢ b'#') garbage
      → length garbage < fuel
      → Takes base rest tt (align utf8 e timeout fuel io)
  unfolding align
  align-Takes e zero io garbage rest h s g hf = absurd (omega arith)
  align-Takes e (suc fuel) io [] rest h s g hf =
      let t = read-Takes 1 io (b'#' ∷ []) rest h s (omega arith) (omega arith) in
      rw t.done (record { done = refl; left = t.left; ready = t.ready })
  align-Takes e (suc fuel) io (x ∷ xs) rest h s (gx, gs) hf =
      let t = read-Takes 1 io (x ∷ []) (xs ++ (b'#' ∷ rest)) h s (omega arith) (omega arith) in
      rw (t.done, eq_false_of_ne x b'#' gx)
        (align-Takes e fuel _ xs rest t.ready t.left gs (omega arith))

  -- read_header on a stream where a header stands behind bytes that are no `#`.
  read_header-Takes :
      (e : Endian) (type msgsize : ℕ) (io : Io) (garbage rest : Bytes)
      → IsReady base io
      → type < 2 ^ 16
      → msgsize < 2 ^ 32
      → All (λ b. b ≢ b'#') garbage
      → stream io ≡ garbage ++ (header e type msgsize ++ rest)
      → Takes base rest (type, msgsize) (read_header utf8 e timeout io)
  unfolding read_header
  read_header-Takes e type msgsize io garbage rest h ht hm g s =
      let six = drop 2 (header e type msgsize) in
      let (shape, six_long) = header_shape e type msgsize in
      let s' : stream io ≡ garbage ++ (b'#' ∷ b'#' ∷ (six ++ rest)) =
        s ∙ ap (λ t. garbage ++ (t ++ rest)) shape in
      let fits : length garbage < suc (length (stream io)) =
        rw s' (omega (arith, length-append garbage (b'#' ∷ b'#' ∷ (six ++ rest)))) in
      let a : Takes base (b'#' ∷ (six ++ rest)) tt
          (align utf8 e timeout (suc (length (stream io))) io) =
        align-Takes e _ io garbage (b'#' ∷ (six ++ rest)) h s' g fits in
      let second =
        read-Takes 1 _ (b'#' ∷ []) (six ++ rest) a.ready a.left (one_byte b'#') one_safe in
      let third = read-Takes 6 _ six rest second.ready second.left six_long six_safe in
      rw (a.done, second.done, third.done)
        (record {
          done = ap ok (fields-header e type msgsize ht hm);
          left = third.left;
          ready = third.ready;
        })

  module _ (pb : Protobuf) (pool : pb.Pool) (e : Endian) where
    -- DeviceChannel::read gives back what DeviceChannel::write framed. With a device that keeps up,
    -- a stream of any bytes but `#`, a frame of at most 1986 bytes, and more, comes to the message
    -- that the frame's type and bytes decode to, and the stream is left behind the frame.
    pub read_message-frame :
        (type : ℕ) (bytes garbage rest : Bytes) (m : pb.Message) (io : Io)
        → IsReady base io
        → type < 2 ^ 16
        → length bytes ≤ safe_length
        → All (λ b. b ≢ b'#') garbage
        → stream io ≡ garbage ++ (frame e type (length bytes) bytes ++ rest)
        → decode pb pool type bytes ≡ ok m
        → Takes base rest m (read_message utf8 e timeout pb pool io)
    unfolding read_message read_body frame
    read_message-frame type bytes garbage rest m io h ht hb g s d =
        let s' : stream io ≡ garbage ++ (header e type (length bytes) ++ (bytes ++ rest)) =
          s
          ∙ ap (λ t. garbage ++ ((header e type (length bytes) ++ t) ++ rest)) (no_bytes bytes)
          ∙ ap (λ t. garbage ++ t) (append_assoc (header e type (length bytes)) bytes rest) in
        let f =
          read_header-Takes e type (length bytes) io garbage (bytes ++ rest) h ht (omega arith) g
            s' in
        let b = read-Takes (length bytes) _ bytes rest f.ready f.left refl hb in
        rw (f.done, le→ltb buffer_size (length bytes) (omega arith), b.done)
          (record { done = d; left = b.left; ready = b.ready })

    -- A header that announces more than 2048 bytes, behind bytes that are no `#` and from a device
    -- that keeps up, is refused: the call throws, and nothing behind the header is read.
    pub read_message_too_long :
        (type size : ℕ) (garbage rest : Bytes) (io : Io)
        → IsReady base io
        → type < 2 ^ 16
        → size < 2 ^ 32
        → buffer_size < size
        → All (λ b. b ≢ b'#') garbage
        → stream io ≡ garbage ++ (header e type size ++ rest)
        → ((read_message utf8 e timeout pb pool io).0 ≡ throw (read_error (codes "Invalid data")))
          × (stream (read_message utf8 e timeout pb pool io).1 ≡ rest)
    unfolding read_message read_body
    read_message_too_long type size garbage rest io h ht hs big g s =
        let f = read_header-Takes e type size io garbage rest h ht hs g s in
        rw (f.done, lt→ltb buffer_size size big) (refl, f.left)
