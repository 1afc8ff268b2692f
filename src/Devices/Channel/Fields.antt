-- ===== src/Devices/Channel/Fields.antt =====
-- The eight bytes in front of a message (DeviceChannel::write and read_header, devices.cpp).
use trezor_plugin.Prelude.{ℕ, ◌/◌, ◌%◌, ◌^◌, ◌<◌, ◌≡◌, refl, [], ◌∷◌, drop, length, arith}
use mathlib.Core.Path.{ap₂}
use trezor_plugin.Devices.Channel.{Endian, little, big, header, fields}

-- What DeviceChannel::read_header reads out of the six bytes is what DeviceChannel::write put
-- there, on a host of either byte order, for a type of 16 bits and a length of 32.
pub fields-header :
    (e : Endian) (type msgsize : ℕ)
    → type < 2 ^ 16
    → msgsize < 2 ^ 32
    → fields e (drop 2 (header e type msgsize)) ≡ (type, msgsize)
unfolding fields header
fields-header little type msgsize ht hm = ap₂ (λ a b. (a, b)) (omega arith) (omega arith)
fields-header big type msgsize ht hm = ap₂ (λ a b. (a, b)) (omega arith) (omega arith)

-- On a little-endian host the fields, a type of 16 bits and a length of 32, stand in network order.
pub header_network_order :
    (type msgsize : ℕ)
    → type < 2 ^ 16
    → msgsize < 2 ^ 32
    → header little type msgsize
      ≡ b'#'
        ∷ b'#'
        ∷ (type / 256)
        ∷ (type % 256)
        ∷ (msgsize / 2 ^ 24)
        ∷ (msgsize / 2 ^ 16 % 256)
        ∷ (msgsize / 2 ^ 8 % 256)
        ∷ (msgsize % 256)
        ∷ []
unfolding header
header_network_order type msgsize ht hm = ground arith

-- The header is the magic characters and six bytes.
pub header_shape :
    (e : Endian) (type msgsize : ℕ)
    → (header e type msgsize ≡ b'#' ∷ b'#' ∷ drop 2 (header e type msgsize))
      × (length (drop 2 (header e type msgsize)) ≡ 6)
unfolding header
header_shape e type msgsize = (refl, refl)
