-- ===== src/Utils/Codecs.antt =====
-- The UTF-8 and hex codecs of utils.cpp.
use trezor_plugin.Prelude.{Bytes, codes}
use trezor_plugin.Exceptions.{Outcome, throw, invalid_argument, catch_exception}
use trezor_plugin.Libraries.Boost.{Boost}

unfoldable pub utf8_encode : Boost → Bytes → Bytes
utf8_encode boost s = boost.wstring_to_utf8 s

unfoldable pub utf8_decode : Boost → Bytes → Bytes
utf8_decode boost s = boost.utf8_to_wstring s

-- hex_encode<std::string>
unfoldable pub hex_encode : Boost → Bytes → Outcome Bytes
hex_encode boost s =
    catch_exception (boost.hex s) (λ e. throw (invalid_argument (codes "Cannot encode to HEX")))

unfoldable pub hex_decode : Boost → Bytes → Outcome Bytes
hex_decode boost s =
    catch_exception (boost.unhex s) (λ e. throw (invalid_argument (codes "Cannot decode from HEX")))
