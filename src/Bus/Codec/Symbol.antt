-- ===== src/Bus/Codec/Symbol.antt =====
-- `fw_ctrl_t` and the classes of bytes (include/bus/codec.h), and big-endian words.
use Prim.Native.Nat.{bit_xor}
use hailburst.Prelude.{ℕ, Bool, ◌&&◌, ◌||◌, leb, ◌==◌, Outcome, ok, ◌>>◌, assert}

abbrev pub fwc_none : ℕ
fwc_none = 0

abbrev pub handshake_1 : ℕ
handshake_1 = 0x80

abbrev pub handshake_2 : ℕ
handshake_2 = 0x81

abbrev pub start_packet : ℕ
start_packet = 0x82

abbrev pub end_packet : ℕ
end_packet = 0x83

abbrev pub error_packet : ℕ
error_packet = 0x84

abbrev pub flow_control : ℕ
flow_control = 0x85

abbrev pub keep_alive : ℕ
keep_alive = 0x86

abbrev pub escape_sym : ℕ
escape_sym = 0x87

-- An alias of FWC_ESCAPE_SYM, as in the source.
abbrev pub codec_error : ℕ
codec_error = escape_sym

abbrev pub is_special : ℕ → Bool
is_special ch = leb handshake_1 ch && leb ch escape_sym

-- The result of `fakewire_is_parametrized` where its assertion holds.
abbrev pub takes_param : ℕ → Bool
takes_param ch = ch == handshake_1 || ch == handshake_2 || ch == flow_control || ch == keep_alive

unfoldable pub is_parametrized : ℕ → Outcome Bool
is_parametrized ch = do assert (is_special ch); ok (takes_param ch)

-- byte ^ 0x10
unfoldable pub flip : ℕ → ℕ
flip b = bit_xor b 0x10
