-- ===== src/Bus/Codec/Tests.antt =====
-- Short lines and token sequences on which the theorems about the codec are applied.
use hailburst.Prelude.{ℕ, ◌≤◌, ◌≡◌, refl, false, List, [], ◌∷◌, some, ok, arith, length}
use hailburst.Bus.Codec.Symbol.{handshake_1, start_packet, end_packet, escape_sym, fwc_none}
use hailburst.Bus.Codec.Line.{escape_all}
use hailburst.Bus.Codec.Encode.{Encoder, enc_encode_data}
use hailburst.Bus.Codec.Decode.{Decoder, DecoderSynch, Decoded, dec_decode}
use hailburst.Bus.Codec.Total.{DecodeOk, dec_decode-DecodeOk}
use hailburst.Bus.Codec.Writing.{Took, enc_encode_data-Took}
use hailburst.Bus.Codec.Stream.{
  Token, chars, control, AllLegal, room_of, encode_tokens, decode_tokens, decode-encode,
}

abbrev idle_synch : DecoderSynch
idle_synch = record {
  recv_in_escape = false;
  recv_current = fwc_none;
  recv_count = 0;
  recv_param = 0 ∷ 0 ∷ 0 ∷ 0 ∷ [];
  recv_timestamp_ns = 0;
}

-- A packet between its marks, behind a handshake; one of its bytes needs an escape.
abbrev tokens : List Token
tokens =
    control handshake_1 0x80000005
    ∷ control start_packet 0
    ∷ chars (1 ∷ 0x82 ∷ 3 ∷ [])
    ∷ control end_packet 0
    ∷ []

abbrev empty_encoder : Encoder
empty_encoder = record { tx = []; tx_capacity = 64 }

tokens-AllLegal : AllLegal 8 tokens
tokens-AllLegal = (
  (refl, refl, omega arith),
  tt,
  (
    (refl, refl, omega arith),
    tt,
    (
      ((omega arith, (omega arith, (omega arith, tt))), omega arith, omega arith),
      tt,
      ((refl, refl, omega arith), tt, tt),
    ),
  ),
)

tokens-room : room_of tokens ≤ 64
unfolding escape_all
tokens-room = omega arith

decode-encode_example :
    (fwe' : Encoder) × (encode_tokens empty_encoder tokens ≡ ok fwe')
    × (length fwe'.tx ≤ 64)
    × (decode_tokens 5 8 (record { pending = fwe'.tx; rx_timestamp = 12 }) idle_synch ≡ ok tokens)
decode-encode_example =
    decode-encode 8 tokens empty_encoder idle_synch 12 (omega arith) tokens-AllLegal refl
      tokens-room (refl, refl)

-- A handshake that breaks off, and an escape in front of a control character.
abbrev broken : Decoder
broken = record {
  pending = handshake_1 ∷ 0x80 ∷ escape_sym ∷ end_packet ∷ 7 ∷ [];
  rx_timestamp = 3;
}

dec_decode-DecodeOk_example :
    (r : Decoded) × (dec_decode broken idle_synch (some 4) ≡ ok r)
    × DecodeOk broken idle_synch (some 4) r
dec_decode-DecodeOk_example = dec_decode-DecodeOk broken idle_synch (some 4) refl refl

abbrev small_encoder : Encoder
small_encoder = record { tx = 5 ∷ []; tx_capacity = 3 }

enc_encode_data-Took_example :
    (fwe' : Encoder) × (n : ℕ) × (enc_encode_data small_encoder (1 ∷ 0x82 ∷ []) ≡ ok (fwe', n))
    × (fwe'.tx_capacity ≡ 3)
    × Took 3 (5 ∷ []) (1 ∷ 0x82 ∷ []) 0 (fwe'.tx, n)
enc_encode_data-Took_example =
    enc_encode_data-Took small_encoder (1 ∷ 0x82 ∷ []) (omega arith) (omega arith)
