-- ===== src/Bus/Codec/Decode.antt =====
-- The decoder of bus/codec.c.
use hailburst.Prelude.{
  ℕ, zero, suc, ◌+◌, ◌-◌, Bool, true, false, not, ◌&&◌, List, [], ◌∷◌, ◌++◌, Option, none, some,
  length, take, drop, ltb, leb, ◌==◌, if◌then◌else◌, Outcome, ok, aborted, ◌>>=◌, ◌>>◌, assert,
  of_be32,
}
use hailburst.Bus.Codec.Symbol.{
  is_special, is_parametrized, escape_sym, codec_error, fwc_none, flip,
}
use hailburst.Synch.Duct.{Duct, Packet, receive_prepare, receive_message, receive_commit}

-- The mutable part of `fw_decoder_t`.
pub record Decoder : Type 0 where
  pub pending : List ℕ
  pub rx_timestamp : ℕ

-- `fw_decoder_synch_t`. `recv_param` is its four bytes in memory.
pub record DecoderSynch : Type 0 where
  pub recv_in_escape : Bool
  pub recv_current : ℕ
  pub recv_count : ℕ
  pub recv_param : List ℕ
  pub recv_timestamp_ns : ℕ

-- The results in `fw_decoded_ent_t`. `data_out` is what was written through that pointer; a null
-- pointer is the limit `none` below, and nothing is written then.
pub record Entity : Type 0 where
  pub ctrl_out : ℕ
  pub ctrl_param : ℕ
  pub data_out : List ℕ
  pub data_actual_len : ℕ
  pub receive_timestamp : ℕ

unfoldable pub dec_reset : Decoder → DecoderSynch → Decoder × DecoderSynch
dec_reset fwd synch = (
  record { pending = []; rx_timestamp = 0 },
  record {
    recv_in_escape = false;
    recv_current = fwc_none;
    recv_count = 0;
    recv_param = 0 ∷ 0 ∷ 0 ∷ 0 ∷ [];
    recv_timestamp_ns = 0;
  },
)

-- What a received packet leaves in the decoder; no packet leaves the timestamp as it was.
abbrev pub load : Decoder → Option Packet → Decoder
load fwd none = record fwd { pending = [] }
load fwd (some p) = record { pending = p.bytes; rx_timestamp = p.timestamp }

unfoldable pub dec_prepare : (ℕ → ℕ) → Decoder → Duct → ℕ → ℕ → Outcome (Decoder × Duct)
dec_prepare now fwd d replica rx_buffer_capacity = do
  (d', t) ← receive_prepare now d replica
  (t', found) ← receive_message d' t
  let fwd' = load fwd found
  assert (leb (length fwd'.pending) rx_buffer_capacity)
  (d'', _) ← receive_commit d' t'
  ok (fwd', d'')

unfoldable pub dec_commit : Decoder → Outcome (Unit {0})
dec_commit fwd = assert (length fwd.pending == 0)

-- The state of the loop of `fakewire_dec_internal_decode`, and what it leaves.
pub record Scan : Type 0 where
  pub in_escape : Bool
  pub out : List ℕ
  pub actual_len : ℕ

pub record Scanned : Type 0 where
  pub found : Bool
  pub ctrl : ℕ
  pub scan : Scan
  pub left : List ℕ

-- One round: stop, or go on behind the byte.
pub data Round : Type 0 where
  stop : Scanned → Round
  next : Scan → Round

abbrev pub has_room : Option ℕ → ℕ → Bool
has_room none len = true
has_room (some max_len) len = ltb len max_len

abbrev pub is_full : Option ℕ → ℕ → Bool
is_full none len = false
is_full (some max_len) len = len == max_len

abbrev pub store : Option ℕ → Scan → ℕ → Scan
store none s byte = record { in_escape = false; out = s.out; actual_len = s.actual_len + 1 }
store (some max_len) s byte = record {
  in_escape = false;
  out = s.out ++ byte ∷ [];
  actual_len = s.actual_len + 1;
}

-- The test at the end of the loop's body.
abbrev pub unless_full : Option ℕ → Scan → List ℕ → Round
unless_full limit s left =
    if is_full limit s.actual_len
    then stop (record { found = true; ctrl = fwc_none; scan = s; left = left })
    else next s

unfoldable pub scan_byte : Option ℕ → Scan → ℕ → List ℕ → Round
scan_byte limit s byte left =
    if s.in_escape
    then if not (is_special (flip byte))
      then if ltb 0 s.actual_len
        then stop (record { found = true; ctrl = fwc_none; scan = s; left = byte ∷ left })
        else stop (record {
          found = true;
          ctrl = escape_sym;
          scan = record s { in_escape = false };
          left = byte ∷ left;
        })
      else unless_full limit (store limit s (flip byte)) left
    else if byte == escape_sym
    then unless_full limit (record s { in_escape = true }) left
    else if is_special byte
    then if ltb 0 s.actual_len
      then stop (record { found = true; ctrl = fwc_none; scan = s; left = byte ∷ left })
      else stop (record { found = true; ctrl = byte; scan = s; left = left })
    else unless_full limit (store limit s byte) left

unfoldable pub scan_line : Option ℕ → Scan → List ℕ → Outcome Scanned
scan_line limit s [] =
    ok (record { found = ltb 0 s.actual_len; ctrl = fwc_none; scan = s; left = [] })
scan_line limit s (byte ∷ left) = assert (has_room limit s.actual_len) >>= λ _.
    elim (scan_byte limit s byte left) [ stop r ↦ ok r | next s' ↦ scan_line limit s' left ]

abbrev pub limit_ok : Option ℕ → Bool
limit_ok none = true
limit_ok (some max_len) = ltb 0 max_len

-- What a call of `fakewire_dec_decode` or of its inner function leaves, and whether it returns true.
pub record Decoded : Type 0 where
  pub found : Bool
  pub fwd : Decoder
  pub synch : DecoderSynch
  pub ent : Entity

abbrev pub decoded_of : Decoder → DecoderSynch → Scanned → Decoded
decoded_of fwd synch r = record {
  found = r.found;
  fwd = record fwd { pending = r.left };
  synch = record synch { recv_in_escape = r.scan.in_escape };
  ent = record {
    ctrl_out = r.ctrl;
    ctrl_param = 0;
    data_out = r.scan.out;
    data_actual_len = r.scan.actual_len;
    receive_timestamp = fwd.rx_timestamp;
  };
}

-- A scan begins with nothing copied out.
abbrev pub scan_start : DecoderSynch → Scan
scan_start synch = record { in_escape = synch.recv_in_escape; out = []; actual_len = 0 }

unfoldable pub internal_decode : Decoder → DecoderSynch → Option ℕ → Outcome Decoded
internal_decode fwd synch limit = do
  assert (limit_ok limit)
  r ← scan_line limit (scan_start synch) fwd.pending
  ok (decoded_of fwd synch r)

-- The parameter's bytes in memory after `bytes` were written at `recv_count`.
abbrev pub patch : List ℕ → ℕ → List ℕ → List ℕ
patch param at bytes = take at param ++ bytes ++ drop (at + length bytes) param

-- A complete parameter is reported with the control character that it belongs to.
abbrev pub complete : Decoded → Decoded
complete r =
    let synch = r.synch in
    record {
      found = true;
      fwd = r.fwd;
      synch = record synch { recv_current = fwc_none };
      ent = record {
        ctrl_out = synch.recv_current;
        ctrl_param = of_be32 synch.recv_param;
        data_out = [];
        data_actual_len = 0;
        receive_timestamp = synch.recv_timestamp_ns;
      };
    }

-- A control character inside a parameter is a codec error.
abbrev pub interrupted : Decoded → Decoded
interrupted r =
    let synch = r.synch in
    record {
      found = true;
      fwd = r.fwd;
      synch = record synch { recv_current = fwc_none };
      ent = record {
        ctrl_out = codec_error;
        ctrl_param = 0;
        data_out = [];
        data_actual_len = 0;
        receive_timestamp = r.ent.receive_timestamp;
      };
    }

-- The parameter bytes of `r` taken into its `recv_param`.
abbrev pub absorbed : Decoded → Decoded
absorbed r =
    let synch = r.synch in
    record r {
      synch = record synch {
        recv_param = patch synch.recv_param synch.recv_count r.ent.data_out;
        recv_count = synch.recv_count + r.ent.data_actual_len;
      };
    }

-- A round of the loop for a parameter returns, or goes on.
pub data ParamRound : Type 0 where
  returned : Decoded → ParamRound
  again : Decoded → ParamRound

-- The round behind its call of the inner decoder, which gave `r`.
unfoldable pub param_round : DecoderSynch → Decoded → Outcome ParamRound
param_round synch r =
    if not r.found
    then ok (returned r)
    else if not (r.ent.ctrl_out == fwc_none)
    then (assert (r.ent.data_actual_len == 0) >>= λ _. ok (returned (interrupted r)))
    else (assert (ltb 0 r.ent.data_actual_len && leb r.ent.data_actual_len (4 - synch.recv_count))
        >>= λ _. ok (
            if (absorbed r).synch.recv_count == 4
            then returned (complete (absorbed r))
            else again (absorbed r)))

-- The loop of `fakewire_dec_decode` for the parameter of a control character. Each round reads at
-- least one of the four bytes, so four rounds are enough.
unfoldable pub decode_param : ℕ → Decoder → DecoderSynch → Outcome Decoded
decode_param zero fwd synch = aborted
decode_param (suc fuel) fwd synch = is_parametrized synch.recv_current >>= λ parametrized.
    assert (not (synch.recv_current == fwc_none) && parametrized) >>= λ _.
    assert (ltb synch.recv_count 4) >>= λ _.
    internal_decode fwd synch (some (4 - synch.recv_count)) >>= λ r. param_round synch r >>= λ step.
    elim step [ returned r' ↦ ok r' | again r' ↦ decode_param fuel r'.fwd r'.synch ]

abbrev pub param_rounds : ℕ
param_rounds = 4

-- A control character that takes a parameter starts to wait for it.
abbrev pub begin_param : Decoded → DecoderSynch
begin_param r =
    let synch = r.synch in
    record synch {
      recv_current = r.ent.ctrl_out;
      recv_count = 0;
      recv_timestamp_ns = r.ent.receive_timestamp;
    }

abbrev pub within : Option ℕ → ℕ → Bool
within none len = true
within (some max_len) len = leb len max_len

-- A first control character, which may start to wait for its parameter.
unfoldable pub decode_ctrl : Decoded → Outcome Decoded
decode_ctrl r = do
  assert (r.ent.data_actual_len == 0)
  parametrized ← is_parametrized r.ent.ctrl_out
  if not parametrized then ok r else decode_param param_rounds r.fwd (begin_param r)

-- What `fakewire_dec_decode` does with the first entity that it finds.
unfoldable pub decode_first : Option ℕ → Decoded → Outcome Decoded
decode_first limit r =
    if not r.found
    then ok r
    else if not (r.ent.ctrl_out == fwc_none)
    then decode_ctrl r
    else (assert (ltb 0 r.ent.data_actual_len && within limit r.ent.data_actual_len) >>= λ _. ok r)

unfoldable pub dec_decode : Decoder → DecoderSynch → Option ℕ → Outcome Decoded
dec_decode fwd synch limit = do
  assert (limit_ok limit)
  if synch.recv_current == fwc_none
      then internal_decode fwd synch limit >>= decode_first limit
      else decode_param param_rounds fwd synch
