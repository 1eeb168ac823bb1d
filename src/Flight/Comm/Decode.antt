-- ===== src/Flight/Comm/Decode.antt =====
-- The receiving half of flight/comm.c.
use hailburst.Prelude.{
  ℕ, zero, suc, ◌+◌, ◌-◌, ◌*◌, ◌%◌, ◌^◌, Bool, true, false, not, List, [], ◌∷◌, ◌++◌, Option, none,
  some, ltb, leb, ◌==◌, if◌then◌else◌, length, take, drop, of_be32, Outcome, ok, aborted, ◌>>=◌,
}
use hailburst.Synch.Pipe.{
  Pipe, PipeReceiver, pipe_receiver_reset, pipe_receiver_prepare, pipe_receiver_commit,
  pipe_receiver_has_next, pipe_receiver_read_byte, pipe_receiver_peek_byte,
}

abbrev pub comm_cmd_magic_num : ℕ
comm_cmd_magic_num = 0x73133C2C

abbrev pub comm_scratch_size : ℕ
comm_scratch_size = 0x1000

abbrev pub byte_escape : ℕ
byte_escape = 0xFF

abbrev pub byte_esc_escape : ℕ
byte_esc_escape = 0x11

abbrev pub byte_esc_sop : ℕ
byte_esc_sop = 0x22

abbrev pub byte_esc_eop : ℕ
byte_esc_eop = 0x33

-- `comm_packet_t`, where `data_len` is the length of the data.
pub record CommPacket : Type 0 where
  pub cmd_tlm_id : ℕ
  pub timestamp_ns : ℕ
  pub data_bytes : List ℕ

-- `comm_dec_t`
pub record CommDec : Type 0 where
  pub uplink : PipeReceiver
  pub decode_buffer : List ℕ
  pub decode_in_progress : Bool
  pub err_count : ℕ

abbrev pub decode_offset : CommDec → ℕ
decode_offset dec = length dec.decode_buffer

-- What `comm_dec_next_symbol` returns: a byte, or one of the numbers above 0xFF.
pub data Symbol : Type 0 where
  byte : ℕ → Symbol
  packet_start packet_end symbol_error buffer_empty : Symbol

-- The switch on the byte behind an escape.
abbrev pub escape_symbol : ℕ → Symbol
escape_symbol code =
    if code == byte_esc_escape
    then byte byte_escape
    else if code == byte_esc_sop
    then packet_start
    else if code == byte_esc_eop
    then packet_end
    else symbol_error

-- Whether the only byte that is certain to be there is not an escape.
abbrev pub single_ready : PipeReceiver → Outcome Bool
single_ready r = do
  one ← pipe_receiver_has_next r 1
  if one then (pipe_receiver_peek_byte r >>= λ b. ok (not (b == byte_escape))) else ok false

abbrev pub read_symbol : PipeReceiver → Outcome (PipeReceiver × Symbol)
read_symbol r = do
  (r', next_byte) ← pipe_receiver_read_byte r
  let escaped = (pipe_receiver_read_byte r' >>= λ (r'', code). ok (r'', escape_symbol code))
  if not (next_byte == byte_escape) then ok (r', byte next_byte) else escaped

unfoldable pub comm_dec_next_symbol : PipeReceiver → Outcome (PipeReceiver × Symbol)
comm_dec_next_symbol r = do
  two ← pipe_receiver_has_next r 2
  ready ← if two then ok true else single_ready r
  if ready then read_symbol r else ok (r, buffer_empty)

-- `crc32` extends a checksum, its first argument, by bytes.
unfoldable pub comm_packet_decode : (ℕ → List ℕ → ℕ) → List ℕ → Option CommPacket
comm_packet_decode crc32 buffer =
    let count = length buffer in
    let magic_number = of_be32 (take 4 buffer) in
    let command_id = of_be32 (take 4 (drop 4 buffer)) in
    let timestamp_ns =
      of_be32 (take 4 (drop 8 buffer)) * 2 ^ 32 + of_be32 (take 4 (drop 12 buffer)) in
    let header_crc32 = of_be32 (drop (count - 4) buffer) in
    let computed_crc32 = crc32 0 (take (count - 4) buffer) in
    if ltb count 20
    then none
    else if not (magic_number == comm_cmd_magic_num)
    then none
    else if not (header_crc32 == computed_crc32)
    then none
    else some (record {
      cmd_tlm_id = command_id;
      timestamp_ns = timestamp_ns;
      data_bytes = take (count - 20) (drop 16 buffer);
    })

abbrev pub comm_dec_reset : CommDec → CommDec
comm_dec_reset dec = record dec {
  uplink = pipe_receiver_reset dec.uplink;
  decode_in_progress = false;
  decode_buffer = [];
}

unfoldable pub comm_dec_prepare : (ℕ → ℕ) → Pipe → CommDec → Outcome (Pipe × CommDec)
comm_dec_prepare now pipe dec = do
  (pipe', uplink) ← pipe_receiver_prepare now pipe dec.uplink
  ok (pipe', record dec { uplink = uplink; err_count = 0 })

-- A symbol outside of a packet.
abbrev pub decode_outside : CommDec → Symbol → CommDec
decode_outside dec packet_start = record dec { decode_in_progress = true; decode_buffer = [] }
decode_outside dec _ = record dec { err_count = (dec.err_count + 1) % 2 ^ 32 }

-- A symbol inside of a packet, and the packet that it completes.
abbrev pub decode_inside : (ℕ → List ℕ → ℕ) → CommDec → Symbol → CommDec × Option CommPacket
decode_inside crc32 dec (byte b) =
    if leb comm_scratch_size (decode_offset dec)
    then (record dec { decode_in_progress = false }, none)
    else (record dec { decode_buffer = dec.decode_buffer ++ b ∷ [] }, none)
decode_inside crc32 dec packet_end =
    (record dec { decode_in_progress = false }, comm_packet_decode crc32 dec.decode_buffer)
decode_inside crc32 dec _ = (record dec { decode_in_progress = false }, none)

-- The body of the loop of `comm_dec_decode`.
unfoldable pub decode_symbol : (ℕ → List ℕ → ℕ) → CommDec → Symbol → CommDec × Option CommPacket
decode_symbol crc32 dec symbol =
    if not dec.decode_in_progress
    then (decode_outside dec symbol, none)
    else decode_inside crc32 dec symbol

-- The rest of the loop, where no packet is complete.
abbrev pub unless_found :
    (CommDec → Outcome (CommDec × Option CommPacket))
    → CommDec × Option CommPacket
    → Outcome (CommDec × Option CommPacket)
unless_found rest (dec, none) = rest dec
unless_found rest (dec, some packet) = ok (dec, some packet)

-- A round of the loop, which the empty buffer ends.
abbrev pub decode_round :
    (ℕ → List ℕ → ℕ)
    → (CommDec → Outcome (CommDec × Option CommPacket))
    → CommDec
    → Symbol
    → Outcome (CommDec × Option CommPacket)
decode_round crc32 rest dec buffer_empty = ok (dec, none)
decode_round crc32 rest dec (byte b) = unless_found rest (decode_symbol crc32 dec (byte b))
decode_round crc32 rest dec packet_start = unless_found rest (decode_symbol crc32 dec packet_start)
decode_round crc32 rest dec packet_end = unless_found rest (decode_symbol crc32 dec packet_end)
decode_round crc32 rest dec symbol_error = unless_found rest (decode_symbol crc32 dec symbol_error)

-- The loop of `comm_dec_decode`. Every round reads a byte.
unfoldable pub decode_loop : (ℕ → List ℕ → ℕ) → ℕ → CommDec → Outcome (CommDec × Option CommPacket)
decode_loop crc32 zero dec = aborted
decode_loop crc32 (suc fuel) dec = comm_dec_next_symbol dec.uplink >>= λ (uplink, symbol).
    decode_round crc32 (λ d. decode_loop crc32 fuel d) (record dec { uplink = uplink }) symbol

-- The packet is `none` where the result is false.
unfoldable pub comm_dec_decode : (ℕ → List ℕ → ℕ) → CommDec → Outcome (CommDec × Option CommPacket)
comm_dec_decode crc32 dec = decode_loop crc32 (length dec.uplink.unread + 1) dec

unfoldable pub comm_dec_commit : (ℕ → ℕ) → Pipe → CommDec → Outcome Pipe
comm_dec_commit now pipe dec = pipe_receiver_commit now pipe dec.uplink
