-- ===== src/Bus/Exchange/Receive.antt =====
-- The receiving clip of an exchange (bus/exchange.c).
use hailburst.Prelude.{
  ℕ, zero, suc, ◌+◌, ◌-◌, ◌*◌, ◌%◌, ◌^◌, Bool, true, false, not, ◌&&◌, List, [], Option, none, some,
  ltb, ◌==◌, if◌then◌else◌, length, get_or, Outcome, ok, aborted, ◌>>=◌, ◌>>◌, assert,
}
use hailburst.Synch.Duct.{
  Duct, Packet, send_prepare, send_commit, receive_prepare, receive_message, receive_commit,
}
use hailburst.Bus.Codec.{Decoder, Decoded, dec_decode, dec_reset, dec_prepare, dec_commit, patch}
use hailburst.Bus.Codec.Symbol.{fwc_none}
use hailburst.Bus.Exchange.Defs.{
  Note, Receiver, with_note, is_operating, is_receiving, configure, reset, handshake_period_ticks,
  check_timers, check_invariants, receive_ctrl_char, receive_data_chars, check_fcts,
}

abbrev pub has_place : ℕ → Note → Bool
has_place buffers_length exc =
    is_operating exc.exc_state && is_receiving exc.recv_state && ltb exc.read_offset buffers_length

abbrev pub place_limit : ℕ → Note → Option ℕ
place_limit buffers_length exc =
    if has_place buffers_length exc then some (buffers_length - exc.read_offset) else none

-- The receiver behind its call of the decoder: the decoder's state is part of the note, and the data
-- went to the packet buffer.
abbrev pub decoded_into : Bool → Receiver → Decoded → Receiver
decoded_into placed s r =
    let exc = s.exc in
    record s {
      exc = record exc { decoder_synch = r.synch };
      read_buffer =
          if placed then patch s.read_buffer exc.read_offset r.ent.data_out else s.read_buffer;
    }

unfoldable pub process : ℕ → Bool → Receiver → Decoded → Outcome Receiver
process buffers_length placed s r =
    if not (r.ent.ctrl_out == fwc_none)
    then (assert (r.ent.data_actual_len == 0)
        >> receive_ctrl_char s r.ent.ctrl_out r.ent.ctrl_param r.ent.receive_timestamp)
    else (assert (ltb 0 r.ent.data_actual_len)
        >> (receive_data_chars buffers_length s.exc placed r.ent.data_actual_len >>= λ exc'.
            ok (with_note s exc')))

-- `exchange_instance_receive`, with the decoder that it reads from.
unfoldable pub receive : ℕ → Decoder → Receiver → Outcome (Bool × Decoder × Receiver)
unfolding process
receive buffers_length fwd s =
    let placed = has_place buffers_length s.exc in
    dec_decode fwd s.exc.decoder_synch (place_limit buffers_length s.exc) >>= λ r.
    let s' = decoded_into placed s r in
    if r.found
    then (process buffers_length placed s' r >>= λ s''. ok (true, r.fwd, s''))
    else ok (false, r.fwd, s')

-- Past the limit, what is left of the line is thrown away, and the exchange resets.
abbrev pub tossed_all : Decoder → Receiver → Decoder × Receiver
tossed_all fwd s =
    let exc = s.exc in
    let cleared = dec_reset fwd exc.decoder_synch in
    let exc' : Note = record exc { decoder_synch = cleared.1 } in
    (cleared.0, with_note s (reset exc'))

abbrev pub tossed : ℕ → Decoder → Receiver → Decoder × Receiver
tossed remaining_limit fwd s =
    if remaining_limit == 0 && ltb 0 (length fwd.pending) then tossed_all fwd s else (fwd, s)

-- The loop of `fakewire_exc_rx_clip`. The limit is a byte, and wraps.
unfoldable pub receive_loop : ℕ → ℕ → ℕ → Decoder → Receiver → Outcome (Decoder × Receiver)
unfolding reset dec_reset
receive_loop zero buffers_length remaining_limit fwd s = aborted
receive_loop (suc fuel) buffers_length remaining_limit fwd s =
    receive buffers_length fwd s >>= λ (more, fwd', s'). elim more [
      | false ↦ ok (fwd', s')
      | true ↦
          let left = (remaining_limit + 255) % 256 in
          let next = tossed left fwd' s' in receive_loop fuel buffers_length left next.0 next.1
    ]

-- An exchange replica with the ducts that it is connected to. The buffer of its decoder and of its
-- encoder has `line_length` bytes.
pub record Exchange : Type 0 where
  pub exchange_replica_id : ℕ
  pub buffers_length : ℕ
  pub line_length : ℕ
  pub decoder : Decoder
  pub read_buffer : List ℕ
  pub rand_duct : Duct
  pub read_duct : Duct
  pub write_duct : Duct
  pub receive_duct : Duct
  pub transmit_duct : Duct

-- The word that four bytes stand for, on the little-endian processor that the flight software runs on.
abbrev of_le32 : List ℕ → ℕ
of_le32 bs = get_or bs 0 0 + get_or bs 1 0 * 2 ^ 8 + get_or bs 2 0 * 2 ^ 16 + get_or bs 3 0 * 2 ^ 24

abbrev random_of : Option Packet → ℕ
random_of none = 0x12345678
random_of (some p) = if p.size == 4 then of_le32 p.bytes else 0x12345678

unfoldable pub receive_random_number : (ℕ → ℕ) → Exchange → Outcome (Exchange × ℕ)
receive_random_number now conf = do
  (d, t) ← receive_prepare now conf.rand_duct conf.exchange_replica_id
  assert (d.message_size == 4)
  (t', found) ← receive_message d t
  (d', _) ← receive_commit d t'
  ok (record conf { rand_duct = d' }, random_of found)

-- The note after a restart: all zero but for the random number, then configured.
abbrev fresh_note : Note → ℕ → Note
fresh_note exc random_number =
    let exc' : Note = record exc {
      random_number = random_number;
      decoder_synch = (dec_reset (record { pending = []; rx_timestamp = 0 }) exc.decoder_synch).1;
    } in
    configure exc' (handshake_period_ticks exc')

-- `fakewire_exc_feedforward` behind its notepad, which gave the note `exc` and said if it is valid.
unfoldable pub feedforward : (ℕ → ℕ) → Exchange → Note → Bool → Outcome (Exchange × Note)
unfolding configure handshake_period_ticks dec_reset
feedforward now conf exc valid = do
  (conf', random_number) ← receive_random_number now conf
  if valid
      then ok (conf', record exc { random_number = random_number })
      else ok (
        record conf' { decoder = record { pending = []; rx_timestamp = 0 } },
        fresh_note exc random_number,
      )

-- What the line still holds at most: two for a byte, one for an open escape, and one for the end.
abbrev loop_fuel : Decoder → ℕ
loop_fuel fwd = 2 * length fwd.pending + 2

-- `fakewire_exc_rx_clip`, from the note that the notepad gave to the note that it is left with.
unfoldable pub rx_clip : (ℕ → ℕ) → Exchange → Note → Bool → Outcome (Exchange × Note)
rx_clip now conf exc valid = do
  (conf₁, exc₁) ← feedforward now conf exc valid
  check_invariants exc₁
  let exc₂ = check_timers exc₁
  (read_duct, send_txn) ← send_prepare now conf₁.read_duct conf₁.exchange_replica_id
  (fwd, receive_duct) ←
      dec_prepare now conf₁.decoder conf₁.receive_duct conf₁.exchange_replica_id conf₁.line_length
  let s : Receiver = record {
    exc = exc₂;
    read_buffer = conf₁.read_buffer;
    read_duct = read_duct;
    send_txn = send_txn;
  }
  (fwd', s') ←
      receive_loop (loop_fuel fwd) conf₁.buffers_length (read_duct.max_flow * 2 % 256) fwd s
  (read_duct', _) ← send_commit s'.read_duct s'.send_txn
  dec_commit fwd'
  let conf₂ : Exchange = record conf₁ {
    decoder = fwd';
    read_buffer = s'.read_buffer;
    read_duct = read_duct';
    receive_duct = receive_duct;
  }
  ok (conf₂, check_fcts read_duct'.max_flow s'.exc)
