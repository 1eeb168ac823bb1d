-- ===== src/Bus/Exchange/Transmit.antt =====
-- The transmitting clip of an exchange (bus/exchange.c).
use hailburst.Prelude.{
  ℕ, zero, suc, ◌+◌, ◌%◌, ◌^◌, Bool, true, false, not, ◌&&◌, ◌||◌, List, [], none, some, ltb, leb,
  ◌==◌, if◌then◌else◌, length, Outcome, ok, aborted, ◌>>=◌, ◌>>◌, assert,
}
use hailburst.Synch.Duct.{Duct, Txn, receive_prepare, receive_message, receive_commit}
use hailburst.Bus.Codec.{Encoder, enc_prepare, enc_commit, enc_encode_ctrl, enc_encode_data}
use hailburst.Bus.Codec.Symbol.{
  handshake_1, handshake_2, start_packet, end_packet, error_packet, flow_control, keep_alive,
}
use hailburst.Bus.Exchange.Defs.{
  Note, exc_handshaking, exc_operating, is_operating, is_connecting, is_handshaking, add32,
  handshake_period_ticks, check_invariants,
}
use hailburst.Bus.Exchange.Receive.{Exchange, feedforward}

-- What a transmitting clip works on: its note and its encoder.
pub record Transmitter : Type 0 where
  pub exc : Note
  pub fwe : Encoder

-- A reminder that was written is not due any more.
abbrev pub fcts_resent : Note → Note
fcts_resent exc = record exc { resend_fcts = false }

abbrev pub pkts_resent : Note → Note
pkts_resent exc = record exc { resend_pkts = false }

unfoldable pub transmit_fcts : Transmitter → Outcome Transmitter
transmit_fcts s =
    let exc = s.exc in
    let remind =
      (enc_encode_ctrl s.fwe flow_control exc.fcts_sent >>= λ (fwe', written).
      if written
      then (assert (is_operating exc.exc_state)
          >> ok (record { exc = fcts_resent exc; fwe = fwe' }))
      else ok (record { exc = exc; fwe = fwe' })) in
    if exc.resend_fcts then remind else ok s

unfoldable pub transmit_pkts : Transmitter → Outcome Transmitter
transmit_pkts s =
    let exc = s.exc in
    let remind =
      (enc_encode_ctrl s.fwe keep_alive exc.pkts_sent >>= λ (fwe', written).
      if written
      then (assert (is_operating exc.exc_state)
          >> ok (record { exc = pkts_resent exc; fwe = fwe' }))
      else ok (record { exc = exc; fwe = fwe' })) in
    if exc.resend_pkts then remind else ok s

unfoldable pub transmit_tokens : Transmitter → Outcome Transmitter
unfolding transmit_fcts transmit_pkts
transmit_tokens s = transmit_fcts s >>= transmit_pkts

unfoldable pub transmit_secondary : Transmitter → Outcome Transmitter
transmit_secondary s =
    let exc = s.exc in
    let answer =
      (enc_encode_ctrl s.fwe handshake_2 exc.recv_handshake_id >>= λ (fwe', written).
      if written
      then (assert (is_connecting exc.exc_state)
          >> ok (record {
            exc = record exc {
              exc_state = exc_operating;
              send_primary_handshake = false;
              send_secondary_handshake = false;
              countdown_timeout = handshake_period_ticks exc;
            };
            fwe = fwe';
          }))
      else ok (record { exc = exc; fwe = fwe' })) in
    if exc.send_secondary_handshake then answer else ok s

-- 0x80000000 + (0x7FFFFFFF & random_number)
abbrev pub gen_handshake_id : Note → ℕ
gen_handshake_id exc = 2 ^ 31 + exc.random_number % 2 ^ 31

unfoldable pub transmit_primary : Transmitter → Outcome Transmitter
transmit_primary s =
    let exc = s.exc in
    let ask =
      (assert (is_handshaking exc.exc_state || is_connecting exc.exc_state)
        >> (enc_encode_ctrl s.fwe handshake_1 (gen_handshake_id exc) >>= λ (fwe', written).
            if written
            then ok (record {
              exc = record exc {
                send_handshake_id = gen_handshake_id exc;
                exc_state = exc_handshaking;
                send_primary_handshake = false;
                send_secondary_handshake = false;
              };
              fwe = fwe';
            })
            else ok (record { exc = exc; fwe = fwe' }))) in
    if exc.send_primary_handshake then ask else ok s

unfoldable pub transmit_handshakes : Transmitter → Outcome Transmitter
unfolding transmit_secondary transmit_primary
transmit_handshakes s = transmit_secondary s >>= transmit_primary

-- The end of `exchange_instance_transmit_data`, behind its START_PACKET: the data, then END_PACKET. A
-- packet that does not fit leaves an error to be sent.
unfoldable pub transmit_body : Transmitter → List ℕ → Outcome (Transmitter × Bool)
transmit_body s packet =
    let exc = s.exc in
    let failed : Note = record exc { write_needs_error = true } in
    enc_encode_data s.fwe packet >>= λ (fwe', actually_written).
    let finish =
      (enc_encode_ctrl fwe' end_packet 0 >>= λ (fwe'', written).
      ok (record { exc = if written then exc else failed; fwe = fwe'' }, written)) in
    if ltb actually_written (length packet)
    then ok (record { exc = failed; fwe = fwe' }, false)
    else finish

-- From the check of the flow-control tokens on.
unfoldable pub transmit_packet : Transmitter → List ℕ → Outcome (Transmitter × Bool)
unfolding transmit_body
transmit_packet s packet =
    let exc = s.exc in
    let start =
      (enc_encode_ctrl s.fwe start_packet 0 >>= λ (fwe', written).
      if written
      then transmit_body
          (record { exc = record exc { pkts_sent = add32 exc.pkts_sent 1 }; fwe = fwe' }) packet
      else ok (record { exc = exc; fwe = fwe' }, false)) in
    if leb exc.fcts_rcvd exc.pkts_sent then ok (s, false) else start

unfoldable pub transmit_data : Transmitter → List ℕ → Outcome (Transmitter × Bool)
unfolding transmit_packet
transmit_data s packet =
    let exc = s.exc in
    let mend =
      (enc_encode_ctrl s.fwe error_packet 0 >>= λ (fwe', written).
      if written
      then transmit_packet (record { exc = record exc { write_needs_error = false }; fwe = fwe' })
          packet
      else ok (record { exc = exc; fwe = fwe' }, false)) in
    if not (is_operating exc.exc_state)
    then ok (s, false)
    else if exc.write_needs_error
    then mend
    else transmit_packet s packet

-- The loop of `fakewire_exc_tx_clip`, which drains the write duct. The count of dropped packets is only
-- logged.
unfoldable pub transmit_loop : ℕ → ℕ → Duct → Txn → Transmitter → Outcome (Txn × Transmitter)
transmit_loop zero buffers_length d t s = aborted
transmit_loop (suc fuel) buffers_length d t s = receive_message d t >>= λ (t', found). elim found [
  | none ↦ ok (t', s)
  | some p ↦ assert (ltb 0 p.size && leb p.size buffers_length) >>= λ _.
      transmit_data s p.bytes >>= λ (s', done). transmit_loop fuel buffers_length d t' s'
]

-- `fakewire_exc_tx_clip`, from the note that the notepad gave to the note that it is left with.
unfoldable pub tx_clip : (ℕ → ℕ) → Exchange → Note → Bool → Outcome (Exchange × Note)
tx_clip now conf exc valid = do
  (conf₁, exc₁) ← feedforward now conf exc valid
  check_invariants exc₁
  (write_duct, recv_txn) ← receive_prepare now conf₁.write_duct conf₁.exchange_replica_id
  fwe ← enc_prepare (record { tx = []; tx_capacity = conf₁.line_length }) conf₁.transmit_duct
  s₁ ← transmit_tokens (record { exc = exc₁; fwe = fwe })
  s₂ ← transmit_handshakes s₁
  assert (conf₁.buffers_length == write_duct.message_size)
  (recv_txn', s₃) ←
      transmit_loop (write_duct.max_flow + 1) conf₁.buffers_length write_duct recv_txn s₂
  (write_duct', _) ← receive_commit write_duct recv_txn'
  transmit_duct ← enc_commit now s₃.fwe conf₁.transmit_duct conf₁.exchange_replica_id
  let conf₂ : Exchange = record conf₁ { write_duct = write_duct'; transmit_duct = transmit_duct }
  ok (conf₂, s₃.exc)
