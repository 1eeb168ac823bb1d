-- ===== src/Bus/Exchange/Tests.antt =====
-- Exchanges on which the theorems about exchanges are applied.
use hailburst.Prelude.{ℕ, ◌≤◌, ◌-◌, ◌>>=◌, true, ◌≡◌, refl, ◌⊎◌, false, [], ◌∷◌, ok, arith}
use hailburst.Synch.Flag.{initial_flag}
use hailburst.Synch.Duct.{Duct, txn_send, missing_flow}
use hailburst.Bus.Codec.{Decoder, DecoderSynch, Decoded, dec_decode}
use hailburst.Bus.Codec.Symbol.{fwc_none, start_packet, end_packet}
use hailburst.Bus.Codec.Total.{DecodeOk}
use hailburst.Bus.Exchange.Defs.{
  handshake_period_ticks, Note, Receiver, exc_operating, recv_receiving, receive_ctrl_char,
  receive_data_chars, check_fcts,
}
use hailburst.Bus.Exchange.Receive.{has_place, place_limit}
use hailburst.Bus.Exchange.Timers.{ticks, waiting, reminded, ticks-reminded_lem}
use hailburst.Bus.Exchange.Invariant.{IsValid, Keeps, check_fcts-Keeps}
use hailburst.Bus.Exchange.Incoming.{IsReceiving, Continues, receive_ctrl_char-ok}
use hailburst.Bus.Exchange.Transmit.{
  Transmitter, transmit_tokens, transmit_handshakes, transmit_data,
}
use hailburst.Bus.Exchange.Outgoing.{transmit_handshakes-IsValid}
use hailburst.Bus.Exchange.Outgoing
use hailburst.Bus.Exchange.Sending.{IsSending, Went, transmit_data-Sends}
use hailburst.Bus.Exchange.Reception.{receive-safe, receive_data_chars-ok, Fails, Works}

abbrev idle_synch : DecoderSynch
idle_synch = record {
  recv_in_escape = false;
  recv_current = fwc_none;
  recv_count = 0;
  recv_param = 0 ∷ 0 ∷ 0 ∷ 0 ∷ [];
  recv_timestamp_ns = 0;
}

-- In the middle of a packet, of which two bytes of four are in, with a token left.
abbrev exc : Note
exc = record {
  random_number = 7;
  exc_state = exc_operating;
  recv_state = recv_receiving;
  countdown_timeout = 1;
  send_handshake_id = 0x80000007;
  recv_handshake_id = 0;
  send_primary_handshake = false;
  send_secondary_handshake = false;
  fcts_sent = 3;
  fcts_rcvd = 5;
  pkts_sent = 4;
  pkts_rcvd = 2;
  resend_fcts = false;
  resend_pkts = false;
  read_offset = 2;
  read_timestamp = 11;
  write_needs_error = false;
  decoder_synch = idle_synch;
}

exc-IsValid : IsValid 4 exc
exc-IsValid = record {
  running = refl;
  granted = omega arith;
  window = omega arith;
  credit = omega arith;
  word = omega arith;
  in_packet = refl;
  secondary = refl;
  primary = refl;
  fcts_due = refl;
  pkts_due = refl;
  offset = omega arith;
  synch = refl;
}

abbrev read_duct : Duct
read_duct = record {
  sender_replicas = 3;
  receiver_replicas = 3;
  max_flow = 4;
  message_size = 4;
  message_buffer = λ _. record { size = 0; timestamp = 0; body = 0 ∷ 0 ∷ 0 ∷ 0 ∷ [] };
  flow_status = λ _. missing_flow;
  flags_receive = λ _. initial_flag;
  flags_send = λ _. initial_flag;
}

abbrev clip : Receiver
clip = record {
  exc = exc;
  read_buffer = 6 ∷ 5 ∷ 0 ∷ 0 ∷ [];
  read_duct = read_duct;
  send_txn = record { mode = txn_send; replica_id = 1; flow_current = 1 };
}

clip-IsReceiving : IsReceiving 4 4 clip
clip-IsReceiving = record {
  note = exc-IsValid;
  room = omega arith;
  buffer = refl;
  sending = refl;
  replica = omega arith;
  flow = refl;
  size = refl;
  little_flow = omega arith;
}

-- One more byte, the end of the packet, and another packet's start.
abbrev line : Decoder
line = record { pending = 9 ∷ end_packet ∷ start_packet ∷ []; rx_timestamp = 20 }

receive-safe_example :
    (r : Decoded) × (dec_decode line exc.decoder_synch (place_limit 4 exc) ≡ ok r)
    × DecodeOk line exc.decoder_synch (place_limit 4 exc) r
    × (Fails 4 line clip r ⊎ Works 4 4 line clip r)
receive-safe_example = receive-safe 4 4 line clip clip-IsReceiving

receive_ctrl_char-ok_example : Continues 4 4 (receive_ctrl_char clip end_packet 0 20)
receive_ctrl_char-ok_example =
    receive_ctrl_char-ok 4 4 clip end_packet 0 20 clip-IsReceiving refl refl refl

receive_data_chars-ok_example :
    (n' : Note) × (receive_data_chars 4 exc (has_place 4 exc) 2 ≡ ok n') × Keeps 4 4 1 n'
receive_data_chars-ok_example = receive_data_chars-ok 4 4 exc 1 2 (exc-IsValid, omega arith) refl

check_fcts-Keeps_example : Keeps 4 4 0 (check_fcts 4 exc)
check_fcts-Keeps_example = check_fcts-Keeps 4 4 exc (omega arith) (exc-IsValid, omega arith)

ticks-reminded_lem_example :
    ((j : ℕ) → j ≤ 2 → ticks j (waiting exc 3) ≡ waiting exc (3 - j))
    × (ticks 3 (waiting exc 3) ≡ reminded exc (handshake_period_ticks exc))
    × (1 ≤ handshake_period_ticks exc)
    × (handshake_period_ticks exc ≤ 4)
ticks-reminded_lem_example = ticks-reminded_lem exc 2 refl

-- The same exchange with a reminder due, and a line buffer of which one byte is used.
abbrev transmitter : Transmitter
transmitter = record {
  exc = record exc { resend_fcts = true };
  fwe = record { tx = 1 ∷ []; tx_capacity = 12 };
}

transmitter-IsValid : IsValid 4 transmitter.exc
transmitter-IsValid = record {
  running = refl;
  granted = omega arith;
  window = omega arith;
  credit = omega arith;
  word = omega arith;
  in_packet = refl;
  secondary = refl;
  primary = refl;
  fcts_due = refl;
  pkts_due = refl;
  offset = omega arith;
  synch = refl;
}

transmit_handshakes-IsValid_example :
    Outgoing.Continues 4 (transmit_tokens transmitter >>= transmit_handshakes)
transmit_handshakes-IsValid_example = transmit_handshakes-IsValid 4 transmitter transmitter-IsValid

transmitter-IsSending : IsSending 4 transmitter
transmitter-IsSending = record { note = transmitter-IsValid; fits = omega arith }

transmit_data-Sends_example : Went 4 1 transmitter (transmit_data transmitter (7 ∷ 0x82 ∷ 9 ∷ []))
transmit_data-Sends_example =
    transmit_data-Sends 4 transmitter (7 ∷ 0x82 ∷ 9 ∷ []) transmitter-IsSending (omega arith)
      (omega arith)
