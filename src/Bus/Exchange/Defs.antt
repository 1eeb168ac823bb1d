-- ===== src/Bus/Exchange/Defs.antt =====
-- The state of an exchange and its transitions on control characters and data (bus/exchange.c).
use hailburst.Prelude.{
  ℕ, ◌+◌, ◌-◌, ◌%◌, ◌^◌, Bool, true, false, not, ◌&&◌, ◌||◌, ltb, leb, ◌==◌, if◌then◌else◌, Outcome,
  ok, aborted, ◌>>=◌, ◌>>◌, assert, List, take,
}
use hailburst.Synch.Duct.{Duct, Txn, send_allowed, send_message}
use hailburst.Bus.Codec.{DecoderSynch}
use hailburst.Bus.Codec.Symbol.{
  handshake_1, handshake_2, start_packet, end_packet, error_packet, flow_control, keep_alive,
  is_parametrized,
}

abbrev pub max_outstanding_tokens : ℕ
max_outstanding_tokens = 10

pub data ExchangeState : Type 0 where
  exc_invalid exc_connecting exc_handshaking exc_operating : ExchangeState

pub data ReceiveState : Type 0 where
  recv_listening recv_receiving recv_overflowed : ReceiveState

abbrev pub is_connecting : ExchangeState → Bool
is_connecting exc_connecting = true
is_connecting _ = false

abbrev pub is_handshaking : ExchangeState → Bool
is_handshaking exc_handshaking = true
is_handshaking _ = false

abbrev pub is_operating : ExchangeState → Bool
is_operating exc_operating = true
is_operating _ = false

abbrev pub is_listening : ReceiveState → Bool
is_listening recv_listening = true
is_listening _ = false

abbrev pub is_receiving : ReceiveState → Bool
is_receiving recv_receiving = true
is_receiving _ = false

abbrev pub is_overflowed : ReceiveState → Bool
is_overflowed recv_overflowed = true
is_overflowed _ = false

-- `struct fakewire_exchange_note`
pub record Note : Type 0 where
  pub random_number : ℕ
  pub exc_state : ExchangeState
  pub recv_state : ReceiveState
  pub countdown_timeout : ℕ
  pub send_handshake_id : ℕ
  pub recv_handshake_id : ℕ
  pub send_primary_handshake : Bool
  pub send_secondary_handshake : Bool
  pub fcts_sent : ℕ
  pub fcts_rcvd : ℕ
  pub pkts_sent : ℕ
  pub pkts_rcvd : ℕ
  pub resend_fcts : Bool
  pub resend_pkts : Bool
  pub read_offset : ℕ
  pub read_timestamp : ℕ
  pub write_needs_error : Bool
  pub decoder_synch : DecoderSynch

abbrev pub add32 : ℕ → ℕ → ℕ
add32 a b = (a + b) % 2 ^ 32

unfoldable pub handshake_period_ticks : Note → ℕ
handshake_period_ticks exc = exc.random_number % 4 + 1

unfoldable pub configure : Note → ℕ → Note
configure exc countdown_timeout = record exc {
  exc_state = exc_connecting;
  recv_state = recv_listening;
  countdown_timeout = countdown_timeout;
  send_handshake_id = 0;
  recv_handshake_id = 0;
  send_primary_handshake = false;
  send_secondary_handshake = false;
  fcts_sent = 0;
  fcts_rcvd = 0;
  pkts_sent = 0;
  pkts_rcvd = 0;
  resend_fcts = false;
  resend_pkts = false;
  read_offset = 0;
  read_timestamp = 0;
  write_needs_error = false;
}

unfoldable pub reset : Note → Note
unfolding configure
reset exc = configure exc exc.countdown_timeout

-- A timer that has run out sends heartbeats, or asks for a fresh handshake.
abbrev timer_fires : Note → Note
timer_fires exc =
    if is_operating exc.exc_state
    then record exc {
      resend_fcts = true;
      resend_pkts = true;
      countdown_timeout = handshake_period_ticks exc;
    }
    else if is_handshaking exc.exc_state || is_connecting exc.exc_state
    then record exc {
      send_primary_handshake = true;
      countdown_timeout = handshake_period_ticks exc;
    }
    else exc

unfoldable pub check_timers : Note → Note
check_timers exc =
    let left =
      (if ltb 0 exc.countdown_timeout then exc.countdown_timeout - 1 else exc.countdown_timeout) in
    let exc' : Note = record exc { countdown_timeout = left } in
    if left == 0 then timer_fires exc' else exc'

unfoldable pub check_invariants : Note → Outcome (Unit {0})
check_invariants exc = do
  assert (is_connecting exc.exc_state || is_handshaking exc.exc_state || is_operating exc.exc_state)
  assert (
      leb exc.pkts_sent exc.fcts_rcvd
      && leb exc.fcts_rcvd (add32 exc.pkts_sent max_outstanding_tokens))

unfoldable pub recv_while_connecting : Note → ℕ → ℕ → Note
unfolding reset
recv_while_connecting exc symbol param =
    if not (symbol == handshake_1)
    then reset exc
    else record exc { recv_handshake_id = param; send_secondary_handshake = true }

unfoldable pub recv_while_handshaking : Note → ℕ → ℕ → Note
unfolding reset
recv_while_handshaking exc symbol param =
    if not (symbol == handshake_2) || not (param == exc.send_handshake_id)
    then reset exc
    else record exc {
      exc_state = exc_operating;
      send_primary_handshake = false;
      send_secondary_handshake = false;
    }

-- What a receiving clip works on: its note, its packet buffer, and its transaction on the read duct.
pub record Receiver : Type 0 where
  pub exc : Note
  pub read_buffer : List ℕ
  pub read_duct : Duct
  pub send_txn : Txn

abbrev pub with_note : Receiver → Note → Receiver
with_note s exc = record s { exc = exc }

unfoldable pub on_start_packet : Receiver → ℕ → Outcome Receiver
unfolding reset
on_start_packet s receive_timestamp =
    let exc = s.exc in
    let accepted = (do
      assert (is_listening exc.recv_state)
      allowed ← send_allowed s.read_duct s.send_txn
      assert allowed
      ok (
          with_note s (record exc {
            read_offset = 0;
            read_timestamp = receive_timestamp;
            recv_state = recv_receiving;
            pkts_rcvd = add32 exc.pkts_rcvd 1;
          }))) in
    if leb exc.fcts_sent exc.pkts_rcvd then ok (with_note s (reset exc)) else accepted

unfoldable pub on_end_packet : Receiver → Outcome Receiver
unfolding reset
on_end_packet s =
    let exc = s.exc in
    let listening : Note = record exc { recv_state = recv_listening } in
    let delivered = (do
      (read_duct, send_txn) ←
          send_message s.read_duct s.send_txn (take exc.read_offset s.read_buffer)
            exc.read_timestamp
      ok (record s { exc = listening; read_duct = read_duct; send_txn = send_txn })) in
    if is_overflowed exc.recv_state
    then ok (with_note s listening)
    else if not (is_receiving exc.recv_state)
    then ok (with_note s (reset exc))
    else if exc.read_offset == 0
    then ok (with_note s listening)
    else delivered

unfoldable pub on_error_packet : Note → Note
unfolding reset
on_error_packet exc =
    if not (is_overflowed exc.recv_state) && not (is_receiving exc.recv_state)
    then reset exc
    else record exc { recv_state = recv_listening }

unfoldable pub on_flow_control : Note → ℕ → Note
unfolding reset
on_flow_control exc param =
    if ltb param exc.fcts_rcvd
    then reset exc
    else if ltb (add32 exc.pkts_sent max_outstanding_tokens) param
    then reset exc
    else record exc { fcts_rcvd = param }

unfoldable pub on_keep_alive : Note → ℕ → Note
unfolding reset
on_keep_alive exc param = if not (exc.pkts_rcvd == param) then reset exc else exc

-- Any other control character resets; a handshake is then acted on at once.
unfoldable pub on_unexpected : Note → ℕ → ℕ → Note
unfolding reset recv_while_connecting
on_unexpected exc symbol param =
    if symbol == handshake_1 then recv_while_connecting (reset exc) symbol param else reset exc

unfoldable pub recv_while_operating : Receiver → ℕ → ℕ → ℕ → Outcome Receiver
unfolding on_start_packet on_end_packet on_error_packet on_flow_control on_keep_alive on_unexpected
recv_while_operating s symbol param receive_timestamp =
    if symbol == start_packet
    then on_start_packet s receive_timestamp
    else if symbol == end_packet
    then on_end_packet s
    else if symbol == error_packet
    then ok (with_note s (on_error_packet s.exc))
    else if symbol == flow_control
    then ok (with_note s (on_flow_control s.exc param))
    else if symbol == keep_alive
    then ok (with_note s (on_keep_alive s.exc param))
    else ok (with_note s (on_unexpected s.exc symbol param))

-- The switch over the exchange's state.
unfoldable pub dispatch_ctrl_char : ExchangeState → Receiver → ℕ → ℕ → ℕ → Outcome Receiver
dispatch_ctrl_char exc_connecting s symbol param receive_timestamp =
    ok (with_note s (recv_while_connecting s.exc symbol param))
dispatch_ctrl_char exc_handshaking s symbol param receive_timestamp =
    ok (with_note s (recv_while_handshaking s.exc symbol param))
dispatch_ctrl_char exc_operating s symbol param receive_timestamp =
    recv_while_operating s symbol param receive_timestamp
dispatch_ctrl_char exc_invalid s symbol param receive_timestamp = aborted

unfoldable pub receive_ctrl_char : Receiver → ℕ → ℕ → ℕ → Outcome Receiver
receive_ctrl_char s symbol param receive_timestamp = do
  parametrized ← (if param == 0 then ok true else is_parametrized symbol)
  assert parametrized
  dispatch_ctrl_char s.exc.exc_state s symbol param receive_timestamp

-- `has_buffer` says that the decoder was given a place for the data.
unfoldable pub receive_data_chars : ℕ → Note → Bool → ℕ → Outcome Note
unfolding reset
receive_data_chars buffers_length exc has_buffer data_len =
    if is_overflowed exc.recv_state
    then (assert (is_operating exc.exc_state) >> (assert (not has_buffer) >> ok exc))
    else if not (is_operating exc.exc_state) || not (is_receiving exc.recv_state)
    then (assert (not has_buffer) >> ok (reset exc))
    else if leb buffers_length exc.read_offset
    then (assert (not has_buffer) >> ok (record exc { recv_state = recv_overflowed }))
    else (assert has_buffer
        >> (assert (leb (exc.read_offset + data_len) buffers_length)
            >> ok (record exc { read_offset = exc.read_offset + data_len })))

unfoldable pub check_fcts : ℕ → Note → Note
check_fcts read_max_flow exc =
    let not_full = (if is_listening exc.recv_state then read_max_flow else read_max_flow - 1) in
    let not_yet_received =
      (if ltb max_outstanding_tokens not_full then max_outstanding_tokens else not_full) in
    let granted = add32 exc.pkts_rcvd not_yet_received in
    if is_operating exc.exc_state && ltb exc.fcts_sent granted
    then record exc {
      fcts_sent = granted;
      resend_fcts = true;
      resend_pkts = true;
      countdown_timeout = handshake_period_ticks exc;
    }
    else exc
