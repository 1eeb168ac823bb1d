-- ===== src/Bus/Exchange/Invariant.antt =====
-- What should hold of an exchange between any two of its steps, and the transitions of its note.
use hailburst.Prelude.{ℕ, ◌+◌, ◌^◌, ◌≤◌, ◌<◌, ◌≡◌, true, not, ◌||◌, if◌then◌else◌, ok, arith}
use hailburst.Bus.Codec.Total.{SynchIsValid}
use hailburst.Bus.Exchange.Defs.{
  Note, is_connecting, is_handshaking, is_operating, is_listening, add32, max_outstanding_tokens,
  configure, reset, recv_while_connecting, recv_while_handshaking, on_error_packet, on_flow_control,
  on_keep_alive, on_unexpected, check_timers, check_fcts, check_invariants,
}

-- 1 while a packet is on its way in.
abbrev pub busy : Note → ℕ
busy n = if is_listening n.recv_state then 0 else 1

-- The note of an exchange whose packet buffer has `bl` bytes.
pub record IsValid (bl : ℕ) (n : Note) : Type 0 where
  pub running :
      (is_connecting n.exc_state || is_handshaking n.exc_state || is_operating n.exc_state) ≡ true
  pub granted : n.pkts_sent ≤ n.fcts_rcvd
  pub window : n.fcts_rcvd ≤ add32 n.pkts_sent max_outstanding_tokens
  pub credit : n.pkts_rcvd ≤ n.fcts_sent
  pub word : n.fcts_sent < 2 ^ 32
  pub in_packet : (is_listening n.recv_state || is_operating n.exc_state) ≡ true
  pub secondary : (not n.send_secondary_handshake || is_connecting n.exc_state) ≡ true
  pub primary :
      (not n.send_primary_handshake || is_connecting n.exc_state || is_handshaking n.exc_state)
      ≡ true
  pub fcts_due : (not n.resend_fcts || is_operating n.exc_state) ≡ true
  pub pkts_due : (not n.resend_pkts || is_operating n.exc_state) ≡ true
  pub offset : n.read_offset ≤ bl
  pub synch : SynchIsValid n.decoder_synch

-- With `sent` packets passed on in this clip, the read duct has room for all that may still come: the
-- packet on its way in, and one for each token that the other end has left.
abbrev pub Room : ℕ → ℕ → Note → Type 0
Room mf sent n = sent + n.fcts_sent + busy n ≤ n.pkts_rcvd + mf

abbrev pub Keeps : ℕ → ℕ → ℕ → Note → Type 0
Keeps bl mf sent n = IsValid bl n × Room mf sent n

module _ (bl mf sent : ℕ) where
  pub configure-Keeps :
      (n : Note) (ticks : ℕ)
      → SynchIsValid n.decoder_synch
      → sent ≤ mf
      → Keeps bl mf sent (configure n ticks)
  unfolding configure
  configure-Keeps n ticks v h = ground arith

  pub reset-Keeps : (n : Note) → Keeps bl mf sent n → Keeps bl mf sent (reset n)
  unfolding reset
  reset-Keeps n k = ground arith

  pub recv_while_connecting-Keeps :
      (n : Note) (symbol param : ℕ)
      → is_connecting n.exc_state ≡ true
      → Keeps bl mf sent n
      → Keeps bl mf sent (recv_while_connecting n symbol param)
  unfolding recv_while_connecting
  recv_while_connecting-Keeps n symbol param c k = ground arith

  pub recv_while_handshaking-Keeps :
      (n : Note) (symbol param : ℕ)
      → Keeps bl mf sent n
      → Keeps bl mf sent (recv_while_handshaking n symbol param)
  unfolding recv_while_handshaking
  recv_while_handshaking-Keeps n symbol param k = ground arith

  pub on_error_packet-Keeps : (n : Note) → Keeps bl mf sent n → Keeps bl mf sent (on_error_packet n)
  unfolding on_error_packet
  on_error_packet-Keeps n k = ground arith

  -- From a valid note with room, a FLOW_CONTROL with any parameter gives a valid note with room: the
  -- tokens received never fall below the packets sent nor rise above the window.
  pub on_flow_control-Keeps :
      (n : Note) (param : ℕ) → Keeps bl mf sent n → Keeps bl mf sent (on_flow_control n param)
  unfolding on_flow_control
  on_flow_control-Keeps n param k = ground arith

  pub on_keep_alive-Keeps :
      (n : Note) (param : ℕ) → Keeps bl mf sent n → Keeps bl mf sent (on_keep_alive n param)
  unfolding on_keep_alive
  on_keep_alive-Keeps n param k = ground arith

  pub on_unexpected-Keeps :
      (n : Note) (symbol param : ℕ)
      → Keeps bl mf sent n
      → Keeps bl mf sent (on_unexpected n symbol param)
  unfolding on_unexpected
  on_unexpected-Keeps n symbol param k = ground arith

  -- From a valid note with room, a tick of the timer gives a valid note with room: a reminder is asked
  -- for only while operating, a handshake only while not.
  pub check_timers-Keeps : (n : Note) → Keeps bl mf sent n → Keeps bl mf sent (check_timers n)
  unfolding check_timers
  check_timers-Keeps n k = ground arith

-- For a read duct with room for at least one packet: from a valid note with room for all that may still
-- come, granting new tokens gives a valid note again, and the tokens then outstanding still fit into
-- the duct together with the packet on its way in.
pub check_fcts-Keeps :
    (bl mf : ℕ) (n : Note) → 1 ≤ mf → Keeps bl mf 0 n → Keeps bl mf 0 (check_fcts mf n)
unfolding check_fcts
check_fcts-Keeps bl mf n h k = ground arith

-- On every valid note the assertions of the invariant check hold.
pub check_invariants-ok : (bl : ℕ) (n : Note) → IsValid bl n → check_invariants n ≡ ok tt
unfolding check_invariants
check_invariants-ok bl n v = ground arith
