-- ===== src/Bus/Exchange/Outgoing.antt =====
-- The reminders and handshakes of a transmitting clip: `exchange_instance_transmit_tokens` and
-- `exchange_instance_transmit_handshakes`.
use hailburst.Prelude.{
  ℕ, ◌+◌, ◌≡◌, refl, Bool, true, false, not, ◌||◌, inl, inr, ltb, ◌==◌, if◌then◌else◌, Outcome, ok,
  ◌>>=◌, arith, length, ◌++◌, Bool-cases,
}
use hailburst.Bus.Codec.{Encoder, enc_encode_ctrl}
use hailburst.Bus.Codec.Symbol.{takes_param, flow_control, keep_alive, handshake_1, handshake_2}
use hailburst.Bus.Codec.Writing.{is_ctrl, ctrl_line, enc_encode_ctrl-eq}
use hailburst.Bus.Exchange.Defs.{
  Note, is_connecting, is_handshaking, is_operating, exc_operating, exc_handshaking,
  handshake_period_ticks,
}
use hailburst.Bus.Exchange.Transmit.{
  Transmitter, fcts_resent, pkts_resent, transmit_fcts, transmit_pkts, transmit_tokens,
  transmit_secondary, transmit_primary, transmit_handshakes, gen_handshake_id,
}
use hailburst.Bus.Exchange.Invariant.{IsValid}

-- Whether the character fits, and the encoder behind the call.
unfoldable pub room_for : Encoder → ℕ → Bool
room_for fwe symbol =
    not (ltb fwe.tx_capacity (length fwe.tx + (if takes_param symbol then 9 else 1)))

unfoldable pub with_ctrl : Encoder → ℕ → ℕ → Encoder
unfolding room_for
with_ctrl fwe symbol param =
    if room_for fwe symbol then record fwe { tx = fwe.tx ++ ctrl_line symbol param } else fwe

pub encodes :
    (fwe : Encoder) (symbol param : ℕ)
    → is_ctrl symbol ≡ true
    → ((param == 0) || takes_param symbol) ≡ true
    → enc_encode_ctrl fwe symbol param ≡ ok (with_ctrl fwe symbol param, room_for fwe symbol)
unfolding room_for with_ctrl
encodes fwe symbol param c p =
    elim (Bool-cases
      (ltb fwe.tx_capacity (length fwe.tx + (if takes_param symbol then 9 else 1)))) [
        | inl full ↦ rw (enc_encode_ctrl-eq fwe symbol param c p, full) refl
        | inr free ↦ rw (enc_encode_ctrl-eq fwe symbol param c p, free) refl
      ]

module _ (bl : ℕ) where
  abbrev pub Continues : Outcome Transmitter → Type 0
  Continues o = (s' : Transmitter) × (o ≡ ok s') × IsValid bl s'.exc

  fcts_resent-IsValid : (n : Note) → IsValid bl n → IsValid bl (fcts_resent n)
  fcts_resent-IsValid n v = ground arith

  transmit_fcts-ok : (s : Transmitter) → IsValid bl s.exc → Continues (transmit_fcts s)
  unfolding transmit_fcts
  transmit_fcts-ok s v = elim (Bool-cases s.exc.resend_fcts) [
    | inr quiet ↦ (s, (rw quiet refl), v)
    | inl due ↦
        let op : is_operating s.exc.exc_state ≡ true = (ground arith) in
        let e = encodes s.fwe flow_control s.exc.fcts_sent refl (ground arith) in
        elim (Bool-cases (room_for s.fwe flow_control)) [
          | inl free ↦ (
            record { exc = fcts_resent s.exc; fwe = with_ctrl s.fwe flow_control s.exc.fcts_sent },
            (rw (due, e, free, op) refl),
            fcts_resent-IsValid s.exc v,
          )
          | inr full ↦ (
            record { exc = s.exc; fwe = with_ctrl s.fwe flow_control s.exc.fcts_sent },
            (rw (due, e, full) refl),
            v,
          )
        ]
  ]

  pkts_resent-IsValid : (n : Note) → IsValid bl n → IsValid bl (pkts_resent n)
  pkts_resent-IsValid n v = ground arith

  transmit_pkts-ok : (s : Transmitter) → IsValid bl s.exc → Continues (transmit_pkts s)
  unfolding transmit_pkts
  transmit_pkts-ok s v = elim (Bool-cases s.exc.resend_pkts) [
    | inr quiet ↦ (s, (rw quiet refl), v)
    | inl due ↦
        let op : is_operating s.exc.exc_state ≡ true = (ground arith) in
        let e = encodes s.fwe keep_alive s.exc.pkts_sent refl (ground arith) in
        elim (Bool-cases (room_for s.fwe keep_alive)) [
          | inl free ↦ (
            record { exc = pkts_resent s.exc; fwe = with_ctrl s.fwe keep_alive s.exc.pkts_sent },
            (rw (due, e, free, op) refl),
            pkts_resent-IsValid s.exc v,
          )
          | inr full ↦ (
            record { exc = s.exc; fwe = with_ctrl s.fwe keep_alive s.exc.pkts_sent },
            (rw (due, e, full) refl),
            v,
          )
        ]
  ]

  abbrev answered : Note → Note
  answered exc = record exc {
    exc_state = exc_operating;
    send_primary_handshake = false;
    send_secondary_handshake = false;
    countdown_timeout = handshake_period_ticks exc;
  }

  answered-IsValid : (n : Note) → IsValid bl n → IsValid bl (answered n)
  answered-IsValid n v = ground arith

  transmit_secondary-ok : (s : Transmitter) → IsValid bl s.exc → Continues (transmit_secondary s)
  unfolding transmit_secondary
  transmit_secondary-ok s v = elim (Bool-cases s.exc.send_secondary_handshake) [
    | inr quiet ↦ (s, (rw quiet refl), v)
    | inl due ↦
        let op : is_connecting s.exc.exc_state ≡ true = (ground arith) in
        let e = encodes s.fwe handshake_2 s.exc.recv_handshake_id refl (ground arith) in
        elim (Bool-cases (room_for s.fwe handshake_2)) [
          | inl free ↦ (
            record {
              exc = answered s.exc;
              fwe = with_ctrl s.fwe handshake_2 s.exc.recv_handshake_id;
            },
            (rw (due, e, free, op) refl),
            answered-IsValid s.exc v,
          )
          | inr full ↦ (
            record { exc = s.exc; fwe = with_ctrl s.fwe handshake_2 s.exc.recv_handshake_id },
            (rw (due, e, full) refl),
            v,
          )
        ]
  ]

  abbrev asked : Note → Note
  asked exc = record exc {
    send_handshake_id = gen_handshake_id exc;
    exc_state = exc_handshaking;
    send_primary_handshake = false;
    send_secondary_handshake = false;
  }

  asked-IsValid :
      (n : Note) → IsValid bl n → is_operating n.exc_state ≡ false → IsValid bl (asked n)
  asked-IsValid n v idle = ground arith

  transmit_primary-ok : (s : Transmitter) → IsValid bl s.exc → Continues (transmit_primary s)
  unfolding transmit_primary
  transmit_primary-ok s v = elim (Bool-cases s.exc.send_primary_handshake) [
    | inr quiet ↦ (s, (rw quiet refl), v)
    | inl due ↦
        let op : (is_handshaking s.exc.exc_state || is_connecting s.exc.exc_state) ≡ true =
          (ground arith) in
        let idle : is_operating s.exc.exc_state ≡ false = (ground arith) in
        let e = encodes s.fwe handshake_1 (gen_handshake_id s.exc) refl (ground arith) in
        elim (Bool-cases (room_for s.fwe handshake_1)) [
          | inl free ↦ (
            record {
              exc = asked s.exc;
              fwe = with_ctrl s.fwe handshake_1 (gen_handshake_id s.exc);
            },
            (rw (due, op, e, free) refl),
            asked-IsValid s.exc v idle,
          )
          | inr full ↦ (
            record { exc = s.exc; fwe = with_ctrl s.fwe handshake_1 (gen_handshake_id s.exc) },
            (rw (due, op, e, full) refl),
            v,
          )
        ]
  ]

  -- From a valid note and with any encoder, the reminders and handshakes of a transmitting clip are
  -- written or put off without a failed assertion, and the note behind them is valid.
  pub transmit_handshakes-IsValid :
      (s : Transmitter) → IsValid bl s.exc → Continues (transmit_tokens s >>= transmit_handshakes)
  unfolding transmit_tokens transmit_handshakes
  transmit_handshakes-IsValid s v =
      let (s₁, e₁, v₁) = transmit_fcts-ok s v in
      let (s₂, e₂, v₂) = transmit_pkts-ok s₁ v₁ in
      let (s₃, e₃, v₃) = transmit_secondary-ok s₂ v₂ in
      let (s₄, e₄, v₄) = transmit_primary-ok s₃ v₃ in (s₄, (rw (e₁, e₂, e₃) e₄), v₄)
