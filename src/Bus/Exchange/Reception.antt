-- ===== src/Bus/Exchange/Reception.antt =====
-- A step of the receiving clip on any line: `exchange_instance_receive`.
use hailburst.Prelude.{
  ℕ, ◌+◌, ◌-◌, ◌≤◌, ◌≡◌, refl, ap, ◌∙◌, ◌⊎◌, inl, inr, true, false, ltb, leb, ◌==◌, ok, aborted,
  arith, List, length, take, drop, ◌++◌, length-take, length-drop, length-append, Option,
  Bool-cases,
}
use hailburst.Bus.Codec.Symbol.{fwc_none}
use hailburst.Bus.Codec.{within, limit_ok, Decoder, DecoderSynch, Decoded, dec_decode, patch}
use hailburst.Bus.Codec.Total.{special_ne_none, SynchIsValid, DecodeOk, dec_decode-DecodeOk}
use hailburst.Bus.Exchange.Defs.{
  Note, Receiver, with_note, is_operating, is_listening, reset, recv_overflowed, is_receiving,
  is_overflowed, receive_data_chars,
}
use hailburst.Bus.Exchange.Receive.{has_place, place_limit, decoded_into, process, receive}
use hailburst.Bus.Exchange.Invariant.{IsValid, Keeps, busy, reset-Keeps}
use hailburst.Bus.Exchange.Incoming.{
  IsReceiving, kept, note-IsReceiving, blocked, receive_ctrl_char-ok, receive_ctrl_char-aborted,
}

module _ (bl mf : ℕ) where
  overflowed_busy :
      (n : Note) → is_overflowed n.recv_state ≡ true → is_listening n.recv_state ≡ false
  overflowed_busy n h = ground arith

  overflowed_rest :
      (n : Note) → is_overflowed n.recv_state ≡ true → is_receiving n.recv_state ≡ false
  overflowed_rest n h = ground arith

  in_packet-operating :
      (n : Note)
      → IsValid bl n
      → is_listening n.recv_state ≡ false
      → is_operating n.exc_state ≡ true
  in_packet-operating n v h = ground arith

  overflow-Keeps :
      (n : Note) (sent : ℕ)
      → Keeps bl mf sent n
      → is_operating n.exc_state ≡ true
      → is_receiving n.recv_state ≡ true
      → Keeps bl mf sent (record n { recv_state = recv_overflowed })
  overflow-Keeps n sent k op busy = ground arith

  advance-Keeps :
      (n : Note) (sent len : ℕ)
      → Keeps bl mf sent n
      → n.read_offset + len ≤ bl
      → Keeps bl mf sent (record n { read_offset = n.read_offset + len })
  advance-Keeps n sent len k fits = ground arith

  place-ok :
      (n : Note) (sent len : ℕ)
      → Keeps bl mf sent n
      → within (place_limit bl n) len ≡ true
      → is_overflowed n.recv_state ≡ false
      → is_operating n.exc_state ≡ true
      → is_receiving n.recv_state ≡ true
      → (n' : Note) × (receive_data_chars bl n (has_place bl n) len ≡ ok n') × Keeps bl mf sent n'
  unfolding receive_data_chars
  place-ok n sent len k fits a op busy = elim (Bool-cases (leb bl n.read_offset)) [
    | inl full ↦
        let none_left : ltb n.read_offset bl ≡ false = (ground arith) in
        (
          record n { recv_state = recv_overflowed },
          (rw (a, op, busy, full, none_left) refl),
          overflow-Keeps n sent k op busy,
        )
    | inr room ↦
        let left : ltb n.read_offset bl ≡ true = (ground arith) in
        let fits' : leb len (bl - n.read_offset) ≡ true = (rw (op, busy, left) at fits) in
        let holds : leb (n.read_offset + len) bl ≡ true = (ground arith) in
        (
          record n { read_offset = n.read_offset + len },
          (rw (a, op, busy, room, left, holds) refl),
          advance-Keeps n sent len k (ground arith),
        )
  ]

  -- On a valid note with room, data of a length within the decoder's limit is accepted whether or not
  -- it had a place in the buffer: no assertion fails, and the note behind it is valid with room.
  pub receive_data_chars-ok :
      (n : Note) (sent len : ℕ)
      → Keeps bl mf sent n
      → within (place_limit bl n) len ≡ true
      → (n' : Note) × (receive_data_chars bl n (has_place bl n) len ≡ ok n') × Keeps bl mf sent n'
  unfolding receive_data_chars
  receive_data_chars-ok n sent len k fits = elim (Bool-cases (is_overflowed n.recv_state)) [
    | inl over ↦
        let op : is_operating n.exc_state ≡ true =
          (in_packet-operating n k.0 (overflowed_busy n over)) in
        (n, (rw (over, op, overflowed_rest n over) refl), k)
    | inr a ↦ elim (Bool-cases (is_operating n.exc_state)) [
      | inr stopped ↦ (reset n, (rw (a, stopped) refl), reset-Keeps bl mf sent n k)
      | inl op ↦ elim (Bool-cases (is_receiving n.recv_state)) [
        | inr idle ↦ (reset n, (rw (a, op, idle) refl), reset-Keeps bl mf sent n k)
        | inl busy ↦ place-ok n sent len k fits a op busy
      ]
    ]
  ]

synch-IsValid :
    (bl : ℕ) (n : Note) (synch : DecoderSynch)
    → IsValid bl n
    → SynchIsValid synch
    → IsValid bl (record n { decoder_synch = synch })
synch-IsValid bl n synch v w = ground arith

length-patch :
    (buffer bytes : List ℕ) (at n : ℕ)
    → length buffer ≡ n
    → at + length bytes ≤ n
    → length (patch buffer at bytes) ≡ n
length-patch buffer bytes at n e h =
    length-append (take at buffer ++ bytes) (drop (at + length bytes) buffer)
    ∙ ap (λ k. k + length (drop (at + length bytes) buffer)) (length-append (take at buffer) bytes)
    ∙ sum
  where
    sum : length (take at buffer) + length bytes + length (drop (at + length bytes) buffer) ≡ n
    sum = omega (arith, length-take at buffer, length-drop (at + length bytes) buffer)

-- The receiver with what the decoder returned.
abbrev pub read_in : ℕ → Receiver → Decoded → Receiver
read_in bl s r = decoded_into (has_place bl s.exc) s r

-- The one way in which a receiving step fails: on a character that the clip is blocked at.
abbrev pub Fails : ℕ → Decoder → Receiver → Decoded → Type 0
Fails bl fwd s r =
    (r.found ≡ true)
    × (blocked (read_in bl s r) r.ent.ctrl_out ≡ true)
    × (receive bl fwd s ≡ aborted)

abbrev pub Works : ℕ → ℕ → Decoder → Receiver → Decoded → Type 0
Works bl mf fwd s r =
    (s' : Receiver) × (receive bl fwd s ≡ ok (r.found, r.fwd, s')) × IsReceiving bl mf s'

module _ (bl mf : ℕ) (fwd : Decoder) (s : Receiver) (v : IsReceiving bl mf s) where
  abbrev limit : Option ℕ
  limit = place_limit bl s.exc

  read_in-buffer :
      (r : Decoded)
      → DecodeOk fwd s.exc.decoder_synch limit r
      → length (read_in bl s r).read_buffer ≡ bl
  read_in-buffer r o = elim (Bool-cases (has_place bl s.exc)) [
    | inr no_place ↦ rw no_place v.buffer
    | inl place ↦
        let copied : length r.ent.data_out ≡ r.ent.data_actual_len = (rw place at o.copied) in
        let bounded : leb r.ent.data_actual_len (bl - s.exc.read_offset) ≡ true =
          (rw place at o.bounded) in
        rw place (
          length-patch s.read_buffer r.ent.data_out s.exc.read_offset bl v.buffer
            (ground (arith, v.note.offset)))
  ]

  read_in-IsReceiving :
      (r : Decoded) → DecodeOk fwd s.exc.decoder_synch limit r → IsReceiving bl mf (read_in bl s r)
  read_in-IsReceiving r o = record {
    note = synch-IsValid bl s.exc r.synch v.note o.valid;
    room = v.room;
    buffer = read_in-buffer r o;
    sending = v.sending;
    replica = v.replica;
    flow = v.flow;
    size = v.size;
    little_flow = v.little_flow;
  }

  receive-found :
      (r : Decoded)
      → dec_decode fwd s.exc.decoder_synch limit ≡ ok r
      → DecodeOk fwd s.exc.decoder_synch limit r
      → r.found ≡ true
      → Fails bl fwd s r ⊎ Works bl mf fwd s r
  unfolding receive process
  receive-found r e o f = elim (o.kind f) [
    | inr (special, len) ↦ elim (Bool-cases (blocked (read_in bl s r) r.ent.ctrl_out)) [
      | inl b ↦ inl (
        f,
        b,
        rw
            (
              e,
              f,
              special_ne_none r.ent.ctrl_out special,
              len,
              receive_ctrl_char-aborted bl mf (read_in bl s r) r.ent.ctrl_out r.ent.ctrl_param
                  r.ent.receive_timestamp special o.param b,
            )
            refl,
      )
      | inr free ↦
          let (s', g, w) =
            receive_ctrl_char-ok bl mf (read_in bl s r) r.ent.ctrl_out r.ent.ctrl_param
              r.ent.receive_timestamp (read_in-IsReceiving r o) special o.param free in
          inr (s', (rw (e, f, special_ne_none r.ent.ctrl_out special, len, g) refl), w)
    ]
    | inl (c, pos) ↦
        let k = kept bl mf (read_in bl s r) (read_in-IsReceiving r o) in
        let (n, g, h) =
          receive_data_chars-ok bl mf (read_in bl s r).exc s.send_txn.flow_current
            r.ent.data_actual_len k o.bounded in
        let some_data : ltb 0 r.ent.data_actual_len ≡ true = (ground (arith, pos)) in
        let nothing : (r.ent.ctrl_out == fwc_none) ≡ true = (rw c refl) in
        inr (
          with_note (read_in bl s r) n,
          (rw (e, f, nothing, some_data, g) refl),
          note-IsReceiving bl mf (read_in bl s r) n (read_in-IsReceiving r o) h,
        )
  ]

  receive-ends :
      (r : Decoded)
      → dec_decode fwd s.exc.decoder_synch limit ≡ ok r
      → DecodeOk fwd s.exc.decoder_synch limit r
      → Fails bl fwd s r ⊎ Works bl mf fwd s r
  unfolding receive
  receive-ends r e o = elim (Bool-cases r.found) [
    | inl f ↦ receive-found r e o f
    | inr f ↦ inr (read_in bl s r, (rw (e, f) refl), read_in-IsReceiving r o)
  ]

  place_limit-ok : limit_ok limit ≡ true
  place_limit-ok = elim (Bool-cases (has_place bl s.exc)) [
    | inl place ↦ rw place (ground arith)
    | inr none_left ↦ rw none_left refl
  ]

  -- From a clip in order and on any line, the decoder returns, what it returns is well formed, and the
  -- receiving step then gives a clip in order, unless what was decoded is a START_PACKET inside a
  -- packet while tokens are left, on which the step aborts.
  pub receive-safe :
      (r : Decoded) × (dec_decode fwd s.exc.decoder_synch limit ≡ ok r)
      × DecodeOk fwd s.exc.decoder_synch limit r
      × (Fails bl fwd s r ⊎ Works bl mf fwd s r)
  receive-safe =
      let (r, e, o) =
        dec_decode-DecodeOk fwd s.exc.decoder_synch limit v.note.synch place_limit-ok in
      (r, e, o, receive-ends r e o)
