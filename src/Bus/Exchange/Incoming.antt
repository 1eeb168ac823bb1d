-- ===== src/Bus/Exchange/Incoming.antt =====
-- A control character in a receiving clip: `exchange_instance_receive_ctrl_char`.
use mathlib.Core.Bool.{false≢true}
use hailburst.Prelude.{
  ℕ, ◌+◌, ◌%◌, ◌≤◌, ◌<◌, ◌≡◌, refl, ap, sym, ◌∙◌, inl, inr, Bool, true, false, not, ◌&&◌, ◌||◌, ltb,
  leb, ◌==◌, if◌then◌else◌, Outcome, ok, aborted, arith, List, length, take, length-take, update,
  Bool-cases,
}
use hailburst.Synch.Duct.{
  Duct, Txn, Message, is_send, slot, overwrite, txn_send, send_allowed, send_message,
  lookup_message,
}
use hailburst.Bus.Codec.Symbol.{
  start_packet, end_packet, error_packet, flow_control, keep_alive, is_special, is_parametrized,
  takes_param,
}
use hailburst.Bus.Exchange.Defs.{
  Note, Receiver, with_note, is_operating, is_listening, is_connecting, is_handshaking,
  on_error_packet, on_flow_control, on_keep_alive, on_unexpected, recv_while_connecting,
  recv_while_handshaking, ExchangeState, exc_connecting, exc_handshaking, exc_operating,
  exc_invalid, reset, on_start_packet, on_end_packet, recv_while_operating, recv_receiving,
  recv_listening, is_receiving, is_overflowed, dispatch_ctrl_char, receive_ctrl_char, add32,
}
use hailburst.Bus.Exchange.Invariant.{
  IsValid, Room, Keeps, busy, reset-Keeps, recv_while_connecting-Keeps,
  recv_while_handshaking-Keeps, on_error_packet-Keeps, on_flow_control-Keeps, on_keep_alive-Keeps,
  on_unexpected-Keeps,
}

-- A receiving clip in progress, with `bl` bytes of packet buffer and room for `mf` packets.
pub record IsReceiving (bl mf : ℕ) (s : Receiver) : Type 0 where
  pub note : IsValid bl s.exc
  pub room : Room mf s.send_txn.flow_current s.exc
  pub buffer : length s.read_buffer ≡ bl
  pub sending : s.send_txn.mode ≡ txn_send
  pub replica : s.send_txn.replica_id < s.read_duct.sender_replicas
  pub flow : s.read_duct.max_flow ≡ mf
  pub size : s.read_duct.message_size ≡ bl
  pub little_flow : mf < 255

-- A START_PACKET inside a packet, while the other end has tokens left: the one control character on
-- which the clip aborts.
abbrev pub blocked : Receiver → ℕ → Bool
blocked s symbol =
    is_operating s.exc.exc_state
    && (symbol == start_packet)
    && not (is_listening s.exc.recv_state)
    && ltb s.exc.pkts_rcvd s.exc.fcts_sent

module _ (bl mf : ℕ) where
  -- A transition of the note alone.
  pub note-IsReceiving :
      (s : Receiver) (n : Note)
      → IsReceiving bl mf s
      → Keeps bl mf s.send_txn.flow_current n
      → IsReceiving bl mf (with_note s n)
  note-IsReceiving s n v k = ground arith

  abbrev pub Continues : Outcome Receiver → Type 0
  Continues o = (s' : Receiver) × (o ≡ ok s') × IsReceiving bl mf s'

  pub kept : (s : Receiver) → IsReceiving bl mf s → Keeps bl mf s.send_txn.flow_current s.exc
  kept s v = (v.note, v.room)

  abbrev started : Note → ℕ → Note
  started exc now = record exc {
    read_offset = 0;
    read_timestamp = now;
    recv_state = recv_receiving;
    pkts_rcvd = add32 exc.pkts_rcvd 1;
  }

  send_allowed-room :
      (s : Receiver)
      → IsReceiving bl mf s
      → s.exc.pkts_rcvd < s.exc.fcts_sent
      → send_allowed s.read_duct s.send_txn ≡ ok true
  unfolding send_allowed
  send_allowed-room s v h = ground arith

  start_packet-Keeps :
      (sent : ℕ) (n : Note) (now : ℕ)
      → is_operating n.exc_state ≡ true
      → is_listening n.recv_state ≡ true
      → n.pkts_rcvd < n.fcts_sent
      → Keeps bl mf sent n
      → Keeps bl mf sent (started n now)
  start_packet-Keeps sent n now op free h k = ground arith

  on_start_packet-ok :
      (s : Receiver) (now : ℕ)
      → IsReceiving bl mf s
      → is_operating s.exc.exc_state ≡ true
      → blocked s start_packet ≡ false
      → Continues (on_start_packet s now)
  unfolding on_start_packet
  on_start_packet-ok s now v op free = elim (Bool-cases (leb s.exc.fcts_sent s.exc.pkts_rcvd)) [
    | inl none_left ↦ (
      with_note s (reset s.exc),
      (rw none_left refl),
      note-IsReceiving s (reset s.exc) v
          (reset-Keeps bl mf s.send_txn.flow_current s.exc (kept s v)),
    )
    | inr left ↦
        let more : s.exc.pkts_rcvd < s.exc.fcts_sent = (ground arith) in
        let idle : is_listening s.exc.recv_state ≡ true = (ground arith) in
        (
          with_note s (started s.exc now),
          (rw (left, idle, send_allowed-room s v more) refl),
          note-IsReceiving s (started s.exc now) v
              (start_packet-Keeps s.send_txn.flow_current s.exc now op idle more (kept s v)),
        )
  ]

  abbrev listening : Note → Note
  listening exc = record exc { recv_state = recv_listening }

  listening-Keeps : (sent : ℕ) (n : Note) → Keeps bl mf sent n → Keeps bl mf sent (listening n)
  listening-Keeps sent n k = ground arith

  prefix_length :
      (s : Receiver)
      → IsReceiving bl mf s
      → length (take s.exc.read_offset s.read_buffer) ≡ s.exc.read_offset
  prefix_length s v =
      omega (arith, length-take s.exc.read_offset s.read_buffer, v.buffer, v.note.offset)

  not_listening : (n : Note) → is_receiving n.recv_state ≡ true → is_listening n.recv_state ≡ false
  not_listening n h = ground arith

  abbrev Sent : Receiver → Duct → Txn → Type 0
  Sent s d t =
      (d.max_flow ≡ mf)
      × (d.message_size ≡ bl)
      × (d.sender_replicas ≡ s.read_duct.sender_replicas)
      × (t.mode ≡ txn_send)
      × (t.replica_id ≡ s.send_txn.replica_id)
      × (t.flow_current ≡ s.send_txn.flow_current + 1)

  abbrev sent_duct : Receiver → List ℕ → ℕ → Duct
  sent_duct s bytes timestamp =
      let d = s.read_duct in
      let place = slot d s.send_txn.replica_id s.send_txn.flow_current in
      let entry : Message = record {
        size = length bytes;
        timestamp = timestamp;
        body = overwrite bytes (d.message_buffer place).body;
      } in
      record d { message_buffer = update d.message_buffer place entry }

  abbrev sent_txn : Receiver → Txn
  sent_txn s = record s.send_txn { flow_current = (s.send_txn.flow_current + 1) % 256 }

  send_message-room :
      (s : Receiver) (bytes : List ℕ) (timestamp : ℕ)
      → IsReceiving bl mf s
      → s.send_txn.flow_current < mf
      → 0 < length bytes
      → length bytes ≤ bl
      → (d : Duct) × (t : Txn) × (send_message s.read_duct s.send_txn bytes timestamp ≡ ok (d, t))
        × Sent s d t
  unfolding send_message lookup_message
  send_message-room s bytes timestamp v more some_data fits =
      let sends : is_send s.send_txn.mode ≡ true = (rw v.sending refl) in
      let known : ltb s.send_txn.replica_id s.read_duct.sender_replicas ≡ true =
        (ground (arith, v.replica)) in
      let free : ltb s.send_txn.flow_current s.read_duct.max_flow ≡ true =
        (ground (arith, v.flow, more)) in
      let sized : (leb 1 (length bytes) && leb (length bytes) s.read_duct.message_size) ≡ true =
        (ground (arith, v.size)) in
      (
        sent_duct s bytes timestamp,
        sent_txn s,
        (rw (sends, known, free, sized) refl),
        (v.flow, v.size, refl, v.sending, refl, (ground (arith, v.little_flow))),
      )

  Sent-IsReceiving :
      (s : Receiver) (d : Duct) (t : Txn)
      → IsReceiving bl mf s
      → is_listening s.exc.recv_state ≡ false
      → Sent s d t
      → IsReceiving bl mf (record s { exc = listening s.exc; read_duct = d; send_txn = t })
  Sent-IsReceiving s d t v busy q = ground arith

  on_end_packet-ok :
      (s : Receiver)
      → IsReceiving bl mf s
      → is_operating s.exc.exc_state ≡ true
      → Continues (on_end_packet s)
  unfolding on_end_packet
  on_end_packet-ok s v op = elim (Bool-cases (is_overflowed s.exc.recv_state)) [
    | inl over ↦ (
      with_note s (listening s.exc),
      (rw over refl),
      note-IsReceiving s (listening s.exc) v
          (listening-Keeps s.send_txn.flow_current s.exc (kept s v)),
    )
    | inr within_limit ↦ elim (Bool-cases (is_receiving s.exc.recv_state)) [
      | inr idle ↦ (
        with_note s (reset s.exc),
        (rw (within_limit, idle) refl),
        note-IsReceiving s (reset s.exc) v
            (reset-Keeps bl mf s.send_txn.flow_current s.exc (kept s v)),
      )
      | inl busy ↦ elim (Bool-cases (s.exc.read_offset == 0)) [
        | inl empty ↦ (
          with_note s (listening s.exc),
          (rw (within_limit, busy, empty) refl),
          note-IsReceiving s (listening s.exc) v
              (listening-Keeps s.send_txn.flow_current s.exc (kept s v)),
        )
        | inr full ↦
            let some_room : s.send_txn.flow_current < mf = (ground arith) in
            let len = prefix_length s v in
            let (d, t, e, w) =
              send_message-room s (take s.exc.read_offset s.read_buffer) s.exc.read_timestamp v
                some_room (ground (arith, len, full)) (ground (arith, len)) in
            (
              record s { exc = listening s.exc; read_duct = d; send_txn = t },
              (rw (within_limit, busy, full, e) refl),
              Sent-IsReceiving s d t v (not_listening s.exc busy) w,
            )
      ]
    ]
  ]

  on_start_packet-aborted :
      (s : Receiver) (now : ℕ) → blocked s start_packet ≡ true → on_start_packet s now ≡ aborted
  unfolding on_start_packet
  on_start_packet-aborted s now b =
      let left : leb s.exc.fcts_sent s.exc.pkts_rcvd ≡ false = (ground arith) in
      let busy : is_listening s.exc.recv_state ≡ false = (ground arith) in rw (left, busy) refl

  remaining-ok :
      (s : Receiver) (symbol param : ℕ)
      → IsReceiving bl mf s
      → Continues (
          if symbol == error_packet
          then ok (with_note s (on_error_packet s.exc))
          else if symbol == flow_control
          then ok (with_note s (on_flow_control s.exc param))
          else if symbol == keep_alive
          then ok (with_note s (on_keep_alive s.exc param))
          else ok (with_note s (on_unexpected s.exc symbol param)))
  remaining-ok s symbol param v =
      let k = kept s v in
      let sent = s.send_txn.flow_current in
      elim (Bool-cases (symbol == error_packet)) [
        | inl e ↦ (
          with_note s (on_error_packet s.exc),
          (rw e refl),
          note-IsReceiving s (on_error_packet s.exc) v (on_error_packet-Keeps bl mf sent s.exc k),
        )
        | inr a ↦ elim (Bool-cases (symbol == flow_control)) [
          | inl e ↦ (
            with_note s (on_flow_control s.exc param),
            (rw (a, e) refl),
            note-IsReceiving s (on_flow_control s.exc param) v
                (on_flow_control-Keeps bl mf sent s.exc param k),
          )
          | inr b ↦ elim (Bool-cases (symbol == keep_alive)) [
            | inl e ↦ (
              with_note s (on_keep_alive s.exc param),
              (rw (a, b, e) refl),
              note-IsReceiving s (on_keep_alive s.exc param) v
                  (on_keep_alive-Keeps bl mf sent s.exc param k),
            )
            | inr c ↦ (
              with_note s (on_unexpected s.exc symbol param),
              (rw (a, b, c) refl),
              note-IsReceiving s (on_unexpected s.exc symbol param) v
                  (on_unexpected-Keeps bl mf sent s.exc symbol param k),
            )
          ]
        ]
      ]

  operating-ok :
      (s : Receiver) (symbol param now : ℕ)
      → IsReceiving bl mf s
      → is_operating s.exc.exc_state ≡ true
      → blocked s symbol ≡ false
      → Continues (recv_while_operating s symbol param now)
  unfolding recv_while_operating
  operating-ok s symbol param now v op free = elim (Bool-cases (symbol == start_packet)) [
    | inl starts ↦
        let free' : blocked s start_packet ≡ false = (rw starts at free) in
        let (s', e, w) = on_start_packet-ok s now v op free' in (s', (rw (starts, e) refl), w)
    | inr a ↦ elim (Bool-cases (symbol == end_packet)) [
      | inl ends ↦ let (s', e, w) = on_end_packet-ok s v op in (s', (rw (a, ends, e) refl), w)
      | inr b ↦ rw (a, b) (remaining-ok s symbol param v)
    ]
  ]

  stopped : (s : Receiver) → exc_invalid ≡ s.exc.exc_state → IsReceiving bl mf s → ⊥
  stopped s e v =
      false≢true
        (ap (λ x. is_connecting x || is_handshaking x || is_operating x) e ∙ v.note.running)

  dispatch-ok :
      (state : ExchangeState) (s : Receiver) (symbol param now : ℕ)
      → state ≡ s.exc.exc_state
      → IsReceiving bl mf s
      → blocked s symbol ≡ false
      → Continues (dispatch_ctrl_char state s symbol param now)
  unfolding dispatch_ctrl_char
  dispatch-ok exc_connecting s symbol param now e v free = (
    with_note s (recv_while_connecting s.exc symbol param),
    refl,
    note-IsReceiving s (recv_while_connecting s.exc symbol param) v (
        recv_while_connecting-Keeps bl mf s.send_txn.flow_current s.exc symbol param
          (ap is_connecting (sym e)) (kept s v)),
  )
  dispatch-ok exc_handshaking s symbol param now e v free = (
    with_note s (recv_while_handshaking s.exc symbol param),
    refl,
    note-IsReceiving s (recv_while_handshaking s.exc symbol param) v
        (recv_while_handshaking-Keeps bl mf s.send_txn.flow_current s.exc symbol param (kept s v)),
  )
  dispatch-ok exc_operating s symbol param now e v free =
      operating-ok s symbol param now v (ap is_operating (sym e)) free
  dispatch-ok exc_invalid s symbol param now e v free = absurd (stopped s e v)

  parametrized-ok :
      (symbol param : ℕ)
      → is_special symbol ≡ true
      → ((param == 0) || takes_param symbol) ≡ true
      → (if param == 0 then ok true else is_parametrized symbol) ≡ ok true
  unfolding is_parametrized
  parametrized-ok symbol param special fits = elim (Bool-cases (param == 0)) [
    | inl e ↦ rw e refl
    | inr e ↦ rw (e, special, rw e at fits) refl
  ]

  dispatch-aborted :
      (state : ExchangeState) (s : Receiver) (symbol param now : ℕ)
      → state ≡ s.exc.exc_state
      → blocked s symbol ≡ true
      → dispatch_ctrl_char state s symbol param now ≡ aborted
  unfolding dispatch_ctrl_char recv_while_operating
  dispatch-aborted exc_connecting s symbol param now e b = absurd (false≢true (rw (sym e) at b))
  dispatch-aborted exc_handshaking s symbol param now e b = absurd (false≢true (rw (sym e) at b))
  dispatch-aborted exc_operating s symbol param now e b =
      let starts : (symbol == start_packet) ≡ true = (ground arith) in
      let b' : blocked s start_packet ≡ true = (rw starts at b) in
      rw starts (on_start_packet-aborted s now b')
  dispatch-aborted exc_invalid s symbol param now e b = absurd (false≢true (rw (sym e) at b))

  -- On a clip in order, a control character that the decoder may report is acted on without a failed
  -- assertion, and the clip is in order again, unless the character is a START_PACKET inside a packet
  -- while tokens are left.
  pub receive_ctrl_char-ok :
      (s : Receiver) (symbol param now : ℕ)
      → IsReceiving bl mf s
      → is_special symbol ≡ true
      → ((param == 0) || takes_param symbol) ≡ true
      → blocked s symbol ≡ false
      → Continues (receive_ctrl_char s symbol param now)
  unfolding receive_ctrl_char
  receive_ctrl_char-ok s symbol param now v special fits free =
      let (s', e, w) = dispatch-ok s.exc.exc_state s symbol param now refl v free in
      (s', (rw (parametrized-ok symbol param special fits) e), w)

  -- On any clip that operates, is inside a packet and has tokens left, a START_PACKET that the decoder
  -- may report aborts the clip.
  pub receive_ctrl_char-aborted :
      (s : Receiver) (symbol param now : ℕ)
      → is_special symbol ≡ true
      → ((param == 0) || takes_param symbol) ≡ true
      → blocked s symbol ≡ true
      → receive_ctrl_char s symbol param now ≡ aborted
  unfolding receive_ctrl_char
  receive_ctrl_char-aborted s symbol param now special fits b =
      rw (parametrized-ok symbol param special fits)
        (dispatch-aborted s.exc.exc_state s symbol param now refl b)
