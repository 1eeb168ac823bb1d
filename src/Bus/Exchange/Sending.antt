-- ===== src/Bus/Exchange/Sending.antt =====
-- The packets of a transmitting clip: `exchange_instance_transmit_data`.
use hailburst.Prelude.{
  ℕ, ◌+◌, ◌^◌, ◌≤◌, ◌<◌, ◌≡◌, refl, ◌∙◌, Bool, true, false, List, inl, inr, ltb, leb, if◌then◌else◌,
  Outcome, ok, arith, length, Bool-cases, length-append,
}
use hailburst.Bus.Codec.{Encoder}
use hailburst.Bus.Codec.Symbol.{start_packet, end_packet, error_packet}
use hailburst.Bus.Codec.Writing.{ctrl_line, enc_encode_data-Took, length-ctrl_line-le}
use hailburst.Bus.Exchange.Defs.{Note, is_operating, add32}
use hailburst.Bus.Exchange.Transmit.{Transmitter, transmit_body, transmit_packet, transmit_data}
use hailburst.Bus.Exchange.Invariant.{IsValid}
use hailburst.Bus.Exchange.Outgoing.{room_for, with_ctrl, encodes}

when_not : {A : Type 0} (c : Bool) (x y : A) → c ≡ false → (if c then x else y) ≡ y
when_not c x y h = rw h refl

when : {A : Type 0} (c : Bool) (x y : A) → c ≡ true → (if c then x else y) ≡ x
when c x y h = rw h refl

module _ (bl : ℕ) where
  -- A transmitting clip in order: a valid note, and an encoder within its capacity.
  pub record IsSending (s : Transmitter) : Type 0 where
    pub note : IsValid bl s.exc
    pub fits : length s.fwe.tx ≤ s.fwe.tx_capacity

  -- What a packet may do to a clip: at most `k` more packets are counted, never more than there are
  -- tokens, and the tokens stay as they are.
  pub record Sends (k : ℕ) (s s' : Transmitter) : Type 0 where
    pub sending : IsSending s'
    pub tokens : s'.exc.fcts_rcvd ≡ s.exc.fcts_rcvd
    pub more : s.exc.pkts_sent ≤ s'.exc.pkts_sent
    pub one : s'.exc.pkts_sent ≤ s.exc.pkts_sent + k
    pub capacity : s'.fwe.tx_capacity ≡ s.fwe.tx_capacity

  with_ctrl-fits :
      (fwe : Encoder) (symbol param : ℕ)
      → length fwe.tx ≤ fwe.tx_capacity
      → length (with_ctrl fwe symbol param).tx ≤ fwe.tx_capacity
  unfolding with_ctrl room_for
  with_ctrl-fits fwe symbol param h = elim (Bool-cases (room_for fwe symbol)) [
    | inr full ↦ rw full h
    | inl free ↦ rw free (
        ground
          (arith, length-append fwe.tx (ctrl_line symbol param), length-ctrl_line-le symbol param))
  ]

  with_ctrl-capacity :
      (fwe : Encoder) (symbol param : ℕ)
      → (with_ctrl fwe symbol param).tx_capacity ≡ fwe.tx_capacity
  unfolding with_ctrl room_for
  with_ctrl-capacity fwe symbol param = ground arith

  abbrev failed : Note → Note
  failed exc = record exc { write_needs_error = true }

  failed-IsValid : (n : Note) → IsValid bl n → IsValid bl (failed n)
  failed-IsValid n v = ground arith

  with_ctrl-inside :
      (fwe : Encoder) (symbol param : ℕ)
      → length fwe.tx ≤ fwe.tx_capacity
      → length (with_ctrl fwe symbol param).tx ≤ (with_ctrl fwe symbol param).tx_capacity
  with_ctrl-inside fwe symbol param h =
      omega (arith, with_ctrl-fits fwe symbol param h, with_ctrl-capacity fwe symbol param)

  -- A step that counts no packet.
  stays :
      (k : ℕ) (s : Transmitter) (n : Note) (fwe : Encoder)
      → IsValid bl n
      → n.fcts_rcvd ≡ s.exc.fcts_rcvd
      → n.pkts_sent ≡ s.exc.pkts_sent
      → length fwe.tx ≤ fwe.tx_capacity
      → fwe.tx_capacity ≡ s.fwe.tx_capacity
      → Sends k s (record { exc = n; fwe = fwe })
  stays k s n fwe v tokens count h cap = record {
    sending = record { note = v; fits = h };
    tokens = tokens;
    more = omega arith;
    one = omega arith;
    capacity = cap;
  }

  abbrev pub Went : ℕ → Transmitter → Outcome (Transmitter × Bool) → Type 0
  Went k s o = (s' : Transmitter) × (done : Bool) × (o ≡ ok (s', done)) × Sends k s s'

  transmit_body-ok :
      (s : Transmitter) (packet : List ℕ)
      → IsSending s
      → 0 < length packet
      → Went 0 s (transmit_body s packet)
  unfolding transmit_body
  transmit_body-ok s packet v pos =
      let (fwe', n, e, cap, took) = enc_encode_data-Took s.fwe packet pos v.fits in
      let fits' : length fwe'.tx ≤ fwe'.tx_capacity = (rw cap took.fits) in
      let f = encodes fwe' end_packet 0 refl refl in
      elim (Bool-cases (ltb n (length packet))) [
        | inl cut ↦ (
          record { exc = failed s.exc; fwe = fwe' },
          false,
          (rw (e, cut) refl),
          stays 0 s (failed s.exc) fwe' (failed-IsValid s.exc v.note) refl refl fits' cap,
        )
        | inr whole ↦ elim (Bool-cases (room_for fwe' end_packet)) [
          | inl free ↦ (
            record { exc = s.exc; fwe = with_ctrl fwe' end_packet 0 },
            true,
            (rw (e, whole, f, free) refl),
            stays 0 s s.exc (with_ctrl fwe' end_packet 0) v.note refl refl
                (with_ctrl-inside fwe' end_packet 0 fits')
                (with_ctrl-capacity fwe' end_packet 0 ∙ cap),
          )
          | inr full ↦ (
            record { exc = failed s.exc; fwe = with_ctrl fwe' end_packet 0 },
            false,
            (rw (e, whole, f, full) refl),
            stays 0 s (failed s.exc) (with_ctrl fwe' end_packet 0) (failed-IsValid s.exc v.note)
                refl refl (with_ctrl-inside fwe' end_packet 0 fits')
                (with_ctrl-capacity fwe' end_packet 0 ∙ cap),
          )
        ]
      ]

  abbrev counted : Note → Note
  counted exc = record exc { pkts_sent = add32 exc.pkts_sent 1 }

  counted-IsValid :
      (n : Note)
      → IsValid bl n
      → n.pkts_sent < n.fcts_rcvd
      → n.pkts_sent + 11 < 2 ^ 32
      → IsValid bl (counted n)
  counted-IsValid n v left far = ground arith

  add32-suc : (n : ℕ) → n + 11 < 2 ^ 32 → add32 n 1 ≡ n + 1
  add32-suc n far = omega arith

  transmit_packet-ok :
      (s : Transmitter) (packet : List ℕ)
      → IsSending s
      → 0 < length packet
      → s.exc.pkts_sent + 11 < 2 ^ 32
      → Went 1 s (transmit_packet s packet)
  unfolding transmit_packet
  transmit_packet-ok s packet v pos far = elim (Bool-cases (leb s.exc.fcts_rcvd s.exc.pkts_sent)) [
    | inl none_left ↦
        (s, false, (rw none_left refl), stays 1 s s.exc s.fwe v.note refl refl v.fits refl)
    | inr some_left ↦
        let e = encodes s.fwe start_packet 0 refl refl in
        let fwe' = with_ctrl s.fwe start_packet 0 in
        let inside = with_ctrl-inside s.fwe start_packet 0 v.fits in
        let cap = with_ctrl-capacity s.fwe start_packet 0 in
        elim (Bool-cases (room_for s.fwe start_packet)) [
          | inr full ↦ (
            record { exc = s.exc; fwe = fwe' },
            false,
            (rw (some_left, e, full) refl),
            stays 1 s s.exc fwe' v.note refl refl inside cap,
          )
          | inl free ↦
              let s₁ : Transmitter = record { exc = counted s.exc; fwe = fwe' } in
              let v₁ : IsSending s₁ = record {
                note = counted-IsValid s.exc v.note (ground (arith, some_left)) far;
                fits = inside;
              } in
              let (s', done, f, w) = transmit_body-ok s₁ packet v₁ pos in
              (
                s',
                done,
                (rw (some_left, e, free) f),
                record {
                  sending = w.sending;
                  tokens = w.tokens;
                  more = omega (arith, w.more, add32-suc s.exc.pkts_sent far);
                  one = omega (arith, w.one, add32-suc s.exc.pkts_sent far);
                  capacity = w.capacity ∙ cap;
                },
              )
        ]
  ]

  abbrev mended : Note → Note
  mended exc = record exc { write_needs_error = false }

  mended-IsValid : (n : Note) → IsValid bl n → IsValid bl (mended n)
  mended-IsValid n v = ground arith

  -- On a transmitting clip in order, whose count of packets is at least 12 short of 2^32, a packet with
  -- some data is sent or dropped without a failed assertion: the clip is in order again, the encoder
  -- within its capacity, and at most one more packet is counted, against a token.
  pub transmit_data-Sends :
      (s : Transmitter) (packet : List ℕ)
      → IsSending s
      → 0 < length packet
      → s.exc.pkts_sent + 11 < 2 ^ 32
      → Went 1 s (transmit_data s packet)
  unfolding transmit_data
  transmit_data-Sends s packet v pos far = elim (Bool-cases (is_operating s.exc.exc_state)) [
    | inr idle ↦ (s, false, (rw idle refl), stays 1 s s.exc s.fwe v.note refl refl v.fits refl)
    | inl op ↦ elim (Bool-cases s.exc.write_needs_error) [
      | inr clean ↦
          let (s', done, e, w) = transmit_packet-ok s packet v pos far in
          (s', done, (rw op (when_not s.exc.write_needs_error _ _ clean ∙ e)), w)
      | inl torn ↦
          let e = encodes s.fwe error_packet 0 refl refl in
          let fwe' = with_ctrl s.fwe error_packet 0 in
          let inside = with_ctrl-inside s.fwe error_packet 0 v.fits in
          let cap = with_ctrl-capacity s.fwe error_packet 0 in
          elim (Bool-cases (room_for s.fwe error_packet)) [
            | inr full ↦ (
              record { exc = s.exc; fwe = fwe' },
              false,
              (rw op (when s.exc.write_needs_error _ _ torn ∙ rw (e, full) refl)),
              stays 1 s s.exc fwe' v.note refl refl inside cap,
            )
            | inl free ↦
                let s₁ : Transmitter = record { exc = mended s.exc; fwe = fwe' } in
                let v₁ : IsSending s₁ = record {
                  note = mended-IsValid s.exc v.note;
                  fits = inside;
                } in
                let (s', done, f, w) = transmit_packet-ok s₁ packet v₁ pos far in
                (
                  s',
                  done,
                  (rw op (when s.exc.write_needs_error _ _ torn ∙ rw (e, free) f)),
                  record {
                    sending = w.sending;
                    tokens = w.tokens;
                    more = w.more;
                    one = w.one;
                    capacity = w.capacity ∙ cap;
                  },
                )
          ]
    ]
  ]
