-- ===== src/Flight/Telemetry/Account.antt =====
-- What a message of asynchronous telemetry does to the encoder and to the count of dropped messages.
use hailburst.Prelude.{
  ℕ, ◌+◌, ◌%◌, ◌^◌, ◌≤◌, ◌<◌, ◌≡◌, refl, ◌∙◌, Bool, true, ◌||◌, List, [], ◌∷◌, ◌++◌, length,
  length-append, Bool-cases, inl, inr, leb, ltb, leb-true, leb-false, ok, arith,
}
use hailburst.Synch.Duct.Send.{sent}
use hailburst.Flight.Comm.{CommPacket, expected_length, comm_tlm_magic_num}
use hailburst.Flight.Comm.Frame.{
  Extends, frame, comm_enc_encode_lem, count_escapes-le, length-frame-le,
}
use hailburst.Flight.Clock.{Clock}
use hailburst.Flight.Telemetry.Submit.{max_async_size}
use hailburst.Flight.Telemetry.Pump.{Sending, transmit_async}
use hailburst.Flight.Telemetry.Packets.{
  Telemetry, outgoing, InBounds, packet_of, packet_for-outgoing, Transmits, done, fits, full,
  Transmits_append,
}

-- The encoder has room for the largest asynchronous packet, and its memory is not overrun.
pub record IsReady (s : Sending) : Type 0 where
  pub roomy : 76 ≤ s.encoder.downlink.scratch_capacity
  pub inside : length s.encoder.downlink.scratch ≤ s.encoder.downlink.scratch_capacity
  pub counter : s.dropped < 2 ^ 32

-- The packets `ps` turned the state `s` into `s'`.
pub record Account (crc32 : ℕ → List ℕ → ℕ) (s : Sending) (ps : List CommPacket) (s' : Sending)
    : Type 0 where
  pub left_out : ℕ
  pub transmits :
      Transmits crc32 s.encoder.downlink.scratch_capacity s.encoder.downlink.scratch ps
        s'.encoder.downlink.scratch left_out
  pub few : left_out ≤ length ps
  pub counted : s'.dropped ≡ (s.dropped + left_out) % 2 ^ 32
  pub indicated : s'.watchdog_ok ≡ (s.watchdog_ok || ltb left_out (length ps))
  pub same_capacity : s'.encoder.downlink.scratch_capacity ≡ s.encoder.downlink.scratch_capacity
  pub still : IsReady s'

or-assoc_lt :
    (b : Bool) (a c m n : ℕ)
    → a ≤ m
    → c ≤ n
    → (b || ltb a m || ltb c n) ≡ (b || ltb (a + c) (m + n))
or-assoc_lt b a c m n h k = ground arith

module _ (crc32 : ℕ → List ℕ → ℕ) where
  pub Account-refl : (s : Sending) → IsReady s → Account crc32 s [] s
  Account-refl s v = record {
    left_out = 0;
    transmits = done s.encoder.downlink.scratch;
    few = omega arith;
    counted = omega (arith, v.counter);
    indicated = ground arith;
    same_capacity = refl;
    still = v;
  }

  pub Account-trans :
      (a b c : Sending) (ps qs : List CommPacket)
      → Account crc32 a ps b
      → Account crc32 b qs c
      → Account crc32 a (ps ++ qs) c
  Account-trans a b c ps qs u v = record {
    left_out = u.left_out + v.left_out;
    transmits =
        Transmits_append crc32 a.encoder.downlink.scratch_capacity a.encoder.downlink.scratch
          b.encoder.downlink.scratch c.encoder.downlink.scratch ps qs u.left_out v.left_out
          u.transmits (rw (← u.same_capacity) v.transmits);
    few = omega (arith, u.few, v.few, length-append ps qs);
    counted = omega (arith, u.counted, v.counted);
    indicated =
        rw (v.indicated, u.indicated, length-append ps qs)
          (or-assoc_lt a.watchdog_ok u.left_out v.left_out (length ps) (length qs) u.few v.few);
    same_capacity = v.same_capacity ∙ u.same_capacity;
    still = v.still;
  }

expected_length-async :
    (clock : Clock) (m : Telemetry)
    → InBounds max_async_size m
    → expected_length (packet_of clock m) ≤ 76
expected_length-async clock m range = omega (arith, range.1, count_escapes-le m.data_bytes)

module _ (crc32 : ℕ → List ℕ → ℕ) (extends : Extends crc32) (clock : Clock) where
  pub transmit_async_lem :
      (s : Sending) (m : Telemetry)
      → IsReady s
      → InBounds max_async_size m
      → (s' : Sending) × (transmit_async crc32 clock s (sent (outgoing m)) ≡ ok s')
        × Account crc32 s (packet_of clock m ∷ []) s'
  unfolding transmit_async
  transmit_async_lem s m v range =
      let p = packet_of clock m in
      let short = expected_length-async clock m range in
      let read = packet_for-outgoing clock max_async_size m (omega arith) range in
      let encoded =
        comm_enc_encode_lem crc32 extends p s.encoder v.inside (omega (arith, short, v.roomy)) in
      let before = s.encoder.downlink.scratch in
      let after = before ++ frame crc32 comm_tlm_magic_num p in
      elim (Bool-cases
        (leb (length before + expected_length p) s.encoder.downlink.scratch_capacity)) [
          | inl e ↦ (
            record {
              encoder = record { downlink = record s.encoder.downlink { scratch = after } };
              dropped = s.dropped;
              watchdog_ok = true;
            },
            rw (read, encoded, e) refl,
            record {
              left_out = 0;
              transmits = fits before p [] after 0 (leb-true _ _ e) (done after);
              few = omega arith;
              counted = omega (arith, v.counter);
              indicated = ground arith;
              same_capacity = refl;
              still = record {
                roomy = v.roomy;
                inside = omega (
                  arith,
                  leb-true _ _ e,
                  length-append before (frame crc32 comm_tlm_magic_num p),
                  length-frame-le crc32 extends p,
                );
                counter = v.counter;
              };
            },
          )
          | inr e ↦ (
            record s { dropped = (s.dropped + 1) % 2 ^ 32 },
            rw (read, encoded, e) refl,
            record {
              left_out = 1;
              transmits = full before p [] before 0 (leb-false _ _ e) (done before);
              few = omega arith;
              counted = refl;
              indicated = ground arith;
              same_capacity = refl;
              still = record { roomy = v.roomy; inside = v.inside; counter = omega arith };
            },
          )
        ]
