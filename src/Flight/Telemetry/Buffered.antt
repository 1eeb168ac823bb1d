-- ===== src/Flight/Telemetry/Buffered.antt =====
-- Stage 3 of telemetry_pump: synchronous telemetry waits in the circular buffer until it is transmitted.
use mathlib.Core.List.{map, append-nil, append_assoc}
use mathlib.Core.Option.{some-injective}
use hailburst.Prelude.{
  ℕ, zero, suc, ◌+◌, ◌-◌, ◌≤◌, ◌<◌, ◌≡◌, refl, ap, sym, inl, inr, Bool, List, [], ◌∷◌, ◌++◌, length,
  length-append, get_elem?-some, drop, drop-cons, drop-nil, Bool-cases, leb, leb-true, leb-false,
  ok, arith,
}
use hailburst.Synch.Duct.{Packet, majority_threshold}
use hailburst.Synch.Duct.Offer.{IsValid}
use hailburst.Synch.Duct.Send.{sent}
use hailburst.Synch.Duct.Vote.{IsReceiving}
use hailburst.Synch.Duct.Receive.{Offers, count_good, receive_next, receive_last}
use hailburst.Synch.Pipe.{Pipe, PipeTxn, pipe_receive_message}
use hailburst.Synch.Circular.{CircBuf}
use native.Mathlib.Decide.{dec_lt}
use hailburst.Synch.Circular.Filling.{filled, filled-Represents, write_done-fill}
use hailburst.Synch.Circular.Represents.{
  write_peek-full, write_peek-room, Represents, read_peek_inside, read_peek_outside, element_lem,
  read_done-drop,
}
use hailburst.Flight.Comm.{CommEnc, expected_length, comm_tlm_magic_num}
use hailburst.Flight.Comm.Frame.{Extends, frame, comm_enc_encode_lem, length-frame-le}
use hailburst.Flight.Clock.{Clock}
use hailburst.Flight.Telemetry.Submit.{max_sync_size}
use hailburst.Flight.Telemetry.Pump.{pull_pipe, push_slots}
use hailburst.Flight.Telemetry.Packets.{
  Telemetry, outgoing, InBounds, packet_of, packet_for-outgoing, Transmits, done, fits,
}

-- Messages that the encoder's memory could hold one by one.
abbrev pub AllFitting : Clock → ℕ → List Telemetry → Type 0
AllFitting clock capacity [] = Unit {0}
AllFitting clock capacity (m ∷ ms) =
    InBounds max_sync_size m
    × (expected_length (packet_of clock m) ≤ capacity)
    × AllFitting clock capacity ms

abbrev pub slots : List Telemetry → List Packet
slots ms = map sent (map outgoing ms)

-- The first message that is left does not fit.
abbrev pub Blocked : Clock → CommEnc → List Telemetry → Type 0
Blocked clock enc [] = Unit {0}
Blocked clock enc (m ∷ ms) =
    enc.downlink.scratch_capacity
    < length enc.downlink.scratch + expected_length (packet_of clock m)

-- What is left of the messages `ms`, where the ones before are transmitted.
pub record Pushed (crc32 : ℕ → List ℕ → ℕ) (clock : Clock) (ms : List Telemetry) (spare : ℕ)
    (enc : CommEnc) (circ' : CircBuf Packet) (enc' : CommEnc) : Type 0 where
  pub gone : List Telemetry
  pub rest : List Telemetry
  pub split : ms ≡ gone ++ rest
  pub transmits :
      Transmits crc32 enc.downlink.scratch_capacity enc.downlink.scratch
        (map (packet_of clock) gone)
        enc'.downlink.scratch
        0
  pub remains : Represents circ' (slots rest) spare
  pub blocked : Blocked clock enc' rest

module _ (crc32 : ℕ → List ℕ → ℕ) (extends : Extends crc32) (clock : Clock) (spare : ℕ) where
  -- If the circular buffer holds a sequence of messages, each of which could fit into the encoder's
  -- memory by itself, the loop of stage 3 ends, within as many rounds as there are messages and one, and
  -- aborts nowhere. It appends the frames of a first part of the messages, in order and none left out,
  -- to the downlink; the buffer holds exactly the others, and the first of them, if there is one, does
  -- not fit behind what is to be sent.
  pub push_slots_lem :
      (fuel : ℕ) (ms : List Telemetry) (circ : CircBuf Packet) (enc : CommEnc)
      → Represents circ (slots ms) spare
      → AllFitting clock enc.downlink.scratch_capacity ms
      → length enc.downlink.scratch ≤ enc.downlink.scratch_capacity
      → length ms < fuel
      → (circ' : CircBuf Packet) × (enc' : CommEnc) × (push_slots crc32 clock fuel circ enc
          ≡ ok (circ', enc'))
        × Pushed crc32 clock ms spare enc circ' enc'
  unfolding push_slots
  push_slots_lem zero ms circ enc rep fit inside h = absurd (omega arith)
  push_slots_lem (suc fuel) [] circ enc rep fit inside h = (
    circ,
    enc,
    rw (read_peek_outside circ [] rep 0 (omega arith)) refl,
    record {
      gone = [];
      rest = [];
      split = refl;
      transmits = done enc.downlink.scratch;
      remains = rep;
      blocked = tt;
    },
  )
  push_slots_lem (suc fuel) (m ∷ ms) circ enc rep fit inside h =
      let q = slots (m ∷ ms) in
      let p = packet_of clock m in
      let peeked = read_peek_inside circ q rep 0 (omega arith) in
      let held = some-injective _ _ (element_lem circ q rep 0 (omega arith)) in
      let read = packet_for-outgoing clock max_sync_size m (omega arith) fit.0 in
      let encoded = comm_enc_encode_lem crc32 extends p enc inside fit.1 in
      let before = enc.downlink.scratch in
      let after = before ++ frame crc32 comm_tlm_magic_num p in
      elim (Bool-cases (leb (length before + expected_length p) enc.downlink.scratch_capacity)) [
        | inl e ↦
            let (circ₁, e₁, _, rep₁) = read_done-drop circ q rep 1 (omega arith) (omega arith) in
            let enc₁ : CommEnc = record { downlink = record enc.downlink { scratch = after } } in
            let short : length after ≤ enc.downlink.scratch_capacity = omega (
              arith,
              leb-true _ _ e,
              length-append before (frame crc32 comm_tlm_magic_num p),
              length-frame-le crc32 extends p,
            ) in
            let (circ', enc', e₂, w) =
              push_slots_lem fuel ms circ₁ enc₁ rep₁ fit.2 short (omega arith) in
            (
              circ',
              enc',
              rw (peeked, sym held, read, encoded, e, e₁, e₂) refl,
              record {
                gone = m ∷ w.gone;
                rest = w.rest;
                split = ap (λ t. m ∷ t) w.split;
                transmits =
                    fits before p (map (packet_of clock) w.gone) enc'.downlink.scratch 0
                      (leb-true _ _ e) w.transmits;
                remains = w.remains;
                blocked = w.blocked;
              },
            )
        | inr e ↦ (
          circ,
          enc,
          rw (peeked, sym held, read, encoded, e) refl,
          record {
            gone = [];
            rest = m ∷ ms;
            split = refl;
            transmits = done before;
            remains = rep;
            blocked = leb-false _ _ e;
          },
        )
      ]

module _ (pipe : Pipe) (v : IsValid pipe.dataflow) (good : ℕ → Bool) (ps : List Packet)
    (quorum : majority_threshold pipe.dataflow ≤ count_good good pipe.dataflow.sender_replicas 0)
    (few : length ps ≤ pipe.dataflow.max_flow) where
  -- What the transaction becomes when `n` messages were received.
  abbrev pub received : ℕ → PipeTxn → PipeTxn
  received n txn = record {
    available = txn.available - n;
    data_txn = record txn.data_txn { flow_current = txn.data_txn.flow_current + n };
  }

  -- If a strict majority of the senders of a valid duct offer the same messages, and the circular buffer
  -- has room for those that are not received yet, the first loop of stage 3 ends, within as many rounds
  -- as there are messages left and one, and aborts nowhere; the buffer then holds what it held, and the
  -- messages behind that, in order.
  pub pull_pipe_lem :
      (fuel : ℕ) (rest : List Packet) (txn : PipeTxn) (circ : CircBuf Packet) (q : List Packet)
      → IsReceiving pipe.dataflow txn.data_txn
      → Offers pipe.dataflow txn.data_txn.replica_id good ps
      → drop txn.data_txn.flow_current ps ≡ rest
      → Represents circ q (length rest)
      → length q + length rest ≤ circ.element_count
      → length rest < fuel
      → (circ' : CircBuf Packet) × (pull_pipe fuel pipe txn circ
          ≡ ok (received (length rest) txn, circ'))
        × Represents circ' (q ++ rest) 0
  unfolding pull_pipe pipe_receive_message
  pull_pipe_lem zero rest txn circ q u all split rep room h = absurd (omega arith)
  pull_pipe_lem (suc fuel) [] txn circ q u all split rep room h =
      let over = drop-nil txn.data_txn.flow_current ps split in
      let same : txn.data_txn.flow_current + 0 ≡ txn.data_txn.flow_current = omega arith in
      let left : txn.available - 0 ≡ txn.available = omega arith in
      elim (dec_lt (length q) circ.element_count) [
        | yes more ↦ (
          circ,
          rw
              (
                write_peek-room circ q rep more,
                receive_last pipe.dataflow v good ps quorum few txn.data_txn u all over,
                same,
                left,
              )
              refl,
          rw (append-nil q) rep,
        )
        | no stop ↦ (
          circ,
          rw (write_peek-full circ q rep (omega arith), same, left) refl,
          rw (append-nil q) rep,
        )
      ]
  pull_pipe_lem (suc fuel) (p ∷ rest) txn circ q u all split rep room h =
      let (here, later) = drop-cons txn.data_txn.flow_current ps p rest split in
      let inside = get_elem?-some ps txn.data_txn.flow_current p here in
      let (circ', e, w) =
        pull_pipe_lem fuel rest (received 1 txn) (filled circ p) (q ++ p ∷ [])
          (record { receiving = u.receiving; replica_in = u.replica_in; flow_in = omega arith }) all
          later (filled-Represents circ q p (length rest) rep (omega arith))
          (omega (arith, length-append q (p ∷ []))) (omega arith) in
      let next : txn.data_txn.flow_current + 1 + length rest
          ≡ txn.data_txn.flow_current + suc (length rest) =
        omega arith in
      let fewer : txn.available - 1 - length rest ≡ txn.available - suc (length rest) =
        omega arith in
      (
        circ',
        rw
            (
              write_peek-room circ q rep (omega arith),
              receive_next pipe.dataflow v good ps quorum few txn.data_txn u all p here
                  (omega arith),
              write_done-fill circ q p (length rest) rep (omega arith),
              e,
              next,
              fewer,
            )
            refl,
        rw (← append_assoc q (p ∷ []) rest) w,
      )
