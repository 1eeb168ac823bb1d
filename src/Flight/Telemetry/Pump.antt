-- ===== src/Flight/Telemetry/Pump.antt =====
-- telemetry_pump of flight/telemetry.c. A slot of a circular buffer is the packet that was received into
-- it, and the number and the data are read out of its bytes.
use hailburst.Prelude.{
  ℕ, zero, suc, ◌+◌, ◌-◌, ◌%◌, ◌^◌, Bool, true, false, List, [], ◌∷◌, none, some, ltb, leb,
  if◌then◌else◌, take, drop, update, be32, of_le32, Outcome, ok, aborted, ◌>>=◌, ◌>>◌, assert,
}
use hailburst.Synch.Duct.{Duct, Txn, Packet, receive_prepare, receive_message, receive_commit}
use hailburst.Synch.Pipe.{
  Pipe, PipeTxn, pipe_receive_prepare, pipe_receive_message, pipe_receive_commit,
}
use hailburst.Synch.Circular.{
  CircBuf, reset, read_peek, read_done, write_avail, write_peek, write_done,
}
use hailburst.Flight.Comm.{
  CommPacket, CommEnc, comm_enc_reset, comm_enc_prepare, comm_enc_encode, comm_enc_commit,
}
use hailburst.Flight.Clock.{Clock, clock_mission_adjust}
use hailburst.Flight.Telemetry.Submit.{max_async_size, max_sync_size}
use hailburst.Flight.Telemetry.Messages.{tlm_dropped_tid}
use hailburst.Vivid.Watchdog.{watchdog_indicate}

-- `tlm_registration_replica_t`: a duct, or a pipe with its circular buffer.
pub data TlmRegistration : Type 0 where
  on_duct : Duct → TlmRegistration
  on_pipe : Pipe → CircBuf Packet → TlmRegistration

-- `tlm_replica_t`
pub record TlmReplica : Type 0 where
  pub async_dropped : ℕ
  pub replica_id : ℕ
  pub comm_encoder : CommEnc
  pub registrations : List TlmRegistration
  pub aspect : Duct

-- The first loop, after a restart.
abbrev pub reset_buffers : List TlmRegistration → List TlmRegistration
reset_buffers [] = []
reset_buffers (on_duct d ∷ rest) = on_duct d ∷ reset_buffers rest
reset_buffers (on_pipe p circ ∷ rest) = on_pipe p (reset circ) ∷ reset_buffers rest

abbrev pub restarted : Bool → TlmReplica → TlmReplica
restarted false ts = ts
restarted true ts = record ts {
  comm_encoder = comm_enc_reset ts.comm_encoder;
  registrations = reset_buffers ts.registrations;
}

-- The part of the state that a transmission changes.
pub record Sending : Type 0 where
  pub encoder : CommEnc
  pub dropped : ℕ
  pub watchdog_ok : Bool

module _ (clock : Clock) where
  -- The packet for a message with up to `max_size` bytes of data; the subtraction of the header's
  -- length wraps.
  unfoldable pub packet_for : ℕ → Packet → Outcome CommPacket
  packet_for max_size p =
      let data_len = (p.size + (2 ^ 32 - 4)) % 2 ^ 32 in
      assert (leb data_len max_size)
      >> ok (record {
        cmd_tlm_id = of_le32 (take 4 p.bytes);
        timestamp_ns = clock_mission_adjust clock p.timestamp;
        data_bytes = take data_len (drop 4 p.bytes);
      })

-- The first loop of stage 3: from the pipe into the circular buffer, in which each round fills a slot.
unfoldable pub pull_pipe : ℕ → Pipe → PipeTxn → CircBuf Packet → Outcome (PipeTxn × CircBuf Packet)
pull_pipe zero pipe txn circ = aborted
pull_pipe (suc fuel) pipe txn circ = write_peek circ 0 >>= λ slot. elim slot [
  | none ↦ ok (txn, circ)
  | some place ↦ pipe_receive_message pipe txn >>= λ (txn', found). elim found [
    | none ↦ ok (txn', circ)
    | some p ↦
        write_done (record circ { element_storage = update circ.element_storage place p }) 1
        >>= λ circ'. pull_pipe fuel pipe txn' circ'
  ]
]

module _ (crc32 : ℕ → List ℕ → ℕ) (clock : Clock) where
  -- Stage 1: the report on dropped telemetry.
  unfoldable pub report_dropped : ℕ → Sending → Outcome Sending
  report_dropped epoch s =
      let packet : CommPacket = record {
        cmd_tlm_id = tlm_dropped_tid;
        timestamp_ns = clock_mission_adjust clock epoch;
        data_bytes = be32 s.dropped;
      } in
      let reported =
        (comm_enc_encode crc32 s.encoder packet >>= λ (enc, accepted).
        ok (record s { encoder = enc; dropped = if accepted then 0 else s.dropped })) in
      if ltb 0 s.dropped then reported else ok s

  -- What stage 2 does with a message.
  unfoldable pub transmit_async : Sending → Packet → Outcome Sending
  unfolding packet_for
  transmit_async s p = do
    packet ← packet_for clock max_async_size p
    (enc, accepted) ← comm_enc_encode crc32 s.encoder packet
    ok (record {
      encoder = enc;
      dropped = if accepted then s.dropped else (s.dropped + 1) % 2 ^ 32;
      watchdog_ok = if accepted then true else s.watchdog_ok;
    })

  -- The loop of stage 2 over the messages of a duct.
  unfoldable pub drain_duct : ℕ → Duct → Txn → Sending → Outcome (Txn × Sending)
  unfolding transmit_async
  drain_duct zero d t s = aborted
  drain_duct (suc fuel) d t s = receive_message d t >>= λ (t', found). elim found [
    | none ↦ ok (t', s)
    | some p ↦ transmit_async s p >>= λ s'. drain_duct fuel d t' s'
  ]

  -- The second loop: out of the circular buffer, until the encoder takes no more.
  unfoldable pub push_slots : ℕ → CircBuf Packet → CommEnc → Outcome (CircBuf Packet × CommEnc)
  unfolding packet_for
  push_slots zero circ enc = aborted
  push_slots (suc fuel) circ enc = read_peek circ 0 >>= λ slot. elim slot [
    | none ↦ ok (circ, enc)
    | some place ↦ packet_for clock max_sync_size (circ.element_storage place) >>= λ packet.
        comm_enc_encode crc32 enc packet >>= λ (enc', accepted). elim accepted [
          | false ↦ ok (circ, enc')
          | true ↦ read_done circ 1 >>= λ circ'. push_slots fuel circ' enc'
        ]
  ]

module _ (crc32 : ℕ → List ℕ → ℕ) (now : ℕ → ℕ) (clock : Clock) where
  -- Stage 2: asynchronous telemetry.
  unfoldable pub pump_async :
      ℕ → List TlmRegistration → Sending → Outcome (List TlmRegistration × Sending)
  unfolding drain_duct
  pump_async replica_id [] s = ok ([], s)
  pump_async replica_id (on_pipe p circ ∷ rest) s = do
    (rest', s') ← pump_async replica_id rest s
    ok (on_pipe p circ ∷ rest', s')
  pump_async replica_id (on_duct d ∷ rest) s = do
    (d₁, t) ← receive_prepare now d replica_id
    (t', s₁) ← drain_duct crc32 clock (d₁.max_flow + 1) d₁ t s
    (d₂, _) ← receive_commit d₁ t'
    (rest', s₂) ← pump_async replica_id rest s₁
    ok (on_duct d₂ ∷ rest', s₂)

  -- Stage 3: synchronous telemetry.
  unfoldable pub pump_sync :
      ℕ → List TlmRegistration → CommEnc → Outcome (List TlmRegistration × CommEnc)
  unfolding pull_pipe push_slots
  pump_sync replica_id [] enc = ok ([], enc)
  pump_sync replica_id (on_duct d ∷ rest) enc = do
    (rest', enc') ← pump_sync replica_id rest enc
    ok (on_duct d ∷ rest', enc')
  pump_sync replica_id (on_pipe p circ ∷ rest) enc = do
    (p₁, txn) ← pipe_receive_prepare now p replica_id
    (txn', circ₁) ← pull_pipe (circ.element_count + 1) p₁ txn circ
    (circ₂, enc₁) ← push_slots crc32 clock (circ.element_count + 1) circ₁ enc
    requested ← write_avail circ₂
    p₂ ← pipe_receive_commit now p₁ txn' (requested % 256)
    (rest', enc₂) ← pump_sync replica_id rest enc₁
    ok (on_pipe p₂ circ₂ ∷ rest', enc₂)

  -- `epoch` is what timer_epoch_ns() gives, and `restart` what clip_is_restart() gives.
  unfoldable pub telemetry_pump : ℕ → Bool → Pipe → TlmReplica → Outcome (Pipe × TlmReplica)
  unfolding report_dropped pump_async pump_sync
  telemetry_pump epoch restart downlink ts₀ = do
    let ts = restarted restart ts₀
    enc₀ ← comm_enc_prepare ts.comm_encoder
    s₁ ←
        report_dropped crc32 clock epoch
          (record { encoder = enc₀; dropped = ts.async_dropped; watchdog_ok = false })
    (regs₁, s₂) ← pump_async ts.replica_id ts.registrations s₁
    aspect ← watchdog_indicate now ts.aspect ts.replica_id s₂.watchdog_ok
    (regs₂, enc₁) ← pump_sync ts.replica_id regs₁ s₂.encoder
    (downlink', enc₂) ← comm_enc_commit now downlink enc₁
    ok (
      downlink',
      record ts {
        async_dropped = s₂.dropped;
        comm_encoder = enc₂;
        registrations = regs₂;
        aspect = aspect;
      },
    )
