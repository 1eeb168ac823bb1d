-- ===== src/Flight/Comm/Reception.antt =====
-- A telecommand from the uplink pipe to the packet (flight/comm.c over synch/pipebuf.c).
use hailburst.Prelude.{
  ℕ, ◌+◌, ◌≤◌, ◌≡◌, refl, ◌∙◌, Bool, false, List, ◌++◌, Option, some, length, Outcome, ok, ◌>>=◌,
}
use hailburst.Synch.Duct.{Packet, majority_threshold}
use hailburst.Synch.Duct.Offer.{IsValid}
use hailburst.Synch.Duct.Receive.{prepared, Offers, count_good}
use hailburst.Synch.Pipe.{Pipe, pipe_message_size, pipe_max_flow}
use hailburst.Synch.Pipe.Filling.{
  IsReceiver, AllSmall, bytes_of, refills, pipe_receiver_prepare_lem,
}
use hailburst.Flight.Comm.Decode.{
  CommPacket, CommDec, comm_dec_prepare, comm_dec_decode, comm_scratch_size, comm_cmd_magic_num,
}
use hailburst.Flight.Comm.Frame.{frame, checksummed}
use hailburst.Flight.Comm.Symbols.{reading}
use hailburst.Flight.Comm.Packets.{InRange, Narrow}
use hailburst.Flight.Comm.Uplink.{comm_dec_decode-frame}

-- What a client does first in a cycle: take in the uplink's bytes, and decode a packet.
unfoldable pub prepare_decode :
    (ℕ → List ℕ → ℕ) → (ℕ → ℕ) → Pipe → CommDec → Outcome (Pipe × CommDec × Option CommPacket)
prepare_decode crc32 now pipe dec = comm_dec_prepare now pipe dec >>= λ (pipe', dec').
    comm_dec_decode crc32 dec' >>= λ (dec'', found). ok (pipe', dec'', found)

module _ (crc32 : ℕ → List ℕ → ℕ) (narrow : Narrow crc32) (packet : CommPacket)
    (range : InRange packet) (short : 20 + length packet.data_bytes ≤ comm_scratch_size)
    (now : ℕ → ℕ) (pipe : Pipe) (v : IsValid pipe.dataflow) (some_size : 1 ≤ pipe_message_size pipe)
    (dec : CommDec) (u : IsReceiver pipe dec.uplink) (outside : dec.decode_in_progress ≡ false)
    (good : ℕ → Bool) (ps : List Packet)
    (quorum : majority_threshold pipe.dataflow ≤ count_good good pipe.dataflow.sender_replicas 0)
    (small : AllSmall (pipe_message_size pipe) ps)
    (all : Offers pipe.dataflow dec.uplink.replica_id good ps)
    (asked : pipe.last_requested dec.uplink.replica_id ≤ pipe_max_flow pipe)
    (few : length ps ≤ refills pipe dec.uplink) (rest : List ℕ)
    (complete : dec.uplink.unread ++ bytes_of ps
      ≡ frame crc32 comm_cmd_magic_num packet ++ rest) where
  -- On a valid pipe, if the bytes that a receiver has not read and those of the messages that a strict
  -- majority of the senders offer it, which are no more than it has room for, make up the frame of a
  -- packet and more, and the decoder is not inside of another packet, then taking the bytes in and
  -- decoding gives that packet, without an abort and with no error counted, and leaves the bytes behind
  -- the frame.
  pub prepare_decode_lem :
      (pipe' : Pipe) × (dec' : CommDec) × (prepare_decode crc32 now pipe dec
        ≡ ok (pipe', dec', some packet))
      × (dec'.uplink.unread ≡ rest)
      × (dec'.err_count ≡ 0)
      × (dec'.decode_in_progress ≡ false)
  unfolding prepare_decode comm_dec_prepare
  prepare_decode_lem =
      let (r, e, bytes, t, w) =
        pipe_receiver_prepare_lem now pipe v some_size dec.uplink u good ps quorum small all asked
          few in
      let dec₁ : CommDec = record dec { uplink = r; err_count = 0 } in
      let decoded =
        comm_dec_decode-frame crc32 narrow packet range short dec₁ rest outside (bytes ∙ complete)
          w.inside in
      let dec₂ : CommDec = record dec₁ {
        uplink = reading r (r.scratch_offset + length (frame crc32 comm_cmd_magic_num packet)) rest;
        decode_buffer = checksummed crc32 comm_cmd_magic_num packet;
        decode_in_progress = false;
      } in
      (
        record pipe { dataflow = prepared now pipe.dataflow dec.uplink.replica_id },
        dec₂,
        rw (e, decoded) refl,
        refl,
        refl,
        refl,
      )
