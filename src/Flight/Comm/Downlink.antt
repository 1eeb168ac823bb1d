-- ===== src/Flight/Comm/Downlink.antt =====
-- A telemetry packet from the encoder to the downlink pipe (flight/comm.c over synch/pipebuf.c).
use mathlib.Core.List.{map}
use hailburst.Prelude.{
  ℕ, ◌+◌, ◌≤◌, ◌<◌, ◌≡◌, refl, Bool, true, List, ◌++◌, Option, length, get_elem?, Outcome, ok,
  ◌>>=◌, arith, le→leb, length-append,
}
use hailburst.Synch.Duct.{Packet, majority_threshold}
use hailburst.Synch.Duct.Offer.{offered}
use hailburst.Synch.Duct.Receive.{Offers, count_good}
use hailburst.Synch.Duct.Send.{sent}
use hailburst.Synch.Pipe.{Pipe, pipe_message_size, pipe_max_flow}
use hailburst.Synch.Pipe.Sending.{chunks, concat, left_over, stamped}
use hailburst.Synch.Pipe.Commit.{IsPipe, statuses, allowance, pipe_sender_commit_lem}
use hailburst.Flight.Comm.Decode.{CommPacket}
use hailburst.Flight.Comm.Encode.{
  CommEnc, expected_length, comm_tlm_magic_num, comm_enc_encode, comm_enc_commit,
}
use hailburst.Flight.Comm.Frame.{Extends, frame, length-frame-le, comm_enc_encode_lem}

-- What a client does last in a cycle: encode a packet, and send what the downlink takes.
unfoldable pub encode_commit :
    (ℕ → List ℕ → ℕ) → (ℕ → ℕ) → Pipe → CommEnc → CommPacket → Outcome (Pipe × CommEnc × Bool)
encode_commit crc32 now pipe enc packet = comm_enc_encode crc32 enc packet >>= λ (enc', taken).
    comm_enc_commit now pipe enc' >>= λ (pipe', enc''). ok (pipe', enc'', taken)

module _ (crc32 : ℕ → List ℕ → ℕ) (extends : Extends crc32) (packet : CommPacket) (now : ℕ → ℕ)
    (pipe : Pipe) (v : IsPipe pipe) (enc : CommEnc)
    (own : enc.downlink.replica_id < pipe.dataflow.sender_replicas)
    (room : length enc.downlink.scratch + expected_length packet ≤ enc.downlink.scratch_capacity)
    (good : ℕ → Bool)
    (quorum : majority_threshold pipe.pressure ≤ count_good good pipe.pressure.sender_replicas 0)
    (status : Option Packet)
    (all : Offers pipe.pressure enc.downlink.replica_id good (statuses status))
    (allowed : allowance status ≤ pipe_max_flow pipe) where
  abbrev pending : List ℕ
  pending = enc.downlink.scratch ++ frame crc32 comm_tlm_magic_num packet

  abbrev messages : List (List ℕ)
  messages = chunks (pipe_message_size pipe) (allowance status) pending

  -- On a valid pipe, with a checksum that can be taken in parts, where there is room for a packet,
  -- and a strict majority of the receivers give the sender the same status, which allows no more
  -- messages than the pipe's flow, encoding the packet and committing abort nowhere; every receiver
  -- is then offered messages that, with the bytes that the encoder keeps, are what it had to send
  -- before and the packet's frame behind that, in this order.
  pub encode_commit_lem :
      (pipe' : Pipe) × (enc' : CommEnc) × (encode_commit crc32 now pipe enc packet
        ≡ ok (pipe', enc', true))
      × ((r k : ℕ)
          → r < pipe.dataflow.receiver_replicas
          → offered pipe'.dataflow r k enc.downlink.replica_id
            ≡ get_elem? (map sent (map stamped messages)) k)
      × (concat messages ++ enc'.downlink.scratch
          ≡ enc.downlink.scratch ++ frame crc32 comm_tlm_magic_num packet)
  unfolding encode_commit comm_enc_commit
  encode_commit_lem =
      let s = record enc.downlink { scratch = pending } in
      let small : length pending ≤ enc.downlink.scratch_capacity = omega (
        arith,
        length-append enc.downlink.scratch (frame crc32 comm_tlm_magic_num packet),
        length-frame-le crc32 extends packet,
        room,
      ) in
      let encoded = comm_enc_encode_lem crc32 extends packet enc (omega arith) (omega arith) in
      let (pipe', e, mine, others, split) =
        pipe_sender_commit_lem now pipe v s own small good quorum status all allowed in
      (
        pipe',
        record {
          downlink = record s {
            scratch = left_over (pipe_message_size pipe) (allowance status) pending;
          };
        },
        rw (encoded, le→leb _ _ room, e) refl,
        mine,
        split,
      )
