-- ===== src/Flight/Comm/Packets.antt =====
-- Which bytes `comm_packet_decode` takes for a packet (flight/comm.c).
use hailburst.Prelude.{
  ℕ, ◌+◌, ◌*◌, ◌/◌, ◌%◌, ◌^◌, ◌≡◌, ◌↔◌, refl, ap, ◌∙◌, List, some, be32, of_be32, AllBytes,
  of_be32-be32, arith,
}
use hailburst.Flight.Comm.Decode.{CommPacket, comm_cmd_magic_num, comm_packet_decode}
use hailburst.Flight.Comm.Frame.{body, checksummed}
use hailburst.Flight.Comm.Fields.{accepted, comm_packet_decode-whole}
use hailburst.Flight.Comm.Sound.{comm_packet_decode_sound}
pub use hailburst.Flight.Comm.Fields.{InRange, Narrow}

module _ (crc32 : ℕ → List ℕ → ℕ) (narrow : Narrow crc32) (packet : CommPacket)
    (range : InRange packet) where
  seconds_first :
      packet.timestamp_ns / 2 ^ 32 % 2 ^ 32 * 2 ^ 32 + packet.timestamp_ns % 2 ^ 32
      ≡ packet.timestamp_ns
  seconds_first = omega (arith, range.time_range)

  -- A buffer with the fields and the data of a packet behind the command number, and their checksum
  -- behind them, is decoded as that packet.
  pub comm_packet_decode-checksummed :
      comm_packet_decode crc32 (checksummed crc32 comm_cmd_magic_num packet) ≡ some packet
  comm_packet_decode-checksummed =
      let covered_bytes = body comm_cmd_magic_num packet in
      comm_packet_decode-whole crc32 (be32 comm_cmd_magic_num) (be32 packet.cmd_tlm_id)
        (be32 (packet.timestamp_ns / 2 ^ 32 % 2 ^ 32)) (be32 (packet.timestamp_ns % 2 ^ 32))
        packet.data_bytes (be32 (crc32 0 covered_bytes)) refl refl refl refl refl
      ∙ accepted (of_be32 (be32 comm_cmd_magic_num)) (of_be32 (be32 (crc32 0 covered_bytes)))
          (crc32 0 covered_bytes) (of_be32 (be32 packet.cmd_tlm_id))
          (of_be32 (be32 (packet.timestamp_ns / 2 ^ 32 % 2 ^ 32)) * 2 ^ 32
            + of_be32 (be32 (packet.timestamp_ns % 2 ^ 32)))
          packet refl (of_be32-be32 (crc32 0 covered_bytes) (narrow covered_bytes))
          (of_be32-be32 packet.cmd_tlm_id range.id_range)
          (rw
            (
              of_be32-be32 (packet.timestamp_ns / 2 ^ 32 % 2 ^ 32) (omega arith),
              of_be32-be32 (packet.timestamp_ns % 2 ^ 32) (omega arith),
            )
            seconds_first)

-- Among buffers of bytes, exactly the fields and the data of a packet behind the command number, with
-- the checksum of all of these behind them, are decoded as a packet, and as that packet; for a
-- checksum of 32 bits.
pub comm_packet_decode_lem :
    (crc32 : ℕ → List ℕ → ℕ) (narrow : Narrow crc32) (buffer : List ℕ) (bytes : AllBytes buffer)
    (packet : CommPacket)
    → (comm_packet_decode crc32 buffer ≡ some packet)
      ↔ (InRange packet × (buffer ≡ checksummed crc32 comm_cmd_magic_num packet))
comm_packet_decode_lem crc32 narrow buffer bytes packet = (
  (λ decoded. comm_packet_decode_sound crc32 buffer bytes packet decoded),
  λ (range, e).
      ap (λ b. comm_packet_decode crc32 b) e
      ∙ comm_packet_decode-checksummed crc32 narrow packet range,
)
