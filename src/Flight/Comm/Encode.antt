-- ===== src/Flight/Comm/Encode.antt =====
-- The sending half of flight/comm.c.
use hailburst.Prelude.{
  ℕ, ◌+◌, ◌*◌, ◌/◌, ◌%◌, ◌^◌, Bool, true, false, List, [], ◌∷◌, ◌++◌, ◌==◌, if◌then◌else◌, length,
  be32, Outcome, ok, ◌>>=◌,
}
use hailburst.Synch.Pipe.{
  Pipe, PipeSender, pipe_sender_reset, pipe_sender_prepare, pipe_sender_commit, pipe_sender_reserve,
  pipe_sender_write_byte,
}
use hailburst.Flight.Comm.Decode.{
  CommPacket, byte_escape, byte_esc_escape, byte_esc_sop, byte_esc_eop,
}

abbrev pub comm_tlm_magic_num : ℕ
comm_tlm_magic_num = 0x7313DA7A

-- `comm_enc_t`
pub record CommEnc : Type 0 where
  pub downlink : PipeSender

-- How many of the bytes are escapes.
abbrev pub count_escapes : List ℕ → ℕ
count_escapes [] = 0
count_escapes (b ∷ bs) = (if b == byte_escape then 1 else 0) + count_escapes bs

abbrev pub comm_enc_estimate_length : List ℕ → ℕ
comm_enc_estimate_length bytes = length bytes + count_escapes bytes

unfoldable pub comm_enc_write_escaped : PipeSender → List ℕ → Outcome PipeSender
comm_enc_write_escaped s [] = ok s
comm_enc_write_escaped s (di ∷ rest) = do
  s₁ ← pipe_sender_write_byte s di
  s₂ ← if di == byte_escape then pipe_sender_write_byte s₁ byte_esc_escape else ok s₁
  comm_enc_write_escaped s₂ rest

abbrev pub comm_enc_reset : CommEnc → CommEnc
comm_enc_reset enc = record { downlink = pipe_sender_reset enc.downlink }

unfoldable pub comm_enc_prepare : CommEnc → Outcome CommEnc
comm_enc_prepare enc = pipe_sender_prepare enc.downlink >>= λ s. ok (record { downlink = s })

abbrev pub expected_length : CommPacket → ℕ
expected_length packet = 2 + 4 * 4 * 2 + comm_enc_estimate_length packet.data_bytes + 4 * 2 + 2

-- The header fields as they stand in memory.
abbrev pub fields : CommPacket → List ℕ
fields packet =
    be32 comm_tlm_magic_num
    ++ be32 packet.cmd_tlm_id
    ++ be32 (packet.timestamp_ns / 2 ^ 32 % 2 ^ 32)
    ++ be32 (packet.timestamp_ns % 2 ^ 32)

-- What `comm_enc_encode` does where there is room.
unfoldable pub write_packet : (ℕ → List ℕ → ℕ) → PipeSender → CommPacket → Outcome PipeSender
write_packet crc32 s₀ packet = do
  s₁ ← pipe_sender_write_byte s₀ byte_escape
  s₂ ← pipe_sender_write_byte s₁ byte_esc_sop
  s₃ ← comm_enc_write_escaped s₂ (fields packet)
  s₄ ← comm_enc_write_escaped s₃ packet.data_bytes
  s₅ ← comm_enc_write_escaped s₄ (be32 (crc32 (crc32 0 (fields packet)) packet.data_bytes))
  s₆ ← pipe_sender_write_byte s₅ byte_escape
  pipe_sender_write_byte s₆ byte_esc_eop

unfoldable pub comm_enc_encode : (ℕ → List ℕ → ℕ) → CommEnc → CommPacket → Outcome (CommEnc × Bool)
comm_enc_encode crc32 enc packet = do
  room ← pipe_sender_reserve enc.downlink (expected_length packet)
  let written = (write_packet crc32 enc.downlink packet >>= λ s. ok (record { downlink = s }, true))
  if room then written else ok (enc, false)

unfoldable pub comm_enc_commit : (ℕ → ℕ) → Pipe → CommEnc → Outcome (Pipe × CommEnc)
comm_enc_commit now pipe enc =
    pipe_sender_commit now pipe enc.downlink >>= λ (pipe', s). ok (pipe', record { downlink = s })
