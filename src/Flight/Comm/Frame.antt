-- ===== src/Flight/Comm/Frame.antt =====
-- The line form of a packet, as both ends of flight/comm.c have it, and what the encoder writes.
use mathlib.Core.List.{append_assoc, append-nil}
use hailburst.Prelude.{
  ℕ, suc, ◌+◌, ◌*◌, ◌/◌, ◌%◌, ◌^◌, ◌≤◌, ◌<◌, ◌≡◌, refl, ap, sym, ◌∙◌, inl, inr, true, false,
  Bool-cases, List, [], ◌∷◌, ◌++◌, leb, ◌==◌, ==_iff, if◌then◌else◌, length, length-append, be32,
  ok, arith, le→leb, leb-true, lt→ltb,
}
use hailburst.Synch.Pipe.{PipeSender, pipe_sender_reserve, pipe_sender_write_byte}
use hailburst.Flight.Comm.Decode.{
  CommPacket, byte_escape, byte_esc_escape, byte_esc_sop, byte_esc_eop,
}
use hailburst.Flight.Comm.Encode.{
  comm_tlm_magic_num, CommEnc, count_escapes, comm_enc_write_escaped, expected_length, fields,
  write_packet, comm_enc_encode,
}

abbrev pub escaped : ℕ → List ℕ
escaped b = if b == byte_escape then byte_escape ∷ byte_esc_escape ∷ [] else b ∷ []

-- Bytes inside a packet: each escape byte has a second byte behind it.
unfoldable pub escape_all : List ℕ → List ℕ
escape_all [] = []
escape_all (b ∷ bs) = escaped b ++ escape_all bs

-- What the checksum of a packet covers.
abbrev pub body : ℕ → CommPacket → List ℕ
body magic packet =
    be32 magic
    ++ be32 packet.cmd_tlm_id
    ++ be32 (packet.timestamp_ns / 2 ^ 32 % 2 ^ 32)
    ++ be32 (packet.timestamp_ns % 2 ^ 32)
    ++ packet.data_bytes

abbrev pub checksummed : (ℕ → List ℕ → ℕ) → ℕ → CommPacket → List ℕ
checksummed crc32 magic packet = body magic packet ++ be32 (crc32 0 (body magic packet))

unfoldable pub frame : (ℕ → List ℕ → ℕ) → ℕ → CommPacket → List ℕ
frame crc32 magic packet =
    byte_escape ∷ byte_esc_sop ∷ []
    ++ escape_all (checksummed crc32 magic packet)
    ++ byte_escape ∷ byte_esc_eop ∷ []

-- zlib's crc32 extends the checksum of the bytes so far.
abbrev pub Extends : (ℕ → List ℕ → ℕ) → Type 0
Extends crc32 = (xs ys : List ℕ) → crc32 (crc32 0 xs) ys ≡ crc32 0 (xs ++ ys)

pub escape_all-append : (xs ys : List ℕ) → escape_all (xs ++ ys) ≡ escape_all xs ++ escape_all ys
unfolding escape_all
escape_all-append [] ys = refl
escape_all-append (x ∷ xs) ys = rw (escape_all-append xs ys, append_assoc) refl

pub length-escape_all : (xs : List ℕ) → length (escape_all xs) ≡ length xs + count_escapes xs
unfolding escape_all
length-escape_all [] = refl
length-escape_all (x ∷ xs) = elim (Bool-cases (x == byte_escape)) [
  | inl e ↦ rw e (omega (arith, length-escape_all xs))
  | inr e ↦ rw e (omega (arith, length-escape_all xs))
]

pub count_escapes-le : (xs : List ℕ) → count_escapes xs ≤ length xs
count_escapes-le [] = omega arith
count_escapes-le (x ∷ xs) = elim (Bool-cases (x == byte_escape)) [
  | inl e ↦ rw e (omega (arith, count_escapes-le xs))
  | inr e ↦ rw e (omega (arith, count_escapes-le xs))
]

escape_all-le : (xs : List ℕ) → length (escape_all xs) ≤ 2 * length xs
escape_all-le xs = omega (arith, length-escape_all xs, count_escapes-le xs)

abbrev appended : PipeSender → List ℕ → PipeSender
appended s bytes = record s { scratch = s.scratch ++ bytes }

write_byte-eq :
    (s : PipeSender) (b : ℕ)
    → length s.scratch < s.scratch_capacity
    → pipe_sender_write_byte s b ≡ ok (appended s (b ∷ []))
unfolding pipe_sender_write_byte
write_byte-eq s b h = rw (lt→ltb _ _ h) refl

write_escaped-eq :
    (bytes : List ℕ) (s : PipeSender)
    → length s.scratch + length (escape_all bytes) ≤ s.scratch_capacity
    → comm_enc_write_escaped s bytes ≡ ok (appended s (escape_all bytes))
unfolding comm_enc_write_escaped escape_all
write_escaped-eq [] s h = ap (λ t. ok (record s { scratch = t })) (sym (append-nil s.scratch))
write_escaped-eq (b ∷ bs) s h = elim (Bool-cases (b == byte_escape)) [
  | inl e ↦
      let fits : length s.scratch + suc (suc (length (escape_all bs))) ≤ s.scratch_capacity =
        (rw e at h) in
      rw
        (
          e,
          write_byte-eq s b (omega arith),
          write_byte-eq (appended s (b ∷ [])) byte_esc_escape
              (omega (arith, length-append s.scratch (b ∷ []))),
          write_escaped-eq bs (appended (appended s (b ∷ [])) (byte_esc_escape ∷ [])) (
              omega (
                arith,
                length-append s.scratch (b ∷ []),
                length-append (s.scratch ++ b ∷ []) (byte_esc_escape ∷ []),
              )),
          append_assoc,
          append_assoc,
        )
        (rw ((==_iff b byte_escape).0 e) refl)
  | inr e ↦
      let fits : length s.scratch + suc (length (escape_all bs)) ≤ s.scratch_capacity =
        (rw e at h) in
      rw
        (
          e,
          write_byte-eq s b (omega arith),
          write_escaped-eq bs (appended s (b ∷ []))
              (omega (arith, length-append s.scratch (b ∷ []))),
          append_assoc,
        )
        refl
]

seven_parts :
    (a f d c : List ℕ)
    → a
        ++ byte_escape ∷ []
        ++ byte_esc_sop ∷ []
        ++ f
        ++ d
        ++ c
        ++ byte_escape ∷ []
        ++ byte_esc_eop ∷ []
      ≡ a ++ byte_escape ∷ byte_esc_sop ∷ (f ++ d ++ c ++ byte_escape ∷ byte_esc_eop ∷ [])
seven_parts a f d c =
    rw (append_assoc, append_assoc, append_assoc, append_assoc, append_assoc, append_assoc)
      (rw (append_assoc (f ++ d) c _, append_assoc f d _) refl)

fields-body :
    (packet : CommPacket) → fields packet ++ packet.data_bytes ≡ body comm_tlm_magic_num packet
fields-body packet = refl

module _ (crc32 : ℕ → List ℕ → ℕ) (extends : Extends crc32) (packet : CommPacket) where
  abbrev crc : List ℕ
  crc = be32 (crc32 (crc32 0 (fields packet)) packet.data_bytes)

  abbrev parts : List ℕ
  parts = escape_all (fields packet) ++ escape_all packet.data_bytes ++ escape_all crc

  parts-eq : parts ≡ escape_all (checksummed crc32 comm_tlm_magic_num packet)
  parts-eq =
      rw
        (
          extends (fields packet) packet.data_bytes,
          ← escape_all-append (fields packet) packet.data_bytes,
          ← escape_all-append (fields packet ++ packet.data_bytes)
              (be32 (crc32 0 (body comm_tlm_magic_num packet))),
        )
        refl

  frame-eq :
      frame crc32 comm_tlm_magic_num packet
      ≡ byte_escape ∷ byte_esc_sop ∷ (parts ++ byte_escape ∷ byte_esc_eop ∷ [])
  unfolding frame
  frame-eq =
      ap (λ t. byte_escape ∷ byte_esc_sop ∷ (t ++ byte_escape ∷ byte_esc_eop ∷ [])) (sym parts-eq)

  frame-length :
      length (frame crc32 comm_tlm_magic_num packet)
      ≡ 4
        + length (escape_all (fields packet))
        + length (escape_all packet.data_bytes)
        + length (escape_all crc)
  frame-length = omega (
    arith,
    ap (λ t. length t) frame-eq,
    length-append parts (byte_escape ∷ byte_esc_eop ∷ []),
    length-append (escape_all (fields packet) ++ escape_all packet.data_bytes) (escape_all crc),
    length-append (escape_all (fields packet)) (escape_all packet.data_bytes),
  )

  -- The estimate is never too small.
  pub length-frame-le : length (frame crc32 comm_tlm_magic_num packet) ≤ expected_length packet
  length-frame-le = omega (
    arith,
    frame-length,
    escape_all-le (fields packet),
    length-escape_all packet.data_bytes,
    escape_all-le crc,
  )

  module _ (s : PipeSender)
      (fits : length s.scratch + length (frame crc32 comm_tlm_magic_num packet)
        ≤ s.scratch_capacity) where
    room :
        length s.scratch
          + (4
              + length (escape_all (fields packet))
              + length (escape_all packet.data_bytes)
              + length (escape_all crc))
        ≤ s.scratch_capacity
    room = omega (arith, fits, frame-length)

    write_packet-eq :
        write_packet crc32 s packet ≡ ok (appended s (frame crc32 comm_tlm_magic_num packet))
    unfolding write_packet
    write_packet-eq =
        let s₁ = appended s (byte_escape ∷ []) in
        let s₂ = appended s₁ (byte_esc_sop ∷ []) in
        let s₃ = appended s₂ (escape_all (fields packet)) in
        let s₄ = appended s₃ (escape_all packet.data_bytes) in
        let s₅ = appended s₄ (escape_all crc) in
        let n₁ = length-append s.scratch (byte_escape ∷ []) in
        let n₂ = length-append s₁.scratch (byte_esc_sop ∷ []) in
        let n₃ = length-append s₂.scratch (escape_all (fields packet)) in
        let n₄ = length-append s₃.scratch (escape_all packet.data_bytes) in
        let n₅ = length-append s₄.scratch (escape_all crc) in
        let n₆ = length-append s₅.scratch (byte_escape ∷ []) in
        rw
          (
            write_byte-eq s byte_escape (omega (arith, room)),
            write_byte-eq s₁ byte_esc_sop (omega (arith, room)),
            write_escaped-eq (fields packet) s₂ (omega (arith, room)),
            write_escaped-eq packet.data_bytes s₃ (omega (arith, room)),
            write_escaped-eq crc s₄ (omega (arith, room)),
            write_byte-eq s₅ byte_escape (omega (arith, room)),
            write_byte-eq (appended s₅ (byte_escape ∷ [])) byte_esc_eop (omega (arith, room)),
          )
          (ap (λ t. ok (record s { scratch = t }))
            (seven_parts s.scratch (escape_all (fields packet)) (escape_all packet.data_bytes)
                (escape_all crc)
              ∙ ap (λ t. s.scratch ++ t) (sym frame-eq)))

pub length-checksummed :
    (crc32 : ℕ → List ℕ → ℕ) (magic : ℕ) (packet : CommPacket)
    → length (checksummed crc32 magic packet) ≡ 20 + length packet.data_bytes
length-checksummed crc32 magic packet =
    omega (arith, length-append packet.data_bytes (be32 (crc32 0 (body magic packet))))

module _ (crc32 : ℕ → List ℕ → ℕ) (extends : Extends crc32) (packet : CommPacket) (enc : CommEnc)
    (inside : length enc.downlink.scratch ≤ enc.downlink.scratch_capacity)
    (small : expected_length packet ≤ enc.downlink.scratch_capacity) where
  -- Where a packet could fit into the whole of the encoder's memory, encoding aborts nowhere. If the
  -- estimated length fits behind what is to be sent already, the packet's frame with the telemetry
  -- number is appended: the start of a packet, the header fields, the data and the checksum of both
  -- with their escape bytes doubled up, and the end of a packet; if not, nothing is written and the
  -- result is false.
  pub comm_enc_encode_lem : comm_enc_encode crc32 enc packet ≡ (
      if leb (length enc.downlink.scratch + expected_length packet) enc.downlink.scratch_capacity
      then ok (
        record {
          downlink = record enc.downlink {
            scratch = enc.downlink.scratch ++ frame crc32 comm_tlm_magic_num packet;
          };
        },
        true,
      )
      else ok (enc, false))
  unfolding comm_enc_encode pipe_sender_reserve
  comm_enc_encode_lem =
      elim (Bool-cases (
        leb (length enc.downlink.scratch + expected_length packet) enc.downlink.scratch_capacity)) [
          | inl e ↦
              rw
                (
                  le→leb _ _ small,
                  le→leb _ _ inside,
                  e,
                  write_packet-eq crc32 extends packet enc.downlink
                      (omega (arith, length-frame-le crc32 extends packet, leb-true _ _ e)),
                )
                refl
          | inr e ↦ rw (le→leb _ _ small, le→leb _ _ inside, e) refl
        ]
