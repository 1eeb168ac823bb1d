-- ===== src/Flight/Comm/Uplink.antt =====
-- A packet's frame on the uplink, as the decoder reads it (flight/comm.c).
use mathlib.Core.List.{append_assoc, append-nil}
use hailburst.Prelude.{
  ℕ, suc, ◌+◌, ◌-◌, ◌≤◌, ◌<◌, ◌≡◌, refl, ap, sym, ◌∙◌, inl, inr, Bool, true, false, Bool-cases,
  List, [], ◌∷◌, ◌++◌, some, ◌==◌, ==_iff, length, length-append, lt→leb, ok, arith,
}
use hailburst.Synch.Pipe.{scratch_avail}
use hailburst.Flight.Comm.Decode.{
  CommPacket, CommDec, byte_escape, byte_esc_escape, byte_esc_sop, byte_esc_eop, comm_scratch_size,
  comm_cmd_magic_num, comm_packet_decode, decode_symbol, decode_loop, comm_dec_decode,
}
use hailburst.Flight.Comm.Frame.{
  escaped, escape_all, length-escape_all, frame, checksummed, length-checksummed,
}
use hailburst.Flight.Comm.Packets.{InRange, Narrow, comm_packet_decode-checksummed}
use hailburst.Flight.Comm.Symbols.{reading, next-plain, next-escape}

module _ (crc32 : ℕ → List ℕ → ℕ) (dec : CommDec) where
  -- The decoder with other bytes to read, other bytes decoded, inside of a packet or not.
  abbrev state : ℕ → List ℕ → List ℕ → Bool → CommDec
  state place bytes decoded inside = record dec {
    uplink = reading dec.uplink place bytes;
    decode_buffer = decoded;
    decode_in_progress = inside;
  }

  -- A byte of a packet, as one or two bytes of the line.
  loop-byte :
      (fuel place : ℕ) (b : ℕ) (rest decoded : List ℕ)
      → place + length (escaped b ++ rest) ≤ dec.uplink.scratch_capacity
      → length decoded < comm_scratch_size
      → decode_loop crc32 (suc fuel) (state place (escaped b ++ rest) decoded true)
        ≡ decode_loop crc32 fuel (state (place + length (escaped b)) rest (decoded ++ b ∷ []) true)
  unfolding decode_loop decode_symbol
  loop-byte fuel place b rest decoded h k = elim (Bool-cases (b == byte_escape)) [
    | inl e ↦
        let same = (==_iff b byte_escape).0 e in
        let fits : place + length (byte_escape ∷ byte_esc_escape ∷ rest)
            ≤ dec.uplink.scratch_capacity =
          (rw same at h) in
        rw
          (
            same,
            next-escape dec.uplink place byte_esc_escape rest fits,
            lt→leb comm_scratch_size (length decoded) k,
          )
          refl
    | inr e ↦
        let fits : place + length (b ∷ rest) ≤ dec.uplink.scratch_capacity = (rw e at h) in
        rw
          (
            e,
            next-plain dec.uplink place b rest fits e,
            lt→leb comm_scratch_size (length decoded) k,
          )
          refl
  ]

  loop-bytes :
      (bytes : List ℕ) (fuel place : ℕ) (rest decoded : List ℕ)
      → place + length (escape_all bytes ++ rest) ≤ dec.uplink.scratch_capacity
      → length decoded + length bytes ≤ comm_scratch_size
      → decode_loop crc32
          (length bytes + fuel)
          (state place (escape_all bytes ++ rest) decoded true)
        ≡ decode_loop crc32 fuel
            (state (place + length (escape_all bytes)) rest (decoded ++ bytes) true)
  unfolding escape_all
  loop-bytes [] fuel place rest decoded h k =
      let same_fuel : 0 + fuel ≡ fuel = omega arith in
      let same_place : place + 0 ≡ place = omega arith in
      rw (same_fuel, same_place, append-nil decoded) refl
  loop-bytes (b ∷ bs) fuel place rest decoded h k =
      let next_fuel : suc (length bs) + fuel ≡ suc (length bs + fuel) = omega arith in
      let next_place : place + (length (escaped b) + length (escape_all bs))
          ≡ place + length (escaped b) + length (escape_all bs) =
        omega arith in
      let fits : place + length (escaped b ++ (escape_all bs ++ rest))
          ≤ dec.uplink.scratch_capacity =
        omega (arith, h, ap (λ t. length t) (append_assoc (escaped b) (escape_all bs) rest)) in
      let fits_rest : place + length (escaped b) + length (escape_all bs ++ rest)
          ≤ dec.uplink.scratch_capacity =
        omega (arith, fits, length-append (escaped b) (escape_all bs ++ rest)) in
      rw
        (
          next_fuel,
          append_assoc (escaped b) (escape_all bs) rest,
          length-append (escaped b) (escape_all bs),
          next_place,
          loop-byte (length bs + fuel) place b (escape_all bs ++ rest) decoded fits (omega arith),
          loop-bytes bs fuel (place + length (escaped b)) rest (decoded ++ b ∷ []) fits_rest
              (omega (arith, length-append decoded (b ∷ []))),
          append_assoc decoded (b ∷ []) bs,
        )
        refl

  -- The two bytes that start a packet, and the two that end it.
  loop-start :
      (fuel place : ℕ) (rest decoded : List ℕ)
      → place + length (byte_escape ∷ byte_esc_sop ∷ rest) ≤ dec.uplink.scratch_capacity
      → decode_loop crc32 (suc fuel) (state place (byte_escape ∷ byte_esc_sop ∷ rest) decoded false)
        ≡ decode_loop crc32 fuel (state (place + 2) rest [] true)
  unfolding decode_loop decode_symbol
  loop-start fuel place rest decoded h = rw (next-escape dec.uplink place byte_esc_sop rest h) refl

  loop-end :
      (fuel place : ℕ) (rest decoded : List ℕ) (packet : CommPacket)
      → place + length (byte_escape ∷ byte_esc_eop ∷ rest) ≤ dec.uplink.scratch_capacity
      → comm_packet_decode crc32 decoded ≡ some packet
      → decode_loop crc32 (suc fuel) (state place (byte_escape ∷ byte_esc_eop ∷ rest) decoded true)
        ≡ ok (state (place + 2) rest decoded false, some packet)
  unfolding decode_loop decode_symbol
  loop-end fuel place rest decoded packet h e =
      rw (next-escape dec.uplink place byte_esc_eop rest h, e) refl

  abbrev line_of : List ℕ → List ℕ → List ℕ
  line_of contents rest =
      byte_escape ∷ byte_esc_sop ∷ (escape_all contents ++ (byte_escape ∷ byte_esc_eop ∷ rest))

  loop-line :
      (fuel place : ℕ) (contents rest decoded : List ℕ) (packet : CommPacket)
      → place + length (line_of contents rest) ≤ dec.uplink.scratch_capacity
      → length contents ≤ comm_scratch_size
      → comm_packet_decode crc32 contents ≡ some packet
      → decode_loop crc32
          (suc (length contents + suc fuel))
          (state place (line_of contents rest) decoded false)
        ≡ ok (state (place + (4 + length (escape_all contents))) rest contents false, some packet)
  loop-line fuel place contents rest decoded packet h k e =
      let behind = byte_escape ∷ byte_esc_eop ∷ rest in
      let fits = length-append (escape_all contents) behind in
      let at_end : place + 2 + length (escape_all contents) + 2
          ≡ place + (4 + length (escape_all contents)) =
        omega arith in
      loop-start (length contents + suc fuel) place (escape_all contents ++ behind) decoded h
      ∙ loop-bytes contents (suc fuel) (place + 2) behind [] (omega arith) (omega arith)
      ∙ loop-end fuel (place + 2 + length (escape_all contents)) rest contents packet (omega arith)
          e
      ∙ ap (λ n. ok (state n rest contents false, some packet)) at_end

module _ (crc32 : ℕ → List ℕ → ℕ) (narrow : Narrow crc32) (packet : CommPacket)
    (range : InRange packet) (small : 20 + length packet.data_bytes ≤ comm_scratch_size)
    (dec : CommDec) (rest : List ℕ) (outside : dec.decode_in_progress ≡ false)
    (waiting : dec.uplink.unread ≡ frame crc32 comm_cmd_magic_num packet ++ rest)
    (inside : scratch_avail dec.uplink ≤ dec.uplink.scratch_capacity) where
  abbrev contents : List ℕ
  contents = checksummed crc32 comm_cmd_magic_num packet

  abbrev after : CommDec
  after = record dec {
    uplink =
        reading dec.uplink
          (dec.uplink.scratch_offset + length (frame crc32 comm_cmd_magic_num packet)) rest;
    decode_buffer = contents;
    decode_in_progress = false;
  }

  line-eq : dec.uplink.unread ≡ line_of crc32 dec contents rest
  unfolding frame
  line-eq =
      waiting
      ∙ ap (λ t. byte_escape ∷ byte_esc_sop ∷ t)
          (append_assoc (escape_all contents) (byte_escape ∷ byte_esc_eop ∷ []) rest)

  length-frame : length (frame crc32 comm_cmd_magic_num packet) ≡ 4 + length (escape_all contents)
  unfolding frame
  length-frame =
      omega (arith, length-append (escape_all contents) (byte_escape ∷ byte_esc_eop ∷ []))

  length-contents-le : length contents ≤ length (escape_all contents)
  length-contents-le = omega (arith, length-escape_all contents)

  line_length : length dec.uplink.unread ≡ 4 + length (escape_all contents) + length rest
  line_length = omega (
    arith,
    ap (λ t. length t) line-eq,
    length-append (escape_all contents) (byte_escape ∷ byte_esc_eop ∷ rest),
  )

  dec-eq :
      dec
      ≡ state crc32 dec dec.uplink.scratch_offset
          (line_of crc32 dec contents rest)
          dec.decode_buffer
          false
  dec-eq =
      ap (λ u. state crc32 dec dec.uplink.scratch_offset u dec.decode_buffer dec.decode_in_progress)
        line-eq
      ∙ ap
          (λ p.
            state crc32 dec dec.uplink.scratch_offset (line_of crc32 dec contents rest)
              dec.decode_buffer p)
          outside

  -- A packet whose numbers are in range, and which fits into the decode buffer, is decoded from its
  -- frame with the command number at the front of the uplink's bytes, where the decoder is not inside of
  -- another packet; exactly the frame is read, and nothing is counted as an error.
  pub comm_dec_decode-frame : comm_dec_decode crc32 dec ≡ ok (after, some packet)
  unfolding comm_dec_decode
  comm_dec_decode-frame =
      let spare = length dec.uplink.unread - (length contents + 1) in
      let fuel : length dec.uplink.unread + 1 ≡ suc (length contents + suc spare) =
        omega (arith, line_length, length-contents-le) in
      let fits : dec.uplink.scratch_offset + length (line_of crc32 dec contents rest)
          ≤ dec.uplink.scratch_capacity =
        omega (arith, inside, ap (λ t. length t) line-eq) in
      let fewer : length contents ≤ comm_scratch_size =
        omega (arith, small, length-checksummed crc32 comm_cmd_magic_num packet) in
      ap (λ n. decode_loop crc32 n dec) fuel
      ∙ ap (λ d. decode_loop crc32 (suc (length contents + suc spare)) d) dec-eq
      ∙ loop-line crc32 dec spare dec.uplink.scratch_offset contents rest dec.decode_buffer packet
          fits fewer (comm_packet_decode-checksummed crc32 narrow packet range)
      ∙ ap
          (λ n.
            ok (state crc32 dec (dec.uplink.scratch_offset + n) rest contents false, some packet))
          (sym length-frame)
