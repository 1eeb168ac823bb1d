-- ===== src/Flight/Comm/Fields.antt =====
-- The fields of a packet in a buffer, as `comm_packet_decode` reads them (flight/comm.c).
use mathlib.Core.List.{append_assoc}
use hailburst.Prelude.{
  ℕ, ◌+◌, ◌-◌, ◌*◌, ◌^◌, ◌≤◌, ◌<◌, ◌≡◌, refl, sym, ◌∙◌, not, List, [], ◌∷◌, ◌++◌, none, some, ◌==◌,
  ==_refl, if◌then◌else◌, length, length-append, take, drop, take-append_length, le→ltb, lt→ltb,
  of_be32, arith,
}
use hailburst.Flight.Comm.Decode.{CommPacket, comm_cmd_magic_num, comm_packet_decode}

-- The numbers fit into their fields.
pub record InRange (packet : CommPacket) : Type 0 where
  pub id_range : packet.cmd_tlm_id < 2 ^ 32
  pub time_range : packet.timestamp_ns < 2 ^ 64

-- A checksum is a number of 32 bits.
abbrev pub Narrow : (ℕ → List ℕ → ℕ) → Type 0
Narrow crc32 = (xs : List ℕ) → crc32 0 xs < 2 ^ 32

drop-append_length : (xs ys : List ℕ) → drop (length xs) (xs ++ ys) ≡ ys
drop-append_length [] ys = refl
drop-append_length (x ∷ xs) ys = drop-append_length xs ys

take_at :
    (n k : ℕ) (buffer before inside behind : List ℕ)
    → buffer ≡ before ++ (inside ++ behind)
    → length before ≡ n
    → length inside ≡ k
    → take k (drop n buffer) ≡ inside
take_at n k buffer before inside behind e en ek =
    rw
      (
        e,
        ← en,
        ← ek,
        drop-append_length before (inside ++ behind),
        take-append_length inside behind,
      )
      refl

abbrev pub the_packet : ℕ → ℕ → List ℕ → CommPacket
the_packet id time payload = record { cmd_tlm_id = id; timestamp_ns = time; data_bytes = payload }

-- What the decoder makes of the fields it reads.
fields_read :
    (crc32 : ℕ → List ℕ → ℕ) (buffer m i h l payload covered c : List ℕ)
    → 20 ≤ length buffer
    → take 4 buffer ≡ m
    → take 4 (drop 4 buffer) ≡ i
    → take 4 (drop 8 buffer) ≡ h
    → take 4 (drop 12 buffer) ≡ l
    → take (length buffer - 20) (drop 16 buffer) ≡ payload
    → take (length buffer - 4) buffer ≡ covered
    → drop (length buffer - 4) buffer ≡ c
    → comm_packet_decode crc32 buffer ≡ (
        if not (of_be32 m == comm_cmd_magic_num)
        then none
        else if not (of_be32 c == crc32 0 covered)
        then none
        else some (the_packet (of_be32 i) (of_be32 h * 2 ^ 32 + of_be32 l) payload))
unfolding comm_packet_decode
fields_read crc32 buffer m i h l payload covered c long em ei eh el ep ev ec =
    rw (le→ltb _ _ long, ← em, ← ei, ← eh, ← el, ← ep, ← ev, ← ec) refl

-- The fields of a buffer in their order.
module _ (crc32 : ℕ → List ℕ → ℕ) (m i h l payload c : List ℕ) (four_m : length m ≡ 4)
    (four_i : length i ≡ 4) (four_h : length h ≡ 4) (four_l : length l ≡ 4)
    (four_c : length c ≡ 4) where
  abbrev covered : List ℕ
  covered = m ++ i ++ h ++ l ++ payload

  abbrev whole : List ℕ
  whole = covered ++ c

  length-covered : length covered ≡ 16 + length payload
  length-covered = omega (
    arith,
    length-append (m ++ i ++ h ++ l) payload,
    length-append (m ++ i ++ h) l,
    length-append (m ++ i) h,
    length-append m i,
  )

  length-whole : length whole ≡ 20 + length payload
  length-whole = omega (arith, length-covered, length-append covered c)

  abbrev found : CommPacket
  found = the_packet (of_be32 i) (of_be32 h * 2 ^ 32 + of_be32 l) payload

  pub comm_packet_decode-whole : comm_packet_decode crc32 whole ≡ (
      if not (of_be32 m == comm_cmd_magic_num)
      then none
      else if not (of_be32 c == crc32 0 covered)
      then none
      else some found)
  comm_packet_decode-whole =
      let less_crc : length whole - 4 ≡ length covered =
        omega (arith, length-whole, length-covered) in
      let less_all : length whole - 20 ≡ length payload = omega (arith, length-whole) in
      let before_payload = append_assoc (m ++ i ++ h ++ l) payload c in
      let before_l = before_payload ∙ append_assoc (m ++ i ++ h) l (payload ++ c) in
      let before_h = before_l ∙ append_assoc (m ++ i) h (l ++ (payload ++ c)) in
      let before_i = before_h ∙ append_assoc m i (h ++ (l ++ (payload ++ c))) in
      fields_read crc32 whole m i h l payload covered c (omega (arith, length-whole))
        (take_at 0 4 whole [] m (i ++ (h ++ (l ++ (payload ++ c)))) before_i refl four_m)
        (take_at 4 4 whole m i (h ++ (l ++ (payload ++ c))) before_i four_m four_i)
        (take_at 8 4 whole (m ++ i) h (l ++ (payload ++ c)) before_h
          (omega (arith, length-append m i)) four_h)
        (take_at 12 4 whole (m ++ i ++ h) l (payload ++ c) before_l
          (omega (arith, length-append (m ++ i) h, length-append m i)) four_l)
        (take_at 16 (length whole - 20) whole (m ++ i ++ h ++ l) payload c before_payload
          (omega
            (arith, length-append (m ++ i ++ h) l, length-append (m ++ i) h, length-append m i))
          (sym less_all))
        (rw less_crc (take-append_length covered c)) (rw less_crc (drop-append_length covered c))

-- Both tests pass, and the fields are those of the packet.
pub accepted :
    (magic check computed id time : ℕ) (packet : CommPacket)
    → magic ≡ comm_cmd_magic_num
    → check ≡ computed
    → id ≡ packet.cmd_tlm_id
    → time ≡ packet.timestamp_ns
    → (if not (magic == comm_cmd_magic_num)
        then none
        else if not (check == computed)
        then none
        else some (the_packet id time packet.data_bytes))
      ≡ some packet
accepted magic check computed id time packet em ec ei et =
    rw (em, ec, ==_refl computed, ei, et) refl

-- Only where both tests pass is there a packet.
pub accepted_only :
    (magic check computed : ℕ) (found packet : CommPacket)
    → (if not (magic == comm_cmd_magic_num)
        then none
        else if not (check == computed)
        then none
        else some found)
      ≡ some packet
    → (magic ≡ comm_cmd_magic_num) × (check ≡ computed) × (found ≡ packet)
accepted_only magic check computed found packet e = ground arith

pub comm_packet_decode-short :
    (crc32 : ℕ → List ℕ → ℕ) (buffer : List ℕ)
    → length buffer < 20
    → comm_packet_decode crc32 buffer ≡ none
unfolding comm_packet_decode
comm_packet_decode-short crc32 buffer h = rw (lt→ltb _ _ h) refl
