-- ===== src/Flight/Comm/Sound.antt =====
-- A buffer that `comm_packet_decode` takes for a packet, put together again from its fields
-- (flight/comm.c).
use mathlib.Core.List.{append_assoc}
use native.Mathlib.Decide.{dec_lt}
use mathlib.Core.Path.{subst}
use hailburst.Prelude.{
  ℕ, ◌+◌, ◌-◌, ◌*◌, ◌/◌, ◌%◌, ◌^◌, ◌≤◌, ◌<◌, ◌≡◌, refl, ap, sym, ◌∙◌, List, ◌++◌, some, length,
  length-take, length-drop, take, drop, take-drop, be32, of_be32, AllBytes, take-AllBytes,
  drop-AllBytes, be32-of_be32, of_be32-lt, arith,
}
use hailburst.Flight.Comm.Decode.{CommPacket, comm_cmd_magic_num, comm_packet_decode}
use hailburst.Flight.Comm.Frame.{checksummed}
use hailburst.Flight.Comm.Fields.{
  InRange, the_packet, comm_packet_decode-whole, accepted_only, comm_packet_decode-short,
}

-- The bytes of the fields put together again.
rebuilt :
    (crc32 : ℕ → List ℕ → ℕ) (m i h l payload c : List ℕ) (id time : ℕ)
    → be32 comm_cmd_magic_num ≡ m
    → be32 id ≡ i
    → be32 (time / 2 ^ 32 % 2 ^ 32) ≡ h
    → be32 (time % 2 ^ 32) ≡ l
    → be32 (crc32 0 (m ++ i ++ h ++ l ++ payload)) ≡ c
    → checksummed crc32 comm_cmd_magic_num (the_packet id time payload)
      ≡ m ++ i ++ h ++ l ++ payload ++ c
rebuilt crc32 m i h l payload c id time em ei eh el ec = rw (← ec, ← em, ← ei, ← eh, ← el) refl

module _ (crc32 : ℕ → List ℕ → ℕ) (buffer : List ℕ) (bytes : AllBytes buffer) (packet : CommPacket)
    (decoded : comm_packet_decode crc32 buffer ≡ some packet) where
  long : 20 ≤ length buffer
  long = elim (dec_lt (length buffer) 20) [
    | yes short ↦ let e = comm_packet_decode-short crc32 buffer short in cc
    | no enough ↦ omega arith
  ]

  abbrev rest₁ : List ℕ
  rest₁ = drop 4 buffer

  abbrev rest₂ : List ℕ
  rest₂ = drop 4 rest₁

  abbrev rest₃ : List ℕ
  rest₃ = drop 4 rest₂

  abbrev rest₄ : List ℕ
  rest₄ = drop 4 rest₃

  abbrev magic_field : List ℕ
  magic_field = take 4 buffer

  abbrev id_field : List ℕ
  id_field = take 4 rest₁

  abbrev high_field : List ℕ
  high_field = take 4 rest₂

  abbrev low_field : List ℕ
  low_field = take 4 rest₃

  abbrev data_field : List ℕ
  data_field = take (length rest₄ - 4) rest₄

  abbrev crc_field : List ℕ
  crc_field = drop (length rest₄ - 4) rest₄

  length-rest₄ : length rest₄ ≡ length buffer - 16
  length-rest₄ =
      omega
        (arith, length-drop 4 buffer, length-drop 4 rest₁, length-drop 4 rest₂, length-drop 4 rest₃)

  buffer-whole :
      magic_field ++ id_field ++ high_field ++ low_field ++ data_field ++ crc_field ≡ buffer
  buffer-whole =
      rw
        (
          append_assoc (magic_field ++ id_field ++ high_field ++ low_field) data_field crc_field,
          take-drop (length rest₄ - 4) rest₄,
          append_assoc (magic_field ++ id_field ++ high_field) low_field rest₄,
          take-drop 4 rest₃,
          append_assoc (magic_field ++ id_field) high_field rest₃,
          take-drop 4 rest₂,
          append_assoc magic_field id_field rest₂,
          take-drop 4 rest₁,
        )
        (take-drop 4 buffer)

  four_m : length magic_field ≡ 4
  four_m = omega (arith, length-take 4 buffer, long)

  four_i : length id_field ≡ 4
  four_i = omega (arith, length-take 4 rest₁, length-drop 4 buffer, long)

  four_h : length high_field ≡ 4
  four_h = omega (arith, length-take 4 rest₂, length-drop 4 rest₁, length-drop 4 buffer, long)

  four_l : length low_field ≡ 4
  four_l = omega (
    arith,
    length-take 4 rest₃,
    length-drop 4 rest₂,
    length-drop 4 rest₁,
    length-drop 4 buffer,
    long,
  )

  four_c : length crc_field ≡ 4
  four_c = omega (arith, length-drop (length rest₄ - 4) rest₄, length-rest₄, long)

  tests :
      (of_be32 magic_field ≡ comm_cmd_magic_num)
      × (of_be32 crc_field
          ≡ crc32 0 (magic_field ++ id_field ++ high_field ++ low_field ++ data_field))
      × (the_packet (of_be32 id_field) (of_be32 high_field * 2 ^ 32 + of_be32 low_field) data_field
          ≡ packet)
  tests =
      accepted_only (of_be32 magic_field) (of_be32 crc_field)
        (crc32 0 (magic_field ++ id_field ++ high_field ++ low_field ++ data_field))
        (the_packet (of_be32 id_field) (of_be32 high_field * 2 ^ 32 + of_be32 low_field) data_field)
        packet
        (sym (
            comm_packet_decode-whole crc32 magic_field id_field high_field low_field data_field
              crc_field four_m four_i four_h four_l four_c)
          ∙ ap (λ b. comm_packet_decode crc32 b) buffer-whole
          ∙ decoded)

  high_bytes : AllBytes high_field
  high_bytes = take-AllBytes 4 rest₂ (drop-AllBytes 4 rest₁ (drop-AllBytes 4 buffer bytes))

  low_bytes : AllBytes low_field
  low_bytes =
      take-AllBytes 4 rest₃
        (drop-AllBytes 4 rest₂ (drop-AllBytes 4 rest₁ (drop-AllBytes 4 buffer bytes)))

  id_bytes : AllBytes id_field
  id_bytes = take-AllBytes 4 rest₁ (drop-AllBytes 4 buffer bytes)

  crc_bytes : AllBytes crc_field
  crc_bytes = drop-AllBytes (length rest₄ - 4) rest₄ (
      drop-AllBytes 4 rest₃
        (drop-AllBytes 4 rest₂ (drop-AllBytes 4 rest₁ (drop-AllBytes 4 buffer bytes))))

  abbrev time_field : ℕ
  time_field = of_be32 high_field * 2 ^ 32 + of_be32 low_field

  times :
      (time_field / 2 ^ 32 % 2 ^ 32 ≡ of_be32 high_field)
      × (time_field % 2 ^ 32 ≡ of_be32 low_field)
      × (time_field < 2 ^ 64)
  times =
      let high = of_be32-lt high_field four_h high_bytes in
      let low = of_be32-lt low_field four_l low_bytes in (omega arith, omega arith, omega arith)

  buffer-checksummed :
      checksummed crc32 comm_cmd_magic_num (the_packet (of_be32 id_field) time_field data_field)
      ≡ buffer
  buffer-checksummed =
      rebuilt crc32 magic_field id_field high_field low_field data_field crc_field
        (of_be32 id_field) time_field
        (ap be32 (sym tests.0) ∙ be32-of_be32 magic_field four_m (take-AllBytes 4 buffer bytes))
        (be32-of_be32 id_field four_i id_bytes)
        (ap be32 times.0 ∙ be32-of_be32 high_field four_h high_bytes)
        (ap be32 times.1 ∙ be32-of_be32 low_field four_l low_bytes)
        (ap be32 (sym tests.1) ∙ be32-of_be32 crc_field four_c crc_bytes)
      ∙ buffer-whole

  pub comm_packet_decode_sound :
      InRange packet × (buffer ≡ checksummed crc32 comm_cmd_magic_num packet)
  comm_packet_decode_sound =
      subst (λ p. InRange p × (buffer ≡ checksummed crc32 comm_cmd_magic_num p)) tests.2
        (
          record { id_range = of_be32-lt id_field four_i id_bytes; time_range = times.2 },
          sym buffer-checksummed,
        )
