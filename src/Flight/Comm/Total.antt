-- ===== src/Flight/Comm/Total.antt =====
-- The decoder on arbitrary bytes (flight/comm.c).
use mathlib.Core.List.{append_assoc}
use mathlib.Core.Path.{subst}
use hailburst.Prelude.{
  ℕ, zero, suc, ◌+◌, ◌≤◌, ◌<◌, ◌≡◌, refl, ap, sym, ◌∙◌, inl, inr, Bool, true, false, not,
  Bool-cases, List, [], ◌∷◌, ◌++◌, Option, none, some, leb, if◌then◌else◌, length, length-append,
  leb-false, AllBytes, append-AllBytes, append-AllBytes_right, Outcome, ok, arith,
}
use hailburst.Synch.Pipe.{scratch_avail}
use hailburst.Flight.Comm.Decode.{
  CommPacket, CommDec, Symbol, byte, packet_start, packet_end, symbol_error, buffer_empty,
  decode_offset, comm_scratch_size, comm_cmd_magic_num, comm_packet_decode, decode_symbol,
  decode_outside, decode_inside, decode_round, unless_found, decode_loop, comm_dec_decode,
}
use hailburst.Flight.Comm.Frame.{checksummed}
use hailburst.Flight.Comm.Fields.{InRange}
use hailburst.Flight.Comm.Sound.{comm_packet_decode_sound}
use hailburst.Flight.Comm.Symbols.{ByteSymbol, is_empty, next_symbol_lem}

-- What the decoder keeps: its two buffers are inside of their memory, and hold bytes.
pub record IsDecoder (dec : CommDec) : Type 0 where
  pub uplink_in : scratch_avail dec.uplink ≤ dec.uplink.scratch_capacity
  pub decode_in : decode_offset dec ≤ comm_scratch_size
  pub uplink_bytes : AllBytes dec.uplink.unread
  pub decode_bytes : AllBytes dec.decode_buffer

either : {A : Type 0} (P : A → Type 0) (b : Bool) (x y : A) → P x → P y → P (if b then x else y)
either P true x y h k = h
either P false x y h k = k

module _ (crc32 : ℕ → List ℕ → ℕ) where
  -- What a symbol does to the decoder: it leaves the uplink alone, keeps the buffer inside, and a packet
  -- it completes is the one in the buffer.
  record Keeps (dec : CommDec) (next : CommDec × Option CommPacket) : Type 0 where
    same_uplink : next.0.uplink ≡ dec.uplink
    next_in : decode_offset next.0 ≤ comm_scratch_size
    next_bytes : AllBytes next.0.decode_buffer
    found_in :
        (p : CommPacket) → next.1 ≡ some p → comm_packet_decode crc32 next.0.decode_buffer ≡ some p

  module _ (dec : CommDec) (small : decode_offset dec ≤ comm_scratch_size)
      (bytes : AllBytes dec.decode_buffer) where
    outside-Keeps : (s : Symbol) → Keeps dec (decode_outside dec s, none)
    outside-Keeps packet_start = record {
      same_uplink = refl;
      next_in = omega arith;
      next_bytes = tt;
      found_in = λ p e. cc;
    }
    outside-Keeps (byte b) = record {
      same_uplink = refl;
      next_in = small;
      next_bytes = bytes;
      found_in = λ p e. cc;
    }
    outside-Keeps packet_end = record {
      same_uplink = refl;
      next_in = small;
      next_bytes = bytes;
      found_in = λ p e. cc;
    }
    outside-Keeps symbol_error = record {
      same_uplink = refl;
      next_in = small;
      next_bytes = bytes;
      found_in = λ p e. cc;
    }
    outside-Keeps buffer_empty = record {
      same_uplink = refl;
      next_in = small;
      next_bytes = bytes;
      found_in = λ p e. cc;
    }

    inside-Keeps : (s : Symbol) → ByteSymbol s → Keeps dec (decode_inside crc32 dec s)
    inside-Keeps packet_start h = record {
      same_uplink = refl;
      next_in = small;
      next_bytes = bytes;
      found_in = λ p e. cc;
    }
    inside-Keeps (byte b) h = elim (Bool-cases (leb comm_scratch_size (decode_offset dec))) [
      | inl e ↦
          rw e (record {
            same_uplink = refl;
            next_in = small;
            next_bytes = bytes;
            found_in = λ p f. cc;
          })
      | inr e ↦ rw e (record {
        same_uplink = refl;
        next_in = omega (arith, leb-false _ _ e, length-append dec.decode_buffer (b ∷ []));
        next_bytes = append-AllBytes dec.decode_buffer (b ∷ []) bytes (h, tt);
        found_in = λ p f. cc;
      })
    ]
    inside-Keeps packet_end h = record {
      same_uplink = refl;
      next_in = small;
      next_bytes = bytes;
      found_in = λ p e. e;
    }
    inside-Keeps symbol_error h = record {
      same_uplink = refl;
      next_in = small;
      next_bytes = bytes;
      found_in = λ p e. cc;
    }
    inside-Keeps buffer_empty h = record {
      same_uplink = refl;
      next_in = small;
      next_bytes = bytes;
      found_in = λ p e. cc;
    }

    decode_symbol-Keeps : (s : Symbol) → ByteSymbol s → Keeps dec (decode_symbol crc32 dec s)
    unfolding decode_symbol
    decode_symbol-Keeps s h =
        either (Keeps dec) (not dec.decode_in_progress) (decode_outside dec s, none)
          (decode_inside crc32 dec s) (outside-Keeps s) (inside-Keeps s h)

  round-some :
      (rest : CommDec → Outcome (CommDec × Option CommPacket)) (dec : CommDec) (s : Symbol)
      → is_empty s ≡ false
      → decode_round crc32 rest dec s ≡ unless_found rest (decode_symbol crc32 dec s)
  round-some rest dec (byte b) e = refl
  round-some rest dec packet_start e = refl
  round-some rest dec packet_end e = refl
  round-some rest dec symbol_error e = refl
  round-some rest dec buffer_empty e = cc

  round-none :
      (rest : CommDec → Outcome (CommDec × Option CommPacket)) (dec : CommDec) (s : Symbol)
      → is_empty s ≡ true
      → decode_round crc32 rest dec s ≡ ok (dec, none)
  round-none rest dec buffer_empty e = refl
  round-none rest dec (byte b) e = cc
  round-none rest dec packet_start e = cc
  round-none rest dec packet_end e = cc
  round-none rest dec symbol_error e = cc

  -- What a run of the loop comes to: it reads a front of the uplink's bytes. A packet that it finds
  -- is the one in the buffer; without one, it reads everything, or all but a last byte.
  pub record Decoded (dec dec' : CommDec) (found : Option CommPacket) : Type 0 where
    pub read_bytes : List ℕ
    pub uplink_split : dec.uplink.unread ≡ read_bytes ++ dec'.uplink.unread
    pub still : IsDecoder dec'
    pub stops : (found ≡ none) → length dec'.uplink.unread ≤ 1
    pub packet_of :
        (p : CommPacket) → found ≡ some p → comm_packet_decode crc32 dec'.decode_buffer ≡ some p

  next-IsDecoder :
      (dec : CommDec) (next : CommDec × Option CommPacket)
      → Keeps dec next
      → scratch_avail dec.uplink ≤ dec.uplink.scratch_capacity
      → AllBytes dec.uplink.unread
      → IsDecoder next.0
  next-IsDecoder dec next k h b = record {
    uplink_in = subst (λ u. scratch_avail u ≤ u.scratch_capacity) (sym k.same_uplink) h;
    decode_in = k.next_in;
    uplink_bytes = subst (λ u. AllBytes u.unread) (sym k.same_uplink) b;
    decode_bytes = k.next_bytes;
  }

  -- What a run of the loop gives.
  abbrev pub Run : CommDec → Outcome (CommDec × Option CommPacket) → Type 0
  Run dec result =
      (dec' : CommDec) × (found : Option CommPacket) × (result ≡ ok (dec', found))
      × Decoded dec dec' found

  -- A run behind the symbol whose bytes are `took`.
  after_symbol :
      (dec dec₁ : CommDec) (took : List ℕ) (rest : CommDec → Outcome (CommDec × Option CommPacket))
      (next : CommDec × Option CommPacket)
      → dec.uplink.unread ≡ took ++ dec₁.uplink.unread
      → Keeps dec₁ next
      → IsDecoder next.0
      → (next.0.uplink ≡ dec₁.uplink → Run next.0 (rest next.0))
      → Run dec (unless_found rest next)
  after_symbol dec dec₁ took rest (next, some p) e k v run = (
    next,
    some p,
    refl,
    record {
      read_bytes = took;
      uplink_split = rw k.same_uplink e;
      still = v;
      stops = λ f. cc;
      packet_of = k.found_in;
    },
  )
  after_symbol dec dec₁ took rest (next, none) e k v run =
      let (dec', found, f, d) = run k.same_uplink in
      let split : dec₁.uplink.unread ≡ d.read_bytes ++ dec'.uplink.unread =
        ap (λ u. u.unread) (sym k.same_uplink) ∙ d.uplink_split in
      (
        dec',
        found,
        f,
        record {
          read_bytes = took ++ d.read_bytes;
          uplink_split =
              e
              ∙ ap (λ x. took ++ x) split
              ∙ sym (append_assoc took d.read_bytes dec'.uplink.unread);
          still = d.still;
          stops = d.stops;
          packet_of = d.packet_of;
        },
      )

  decode_loop_lem :
      (fuel : ℕ) (dec : CommDec)
      → IsDecoder dec
      → length dec.uplink.unread < fuel
      → Run dec (decode_loop crc32 fuel dec)
  unfolding decode_loop
  decode_loop_lem zero dec v h = absurd (omega arith)
  decode_loop_lem (suc fuel) dec v h =
      let (uplink, s, e, t) = next_symbol_lem dec.uplink v.uplink_in in
      let dec₁ : CommDec = record dec { uplink = uplink } in
      let bytes₁ =
        append-AllBytes_right t.took uplink.unread (subst AllBytes t.bytes_split v.uplink_bytes) in
      let inside₁ : scratch_avail uplink ≤ uplink.scratch_capacity =
        omega (arith, t.same_avail, t.same_capacity, v.uplink_in) in
      elim t.some_took [
        | inl (none_left, few) ↦ (
          dec₁,
          none,
          rw (e, round-none (λ d. decode_loop crc32 fuel d) dec₁ s none_left) refl,
          record {
            read_bytes = t.took;
            uplink_split = t.bytes_split;
            still = record {
              uplink_in = inside₁;
              decode_in = v.decode_in;
              uplink_bytes = bytes₁;
              decode_bytes = v.decode_bytes;
            };
            stops = λ _. few;
            packet_of = λ p f. cc;
          },
        )
        | inr (some_symbol, fewer) ↦
            let k =
              decode_symbol-Keeps dec₁ v.decode_in v.decode_bytes s
                (t.symbol_byte v.uplink_bytes) in
            let v' = next-IsDecoder dec₁ (decode_symbol crc32 dec₁ s) k inside₁ bytes₁ in
            let shorter : (decode_symbol crc32 dec₁ s).0.uplink ≡ uplink
                → length (decode_symbol crc32 dec₁ s).0.uplink.unread < fuel =
              (λ same. omega (arith, ap (λ u. length u.unread) same)) in
            rw (e, round-some (λ d. decode_loop crc32 fuel d) dec₁ s some_symbol)
              (after_symbol dec dec₁ t.took (λ d. decode_loop crc32 fuel d)
                (decode_symbol crc32 dec₁ s) t.bytes_split k v'
                λ same. decode_loop_lem fuel (decode_symbol crc32 dec₁ s).0 v' (shorter same))
      ]

-- On a decoder whose buffers are inside of their memory and hold bytes, whatever bytes these are,
-- decoding ends and aborts nowhere, keeps both buffers so, and reads a front of the uplink's bytes: all
-- of them, or all but one, where it finds no packet. A packet that it finds has its numbers in range,
-- and its fields and data stood in the decode buffer behind the command number, with their checksum
-- behind them.
pub comm_dec_decode_lem :
    (crc32 : ℕ → List ℕ → ℕ) (dec : CommDec)
    → IsDecoder dec
    → (dec' : CommDec) × (found : Option CommPacket) × (comm_dec_decode crc32 dec
        ≡ ok (dec', found))
      × ((front : List ℕ) × (dec.uplink.unread ≡ front ++ dec'.uplink.unread))
      × IsDecoder dec'
      × (found ≡ none → length dec'.uplink.unread ≤ 1)
      × ((p : CommPacket)
          → found ≡ some p
          → InRange p × (dec'.decode_buffer ≡ checksummed crc32 comm_cmd_magic_num p))
unfolding comm_dec_decode
comm_dec_decode_lem crc32 dec v =
    let (dec', found, e, d) =
      decode_loop_lem crc32 (length dec.uplink.unread + 1) dec v (omega arith) in
    (
      dec',
      found,
      e,
      (d.read_bytes, d.uplink_split),
      d.still,
      d.stops,
      λ p f.
          comm_packet_decode_sound crc32 dec'.decode_buffer d.still.decode_bytes p
            (d.packet_of p f),
    )
