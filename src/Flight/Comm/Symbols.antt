-- ===== src/Flight/Comm/Symbols.antt =====
-- The symbols that `comm_dec_next_symbol` makes of the bytes of the uplink (flight/comm.c).
use hailburst.Prelude.{
  ℕ, suc, ◌+◌, ◌≤◌, ◌<◌, ◌≡◌, refl, ◌⊎◌, inl, inr, Bool, true, false, Bool-cases, List, [], ◌∷◌,
  ◌++◌, leb, ◌==◌, ==_iff, length, le→leb, lt→ltb, AllBytes, ok, arith,
}
use hailburst.Synch.Pipe.{
  PipeReceiver, scratch_avail, pipe_receiver_has_next, pipe_receiver_read_byte,
  pipe_receiver_peek_byte,
}
use hailburst.Flight.Comm.Decode.{
  Symbol, byte, packet_start, packet_end, symbol_error, buffer_empty, escape_symbol, byte_escape,
  byte_esc_escape, byte_esc_sop, byte_esc_eop, comm_dec_next_symbol,
}

-- The receiver with other bytes to read, at another place.
abbrev pub reading : PipeReceiver → ℕ → List ℕ → PipeReceiver
reading r place bytes = record r { scratch_offset = place; unread = bytes }

module _ (r : PipeReceiver) (place : ℕ) where
  pub next-plain :
      (b : ℕ) (rest : List ℕ)
      → place + length (b ∷ rest) ≤ r.scratch_capacity
      → (b == byte_escape) ≡ false
      → comm_dec_next_symbol (reading r place (b ∷ rest)) ≡ ok (reading r (place + 1) rest, byte b)
  unfolding comm_dec_next_symbol pipe_receiver_has_next pipe_receiver_read_byte
      pipe_receiver_peek_byte
  next-plain b [] h e = rw (le→leb _ _ h, e) refl
  next-plain b (c ∷ rest) h e =
      rw
        (
          le→leb _ _ h,
          le→leb 2 (suc (suc (length rest))) (omega arith),
          lt→ltb 0 (suc (suc (length rest))) (omega arith),
          e,
        )
        refl

  pub next-escape :
      (code : ℕ) (rest : List ℕ)
      → place + length (byte_escape ∷ code ∷ rest) ≤ r.scratch_capacity
      → comm_dec_next_symbol (reading r place (byte_escape ∷ code ∷ rest))
        ≡ ok (reading r (place + 2) rest, escape_symbol code)
  unfolding comm_dec_next_symbol pipe_receiver_has_next pipe_receiver_read_byte
      pipe_receiver_peek_byte
  next-escape code rest h =
      let two_on : place + 1 + 1 ≡ place + 2 = omega arith in
      rw
        (
          le→leb _ _ h,
          le→leb 2 (suc (suc (length rest))) (omega arith),
          lt→ltb 0 (suc (suc (length rest))) (omega arith),
          lt→ltb 0 (suc (length rest)) (omega arith),
          two_on,
        )
        refl

  next-empty :
      place ≤ r.scratch_capacity
      → comm_dec_next_symbol (reading r place []) ≡ ok (reading r place [], buffer_empty)
  unfolding comm_dec_next_symbol pipe_receiver_has_next
  next-empty h = let fits : leb (place + 0) r.scratch_capacity ≡ true = ground arith in rw fits refl

  next-single :
      place + 1 ≤ r.scratch_capacity
      → comm_dec_next_symbol (reading r place (byte_escape ∷ []))
        ≡ ok (reading r place (byte_escape ∷ []), buffer_empty)
  unfolding comm_dec_next_symbol pipe_receiver_has_next pipe_receiver_peek_byte
  next-single h = rw (le→leb _ _ h) refl

abbrev pub is_empty : Symbol → Bool
is_empty buffer_empty = true
is_empty (byte b) = false
is_empty packet_start = false
is_empty packet_end = false
is_empty symbol_error = false

-- A symbol of a byte is a byte.
abbrev pub ByteSymbol : Symbol → Type 0
ByteSymbol (byte b) = b < 256
ByteSymbol _ = Unit {0}

escape_symbol-ByteSymbol : (code : ℕ) → ByteSymbol (escape_symbol code)
escape_symbol-ByteSymbol code = elim (Bool-cases (code == byte_esc_escape)) [
  | inl e ↦ rw e (omega arith)
  | inr e ↦ elim (Bool-cases (code == byte_esc_sop)) [
    | inl f ↦ rw (e, f) tt
    | inr f ↦ elim (Bool-cases (code == byte_esc_eop)) [
      | inl g ↦ rw (e, f, g) tt
      | inr g ↦ rw (e, f, g) tt
    ]
  ]
]

-- The symbol takes a front of the bytes, at least one of them if there is a symbol; there is none only
-- if fewer than two are left.
pub record Took (r r' : PipeReceiver) (symbol : Symbol) : Type 0 where
  pub took : List ℕ
  pub bytes_split : r.unread ≡ took ++ r'.unread
  pub same_capacity : r'.scratch_capacity ≡ r.scratch_capacity
  pub same_avail : scratch_avail r' ≡ scratch_avail r
  pub some_took :
      (is_empty symbol ≡ true) × (length r'.unread ≤ 1)
      ⊎ (is_empty symbol ≡ false) × (length r'.unread < length r.unread)
  pub symbol_byte : AllBytes r.unread → ByteSymbol symbol

escape_symbol-some : (code : ℕ) → is_empty (escape_symbol code) ≡ false
escape_symbol-some code = ground arith

next_symbol-reading :
    (r : PipeReceiver) (place : ℕ) (bytes : List ℕ)
    → place + length bytes ≤ r.scratch_capacity
    → (r' : PipeReceiver) × (symbol : Symbol) × (comm_dec_next_symbol (reading r place bytes)
        ≡ ok (r', symbol))
      × Took (reading r place bytes) r' symbol
next_symbol-reading r place [] h = (
  reading r place [],
  buffer_empty,
  next-empty r place (omega arith),
  record {
    took = [];
    bytes_split = refl;
    same_capacity = refl;
    same_avail = refl;
    some_took = inl (refl, omega arith);
    symbol_byte = λ h. tt;
  },
)
next_symbol-reading r place (b ∷ []) h = elim (Bool-cases (b == byte_escape)) [
  | inl e ↦ rw ((==_iff b byte_escape).0 e) (
    reading r place (byte_escape ∷ []),
    buffer_empty,
    next-single r place h,
    record {
      took = [];
      bytes_split = refl;
      same_capacity = refl;
      same_avail = refl;
      some_took = inl (refl, omega arith);
      symbol_byte = λ h. tt;
    },
  )
  | inr e ↦ (
    reading r (place + 1) [],
    byte b,
    next-plain r place b [] h e,
    record {
      took = b ∷ [];
      bytes_split = refl;
      same_capacity = refl;
      same_avail = omega arith;
      some_took = inr (refl, omega arith);
      symbol_byte = λ h. h.0;
    },
  )
]
next_symbol-reading r place (b ∷ c ∷ rest) h = elim (Bool-cases (b == byte_escape)) [
  | inl e ↦ rw ((==_iff b byte_escape).0 e) (
    reading r (place + 2) rest,
    escape_symbol c,
    next-escape r place c rest h,
    record {
      took = byte_escape ∷ c ∷ [];
      bytes_split = refl;
      same_capacity = refl;
      same_avail = omega arith;
      some_took = inr (escape_symbol-some c, omega arith);
      symbol_byte = λ h. escape_symbol-ByteSymbol c;
    },
  )
  | inr e ↦ (
    reading r (place + 1) (c ∷ rest),
    byte b,
    next-plain r place b (c ∷ rest) h e,
    record {
      took = b ∷ [];
      bytes_split = refl;
      same_capacity = refl;
      same_avail = omega arith;
      some_took = inr (refl, omega arith);
      symbol_byte = λ h. h.0;
    },
  )
]

pub next_symbol_lem :
    (r : PipeReceiver)
    → scratch_avail r ≤ r.scratch_capacity
    → (r' : PipeReceiver) × (symbol : Symbol) × (comm_dec_next_symbol r ≡ ok (r', symbol))
      × Took r r' symbol
next_symbol_lem r h = next_symbol-reading r r.scratch_offset r.unread h
