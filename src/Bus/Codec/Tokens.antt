-- ===== src/Bus/Codec/Tokens.antt =====
-- The decoder of bus/codec.c on a line of data runs and control characters.
use native.Mathlib.Nat.{zero-add}
use hailburst.Prelude.{
  ℕ, ◌+◌, ◌-◌, ◌≤◌, ◌<◌, ◌^◌, ◌≡◌, refl, ◌∙◌, ◌⊎◌, inl, inr, true, false, ◌||◌, List, [], ◌∷◌, ◌++◌,
  Option, none, some, length, ltb, ◌==◌, if◌then◌else◌, ok, arith, Bool-cases, lt→ltb, le→leb, be32,
  AllBytes, of_be32-be32, be32-AllBytes,
}
use hailburst.Bus.Codec.Symbol.{is_special, is_parametrized, takes_param, fwc_none}
use hailburst.Bus.Codec.Decode.{
  Decoder, DecoderSynch, Decoded, limit_ok, scan_line, scan_byte, internal_decode, decode_param,
  decode_ctrl, decode_first, dec_decode, param_round, param_rounds, begin_param, decoded_of,
  complete, absorbed,
}
use hailburst.Bus.Codec.Line.{escape_all, boundary}
use hailburst.Bus.Codec.Reading.{scan-escape_all, run_of, scan_of}
use hailburst.Bus.Codec.Writing.{ctrl_line, is_ctrl}

-- The decoder is between two entities.
abbrev pub Idle : DecoderSynch → Type 0
Idle synch = (synch.recv_in_escape ≡ false) × (synch.recv_current ≡ fwc_none)

-- What the decoder leaves on the line and reports.
pub record Reads (rest : List ℕ) (symbol param : ℕ) (chars : List ℕ) (r : Decoded) : Type 0 where
  pub found : r.found ≡ true
  pub left : r.fwd.pending ≡ rest
  pub idle : Idle r.synch
  pub ctrl : r.ent.ctrl_out ≡ symbol
  pub ctrl_param : r.ent.ctrl_param ≡ param
  pub chars_out : r.ent.data_out ≡ chars
  pub chars_len : r.ent.data_actual_len ≡ length chars

internal_decode-run :
    (fwd : Decoder) (synch : DecoderSynch) (max_len : ℕ) (ds rest : List ℕ)
    → fwd.pending ≡ escape_all ds ++ rest
    → synch.recv_in_escape ≡ false
    → AllBytes ds
    → 0 < length ds
    → length ds ≤ max_len
    → (length ds ≡ max_len) ⊎ (boundary rest ≡ true)
    → internal_decode fwd synch (some max_len)
      ≡ ok (decoded_of fwd synch (run_of ds (length ds) rest))
unfolding internal_decode
internal_decode-run fwd synch max_len ds rest e esc bytes pos fits ends = rw (
  lt→ltb 0 max_len (omega arith),
  esc,
  e,
  scan-escape_all max_len ds [] 0 rest bytes (omega arith) (omega arith) (omega arith)
      (rw zero-add ends),
  zero-add,
)

pub Idle-test : (synch : DecoderSynch) → Idle synch → (synch.recv_current == fwc_none) ≡ true
Idle-test synch idle = rw idle.1 refl

-- A run of data bytes that fits is read in one piece.
pub dec_decode-chars :
    (fwd : Decoder) (synch : DecoderSynch) (max_len : ℕ) (ds rest : List ℕ)
    → fwd.pending ≡ escape_all ds ++ rest
    → Idle synch
    → AllBytes ds
    → 0 < length ds
    → length ds ≤ max_len
    → (length ds ≡ max_len) ⊎ (boundary rest ≡ true)
    → (r : Decoded) × (dec_decode fwd synch (some max_len) ≡ ok r) × Reads rest fwc_none 0 ds r
unfolding dec_decode decode_first
dec_decode-chars fwd synch max_len ds rest e idle bytes pos fits ends = (
  decoded_of fwd synch (run_of ds (length ds) rest),
  rw (
    lt→ltb 0 max_len (omega arith),
    Idle-test synch idle,
    internal_decode-run fwd synch max_len ds rest e idle.0 bytes pos fits ends,
    lt→ltb _ _ pos,
    le→leb _ _ fits,
  ),
  record {
    found = refl;
    left = refl;
    idle = (refl, idle.1);
    ctrl = refl;
    ctrl_param = refl;
    chars_out = refl;
    chars_len = refl;
  },
)

internal_decode-ctrl :
    (fwd : Decoder) (synch : DecoderSynch) (limit : Option ℕ) (symbol : ℕ) (rest : List ℕ)
    → limit_ok limit ≡ true
    → fwd.pending ≡ symbol ∷ rest
    → synch.recv_in_escape ≡ false
    → is_ctrl symbol ≡ true
    → internal_decode fwd synch limit
      ≡ ok (
          decoded_of fwd synch
            (record { found = true; ctrl = symbol; scan = scan_of [] 0; left = rest }))
unfolding internal_decode scan_line scan_byte
internal_decode-ctrl fwd synch none symbol rest fits e esc c = rw (esc, e) (ground arith)
internal_decode-ctrl fwd synch (some max_len) symbol rest fits e esc c =
    rw (fits, esc, e, fits) (ground arith)

-- The four bytes of a parameter, whatever stands behind them.
decode_param-Reads :
    (fwd : Decoder) (synch : DecoderSynch) (param : ℕ) (rest : List ℕ)
    → fwd.pending ≡ escape_all (be32 param) ++ rest
    → synch.recv_in_escape ≡ false
    → is_ctrl synch.recv_current ≡ true
    → takes_param synch.recv_current ≡ true
    → synch.recv_count ≡ 0
    → param < 2 ^ 32
    → (r : Decoded) × (decode_param param_rounds fwd synch ≡ ok r)
      × Reads rest synch.recv_current param [] r
unfolding decode_param is_parametrized param_round
decode_param-Reads fwd synch param rest e esc c w zero_count small =
    let inner = decoded_of fwd synch (run_of (be32 param) 4 rest) in
    (
      complete (absorbed inner),
      rw (
        special,
        w,
        nonzero,
        room,
        four,
        internal_decode-run fwd synch 4 (be32 param) rest e esc (be32-AllBytes param) (omega arith)
            (omega arith) (inl refl),
        full,
      ),
      record {
        found = refl;
        left = refl;
        idle = (refl, refl);
        ctrl = refl;
        ctrl_param = rw zero_count (of_be32-be32 param small);
        chars_out = refl;
        chars_len = refl;
      },
    )
  where
    special : is_special synch.recv_current ≡ true
    special = ground arith

    nonzero : (synch.recv_current == fwc_none) ≡ false
    nonzero = ground arith

    room : ltb synch.recv_count 4 ≡ true
    room = ground arith

    four : 4 - synch.recv_count ≡ 4
    four = omega arith

    full : (synch.recv_count + 4 == 4) ≡ true
    full = ground arith

module _ (fwd : Decoder) (synch : DecoderSynch) (max_len symbol param : ℕ) (rest : List ℕ)
    (e : fwd.pending ≡ ctrl_line symbol param ++ rest) (idle : Idle synch)
    (c : is_ctrl symbol ≡ true) (p : ((param == 0) || takes_param symbol) ≡ true)
    (small : param < 2 ^ 32) (pos : 0 < max_len) where
  abbrev tail_line : List ℕ
  tail_line = (if takes_param symbol then escape_all (be32 param) else []) ++ rest

  abbrev first : Decoded
  first =
      decoded_of fwd synch
        (record { found = true; ctrl = symbol; scan = scan_of [] 0; left = tail_line })

  special : (is_special symbol ≡ true) × ((symbol == fwc_none) ≡ false)
  special = (ground arith, ground arith)

  dec_decode-first : dec_decode fwd synch (some max_len) ≡ decode_ctrl first
  unfolding dec_decode decode_first ctrl_line
  dec_decode-first = rw (
    lt→ltb _ _ pos,
    Idle-test synch idle,
    internal_decode-ctrl fwd synch (some max_len) symbol tail_line (lt→ltb _ _ pos) e idle.0 c,
    special.1,
  )

  decode_ctrl-plain : takes_param symbol ≡ false → decode_ctrl first ≡ ok first
  unfolding decode_ctrl is_parametrized
  decode_ctrl-plain w = rw (special.0, w)

  decode_ctrl-waits :
      takes_param symbol ≡ true
      → decode_ctrl first ≡ decode_param param_rounds first.fwd (begin_param first)
  unfolding decode_ctrl is_parametrized
  decode_ctrl-waits w = rw (special.0, w)

  -- A control character is read back with its parameter, whatever stands behind it.
  pub dec_decode-ctrl :
      (r : Decoded) × (dec_decode fwd synch (some max_len) ≡ ok r) × Reads rest symbol param [] r
  dec_decode-ctrl = elim (Bool-cases (takes_param symbol)) [
    | inl w ↦
        let (r, f, reads) =
          decode_param-Reads first.fwd (begin_param first) param rest (rw w refl) refl c w refl
            small in
        (r, dec_decode-first ∙ (decode_ctrl-waits w ∙ f), reads)
    | inr w ↦ (
      first,
      dec_decode-first ∙ decode_ctrl-plain w,
      record {
        found = refl;
        left = rw w refl;
        idle = (refl, idle.1);
        ctrl = refl;
        ctrl_param = ground arith;
        chars_out = refl;
        chars_len = refl;
      },
    )
  ]
