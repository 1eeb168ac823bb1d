-- ===== src/Bus/Codec/Writing.antt =====
-- The encoder of bus/codec.c: how much it takes, and what it puts on the line for it.
use hailburst.Prelude.{
  ℕ, suc, ◌+◌, ◌*◌, ◌≤◌, ◌<◌, ◌≡◌, refl, ap, sym, ◌∙◌, inl, inr, Bool, true, false, not, ◌&&◌, ◌||◌,
  List, [], ◌∷◌, ◌++◌, length, length-append, ltb, ◌==◌, if◌then◌else◌, ok, arith, Bool-cases,
  lt→ltb, le→ltb, be32,
}
use mathlib.Core.List.{append_assoc, append-nil}
use hailburst.Bus.Codec.Symbol.{is_special, is_parametrized, takes_param, escape_sym}
use hailburst.Bus.Codec.Encode.{
  Encoder, escaped, encode_bytes, enc_encode_data, enc_encode_ctrl, encode_param,
}
use hailburst.Bus.Codec.Line.{escape_all}

pub length-escaped : (b : ℕ) → length (escaped b) ≡ (if is_special b then 2 else 1)
length-escaped b = ground arith

-- Where the encoder stops: at the end of the data, or at a byte for which there is no room.
abbrev pub Stopped : ℕ → List ℕ → List ℕ → Type 0
Stopped capacity tx [] = Unit {0}
Stopped capacity tx (b ∷ rest) = capacity < length tx + length (escaped b)

-- What the encoder has done with the data `bytes`: it took the part `taken` of them.
pub record Took (capacity : ℕ) (tx bytes : List ℕ) (in_offset : ℕ) (r : List ℕ × ℕ) : Type 0 where
  pub taken : List ℕ
  pub rest : List ℕ
  pub split : bytes ≡ taken ++ rest
  pub line : r.0 ≡ tx ++ escape_all taken
  pub count : r.1 ≡ in_offset + length taken
  pub fits : length r.0 ≤ capacity
  pub stopped : Stopped capacity r.0 rest

encode_bytes-Took :
    (capacity : ℕ) (tx bytes : List ℕ) (in_offset : ℕ)
    → length tx ≤ capacity
    → Took capacity tx bytes in_offset (encode_bytes capacity tx bytes in_offset)
unfolding encode_bytes escape_all
encode_bytes-Took capacity tx [] in_offset h = record {
  taken = [];
  rest = [];
  split = refl;
  line = sym (append-nil tx);
  count = omega arith;
  fits = h;
  stopped = tt;
}
encode_bytes-Took capacity tx (b ∷ bs) in_offset h =
    elim (Bool-cases (ltb capacity (length tx + (if is_special b then 2 else 1)))) [
      | inl full ↦
          rw (full, encode_bytes)
            (record {
              taken = [];
              rest = b ∷ bs;
              split = refl;
              line = sym (append-nil tx);
              count = omega arith;
              fits = h;
              stopped = rw (length-escaped b) (ground arith);
            })
      | inr room ↦
          let o =
            encode_bytes-Took capacity (tx ++ escaped b) bs (in_offset + 1)
              (rw (length-append tx (escaped b), length-escaped b) (ground arith)) in
          rw (room, encode_bytes)
            (record {
              taken = b ∷ o.taken;
              rest = o.rest;
              split = ap (λ t. b ∷ t) o.split;
              line = o.line ∙ append_assoc tx (escaped b) (escape_all o.taken);
              count = omega (arith, o.count);
              fits = o.fits;
              stopped = o.stopped;
            })
    ]

-- With at least one byte to encode and a buffer within its capacity, the encoder takes a prefix of the
-- data and returns its length; it appends exactly that prefix's line form, stays within its capacity,
-- and stops early only at a byte whose line form does not fit.
pub enc_encode_data-Took :
    (fwe : Encoder) (bytes : List ℕ)
    → 0 < length bytes
    → length fwe.tx ≤ fwe.tx_capacity
    → (fwe' : Encoder) × (n : ℕ) × (enc_encode_data fwe bytes ≡ ok (fwe', n))
      × (fwe'.tx_capacity ≡ fwe.tx_capacity)
      × Took fwe.tx_capacity fwe.tx bytes 0 (fwe'.tx, n)
unfolding enc_encode_data
enc_encode_data-Took fwe bytes pos h =
    let (tx, n) = encode_bytes fwe.tx_capacity fwe.tx bytes 0 in
    (
      record fwe { tx = tx },
      n,
      rw (lt→ltb _ _ pos),
      refl,
      encode_bytes-Took fwe.tx_capacity fwe.tx bytes 0 h,
    )

pub encode_bytes-all :
    (capacity : ℕ) (tx bytes : List ℕ) (in_offset : ℕ)
    → length tx + length (escape_all bytes) ≤ capacity
    → encode_bytes capacity tx bytes in_offset ≡ (tx ++ escape_all bytes, in_offset + length bytes)
unfolding encode_bytes escape_all
encode_bytes-all capacity tx [] in_offset h = ground (arith, append-nil tx)
encode_bytes-all capacity tx (b ∷ bs) in_offset h =
    let split = length-append (escaped b) (escape_all bs) in
    let room : ltb capacity (length tx + (if is_special b then 2 else 1)) ≡ false =
      rw (← length-escaped b) (le→ltb _ _ (omega (arith, split))) in
    let shift : in_offset + 1 + length bs ≡ in_offset + suc (length bs) = omega arith in
    rw (room, encode_bytes)
      (encode_bytes-all capacity (tx ++ escaped b) bs (in_offset + 1)
          (omega (arith, split, length-append tx (escaped b)))
        ∙ rw (append_assoc tx (escaped b) (escape_all bs), shift))

pub length-escape_all-le : (bytes : List ℕ) → length (escape_all bytes) ≤ 2 * length bytes
unfolding escape_all
length-escape_all-le [] = omega arith
length-escape_all-le (b ∷ bs) =
    rw (length-append (escaped b) (escape_all bs), length-escaped b)
      (ground (arith, length-escape_all-le bs))

-- The line form of a control character with its parameter.
unfoldable pub ctrl_line : ℕ → ℕ → List ℕ
ctrl_line symbol param = symbol ∷ (if takes_param symbol then escape_all (be32 param) else [])

abbrev pub is_ctrl : ℕ → Bool
is_ctrl symbol = is_special symbol && not (symbol == escape_sym)

pub length-ctrl_line-le :
    (symbol param : ℕ) → length (ctrl_line symbol param) ≤ (if takes_param symbol then 9 else 1)
unfolding ctrl_line
length-ctrl_line-le symbol param = ground (arith, length-escape_all-le (be32 param))

-- A control character other than the escape, with no parameter unless it takes one, is written whole or
-- not at all: it is written exactly if the buffer has room for its longest line form.
pub enc_encode_ctrl-eq :
    (fwe : Encoder) (symbol param : ℕ)
    → is_ctrl symbol ≡ true
    → ((param == 0) || takes_param symbol) ≡ true
    → enc_encode_ctrl fwe symbol param
      ≡ ok (
          if ltb fwe.tx_capacity (length fwe.tx + (if takes_param symbol then 9 else 1))
          then (fwe, false)
          else (record fwe { tx = fwe.tx ++ ctrl_line symbol param }, true))
unfolding enc_encode_ctrl is_parametrized encode_param enc_encode_data ctrl_line
enc_encode_ctrl-eq fwe symbol param c p = elim (Bool-cases (takes_param symbol)) [
  | inl w ↦ elim (Bool-cases (ltb fwe.tx_capacity (length fwe.tx + 9))) [
    | inl full ↦ rw (c, special c, p, w, full)
    | inr room ↦ rw (
      c,
      special c,
      p,
      w,
      room,
      encode_bytes-all fwe.tx_capacity (fwe.tx ++ symbol ∷ []) (be32 param) 0 (reserved room),
      append_assoc fwe.tx (symbol ∷ []) (escape_all (be32 param)),
    )
  ]
  | inr w ↦ rw (c, special c, p, w) (ground arith)
]
  where
    special : is_ctrl symbol ≡ true → is_special symbol ≡ true
    special c = ground arith

    reserved :
        ltb fwe.tx_capacity (length fwe.tx + 9) ≡ false
        → length (fwe.tx ++ symbol ∷ []) + length (escape_all (be32 param)) ≤ fwe.tx_capacity
    reserved room =
        ground (arith, length-append fwe.tx (symbol ∷ []), length-escape_all-le (be32 param))
