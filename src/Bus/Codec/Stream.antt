-- ===== src/Bus/Codec/Stream.antt =====
-- The codec of bus/codec.c as a channel of tokens.
use hailburst.Prelude.{
  ℕ, zero, suc, ◌+◌, ◌≤◌, ◌<◌, ◌^◌, ◌≡◌, refl, ◌∙◌, inr, Bool, true, false, ◌||◌, List, [], ◌∷◌,
  ◌++◌, some, length, length-append, ◌==◌, if◌then◌else◌, Outcome, ok, aborted, ◌>>=◌, arith,
  lt→ltb, le→ltb, AllBytes,
}
use mathlib.Core.List.{append_assoc, append-nil}
use hailburst.Bus.Codec.Symbol.{fwc_none, takes_param}
use hailburst.Bus.Codec.Encode.{Encoder, enc_encode_data, enc_encode_ctrl}
use hailburst.Bus.Codec.Decode.{
  Decoder, DecoderSynch, Entity, Decoded, dec_decode, internal_decode, scan_line, decode_first,
  decoded_of, scan_start,
}
use hailburst.Bus.Codec.Line.{escape_all, boundary}
use hailburst.Bus.Codec.Writing.{
  ctrl_line, length-ctrl_line-le, is_ctrl, encode_bytes-all, enc_encode_ctrl-eq,
}
use hailburst.Bus.Codec.Tokens.{Idle, Reads, dec_decode-chars, dec_decode-ctrl, Idle-test}

pub data Token : Type 0 where
  chars : List ℕ → Token
  control : ℕ → ℕ → Token

unfoldable pub token_line : Token → List ℕ
token_line (chars ds) = escape_all ds
token_line (control symbol param) = ctrl_line symbol param

unfoldable pub line_of : List Token → List ℕ
line_of [] = []
line_of (t ∷ ts) = token_line t ++ line_of ts

-- A client's call for a token, and whether all of it was written.
unfoldable pub encode_token : Encoder → Token → Outcome (Encoder × Bool)
encode_token fwe (chars ds) = enc_encode_data fwe ds >>= λ (fwe', n). ok (fwe', n == length ds)
encode_token fwe (control symbol param) = enc_encode_ctrl fwe symbol param

unfoldable pub encode_tokens : Encoder → List Token → Outcome Encoder
encode_tokens fwe [] = ok fwe
encode_tokens fwe (t ∷ ts) = encode_token fwe t >>= λ (fwe', whole). encode_tokens fwe' ts

abbrev pub token_of : Entity → Token
token_of ent =
    if ent.ctrl_out == fwc_none then chars ent.data_out else control ent.ctrl_out ent.ctrl_param

-- A client that asks for entities until there is none.
unfoldable pub decode_tokens : ℕ → ℕ → Decoder → DecoderSynch → Outcome (List Token)
decode_tokens zero max_len fwd synch = aborted
decode_tokens (suc fuel) max_len fwd synch = dec_decode fwd synch (some max_len) >>= λ r.
    elim r.found [
      | false ↦ ok []
      | true ↦ decode_tokens fuel max_len r.fwd r.synch >>= λ ts. ok (token_of r.ent ∷ ts)
    ]

-- A token that the encoder accepts, with data that the receiver has room for.
abbrev pub Legal : ℕ → Token → Type 0
Legal max_len (chars ds) = AllBytes ds × (0 < length ds) × (length ds ≤ max_len)
Legal max_len (control symbol param) =
    (is_ctrl symbol ≡ true) × (((param == 0) || takes_param symbol) ≡ true) × (param < 2 ^ 32)

abbrev pub Separate : Token → List Token → Type 0
Separate (chars ds) (chars ds' ∷ ts) = ⊥
Separate (chars ds) _ = Unit {0}
Separate (control symbol param) _ = Unit {0}

-- Legal tokens, in which no run of data follows another.
abbrev pub AllLegal : ℕ → List Token → Type 0
AllLegal max_len [] = Unit {0}
AllLegal max_len (t ∷ ts) = Legal max_len t × Separate t ts × AllLegal max_len ts

-- The room that a token takes at most.
abbrev pub room_of : List Token → ℕ
room_of [] = 0
room_of (chars ds ∷ ts) = length (escape_all ds) + room_of ts
room_of (control symbol param ∷ ts) = (if takes_param symbol then 9 else 1) + room_of ts

boundary-line_of :
    (max_len : ℕ) (ds : List ℕ) (ts : List Token)
    → Separate (chars ds) ts
    → AllLegal max_len ts
    → boundary (line_of ts) ≡ true
unfolding line_of token_line ctrl_line
boundary-line_of max_len ds [] sep legal = refl
boundary-line_of max_len ds (chars ds' ∷ ts) sep legal = absurd sep
boundary-line_of max_len ds (control symbol param ∷ ts) sep legal = legal.0.0

dec_decode-end :
    (fwd : Decoder) (synch : DecoderSynch) (max_len : ℕ)
    → fwd.pending ≡ []
    → Idle synch
    → 0 < max_len
    → (r : Decoded) × (dec_decode fwd synch (some max_len) ≡ ok r) × (r.found ≡ false)
unfolding dec_decode internal_decode scan_line decode_first
dec_decode-end fwd synch max_len e idle pos = (
  decoded_of fwd synch
      (record { found = false; ctrl = fwc_none; scan = scan_start synch; left = [] }),
  rw (lt→ltb _ _ pos, Idle-test synch idle, e),
  refl,
)

token_of-chars :
    (rest ds : List ℕ) (r : Decoded) → Reads rest fwc_none 0 ds r → token_of r.ent ≡ chars ds
token_of-chars rest ds r reads = ground (arith, reads.ctrl, reads.chars_out)

token_of-control :
    (rest : List ℕ) (symbol param : ℕ) (r : Decoded)
    → is_ctrl symbol ≡ true
    → Reads rest symbol param [] r
    → token_of r.ent ≡ control symbol param
token_of-control rest symbol param r c reads = ground (arith, reads.ctrl, reads.ctrl_param)

module _ (max_len : ℕ) (pos : 0 < max_len) where
  read_token :
      (t : Token) (ts : List Token) (fwd : Decoder) (synch : DecoderSynch)
      → AllLegal max_len (t ∷ ts)
      → fwd.pending ≡ token_line t ++ line_of ts
      → Idle synch
      → (r : Decoded) × (dec_decode fwd synch (some max_len) ≡ ok r)
        × (r.found ≡ true)
        × (token_of r.ent ≡ t)
        × (r.fwd.pending ≡ line_of ts)
        × Idle r.synch
  unfolding token_line
  read_token (chars ds) ts fwd synch legal e idle =
      let (r, f, reads) =
        dec_decode-chars fwd synch max_len ds (line_of ts) e idle legal.0.0 legal.0.1 legal.0.2
          (inr (boundary-line_of max_len ds ts legal.1 legal.2)) in
      (r, f, reads.found, token_of-chars (line_of ts) ds r reads, reads.left, reads.idle)
  read_token (control symbol param) ts fwd synch legal e idle =
      let (r, f, reads) =
        dec_decode-ctrl fwd synch max_len symbol param (line_of ts) e idle legal.0.0 legal.0.1
          legal.0.2 pos in
      (
        r,
        f,
        reads.found,
        token_of-control (line_of ts) symbol param r legal.0.0 reads,
        reads.left,
        reads.idle,
      )

  decode_tokens-stop :
      (fuel : ℕ) (fwd : Decoder) (synch : DecoderSynch) (r : Decoded)
      → dec_decode fwd synch (some max_len) ≡ ok r
      → r.found ≡ false
      → decode_tokens (suc fuel) max_len fwd synch ≡ ok []
  unfolding decode_tokens
  decode_tokens-stop fuel fwd synch r f over = rw (f, over)

  decode_tokens-next :
      (fuel : ℕ) (fwd : Decoder) (synch : DecoderSynch) (r : Decoded) (t : Token) (ts : List Token)
      → dec_decode fwd synch (some max_len) ≡ ok r
      → r.found ≡ true
      → token_of r.ent ≡ t
      → decode_tokens fuel max_len r.fwd r.synch ≡ ok ts
      → decode_tokens (suc fuel) max_len fwd synch ≡ ok (t ∷ ts)
  unfolding decode_tokens
  decode_tokens-next fuel fwd synch r t ts f found same rest = rw (f, found, rest, same)

  -- A line of legal tokens is read back to those tokens.
  pub decode_tokens-line_of :
      (ts : List Token) (fuel : ℕ) (fwd : Decoder) (synch : DecoderSynch)
      → AllLegal max_len ts
      → length ts < fuel
      → fwd.pending ≡ line_of ts
      → Idle synch
      → decode_tokens fuel max_len fwd synch ≡ ok ts
  unfolding decode_tokens line_of
  decode_tokens-line_of ts zero fwd synch legal h e idle = absurd (omega arith)
  decode_tokens-line_of [] (suc fuel) fwd synch legal h e idle =
      let (r, f, over) = dec_decode-end fwd synch max_len e idle pos in
      decode_tokens-stop fuel fwd synch r f over
  decode_tokens-line_of (t ∷ ts) (suc fuel) fwd synch legal h e idle =
      let (r, f, found, same, left, idle') = read_token t ts fwd synch legal e idle in
      decode_tokens-next fuel fwd synch r t ts f found same
        (decode_tokens-line_of ts fuel r.fwd r.synch legal.2 (omega arith) left idle')

-- With room for the tokens the encoder writes all of their lines behind what it has.
pub encode_tokens-line_of :
    (max_len : ℕ) (ts : List Token) (fwe : Encoder)
    → AllLegal max_len ts
    → length fwe.tx + room_of ts ≤ fwe.tx_capacity
    → encode_tokens fwe ts ≡ ok (record fwe { tx = fwe.tx ++ line_of ts })
unfolding encode_tokens encode_token line_of token_line enc_encode_data
encode_tokens-line_of max_len [] fwe legal h = rw (append-nil fwe.tx)
encode_tokens-line_of max_len (chars ds ∷ ts) fwe legal h =
    rw (lt→ltb _ _ legal.0.1, encode_bytes-all fwe.tx_capacity fwe.tx ds 0 (omega arith))
      (encode_tokens-line_of max_len ts (record fwe { tx = fwe.tx ++ escape_all ds }) legal.2
          (omega (arith, length-append fwe.tx (escape_all ds)))
        ∙ rw (append_assoc fwe.tx (escape_all ds) (line_of ts)))
encode_tokens-line_of max_len (control symbol param ∷ ts) fwe legal h =
    rw
      (
        enc_encode_ctrl-eq fwe symbol param legal.0.0 legal.0.1,
        le→ltb fwe.tx_capacity (length fwe.tx + (if takes_param symbol then 9 else 1))
            (omega arith),
      )
      (encode_tokens-line_of max_len ts (record fwe { tx = fwe.tx ++ ctrl_line symbol param })
          legal.2
          (omega (
            arith,
            length-append fwe.tx (ctrl_line symbol param),
            length-ctrl_line-le symbol param,
          ))
        ∙ rw (append_assoc fwe.tx (ctrl_line symbol param) (line_of ts)))

length-line_of-le : (ts : List Token) → length (line_of ts) ≤ room_of ts
unfolding line_of token_line
length-line_of-le [] = omega arith
length-line_of-le (chars ds ∷ ts) =
    omega (arith, length-append (escape_all ds) (line_of ts), length-line_of-le ts)
length-line_of-le (control symbol param ∷ ts) = omega (
  arith,
  length-append (ctrl_line symbol param) (line_of ts),
  length-ctrl_line-le symbol param,
  length-line_of-le ts,
)

-- Legal tokens, in which no run of data follows another and no run exceeds the receiver's room, are
-- encoded into an empty buffer of enough capacity within that capacity, and an idle decoder reads the
-- buffer back as the same tokens, then nothing more.
pub decode-encode :
    (max_len : ℕ) (ts : List Token) (fwe : Encoder) (synch : DecoderSynch) (rx_timestamp : ℕ)
    → 0 < max_len
    → AllLegal max_len ts
    → fwe.tx ≡ []
    → room_of ts ≤ fwe.tx_capacity
    → Idle synch
    → (fwe' : Encoder) × (encode_tokens fwe ts ≡ ok fwe')
      × (length fwe'.tx ≤ fwe.tx_capacity)
      × (decode_tokens
            (suc (length ts))
            max_len
            (record { pending = fwe'.tx; rx_timestamp = rx_timestamp })
            synch
          ≡ ok ts)
decode-encode max_len ts fwe synch rx_timestamp pos legal fresh room idle = (
  record fwe { tx = fwe.tx ++ line_of ts },
  encode_tokens-line_of max_len ts fwe legal (rw fresh (omega arith)),
  rw fresh (omega (arith, length-line_of-le ts)),
  decode_tokens-line_of max_len pos ts (suc (length ts)) _ synch legal (omega arith) (rw fresh refl)
      idle,
)
