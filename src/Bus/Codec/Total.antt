-- ===== src/Bus/Codec/Total.antt =====
-- The decoder of bus/codec.c on any line: what it uses up, and what it may report.
use hailburst.Prelude.{
  ℕ, zero, suc, ◌+◌, ◌-◌, ◌*◌, ◌≤◌, ◌<◌, ◌≡◌, refl, ap, sym, ◌∙◌, ◌⊎◌, inl, inr, Bool, true, false,
  ◌&&◌, ◌||◌, List, [], ◌∷◌, Option, none, some, length, length-append, ltb, leb, ◌==◌, ok, arith,
  Bool-cases, lt→ltb,
}
use hailburst.Bus.Codec.Symbol.{is_special, is_parametrized, takes_param, fwc_none, flip}
use hailburst.Bus.Codec.Decode.{
  Decoder, DecoderSynch, Scan, Scanned, Round, stop, next, Decoded, has_room, decoded_of,
  scan_start, ParamRound, returned, again, param_round, scan_byte, scan_line, internal_decode,
  limit_ok, within, decode_param, decode_ctrl, decode_first, dec_decode, complete, interrupted,
  absorbed, begin_param, param_rounds,
}

abbrev pub weight : Bool → ℕ
weight true = 1
weight false = 0

-- What decoding uses up: two for a byte, one for an escape that waits for its byte.
abbrev pub fuel_of : Bool → List ℕ → ℕ
fuel_of in_escape line = 2 * length line + weight in_escape

-- How many of the bytes found are written through the pointer.
abbrev pub copied_len : Option ℕ → ℕ → ℕ
copied_len none len = 0
copied_len (some max_len) len = len

abbrev stored : Option ℕ → Scan → ℕ
stored limit s = copied_len limit s.actual_len

-- What a scan that began at `s` on the line `line` has done.
pub record ScanOk (limit : Option ℕ) (s : Scan) (line : List ℕ) (r : Scanned) : Type 0 where
  pub shrinks : fuel_of r.scan.in_escape r.left ≤ fuel_of s.in_escape line
  pub progress :
      r.found ≡ true → s.actual_len ≡ 0 → fuel_of r.scan.in_escape r.left < fuel_of s.in_escape line
  pub drained : r.found ≡ false → (r.left ≡ []) × (r.scan.actual_len ≡ 0)
  pub kind :
      r.found ≡ true
      → ((r.ctrl ≡ fwc_none) × (0 < r.scan.actual_len))
        ⊎ ((is_special r.ctrl ≡ true) × (r.scan.actual_len ≡ 0))
  pub bounded : within limit r.scan.actual_len ≡ true
  pub copied : length r.scan.out ≡ stored limit r.scan

abbrev RoundOk : Option ℕ → Scan → ℕ → List ℕ → Round → Type 0
RoundOk limit s byte left (stop r) = ScanOk limit s (byte ∷ left) r
RoundOk limit s byte left (next s') =
    (has_room limit s'.actual_len ≡ true)
    × (length s'.out ≡ stored limit s')
    × (fuel_of s'.in_escape left < fuel_of s.in_escape (byte ∷ left))

scan_byte-RoundOk :
    (limit : Option ℕ) (s : Scan) (byte : ℕ) (left : List ℕ)
    → has_room limit s.actual_len ≡ true
    → length s.out ≡ stored limit s
    → RoundOk limit s byte left (scan_byte limit s byte left)
unfolding scan_byte
scan_byte-RoundOk none s byte left room copied = ground arith
scan_byte-RoundOk (some max_len) s byte left room copied =
    ground (arith, length-append s.out (byte ∷ []), length-append s.out (flip byte ∷ []))

ScanOk-next :
    (limit : Option ℕ) (s s' : Scan) (byte : ℕ) (left : List ℕ) (r : Scanned)
    → fuel_of s'.in_escape left < fuel_of s.in_escape (byte ∷ left)
    → ScanOk limit s' left r
    → ScanOk limit s (byte ∷ left) r
ScanOk-next limit s s' byte left r less o = record {
  shrinks = omega (arith, o.shrinks);
  progress = λ f e. omega (arith, o.shrinks);
  drained = o.drained;
  kind = o.kind;
  bounded = o.bounded;
  copied = o.copied;
}

within_of_room : (limit : Option ℕ) (len : ℕ) → has_room limit len ≡ true → within limit len ≡ true
within_of_room none len h = refl
within_of_room (some max_len) len h = ground arith

scan_line-ScanOk :
    (limit : Option ℕ) (s : Scan) (line : List ℕ)
    → has_room limit s.actual_len ≡ true
    → length s.out ≡ stored limit s
    → (r : Scanned) × (scan_line limit s line ≡ ok r) × ScanOk limit s line r
unfolding scan_line
scan_line-ScanOk limit s [] room copied = (
  _,
  refl,
  record {
    shrinks = omega arith;
    progress = λ f e. ground arith;
    drained = λ f. (refl, ground arith);
    kind = λ f. inl (refl, ground arith);
    bounded = within_of_room limit s.actual_len room;
    copied = copied;
  },
)
scan_line-ScanOk limit s (byte ∷ left) room copied =
    rounds (λ s'. scan_line-ScanOk limit s' left) (scan_byte limit s byte left) refl
      (scan_byte-RoundOk limit s byte left room copied)
  where
    rounds :
        ((s' : Scan)
          → has_room limit s'.actual_len ≡ true
          → length s'.out ≡ stored limit s'
          → (r : Scanned) × (scan_line limit s' left ≡ ok r) × ScanOk limit s' left r)
        → (round : Round) → scan_byte limit s byte left ≡ round
        → RoundOk limit s byte left round
        → (r : Scanned) × (scan_line limit s (byte ∷ left) ≡ ok r) × ScanOk limit s (byte ∷ left) r
    rounds rest (stop r) e o = (r, rw (room, e), o)
    rounds rest (next s') e o =
        let (r, f, o') = rest s' o.0 o.1 in
        (r, rw (room, e) f, ScanOk-next limit s s' byte left r o.2 o')

internal_decode-ScanOk :
    (fwd : Decoder) (synch : DecoderSynch) (limit : Option ℕ)
    → limit_ok limit ≡ true
    → (r : Scanned) × (internal_decode fwd synch limit ≡ ok (decoded_of fwd synch r))
      × ScanOk limit (scan_start synch) fwd.pending r
unfolding internal_decode
internal_decode-ScanOk fwd synch none h =
    let (r, e, o) = scan_line-ScanOk none (scan_start synch) fwd.pending refl refl in (r, rw e, o)
internal_decode-ScanOk fwd synch (some max_len) h =
    let (r, e, o) = scan_line-ScanOk (some max_len) (scan_start synch) fwd.pending h refl in
    (r, rw (h, e), o)

-- A parameter that the decoder waits for belongs to a control character that has one, and is not
-- complete.
abbrev pub waits : DecoderSynch → Bool
waits synch = takes_param synch.recv_current && ltb synch.recv_count 4

abbrev pub SynchIsValid : DecoderSynch → Type 0
SynchIsValid synch = ((synch.recv_current == fwc_none) || waits synch) ≡ true

-- What a call of the decoder from `fwd` and `synch` leaves.
pub record DecodeOk (fwd : Decoder) (synch : DecoderSynch) (limit : Option ℕ) (r : Decoded)
    : Type 0 where
  pub shrinks :
      fuel_of r.synch.recv_in_escape r.fwd.pending ≤ fuel_of synch.recv_in_escape fwd.pending
  pub progress :
      r.found ≡ true
      → fuel_of r.synch.recv_in_escape r.fwd.pending < fuel_of synch.recv_in_escape fwd.pending
  pub drained : r.found ≡ false → r.fwd.pending ≡ []
  pub kind :
      r.found ≡ true
      → ((r.ent.ctrl_out ≡ fwc_none) × (0 < r.ent.data_actual_len))
        ⊎ ((is_special r.ent.ctrl_out ≡ true) × (r.ent.data_actual_len ≡ 0))
  pub bounded : within limit r.ent.data_actual_len ≡ true
  pub copied : length r.ent.data_out ≡ copied_len limit r.ent.data_actual_len
  pub param : ((r.ent.ctrl_param == 0) || takes_param r.ent.ctrl_out) ≡ true
  pub valid : SynchIsValid r.synch

pub special_ne_none : (c : ℕ) → is_special c ≡ true → (c == fwc_none) ≡ false
special_ne_none c h = ground arith

-- A round of the loop for a parameter gives a result, or has read at least one of the four bytes.
abbrev StepOk : Decoder → DecoderSynch → Option ℕ → ParamRound → Type 0
StepOk fwd synch limit (returned r) = DecodeOk fwd synch limit r
StepOk fwd synch limit (again r) =
    (waits r.synch ≡ true)
    × (synch.recv_count < r.synch.recv_count)
    × (fuel_of r.synch.recv_in_escape r.fwd.pending < fuel_of synch.recv_in_escape fwd.pending)

module _ (fwd : Decoder) (synch : DecoderSynch) (limit : Option ℕ) (w : waits synch ≡ true)
    (q : Scanned) (o : ScanOk (some (4 - synch.recv_count)) (scan_start synch) fwd.pending q) where
  abbrev inner : Decoded
  inner = decoded_of fwd synch q

  within_zero : within limit 0 ≡ true
  within_zero = elim limit as (λ l. within l 0 ≡ true) [ none ↦ refl | some max_len ↦ ground arith ]

  copied_zero : 0 ≡ copied_len limit 0
  copied_zero = elim limit as (λ l. 0 ≡ copied_len l 0) [ none ↦ refl | some max_len ↦ refl ]

  param_round-empty : q.found ≡ false → StepOk fwd synch limit (returned inner)
  param_round-empty f = record {
    shrinks = o.shrinks;
    progress = λ g. cc;
    drained = λ g. (o.drained f).0;
    kind = λ g. cc;
    bounded = rw ((o.drained f).1) within_zero;
    copied = o.copied ∙ (o.drained f).1 ∙ copied_zero ∙ ap (copied_len limit) (sym (o.drained f).1);
    param = refl;
    valid = ground arith;
  }

  param_round-interrupted :
      q.found ≡ true
      → is_special q.ctrl ≡ true
      → StepOk fwd synch limit (returned (interrupted inner))
  param_round-interrupted f c = record {
    shrinks = o.shrinks;
    progress = λ g. o.progress f refl;
    drained = λ g. cc;
    kind = λ g. inr (refl, refl);
    bounded = within_zero;
    copied = copied_zero;
    param = refl;
    valid = refl;
  }

  param_round-complete :
      q.found ≡ true → StepOk fwd synch limit (returned (complete (absorbed inner)))
  param_round-complete f = record {
    shrinks = o.shrinks;
    progress = λ g. o.progress f refl;
    drained = λ g. cc;
    kind = λ g. inr (ground arith, refl);
    bounded = within_zero;
    copied = copied_zero;
    param = ground arith;
    valid = refl;
  }

  param_round-again :
      q.found ≡ true
      → 0 < q.scan.actual_len
      → (synch.recv_count + q.scan.actual_len == 4) ≡ false
      → StepOk fwd synch limit (again (absorbed inner))
  param_round-again f pos ne = (ground (arith, o.bounded), omega arith, o.progress f refl)

  within_left : leb q.scan.actual_len (4 - synch.recv_count) ≡ true
  within_left = o.bounded

  param_round-StepOk :
      (step : ParamRound) × (param_round synch inner ≡ ok step) × StepOk fwd synch limit step
  unfolding param_round
  param_round-StepOk = elim (Bool-cases q.found) [
    | inl f ↦ elim (o.kind f) [
      | inl (c, pos) ↦ elim (Bool-cases (synch.recv_count + q.scan.actual_len == 4)) [
        | inl e ↦ (
          returned (complete (absorbed inner)),
          rw (f, c, lt→ltb _ _ pos, within_left, e),
          param_round-complete f,
        )
        | inr e ↦ (
          again (absorbed inner),
          rw (f, c, lt→ltb _ _ pos, within_left, e),
          param_round-again f pos e,
        )
      ]
      | inr (c, len) ↦ (
        returned (interrupted inner),
        rw (f, special_ne_none q.ctrl c, len),
        param_round-interrupted f c,
      )
    ]
    | inr f ↦ (returned inner, rw f, param_round-empty f)
  ]

DecodeOk-trans :
    (fwd fwd' : Decoder) (synch synch' : DecoderSynch) (limit : Option ℕ) (r : Decoded)
    → fuel_of synch'.recv_in_escape fwd'.pending ≤ fuel_of synch.recv_in_escape fwd.pending
    → DecodeOk fwd' synch' limit r
    → DecodeOk fwd synch limit r
DecodeOk-trans fwd fwd' synch synch' limit r less o = record {
  shrinks = omega (arith, o.shrinks);
  progress = λ f. omega (arith, o.progress f);
  drained = o.drained;
  kind = o.kind;
  bounded = o.bounded;
  copied = o.copied;
  param = o.param;
  valid = o.valid;
}

decode_param-DecodeOk :
    (fuel : ℕ) (fwd : Decoder) (synch : DecoderSynch) (limit : Option ℕ)
    → waits synch ≡ true
    → 4 ≤ synch.recv_count + fuel
    → (r : Decoded) × (decode_param fuel fwd synch ≡ ok r) × DecodeOk fwd synch limit r
unfolding decode_param is_parametrized
decode_param-DecodeOk zero fwd synch limit w h = absurd (ground arith)
decode_param-DecodeOk (suc fuel) fwd synch limit w h =
    let (q, e, o) = internal_decode-ScanOk fwd synch (some (4 - synch.recv_count)) (ground arith) in
    let (step, f, o') = param_round-StepOk fwd synch limit w q o in
    rest e step f o' (λ r. decode_param-DecodeOk fuel r.fwd r.synch limit)
  where
    guards :
        (is_special synch.recv_current ≡ true)
        × (takes_param synch.recv_current ≡ true)
        × ((synch.recv_current == fwc_none) ≡ false)
        × (ltb synch.recv_count 4 ≡ true)
    guards = ground arith

    rest :
        {q : Scanned}
        → internal_decode fwd synch (some (4 - synch.recv_count)) ≡ ok (decoded_of fwd synch q)
        → (step : ParamRound) → param_round synch (decoded_of fwd synch q) ≡ ok step
        → StepOk fwd synch limit step
        → ((r : Decoded)
            → waits r.synch ≡ true
            → 4 ≤ r.synch.recv_count + fuel
            → (r' : Decoded) × (decode_param fuel r.fwd r.synch ≡ ok r')
              × DecodeOk r.fwd r.synch limit r')
        → (r : Decoded) × (decode_param (suc fuel) fwd synch ≡ ok r) × DecodeOk fwd synch limit r
    rest e (returned r) f o go = (r, rw (guards.0, guards.1, guards.2, guards.3, e, f), o)
    rest e (again r) f o go =
        let (r', g, o') = go r o.0 (omega (arith, o.1)) in
        (
          r',
          rw (guards.0, guards.1, guards.2, guards.3, e, f) g,
          DecodeOk-trans fwd r.fwd synch r.synch limit r' (omega (arith, o.2)) o',
        )

module _ (fwd : Decoder) (synch : DecoderSynch) (limit : Option ℕ)
    (idle : (synch.recv_current == fwc_none) ≡ true) (q : Scanned)
    (o : ScanOk limit (scan_start synch) fwd.pending q) where
  abbrev first : Decoded
  first = decoded_of fwd synch q

  first-DecodeOk : DecodeOk fwd synch limit first
  first-DecodeOk = record {
    shrinks = o.shrinks;
    progress = λ f. o.progress f refl;
    drained = λ f. (o.drained f).0;
    kind = o.kind;
    bounded = o.bounded;
    copied = o.copied;
    param = refl;
    valid = ground arith;
  }

  decode_ctrl-waits :
      is_special q.ctrl ≡ true
      → q.scan.actual_len ≡ 0
      → takes_param q.ctrl ≡ true
      → decode_ctrl first ≡ decode_param param_rounds first.fwd (begin_param first)
  unfolding decode_ctrl is_parametrized
  decode_ctrl-waits c len w = rw (len, c, w)

  decode_first-ctrl :
      q.found ≡ true → is_special q.ctrl ≡ true → decode_first limit first ≡ decode_ctrl first
  unfolding decode_first
  decode_first-ctrl f c = rw (f, special_ne_none q.ctrl c)

  decode_ctrl-DecodeOk :
      is_special q.ctrl ≡ true
      → q.scan.actual_len ≡ 0
      → q.found ≡ true
      → (r : Decoded) × (decode_ctrl first ≡ ok r) × DecodeOk fwd synch limit r
  unfolding decode_ctrl is_parametrized
  decode_ctrl-DecodeOk c len f = elim (Bool-cases (takes_param q.ctrl)) [
    | inl w ↦
        let (r, e, o') =
          decode_param-DecodeOk param_rounds first.fwd (begin_param first) limit (rw w refl)
            (omega arith) in
        (
          r,
          decode_ctrl-waits c len w ∙ e,
          DecodeOk-trans fwd _ synch (begin_param first) limit r o.shrinks o',
        )
    | inr w ↦ (first, rw (len, c, w), first-DecodeOk)
  ]

  decode_first-DecodeOk :
      (r : Decoded) × (decode_first limit first ≡ ok r) × DecodeOk fwd synch limit r
  unfolding decode_first
  decode_first-DecodeOk = elim (Bool-cases q.found) [
    | inl f ↦ elim (o.kind f) [
      | inl (c, pos) ↦ (first, rw (f, c, lt→ltb _ _ pos, o.bounded), first-DecodeOk)
      | inr (c, len) ↦
          let (r, e, o') = decode_ctrl-DecodeOk c len f in (r, decode_first-ctrl f c ∙ e, o')
    ]
    | inr f ↦ (first, rw f, first-DecodeOk)
  ]

-- On any line, from a valid decoder state and with a limit that is not zero, the decoder returns: no
-- assertion fails, the state stays valid, what it reports is a control character or some data within
-- the limit, each report uses up part of the line, and without a report the line is drained.
pub dec_decode-DecodeOk :
    (fwd : Decoder) (synch : DecoderSynch) (limit : Option ℕ)
    → SynchIsValid synch
    → limit_ok limit ≡ true
    → (r : Decoded) × (dec_decode fwd synch limit ≡ ok r) × DecodeOk fwd synch limit r
unfolding dec_decode
dec_decode-DecodeOk fwd synch limit valid fits =
    elim (Bool-cases (synch.recv_current == fwc_none)) [
      | inl idle ↦
          let (q, e, o) = internal_decode-ScanOk fwd synch limit fits in
          let (r, f, o') = decode_first-DecodeOk fwd synch limit idle q o in
          (r, rw (fits, idle, e) f, o')
      | inr busy ↦
          let (r, e, o) =
            decode_param-DecodeOk param_rounds fwd synch limit (rw busy at valid) (omega arith) in
          (r, rw (fits, busy) e, o)
    ]
