-- ===== src/Bus/Codec/Reading.antt =====
-- The decoder's scan (bus/codec.c) on the line form of data bytes.
use hailburst.Prelude.{
  ℕ, suc, ◌+◌, ◌≤◌, ◌<◌, ◌≡◌, ap, ◌∙◌, ◌⊎◌, inl, inr, true, false, List, [], ◌∷◌, ◌++◌, some,
  length, ◌==◌, if◌then◌else◌, Outcome, ok, arith, Bool-cases, lt→ltb, AllBytes,
}
use mathlib.Core.List.{append_assoc, append-nil}
use hailburst.Bus.Codec.Symbol.{is_special, escape_sym, fwc_none, flip}
use hailburst.Bus.Codec.Encode.{escaped}
use hailburst.Bus.Codec.Decode.{Scan, Scanned, stop, next, unless_full, scan_byte, scan_line}
use hailburst.Bus.Codec.Line.{flip-flip, escape_all, boundary}

abbrev pub scan_of : List ℕ → ℕ → Scan
scan_of out len = record { in_escape = false; out = out; actual_len = len }

-- The result of a scan that has found data.
abbrev pub run_of : List ℕ → ℕ → List ℕ → Scanned
run_of out len line = record { found = true; ctrl = fwc_none; scan = scan_of out len; left = line }

scan-boundary :
    (max_len : ℕ) (out : List ℕ) (len c : ℕ) (line : List ℕ)
    → 0 < len
    → boundary (c ∷ line) ≡ true
    → scan_byte (some max_len) (scan_of out len) c line ≡ stop (run_of out len (c ∷ line))
unfolding scan_byte
scan-boundary max_len out len c line pos b = ground arith

-- One data byte read back from its line form.
abbrev scanned_byte : ℕ → ℕ → List ℕ → ℕ → List ℕ → Outcome Scanned
scanned_byte max_len d out len line =
    if len + 1 == max_len
    then ok (run_of (out ++ d ∷ []) (len + 1) line)
    else scan_line (some max_len) (scan_of (out ++ d ∷ []) (len + 1)) line

scan_byte-escape :
    (max_len : ℕ) (out : List ℕ) (len : ℕ) (line : List ℕ)
    → len < max_len
    → scan_byte (some max_len) (scan_of out len) escape_sym line
      ≡ next (record { in_escape = true; out = out; actual_len = len })
unfolding scan_byte
scan_byte-escape max_len out len line room = ground arith

scan_byte-flipped :
    (max_len d : ℕ) (out : List ℕ) (len : ℕ) (line : List ℕ)
    → d < 256
    → is_special d ≡ true
    → scan_byte
        (some max_len)
        (record { in_escape = true; out = out; actual_len = len })
        (flip d)
        line
      ≡ unless_full (some max_len) (scan_of (out ++ d ∷ []) (len + 1)) line
unfolding scan_byte
scan_byte-flipped max_len d out len line byte special = rw (flip-flip d byte, special)

scan_byte-plain :
    (max_len d : ℕ) (out : List ℕ) (len : ℕ) (line : List ℕ)
    → is_special d ≡ false
    → scan_byte (some max_len) (scan_of out len) d line
      ≡ unless_full (some max_len) (scan_of (out ++ d ∷ []) (len + 1)) line
unfolding scan_byte
scan_byte-plain max_len d out len line plain = ground arith

scan-escaped :
    (max_len d : ℕ) (out : List ℕ) (len : ℕ) (line : List ℕ)
    → d < 256
    → len < max_len
    → scan_line (some max_len) (scan_of out len) (escaped d ++ line)
      ≡ scanned_byte max_len d out len line
unfolding scan_line
scan-escaped max_len d out len line byte room = elim (Bool-cases (is_special d)) [
  | inl special ↦
      rw
        (
          special,
          lt→ltb _ _ room,
          scan_byte-escape max_len out len (flip d ∷ line) room,
          lt→ltb _ _ room,
          scan_byte-flipped max_len d out len line byte special,
        )
        (ground arith)
  | inr plain ↦
      rw (plain, lt→ltb _ _ room, scan_byte-plain max_len d out len line plain) (ground arith)
]

run-shift :
    (out : List ℕ) (d : ℕ) (ds : List ℕ) (len : ℕ) (line : List ℕ)
    → run_of ((out ++ d ∷ []) ++ ds) (len + 1 + length ds) line
      ≡ run_of (out ++ d ∷ ds) (len + suc (length ds)) line
run-shift out d ds len line =
    let count : len + 1 + length ds ≡ len + suc (length ds) = omega arith in
    rw (append_assoc out (d ∷ []) ds, count)

-- Data that ends the run of bytes that the receiver has room for, or stands before a boundary, is read
-- back whole, and nothing behind it is touched.
pub scan-escape_all :
    (max_len : ℕ) (ds : List ℕ) (out : List ℕ) (len : ℕ) (line : List ℕ)
    → AllBytes ds
    → len < max_len
    → len + length ds ≤ max_len
    → 0 < len + length ds
    → (len + length ds ≡ max_len) ⊎ (boundary line ≡ true)
    → scan_line (some max_len) (scan_of out len) (escape_all ds ++ line)
      ≡ ok (run_of (out ++ ds) (len + length ds) line)
unfolding escape_all scan_line
scan-escape_all max_len [] out len [] bytes room fits pos ends = ground (arith, append-nil out)
scan-escape_all max_len [] out len (c ∷ line) bytes room fits pos ends =
    rw
      (
        lt→ltb _ _ room,
        scan-boundary max_len out len c line (omega arith) (ground arith),
        append-nil,
      )
      (ground arith)
scan-escape_all max_len (d ∷ ds) out len line bytes room fits pos ends =
    rw
      (
        append_assoc (escaped d) (escape_all ds) line,
        scan-escaped max_len d out len (escape_all ds ++ line) bytes.0 room,
      )
      (elim (Bool-cases (len + 1 == max_len)) [
        | inl full ↦ last ds full fits
        | inr more ↦ rw more (
            scan-escape_all max_len ds (out ++ d ∷ []) (len + 1) line bytes.1 (ground arith)
              (omega arith) (omega arith) (still ends)
            ∙ ap ok (run-shift out d ds len line))
      ])
  where
    still :
        (len + suc (length ds) ≡ max_len) ⊎ (boundary line ≡ true)
        → (len + 1 + length ds ≡ max_len) ⊎ (boundary line ≡ true)
    still (inl e) = inl (omega arith)
    still (inr b) = inr b

    last :
        (ds : List ℕ)
        → (len + 1 == max_len) ≡ true
        → len + suc (length ds) ≤ max_len
        → scanned_byte max_len d out len (escape_all ds ++ line)
          ≡ ok (run_of (out ++ d ∷ ds) (len + suc (length ds)) line)
    last [] full fits = rw full
    last (e ∷ ds) full fits = absurd (ground arith)
