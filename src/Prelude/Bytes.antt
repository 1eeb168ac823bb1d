-- ===== src/Prelude/Bytes.antt =====
-- Numbers as their big-endian bytes, as htobe32, be32toh and be64toh lay them out in memory.
use Prim.Native.Nat.{ℕ, zero, suc, ◌+◌, ◌*◌, ◌/◌, ◌%◌, ◌^◌, ◌<◌}
use mathlib.Core.Path.{◌≡◌, refl}
use mathlib.Core.List.{List, [], ◌∷◌, ◌++◌}
use native.Mathlib.Omega.{arith}
use hailburst.Prelude.Lists.{get_or, length, take, drop}

abbrev pub AllBytes : List ℕ → Type 0
AllBytes [] = Unit {0}
AllBytes (b ∷ bs) = (b < 256) × AllBytes bs

-- The bytes of htobe32(x) in memory, and be32toh of four bytes in memory.
abbrev pub be32 : ℕ → List ℕ
be32 x = x / 2 ^ 24 % 256 ∷ x / 2 ^ 16 % 256 ∷ x / 2 ^ 8 % 256 ∷ x % 256 ∷ []

abbrev pub of_be32 : List ℕ → ℕ
of_be32 bs = get_or bs 0 0 * 2 ^ 24 + get_or bs 1 0 * 2 ^ 16 + get_or bs 2 0 * 2 ^ 8 + get_or bs 3 0

pub of_be32-be32 : (x : ℕ) → x < 2 ^ 32 → of_be32 (be32 x) ≡ x
of_be32-be32 x h = omega arith

pub be32-AllBytes : (x : ℕ) → AllBytes (be32 x)
be32-AllBytes x = omega arith

pub append-AllBytes : (xs ys : List ℕ) → AllBytes xs → AllBytes ys → AllBytes (xs ++ ys)
append-AllBytes [] ys h k = k
append-AllBytes (x ∷ xs) ys h k = (h.0, append-AllBytes xs ys h.1 k)

pub append-AllBytes_right : (xs ys : List ℕ) → AllBytes (xs ++ ys) → AllBytes ys
append-AllBytes_right [] ys h = h
append-AllBytes_right (x ∷ xs) ys h = append-AllBytes_right xs ys h.1

be32-bytes :
    (a b c d : ℕ)
    → AllBytes (a ∷ b ∷ c ∷ d ∷ [])
    → be32 (of_be32 (a ∷ b ∷ c ∷ d ∷ [])) ≡ a ∷ b ∷ c ∷ d ∷ []
be32-bytes a b c d h =
    let x = a * 2 ^ 24 + b * 2 ^ 16 + c * 2 ^ 8 + d in
    let ea : x / 2 ^ 24 % 256 ≡ a = omega arith in
    let eb : x / 2 ^ 16 % 256 ≡ b = omega arith in
    let ec : x / 2 ^ 8 % 256 ≡ c = omega arith in
    let ed : x % 256 ≡ d = omega arith in rw (ea, eb, ec, ed) refl

pub be32-of_be32 : (xs : List ℕ) → length xs ≡ 4 → AllBytes xs → be32 (of_be32 xs) ≡ xs
be32-of_be32 (a ∷ b ∷ c ∷ d ∷ []) e h = be32-bytes a b c d h
be32-of_be32 [] e h = absurd (omega arith)
be32-of_be32 (a ∷ []) e h = absurd (omega arith)
be32-of_be32 (a ∷ b ∷ []) e h = absurd (omega arith)
be32-of_be32 (a ∷ b ∷ c ∷ []) e h = absurd (omega arith)
be32-of_be32 (a ∷ b ∷ c ∷ d ∷ x ∷ xs) e h = absurd (omega arith)

pub of_be32-lt : (xs : List ℕ) → length xs ≡ 4 → AllBytes xs → of_be32 xs < 2 ^ 32
of_be32-lt (a ∷ b ∷ c ∷ d ∷ []) e h = omega arith
of_be32-lt [] e h = absurd (omega arith)
of_be32-lt (a ∷ []) e h = absurd (omega arith)
of_be32-lt (a ∷ b ∷ []) e h = absurd (omega arith)
of_be32-lt (a ∷ b ∷ c ∷ []) e h = absurd (omega arith)
of_be32-lt (a ∷ b ∷ c ∷ d ∷ x ∷ xs) e h = absurd (omega arith)

pub take-AllBytes : (n : ℕ) (xs : List ℕ) → AllBytes xs → AllBytes (take n xs)
take-AllBytes zero xs h = tt
take-AllBytes (suc n) [] h = tt
take-AllBytes (suc n) (x ∷ xs) h = (h.0, take-AllBytes n xs h.1)

pub drop-AllBytes : (n : ℕ) (xs : List ℕ) → AllBytes xs → AllBytes (drop n xs)
drop-AllBytes zero xs h = h
drop-AllBytes (suc n) [] h = tt
drop-AllBytes (suc n) (x ∷ xs) h = drop-AllBytes n xs h.1

-- The bytes of htobe64(x), and those of a 32-bit number as the processor lays it out.
abbrev pub be64 : ℕ → List ℕ
be64 x = be32 (x / 2 ^ 32) ++ be32 x

abbrev pub le32 : ℕ → List ℕ
le32 x = x % 256 ∷ x / 2 ^ 8 % 256 ∷ x / 2 ^ 16 % 256 ∷ x / 2 ^ 24 % 256 ∷ []

abbrev pub of_le32 : List ℕ → ℕ
of_le32 bs = get_or bs 0 0 + get_or bs 1 0 * 2 ^ 8 + get_or bs 2 0 * 2 ^ 16 + get_or bs 3 0 * 2 ^ 24

pub of_le32-le32 : (x : ℕ) → x < 2 ^ 32 → of_le32 (le32 x) ≡ x
of_le32-le32 x h = omega arith

abbrev pub le64 : ℕ → List ℕ
le64 x = le32 x ++ le32 (x / 2 ^ 32)

abbrev pub of_le64 : List ℕ → ℕ
of_le64 bs = of_le32 bs + of_le32 (drop 4 bs) * 2 ^ 32

pub of_le64-le64 : (x : ℕ) (rest : List ℕ) → x < 2 ^ 64 → of_le64 (le64 x ++ rest) ≡ x
of_le64-le64 x rest h = omega arith
