-- ===== src/Bus/Codec/Line.antt =====
-- The line form of data bytes: what an escape does to a byte, and where a run of data bytes ends.
use native.Mathlib.Decide.{ℕ_discrete}
use hailburst.Prelude.{
  if◌then◌else◌, Bool-cases, inl, inr, false, ℕ, zero, suc, ◌<◌, ◌≡◌, refl, Bool, true, not, ◌&&◌,
  List, [], ◌∷◌, ◌++◌, ◌==◌, arith, ==_iff,
}
use hailburst.Bus.Codec.Symbol.{is_special, escape_sym, flip}
use hailburst.Bus.Codec.Encode.{escaped}

-- A test over the numbers below `n`, and what it shows.
unfoldable pub each_below : (ℕ → Bool) → ℕ → Bool
each_below test zero = true
each_below test (suc n) = if test n then each_below test n else false

pub each_below_lem : (test : ℕ → Bool) (n x : ℕ) → x < n → each_below test n ≡ true → test x ≡ true
unfolding each_below
each_below_lem test zero x inside passed = absurd (omega arith)
each_below_lem test (suc n) x inside passed = elim (Bool-cases (test n)) [
  | inr bad ↦ absurd (ground arith)
  | inl good ↦
      let rest : each_below test n ≡ true = (rw good at passed) in
      elim (ℕ_discrete x n) [
        | yes same ↦ rw same good
        | no other ↦ each_below_lem test n x (omega arith) rest
      ]
]

flip_table : each_below (λ x. flip (flip x) == x) 256 ≡ true
unfolding each_below flip
flip_table = refl

-- XOR with 0x10 undoes itself on a byte.
pub flip-flip : (x : ℕ) → x < 256 → flip (flip x) ≡ x
flip-flip x h =
    (==_iff (flip (flip x)) x).0 (each_below_lem (λ k. flip (flip k) == k) 256 x h flip_table)

-- The line form of data bytes: each special byte behind an escape, and flipped.
unfoldable pub escape_all : List ℕ → List ℕ
escape_all [] = []
escape_all (b ∷ bs) = escaped b ++ escape_all bs

-- Where a run of data bytes ends: at the end of the line, or before a control character.
abbrev pub boundary : List ℕ → Bool
boundary [] = true
boundary (c ∷ line) = is_special c && not (c == escape_sym)
