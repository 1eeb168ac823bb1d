-- ===== src/Synch/Circular/Segment.antt =====
-- The elements of a ring that a run of counters names.
use native.Mathlib.Nat.{div-add-mod'}
use hailburst.Prelude.{
  ℕ, zero, suc, ◌+◌, ◌-◌, ◌%◌, ◌≤◌, ◌<◌, ◌≡◌, refl, ap, ◌≢◌, false, List, [], ◌∷◌, ◌++◌, some, ◌==◌,
  length, get_elem?, drop, update, arith,
}

mod_apart : (n a b : ℕ) → a < b → b < a + n → a % n ≢ b % n
mod_apart n a b lt near e = absurd (grind (arith, div-add-mod' a n, div-add-mod' b n))

module _ {ℓ} {A : Type ℓ} where
  -- The `k` elements from the counter `r` on.
  unfoldable pub segment : (ℕ → A) → ℕ → ℕ → ℕ → List A
  segment f n r zero = []
  segment f n r (suc k) = f (r % n) ∷ segment f n (r + 1) k

  pub segment-get_elem? :
      (f : ℕ → A) (n r k i : ℕ) → i < k → get_elem? (segment f n r k) i ≡ some (f ((r + i) % n))
  unfolding segment
  segment-get_elem? f n r zero i h = absurd (omega arith)
  segment-get_elem? f n r (suc k) zero h = let same : r + 0 ≡ r = omega arith in rw same refl
  segment-get_elem? f n r (suc k) (suc i) h =
      let shift : r + suc i ≡ r + 1 + i = omega arith in
      rw shift (segment-get_elem? f n (r + 1) k i (omega arith))

  pub length-segment : (f : ℕ → A) (n r k : ℕ) → length (segment f n r k) ≡ k
  unfolding segment
  length-segment f n r zero = refl
  length-segment f n r (suc k) = omega (arith, length-segment f n (r + 1) k)

  pub drop-segment :
      (f : ℕ → A) (n r k j : ℕ) → j ≤ k → drop j (segment f n r k) ≡ segment f n (r + j) (k - j)
  unfolding segment
  drop-segment f n r k zero h =
      let same : r + 0 ≡ r = omega arith in let all : k - 0 ≡ k = omega arith in rw (same, all) refl
  drop-segment f n r zero (suc j) h = absurd (omega arith)
  drop-segment f n r (suc k) (suc j) h =
      let shift : r + suc j ≡ r + 1 + j = omega arith in
      let rest : suc k - suc j ≡ k - j = omega arith in
      rw (shift, rest) (drop-segment f n (r + 1) k j (omega arith))

  -- One more element stands at the end.
  pub segment-suc :
      (f : ℕ → A) (n r k : ℕ) → segment f n r (suc k) ≡ segment f n r k ++ f ((r + k) % n) ∷ []
  unfolding segment
  segment-suc f n r zero = let same : r + 0 ≡ r = omega arith in rw same refl
  segment-suc f n r (suc k) =
      let shift : r + suc k ≡ r + 1 + k = omega arith in
      rw shift (ap (λ t. f (r % n) ∷ t) (segment-suc f n (r + 1) k))

  -- A place that the segment does not reach may change.
  pub segment-update :
      (f : ℕ → A) (v : A) (n r k w : ℕ)
      → r + k ≤ w
      → w < r + n
      → segment (update f (w % n) v) n r k ≡ segment f n r k
  unfolding segment
  segment-update f v n r zero w h near = refl
  segment-update f v n r (suc k) w h near =
      let rest : segment (update f (w % n) v) n (r + 1) k ≡ segment f n (r + 1) k =
        segment-update f v n (r + 1) k w (omega arith) (omega arith) in
      let away : (r % n == w % n) ≡ false = ground (arith, mod_apart n r w (omega arith) near) in
      rw (away, rest) refl
