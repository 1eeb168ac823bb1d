-- ===== src/Vivid/Watchdog/Power.antt =====
-- The watchdog's power is the power, modulo 2 ^ 32.
use native.Mathlib.Nat.{
  pow-zero, pow-suc, mod-add-div', add-mul-mod_self_right, mul_comm, mul_assoc, div-div-eq-div-mul,
}
use hailburst.Prelude.{
  ℕ, zero, suc, ◌+◌, ◌*◌, ◌/◌, ◌%◌, ◌^◌, ◌<◌, ◌≡◌, refl, sym, ap, ◌∙◌, ◌==◌, ==_iff, inl, inr,
  Bool-cases, arith,
}
use hailburst.Vivid.Watchdog.Food.{power_loop, integer_power_truncated}

halve : (p i : ℕ) → p / 2 ^ i ≡ p / 2 ^ suc i * 2 + p / 2 ^ i % 2
halve p i =
    let next : p / 2 ^ suc i ≡ p / 2 ^ i / 2 =
      ap (λ t. p / t) (pow-suc 2 i) ∙ sym (div-div-eq-div-mul p (2 ^ i) 2) in
    rw next (omega arith)

pow_add : (b m n : ℕ) → b ^ (m + n) ≡ b ^ m * b ^ n
pow_add b m zero = let same : m + 0 ≡ m = omega arith in rw (same, pow-zero b) (omega arith)
pow_add b m (suc n) =
    let shift : m + suc n ≡ suc (m + n) = omega arith in
    rw shift (
      pow-suc b (m + n)
      ∙ ap (λ t. t * b) (pow_add b m n)
      ∙ mul_assoc (b ^ m) (b ^ n) b
      ∙ ap (λ t. b ^ m * t) (sym (pow-suc b n)))

-- A factor may be reduced first.
mod-mul_left : (a b m : ℕ) → a % m * b % m ≡ a * b % m
mod-mul_left a b m =
    let split : a * b ≡ a % m * b + a / m * b * m = grind (arith, mod-add-div' a m) in
    rw split (sym (add-mul-mod_self_right (a % m * b) (a / m * b) m))

mod-square : (a m : ℕ) → a % m * (a % m) % m ≡ a * a % m
mod-square a m =
    mod-mul_left a (a % m) m ∙ ap (λ t. t % m) (mul_comm a (a % m)) ∙ mod-mul_left a a m

power_loop-pow :
    (base power n out : ℕ)
    → out ≡ base ^ (power / 2 ^ n) % 2 ^ 32
    → power_loop base power n out ≡ base ^ power % 2 ^ 32
unfolding power_loop
power_loop-pow base power zero out h =
    let whole : power / 2 ^ 0 ≡ power = omega arith in h ∙ ap (λ t. base ^ t % 2 ^ 32) whole
power_loop-pow base power (suc i) out h =
    let q = power / 2 ^ suc i in
    let squared : out * out % 2 ^ 32 ≡ base ^ (q + q) % 2 ^ 32 =
      ap (λ (t : ℕ). t * t % 2 ^ 32) h
      ∙ mod-square (base ^ q) (2 ^ 32)
      ∙ ap (λ t. t % 2 ^ 32) (sym (pow_add base q q)) in
    elim (Bool-cases (power / 2 ^ i % 2 == 1)) [
      | inl set ↦
          let odd : power / 2 ^ i ≡ suc (q + q) =
            omega (arith, halve power i, (==_iff _ 1).0 set) in
          rw set (
            power_loop-pow base power i _ (
              ap (λ (t : ℕ). t * base % 2 ^ 32) squared
              ∙ mod-mul_left (base ^ (q + q)) base (2 ^ 32)
              ∙ ap (λ t. t % 2 ^ 32) (sym (pow-suc base (q + q)))
              ∙ ap (λ t. base ^ t % 2 ^ 32) (sym odd)))
      | inr clear ↦
          let even : power / 2 ^ i ≡ q + q = ground (arith, halve power i) in
          rw clear
            (power_loop-pow base power i _ (squared ∙ ap (λ t. base ^ t % 2 ^ 32) (sym even)))
    ]

-- For an exponent of 16 bits, the square-and-multiply loop gives the power of the base, modulo 2 ^ 32.
pub integer_power_truncated_lem :
    (base power : ℕ) → power < 2 ^ 16 → integer_power_truncated base power ≡ base ^ power % 2 ^ 32
unfolding integer_power_truncated
integer_power_truncated_lem base power small =
    let gone : power / 2 ^ 16 ≡ 0 = omega arith in
    power_loop-pow base power 16 1 (rw (gone, pow-zero base) refl)
