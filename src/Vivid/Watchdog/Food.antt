-- ===== src/Vivid/Watchdog/Food.antt =====
-- The watchdog's arithmetic, on 32-bit numbers.
use Prim.Native.Nat.{bit_and, bit_or, bit_xor}
use hailburst.Prelude.{ℕ, zero, suc, ◌+◌, ◌-◌, ◌*◌, ◌/◌, ◌%◌, ◌^◌, ◌==◌, if◌then◌else◌}

-- The loop of `integer_power_truncated` over the bits of the power from `n - 1` down.
unfoldable pub power_loop : ℕ → ℕ → ℕ → ℕ → ℕ
power_loop base power zero out = out
power_loop base power (suc i) out =
    let squared = out * out % 2 ^ 32 in
    power_loop base power i (if power / 2 ^ i % 2 == 1 then squared * base % 2 ^ 32 else squared)

unfoldable pub integer_power_truncated : ℕ → ℕ → ℕ
unfolding power_loop
integer_power_truncated base power = power_loop base power 16 1

-- The loop of `wdt_strict_food_from_recipe` over the bits from `i` on.
unfoldable pub xor_reversed : ℕ → ℕ → ℕ → ℕ → ℕ
xor_reversed recipe zero i result = result
xor_reversed recipe (suc n) i result =
    xor_reversed recipe n (i + 1) (bit_xor result (recipe / 2 ^ i % 2 * 2 ^ (31 - i)))

unfoldable pub wdt_strict_food_from_recipe : ℕ → ℕ
unfolding xor_reversed integer_power_truncated
wdt_strict_food_from_recipe recipe =
    xor_reversed recipe 32 0
      (integer_power_truncated (bit_or (recipe / 2 ^ 8) 1) (bit_and recipe 0xFFFF))
