-- ===== src/Synch/Flag.antt =====
-- include/synch/flag.h: a fault that is reported when it begins, now and then while it lasts, and
-- when it has ended. The clock is read by the caller and passed in.
use hailburst.Prelude.{
  ℕ, ◌+◌, ◌%◌, ◌^◌, Bool, true, false, not, ◌&&◌, ◌||◌, ltb, leb, if◌then◌else◌,
}

-- FLAG_SUSTAIN_PERIOD_NS and FLAG_RECOVER_PERIOD_NS
abbrev pub sustain_period_ns : ℕ
sustain_period_ns = 100_000_000

abbrev pub recover_period_ns : ℕ
recover_period_ns = 10_000_000

pub record Flag : Type 0 where
  pub sustained : Bool
  pub last_raised : ℕ
  pub last_sustained : ℕ

-- FLAG_INITIALIZER
abbrev pub initial_flag : Flag
initial_flag = record { sustained = false; last_raised = 0; last_sustained = 0 }

abbrev pub add64 : ℕ → ℕ → ℕ
add64 a b = (a + b) % 2 ^ 64

-- The new flag, and whether the fault is to be reported.
unfoldable pub flag_raise_check : Flag → ℕ → Flag × Bool
flag_raise_check f now =
    if not f.sustained
      || ltb now f.last_sustained
      || leb (add64 f.last_sustained sustain_period_ns) now
    then (record { sustained = true; last_raised = now; last_sustained = now }, true)
    else (record f { last_raised = now }, false)

unfoldable pub flag_recover_check : Flag → ℕ → Flag × Bool
flag_recover_check f now =
    if f.sustained && (ltb now f.last_raised || leb (add64 f.last_raised recover_period_ns) now)
    then (record f { sustained = false }, true)
    else (f, false)
