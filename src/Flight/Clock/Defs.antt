-- ===== src/Flight/Clock/Defs.antt =====
-- The variables and the functions of include/flight/clock.h.
use hailburst.Prelude.{ℕ, zero, suc, ◌+◌, ◌-◌, ◌/◌, ◌%◌, ◌^◌, Bool, not, ◌==◌, leb, if◌then◌else◌}

-- The variables of clock.c, with CLOCK_REPLICAS.
pub record Clock : Type 0 where
  pub replicas : ℕ
  pub offset_adj_slow : ℕ → ℕ
  pub offset_adj_fast : ℕ
  pub calibration_required : Bool

abbrev pub clock_uncalibrated : ℕ
clock_uncalibrated = 0

-- CLOCK_REPLICA_MAJORITY
abbrev pub replica_majority : Clock → ℕ
replica_majority c = 1 + c.replicas / 2

-- The inner loop of the vote, over the `n` replicas from `compare_i` on.
unfoldable pub count_votes : Clock → ℕ → ℕ → ℕ → ℕ → ℕ
count_votes c result zero compare_i votes = votes
count_votes c result (suc n) compare_i votes =
    count_votes c result n (compare_i + 1)
      (if c.offset_adj_slow compare_i == result then votes + 1 else votes)

-- The outer loop: `k` candidates are left from `result_i` on.
unfoldable pub pick_offset : Clock → ℕ → ℕ → ℕ
unfolding count_votes
pick_offset c zero result_i = c.offset_adj_fast
pick_offset c (suc k) result_i =
    let rest = pick_offset c k (result_i + 1) in
    let result = c.offset_adj_slow result_i in
    let votes = count_votes c result (c.replicas - (result_i + 1)) (result_i + 1) 1 in
    if leb (replica_majority c) votes then result else rest

unfoldable pub clock_offset_adj_vote : Clock → ℕ
unfolding pick_offset
clock_offset_adj_vote c = pick_offset c (c.replicas - replica_majority c + 1) 0

unfoldable pub clock_mission_adjust : Clock → ℕ → ℕ
unfolding clock_offset_adj_vote
clock_mission_adjust c clock_mono = (clock_mono + clock_offset_adj_vote c) % 2 ^ 64

unfoldable pub clock_is_calibrated : Clock → Bool
unfolding clock_offset_adj_vote
clock_is_calibrated c = not (clock_offset_adj_vote c == clock_uncalibrated)
