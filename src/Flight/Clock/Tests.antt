-- ===== src/Flight/Clock/Tests.antt =====
-- A clock on which the theorem about the vote is applied.
use hailburst.Prelude.{ℕ, ◌-◌, ◌^◌, ◌≤◌, ◌<◌, ◌≡◌, true, ◌==◌, if◌then◌else◌, arith}
use hailburst.Flight.Clock.Defs.{Clock, replica_majority, clock_offset_adj_vote}
use hailburst.Flight.Clock.Vote.{holders, clock_offset_adj_vote_lem}

-- Three replicas, of which the first has another offset.
abbrev three_offsets : Clock
three_offsets = record {
  replicas = 3;
  offset_adj_slow = λ i. if i == 0 then 5 else 2 ^ 64 - 9;
  offset_adj_fast = 5;
  calibration_required = true;
}

clock_offset_adj_vote_lem_example :
    ((x : ℕ)
      → replica_majority three_offsets ≤ holders three_offsets x 3 0
      → clock_offset_adj_vote three_offsets ≡ x)
    × (((x : ℕ) → holders three_offsets x 3 0 < replica_majority three_offsets)
        → clock_offset_adj_vote three_offsets ≡ 5)
clock_offset_adj_vote_lem_example = clock_offset_adj_vote_lem three_offsets (omega arith)
