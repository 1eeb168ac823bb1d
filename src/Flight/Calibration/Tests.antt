-- ===== src/Flight/Calibration/Tests.antt =====
-- A calibrated clock on which the theorems are applied.
use hailburst.Prelude.{ℕ, ◌≤◌, ◌≡◌, refl, Bool, true, not, ◌==◌, if◌then◌else◌, arith}
use hailburst.Synch.Duct.Receive.{count_good}
use hailburst.Flight.Clock.{Clock, replica_majority, clock_mission_adjust, clock_is_calibrated}
use hailburst.Flight.Calibration.Defs.{adjustment}
use hailburst.Flight.Calibration.Offset.{clock_mission_adjust-adjustment}

-- The second of three replicas has another offset.
abbrev others : ℕ → Bool
others s = not (s == 1)

abbrev calibrated_clock : Clock
calibrated_clock = record {
  replicas = 3;
  offset_adj_slow = λ s. if others s then adjustment 1000 40 else 6;
  offset_adj_fast = 0;
  calibration_required = true;
}

others-quorum : replica_majority calibrated_clock ≤ count_good others 3 0
unfolding count_good
others-quorum = omega arith

clock_mission_adjust-adjustment_example :
    (clock_is_calibrated calibrated_clock ≡ true)
    × (clock_mission_adjust calibrated_clock 47 ≡ 1007)
clock_mission_adjust-adjustment_example =
    clock_mission_adjust-adjustment calibrated_clock others 1000 40 7 (omega arith) (omega arith)
      (omega arith) others-quorum (λ s g. rw g refl)
