-- ===== src/Flight/Calibration/Offset.antt =====
-- Calibration makes the mission time of the network's timestamp the time that the clock reported.
use native.Mathlib.Decide.{ℕ_discrete}
use hailburst.Prelude.{
  ℕ, zero, suc, ◌+◌, ◌%◌, ◌^◌, ◌≤◌, ◌<◌, ◌≡◌, refl, ◌↔◌, inl, inr, Bool, true, false, ◌==◌, ==_refl,
  if◌then◌else◌, Bool-cases, arith,
}
use hailburst.Synch.Duct.Receive.{count_good}
use hailburst.Flight.Clock.{
  Clock, replica_majority, clock_offset_adj_vote, clock_mission_adjust, clock_is_calibrated,
}
use hailburst.Flight.Clock.Vote.{holders, clock_offset_adj_vote_lem}
use hailburst.Flight.Calibration.Defs.{adjustment, count_mismatches, clock_voter_clip}

holders-ge :
    (c : Clock) (x : ℕ) (good : ℕ → Bool) (n i : ℕ)
    → ((s : ℕ) → good s ≡ true → c.offset_adj_slow s ≡ x)
    → count_good good n i ≤ holders c x n i
unfolding count_good holders
holders-ge c x good zero i h = omega arith
holders-ge c x good (suc n) i h = elim (Bool-cases (good i)) [
  | inl g ↦ rw (g, h i g, ==_refl x) (omega (arith, holders-ge c x good n (i + 1) h))
  | inr g ↦ rw g (omega (arith, holders-ge c x good n (i + 1) h))
]

-- If a strict majority of the replicas hold the offset of a received timestamp from that of the network,
-- the clock is calibrated, and the mission time of a local time is the received timestamp and what has
-- passed since, modulo 2 ^ 64, one nanosecond more where the two timestamps are the same.
pub clock_mission_adjust-adjustment :
    (c : Clock) (good : ℕ → Bool) (received network passed : ℕ)
    → received < 2 ^ 64
    → network < 2 ^ 64
    → 1 ≤ c.replicas
    → replica_majority c ≤ count_good good c.replicas 0
    → ((s : ℕ) → good s ≡ true → c.offset_adj_slow s ≡ adjustment received network)
    → (clock_is_calibrated c ≡ true)
      × (clock_mission_adjust c (network + passed)
          ≡ (received + passed + (if received == network then 1 else 0)) % 2 ^ 64)
unfolding clock_is_calibrated clock_mission_adjust
clock_mission_adjust-adjustment c good received network passed small_received small_network some
      quorum agree =
    let vote : clock_offset_adj_vote c ≡ adjustment received network =
      (clock_offset_adj_vote_lem c some).0 (adjustment received network) (
        omega
          (arith, quorum, holders-ge c (adjustment received network) good c.replicas 0 agree)) in
    rw vote (ground arith, ground arith)

count_mismatches-agree :
    (c : Clock) (x n i : ℕ)
    → ((s : ℕ) → i ≤ s → s < i + n → c.offset_adj_slow s ≡ x)
    → count_mismatches c x n i ≡ 0
unfolding count_mismatches
count_mismatches-agree c x zero i h = refl
count_mismatches-agree c x (suc n) i h =
    rw (h i (omega arith) (omega arith), ==_refl x)
      (omega
        (arith, count_mismatches-agree c x n (i + 1) (λ s l u. h s (omega arith) (omega arith))))

count_mismatches-zero :
    (c : Clock) (x n i s : ℕ)
    → count_mismatches c x n i ≡ 0
    → i ≤ s
    → s < i + n
    → c.offset_adj_slow s ≡ x
unfolding count_mismatches
count_mismatches-zero c x zero i s h l u = absurd (omega arith)
count_mismatches-zero c x (suc n) i s h l u = elim (ℕ_discrete i s) [
  | yes e ↦ ground arith
  | no ne ↦ count_mismatches-zero c x n (i + 1) s (ground arith) (omega arith) (omega arith)
]

-- After the voter's clip, the fallback is the vote, and no calibration is
-- required exactly if the vote gives a calibrated offset that every replica holds.
pub clock_voter_clip_lem :
    (c : Clock)
    → ((clock_voter_clip c).offset_adj_fast ≡ clock_offset_adj_vote c)
      × (((clock_voter_clip c).calibration_required ≡ false) ↔ (
          (clock_is_calibrated c ≡ true)
          × ((s : ℕ) → s < c.replicas → c.offset_adj_slow s ≡ clock_offset_adj_vote c)))
unfolding clock_voter_clip clock_is_calibrated
clock_voter_clip_lem c =
    let x = clock_offset_adj_vote c in
    (
      refl,
      (
        (λ e. (
          ground arith,
          λ s h.
              count_mismatches-zero c x c.replicas 0 s (ground arith) (omega arith) (omega arith),
        )),
        λ (calibrated, same).
            let agree = count_mismatches-agree c x c.replicas 0 (λ s _ h. same s (omega arith)) in
            ground (arith, agree),
      ),
    )
