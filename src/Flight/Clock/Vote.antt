-- ===== src/Flight/Clock/Vote.antt =====
-- The vote on the clock's offset is a vote: the offset that most replicas hold, or the fallback.
use native.Mathlib.Decide.{ℕ_discrete}
use hailburst.Prelude.{
  ℕ, zero, suc, ◌+◌, ◌-◌, ◌≤◌, ◌<◌, ◌≡◌, refl, sym, ◌≢◌, ◌==◌, ==_refl, leb, le→leb, lt→leb,
  if◌then◌else◌, arith, Bool-cases, inl, inr, true, false,
}
use hailburst.Flight.Clock.Defs.{
  Clock, replica_majority, count_votes, pick_offset, clock_offset_adj_vote,
}

-- How many of the `n` replicas from `i` on hold the offset.
unfoldable pub holders : Clock → ℕ → ℕ → ℕ → ℕ
holders c offset zero i = 0
holders c offset (suc n) i =
    (if c.offset_adj_slow i == offset then 1 else 0) + holders c offset n (i + 1)

count_votes-holders : (c : Clock) (x n i v : ℕ) → count_votes c x n i v ≡ v + holders c x n i
unfolding count_votes holders
count_votes-holders c x zero i v = omega arith
count_votes-holders c x (suc n) i v = elim (Bool-cases (c.offset_adj_slow i == x)) [
  | inl e ↦ rw e (omega (arith, count_votes-holders c x n (i + 1) (v + 1)))
  | inr e ↦ rw e (omega (arith, count_votes-holders c x n (i + 1) v))
]

holders-apart : (c : Clock) (x y n i : ℕ) → x ≢ y → holders c x n i + holders c y n i ≤ n
unfolding holders
holders-apart c x y zero i ne = omega arith
holders-apart c x y (suc n) i ne = ground (arith, holders-apart c x y n (i + 1) ne)

holders-le : (c : Clock) (x n i : ℕ) → holders c x n i ≤ n
unfolding holders
holders-le c x zero i = omega arith
holders-le c x (suc n) i = ground (arith, holders-le c x n (i + 1))

-- The votes for the candidate `i`.
abbrev votes_for : Clock → ℕ → ℕ
votes_for c i = count_votes c (c.offset_adj_slow i) (c.replicas - (i + 1)) (i + 1) 1

votes_for-holders :
    (c : Clock) (n i : ℕ)
    → suc n ≡ c.replicas - i
    → votes_for c i ≡ holders c (c.offset_adj_slow i) (suc n) i
unfolding holders
votes_for-holders c n i e =
    let left : c.replicas - (i + 1) ≡ n = omega arith in
    rw (left, ==_refl (c.offset_adj_slow i))
      (count_votes-holders c (c.offset_adj_slow i) n (i + 1) 1)

holders-suc : (c : Clock) (x n i : ℕ) → holders c x n (i + 1) ≤ holders c x (suc n) i
unfolding holders
holders-suc c x n i = ground arith

holders-other :
    (c : Clock) (x n i : ℕ)
    → c.offset_adj_slow i ≢ x
    → replica_majority c ≤ holders c x (suc n) i
    → replica_majority c ≤ holders c x n (i + 1)
unfolding holders
holders-other c x n i ne h = ground arith

pick_offset-majority :
    (c : Clock) (x k n i : ℕ)
    → i + n ≡ c.replicas
    → k + replica_majority c ≡ n + 1
    → replica_majority c ≤ holders c x n i
    → pick_offset c k i ≡ x
unfolding pick_offset
pick_offset-majority c x zero n i e m h = absurd (omega (arith, holders-le c x n i))
pick_offset-majority c x (suc k) zero i e m h = absurd (omega arith)
pick_offset-majority c x (suc k) (suc n) i e m h =
    let own = votes_for-holders c n i (omega arith) in
    elim (ℕ_discrete (c.offset_adj_slow i) x) [
      | yes same ↦
          let wins : leb (replica_majority c) (votes_for c i) ≡ true =
            le→leb _ _ (rw (own, same) h) in
          rw wins same
      | no other ↦
          let loses : leb (replica_majority c) (votes_for c i) ≡ false = lt→leb _ _ (
            omega (
              arith,
              own,
              holders-apart c x (c.offset_adj_slow i) (suc n) i (λ e'. other (sym e')),
            )) in
          rw loses (
            pick_offset-majority c x k n (i + 1) (omega arith) (omega arith)
              (holders-other c x n i other h))
    ]

pick_offset-minority :
    (c : Clock) (k n i : ℕ)
    → i + n ≡ c.replicas
    → k ≤ n
    → ((x : ℕ) → holders c x n i < replica_majority c)
    → pick_offset c k i ≡ c.offset_adj_fast
unfolding pick_offset
pick_offset-minority c zero n i e m h = refl
pick_offset-minority c (suc k) zero i e m h = absurd (omega arith)
pick_offset-minority c (suc k) (suc n) i e m h =
    let loses : leb (replica_majority c) (votes_for c i) ≡ false =
      lt→leb _ _ (omega (arith, votes_for-holders c n i (omega arith), h (c.offset_adj_slow i))) in
    rw loses (
      pick_offset-minority c k n (i + 1) (omega arith) (omega arith)
        (λ x. omega (arith, h x, holders-suc c x n i)))

-- The vote gives an offset that a strict majority of the replicas hold, and, where no offset has a
-- majority, the fallback of the last vote.
pub clock_offset_adj_vote_lem :
    (c : Clock)
    → 1 ≤ c.replicas
    → ((x : ℕ) → replica_majority c ≤ holders c x c.replicas 0 → clock_offset_adj_vote c ≡ x)
      × (((x : ℕ) → holders c x c.replicas 0 < replica_majority c)
          → clock_offset_adj_vote c ≡ c.offset_adj_fast)
unfolding clock_offset_adj_vote
clock_offset_adj_vote_lem c some = (
  λ x h.
      pick_offset-majority c x (c.replicas - replica_majority c + 1) c.replicas 0 (omega arith)
        (omega arith) h,
  λ h.
      pick_offset-minority c (c.replicas - replica_majority c + 1) c.replicas 0 (omega arith)
        (omega arith) h,
)
