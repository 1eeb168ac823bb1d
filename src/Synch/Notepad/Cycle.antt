-- ===== src/Synch/Notepad/Cycle.antt =====
-- A cycle of all replicas on their notepad: each in turn feeds its state forward and writes the next.
use mathlib.Core.Path.{subst}
use native.Mathlib.Decide.{ℕ_discrete}
use hailburst.Prelude.{
  ℕ, zero, suc, ◌+◌, ◌-◌, ◌*◌, ◌/◌, ◌≤◌, ◌<◌, ◌≡◌, refl, inl, inr, Bool, true, false, List, ltb,
  ◌==◌, Outcome, ok, ◌>>=◌, arith, Bool-cases, update,
}
use hailburst.Synch.Duct.Receive.{count_good}
use hailburst.Synch.Notepad.Defs.{Notepad, flip_seen, majority, notepad_feedforward, uninitialized}
use hailburst.Synch.Notepad.Vote.{held}
use hailburst.Synch.Notepad.Feedforward.{notepad_feedforward-eq}

-- The clip of replica `r`: `next` makes the state that it leaves from the state that it is given and
-- from the word on its validity.
unfoldable pub turn : (List ℕ → Bool → List ℕ) → Notepad → ℕ → Outcome Notepad
turn next n r = notepad_feedforward n r >>= λ (n', contents, valid). ok (record n' {
  mutable_state = update n'.mutable_state (r * 2 + n'.flip_states r) (next contents valid);
})

-- The `k` replicas from `r` on, in order.
unfoldable pub cycle : (List ℕ → Bool → List ℕ) → ℕ → ℕ → Notepad → Outcome Notepad
cycle next zero r n = ok n
cycle next (suc k) r n = turn next n r >>= λ n'. cycle next k (r + 1) n'

module _ (next : List ℕ → Bool → List ℕ) (num flip : ℕ) (contents : List ℕ) (good : ℕ → Bool) where
  -- What holds of the notepad once replicas 0 to `r - 1` have run.
  pub record Ran (n : Notepad) (r : ℕ) : Type 0 where
    pub same_num : n.num_replicas ≡ num
    pub started : (s : ℕ) → r ≤ s → (n.flip_states s == uninitialized) ≡ false
    pub waiting : (s : ℕ) → r ≤ s → good s ≡ true → n.flip_states s ≡ flip
    pub done : (s : ℕ) → s < r → n.flip_states s ≡ 1 - flip
    pub kept : (s : ℕ) → good s ≡ true → held n flip s ≡ contents
    pub written : (s : ℕ) → s < r → held n (1 - flip) s ≡ next contents true

  module _ (bit : flip ≤ 1) (few : num < 256) (quorum : 1 + num / 2 ≤ count_good good num 0) where
    abbrev ran : Notepad → ℕ → Notepad
    ran n r = record n {
      flip_states = update n.flip_states r (1 - flip);
      mutable_state =
          update (update n.mutable_state (r * 2 + (1 - flip)) contents) (r * 2 + (1 - flip))
            (next contents true);
    }

    flip_seen-flip :
        (n : Notepad) (r s : ℕ) → Ran n r → good s ≡ true → flip_seen r s (n.flip_states s) ≡ flip
    flip_seen-flip n r s v g = elim (Bool-cases (ltb s r)) [
      | inl before ↦ rw (before, v.done s (ground arith)) (omega arith)
      | inr behind ↦ rw (behind, v.waiting s (ground arith) g) (omega arith)
    ]

    update_own : (f : ℕ → ℕ) (r x : ℕ) → update f r x r ≡ x
    update_own f r x = ground arith

    turn-eq : (n : Notepad) (r : ℕ) → Ran n r → r < num → turn next n r ≡ ok (ran n r)
    unfolding turn
    turn-eq n r v h =
        rw
          (
            notepad_feedforward-eq n r flip contents good bit (rw v.same_num few) (rw v.same_num h)
                (v.started r (omega arith)) (rw v.same_num quorum)
                (λ s _ g. flip_seen-flip n r s v g) (λ s _ g. v.kept s g),
            update_own n.flip_states r (1 - flip),
          )
          refl

    ran-Ran : (n : Notepad) (r : ℕ) → Ran n r → Ran (ran n r) (r + 1)
    ran-Ran n r v = record {
      same_num = v.same_num;
      started = λ s h. ground (arith, v.started s);
      waiting = λ s h g. ground (arith, v.waiting s);
      done = λ s h. ground (arith, v.done s);
      kept = λ s g.
          let apart : (s * 2 + flip == r * 2 + (1 - flip)) ≡ false = (ground arith) in
          rw apart (v.kept s g);
      written = λ s h. elim (ℕ_discrete s r) [
        | yes own ↦
            let hit : (s * 2 + (1 - flip) == r * 2 + (1 - flip)) ≡ true = (rw own (ground arith)) in
            rw hit refl
        | no other ↦
            let apart : (s * 2 + (1 - flip) == r * 2 + (1 - flip)) ≡ false = (ground arith) in
            rw apart (v.written s (omega arith))
      ];
    }

    cycle-Ran :
        (k r : ℕ) (n : Notepad)
        → Ran n r
        → r + k ≡ num
        → (n' : Notepad) × (cycle next k r n ≡ ok n') × Ran n' num
    unfolding cycle
    cycle-Ran zero r n v h = (n, refl, subst (Ran n) (omega arith) v)
    cycle-Ran (suc k) r n v h =
        let (n', e, w) = cycle-Ran k (r + 1) (ran n r) (ran-Ran n r v) (omega arith) in
        (n', (rw (turn-eq n r v (omega arith)) e), w)

-- If every replica is past its first cycle, and a strict majority of the replicas, which are fewer than
-- 256, have the same bit and the same contents behind it, then in a cycle no call aborts, every replica
-- is given those contents as valid, and all replicas are left with the same bit and the same next
-- contents, whatever the other replicas held.
pub cycle_lem :
    (next : List ℕ → Bool → List ℕ) (n : Notepad) (flip : ℕ) (contents : List ℕ) (good : ℕ → Bool)
    → flip ≤ 1
    → n.num_replicas < 256
    → majority n ≤ count_good good n.num_replicas 0
    → ((s : ℕ) → (n.flip_states s == uninitialized) ≡ false)
    → ((s : ℕ) → good s ≡ true → (n.flip_states s ≡ flip) × (held n flip s ≡ contents))
    → (n' : Notepad) × (cycle next n.num_replicas 0 n ≡ ok n')
      × ((s : ℕ)
          → s < n.num_replicas
          → (n'.flip_states s ≡ 1 - flip) × (held n' (1 - flip) s ≡ next contents true))
cycle_lem next n flip contents good bit few quorum started agree =
    let v : Ran next n.num_replicas flip contents good n 0 = record {
      same_num = refl;
      started = λ s _. started s;
      waiting = λ s _ g. (agree s g).0;
      done = λ s h. absurd (omega arith);
      kept = λ s g. (agree s g).1;
      written = λ s h. absurd (omega arith);
    } in
    let (n', e, w) =
      cycle-Ran next n.num_replicas flip contents good bit few quorum n.num_replicas 0 n v
        (omega arith) in
    (n', e, λ s h. (w.done s h, w.written s h))
