-- ===== src/Synch/Notepad/Feedforward.antt =====
-- A cycle of the replicas on their notepad, each of which feeds its state forward and writes the next.
use mathlib.Core.Bool.{false≢true}
use mathlib.Core.Path.{subst}
use native.Mathlib.Decide.{ℕ_discrete}
use hailburst.Prelude.{
  ℕ, zero, suc, ◌+◌, ◌-◌, ◌*◌, ◌≤◌, ◌<◌, ◌≡◌, refl, ap, sym, ◌∙◌, inl, inr, Bool, true, false, List,
  Option, none, some, ltb, leb, ◌==◌, if◌then◌else◌, bytes_eq, bytes_eq→eq, bytes_eq_refl, ok,
  arith, Bool-cases, le→leb, update,
}
use hailburst.Synch.Duct.Receive.{count_good}
use hailburst.Synch.Notepad.Defs.{
  Notepad, flip_seen, count_secondary, vote_flip, vote_best, majority, notepad_feedforward,
  uninitialized,
}
use hailburst.Synch.Notepad.Vote.{held, holders, pick_best-Elects, Elects, region_ref-eq}

-- Two different contents share the replicas among them.
holders-apart :
    (n : Notepad) (flip : ℕ) (a b : List ℕ) (k i : ℕ)
    → bytes_eq a b ≡ false
    → holders n flip a k i + holders n flip b k i ≤ k
unfolding holders
holders-apart n flip a b zero i ne = omega arith
holders-apart n flip a b (suc k) i ne = elim (Bool-cases (bytes_eq a (held n flip i))) [
  | inr miss ↦ rw miss (ground (arith, holders-apart n flip a b k (i + 1) ne))
  | inl hit ↦ elim (Bool-cases (bytes_eq b (held n flip i))) [
    | inr miss ↦ rw (hit, miss) (omega (arith, holders-apart n flip a b k (i + 1) ne))
    | inl both ↦
        absurd (false≢true (sym ne ∙ ap (bytes_eq a) (bytes_eq→eq b (held n flip i) both) ∙ hit))
  ]
]

module _ (n : Notepad) (r flip : ℕ) (contents : List ℕ) (good : ℕ → Bool) (bit : flip ≤ 1)
    (few : n.num_replicas < 256) (own : r < n.num_replicas)
    (started : (n.flip_states r == uninitialized) ≡ false)
    (quorum : majority n ≤ count_good good n.num_replicas 0)
    (flips : (s : ℕ) → s < n.num_replicas → good s ≡ true → flip_seen r s (n.flip_states s) ≡ flip)
    (same : (s : ℕ) → s < n.num_replicas → good s ≡ true → held n flip s ≡ contents) where
  count_secondary-ge :
      (k i : ℕ) → i + k ≤ n.num_replicas → flip ≡ 1 → count_good good k i ≤ count_secondary n r k i
  unfolding count_secondary count_good
  count_secondary-ge zero i h e = omega arith
  count_secondary-ge (suc k) i h e = elim (Bool-cases (good i)) [
    | inl g ↦
        rw (g, flips i (omega arith) g, e)
          (omega (arith, count_secondary-ge k (i + 1) (omega arith) e))
    | inr g ↦ rw g (omega (arith, count_secondary-ge k (i + 1) (omega arith) e))
  ]

  count_secondary-le :
      (k i : ℕ)
      → i + k ≤ n.num_replicas
      → flip ≡ 0
      → count_good good k i + count_secondary n r k i ≤ k
  unfolding count_secondary count_good
  count_secondary-le zero i h e = omega arith
  count_secondary-le (suc k) i h e = elim (Bool-cases (good i)) [
    | inl g ↦
        rw (g, flips i (omega arith) g, e)
          (omega (arith, count_secondary-le k (i + 1) (omega arith) e))
    | inr g ↦ rw g (ground (arith, count_secondary-le k (i + 1) (omega arith) e))
  ]

  vote_flip-eq : vote_flip n r ≡ flip
  unfolding vote_flip
  vote_flip-eq = elim (ℕ_discrete flip 1) [
    | yes one ↦
        let wins : leb (majority n) (count_secondary n r n.num_replicas 0) ≡ true =
          (le→leb (majority n) (count_secondary n r n.num_replicas 0)
            (omega (arith, count_secondary-ge n.num_replicas 0 (omega arith) one))) in
        rw (started, wins) (sym one)
    | no other ↦
        let none_set : flip ≡ 0 = (omega arith) in
        let loses : leb (majority n) (count_secondary n r n.num_replicas 0) ≡ false =
          (ground (arith, count_secondary-le n.num_replicas 0 (omega arith) none_set)) in
        rw (started, loses) (sym none_set)
  ]

  holders-ge :
      (k i : ℕ) → i + k ≤ n.num_replicas → count_good good k i ≤ holders n flip contents k i
  unfolding holders count_good
  holders-ge zero i h = omega arith
  holders-ge (suc k) i h = elim (Bool-cases (good i)) [
    | inl g ↦
        rw (g, same i (omega arith) g, bytes_eq_refl contents)
          (omega (arith, holders-ge k (i + 1) (omega arith)))
    | inr g ↦ rw g (omega (arith, holders-ge k (i + 1) (omega arith)))
  ]

  chosen : (o : Option (List ℕ)) → Elects n flip bit n.num_replicas 0 o → o ≡ some contents
  chosen none el = absurd (omega (arith, el contents, holders-ge n.num_replicas 0 (omega arith)))
  chosen (some c) el = elim (Bool-cases (bytes_eq contents c)) [
    | inl e ↦ ap some (sym (bytes_eq→eq contents c e))
    | inr ne ↦ absurd (
        omega (
          arith,
          el,
          holders-apart n flip contents c n.num_replicas 0 ne,
          holders-ge n.num_replicas 0 (omega arith),
        ))
  ]

  vote_best-eq : vote_best n flip ≡ ok (contents, true)
  unfolding vote_best
  vote_best-eq =
      let (o, e, el) =
        pick_best-Elects n flip bit (n.num_replicas - majority n + 1) 0 few (omega arith) in
      let whole : n.num_replicas - 0 ≡ n.num_replicas = (omega arith) in
      let read : (flip == uninitialized) ≡ false = (ground arith) in
      rw (read, e, chosen o (subst (λ k. Elects n flip bit k 0 o) whole el)) refl

  -- What the replica is left with.
  abbrev pub fed : Notepad
  fed = record n {
    flip_states = update n.flip_states r (1 - flip);
    mutable_state = update n.mutable_state (r * 2 + (1 - flip)) contents;
  }

  pub notepad_feedforward-eq : notepad_feedforward n r ≡ ok (fed, contents, true)
  unfolding notepad_feedforward
  notepad_feedforward-eq =
      let own' : ltb r n.num_replicas ≡ true = (ground arith) in
      let write : (if flip == 0 then 1 else 0) ≡ 1 - flip = (ground arith) in
      rw (own', vote_flip-eq, write, region_ref-eq n (1 - flip) (omega arith) r, vote_best-eq) refl
