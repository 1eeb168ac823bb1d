-- ===== src/Synch/Notepad/Vote.antt =====
-- The vote of `notepad_vote_best` against its specification: the contents that a strict majority of the
-- replicas hold.
use mathlib.Core.Path.{subst}
use hailburst.Prelude.{
  ℕ, zero, suc, ◌+◌, ◌-◌, ◌*◌, ◌%◌, ◌≤◌, ◌<◌, ◌≡◌, refl, ap, sym, ◌∙◌, inl, inr, true, List, Option,
  none, some, leb, if◌then◌else◌, bytes_eq, bytes_eq→eq, bytes_eq_refl, ok, arith, Bool-cases,
}
use hailburst.Synch.Notepad.Defs.{Notepad, region_ref, count_same, pick_best, majority}

-- What replica `i` holds in the regions that are read.
abbrev pub held : Notepad → ℕ → ℕ → List ℕ
held n flip i = n.mutable_state (i * 2 + flip)

-- How many of the `k` replicas from `i` on hold `contents`.
unfoldable pub holders : Notepad → ℕ → List ℕ → ℕ → ℕ → ℕ
holders n flip contents zero i = 0
holders n flip contents (suc k) i =
    (if bytes_eq contents (held n flip i) then 1 else 0) + holders n flip contents k (i + 1)

module _ (n : Notepad) (flip : ℕ) (bit : flip ≤ 1) where
  holders-le : (contents : List ℕ) (k i : ℕ) → holders n flip contents k i ≤ k
  unfolding holders
  holders-le contents zero i = omega arith
  holders-le contents (suc k) i = ground (arith, holders-le contents k (i + 1))

  pub region_ref-eq : (i : ℕ) → region_ref n i flip ≡ ok (i * 2 + flip)
  unfolding region_ref
  region_ref-eq i = let fits : leb flip 1 ≡ true = (ground arith) in rw fits refl

  count_same-eq :
      (contents : List ℕ) (k i votes : ℕ)
      → votes + k < 256
      → count_same n flip contents k i votes ≡ ok (votes + holders n flip contents k i)
  unfolding count_same holders
  count_same-eq contents zero i votes h = ap ok (omega arith)
  count_same-eq contents (suc k) i votes h =
      rw (region_ref-eq i) (elim (Bool-cases (bytes_eq contents (held n flip i))) [
        | inl e ↦
            let small : (votes + 1) % 256 ≡ votes + 1 = (omega arith) in
            rw (e, small)
              (count_same-eq contents k (i + 1) (votes + 1) (omega arith) ∙ ap ok (omega arith))
        | inr e ↦ rw e (count_same-eq contents k (i + 1) votes (omega arith) ∙ ap ok (omega arith))
      ])

  holders-own :
      (k i : ℕ)
      → holders n flip (held n flip i) (suc k) i ≡ 1 + holders n flip (held n flip i) k (i + 1)
  unfolding holders
  holders-own k i = rw (bytes_eq_refl (held n flip i)) refl

  -- The outcome of an election among the `k` replicas from `i` on.
  abbrev pub Elects : ℕ → ℕ → Option (List ℕ) → Type 0
  Elects k i none = (contents : List ℕ) → holders n flip contents k i < majority n
  Elects k i (some contents) = majority n ≤ holders n flip contents k i

  Elects-suc :
      (k i : ℕ) (o : Option (List ℕ))
      → holders n flip (held n flip i) (suc k) i < majority n
      → Elects k (i + 1) o
      → Elects (suc k) i o
  unfolding holders
  Elects-suc k i (some contents) small el = omega arith
  Elects-suc k i none small el = λ contents. elim (Bool-cases (bytes_eq contents (held n flip i))) [
    | inl e ↦
        subst (λ x. holders n flip x (suc k) i < majority n)
          (sym (bytes_eq→eq contents (held n flip i) e)) small
    | inr e ↦ rw e (omega (arith, el contents))
  ]

  -- The loop stops where fewer replicas are left than a majority.
  pub pick_best-Elects :
      (k i : ℕ)
      → n.num_replicas < 256
      → i + k + majority n ≡ n.num_replicas + 1
      → (o : Option (List ℕ)) × (pick_best n flip k i ≡ ok o) × Elects (n.num_replicas - i) i o
  unfolding pick_best
  pick_best-Elects zero i few h =
      (none, refl, λ contents. omega (arith, holders-le contents (n.num_replicas - i) i))
  pick_best-Elects (suc k) i few h =
      let (o, e, el) = pick_best-Elects k (i + 1) few (omega arith) in
      let left : n.num_replicas - i ≡ suc (n.num_replicas - (i + 1)) = (omega arith) in
      let votes = holders n flip (held n flip i) (n.num_replicas - (i + 1)) (i + 1) in
      let own : holders n flip (held n flip i) (suc (n.num_replicas - (i + 1))) i ≡ 1 + votes =
        (holders-own (n.num_replicas - (i + 1)) i) in
      rw
        (
          region_ref-eq i,
          count_same-eq (held n flip i) (n.num_replicas - (i + 1)) (i + 1) 1 (omega arith),
          left,
        )
        (elim (Bool-cases (leb (majority n) (1 + votes))) [
          | inl wins ↦ (some (held n flip i), rw wins refl, ground (arith, own))
          | inr loses ↦
              (o, rw loses e, Elects-suc (n.num_replicas - (i + 1)) i o (ground (arith, own)) el)
        ])
