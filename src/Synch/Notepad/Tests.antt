-- ===== src/Synch/Notepad/Tests.antt =====
-- A notepad on which the theorem about a cycle is applied.
use hailburst.Prelude.{
  ℕ, ◌+◌, ◌*◌, ◌-◌, ◌≤◌, ◌<◌, ◌≡◌, refl, Bool, true, false, not, List, [], ◌∷◌, ◌==◌, if◌then◌else◌,
  ok, arith,
}
use hailburst.Synch.Duct.Receive.{count_good}
use hailburst.Synch.Notepad.Defs.{Notepad, majority, uninitialized}
use hailburst.Synch.Notepad.Vote.{held}
use hailburst.Synch.Notepad.Cycle.{cycle, cycle_lem}

-- Three replicas; the second one holds something else, and has the wrong bit.
abbrev notepad : Notepad
notepad = record {
  num_replicas = 3;
  state_size = 2;
  flip_states = λ s. if s == 1 then 0 else 1;
  mutable_state = λ place. if place == 3 then 9 ∷ 9 ∷ [] else 4 ∷ 5 ∷ [];
}

abbrev others : ℕ → Bool
others s = not (s == 1)

abbrev swap : List ℕ → Bool → List ℕ
swap (a ∷ b ∷ _) true = b ∷ a ∷ []
swap _ _ = 0 ∷ 0 ∷ []

others-quorum : majority notepad ≤ count_good others 3 0
unfolding count_good
others-quorum = omega arith

notepad_started : (s : ℕ) → (notepad.flip_states s == uninitialized) ≡ false
notepad_started s = ground arith

others-agree :
    (s : ℕ) → others s ≡ true → (notepad.flip_states s ≡ 1) × (held notepad 1 s ≡ 4 ∷ 5 ∷ [])
others-agree s g =
    let right : (s == 1) ≡ false = (ground arith) in
    let place : (s * 2 + 1 == 3) ≡ false = (ground arith) in (rw right refl, rw place refl)

cycle_lem_example :
    (n' : Notepad) × (cycle swap 3 0 notepad ≡ ok n')
    × ((s : ℕ) → s < 3 → (n'.flip_states s ≡ 1 - 1) × (held n' (1 - 1) s ≡ 5 ∷ 4 ∷ []))
cycle_lem_example =
    cycle_lem swap notepad 1 (4 ∷ 5 ∷ []) others (omega arith) (omega arith) others-quorum
      notepad_started others-agree
