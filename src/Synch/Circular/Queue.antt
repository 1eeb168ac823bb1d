-- ===== src/Synch/Circular/Queue.antt =====
-- The buffer of synch/circular.h as a bounded queue, while its counters have not reached 2 ^ 32.
use mathlib.Core.Option.{some-injective}
use native.Mathlib.Decide.{dec_lt}
use hailburst.Prelude.{
  ℕ, suc, ◌+◌, ◌%◌, ◌≤◌, ◌<◌, ◌≡◌, refl, sym, true, false, List, [], ◌∷◌, ◌++◌, none, some, ltb,
  if◌then◌else◌, length, Outcome, ok, arith, lt→ltb, le→ltb,
}
use hailburst.Synch.Circular.Filling.{filled, filled-Represents, write_done-fill}
use hailburst.Synch.Circular.Represents.{
  Represents, read_peek_inside, read_peek_outside, element_lem, read_done-drop, write_peek-full,
  write_peek-room,
}
use hailburst.Synch.Circular.Defs.{
  CircBuf, write, read, Op, put, get, Answer, accepted, taken, run_one, run,
}

-- A bounded first-in first-out queue, the specification of the buffer.
module _ {ℓ} {A : Type ℓ} where
  unfoldable pub queue_one : ℕ → List A → Op A → Answer A × List A
  queue_one n q (put v) =
      if ltb (length q) n then (accepted true, q ++ v ∷ []) else (accepted false, q)
  queue_one n [] get = (taken none, [])
  queue_one n (x ∷ q) get = (taken (some x), q)

  unfoldable pub queue_run : ℕ → List A → List (Op A) → List (Answer A) × List A
  unfolding queue_one
  queue_run n q [] = ([], q)
  queue_run n q (o ∷ os) = let a = queue_one n q o in let b = queue_run n a.1 os in (a.0 ∷ b.0, b.1)

  Represents-weaken :
      (c : CircBuf A) (q : List A) (s t : ℕ) → t ≤ s → Represents c q s → Represents c q t
  Represents-weaken c q s t h rep = record {
    positive = rep.positive;
    small = rep.small;
    ahead = rep.ahead;
    fits = rep.fits;
    unwrapped = omega (arith, rep.unwrapped);
    contents = rep.contents;
  }

  write_room :
      (c : CircBuf A) (q : List A) (v : A) (spare : ℕ)
      → Represents c q (suc spare)
      → length q < c.element_count
      → write c v ≡ ok (true, filled c v)
  unfolding write
  write_room c q v spare rep room =
      rw (write_peek-room c q rep room, write_done-fill c q v spare rep room) refl

  abbrev Refines : ℕ → List A → Op A → ℕ → Outcome (Answer A × CircBuf A) → Type ℓ
  Refines n q o spare m =
      (d : CircBuf A) × (m ≡ ok ((queue_one n q o).0, d))
      × (d.element_count ≡ n)
      × Represents d (queue_one n q o).1 spare

  put-Refines :
      (c : CircBuf A) (q : List A) (v : A) (spare : ℕ)
      → Represents c q (suc spare)
      → Refines c.element_count q (put v) spare (run_one c (put v))
  unfolding queue_one write
  put-Refines c q v spare rep = elim (dec_lt (length q) c.element_count) [
    | yes room ↦ (
      filled c v,
      rw (write_room c q v spare rep room, lt→ltb (length q) c.element_count room) refl,
      refl,
      rw (lt→ltb (length q) c.element_count room) (filled-Represents c q v spare rep room),
    )
    | no full ↦ (
      c,
      rw
          (
            write_peek-full c q rep (omega (arith, rep.fits)),
            le→ltb (length q) c.element_count (omega arith),
          )
          refl,
      refl,
      rw (le→ltb (length q) c.element_count (omega arith))
          (Represents-weaken c q (suc spare) spare (omega arith) rep),
    )
  ]

  get-Refines :
      (c : CircBuf A) (q : List A) (spare : ℕ)
      → Represents c q (suc spare)
      → Refines c.element_count q get spare (run_one c get)
  unfolding queue_one read
  get-Refines c [] spare rep = (
    c,
    rw (read_peek_outside c [] rep 0 (omega arith)) refl,
    refl,
    Represents-weaken c [] (suc spare) spare (omega arith) rep,
  )
  get-Refines c (x ∷ q) spare rep =
      let done = read_done-drop c (x ∷ q) rep 1 (omega arith) (omega arith) in
      let first : x ≡ c.element_storage ((c.next_read + 0) % c.element_count) =
        some-injective _ _ (element_lem c (x ∷ q) rep 0 (omega arith)) in
      (
        done.0,
        rw (read_peek_inside c (x ∷ q) rep 0 (omega arith), done.1, sym first) refl,
        done.2,
        Represents-weaken done.0 q (suc spare) spare (omega arith) done.3,
      )

  one-Refines :
      (n : ℕ) (c : CircBuf A) (q : List A) (o : Op A) (spare : ℕ)
      → c.element_count ≡ n
      → Represents c q (suc spare)
      → Refines n q o spare (run_one c o)
  one-Refines n c q (put v) spare e rep = rw (sym e) (put-Refines c q v spare rep)
  one-Refines n c q get spare e rep = rw (sym e) (get-Refines c q spare rep)

  -- Any sequence of writes and reads on a buffer of up to 2 ^ 30 elements that represents a queue never
  -- aborts, answers what a bounded first-in first-out queue of the same size answers, and leaves the
  -- buffer representing that queue, when the write counter plus the number of uses is below 2 ^ 32.
  pub run_refines :
      (n : ℕ) (ops : List (Op A)) (c : CircBuf A) (q : List A)
      → c.element_count ≡ n
      → Represents c q (length ops)
      → (d : CircBuf A) × (run c ops ≡ ok ((queue_run n q ops).0, d))
        × Represents d (queue_run n q ops).1 0
  unfolding queue_run
  run_refines n [] c q e rep = (c, refl, rep)
  run_refines n (o ∷ os) c q e rep =
      let one = one-Refines n c q o (length os) e rep in
      let rest = run_refines n os one.0 (queue_one n q o).1 one.2 one.3 in
      (rest.0, rw (one.1, rest.1) refl, rest.2)
