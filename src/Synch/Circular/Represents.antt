-- ===== src/Synch/Circular/Represents.antt =====
-- When the buffer of synch/circular.h holds a queue, and what each operation then gives.
use mathlib.Core.Option
use mathlib.Core.Option.{some-injective}
use native.Mathlib.Nat.{mod-lt, mod-eq_of_lt, add-mod_right}
use native.Mathlib.Decide.{dec_lt}
use hailburst.Prelude.{
  ℕ, ◌+◌, ◌-◌, ◌*◌, ◌%◌, ◌^◌, ◌≤◌, ◌<◌, ◌≡◌, refl, sym, ap, ◌∙◌, true, List, [], none, some, ltb,
  length, get_elem?, drop, ok, ◌>>=◌, arith, get_elem?-ge, length-drop, le→leb, lt→ltb, le→ltb,
}
use hailburst.Synch.Circular.Segment.{segment, segment-get_elem?, drop-segment}
use hailburst.Synch.Circular.Defs.{
  CircBuf, get_element, reset, read_avail, read_peek, read_done, write_avail, write_peek,
}

-- What the buffer holds, first in first, and its counters before they wrap. `spare` is how far the
-- second may still go.
pub record Represents {ℓ} {A : Type ℓ} (c : CircBuf A) (q : List A) (spare : ℕ) : Type ℓ where
  pub positive : 1 ≤ c.element_count
  pub small : c.element_count ≤ 2 ^ 30
  pub ahead : c.next_write ≡ c.next_read + length q
  pub fits : length q ≤ c.element_count
  pub unwrapped : c.next_write + spare < 2 ^ 32
  pub contents : q ≡ segment c.element_storage c.element_count c.next_read (length q)

ahead_lem :
    (n r k : ℕ)
    → 1 ≤ n
    → n ≤ 2 ^ 30
    → k ≤ n
    → r + k < 2 ^ 32
    → (r + k + (2 ^ 32 - r) + 2 * n) % 2 ^ 32 % (2 * n % 2 ^ 32) ≡ k
ahead_lem n r k pos small h lt =
    let low : 2 * n % 2 ^ 32 ≡ 2 * n = omega arith in
    let sum : (r + k + (2 ^ 32 - r) + 2 * n) % 2 ^ 32 ≡ k + 2 * n = omega arith in
    rw (low, sum) (add-mod_right k (2 * n) ∙ mod-eq_of_lt (omega arith))

module _ {ℓ} {A : Type ℓ} (c : CircBuf A) (q : List A) {spare : ℕ}
    (rep : Represents c q spare) where
  pub read_avail-length : read_avail c ≡ ok (length q)
  unfolding read_avail
  read_avail-length =
      rw
        (
          rep.ahead,
          ahead_lem c.element_count c.next_read (length q) rep.positive rep.small rep.fits
              (omega (arith, rep.ahead, rep.unwrapped)),
          le→leb (length q) c.element_count rep.fits,
        )
        refl

  pub write_avail-length : write_avail c ≡ ok (c.element_count - length q)
  unfolding write_avail
  write_avail-length = rw read_avail-length refl

  -- A place of the storage, for a counter before it wraps.
  place_lem :
      (i : ℕ) → i < 2 ^ 32 → get_element c (i % 2 ^ 32 % c.element_count) ≡ ok (i % c.element_count)
  unfolding get_element
  place_lem i h =
      let low : i % 2 ^ 32 ≡ i = omega arith in
      let inside : ltb (i % c.element_count) c.element_count ≡ true =
        lt→ltb _ _ (mod-lt i rep.positive) in
      rw (low, inside) refl

  pub read_peek_inside :
      (index : ℕ)
      → index < length q
      → read_peek c index ≡ ok (some ((c.next_read + index) % c.element_count))
  unfolding read_peek
  read_peek_inside index lt =
      rw
        (
          read_avail-length,
          lt→ltb index (length q) lt,
          place_lem (c.next_read + index) (omega (arith, rep.ahead, rep.unwrapped)),
        )
        refl

  pub read_peek_outside : (index : ℕ) → length q ≤ index → read_peek c index ≡ ok none
  unfolding read_peek
  read_peek_outside index ge = rw (read_avail-length, le→ltb index (length q) ge) refl

  pub element_lem :
      (index : ℕ)
      → index < length q
      → get_elem? q index ≡ some (c.element_storage ((c.next_read + index) % c.element_count))
  element_lem index lt =
      ap (λ t. get_elem? t index) rep.contents
      ∙ segment-get_elem? c.element_storage c.element_count c.next_read (length q) index lt

  -- The `index`-th place to read holds the `index`-th element of the queue, and past its end there is
  -- none.
  pub read_peek-get_elem? :
      (index : ℕ)
      → (read_peek c index >>= λ p. ok (Option.map c.element_storage p)) ≡ ok (get_elem? q index)
  read_peek-get_elem? index = elim (dec_lt index (length q)) [
    | yes lt ↦ rw (read_peek_inside index lt, element_lem index lt) refl
    | no ge ↦ rw (read_peek_outside index (omega arith), get_elem?-ge q index (omega arith)) refl
  ]

  -- Taking the first `count` elements off the queue.
  pub read_done-drop :
      (count : ℕ)
      → 1 ≤ count
      → count ≤ length q
      → (d : CircBuf A) × (read_done c count ≡ ok d)
        × (d.element_count ≡ c.element_count)
        × Represents d (drop count q) spare
  unfolding read_done
  read_done-drop count pos h = (
    record c { next_read = c.next_read + count },
    (let low : (c.next_read + count) % 2 ^ 32 ≡ c.next_read + count =
          omega (arith, rep.ahead, rep.unwrapped) in
        rw (read_avail-length, le→leb 1 count pos, le→leb count (length q) h, low) refl),
    refl,
    record {
      positive = rep.positive;
      small = rep.small;
      ahead = omega (arith, rep.ahead, length-drop count q);
      fits = omega (arith, rep.fits, length-drop count q);
      unwrapped = rep.unwrapped;
      contents =
          ap (λ t. drop count t) rep.contents
          ∙ drop-segment c.element_storage c.element_count c.next_read (length q) count h
          ∙ ap (λ k. segment c.element_storage c.element_count (c.next_read + count) k)
              (sym (length-drop count q));
    },
  )

  -- A full buffer offers no place to write.
  pub write_peek-full : length q ≡ c.element_count → write_peek c 0 ≡ ok none
  unfolding write_peek
  write_peek-full e =
      rw (write_avail-length, le→ltb 0 (c.element_count - length q) (omega arith)) refl

  pub write_peek-room :
      length q < c.element_count → write_peek c 0 ≡ ok (some (c.next_write % c.element_count))
  unfolding write_peek
  write_peek-room h =
      let start : c.next_write + 0 ≡ c.next_write = omega arith in
      rw
        (
          write_avail-length,
          lt→ltb 0 (c.element_count - length q) (omega arith),
          start,
          place_lem c.next_write (omega (arith, rep.unwrapped)),
        )
        refl

-- A reset buffer is empty.
pub reset-Represents {ℓ} :
    {A : Type ℓ} (c : CircBuf A) (spare : ℕ)
    → 1 ≤ c.element_count
    → c.element_count ≤ 2 ^ 30
    → spare < 2 ^ 32
    → Represents (reset c) [] spare
unfolding reset segment
reset-Represents c spare positive small h = record {
  positive = positive;
  small = small;
  ahead = refl;
  fits = omega arith;
  unwrapped = omega arith;
  contents = refl;
}
