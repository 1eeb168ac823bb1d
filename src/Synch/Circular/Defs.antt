-- ===== src/Synch/Circular/Defs.antt =====
-- The data and the operations of synch/circular.h. An element is named by its place in the storage.
use hailburst.Prelude.{
  ℕ, ◌+◌, ◌-◌, ◌*◌, ◌%◌, ◌^◌, Bool, true, false, List, [], ◌∷◌, Option, none, some, ltb, leb, ◌&&◌,
  if◌then◌else◌, update, Outcome, ok, ◌>>=◌, ◌>>◌, assert,
}

-- circ_buf_t, with the fields of `mut` beside the others.
pub record CircBuf {ℓ} (A : Type ℓ) : Type ℓ where
  pub element_count : ℕ
  pub element_storage : ℕ → A
  pub next_read : ℕ
  pub next_write : ℕ

module _ {ℓ} {A : Type ℓ} where
  unfoldable pub get_element : CircBuf A → ℕ → Outcome ℕ
  get_element c index = assert (ltb index c.element_count) >> ok index

  unfoldable pub reset : CircBuf A → CircBuf A
  reset c = record c { next_read = 0; next_write = 0 }

  -- The subtraction and the sum wrap at 2 ^ 32.
  unfoldable pub read_avail : CircBuf A → Outcome ℕ
  read_avail c =
      let ahead =
        (c.next_write + (2 ^ 32 - c.next_read) + 2 * c.element_count)
        % 2 ^ 32
        % (2 * c.element_count % 2 ^ 32) in
      assert (leb ahead c.element_count) >> ok ahead

  -- `none` for NULL
  unfoldable pub read_peek : CircBuf A → ℕ → Outcome (Option ℕ)
  unfolding read_avail get_element
  read_peek c index = do
    avail ← read_avail c
    let at = (c.next_read + index) % 2 ^ 32 % c.element_count
    if ltb index avail then (get_element c at >>= λ p. ok (some p)) else ok none

  unfoldable pub read_done : CircBuf A → ℕ → Outcome (CircBuf A)
  unfolding read_avail
  read_done c count = do
    avail ← read_avail c
    assert (leb 1 count && leb count avail)
    ok (record c { next_read = (c.next_read + count) % 2 ^ 32 })

  unfoldable pub write_avail : CircBuf A → Outcome ℕ
  unfolding read_avail
  write_avail c = read_avail c >>= λ avail. ok (c.element_count - avail)

  unfoldable pub write_peek : CircBuf A → ℕ → Outcome (Option ℕ)
  unfolding write_avail get_element
  write_peek c index = do
    avail ← write_avail c
    let at = (c.next_write + index) % 2 ^ 32 % c.element_count
    if ltb index avail then (get_element c at >>= λ p. ok (some p)) else ok none

  unfoldable pub write_done : CircBuf A → ℕ → Outcome (CircBuf A)
  unfolding write_avail
  write_done c count = do
    avail ← write_avail c
    assert (leb 1 count && leb count avail)
    ok (record c { next_write = (c.next_write + count) % 2 ^ 32 })

  -- How telemetry.c and magnetometer.c add an element: the place of `write_peek` is filled, and
  -- `write_done` makes it readable. The flag tells whether there was room.
  unfoldable pub write : CircBuf A → A → Outcome (Bool × CircBuf A)
  unfolding write_peek write_done
  write c v = do
    slot ← write_peek c 0
    elim slot [
      | none ↦ ok (false, c)
      | some p ↦ do
        d ← write_done (record c { element_storage = update c.element_storage p v }) 1
        ok (true, d)
    ]

  -- How they take one.
  unfoldable pub read : CircBuf A → Outcome (Option A × CircBuf A)
  unfolding read_peek read_done
  read c = do
    slot ← read_peek c 0
    elim slot [
      | none ↦ ok (none, c)
      | some p ↦ do d ← read_done c 1; ok (some (c.element_storage p), d)
    ]

-- A use of the buffer, and what comes of it.
pub data Op {ℓ} (A : Type ℓ) : Type ℓ where
  put : A → Op A
  get : Op A

pub data Answer {ℓ} (A : Type ℓ) : Type ℓ where
  accepted : Bool → Answer A
  taken : Option A → Answer A

module _ {ℓ} {A : Type ℓ} where
  abbrev pub run_one : CircBuf A → Op A → Outcome (Answer A × CircBuf A)
  run_one c (put v) = write c v >>= λ a. ok (accepted a.0, a.1)
  run_one c get = read c >>= λ a. ok (taken a.0, a.1)

  abbrev pub run : CircBuf A → List (Op A) → Outcome (List (Answer A) × CircBuf A)
  run c [] = ok ([], c)
  run c (o ∷ os) = do a ← run_one c o; b ← run a.1 os; ok (a.0 ∷ b.0, b.1)
