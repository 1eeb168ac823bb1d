-- ===== src/Prelude/Lists.antt =====
-- Byte sequences as lists that are measured and indexed by native numbers, and memory as a function.
use Prim.Native.Nat.{ℕ, zero, suc, ◌+◌, ◌-◌, ◌*◌, ◌≤◌, ◌<◌, min}
use native.Mathlib.Decide.{ℕ_discrete, dec_lt}
use mathlib.Core.Path.{◌≡◌, refl, ap, sym, ◌∙◌}
use mathlib.Core.Logic.{◌≢◌}
use mathlib.Core.Bool.{Bool, true, false, ◌&&◌}
use mathlib.Core.List.{List, [], ◌∷◌, ◌++◌, map, head-eq_of_cons-eq, tail-eq_of_cons-eq}
use mathlib.Core.Option.{Option, none, some}
use native.Mathlib.Omega.{arith}
use hailburst.Prelude.Tests.{◌==◌, if◌then◌else◌}

module _ {ℓ} {A : Type ℓ} where
  abbrev pub length : List A → ℕ
  length [] = 0
  length (x ∷ xs) = suc (length xs)

  abbrev pub get_elem? : List A → ℕ → Option A
  get_elem? [] i = none
  get_elem? (x ∷ xs) zero = some x
  get_elem? (x ∷ xs) (suc i) = get_elem? xs i

  abbrev pub get_or : List A → ℕ → A → A
  get_or [] i d = d
  get_or (x ∷ xs) zero d = x
  get_or (x ∷ xs) (suc i) d = get_or xs i d

  abbrev pub take : ℕ → List A → List A
  take zero xs = []
  take (suc n) [] = []
  take (suc n) (x ∷ xs) = x ∷ take n xs

  abbrev pub drop : ℕ → List A → List A
  drop zero xs = xs
  drop (suc n) [] = []
  drop (suc n) (x ∷ xs) = drop n xs

  abbrev pub replicate : ℕ → A → List A
  replicate zero a = []
  replicate (suc n) a = a ∷ replicate n a

  pub length-append : (xs ys : List A) → length (xs ++ ys) ≡ length xs + length ys
  length-append [] ys = omega arith
  length-append (x ∷ xs) ys = omega (arith, length-append xs ys)

  pub length-take : (n : ℕ) (xs : List A) → length (take n xs) ≡ min n (length xs)
  length-take zero xs = omega arith
  length-take (suc n) [] = omega arith
  length-take (suc n) (x ∷ xs) = omega (arith, length-take n xs)

  pub length-drop : (n : ℕ) (xs : List A) → length (drop n xs) ≡ length xs - n
  length-drop zero xs = omega arith
  length-drop (suc n) [] = omega arith
  length-drop (suc n) (x ∷ xs) = omega (arith, length-drop n xs)

  pub take-append_length : (xs ys : List A) → take (length xs) (xs ++ ys) ≡ xs
  take-append_length [] ys = refl
  take-append_length (x ∷ xs) ys = ap (λ t. x ∷ t) (take-append_length xs ys)

  pub get_elem?-lt : (xs : List A) (i : ℕ) → i < length xs → (x : A) × (get_elem? xs i ≡ some x)
  get_elem?-lt [] i h = absurd (omega arith)
  get_elem?-lt (x ∷ xs) zero h = (x, refl)
  get_elem?-lt (x ∷ xs) (suc i) h = get_elem?-lt xs i (omega arith)

  pub get_elem?-ge : (xs : List A) (i : ℕ) → length xs ≤ i → get_elem? xs i ≡ none
  get_elem?-ge [] i h = refl
  get_elem?-ge (x ∷ xs) zero h = absurd (omega arith)
  get_elem?-ge (x ∷ xs) (suc i) h = get_elem?-ge xs i (omega arith)

  pub get_elem?-none : (xs : List A) (i : ℕ) → get_elem? xs i ≡ none → length xs ≤ i
  get_elem?-none [] i e = omega arith
  get_elem?-none (x ∷ xs) zero e = cc
  get_elem?-none (x ∷ xs) (suc i) e = omega (arith, get_elem?-none xs i e)

  pub get_elem?-some : (xs : List A) (i : ℕ) (a : A) → get_elem? xs i ≡ some a → i < length xs
  get_elem?-some [] i a e = cc
  get_elem?-some (x ∷ xs) zero a e = omega arith
  get_elem?-some (x ∷ xs) (suc i) a e = omega (arith, get_elem?-some xs i a e)

  pub drop_all : (i : ℕ) (xs : List A) → length xs ≤ i → drop i xs ≡ []
  drop_all zero [] h = refl
  drop_all zero (x ∷ xs) h = absurd (omega arith)
  drop_all (suc i) [] h = refl
  drop_all (suc i) (x ∷ xs) h = drop_all i xs (omega arith)

  pub take_all : (i : ℕ) (xs : List A) → length xs ≤ i → take i xs ≡ xs
  take_all zero [] h = refl
  take_all zero (x ∷ xs) h = absurd (omega arith)
  take_all (suc i) [] h = refl
  take_all (suc i) (x ∷ xs) h = ap (λ t. x ∷ t) (take_all i xs (omega arith))

  pub drop_nil : (n : ℕ) → drop n [] ≡ []
  drop_nil zero = refl
  drop_nil (suc n) = refl

  pub take-drop : (n : ℕ) (xs : List A) → take n xs ++ drop n xs ≡ xs
  take-drop zero xs = refl
  take-drop (suc n) [] = refl
  take-drop (suc n) (x ∷ xs) = ap (λ t. x ∷ t) (take-drop n xs)

  pub drop-get_elem? :
      (i : ℕ) (xs : List A) (a : A) → get_elem? xs i ≡ some a → drop i xs ≡ a ∷ drop (i + 1) xs
  drop-get_elem? i [] a e = cc
  drop-get_elem? zero (x ∷ xs) a e = ground arith
  drop-get_elem? (suc i) (x ∷ xs) a e =
      let shift : suc i + 1 ≡ suc (i + 1) = omega arith in rw shift (drop-get_elem? i xs a e)

  pub drop-cons :
      (i : ℕ) (xs : List A) (y : A) (ys : List A)
      → drop i xs ≡ y ∷ ys
      → (get_elem? xs i ≡ some y) × (drop (i + 1) xs ≡ ys)
  drop-cons zero [] y ys e = absurd (cc)
  drop-cons zero (x ∷ xs) y ys e = (ap some (head-eq_of_cons-eq e), tail-eq_of_cons-eq e)
  drop-cons (suc i) [] y ys e = absurd (cc)
  drop-cons (suc i) (x ∷ xs) y ys e =
      let shift : suc i + 1 ≡ suc (i + 1) = omega arith in rw shift (drop-cons i xs y ys e)

  pub drop-nil : (i : ℕ) (xs : List A) → drop i xs ≡ [] → get_elem? xs i ≡ none
  drop-nil zero [] e = refl
  drop-nil zero (x ∷ xs) e = absurd (cc)
  drop-nil (suc i) [] e = refl
  drop-nil (suc i) (x ∷ xs) e = drop-nil i xs e

  -- A store at one address.
  abbrev pub update : (ℕ → A) → ℕ → A → ℕ → A
  update f i v j = if j == i then v else f j

  -- for (j = i; j < i + n; j++) f[address(j)] = v;
  unfoldable pub store_each : (ℕ → ℕ) → A → ℕ → ℕ → (ℕ → A) → ℕ → A
  store_each address v zero i f = f
  store_each address v (suc n) i f = store_each address v n (i + 1) (update f (address i) v)

  store_each-keep :
      (address : ℕ → ℕ) (v : A) (n i : ℕ) (f : ℕ → A) (x : ℕ)
      → f x ≡ v
      → store_each address v n i f x ≡ v
  unfolding store_each
  store_each-keep address v zero i f x h = h
  store_each-keep address v (suc n) i f x h =
      store_each-keep address v n (i + 1) (update f (address i) v) x (ground arith)

  -- Every address of the loop holds the value at its end.
  pub store_each-hit :
      (address : ℕ → ℕ) (v : A) (n i j : ℕ) (f : ℕ → A)
      → i ≤ j
      → j < i + n
      → store_each address v n i f (address j) ≡ v
  unfolding store_each
  store_each-hit address v zero i j f h k = absurd (omega arith)
  store_each-hit address v (suc n) i j f h k = elim (ℕ_discrete i j) [
    | yes e ↦
        store_each-keep address v n (i + 1) (update f (address i) v) (address j)
          (let e' : (address j == address i) ≡ true = rw e (ground arith) in rw e')
    | no ne ↦
        store_each-hit address v n (i + 1) j (update f (address i) v) (omega arith) (omega arith)
  ]

  -- No other address is changed.
  pub store_each-miss :
      (address : ℕ → ℕ) (v : A) (n i x : ℕ) (f : ℕ → A)
      → ((j : ℕ) → i ≤ j → j < i + n → address j ≢ x)
      → store_each address v n i f x ≡ f x
  unfolding store_each
  store_each-miss address v zero i x f h = refl
  store_each-miss address v (suc n) i x f h =
      store_each-miss address v n (i + 1) x (update f (address i) v)
        (λ j l k. h j (omega arith) (omega arith))
      ∙ ground (arith, h i (omega arith) (omega arith))

pub length-map {ℓ κ} :
    {A : Type ℓ} {B : Type κ} (f : A → B) (xs : List A) → length (map f xs) ≡ length xs
length-map f [] = refl
length-map f (x ∷ xs) = ap suc (length-map f xs)

-- Rows of length `m` laid out one after another do not overlap.
rows_apart : (m a b i j : ℕ) → i < m → a < b → a * m + i ≢ b * m + j
rows_apart m a b i j h lt = grind arith

pub row_injective : (m a b i j : ℕ) → i < m → j < m → a * m + i ≡ b * m + j → (a ≡ b) × (i ≡ j)
row_injective m a b i j hi hj e = elim (dec_lt a b) [
  | yes lt ↦ absurd (rows_apart m a b i j hi lt e)
  | no ge ↦ elim (dec_lt b a) [
    | yes gt ↦ absurd (rows_apart m b a j i hj gt (sym e))
    | no le ↦ let same : a ≡ b = omega arith in (same, omega (arith, ap (λ (t : ℕ). t * m) same))
  ]
]

-- memcmp(a, b, n) == 0 on two sequences of the same length.
unfoldable pub bytes_eq : List ℕ → List ℕ → Bool
bytes_eq [] [] = true
bytes_eq [] (y ∷ ys) = false
bytes_eq (x ∷ xs) [] = false
bytes_eq (x ∷ xs) (y ∷ ys) = (x == y) && bytes_eq xs ys

pub bytes_eq→eq : (xs ys : List ℕ) → bytes_eq xs ys ≡ true → xs ≡ ys
unfolding bytes_eq
bytes_eq→eq [] [] h = refl
bytes_eq→eq [] (y ∷ ys) h = cc
bytes_eq→eq (x ∷ xs) [] h = cc
bytes_eq→eq (x ∷ xs) (y ∷ ys) h = ground (arith, bytes_eq→eq xs ys)

pub bytes_eq_refl : (xs : List ℕ) → bytes_eq xs xs ≡ true
unfolding bytes_eq
bytes_eq_refl [] = refl
bytes_eq_refl (x ∷ xs) = ground (arith, bytes_eq_refl xs)
