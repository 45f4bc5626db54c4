-- ===== src/Prelude/Lists.antt =====
-- Lists measured and cut by native numbers, under the library's names.
use Prim.Native.Nat.{ℕ, zero, suc, ◌+◌, ◌-◌, ◌≤◌}
use mathlib.Core.Path.{◌≡◌, refl, ap, sym}
use mathlib.Core.Bool.{Bool, true, ◌&&◌, ◌||◌, false}
use mathlib.Core.List.{List, [], ◌∷◌, ◌++◌}
use native.Mathlib.Omega.{arith}

module _ {ℓ} {A : Type ℓ} where
  abbrev pub length : List A → ℕ
  length [] = 0
  length (x ∷ xs) = suc (length xs)

  abbrev pub get_or : List A → ℕ → A → A
  get_or [] i d = d
  get_or (x ∷ xs) zero d = x
  get_or (x ∷ xs) (suc i) d = get_or xs i d

  abbrev pub take : ℕ → List A → List A
  take zero xs = []
  take (suc n) [] = []
  take (suc n) (x ∷ xs) = x ∷ take n xs

  abbrev pub drop : ℕ → List A → List A
  drop zero xs = xs
  drop (suc n) [] = []
  drop (suc n) (x ∷ xs) = drop n xs

  -- `xs[from:to]` of Python, at bounds that are not negative.
  abbrev pub slice : ℕ → ℕ → List A → List A
  slice from to xs = take (to - from) (drop from xs)

  abbrev pub all : (A → Bool) → List A → Bool
  all p [] = true
  all p (x ∷ xs) = p x && all p xs

  abbrev pub any : (A → Bool) → List A → Bool
  any p [] = false
  any p (x ∷ xs) = p x || any p xs

  drop-nil : (n : ℕ) → drop n [] ≡ []
  drop-nil zero = refl
  drop-nil (suc n) = refl

  pub length-append : (xs ys : List A) → length (xs ++ ys) ≡ length xs + length ys
  length-append [] ys = omega arith
  length-append (x ∷ xs) ys = omega (arith, length-append xs ys)

  abbrev pub All {κ} : (A → Type κ) → List A → Type κ
  All P [] = Unit
  All P (x ∷ xs) = P x × All P xs

  pub All-drop {κ} : (P : A → Type κ) (n : ℕ) (xs : List A) → All P xs → All P (drop n xs)
  All-drop P zero xs h = h
  All-drop P (suc n) [] h = h
  All-drop P (suc n) (x ∷ xs) h = All-drop P n xs h.1

  pub two_more : (xs : List A) → 2 ≤ length xs → (a b : A) × (rest : List A) × (xs ≡ a ∷ b ∷ rest)
  two_more [] h = absurd (omega arith)
  two_more (a ∷ []) h = absurd (omega arith)
  two_more (a ∷ b ∷ rest) h = (a, b, rest, refl)

  pub take-length-append : (xs ys : List A) → take (length xs) (xs ++ ys) ≡ xs
  take-length-append [] ys = refl
  take-length-append (x ∷ xs) ys = ap (◌∷◌ x) (take-length-append xs ys)

  pub drop-length-append : (xs ys : List A) → drop (length xs) (xs ++ ys) ≡ ys
  drop-length-append [] ys = refl
  drop-length-append (x ∷ xs) ys = drop-length-append xs ys

  pub take-append-drop : (n : ℕ) (xs : List A) → take n xs ++ drop n xs ≡ xs
  take-append-drop zero xs = refl
  take-append-drop (suc n) [] = refl
  take-append-drop (suc n) (x ∷ xs) = ap (◌∷◌ x) (take-append-drop n xs)

  pub length-take : (n : ℕ) (xs : List A) → n ≤ length xs → length (take n xs) ≡ n
  length-take zero xs h = refl
  length-take (suc n) [] h = elim h [ ]
  length-take (suc n) (x ∷ xs) h = ap suc (length-take n xs (omega arith))

  pub length-drop : (n : ℕ) (xs : List A) → length (drop n xs) ≡ length xs - n
  length-drop zero xs = omega arith
  length-drop (suc n) [] = omega arith
  length-drop (suc n) (x ∷ xs) = omega (arith, length-drop n xs)

module _ {ℓ} {A : Type ℓ} where
  pub drop_at : (i : ℕ) (xs ys : List A) → length xs ≡ i → drop i (xs ++ ys) ≡ ys
  drop_at i xs ys h = rw (← h) (drop-length-append xs ys)

  pub take_at : (i : ℕ) (xs ys : List A) → length xs ≡ i → take i (xs ++ ys) ≡ xs
  take_at i xs ys h = rw (← h) (take-length-append xs ys)

  -- The slice that covers `ys`.
  pub slice_at :
      (i j : ℕ) (xs ys zs : List A)
      → length xs ≡ i
      → i + length ys ≡ j
      → slice i j (xs ++ (ys ++ zs)) ≡ ys
  slice_at i j xs ys zs h k =
      let inner : length ys ≡ j - i = omega arith in
      rw (drop_at i xs (ys ++ zs) h) (take_at (j - i) ys zs inner)

  pub drop-drop : (m n : ℕ) (xs : List A) → drop (m + n) xs ≡ drop n (drop m xs)
  drop-drop zero n xs = ap (λ k. drop k xs) (omega arith)
  drop-drop (suc m) n [] = let e : suc m + n ≡ suc (m + n) = omega arith in rw e (sym (drop-nil n))
  drop-drop (suc m) n (x ∷ xs) =
      let e : suc m + n ≡ suc (m + n) = omega arith in rw e (drop-drop m n xs)

  get_or-length-append : (xs ys : List A) (y d : A) → get_or (xs ++ y ∷ ys) (length xs) d ≡ y
  get_or-length-append [] ys y d = refl
  get_or-length-append (x ∷ xs) ys y d = get_or-length-append xs ys y d

  pub get_or_at : (i : ℕ) (xs ys : List A) (y d : A) → length xs ≡ i → get_or (xs ++ y ∷ ys) i d ≡ y
  get_or_at i xs ys y d h = rw (← h) (get_or-length-append xs ys y d)

  pub get_or_split :
      (i : ℕ) (xs : List A) (d : A)
      → suc i ≤ length xs
      → take i xs ++ get_or xs i d ∷ drop (suc i) xs ≡ xs
  get_or_split i [] d h = absurd (omega arith)
  get_or_split zero (x ∷ xs) d h = refl
  get_or_split (suc i) (x ∷ xs) d h = ap (◌∷◌ x) (get_or_split i xs d (omega arith))
