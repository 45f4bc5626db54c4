-- ===== src/Text/Decimal.antt =====
-- `str` of a number that is not negative.
use software_bus.Prelude.{
  ℕ, zero, suc, ◌+◌, ◌-◌, ◌*◌, ◌/◌, ◌%◌, ◌<◌, ◌≡◌, arith, ltb, [], ◌∷◌, ◌++◌, if◌then◌else◌,
  Bool-cases, inl, inr,
}
use software_bus.Text.{Text}

-- The fuel is more than the number, which each step divides by 10.
unfoldable digits : ℕ → ℕ → Text
digits zero n = []
digits (suc fuel) n =
    let rest = digits fuel (n / 10) in
    if ltb n 10 then (b'0' + n) ∷ [] else rest ++ (b'0' + n % 10) ∷ []

unfoldable pub show : ℕ → Text
unfolding digits
show n = digits (suc n) n

-- The number that digits stand for.
abbrev pub value : ℕ → Text → ℕ
value acc [] = acc
value acc (c ∷ s) = value (acc * 10 + (c - b'0')) s

value-append : (acc d : ℕ) (s : Text) → value acc (s ++ (b'0' + d) ∷ []) ≡ value acc s * 10 + d
value-append acc d [] = omega arith
value-append acc d (c ∷ s) = value-append (acc * 10 + (c - b'0')) d s

value-digits : (fuel n : ℕ) → n < fuel → value 0 (digits fuel n) ≡ n
unfolding digits
value-digits zero n h = absurd (omega (arith, h))
value-digits (suc fuel) n h = elim (Bool-cases (ltb n 10)) [
  | inl e ↦ rw e (omega arith)
  | inr e ↦ rw e (
      ground
        (arith, e, h, value-append 0 (n % 10) (digits fuel (n / 10)), value-digits fuel (n / 10)))
]

-- The fuel is enough: the digits stand for the number.
pub value-show : (n : ℕ) → value 0 (show n) ≡ n
unfolding show
value-show n = value-digits (suc n) n (omega arith)
