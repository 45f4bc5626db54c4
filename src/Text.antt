-- ===== src/Text.antt =====
-- Python's `str` and `bytes`, and what the source uses of them: `encode("utf-8")`,
-- `decode("utf-8")`, `split`, `int.to_bytes`, `int.from_bytes`.
pub mod Split
pub mod Utf8
pub mod BigEndian
pub mod Decimal
use Prim.Native.Char.{code}
use Prim.Native.String.{String}
use software_bus.Prelude.{
  All, ◌<◌, ℕ, List, [], ◌∷◌, Bool, true, false, ◌&&◌, ◌==◌, ◌≡◌, ◌↔◌, refl, arith,
}

-- A text is the list of its code points, a byte string the list of its bytes.
abbrev pub Text : Type 0
Text = List ℕ

abbrev pub Bytes : Type 0
Bytes = List ℕ

abbrev pub IsBytes : Bytes → Type 0
IsBytes = All (λ b. b < 256)

-- A literal of the source.
abbrev pub codes : String → Text
codes String.[] = []
codes (String.◌∷◌ c s) = code c ∷ codes s

unfoldable pub text_eq : Text → Text → Bool
text_eq [] [] = true
text_eq [] (d ∷ t) = false
text_eq (c ∷ s) [] = false
text_eq (c ∷ s) (d ∷ t) = c == d && text_eq s t

pub text_eq_sound : (s t : Text) → text_eq s t ≡ true → s ≡ t
unfolding text_eq
text_eq_sound [] [] h = refl
text_eq_sound [] (d ∷ t) h = ground arith
text_eq_sound (c ∷ s) [] h = ground arith
text_eq_sound (c ∷ s) (d ∷ t) h = ground (arith, text_eq_sound s t)

pub text_eq_refl : (s : Text) → text_eq s s ≡ true
unfolding text_eq
text_eq_refl [] = refl
text_eq_refl (c ∷ s) = ground (arith, text_eq_refl s)

pub text_eq_iff : (s t : Text) → (text_eq s t ≡ true) ↔ (s ≡ t)
text_eq_iff s t = (text_eq_sound s t, λ e. rw e (text_eq_refl t))
