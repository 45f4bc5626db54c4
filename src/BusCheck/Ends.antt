-- ===== src/BusCheck/Ends.antt =====
-- The ends of TCP connections and dicts keyed by ends (software_bus/bus_check.py). A dict is the
-- list of its items in the order of their insertion.
use software_bus.Prelude.{
  ℕ, ◌≡◌, ◌↔◌, refl, arith, ◌==◌, ==_iff, ltb, ◌&&◌, ◌||◌, Bool, true, false, if◌then◌else◌, Option,
  none, some, List, [], ◌∷◌, Bool-cases, inl, inr,
}
use software_bus.BaseLayer.Node.{Address, address_eq}
use software_bus.Text.{Text, text_eq, text_eq_iff}

unfoldable pub text_lt : Text → Text → Bool
text_lt s [] = false
text_lt [] (d ∷ t) = true
text_lt (c ∷ s) (d ∷ t) = let rest = text_lt s t in ltb c d || (c == d && rest)

-- `a < b` on tuples.
unfoldable pub address_lt : Address → Address → Bool
address_lt (h, p) (k, q) = text_lt h k || (text_eq h k && ltb p q)

-- The local and the remote address of a connection.
abbrev pub End : Type 0
End = Address × Address

unfoldable pub end_eq : End → End → Bool
end_eq (a, b) (c, d) = address_eq a c && address_eq b d

unfoldable pub end_lt : End → End → Bool
end_lt (a, b) (c, d) = address_lt a c || (address_eq a c && address_lt b d)

abbrev pub opposite : End → End
opposite (a, b) = (b, a)

pub end_eq_iff : (e f : End) → (end_eq e f ≡ true) ↔ (e ≡ f)
unfolding end_eq
end_eq_iff ((h, p), (k, q)) ((h', p'), (k', q')) =
    ground (arith, text_eq_iff h h', text_eq_iff k k', ==_iff p p', ==_iff q q')

unfoldable pub end_pid : End → List (End × ℕ) → Option ℕ
end_pid e [] = none
end_pid e ((f, pid) ∷ items) = let rest = end_pid e items in if end_eq f e then some pid else rest

-- `dict[e] = pid`
unfoldable pub set_pid : End → ℕ → List (End × ℕ) → List (End × ℕ)
set_pid e pid [] = (e, pid) ∷ []
set_pid e pid ((f, old) ∷ items) =
    let rest = set_pid e pid items in if end_eq f e then (f, pid) ∷ items else (f, old) ∷ rest

-- A dict has each key once.
abbrev pub IsDict : List (End × ℕ) → Type 0
IsDict [] = Unit
IsDict ((e, pid) ∷ items) = (end_pid e items ≡ none) × IsDict items

pub end_pid-set_pid :
    (e f : End) (pid : ℕ) (items : List (End × ℕ))
    → end_pid e (set_pid f pid items) ≡ (if end_eq f e then some pid else end_pid e items)
unfolding end_pid set_pid
end_pid-set_pid e f pid [] = refl
end_pid-set_pid e f pid ((g, old) ∷ items) =
    ground (arith, end_pid-set_pid e f pid items, end_eq_iff f e, end_eq_iff g e, end_eq_iff g f)

pub set_pid-IsDict :
    (e : End) (pid : ℕ) (items : List (End × ℕ)) → IsDict items → IsDict (set_pid e pid items)
unfolding set_pid end_pid
set_pid-IsDict e pid [] d = (refl, tt)
set_pid-IsDict e pid ((f, old) ∷ items) (fresh, d) = elim (Bool-cases (end_eq f e)) [
  | inl same ↦ rw same (fresh, d)
  | inr other ↦ rw other (
    ground (arith, fresh, other, end_pid-set_pid f e pid items, end_eq_iff f e, end_eq_iff e f),
    set_pid-IsDict e pid items d,
  )
]
