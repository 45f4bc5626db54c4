-- ===== src/Prelude/Sets.antt =====
-- Python lists of objects compared by identity, the objects being numbers, and stores of objects.
use Prim.Native.Nat.{ℕ}
use mathlib.Core.Path.{◌≡◌, refl, ap}
use mathlib.Core.Logic.{◌≢◌, inl, inr}
use mathlib.Core.Bool.{Bool, true, false, not, ◌||◌, ◌&&◌}
use mathlib.Core.List.{List, [], ◌∷◌, ◌++◌}
use native.Mathlib.Omega.{arith}
use software_bus.Prelude.Tests.{Bool-cases, ◌==◌, ==_iff, ==_refl, if◌then◌else◌}

-- `c in list`
unfoldable pub member : ℕ → List ℕ → Bool
member c [] = false
member c (x ∷ xs) = x == c || member c xs

-- `list.remove(c)`, for a `c` that is there: its first place goes.
unfoldable pub remove : ℕ → List ℕ → List ℕ
remove c [] = []
remove c (x ∷ xs) = let rest = remove c xs in if x == c then xs else x ∷ rest

-- `[x for x in list if keep(x)]`
module _ {ℓ} {A : Type ℓ} where
  unfoldable pub select : (A → Bool) → List A → List A
  select keep [] = []
  select keep (x ∷ xs) = let rest = select keep xs in if keep x then x ∷ rest else rest

unfoldable pub distinct : List ℕ → Bool
distinct [] = true
distinct (x ∷ xs) = not (member x xs) && distinct xs

pub member-append : (c : ℕ) (xs ys : List ℕ) → member c (xs ++ ys) ≡ (member c xs || member c ys)
unfolding member
member-append c [] ys = refl
member-append c (x ∷ xs) ys = ground (arith, member-append c xs ys)

pub member-select :
    (keep : ℕ → Bool) (c : ℕ) (xs : List ℕ) → member c (select keep xs) ≡ (member c xs && keep c)
unfolding member select
member-select keep c [] = refl
member-select keep c (x ∷ xs) = ground (arith, member-select keep c xs, ==_iff x c, ap keep)

pub member-remove_ne : (c d : ℕ) (xs : List ℕ) → c ≢ d → member d (remove c xs) ≡ member d xs
unfolding member remove
member-remove_ne c d [] h = refl
member-remove_ne c d (x ∷ xs) h = ground (arith, member-remove_ne c d xs h)

pub member-remove_self : (c : ℕ) (xs : List ℕ) → distinct xs ≡ true → member c (remove c xs) ≡ false
unfolding member remove distinct
member-remove_self c [] h = refl
member-remove_self c (x ∷ xs) h = ground (arith, member-remove_self c xs)

pub distinct-remove : (c : ℕ) (xs : List ℕ) → distinct xs ≡ true → distinct (remove c xs) ≡ true
unfolding remove distinct member
distinct-remove c [] h = refl
distinct-remove c (x ∷ xs) h = ground (arith, distinct-remove c xs, member-remove_ne c x xs)

pub distinct-select :
    (keep : ℕ → Bool) (xs : List ℕ) → distinct xs ≡ true → distinct (select keep xs) ≡ true
unfolding select distinct
distinct-select keep [] h = refl
distinct-select keep (x ∷ xs) h = ground (arith, distinct-select keep xs, member-select keep x xs)

-- A store of objects.
unfoldable pub update {ℓ} : {A : Type ℓ} → (ℕ → A) → ℕ → A → ℕ → A
update store c v d = if c == d then v else store d

module _ {ℓ κ} {A : Type ℓ} (P : A → Type κ) where
  -- What holds of the new object and of the old store holds of the new store.
  pub update_all :
      (store : ℕ → A) (c : ℕ) (v : A)
      → P v
      → ((d : ℕ) → P (store d))
      → (d : ℕ) → P (update store c v d)
  unfolding update
  update_all store c v new old d = elim (Bool-cases (c == d)) [
    | inl e ↦ rw e new
    | inr e ↦ rw e (old d)
  ]

pub update_self {ℓ} : {A : Type ℓ} (store : ℕ → A) (c : ℕ) (v : A) → update store c v c ≡ v
unfolding update
update_self store c v = rw (==_refl c)

pub update_ne {ℓ} :
    {A : Type ℓ} (store : ℕ → A) (c d : ℕ) (v : A) → (c == d) ≡ false → update store c v d ≡ store d
unfolding update
update_ne store c d v h = rw h
