-- ===== src/BusCheck/Cycles/Together.antt =====
-- The groups of `find_cycles` (software_bus/bus_check.py): what links connect, and how they grow.
use software_bus.Prelude.{
  ℕ, suc, ◌≡◌, refl, sym, ap, ◌∙◌, arith, ◌==◌, ==_iff, ==_refl, ◌||◌, Bool, true, false, List, [],
  ◌∷◌, member, member-append, update, Bool-cases, inl, inr,
}
use software_bus.BusCheck.Cycles.{Link, add_neighbour}
use software_bus.BusCheck.Cycles.Spec.{LeadsTo, adjacent, joins, joined, Connected, here, onward}
use software_bus.BusCheck.Cycles.Root.{Forest, joined_rep, joined_depth, joined-Forest}

pub Connected-mono :
    {f g : ℕ → ℕ → Bool} {a b : ℕ}
    → ((x y : ℕ) → f x y ≡ true → g x y ≡ true)
    → Connected f a b
    → Connected g a b
Connected-mono h here = here
Connected-mono h (onward {b} {c} r e) = onward (Connected-mono h r) (h b c e)

pub Connected-trans :
    {f : ℕ → ℕ → Bool} {a b c : ℕ} → Connected f a b → Connected f b c → Connected f a c
Connected-trans p here = p
Connected-trans p (onward r e) = onward (Connected-trans p r) e

pub LeadsTo-mono :
    (f g : ℕ → ℕ → Bool) (a b : ℕ) (rest : List ℕ)
    → ((x y : ℕ) → f x y ≡ true → g x y ≡ true)
    → LeadsTo f a b rest
    → LeadsTo g a b rest
LeadsTo-mono f g a b [] h l = l
LeadsTo-mono f g a b (x ∷ rest) h l = (h a x l.0, LeadsTo-mono f g x b rest h l.1)

-- The groups are those that the links seen connect, and the tree connects each group.
pub record IsGrouped (pids : List ℕ) (n : ℕ) (seen : List Link) (parent : ℕ → ℕ) (tree : ℕ → List ℕ)
    : Type 0 where
  pub rep : ℕ → ℕ
  pub depth : ℕ → ℕ
  pub forest : Forest n rep depth parent
  pub linked : (x y : ℕ) → joined seen x y ≡ true → rep x ≡ rep y
  pub known : (x y : ℕ) → adjacent tree x y ≡ true → joined seen x y ≡ true
  pub inside : (x y : ℕ) → adjacent tree x y ≡ true → member y pids ≡ true
  pub spans : (x y : ℕ) → rep x ≡ rep y → Connected (adjacent tree) x y

pub Connected-rep :
    (seen : List Link) {a b : ℕ} (rep : ℕ → ℕ)
    → ((x y : ℕ) → joined seen x y ≡ true → rep x ≡ rep y)
    → Connected (joined seen) a b
    → rep a ≡ rep b
Connected-rep seen rep linked here = refl
Connected-rep seen rep linked (onward {b} {c} r e) = Connected-rep seen rep linked r ∙ linked b c e

adjacent-add :
    (a b x y : ℕ) (tree : ℕ → List ℕ)
    → (a == b) ≡ false
    → adjacent (add_neighbour b a (add_neighbour a b tree)) x y
      ≡ (adjacent tree x y || joins x y (a, b))
unfolding update member
adjacent-add a b x y tree h = ground (
  arith,
  h,
  member-append y (tree a) (b ∷ []),
  member-append y (tree b) (a ∷ []),
  ==_iff a x,
  ==_iff b x,
  ==_iff a b,
  ap tree,
)

-- A group reaches itself, and each of two that a link joins reaches the other.
span_joined :
    (tree : ℕ → List ℕ) (a b : ℕ) (rep : ℕ → ℕ)
    → (a == b) ≡ false
    → ((x y : ℕ) → rep x ≡ rep y → Connected (adjacent tree) x y)
    → (x y : ℕ) → joined_rep rep (rep a) (rep b) x ≡ joined_rep rep (rep a) (rep b) y
    → Connected (adjacent (add_neighbour b a (add_neighbour a b tree))) x y
span_joined tree a b rep apart spans x y e = elim (Bool-cases (rep x == rep a)) [
  | inl p ↦ elim (Bool-cases (rep y == rep a)) [
    | inl q ↦ wide (spans x y ((==_iff (rep x) (rep a)).0 p ∙ sym ((==_iff (rep y) (rep a)).0 q)))
    | inr q ↦
        Connected-trans
          (onward (wide (spans x a ((==_iff (rep x) (rep a)).0 p)))
            (edge a b (ground (arith, ==_refl a, ==_refl b))))
          (wide (spans b y (ground (arith, e, p, q))))
  ]
  | inr p ↦ elim (Bool-cases (rep y == rep a)) [
    | inl q ↦
        Connected-trans
          (onward (wide (spans x b (ground (arith, e, p, q))))
            (edge b a (ground (arith, ==_refl a, ==_refl b))))
          (wide (spans a y (sym ((==_iff (rep y) (rep a)).0 q))))
    | inr q ↦ wide (spans x y (ground (arith, e, p, q)))
  ]
]
  where
    edge :
        (c d : ℕ)
        → joins c d (a, b) ≡ true
        → adjacent (add_neighbour b a (add_neighbour a b tree)) c d ≡ true
    edge c d j = ground (arith, j, adjacent-add a b c d tree apart)

    wide :
        {c d : ℕ}
        → Connected (adjacent tree) c d
        → Connected (adjacent (add_neighbour b a (add_neighbour a b tree))) c d
    wide r = Connected-mono (λ c d k. ground (arith, k, adjacent-add a b c d tree apart)) r

module _ {pids : List ℕ} {n : ℕ} {seen : List Link} {tree : ℕ → List ℕ} (a b : ℕ) where
  -- A link within a group leaves the groups as they are.
  pub grown :
      {parent parent' : ℕ → ℕ} (g : IsGrouped pids n seen parent tree)
      → Forest n g.rep g.depth parent'
      → g.rep a ≡ g.rep b
      → IsGrouped pids n ((a, b) ∷ seen) parent' tree
  grown g f same = record {
    rep = g.rep;
    depth = g.depth;
    forest = f;
    linked = λ x y j.
        ground
          (arith, j, g.linked x y, same, ==_iff a x, ==_iff b y, ==_iff a y, ==_iff b x, ap g.rep);
    known = λ x y e. ground (arith, g.known x y e);
    inside = g.inside;
    spans = g.spans;
  }

  -- A link between two groups makes them one.
  pub united :
      {parent parent' : ℕ → ℕ} (g : IsGrouped pids n seen parent tree)
      → Forest n g.rep g.depth parent'
      → (g.rep a == g.rep b) ≡ false
      → member a pids ≡ true
      → member b pids ≡ true
      → IsGrouped pids
          (suc n)
          ((a, b) ∷ seen)
          (update parent' (g.rep a) (g.rep b))
          (add_neighbour b a (add_neighbour a b tree))
  united g f other ma mb = record {
    rep = joined_rep g.rep (g.rep a) (g.rep b);
    depth = joined_depth g.rep g.depth (g.rep a);
    forest = joined-Forest a b other f;
    linked = λ x y j. ground (
      arith,
      j,
      g.linked x y,
      ==_iff a x,
      ==_iff b y,
      ==_iff a y,
      ==_iff b x,
      ap g.rep,
      ==_iff (g.rep x) (g.rep a),
      ==_iff (g.rep y) (g.rep a),
      ==_iff (g.rep b) (g.rep a),
    );
    known = λ x y e. ground (arith, e, adjacent-add a b x y tree apart, g.known x y);
    inside = λ x y e. ground (
      arith,
      e,
      adjacent-add a b x y tree apart,
      g.inside x y,
      ma,
      mb,
      ==_iff a y,
      ==_iff b y,
      ap (λ z. member z pids),
    );
    spans = λ x y e. span_joined tree a b g.rep apart g.spans x y e;
  }
    where
      apart : (a == b) ≡ false
      apart = ground (arith, other, ==_iff a b, ap g.rep, ==_iff (g.rep a) (g.rep b))
