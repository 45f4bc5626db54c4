-- ===== src/BusCheck/Cycles/Root.antt =====
-- The parents of `find_cycles` (software_bus/bus_check.py) as a forest of groups, and `root` on it.
use software_bus.Prelude.{
  ℕ, zero, suc, ◌≤◌, ◌<◌, ◌≡◌, sym, ap, ◌∙◌, arith, ◌==◌, ==_iff, false, if◌then◌else◌, some,
  update, update_self, Bool-cases, inl, inr,
}
use software_bus.BusCheck.Cycles.{root}

-- Each pid has a group, named by the group's root, and a depth that falls towards the root.
pub record Forest (n : ℕ) (rep depth : ℕ → ℕ) (parent : ℕ → ℕ) : Type 0 where
  pub same : (x : ℕ) → rep (parent x) ≡ rep x
  pub top : (x : ℕ) → parent (rep x) ≡ rep x
  pub own : (x : ℕ) → parent x ≡ x → rep x ≡ x
  pub ground_level : (x : ℕ) → depth (rep x) ≡ 0
  pub falls : (x : ℕ) → (parent x == x) ≡ false → depth (parent x) < depth x
  pub low : (x : ℕ) → depth x ≤ n

module _ {n : ℕ} {rep depth : ℕ → ℕ} where
  -- The step of `root` leaves the groups as they are.
  halved-Forest :
      (parent : ℕ → ℕ) (x : ℕ)
      → (parent x == x) ≡ false
      → Forest n rep depth parent
      → Forest n rep depth (update parent x (parent (parent x)))
  unfolding update
  halved-Forest parent x h f = record {
    same =
        λ y. ground (arith, f.same y, f.same x, f.same (parent x), ==_iff x y, ap rep, ap parent);
    top = λ y. ground (arith, f.top y, ==_iff x (rep y), ap parent, ==_iff (parent x) x);
    own = λ y e. ground (arith, f.own y, e, ==_iff x y, below, ap depth);
    ground_level = f.ground_level;
    falls = λ y e. ground (arith, f.falls y, e, ==_iff x y, below, ap depth);
    low = f.low;
  }
    where
      below : depth (parent (parent x)) < depth x
      below = elim (Bool-cases (parent (parent x) == parent x)) [
        | inl e ↦
            ground (arith, f.falls x h, ap depth ((==_iff (parent (parent x)) (parent x)).0 e))
        | inr e ↦ ground (arith, f.falls x h, f.falls (parent x) e)
      ]

  rep-halved :
      (parent : ℕ → ℕ) (x : ℕ)
      → Forest n rep depth parent
      → rep (update parent x (parent (parent x)) x) ≡ rep x
  rep-halved parent x f =
      ap rep (update_self parent x (parent (parent x))) ∙ f.same (parent x) ∙ f.same x

  depth-halved :
      (parent : ℕ → ℕ) (x : ℕ)
      → (parent x == x) ≡ false
      → Forest n rep depth parent
      → depth (update parent x (parent (parent x)) x) < depth x
  depth-halved parent x h f =
      let halved = halved-Forest parent x h f in
      elim (Bool-cases (parent (parent x) == parent x)) [
        | inl e ↦ ground (
          arith,
          f.falls x h,
          ap depth ((==_iff (parent (parent x)) (parent x)).0 e),
          ap depth (update_self parent x (parent (parent x))),
        )
        | inr e ↦ ground (
          arith,
          f.falls x h,
          f.falls (parent x) e,
          ap depth (update_self parent x (parent (parent x))),
        )
      ]

  -- With fuel above the depth, `root` finds the group's name and keeps the groups.
  pub root_lem :
      (fuel x : ℕ) (parent : ℕ → ℕ)
      → Forest n rep depth parent
      → depth x < fuel
      → (parent' : ℕ → ℕ) × (root fuel x parent ≡ some (rep x, parent'))
        × Forest n rep depth parent'
  unfolding root
  root_lem zero x parent f h = absurd (ground arith)
  root_lem (suc fuel) x parent f h = elim (Bool-cases (parent x == x)) [
    | inl e ↦
        (parent, simp e (ap (λ r. some (r, parent)) (sym (f.own x ((==_iff (parent x) x).0 e)))), f)
    | inr e ↦
        let halved = update parent x (parent (parent x)) in
        let (parent', found, f') =
          root_lem fuel (halved x) halved (halved-Forest parent x e f)
            (ground (arith, depth-halved parent x e f)) in
        (parent', simp e (found ∙ ap (λ r. some (r, parent')) (rep-halved parent x f)), f')
  ]

-- The groups once the root `a` has been put below the root `b`.
abbrev pub joined_rep : (ℕ → ℕ) → ℕ → ℕ → ℕ → ℕ
joined_rep rep a b x = if rep x == a then b else rep x

abbrev pub joined_depth : (ℕ → ℕ) → (ℕ → ℕ) → ℕ → ℕ → ℕ
joined_depth rep depth a x = if rep x == a then suc (depth x) else depth x

pub joined-Forest :
    {n : ℕ} {rep depth : ℕ → ℕ} {parent : ℕ → ℕ} (x y : ℕ)
    → (rep x == rep y) ≡ false
    → Forest n rep depth parent
    → Forest
        (suc n)
        (joined_rep rep (rep x) (rep y))
        (joined_depth rep depth (rep x))
        (update parent (rep x) (rep y))
unfolding update
joined-Forest {n} {rep} {depth} {parent} x y h f =
    let a : ℕ = rep x in
    let b : ℕ = rep y in
    let ra : rep a ≡ a = f.own a (f.top x) in
    let rb : rep b ≡ b = f.own b (f.top y) in
    record {
      same = λ z. ground (arith, h, ra, rb, f.same z, ==_iff a z, ==_iff (rep z) a, ap rep);
      top = λ z.
          ground
            (arith, h, ra, rb, f.top y, f.top z, ==_iff a b, ==_iff (rep z) a, ==_iff a (rep z));
      own = λ z e. ground (arith, h, ra, rb, f.own z, ==_iff a z, ==_iff (rep z) a, ap rep);
      ground_level = λ z. ground (
        arith,
        h,
        ra,
        rb,
        f.ground_level z,
        f.ground_level y,
        ==_iff (rep z) a,
        ap rep,
        f.own (rep z) (f.top z),
      );
      falls = λ z e. ground (
        arith,
        h,
        ra,
        rb,
        f.falls z,
        f.same z,
        f.ground_level y,
        ==_iff a z,
        ==_iff (rep z) a,
        ap rep,
      );
      low = λ z. ground (arith, f.low z);
    }
