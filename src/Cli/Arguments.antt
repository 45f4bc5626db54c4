-- ===== src/Cli/Arguments.antt =====
-- The parsers of arguments in software_bus/_cli.py. What they use of Python's Unicode tables is an
-- argument: `str.isdigit`, `int`, `str.lower` and `str.strip`.
mod Tests
use software_bus.Prelude.{
  ℕ, ◌==◌, ==_iff, ◌≡◌, ◌↔◌, refl, sym, ap, subst, arith, not, ◌&&◌, ◌||◌, Bool, true, false,
  if◌then◌else◌, List, [], ◌∷◌, ◌++◌, map, all, select, Result, ok, err, Error, ◌>>=◌, ◌>>◌,
  bind_inversion, Bool-cases, inl, inr, ◌∙◌,
}
use software_bus.Text.{Text, codes, text_eq}
use software_bus.Text.Split.{split}

-- `value.rpartition(separator)`, with whether there is one.
unfoldable pub rpartition : ℕ → Text → Text × Bool × Text
rpartition separator [] = ([], false, [])
rpartition separator (c ∷ s) =
    let (before, is_there, after) = rpartition separator s in
    if is_there
    then (c ∷ before, true, after)
    else if c == separator
    then ([], true, after)
    else ([], false, c ∷ after)

abbrev pub is_empty : Text → Bool
is_empty [] = true
is_empty (c ∷ s) = false

module _ (isdigit : Text → Bool) (int : Text → Result ℕ) where
  unfoldable pub parse_address : Text → Result (Text × ℕ)
  parse_address value =
      let (host, separated, port) = rpartition b':' value in
      if not separated || is_empty host || not (isdigit port)
      then err Error.argument_type_error
      else do number ← int port; ok (host, number)

abbrev pub parse_bool : (Text → Text) → Text → Result Bool
parse_bool lower value =
    if text_eq (lower value) (codes "true")
    then ok true
    else if text_eq (lower value) (codes "false")
    then ok false
    else err Error.argument_type_error

abbrev pub nonempty : List Text → Result (List Text)
nonempty [] = err Error.argument_type_error
nonempty (s ∷ ss) = ok (s ∷ ss)

unfoldable pub parse_subject_list : (Text → Text) → Text → Result (List Text)
parse_subject_list strip value =
    nonempty (select (λ subject. not (is_empty subject)) (map strip (split b',' value)))

-- A text without the separator.
abbrev pub has_none : ℕ → Text → Bool
has_none separator s = all (λ c. not (c == separator)) s

-- What `rpartition` finds.
record Parted (separator : ℕ) (s : Text) (p : Text × Bool × Text) : Type 0 where
  rest : has_none separator p.2 ≡ true
  whole : s ≡ (if p.1 then p.0 ++ separator ∷ p.2 else p.2)

rpartition-Parted : (separator : ℕ) (s : Text) → Parted separator s (rpartition separator s)
unfolding rpartition
rpartition-Parted separator [] = record { rest = refl; whole = refl }
rpartition-Parted separator (c ∷ s) =
    let p = rpartition-Parted separator s in
    elim (Bool-cases (rpartition separator s).1) [
      | inl f ↦ rw f (record { rest = p.rest; whole = ground (arith, f, p.whole) })
      | inr f ↦ rw f (elim (Bool-cases (c == separator)) [
        | inl e ↦
            rw e
              (record { rest = p.rest; whole = ground (arith, f, e, p.whole, ==_iff c separator) })
        | inr e ↦
            rw e (record { rest = ground (arith, e, p.rest); whole = ground (arith, f, p.whole) })
      ])
    ]

rpartition_absent :
    (separator : ℕ) (s : Text)
    → has_none separator s ≡ true
    → rpartition separator s ≡ ([], false, s)
unfolding rpartition
rpartition_absent separator [] h = refl
rpartition_absent separator (c ∷ s) h =
    rw (rpartition_absent separator s (ground (arith, h))) (ground (arith, h))

rpartition-append :
    (separator : ℕ) (before after : Text)
    → has_none separator after ≡ true
    → rpartition separator (before ++ separator ∷ after) ≡ (before, true, after)
unfolding rpartition
rpartition-append separator [] after h =
    rw (rpartition_absent separator after h) (ground (arith, ==_iff separator separator))
rpartition-append separator (c ∷ before) after h =
    rw (rpartition-append separator before after h) refl

module _ (isdigit : Text → Bool) (int : Text → Result ℕ) (value host : Text) (number : ℕ) where
  -- How an address is written.
  abbrev pub IsWritten : Text → Type 0
  IsWritten port =
      (value ≡ host ++ b':' ∷ port)
      × (has_none b':' port ≡ true)
      × (is_empty host ≡ false)
      × (isdigit port ≡ true)
      × (int port ≡ ok number)

  parsed : parse_address isdigit int value ≡ ok (host, number) → (port : Text) × IsWritten port
  unfolding parse_address
  parsed e =
      let (before, separated, port) = rpartition b':' value in
      let p = rpartition-Parted b':' value in
      elim (Bool-cases (not separated || is_empty before || not (isdigit port))) [
        | inl b ↦ absurd (ground (arith, b, e))
        | inr b ↦
            let addressed : ℕ → Result (Text × ℕ) = λ n. ok (before, n) in
            let whole : (int port >>= addressed) ≡ ok (host, number) = ground (arith, b, e) in
            let (n, i, j) = bind_inversion (int port) addressed whole in
            let same : before ≡ host = ground (arith, j) in
            (
              port,
              (
                ground (arith, b, p.whole) ∙ ap (λ h. h ++ b':' ∷ port) same,
                p.rest,
                ground (arith, b, ap is_empty same),
                ground (arith, b),
                ground (arith, i, j),
              ),
            )
      ]

  unparsed : (port : Text) → IsWritten port → parse_address isdigit int value ≡ ok (host, number)
  unfolding parse_address
  unparsed port (w, h, e, d, i) =
      rw (ap (rpartition b':') w ∙ rpartition-append b':' host port h) (rw e (rw d (rw i refl)))

-- An address is parsed exactly if a host that is not empty stands before its last colon and digits of a
-- number after it; it is parsed as these.
pub parse_address_iff :
    (isdigit : Text → Bool) (int : Text → Result ℕ) (value host : Text) (number : ℕ)
    → (parse_address isdigit int value ≡ ok (host, number))
      ↔ ((port : Text) × IsWritten isdigit int value host number port)
parse_address_iff isdigit int value host number =
    (parsed isdigit int value host number, λ w. unparsed isdigit int value host number w.0 w.1)

all_kept :
    (ss : List Text)
    → all (λ subject. not (is_empty subject)) (select (λ subject. not (is_empty subject)) ss) ≡ true
unfolding select
all_kept [] = refl
all_kept (s ∷ ss) = ground (arith, all_kept ss)

-- A list of subjects has none that is empty.
parse_subject_list-nonempty :
    (strip : Text → Text) (value : Text) (subjects : List Text)
    → parse_subject_list strip value ≡ ok subjects
    → all (λ subject. not (is_empty subject)) subjects ≡ true
unfolding parse_subject_list
parse_subject_list-nonempty strip value subjects h = kept (map strip (split b',' value)) h
  where
    same : (ss : List Text) → nonempty ss ≡ ok subjects → ss ≡ subjects
    same [] e = absurd (ground (arith, e))
    same (s ∷ ss) e = ground (arith, e)

    kept :
        (ss : List Text)
        → nonempty (select (λ subject. not (is_empty subject)) ss) ≡ ok subjects
        → all (λ subject. not (is_empty subject)) subjects ≡ true
    kept ss e =
        subst (λ x. all (λ subject. not (is_empty subject)) x ≡ true)
          (same (select (λ subject. not (is_empty subject)) ss) e) (all_kept ss)
