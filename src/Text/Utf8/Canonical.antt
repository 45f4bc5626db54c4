-- ===== src/Text/Utf8/Canonical.antt =====
-- Bytes that decode are the encoding of the text that they decode to: no two byte strings decode to
-- one text.
use software_bus.Prelude.{
  ℕ, zero, suc, ◌-◌, ◌≤◌, ◌<◌, ◌≡◌, refl, ap, ◌∙◌, sym, arith, List, [], ◌∷◌, ◌++◌, ok, length,
  tests, Bool-cases, ltb, inl, inr, bind_inversion,
}
use software_bus.Text.Utf8.{
  encode, Expect, start, more, add_bits, continue_to, read_byte, decode_from, decode,
}
use software_bus.Text.Utf8.RoundTrip.{
  Coded, one, two, three, four, Coded-encode_char, low_3, high_3, low_4, high_4,
}

read_byte-more :
    (left value lo hi b : ℕ) {p : List ℕ × Expect}
    → read_byte (more left value lo hi) b ≡ ok p
    → (lo ≤ b) × (b ≤ hi) × (continue_to left (add_bits value b) ≡ p)
unfolding read_byte
read_byte-more left value lo hi b h = ground arith

-- A decoder that ends well inside a character has read one byte in range, and goes on.
continue_ok :
    (left value lo hi : ℕ) (bs t : List ℕ)
    → decode_from (more left value lo hi) bs ≡ ok t
    → (b : ℕ) × (rest r : List ℕ) × (bs ≡ b ∷ rest)
      × (lo ≤ b)
      × (b ≤ hi)
      × (decode_from (continue_to left (add_bits value b)).1 rest ≡ ok r)
      × ((continue_to left (add_bits value b)).0 ++ r ≡ t)
unfolding decode_from
continue_ok left value lo hi [] t h = cc
continue_ok left value lo hi (b ∷ bs) t h =
    let (p, e, h') = bind_inversion (read_byte (more left value lo hi) b) _ h in
    let (r, e', h'') = bind_inversion (decode_from p.1 bs) _ h' in
    let (low, high, q) = read_byte-more left value lo hi b e in
    (b, bs, r, refl, low, high, rw q e', rw q (cc h''))

-- What the lead byte says of the rest.
data Lead (b : ℕ) (p : List ℕ × Expect) : Type 0 where
  ascii : b < 0x80 → p ≡ (b ∷ [], start) → Lead b p
  lead2 : 0xC2 ≤ b → b < 0xE0 → p ≡ ([], more 0 (b - 0xC0) 0x80 0xBF) → Lead b p
  lead3 : 0xE0 ≤ b → b < 0xF0 → p ≡ ([], more 1 (b - 0xE0) (low_3 b) (high_3 b)) → Lead b p
  lead4 : 0xF0 ≤ b → b < 0xF5 → p ≡ ([], more 2 (b - 0xF0) (low_4 b) (high_4 b)) → Lead b p

read_byte-Lead : (b : ℕ) (p : List ℕ × Expect) → read_byte start b ≡ ok p → Lead b p
unfolding read_byte
read_byte-Lead b p h = elim (Bool-cases (ltb b 0x80)) [
  | inl a ↦ ascii (omega tests) (ground arith)
  | inr a ↦ elim (Bool-cases (ltb b 0xE0)) [
    | inl c ↦ lead2 (ground arith) (omega tests) (ground arith)
    | inr c ↦ elim (Bool-cases (ltb b 0xF0)) [
      | inl d ↦ lead3 (omega tests) (omega tests) (ground arith)
      | inr d ↦ lead4 (omega tests) (ground arith) (ground arith)
    ]
  ]
]

-- What has been read when the first character of a decoded text is complete.
record First (bs t : List ℕ) : Type 0 where
  char : List ℕ
  rest : List ℕ
  c : ℕ
  cs : List ℕ
  bytes : char ++ rest ≡ bs
  text : c ∷ cs ≡ t
  coded : Coded c char
  later : decode_from start rest ≡ ok cs
  shorter : suc (length rest) ≤ length bs

-- The numbers behind a character of three and of four bytes.
three_Coded :
    (b b1 b2 : ℕ)
    → 0xE0 ≤ b
    → b < 0xF0
    → low_3 b ≤ b1
    → b1 ≤ high_3 b
    → 0x80 ≤ b2
    → b2 ≤ 0xBF
    → Coded (add_bits (add_bits (b - 0xE0) b1) b2) (b ∷ b1 ∷ b2 ∷ [])
three_Coded b b1 b2 h k l1 u1 l2 u2 =
    let lo : 0x80 ≤ b1 = ground arith in
    let hi : b1 ≤ 0xBF = ground arith in
    three (ground arith) (omega arith) (ground arith) (ground arith)

four_Coded :
    (b b1 b2 b3 : ℕ)
    → 0xF0 ≤ b
    → b < 0xF5
    → low_4 b ≤ b1
    → b1 ≤ high_4 b
    → 0x80 ≤ b2
    → b2 ≤ 0xBF
    → 0x80 ≤ b3
    → b3 ≤ 0xBF
    → Coded (add_bits (add_bits (add_bits (b - 0xF0) b1) b2) b3) (b ∷ b1 ∷ b2 ∷ b3 ∷ [])
four_Coded b b1 b2 b3 h k l1 u1 l2 u2 l3 u3 =
    let lo : 0x80 ≤ b1 = ground arith in
    let hi : b1 ≤ 0xBF = ground arith in four (ground arith) (ground arith) (ground arith)

module _ (b : ℕ) (bs t : List ℕ) where
  First-2 :
      0xC2 ≤ b → b < 0xE0 → decode_from (more 0 (b - 0xC0) 0x80 0xBF) bs ≡ ok t → First (b ∷ bs) t
  unfolding continue_to
  First-2 low high h =
      let (b1, rest, cs, e, l, u, later, text) = continue_ok 0 (b - 0xC0) 0x80 0xBF bs t h in
      record {
        char = b ∷ b1 ∷ [];
        rest = rest;
        c = add_bits (b - 0xC0) b1;
        cs = cs;
        bytes = ap (◌∷◌ b) (sym e);
        text = text;
        coded = two (omega arith) (omega arith) (ground arith);
        later = later;
        shorter = rw e (omega arith);
      }

  First-3 :
      0xE0 ≤ b
      → b < 0xF0
      → decode_from (more 1 (b - 0xE0) (low_3 b) (high_3 b)) bs ≡ ok t
      → First (b ∷ bs) t
  unfolding continue_to
  First-3 low high h =
      let (b1, rest1, r1, e1, l1, u1, h1, t1) =
        continue_ok 1 (b - 0xE0) (low_3 b) (high_3 b) bs t h in
      let (b2, rest, cs, e2, l2, u2, later, t2) =
        continue_ok 0 (add_bits (b - 0xE0) b1) 0x80 0xBF rest1 r1 h1 in
      record {
        char = b ∷ b1 ∷ b2 ∷ [];
        rest = rest;
        c = add_bits (add_bits (b - 0xE0) b1) b2;
        cs = cs;
        bytes = ap (◌∷◌ b) (sym (e1 ∙ ap (◌∷◌ b1) e2));
        text = t2 ∙ t1;
        coded = three_Coded b b1 b2 low high l1 u1 l2 u2;
        later = later;
        shorter = omega (arith, ap length e1, ap length e2);
      }

  First-4 :
      0xF0 ≤ b
      → b < 0xF5
      → decode_from (more 2 (b - 0xF0) (low_4 b) (high_4 b)) bs ≡ ok t
      → First (b ∷ bs) t
  unfolding continue_to
  First-4 low high h =
      let (b1, rest1, r1, e1, l1, u1, h1, t1) =
        continue_ok 2 (b - 0xF0) (low_4 b) (high_4 b) bs t h in
      let (b2, rest2, r2, e2, l2, u2, h2, t2) =
        continue_ok 1 (add_bits (b - 0xF0) b1) 0x80 0xBF rest1 r1 h1 in
      let (b3, rest, cs, e3, l3, u3, later, t3) =
        continue_ok 0 (add_bits (add_bits (b - 0xF0) b1) b2) 0x80 0xBF rest2 r2 h2 in
      record {
        char = b ∷ b1 ∷ b2 ∷ b3 ∷ [];
        rest = rest;
        c = add_bits (add_bits (add_bits (b - 0xF0) b1) b2) b3;
        cs = cs;
        bytes = ap (◌∷◌ b) (sym (e1 ∙ ap (◌∷◌ b1) (e2 ∙ ap (◌∷◌ b2) e3)));
        text = t3 ∙ t2 ∙ t1;
        coded = four_Coded b b1 b2 b3 low high l1 u1 l2 u2 l3 u3;
        later = later;
        shorter = omega (arith, ap length e1, ap length e2, ap length e3);
      }

  First-Lead :
      (p : List ℕ × Expect) (r : List ℕ)
      → Lead b p
      → decode_from p.1 bs ≡ ok r
      → p.0 ++ r ≡ t
      → First (b ∷ bs) t
  First-Lead p r (ascii h e) later text = record {
    char = b ∷ [];
    rest = bs;
    c = b;
    cs = r;
    bytes = refl;
    text = ground arith;
    coded = one h refl;
    later = ground arith;
    shorter = omega arith;
  }
  First-Lead p r (lead2 h k e) later text = First-2 h k (ground arith)
  First-Lead p r (lead3 h k e) later text = First-3 h k (ground arith)
  First-Lead p r (lead4 h k e) later text = First-4 h k (ground arith)

  decode-First : decode_from start (b ∷ bs) ≡ ok t → First (b ∷ bs) t
  unfolding decode_from
  decode-First h =
      let (p, e, h') = bind_inversion (read_byte start b) _ h in
      let (r, e', h'') = bind_inversion (decode_from p.1 bs) _ h' in
      First-Lead p r (read_byte-Lead b p e) e' (cc h'')

-- Recursion on a bound of the number of bytes.
encode-decode_from :
    (n : ℕ) (bs t : List ℕ) → length bs ≤ n → decode_from start bs ≡ ok t → encode t ≡ ok bs
unfolding encode
encode-decode_from n [] t fits h = unfold decode_from in ground arith
encode-decode_from zero (b ∷ bs) t fits h = absurd (omega arith)
encode-decode_from (suc n) (b ∷ bs) t fits h =
    let f = decode-First b bs t h in
    let later : encode f.cs ≡ ok f.rest =
      encode-decode_from n f.rest f.cs (omega (arith, f.shorter)) f.later in
    rw (← f.text) (rw (Coded-encode_char f.c f.char f.coded, later) (ap ok f.bytes))

-- Bytes that decode are the encoding of the text that they decode to.
pub encode-decode : (bs t : List ℕ) → decode bs ≡ ok t → encode t ≡ ok bs
unfolding decode
encode-decode bs t h = encode-decode_from (length bs) bs t (omega arith) h
