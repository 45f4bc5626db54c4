-- ===== src/PubSub/Codec/Subject.antt =====
-- The length-prefixed subject of software_bus/pubsub.py, written and read back.
use software_bus.Prelude.{
  ℕ, ◌+◌, ◌-◌, ◌≤◌, ◌<◌, ◌≡◌, refl, sym, ap, ◌∙◌, arith, ltb, le→not-ltb, not-ltb→le, Bool-cases,
  inl, inr, [], ◌∷◌, ◌++◌, append_assoc, length, take, drop, slice, length-append, length-take,
  length-drop, take-append-drop, slice_at, drop-drop, All-drop, two_more, subst, ok, bind_inversion,
}
use software_bus.Text.{Text, Bytes, IsBytes}
use software_bus.Text.Utf8.{encode, decode}
use software_bus.Text.Utf8.RoundTrip.{decode-encode}
use software_bus.Text.Utf8.Canonical.{encode-decode}
use software_bus.Text.BigEndian.{
  to_bytes, from_bytes, from_bytes-to_bytes_2, to_bytes-from_bytes_2, from_bytes_2-lt,
}
use software_bus.PubSub.Codec.{encode_subject, decode_subject}

-- `header` is the length of the encoded subject, then the encoded subject.
pub record Header (subject : Text) (header : Bytes) : Type 0 where
  pub bytes : Bytes
  pub encoded : encode subject ≡ ok bytes
  pub short : length bytes ≤ 65535
  pub whole : to_bytes 2 (length bytes) ++ bytes ≡ header

pub encode_subject-Header : (s : Text) (h : Bytes) → encode_subject s ≡ ok h → Header s h
unfolding encode_subject
encode_subject-Header s h e =
    let (bs, b, k) = bind_inversion (encode s) _ e in
    record { bytes = bs; encoded = b; short = ground arith; whole = ground arith }

pub Header-encode_subject : (s : Text) (h : Bytes) → Header s h → encode_subject s ≡ ok h
unfolding encode_subject
Header-encode_subject s h p =
    rw (p.encoded, le→not-ltb (length p.bytes) 65535 p.short) (ap ok p.whole)

length-to_bytes_2 : (n : ℕ) → length (to_bytes 2 n) ≡ 2
unfolding to_bytes
length-to_bytes_2 n = refl

pub length-Header : (s : Text) (h : Bytes) (p : Header s h) → length h ≡ 2 + length p.bytes
length-Header s h p = omega (
  arith,
  ap length p.whole,
  length-append (to_bytes 2 (length p.bytes)) p.bytes,
  length-to_bytes_2 (length p.bytes),
)

-- When a decoded subject lies at `offset`, and `n` is its announced length.
record Located (bytes : Bytes) (offset n : ℕ) (s : Text) : Type 0 where
  prefixed : offset + 2 ≤ length bytes
  announced : from_bytes (slice offset (offset + 2) bytes) ≡ n
  complete : offset + 2 + n ≤ length bytes
  decoded : decode (slice (offset + 2) (offset + 2 + n) bytes) ≡ ok s

Located-decode_subject :
    (bytes : Bytes) (offset n : ℕ) (s : Text)
    → Located bytes offset n s
    → decode_subject bytes offset ≡ ok (s, offset + 2 + n)
unfolding decode_subject
Located-decode_subject bytes offset n s l = rw (
  le→not-ltb (offset + 2) (length bytes) l.prefixed,
  l.announced,
  le→not-ltb (offset + 2 + n) (length bytes) l.complete,
  l.decoded,
)

decode_subject-Located :
    (bytes : Bytes) (offset : ℕ) (s : Text) (end : ℕ)
    → decode_subject bytes offset ≡ ok (s, end)
    → (n : ℕ) × Located bytes offset n s × (end ≡ offset + 2 + n)
unfolding decode_subject
decode_subject-Located bytes offset s end h =
    let n : ℕ = from_bytes (slice offset (offset + 2) bytes) in
    elim (Bool-cases (ltb (length bytes) (offset + 2))) [
      | inl e ↦ absurd (cc (rw e at h))
      | inr e ↦ elim (Bool-cases (ltb (length bytes) (offset + 2 + n))) [
        | inl f ↦ absurd (cc (rw (e, f) at h))
        | inr f ↦
            let (t, d, k) =
              bind_inversion (decode (slice (offset + 2) (offset + 2 + n) bytes)) _
                (rw (e, f) at h) in
            (
              n,
              record {
                prefixed = not-ltb→le (offset + 2) (length bytes) e;
                announced = refl;
                complete = not-ltb→le (offset + 2 + n) (length bytes) f;
                decoded = ground arith;
              },
              ground arith,
            )
      ]
    ]

-- A header is read back wherever it stands, whatever follows it.
pub decode_subject-Header :
    (i : ℕ) (pre : Bytes) (s : Text) (h rest : Bytes)
    → Header s h
    → length pre ≡ i
    → decode_subject (pre ++ (h ++ rest)) i ≡ ok (s, i + length h)
decode_subject-Header i pre s h rest p at =
    Located-decode_subject (pre ++ (h ++ rest)) i n s located
    ∙ ap (λ k. ok (s, k)) (omega (arith, length-Header s h p))
  where
    n : ℕ
    n = length p.bytes

    size : Bytes
    size = to_bytes 2 n

    first : pre ++ (h ++ rest) ≡ pre ++ (size ++ (p.bytes ++ rest))
    first = ap (◌++◌ pre) (ap (λ x. x ++ rest) (sym p.whole) ∙ append_assoc size p.bytes rest)

    second : pre ++ (h ++ rest) ≡ (pre ++ size) ++ (p.bytes ++ rest)
    second = first ∙ sym (append_assoc pre size (p.bytes ++ rest))

    total : length (pre ++ (h ++ rest)) ≡ i + 2 + n + length rest
    total = omega (arith, length-append pre (h ++ rest), length-append h rest, length-Header s h p)

    size_length : length size ≡ 2
    size_length = length-to_bytes_2 n

    before : length (pre ++ size) ≡ i + 2
    before = omega (arith, length-append pre size, size_length)

    located : Located (pre ++ (h ++ rest)) i n s
    located = record {
      prefixed = omega (arith, total);
      announced =
          ap (λ x. from_bytes (slice i (i + 2) x)) first
          ∙ ap from_bytes
              (slice_at i (i + 2) pre size (p.bytes ++ rest) at (omega (arith, size_length)))
          ∙ from_bytes-to_bytes_2 n (omega (arith, p.short));
      complete = omega (arith, total);
      decoded =
          ap (λ x. decode (slice (i + 2) (i + 2 + n) x)) second
          ∙ ap decode (slice_at (i + 2) (i + 2 + n) (pre ++ size) p.bytes rest before refl)
          ∙ decode-encode s p.bytes p.encoded;
    }

-- What `decode_subject` has found: a header at the offset, and what follows it.
pub record Found (bytes : Bytes) (offset : ℕ) (s : Text) (end : ℕ) : Type 0 where
  pub header : Bytes
  pub rest : Bytes
  pub is_header : Header s header
  pub parts : bytes ≡ take offset bytes ++ (header ++ rest)
  pub ends : end ≡ offset + length header

Located-Found :
    (bytes : Bytes) (offset n : ℕ) (s : Text)
    → IsBytes bytes
    → Located bytes offset n s
    → Found bytes offset s (offset + 2 + n)
Located-Found bytes offset n s small l = record {
  header = a ∷ b ∷ subject_bytes;
  rest = drop n d';
  is_header = record {
    bytes = subject_bytes;
    encoded = encode-decode subject_bytes s (ap decode (sym sliced) ∙ l.decoded);
    short = omega (arith, below, size);
    whole = ap (λ x. x ++ subject_bytes) (ap (to_bytes 2) size ∙ ap (to_bytes 2) (sym n_is) ∙ back);
  };
  parts =
      sym (take-append-drop offset bytes)
      ∙ ap (◌++◌ (take offset bytes)) (cut ∙ ap (λ x. a ∷ b ∷ x) (sym (take-append-drop n d')));
  ends = omega (arith, size);
}
  where
    d_long : 2 + n ≤ length (drop offset bytes)
    d_long = omega (arith, length-drop offset bytes, l.complete)

    split : (a b : ℕ) × (rest : Bytes) × (drop offset bytes ≡ a ∷ b ∷ rest)
    split = two_more (drop offset bytes) (omega (arith, d_long))

    a : ℕ
    a = split.0

    b : ℕ
    b = split.1

    d' : Bytes
    d' = split.2

    cut : drop offset bytes ≡ a ∷ b ∷ d'
    cut = split.3

    small_both : IsBytes (a ∷ b ∷ d')
    small_both = subst IsBytes cut (All-drop _ offset bytes small)

    two : offset + 2 - offset ≡ 2
    two = omega arith

    n_is : from_bytes (a ∷ b ∷ []) ≡ n
    n_is =
        sym (ap from_bytes (ap (λ k. take k (drop offset bytes)) two ∙ ap (take 2) cut))
        ∙ l.announced

    below : n < 65536
    below = omega (arith, n_is, from_bytes_2-lt a b small_both.0 small_both.1.0)

    back : to_bytes 2 (from_bytes (a ∷ b ∷ [])) ≡ a ∷ b ∷ []
    back = to_bytes-from_bytes_2 a b small_both.0 small_both.1.0

    subject_bytes : Bytes
    subject_bytes = take n d'

    size : length subject_bytes ≡ n
    size = length-take n d' (omega (arith, d_long, ap length cut))

    n_left : offset + 2 + n - (offset + 2) ≡ n
    n_left = omega arith

    sliced : slice (offset + 2) (offset + 2 + n) bytes ≡ subject_bytes
    sliced =
        ap (λ k. take k (drop (offset + 2) bytes)) n_left
        ∙ ap (take n) (drop-drop offset 2 bytes ∙ ap (drop 2) cut)

-- A subject that is found is the encoding of what it is decoded to.
pub decode_subject-Found :
    (bytes : Bytes) (offset : ℕ) (s : Text) (end : ℕ)
    → IsBytes bytes
    → decode_subject bytes offset ≡ ok (s, end)
    → Found bytes offset s end
decode_subject-Found bytes offset s end small h =
    let (n, l, e) = decode_subject-Located bytes offset s end h in
    rw e (Located-Found bytes offset n s small l)
