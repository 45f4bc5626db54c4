-- ===== src/Text/Utf8/RoundTrip.antt =====
-- The bytes of a character by its size, and decoding after encoding.
use software_bus.Prelude.{
  ℕ, ◌+◌, ◌/◌, ◌%◌, ◌≤◌, ◌<◌, ◌≡◌, refl, arith, List, [], ◌∷◌, ◌++◌, Result, ok, err, ◌>>=◌, tests,
  Bool-cases, ltb, ◌==◌, if◌then◌else◌, ◌⊎◌, inl, inr, bind_inversion,
}
use software_bus.Text.Utf8.{encode_char, encode, start, more, read_byte, decode_from, decode}

one_byte : (c : ℕ) → c < 0x80 → read_byte start c ≡ ok (c ∷ [], start)
unfolding read_byte
one_byte c h = ground arith

last_byte : (c : ℕ) → read_byte (more 0 (c / 64) 0x80 0xBF) (0x80 + c % 64) ≡ ok (c ∷ [], start)
unfolding read_byte
last_byte c = ground arith

middle_byte :
    (c : ℕ)
    → read_byte (more 1 (c / 4096) 0x80 0xBF) (0x80 + c / 64 % 64)
      ≡ ok ([], more 0 (c / 64) 0x80 0xBF)
unfolding read_byte
middle_byte c = ground arith

lead_2 :
    (c : ℕ)
    → 0x80 ≤ c
    → c < 0x800
    → read_byte start (0xC0 + c / 64) ≡ ok ([], more 0 (c / 64) 0x80 0xBF)
unfolding read_byte
lead_2 c h k = ground arith

-- The least and the greatest second byte after the lead bytes of three and of four.
abbrev pub low_3 : ℕ → ℕ
low_3 b = if b == 0xE0 then 0xA0 else 0x80

abbrev pub high_3 : ℕ → ℕ
high_3 b = if b == 0xED then 0x9F else 0xBF

abbrev pub low_4 : ℕ → ℕ
low_4 b = if b == 0xF0 then 0x90 else 0x80

abbrev pub high_4 : ℕ → ℕ
high_4 b = if b == 0xF4 then 0x8F else 0xBF

lead_3 :
    (c : ℕ)
    → c < 0x10000
    → read_byte start (0xE0 + c / 4096)
      ≡ ok ([], more 1 (c / 4096) (low_3 (0xE0 + c / 4096)) (high_3 (0xE0 + c / 4096)))
unfolding read_byte
lead_3 c h = ground arith

second_3 :
    (c : ℕ)
    → 0x800 ≤ c
    → c < 0x10000
    → (c < 0xD800) ⊎ (0xE000 ≤ c)
    → read_byte
        (more 1 (c / 4096) (low_3 (0xE0 + c / 4096)) (high_3 (0xE0 + c / 4096)))
        (0x80 + c / 64 % 64)
      ≡ ok ([], more 0 (c / 64) 0x80 0xBF)
unfolding read_byte
second_3 c h k s = ground arith

lead_4 :
    (c : ℕ)
    → c < 0x110000
    → read_byte start (0xF0 + c / 262144)
      ≡ ok ([], more 2 (c / 262144) (low_4 (0xF0 + c / 262144)) (high_4 (0xF0 + c / 262144)))
unfolding read_byte
lead_4 c h = ground arith

second_4 :
    (c : ℕ)
    → 0x10000 ≤ c
    → c < 0x110000
    → read_byte
        (more 2 (c / 262144) (low_4 (0xF0 + c / 262144)) (high_4 (0xF0 + c / 262144)))
        (0x80 + c / 4096 % 64)
      ≡ ok ([], more 1 (c / 4096) 0x80 0xBF)
unfolding read_byte
second_4 c h k = ground arith

-- The four forms of an encoded character.
pub data Coded (c : ℕ) (bs : List ℕ) : Type 0 where
  one : c < 0x80 → bs ≡ c ∷ [] → Coded c bs
  two : 0x80 ≤ c → c < 0x800 → bs ≡ (0xC0 + c / 64) ∷ (0x80 + c % 64) ∷ [] → Coded c bs
  three :
      0x800 ≤ c
      → c < 0x10000
      → (c < 0xD800) ⊎ (0xE000 ≤ c)
      → bs ≡ (0xE0 + c / 4096) ∷ (0x80 + c / 64 % 64) ∷ (0x80 + c % 64) ∷ []
      → Coded c bs
  four :
      0x10000 ≤ c
      → c < 0x110000
      → bs
        ≡ (0xF0 + c / 262144) ∷ (0x80 + c / 4096 % 64) ∷ (0x80 + c / 64 % 64) ∷ (0x80 + c % 64) ∷ []
      → Coded c bs

encode_char-Coded : (c : ℕ) (bs : List ℕ) → encode_char c ≡ ok bs → Coded c bs
unfolding encode_char
encode_char-Coded c bs h = elim (Bool-cases (ltb c 0x80)) [
  | inl a ↦ one (omega tests) (ground arith)
  | inr a ↦ elim (Bool-cases (ltb c 0x800)) [
    | inl b ↦ two (omega tests) (omega tests) (ground arith)
    | inr b ↦ elim (Bool-cases (ltb c 0x10000)) [
      | inl d ↦ three (omega tests) (omega tests) (ground arith) (ground arith)
      | inr d ↦ four (omega tests) (ground arith) (ground arith)
    ]
  ]
]

pub Coded-encode_char : (c : ℕ) (bs : List ℕ) → Coded c bs → encode_char c ≡ ok bs
unfolding encode_char
Coded-encode_char c bs (one h e) = ground arith
Coded-encode_char c bs (two h k e) = ground arith
Coded-encode_char c bs (three h k s e) = ground arith
Coded-encode_char c bs (four h k e) = ground arith

rebind :
    (c : ℕ) (r : Result (List ℕ))
    → ((r >>= λ cs. ok (c ∷ cs)) >>= λ cs. ok ([] ++ cs)) ≡ (r >>= λ cs. ok (c ∷ cs))
rebind c (ok cs) = refl
rebind c (err e) = refl

-- The decoder reads the bytes of a character as that character.
decode-Coded :
    (c : ℕ) (bs rest : List ℕ)
    → Coded c bs
    → decode_from start (bs ++ rest) ≡ (do cs ← decode_from start rest; ok (c ∷ cs))
unfolding decode_from
decode-Coded c bs rest (one h e) = rw (e, one_byte c h) refl
decode-Coded c bs rest (two h k e) =
    rw (e, lead_2 c h k, last_byte c) (rebind c (decode_from start rest))
decode-Coded c bs rest (three h k s e) =
    rw (e, lead_3 c k, second_3 c h k s, last_byte c, rebind c (decode_from start rest))
      (rebind c (decode_from start rest))
decode-Coded c bs rest (four h k e) =
    rw
      (
        e,
        lead_4 c k,
        second_4 c h k,
        middle_byte c,
        last_byte c,
        rebind c (decode_from start rest),
        rebind c (decode_from start rest),
      )
      (rebind c (decode_from start rest))

-- Decoding the encoding of a text gives the text.
pub decode-encode : (s bs : List ℕ) → encode s ≡ ok bs → decode bs ≡ ok s
unfolding encode decode
decode-encode [] bs h = ground arith
decode-encode (c ∷ s) bs h =
    let (char, e, h') = bind_inversion (encode_char c) _ h in
    let (rest, e', h'') = bind_inversion (encode s) _ h' in
    let split : bs ≡ char ++ rest = ground arith in
    rw (split, decode-Coded c char rest (encode_char-Coded c char e), decode-encode s rest e')
