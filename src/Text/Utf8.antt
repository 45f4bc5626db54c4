-- ===== src/Text/Utf8.antt =====
-- `str.encode("utf-8")` and `bytes.decode("utf-8")`, in the strict mode that the source uses. Both
-- raise a subclass of ValueError.
pub mod RoundTrip
pub mod Canonical
pub mod Raises
use software_bus.Prelude.{
  ℕ, zero, suc, ◌+◌, ◌-◌, ◌*◌, ◌/◌, ◌%◌, ltb, leb, ◌==◌, ◌&&◌, if◌then◌else◌, List, [], ◌∷◌, ◌++◌,
  Result, ok, err, Error, ◌>>=◌,
}

-- A surrogate has no encoding.
pub encode_char : ℕ → Result (List ℕ)
encode_char c =
    if ltb c 0x80
    then ok (c ∷ [])
    else if ltb c 0x800
    then ok ((0xC0 + c / 64) ∷ (0x80 + c % 64) ∷ [])
    else if leb 0xD800 c && ltb c 0xE000
    then err Error.value_error
    else if ltb c 0x10000
    then ok ((0xE0 + c / 4096) ∷ (0x80 + c / 64 % 64) ∷ (0x80 + c % 64) ∷ [])
    else if ltb c 0x110000
    then ok
        ((0xF0 + c / 262144) ∷ (0x80 + c / 4096 % 64) ∷ (0x80 + c / 64 % 64) ∷ (0x80 + c % 64) ∷ [])
    else err Error.value_error

unfoldable pub encode : List ℕ → Result (List ℕ)
unfolding encode_char
encode [] = ok []
encode (c ∷ cs) = do bs ← encode_char c; rest ← encode cs; ok (bs ++ rest)

-- Between characters, or inside one: how many more bytes follow the next one, the bits read so
-- far, and the range of the next byte.
pub data Expect : Type 0 where
  start : Expect
  more : ℕ → ℕ → ℕ → ℕ → Expect

pub lead : ℕ → Result (List ℕ × Expect)
lead b =
    if ltb b 0x80
    then ok (b ∷ [], start)
    else if ltb b 0xC2
    then err Error.value_error
    else if ltb b 0xE0
    then ok ([], more 0 (b - 0xC0) 0x80 0xBF)
    else if ltb b 0xF0
    then ok (
      [],
      more 1 (b - 0xE0) (if b == 0xE0 then 0xA0 else 0x80) (if b == 0xED then 0x9F else 0xBF),
    )
    else if ltb b 0xF5
    then ok (
      [],
      more 2 (b - 0xF0) (if b == 0xF0 then 0x90 else 0x80) (if b == 0xF4 then 0x8F else 0xBF),
    )
    else err Error.value_error

abbrev pub add_bits : ℕ → ℕ → ℕ
add_bits value b = value * 64 + (b - 0x80)

pub continue_to : ℕ → ℕ → List ℕ × Expect
continue_to zero value = (value ∷ [], start)
continue_to (suc left) value = ([], more left value 0x80 0xBF)

pub read_byte : Expect → ℕ → Result (List ℕ × Expect)
unfolding lead continue_to
read_byte start b = lead b
read_byte (more left value lo hi) b =
    if leb lo b && leb b hi then ok (continue_to left (add_bits value b)) else err Error.value_error

unfoldable pub decode_from : Expect → List ℕ → Result (List ℕ)
unfolding read_byte
decode_from start [] = ok []
decode_from (more left value lo hi) [] = err Error.value_error
decode_from e (b ∷ bs) = do
  (chars, e') ← read_byte e b
  rest ← decode_from e' bs
  ok (chars ++ rest)

unfoldable pub decode : List ℕ → Result (List ℕ)
unfolding decode_from
decode = decode_from start
