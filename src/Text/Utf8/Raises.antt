-- ===== src/Text/Utf8/Raises.antt =====
-- What decoding UTF-8 raises.
use software_bus.Prelude.{ℕ, arith, List, [], ◌∷◌, ◌++◌, ok, Plain, Plain-ok, Plain-bind}
use software_bus.Text.Utf8.{Expect, start, more, read_byte, decode_from, decode}

read_byte-Plain : (e : Expect) (b : ℕ) → Plain (read_byte e b)
unfolding read_byte
read_byte-Plain start b = record { plain = λ x h. ground arith }
read_byte-Plain (more left value lo hi) b = record { plain = λ x h. ground arith }

decode_from-Plain : (e : Expect) (bs : List ℕ) → Plain (decode_from e bs)
unfolding decode_from
decode_from-Plain start [] = Plain-ok []
decode_from-Plain (more left value lo hi) [] = record { plain = λ x h. cc h }
decode_from-Plain e (b ∷ bs) = Plain-bind (read_byte e b) _ (read_byte-Plain e b) λ p.
    Plain-bind (decode_from p.1 bs) (λ rest. ok (p.0 ++ rest)) (decode_from-Plain p.1 bs)
      λ t. Plain-ok (p.0 ++ t)

pub decode-Plain : (bs : List ℕ) → Plain (decode bs)
unfolding decode
decode-Plain bs = decode_from-Plain start bs
