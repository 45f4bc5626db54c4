-- ===== src/Text/BigEndian.antt =====
-- `int.to_bytes(n, "big")` and `int.from_bytes(data, "big")`.
use software_bus.Prelude.{ℕ, zero, suc, ◌+◌, ◌*◌, ◌/◌, ◌%◌, ◌^◌, ◌<◌, ◌≡◌, List, [], ◌∷◌, arith}

-- The value must be below 256 ^ size, as it is wherever the source calls `to_bytes`.
unfoldable pub to_bytes : ℕ → ℕ → List ℕ
to_bytes zero n = []
to_bytes (suc k) n = n / 256 ^ k % 256 ∷ to_bytes k n

from_bytes_acc : ℕ → List ℕ → ℕ
from_bytes_acc acc [] = acc
from_bytes_acc acc (b ∷ bs) = from_bytes_acc (acc * 256 + b) bs

unfoldable pub from_bytes : List ℕ → ℕ
unfolding from_bytes_acc
from_bytes = from_bytes_acc 0

pub from_bytes-to_bytes_2 : (n : ℕ) → n < 65536 → from_bytes (to_bytes 2 n) ≡ n
unfolding from_bytes to_bytes
from_bytes-to_bytes_2 n h = omega arith

pub from_bytes-to_bytes_4 : (n : ℕ) → n < 4294967296 → from_bytes (to_bytes 4 n) ≡ n
unfolding from_bytes to_bytes
from_bytes-to_bytes_4 n h = omega arith

pub to_bytes-from_bytes_2 :
    (a b : ℕ) → a < 256 → b < 256 → to_bytes 2 (from_bytes (a ∷ b ∷ [])) ≡ a ∷ b ∷ []
unfolding from_bytes to_bytes
to_bytes-from_bytes_2 a b ha hb = ground arith

pub from_bytes_2-lt : (a b : ℕ) → a < 256 → b < 256 → from_bytes (a ∷ b ∷ []) < 65536
unfolding from_bytes
from_bytes_2-lt a b ha hb = omega arith
