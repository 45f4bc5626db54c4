-- ===== src/BaseLayer/Framing/Stream.antt =====
-- What framing promises over a byte stream: the payloads come out as they were sent.
use software_bus.Prelude.{
  ℕ, zero, suc, ◌+◌, ◌≤◌, ◌<◌, ◌≡◌, refl, ap, subst, ◌^◌, arith, tests, ltb, Bool-cases, inl, inr,
  none, some, List, [], ◌∷◌, ◌++◌, append_assoc, length, drop, length-append, length-drop,
  take-length-append, drop-length-append, ok, err, Error, le→not-ltb, lt→ltb, bind_inversion,
  Result-cases, ◌≢◌, not-ltb→le,
}
use software_bus.Text.{Bytes}
use software_bus.Text.BigEndian.{to_bytes, from_bytes, from_bytes-to_bytes_4}
use software_bus.BaseLayer.Framing.{
  max_payload_length, check_payload_length, send_frame, read_exactly, read_payload, receive,
  receive_loop, receive_all,
}

read_exactly-append : (xs ys : Bytes) → read_exactly (length xs) (xs ++ ys) ≡ ok (xs, ys)
unfolding read_exactly
read_exactly-append xs ys = rw (
  le→not-ltb (length xs) (length (xs ++ ys)) (omega (arith, length-append xs ys)),
  take-length-append xs ys,
  drop-length-append xs ys,
)

length-to_bytes_4 : (n : ℕ) → length (to_bytes 4 n) ≡ 4
unfolding to_bytes
length-to_bytes_4 n = refl

read_header : (n : ℕ) (s : Bytes) → read_exactly 4 (to_bytes 4 n ++ s) ≡ ok (to_bytes 4 n, s)
read_header n s =
    subst (λ k. read_exactly k (to_bytes 4 n ++ s) ≡ ok (to_bytes 4 n, s)) (length-to_bytes_4 n)
      (read_exactly-append (to_bytes 4 n) s)

receive-header :
    (n : ℕ) (s : Bytes) → n < 4294967296 → receive (to_bytes 4 n ++ s) ≡ read_payload n s
unfolding receive
receive-header n s h = rw (read_header, from_bytes-to_bytes_4 n h)

module _ (d rest : Bytes) where
  receive-send_frame : length d ≤ max_payload_length → receive (send_frame d ++ rest) ≡ ok (d, rest)
  unfolding send_frame read_payload
  receive-send_frame h =
      rw
        (
          append_assoc (to_bytes 4 (length d)) d rest,
          receive-header (length d) (d ++ rest) (omega arith),
        )
        (rw (le→not-ltb (length d) max_payload_length h) (read_exactly-append d rest))

  -- A payload over the limit ends the connection as soon as its length is read, whatever follows.
  pub receive_too_long :
      max_payload_length < length d
      → length d < 2 ^ 32
      → receive (send_frame d ++ rest) ≡ err Error.received_too_long
  unfolding send_frame read_payload
  receive_too_long h k =
      rw (append_assoc (to_bytes 4 (length d)) d rest, receive-header (length d) (d ++ rest) k)
        (rw (lt→ltb max_payload_length (length d) h))

-- Every payload is short enough to be sent.
abbrev pub AllFit : List Bytes → Type 0
AllFit [] = Unit {0}
AllFit (d ∷ ds) = (check_payload_length (length d) ≡ ok tt) × AllFit ds

pub frames : List Bytes → Bytes
frames [] = []
frames (d ∷ ds) = send_frame d ++ frames ds

pub check_payload_length_ok : (n : ℕ) → check_payload_length n ≡ ok tt → n ≤ max_payload_length
unfolding check_payload_length
check_payload_length_ok n h = ground arith

length-send_frame : (d : Bytes) → length (send_frame d) ≡ 4 + length d
unfolding send_frame
length-send_frame d =
    omega (arith, length-append (to_bytes 4 (length d)) d, length-to_bytes_4 (length d))

-- `e` is how a receive at the end of the frames fails.
receive_loop-frames :
    (ds : List Bytes) (tail : Bytes) (e : Error) (fuel : ℕ)
    → AllFit ds
    → receive tail ≡ err e
    → length (frames ds ++ tail) < fuel
    → receive_loop fuel (frames ds ++ tail) ≡ some (ds, e)
unfolding receive_loop frames
receive_loop-frames [] tail e zero fit h k = elim k [ ]
receive_loop-frames [] tail e (suc fuel) fit h k = rw (h, receive_loop)
receive_loop-frames (d ∷ ds) tail e zero fit h k = elim k [ ]
receive_loop-frames (d ∷ ds) tail e (suc fuel) fit h k =
    let assoc = append_assoc (send_frame d) (frames ds) tail in
    let shorter : length (frames ds ++ tail) < fuel = omega (
      arith,
      ap length assoc,
      length-append (send_frame d) (frames ds ++ tail),
      length-send_frame d,
    ) in
    let first =
      receive-send_frame d (frames ds ++ tail) (check_payload_length_ok (length d) fit.0) in
    rw assoc (
      rw (first, receive_loop)
        (rw (receive_loop-frames ds tail e fuel fit.1 h shorter, receive_loop)))

-- If the payloads all pass `check_payload_length`, the receiving loop hands over exactly the
-- payloads sent, in order, then fails the way that it fails on what follows them.
pub receive_all-frames :
    (ds : List Bytes) (tail : Bytes) (e : Error)
    → AllFit ds
    → receive tail ≡ err e
    → receive_all (frames ds ++ tail) ≡ some (ds, e)
unfolding receive_all
receive_all-frames ds tail e fit h =
    receive_loop-frames ds tail e (suc (length (frames ds ++ tail))) fit h (omega arith)

read_exactly-shorter :
    (n : ℕ) (s : Bytes) {p : Bytes × Bytes} → read_exactly n s ≡ ok p → n + length p.1 ≡ length s
unfolding read_exactly
read_exactly-shorter n s {p} h = elim (Bool-cases (ltb (length s) n)) [
  | inl short ↦ ground arith
  | inr long ↦
      let rest : drop n s ≡ p.1 = ground arith in
      omega (tests, length-drop n s, ap length rest, not-ltb→le n (length s) long)
]

read_payload-shorter :
    (n : ℕ) (s : Bytes) {p : Bytes × Bytes} → read_payload n s ≡ ok p → n + length p.1 ≡ length s
unfolding read_payload
read_payload-shorter n s {p} h = ground (arith, read_exactly-shorter n s {p = p})

receive-shorter : (s : Bytes) {p : Bytes × Bytes} → receive s ≡ ok p → length p.1 < length s
unfolding receive
receive-shorter s {p} h =
    let (q, e, h') = bind_inversion (read_exactly 4 s) _ h in
    omega (arith, read_exactly-shorter 4 s e, read_payload-shorter (from_bytes q.0) q.1 h')

receive_loop_total : (fuel : ℕ) (s : Bytes) → length s < fuel → receive_loop fuel s ≢ none
unfolding receive_loop
receive_loop_total zero s h = elim h [ ]
receive_loop_total (suc fuel) s h = elim (Result-cases (receive s)) [
  | inl ((d, rest), q) ↦
      rw (q, receive_loop)
        (ground (arith, receive_loop_total fuel rest (omega (arith, receive-shorter s q))))
  | inr (e, q) ↦ rw (q, receive_loop) (λ x. cc x)
]

-- The receiving loop ends on every stream: the fuel of `receive_all` is enough.
pub receive_all_total : (stream : Bytes) → receive_all stream ≢ none
unfolding receive_all
receive_all_total stream = receive_loop_total (suc (length stream)) stream (omega arith)
