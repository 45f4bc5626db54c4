-- ===== src/PubSub/Codec/RoundTrip.antt =====
-- `decode_message` after `encode_message`, with what a later version may append.
use software_bus.Prelude.{
  ℕ, ◌+◌, ◌≤◌, ◌≡◌, refl, sym, ap, ◌∙◌, arith, le→not-ltb, Bool, true, false, if◌then◌else◌, [],
  ◌∷◌, ◌++◌, append_assoc, append-nil, length, length-append, drop_at, take_at, get_or_at, ok,
  bind_inversion,
}
use software_bus.Text.{Text, Bytes}
use software_bus.PubSub.Codec.{
  Message, subscription, publish, hello, reachability_query, reachability_reply, ReachabilityResult,
  not_found, found, unknown, result_value, result_of, check_id, encode_subject, encode_message,
  expect_length, decode_message,
}
use software_bus.PubSub.Codec.Subject.{Header, encode_subject-Header, decode_subject-Header}

-- What bytes after an encoded message add to it: they belong to a publish's payload only.
abbrev pub with_trailing : Message → Bytes → Message
with_trailing (publish subject payload) extra = publish subject (payload ++ extra)
with_trailing m extra = m

check_id-ok : (id : Bytes) {i : Bytes} → check_id id ≡ ok i → (i ≡ id) × (length id ≡ 16)
unfolding check_id
check_id-ok id h = ground arith

pub result_of-result_value : (r : ReachabilityResult) → result_of (result_value r) ≡ ok r
unfolding result_of
result_of-result_value not_found = refl
result_of-result_value found = refl
result_of-result_value unknown = refl

expect_length_ok : (bytes : Bytes) (n : ℕ) → n ≤ length bytes → expect_length bytes n ≡ ok tt
unfolding expect_length
expect_length_ok bytes n h = rw (le→not-ltb n (length bytes) h)

module _ (extra : Bytes) where
  hello_trailing :
      (id : Bytes) → length id ≡ 16 → decode_message (3 ∷ (id ++ extra)) ≡ ok (hello id)
  unfolding decode_message
  hello_trailing id h = rw (
    expect_length_ok (3 ∷ (id ++ extra)) 17 (omega (arith, length-append id extra)),
    take_at 16 id extra h,
  )

  query_trailing :
      (q t : Bytes)
      → length q ≡ 16
      → length t ≡ 16
      → decode_message (4 ∷ ((q ++ t) ++ extra)) ≡ ok (reachability_query q t)
  unfolding decode_message
  query_trailing q t h k = rw (append_assoc q t extra) (
      rw (
        expect_length_ok (4 ∷ (q ++ (t ++ extra))) 33
            (omega (arith, length-append q (t ++ extra), length-append t extra)),
        take_at 16 q (t ++ extra) h,
        drop_at 16 q (t ++ extra) h,
        take_at 16 t extra k,
      ))

  reply_trailing :
      (q : Bytes) (r : ReachabilityResult)
      → length q ≡ 16
      → decode_message (5 ∷ ((q ++ result_value r ∷ []) ++ extra)) ≡ ok (reachability_reply q r)
  unfolding decode_message
  reply_trailing q r h = rw (append_assoc q (result_value r ∷ []) extra) (
      rw (
        expect_length_ok (5 ∷ (q ++ (result_value r ∷ extra))) 18
            (omega (arith, length-append q (result_value r ∷ extra))),
        get_or_at 16 q extra (result_value r) 0 h,
        result_of-result_value r,
        take_at 16 q (result_value r ∷ extra) h,
      ))

  subject_trailing :
      (s : Text) (b : Bool) (header : Bytes)
      → Header s header
      → decode_message (1 ∷ (if b then 1 ∷ [] else 0 ∷ []) ++ (header ++ extra))
        ≡ ok (subscription s b)
  unfolding decode_message
  subject_trailing s true header p =
      rw (decode_subject-Header 2 (1 ∷ 1 ∷ []) s header extra p refl) (ground arith)
  subject_trailing s false header p =
      rw (decode_subject-Header 2 (1 ∷ 0 ∷ []) s header extra p refl) (ground arith)

  publish_trailing :
      (s : Text) (header payload : Bytes)
      → Header s header
      → decode_message (2 ∷ ((header ++ payload) ++ extra)) ≡ ok (publish s (payload ++ extra))
  unfolding decode_message
  publish_trailing s header payload p =
      rw
        (
          append_assoc header payload extra,
          decode_subject-Header 1 (2 ∷ []) s header (payload ++ extra) p refl,
        )
        (ap (λ d. ok (publish s d))
          (drop_at (1 + length header) (2 ∷ header) (payload ++ extra) (omega arith)))

-- Decoding what `encode_message` has written, followed by `extra` bytes.
encode_message_trailing :
    (m : Message) (bytes extra : Bytes)
    → encode_message m ≡ ok bytes
    → decode_message (bytes ++ extra) ≡ ok (with_trailing m extra)
unfolding encode_message
encode_message_trailing (subscription s b) bytes extra h =
    let (header, e, k) = bind_inversion (encode_subject s) _ h in
    let state : Bytes = if b then 1 ∷ [] else 0 ∷ [] in
    let whole : bytes ≡ 1 ∷ (state ++ header) = ground arith in
    let regroup : bytes ++ extra ≡ 1 ∷ (state ++ (header ++ extra)) =
      ap (λ x. x ++ extra) whole ∙ ap (◌∷◌ 1) (append_assoc state header extra) in
    rw regroup (subject_trailing extra s b header (encode_subject-Header s header e))
encode_message_trailing (publish s payload) bytes extra h =
    let (header, e, k) = bind_inversion (encode_subject s) _ h in
    let whole : bytes ≡ 2 ∷ (header ++ payload) = ground arith in
    rw whole (publish_trailing extra s header payload (encode_subject-Header s header e))
encode_message_trailing (hello id) bytes extra h =
    let (i, e, k) = bind_inversion (check_id id) _ h in
    let (same, long) = check_id-ok id e in
    let whole : bytes ≡ 3 ∷ id = ground arith in rw whole (hello_trailing extra id long)
encode_message_trailing (reachability_query q t) bytes extra h =
    let (i, e, k) = bind_inversion (check_id q) _ h in
    let (j, f, l) = bind_inversion (check_id t) _ k in
    let (same, long) = check_id-ok q e in
    let (same', long') = check_id-ok t f in
    let whole : bytes ≡ 4 ∷ (q ++ t) = ground arith in
    rw whole (query_trailing extra q t long long')
encode_message_trailing (reachability_reply q r) bytes extra h =
    let (i, e, k) = bind_inversion (check_id q) _ h in
    let (same, long) = check_id-ok q e in
    let whole : bytes ≡ 5 ∷ (q ++ result_value r ∷ []) = ground arith in
    rw whole (reply_trailing extra q r long)

-- Whatever `encode_message` writes is decoded to the message that was encoded.
pub decode_message-encode_message :
    (m : Message) (bytes : Bytes) → encode_message m ≡ ok bytes → decode_message bytes ≡ ok m
decode_message-encode_message m bytes h =
    ap decode_message (sym (append-nil bytes))
    ∙ encode_message_trailing m bytes [] h
    ∙ ap ok (same m)
  where
    same : (m : Message) → with_trailing m [] ≡ m
    same (publish s payload) = ap (publish s) (append-nil payload)
    same (subscription s b) = refl
    same (hello id) = refl
    same (reachability_query q t) = refl
    same (reachability_reply q r) = refl

abbrev pub is_publish : Message → Bool
is_publish (publish s payload) = true
is_publish m = false

-- Bytes appended to any encoded message but a publish are ignored.
pub decode_message_appended :
    (m : Message) (bytes extra : Bytes)
    → is_publish m ≡ false
    → encode_message m ≡ ok bytes
    → decode_message (bytes ++ extra) ≡ ok m
decode_message_appended m bytes extra np h =
    encode_message_trailing m bytes extra h ∙ ap ok (same m np)
  where
    same : (m : Message) → is_publish m ≡ false → with_trailing m extra ≡ m
    same (publish s payload) np = cc
    same (subscription s b) np = refl
    same (hello id) np = refl
    same (reachability_query q t) np = refl
    same (reachability_reply q r) np = refl
