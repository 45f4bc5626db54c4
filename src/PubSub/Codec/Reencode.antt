-- ===== src/PubSub/Codec/Reencode.antt =====
-- `encode_message` after `decode_message`: what a node sends on when it forwards a message.
use software_bus.Prelude.{
  ℕ, ◌≤◌, ◌≡◌, refl, sym, ap, ◌∙◌, subst, arith, true, false, ◌==◌, ==_iff, ◌||◌, Bool-cases, inl,
  inr, ◌⊎◌, if◌then◌else◌, [], ◌∷◌, ◌++◌, append_assoc, append-nil, length, take, drop, get_or,
  drop_at, get_or_split, take-append-drop, length-take, length-drop, ok, bind_inversion,
  ok-injective,
}
use software_bus.Text.{Text, Bytes, IsBytes}
use software_bus.PubSub.Codec.{
  Message, subscription, publish, hello, reachability_query, reachability_reply, ReachabilityResult,
  result_value, result_of, check_id, encode_message, decode_subject, expect_length,
  decode_subscription, decode_publish, decode_hello, decode_query, decode_reply, decode_message,
}
use software_bus.PubSub.Codec.Subject.{Header-encode_subject, decode_subject-Found, Found}
use software_bus.PubSub.Codec.RoundTrip.{is_publish}

-- The message encodes to the bytes that it was decoded from, less what was appended to them.
pub record Reencoded (bytes : Bytes) (m : Message) : Type 0 where
  pub wire : Bytes
  pub extra : Bytes
  pub encoded : encode_message m ≡ ok wire
  pub received : bytes ≡ wire ++ extra
  pub publish_whole : (is_publish m ≡ false) ⊎ (extra ≡ [])

check_id_ok : (id : Bytes) → length id ≡ 16 → check_id id ≡ ok id
unfolding check_id
check_id_ok id h = ground arith

result_of_ok : (v : ℕ) (r : ReachabilityResult) → result_of v ≡ ok r → v ≡ result_value r
unfolding result_of
result_of_ok v r h = ground arith

module _ (bytes : Bytes) where
  hello_again : 17 ≤ length (3 ∷ bytes) → Reencoded (3 ∷ bytes) (hello (take 16 bytes))
  unfolding encode_message
  hello_again h = record {
    wire = 3 ∷ take 16 bytes;
    extra = drop 16 bytes;
    encoded = rw (check_id_ok (take 16 bytes) (length-take 16 bytes (omega arith)));
    received = ap (◌∷◌ 3) (sym (take-append-drop 16 bytes));
    publish_whole = inl refl;
  }

  query_again :
      33 ≤ length (4 ∷ bytes)
      → Reencoded (4 ∷ bytes) (reachability_query (take 16 bytes) (take 16 (drop 16 bytes)))
  unfolding encode_message
  query_again h = record {
    wire = 4 ∷ take 16 bytes ++ take 16 (drop 16 bytes);
    extra = drop 16 (drop 16 bytes);
    encoded = rw (
      check_id_ok (take 16 bytes) (length-take 16 bytes (omega arith)),
      check_id_ok (take 16 (drop 16 bytes))
          (length-take 16 (drop 16 bytes) (omega (arith, length-drop 16 bytes))),
    );
    received = ap (◌∷◌ 4) (
        sym (
          append_assoc (take 16 bytes) (take 16 (drop 16 bytes)) (drop 16 (drop 16 bytes))
          ∙ ap (◌++◌ (take 16 bytes)) (take-append-drop 16 (drop 16 bytes))
          ∙ take-append-drop 16 bytes));
    publish_whole = inl refl;
  }

  reply_again :
      (r : ReachabilityResult)
      → 18 ≤ length (5 ∷ bytes)
      → result_of (get_or bytes 16 0) ≡ ok r
      → Reencoded (5 ∷ bytes) (reachability_reply (take 16 bytes) r)
  unfolding encode_message
  reply_again r h e = record {
    wire = 5 ∷ take 16 bytes ++ result_value r ∷ [];
    extra = drop 17 bytes;
    encoded = rw (check_id_ok (take 16 bytes) (length-take 16 bytes (omega arith)));
    received = ap (◌∷◌ 5) (
        sym (
          append_assoc (take 16 bytes) (result_value r ∷ []) (drop 17 bytes)
          ∙ ap (λ v. take 16 bytes ++ v ∷ drop 17 bytes)
              (sym (result_of_ok (get_or bytes 16 0) r e))
          ∙ get_or_split 16 bytes 0 (omega arith)));
    publish_whole = inl refl;
  }

  subscription_again :
      (s : Text) (end state : ℕ)
      → Found (1 ∷ state ∷ bytes) 2 s end
      → (state == 0 || state == 1) ≡ true
      → Reencoded (1 ∷ state ∷ bytes) (subscription s (state == 1))
  unfolding encode_message
  subscription_again s end state f h = record {
    wire = 1 ∷ (if state == 1 then 1 ∷ [] else 0 ∷ []) ++ f.header;
    extra = f.rest;
    encoded = rw (Header-encode_subject s f.header f.is_header);
    received = f.parts ∙ ground arith;
    publish_whole = inl refl;
  }

  publish_again :
      (s : Text) (end : ℕ)
      → Found (2 ∷ bytes) 1 s end
      → Reencoded (2 ∷ bytes) (publish s (drop end (2 ∷ bytes)))
  unfolding encode_message
  publish_again s end f = record {
    wire = 2 ∷ f.header ++ drop end (2 ∷ bytes);
    extra = [];
    encoded = rw (Header-encode_subject s f.header f.is_header);
    received =
        f.parts
        ∙ ap (λ x. 2 ∷ f.header ++ x) (sym left)
        ∙ sym (append-nil (2 ∷ f.header ++ drop end (2 ∷ bytes)));
    publish_whole = inr refl;
  }
    where
      left : drop end (2 ∷ bytes) ≡ f.rest
      left = ap (drop end) f.parts ∙ drop_at end (2 ∷ f.header) f.rest (omega (arith, f.ends))

expect_length_le : (bytes : Bytes) (n : ℕ) → expect_length bytes n ≡ ok tt → n ≤ length bytes
unfolding expect_length
expect_length_le bytes n h = ground arith

module _ (rest : Bytes) (m : Message) where
  decode_subscription-Reencoded :
      IsBytes (1 ∷ rest) → decode_subscription (1 ∷ rest) ≡ ok m → Reencoded (1 ∷ rest) m
  unfolding decode_subscription
  decode_subscription-Reencoded small h = go rest small h
    where
      go :
          (rest : Bytes)
          → IsBytes (1 ∷ rest)
          → decode_subscription (1 ∷ rest) ≡ ok m
          → Reencoded (1 ∷ rest) m
      go [] small h = cc
      go (state ∷ bytes) small h = elim (Bool-cases (state == 0 || state == 1)) [
        | inl known ↦
            let ((s, end), f, k) =
              bind_inversion (decode_subject (1 ∷ state ∷ bytes) 2)
                (λ x. ok (subscription x.0 (state == 1))) (ground arith) in
            subst (Reencoded (1 ∷ state ∷ bytes)) (ok-injective k) (
              subscription_again bytes s end state
                (decode_subject-Found (1 ∷ state ∷ bytes) 2 s end small f) known)
        | inr bad ↦ absurd (ground arith)
      ]

  decode_publish-Reencoded :
      IsBytes (2 ∷ rest) → decode_publish (2 ∷ rest) ≡ ok m → Reencoded (2 ∷ rest) m
  unfolding decode_publish
  decode_publish-Reencoded small h =
      let ((s, end), f, k) = bind_inversion (decode_subject (2 ∷ rest) 1) _ h in
      subst (Reencoded (2 ∷ rest)) (ok-injective k)
        (publish_again rest s end (decode_subject-Found (2 ∷ rest) 1 s end small f))

  decode_hello-Reencoded : decode_hello (3 ∷ rest) ≡ ok m → Reencoded (3 ∷ rest) m
  unfolding decode_hello
  decode_hello-Reencoded h =
      let (u, f, k) = bind_inversion (expect_length (3 ∷ rest) 17) _ h in
      subst (Reencoded (3 ∷ rest)) (ok-injective k)
        (hello_again rest (expect_length_le (3 ∷ rest) 17 f))

  decode_query-Reencoded : decode_query (4 ∷ rest) ≡ ok m → Reencoded (4 ∷ rest) m
  unfolding decode_query
  decode_query-Reencoded h =
      let (u, f, k) = bind_inversion (expect_length (4 ∷ rest) 33) _ h in
      subst (Reencoded (4 ∷ rest)) (ok-injective k)
        (query_again rest (expect_length_le (4 ∷ rest) 33 f))

  decode_reply-Reencoded : decode_reply (5 ∷ rest) ≡ ok m → Reencoded (5 ∷ rest) m
  unfolding decode_reply
  decode_reply-Reencoded h =
      let (u, f, k) = bind_inversion (expect_length (5 ∷ rest) 18) _ h in
      let (r, g, l) = bind_inversion (result_of (get_or rest 16 0)) _ k in
      subst (Reencoded (5 ∷ rest)) (ok-injective l)
        (reply_again rest r (expect_length_le (5 ∷ rest) 18 f) g)

-- A received message that decodes encodes again to the bytes received, less what was appended to
-- them; for a publish nothing is left out, so that it is forwarded byte for byte.
pub decode_message-Reencoded :
    (bytes : Bytes) (m : Message) → IsBytes bytes → decode_message bytes ≡ ok m → Reencoded bytes m
unfolding decode_message
decode_message-Reencoded [] m small h = cc
decode_message-Reencoded (t ∷ rest) m small h = elim (Bool-cases (t == 1)) [
  | inl e ↦ at 1 e (λ small h. decode_subscription-Reencoded rest m small h)
  | inr a ↦ elim (Bool-cases (t == 2)) [
    | inl e ↦ at 2 e (λ small h. decode_publish-Reencoded rest m small h)
    | inr b ↦ elim (Bool-cases (t == 3)) [
      | inl e ↦ at 3 e (λ small h. decode_hello-Reencoded rest m h)
      | inr c ↦ elim (Bool-cases (t == 4)) [
        | inl e ↦ at 4 e (λ small h. decode_query-Reencoded rest m h)
        | inr d ↦ elim (Bool-cases (t == 5)) [
          | inl e ↦ at 5 e (λ small h. decode_reply-Reencoded rest m h)
          | inr f ↦ absurd (cc (rw (a, b, c, d, f) at h))
        ]
      ]
    ]
  ]
]
  where
    at :
        (k : ℕ)
        → (t == k) ≡ true
        → (IsBytes (k ∷ rest) → decode_message (k ∷ rest) ≡ ok m → Reencoded (k ∷ rest) m)
        → Reencoded (t ∷ rest) m
    at k e f =
        let same : t ≡ k = (==_iff t k).0 e in
        subst (λ x. Reencoded (x ∷ rest) m) (sym same)
          (f (subst (λ x. IsBytes (x ∷ rest)) same small)
            (subst (λ x. decode_message (x ∷ rest) ≡ ok m) same h))
