-- ===== src/PubSub/Codec/Errors.antt =====
-- What `decode_message` raises, and the checks that a client makes before it publishes.
use software_bus.Prelude.{
  ℕ, ◌≡◌, ◌↔◌, ◌⊎◌, ◌∙◌, not, [], refl, ap, arith, leb, Bool, true, false, inl, inr, if◌then◌else◌,
  ◌∷◌, ◌++◌, length, length-append, Result, ok, err, Error, bind_inversion, Result-cases, Plain,
  Plain-ok, Plain-bind, Plain-guard, ◌&&◌,
}
use software_bus.Text.{Text, Bytes}
use software_bus.Text.Utf8.Raises.{decode-Plain}
use software_bus.BaseLayer.Framing.{check_payload_length}
use software_bus.SubjectMatcher.{has_wildcard}
use software_bus.PubSub.Codec.{
  Message, publish, result_of, encode_subject, encode_message, check_subject, check_publish_subject,
  check_publish_length, decode_subject, expect_length, decode_subscription, decode_publish,
  decode_hello, decode_query, decode_reply, decode_message, byte_at,
}
use software_bus.PubSub.Codec.Subject.{encode_subject-Header, length-Header}

decode_subject-Plain : (bytes : Bytes) (offset : ℕ) → Plain (decode_subject bytes offset)
unfolding decode_subject
decode_subject-Plain bytes offset =
    Plain-guard _ _
      (Plain-guard _ _ (Plain-bind _ (λ t. ok (t, _)) (decode-Plain _) λ t. Plain-ok (t, _)))

expect_length-Plain : (bytes : Bytes) (n : ℕ) → Plain (expect_length bytes n)
unfolding expect_length
expect_length-Plain bytes n = Plain-guard _ (ok tt) (Plain-ok tt)

result_of-Plain : (v : ℕ) → Plain (result_of v)
unfolding result_of
result_of-Plain v = record { plain = λ e h. ground arith }

decode_subscription-Plain : (bytes : Bytes) → Plain (decode_subscription bytes)
unfolding decode_subscription
decode_subscription-Plain bytes =
    Plain-guard _ _
      (Plain-bind (decode_subject bytes 2) _ (decode_subject-Plain bytes 2) λ p. Plain-ok _)

decode_publish-Plain : (bytes : Bytes) → Plain (decode_publish bytes)
unfolding decode_publish
decode_publish-Plain bytes =
    Plain-bind (decode_subject bytes 1) _ (decode_subject-Plain bytes 1) λ p. Plain-ok _

decode_hello-Plain : (bytes : Bytes) → Plain (decode_hello bytes)
unfolding decode_hello
decode_hello-Plain bytes =
    Plain-bind (expect_length bytes 17) _ (expect_length-Plain bytes 17) λ u. Plain-ok _

decode_query-Plain : (bytes : Bytes) → Plain (decode_query bytes)
unfolding decode_query
decode_query-Plain bytes =
    Plain-bind (expect_length bytes 33) _ (expect_length-Plain bytes 33) λ u. Plain-ok _

decode_reply-Plain : (bytes : Bytes) → Plain (decode_reply bytes)
unfolding decode_reply
decode_reply-Plain bytes = Plain-bind (expect_length bytes 18) _ (expect_length-Plain bytes 18) λ u.
    Plain-bind (result_of (byte_at bytes 17)) _ (result_of-Plain (byte_at bytes 17)) λ r. Plain-ok _

raised_by_tag :
    (t : ℕ) (rest : Bytes) (e : Error)
    → decode_message (t ∷ rest) ≡ err e
    → e ≡ (if leb 1 t && leb t 5 then Error.value_error else Error.unknown_message_type)
unfolding decode_message
raised_by_tag t rest e h = ground (
  arith,
  (decode_subscription-Plain (t ∷ rest)).plain e,
  (decode_publish-Plain (t ∷ rest)).plain e,
  (decode_hello-Plain (t ∷ rest)).plain e,
  (decode_query-Plain (t ∷ rest)).plain e,
  (decode_reply-Plain (t ∷ rest)).plain e,
)

-- The message begins with a type tag, and that is none of 1 to 5.
abbrev pub unknown_tag : Bytes → Bool
unknown_tag [] = false
unknown_tag (t ∷ rest) = not (leb 1 t && leb t 5)

abbrev pub error_for : Bytes → Error
error_for bytes = if unknown_tag bytes then Error.unknown_message_type else Error.value_error

unknown_tag_raises :
    (t : ℕ) (rest : Bytes)
    → unknown_tag (t ∷ rest) ≡ true
    → decode_message (t ∷ rest) ≡ err Error.unknown_message_type
unfolding decode_message
unknown_tag_raises t rest h = ground (arith, h)

-- Whatever the bytes, decoding raises UnknownMessageType exactly when they begin with a type tag that is
-- none of 1 to 5. With any other bytes, the empty message included, it either gives a message or
-- raises a plain ValueError.
pub decode_message_raises :
    (bytes : Bytes)
    → ((decode_message bytes ≡ err Error.unknown_message_type) ↔ (unknown_tag bytes ≡ true))
      × (((m : Message) × (decode_message bytes ≡ ok m))
          ⊎ (decode_message bytes ≡ err (error_for bytes)))
unfolding decode_message
decode_message_raises [] =
    ((λ h. absurd (ground (arith, h)), λ h. absurd (ground (arith, h))), inr refl)
decode_message_raises (t ∷ rest) = (
  (
    λ h. ground (arith, raised_by_tag t rest Error.unknown_message_type h),
    unknown_tag_raises t rest,
  ),
  elim (Result-cases (decode_message (t ∷ rest))) [
    | inl (m, e) ↦ inl (m, e)
    | inr (x, e) ↦ inr (e ∙ ap err (raised_by_tag t rest x e ∙ ground arith))
  ],
)

-- A length that `check_publish_length` accepts is the length of the encoded publish.
pub check_publish_length-encode_message :
    (s : Text) (payload bytes : Bytes)
    → encode_message (publish s payload) ≡ ok bytes
    → check_publish_length s (length payload) ≡ check_payload_length (length bytes)
unfolding encode_message check_publish_length
check_publish_length-encode_message s payload bytes h =
    let (header, e, k) = bind_inversion (encode_subject s) _ h in
    let p = encode_subject-Header s header e in
    let whole : bytes ≡ 2 ∷ (header ++ payload) = ground arith in
    rw p.encoded (
      ap check_payload_length
        (omega (arith, ap length whole, length-append header payload, length-Header s header p)))

-- With an encodable subject only the wild card is left to check.
abbrev no_wildcard : Bool → Result (Unit {0})
no_wildcard b = if b then err Error.value_error else ok tt

no_wildcard_iff :
    (b : Bool) (wire : Bytes)
    → (no_wildcard b ≡ ok tt) ↔ ((b ≡ false) × ((bytes : Bytes) × (ok wire ≡ ok bytes)))
no_wildcard_iff true wire = (λ h. cc h, λ h. cc (h.0))
no_wildcard_iff false wire = (λ h. (refl, (wire, refl)), λ h. refl)

-- A subject passes `check_publish_subject` exactly when it has no wild card and every payload
-- published to it can be encoded.
pub check_publish_subject_iff :
    (s : Text) (payload : Bytes)
    → (check_publish_subject s ≡ ok tt) ↔ (
        (has_wildcard s ≡ false)
        × ((bytes : Bytes) × (encode_message (publish s payload) ≡ ok bytes)))
unfolding check_publish_subject check_subject encode_message
check_publish_subject_iff s payload = elim (Result-cases (encode_subject s)) [
  | inl (header, e) ↦ rw e (no_wildcard_iff (has_wildcard s) (2 ∷ (header ++ payload)))
  | inr (x, e) ↦ rw e (λ h. cc h, λ h. cc (h.1.1))
]
