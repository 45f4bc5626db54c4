-- ===== src/RequestReply/Accept.antt =====
-- What `RequestReplyClient` (software_bus/request_reply.py) checks before it sends a request or a
-- reply, and what its `on_request` does with a request that arrives.
use software_bus.Prelude.{
  ℕ, ◌+◌, ◌≡◌, refl, arith, Bool, true, false, if◌then◌else◌, Option, none, some, length, ◌++◌,
  Bool-cases, inl, inr, ltb, Result, ok, err, Error, ◌>>=◌, ◌>>◌, bind_inversion,
}
use software_bus.Text.{Text, Bytes}
use software_bus.Text.Utf8.{encode}
use software_bus.Text.BigEndian.{to_bytes}
use software_bus.SubjectMatcher.{has_wildcard}
use software_bus.PubSub.Codec.{
  encode_subject, check_publish_length, subject_length_size, max_subject_length,
}
use software_bus.RequestReply.{
  RequestMessage, encode_request, decode_request, derived_request_subject, derived_reply_subject,
  is_unique_id, is_valid_reply_subject, is_reply_subject_for, check_wildcard, check_derived_subject,
}
use software_bus.RequestReply.Laws.{
  decode_request-encode_request, is_reply_subject_for-derived_reply_subject,
}

abbrev pub check_timeout : Bool → Result (Unit {0})
check_timeout is_negative = if is_negative then err Error.value_error else ok tt

-- The checks of `send_request`, for a payload of `size` bytes.
unfoldable pub check_send_request : Text → Text → Bool → ℕ → Result (Unit {0})
check_send_request request_subject unique_id is_negative size = do
  let reply_subject : Text = derived_reply_subject request_subject unique_id
  check_derived_subject request_subject reply_subject
  check_timeout is_negative
  subject_bytes ← encode reply_subject
  check_publish_length (derived_request_subject request_subject)
      (subject_length_size + length subject_bytes + size)

-- What `on_request` calls the callback with; `none` where the request is ignored.
abbrev pub received_request : Text → RequestMessage → Option (Text × Text × Bytes)
received_request request_subject message =
    if is_reply_subject_for message.reply_subject request_subject
    then some (request_subject, message.reply_subject, message.payload)
    else none

unfoldable pub on_request : Text → Bytes → Option (Text × Text × Bytes)
on_request request_subject payload = elim (decode_request payload) [
  | ok message ↦ received_request request_subject message
  | err e ↦ none
]

-- The checks of `send_reply`.
unfoldable pub check_send_reply : Text → ℕ → Result (Unit {0})
check_send_reply reply_subject size =
    if is_valid_reply_subject reply_subject
    then check_publish_length reply_subject size
    else err Error.value_error

short_enough :
    (n : ℕ)
    → (if ltb max_subject_length n then err Error.value_error else ok (tt {0})) ≡ ok tt
    → ltb max_subject_length n ≡ false
short_enough n h = elim (Bool-cases (ltb max_subject_length n)) [
  | inl l ↦ absurd (ground (arith, h, l))
  | inr l ↦ l
]

check_wildcard_ok : (a : Text) → check_wildcard a ≡ ok tt → has_wildcard a ≡ false
check_wildcard_ok a h = elim (Bool-cases (has_wildcard a)) [
  | inl w ↦ absurd (ground (arith, h, w))
  | inr w ↦ w
]

check_derived_subject-encode_subject :
    (a d : Text)
    → check_derived_subject a d ≡ ok tt
    → (has_wildcard a ≡ false) × ((header : Bytes) × (encode_subject d ≡ ok header))
unfolding check_derived_subject encode_subject
check_derived_subject-encode_subject a d h =
    let (t, w, rest) = bind_inversion (check_wildcard a) _ h in
    let (bytes, e, short) = bind_inversion (encode d) _ rest in
    let l = short_enough (length bytes) short in
    (check_wildcard_ok a w, (to_bytes subject_length_size (length bytes) ++ bytes, rw (e, l) refl))

-- A request that passes the checks of `send_request`, with a unique id of its own, can be encoded, and
-- `on_request` of that request subject calls its callback with the same request subject, the derived
-- reply subject, and the payload.
pub on_request-encode_request :
    (a id : Text) (payload : Bytes) (is_negative : Bool)
    → is_unique_id id ≡ true
    → check_send_request a id is_negative (length payload) ≡ ok tt
    → (bytes : Bytes) × (encode_request
          (record { reply_subject = derived_reply_subject a id; payload = payload })
        ≡ ok bytes)
      × (on_request a bytes ≡ some (a, derived_reply_subject a id, payload))
unfolding check_send_request
on_request-encode_request a id payload is_negative u h =
    let (v, checked, rest) =
      bind_inversion (check_derived_subject a (derived_reply_subject a id)) _ h in
    let (w, (header, encoded)) =
      check_derived_subject-encode_subject a (derived_reply_subject a id) checked in
    let message : RequestMessage = record {
      reply_subject = derived_reply_subject a id;
      payload = payload;
    } in
    let whole : encode_request message ≡ ok (header ++ payload) =
      unfold encode_request in rw encoded refl in
    (header ++ payload, whole, received (header ++ payload) whole w)
  where
    received :
        (bytes : Bytes)
        → encode_request (record { reply_subject = derived_reply_subject a id; payload = payload })
          ≡ ok bytes
        → has_wildcard a ≡ false
        → on_request a bytes ≡ some (a, derived_reply_subject a id, payload)
    received bytes e w =
        let m : RequestMessage = record {
          reply_subject = derived_reply_subject a id;
          payload = payload;
        } in
        let accepted : received_request a m ≡ some (a, derived_reply_subject a id, payload) =
          rw (is_reply_subject_for-derived_reply_subject a id w u) refl in
        unfold on_request in rw (decode_request-encode_request m bytes e, on_request) accepted
