-- ===== src/PubSub/Codec.antt =====
-- The wire format of software_bus/pubsub.py: the messages, `encode_message` and `decode_message`,
-- and the checks on what a client publishes.
pub mod Subject
pub mod RoundTrip
pub mod Reencode
pub mod Errors
pub mod Tests
use software_bus.Prelude.{
  ℕ, ◌+◌, ◌-◌, ◌*◌, ◌^◌, ltb, leb, ◌==◌, ◌&&◌, ◌||◌, not, Bool, true, false, if◌then◌else◌, List,
  [], ◌∷◌, ◌++◌, length, get_or, slice, drop, Result, ok, err, Error, ◌>>=◌, ◌>>◌,
}
use software_bus.Text.{Text, Bytes}
use software_bus.Text.Utf8.{encode, decode}
use software_bus.Text.BigEndian.{to_bytes, from_bytes}
use software_bus.BaseLayer.Framing.{check_payload_length}
use software_bus.SubjectMatcher.{has_wildcard}

abbrev pub msg_subscription : ℕ
msg_subscription = 0x01

abbrev pub msg_publish : ℕ
msg_publish = 0x02

abbrev pub msg_hello : ℕ
msg_hello = 0x03

abbrev pub msg_reachability_query : ℕ
msg_reachability_query = 0x04

abbrev pub msg_reachability_reply : ℕ
msg_reachability_reply = 0x05

abbrev pub subject_length_size : ℕ
subject_length_size = 2

abbrev pub max_subject_length : ℕ
max_subject_length = 2 ^ (8 * subject_length_size) - 1

abbrev pub id_size : ℕ
id_size = 16

pub data ReachabilityResult : Type 0 where
  not_found found unknown : ReachabilityResult

-- The value of the IntEnum member, and `ReachabilityResult(value)`.
abbrev pub result_value : ReachabilityResult → ℕ
result_value not_found = 0
result_value found = 1
result_value unknown = 2

pub result_of : ℕ → Result ReachabilityResult
result_of value =
    if value == 0
    then ok not_found
    else if value == 1
    then ok found
    else if value == 2
    then ok unknown
    else err Error.value_error

pub data Message : Type 0 where
  subscription : Text → Bool → Message
  publish : Text → Bytes → Message
  hello : Bytes → Message
  reachability_query : Bytes → Bytes → Message
  reachability_reply : Bytes → ReachabilityResult → Message

pub check_id : Bytes → Result Bytes
check_id value = if not (length value == id_size) then err Error.value_error else ok value

unfoldable pub encode_subject : Text → Result Bytes
encode_subject subject = do
  subject_bytes ← encode subject
  if ltb max_subject_length (length subject_bytes)
      then err Error.value_error
      else ok (to_bytes subject_length_size (length subject_bytes) ++ subject_bytes)

unfoldable pub check_subject : Text → Result (Unit {0})
check_subject subject = encode_subject subject >> ok tt

unfoldable pub check_publish_subject : Text → Result (Unit {0})
check_publish_subject subject = do
  check_subject subject
  if has_wildcard subject then err Error.value_error else ok tt

unfoldable pub check_publish_length : Text → ℕ → Result (Unit {0})
check_publish_length subject payload_length = do
  let tag_size : ℕ = 1
  subject_bytes ← encode subject
  check_payload_length (tag_size + subject_length_size + length subject_bytes + payload_length)

-- `encode_message` takes the union `Message`, so its TypeError is out of reach here.
unfoldable pub encode_message : Message → Result Bytes
unfolding check_id
encode_message (hello node_id) = do id ← check_id node_id; ok (msg_hello ∷ id)
encode_message (reachability_query query_id target_node_id) = do
  query ← check_id query_id
  target ← check_id target_node_id
  ok (msg_reachability_query ∷ query ++ target)
encode_message (reachability_reply query_id result) = do
  query ← check_id query_id
  ok (msg_reachability_reply ∷ query ++ result_value result ∷ [])
encode_message (subscription subject subscribe) = do
  subject_header ← encode_subject subject
  let state : Bytes = if subscribe then 0x01 ∷ [] else 0x00 ∷ []
  ok (msg_subscription ∷ state ++ subject_header)
encode_message (publish subject payload) = do
  subject_header ← encode_subject subject
  ok (msg_publish ∷ subject_header ++ payload)

-- The subject at `offset`, and the offset after it.
unfoldable pub decode_subject : Bytes → ℕ → Result (Text × ℕ)
decode_subject bytes offset =
    let subject_start = offset + subject_length_size in
    let subject_length = from_bytes (slice offset subject_start bytes) in
    let subject_end = subject_start + subject_length in
    if ltb (length bytes) subject_start
    then err Error.value_error
    else if ltb (length bytes) subject_end
    then err Error.value_error
    else do subject ← decode (slice subject_start subject_end bytes); ok (subject, subject_end)

pub expect_length : Bytes → ℕ → Result (Unit {0})
expect_length bytes expected = if ltb (length bytes) expected then err Error.value_error else ok tt

-- `data[i]` of a byte string that is long enough.
abbrev pub byte_at : Bytes → ℕ → ℕ
byte_at bytes i = get_or bytes i 0

pub decode_subscription : Bytes → Result Message
decode_subscription bytes =
    if ltb (length bytes) 2 || not (byte_at bytes 1 == 0 || byte_at bytes 1 == 1)
    then err Error.value_error
    else do (subject, _) ← decode_subject bytes 2; ok (subscription subject (byte_at bytes 1 == 1))

pub decode_publish : Bytes → Result Message
decode_publish bytes = do
  (subject, payload_start) ← decode_subject bytes 1
  ok (publish subject (drop payload_start bytes))

pub decode_hello : Bytes → Result Message
decode_hello bytes = do expect_length bytes (1 + id_size); ok (hello (slice 1 (1 + id_size) bytes))

pub decode_query : Bytes → Result Message
decode_query bytes = do
  expect_length bytes (1 + 2 * id_size)
  ok (
      reachability_query (slice 1 (1 + id_size) bytes)
        (slice (1 + id_size) (1 + 2 * id_size) bytes))

pub decode_reply : Bytes → Result Message
decode_reply bytes = do
  expect_length bytes (1 + id_size + 1)
  result ← result_of (byte_at bytes (1 + id_size))
  ok (reachability_reply (slice 1 (1 + id_size) bytes) result)

unfoldable pub decode_message : Bytes → Result Message
unfolding decode_subscription decode_publish decode_hello decode_query decode_reply
decode_message [] = err Error.value_error
decode_message (msg_type ∷ rest) =
    let bytes = msg_type ∷ rest in
    if msg_type == msg_subscription
    then decode_subscription bytes
    else if msg_type == msg_publish
    then decode_publish bytes
    else if msg_type == msg_hello
    then decode_hello bytes
    else if msg_type == msg_reachability_query
    then decode_query bytes
    else if msg_type == msg_reachability_reply
    then decode_reply bytes
    else err Error.unknown_message_type
