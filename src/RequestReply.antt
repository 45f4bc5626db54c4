-- ===== src/RequestReply.antt =====
-- The messages and subjects of software_bus/request_reply.py.
pub mod Laws
pub mod Tests
pub mod Waits
pub mod Accept
pub mod Acceptors
use software_bus.Prelude.{
  ℕ, zero, suc, ◌+◌, ltb, leb, ◌==◌, ◌&&◌, ◌||◌, not, Bool, true, false, if◌then◌else◌, List, [],
  ◌∷◌, ◌++◌, length, get_or, take, drop, all, Result, ok, err, Error, ◌>>=◌, ◌>>◌,
}
use software_bus.Text.{Text, Bytes, codes, text_eq}
use software_bus.Text.Utf8.{encode}
use software_bus.Text.Split.{split}
use software_bus.SubjectMatcher.{has_wildcard}
use software_bus.PubSub.Codec.{
  encode_subject, decode_subject, max_subject_length, subject_length_size, check_publish_length,
  encode_message, publish, Message,
}

abbrev pub request_prefix : Text
request_prefix = codes "_request"

abbrev pub reply_prefix : Text
reply_prefix = codes "_reply"

abbrev pub unique_id_length : ℕ
unique_id_length = 32

-- `_UNIQUE_ID_ALPHABET`: the digits, the upper and the lower case letters of ASCII.
abbrev pub is_unique_id_char : ℕ → Bool
is_unique_id_char c =
    (leb b'0' c && leb c b'9') || (leb b'A' c && leb c b'Z') || (leb b'a' c && leb c b'z')

pub record RequestMessage : Type 0 where
  pub reply_subject : Text
  pub payload : Bytes

unfoldable pub encode_request : RequestMessage → Result Bytes
encode_request message = do
  header ← encode_subject message.reply_subject
  ok (header ++ message.payload)

unfoldable pub decode_request : Bytes → Result RequestMessage
decode_request bytes = do
  (reply_subject, payload_start) ← decode_subject bytes 0
  ok (record { reply_subject = reply_subject; payload = drop payload_start bytes })

abbrev pub derived_request_subject : Text → Text
derived_request_subject request_subject = request_prefix ++ b'.' ∷ request_subject

abbrev pub derived_reply_subject : Text → Text → Text
derived_reply_subject request_subject unique_id =
    reply_prefix ++ b'.' ∷ (request_subject ++ b'.' ∷ unique_id)

unfoldable pub is_unique_id : Text → Bool
is_unique_id value = length value == unique_id_length && all is_unique_id_char value

-- `parts[-1]`, of parts that are not empty.
abbrev pub last : List Text → Text
last [] = []
last (p ∷ []) = p
last (p ∷ q ∷ ps) = last (q ∷ ps)

unfoldable pub is_valid_reply_subject : Text → Bool
is_valid_reply_subject subject =
    let parts = split b'.' subject in
    leb 3 (length parts)
    && text_eq (get_or parts 0 []) reply_prefix
    && is_unique_id (last parts)
    && not (has_wildcard subject)

abbrev pub starts_with : Text → Text → Bool
starts_with prefix s = text_eq (take (length prefix) s) prefix

unfoldable pub is_reply_subject_for : Text → Text → Bool
is_reply_subject_for reply_subject request_subject =
    let prefix = reply_prefix ++ b'.' ∷ (request_subject ++ b'.' ∷ []) in
    is_valid_reply_subject reply_subject
    && starts_with prefix reply_subject
    && is_unique_id (drop (length prefix) reply_subject)

abbrev pub check_wildcard : Text → Result (Unit {0})
check_wildcard request_subject =
    if has_wildcard request_subject then err Error.value_error else ok tt

-- `_check_request_subject`
unfoldable pub check_derived_subject : Text → Text → Result (Unit {0})
check_derived_subject request_subject longest_derived = do
  check_wildcard request_subject
  bytes ← encode longest_derived
  if ltb max_subject_length (length bytes) then err Error.value_error else ok tt

abbrev pub zeros : ℕ → Text
zeros zero = []
zeros (suc n) = b'0' ∷ zeros n

unfoldable pub check_request_subject : Text → Bool → Result (Unit {0})
check_request_subject request_subject sending = check_derived_subject request_subject (
    if sending
    then derived_reply_subject request_subject (zeros unique_id_length)
    else derived_request_subject request_subject)
