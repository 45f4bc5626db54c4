-- ===== src/RequestReply/Tests.antt =====
-- The theorems about software_bus/request_reply.py at concrete subjects.
use software_bus.Prelude.{◌≡◌, refl, false, some, ok, [], ◌∷◌}
use software_bus.Text.{Text, Bytes, codes, text_eq}
use software_bus.Text.Split.{split}
use software_bus.Text.Utf8.{encode}
use software_bus.SubjectMatcher.{has_wildcard}
use software_bus.PubSub.Codec.{check_publish_length}
use software_bus.BaseLayer.Framing.{check_payload_length}
use software_bus.RequestReply.{
  encode_request, derived_reply_subject, is_unique_id, is_valid_reply_subject, is_reply_subject_for,
  check_derived_subject,
}
use software_bus.RequestReply.Accept.{check_send_request, on_request, on_request-encode_request}
use software_bus.RequestReply.Laws.{is_reply_subject_for_unique}

abbrev unique_id : Text
unique_id = codes "0123456789ABCDEFGHIJKLMNOPQRSTuv"

checked : check_send_request (codes "a.b") unique_id false 1 ≡ ok tt
unfolding check_send_request check_derived_subject has_wildcard split text_eq encode
    check_publish_length check_payload_length
checked = refl

on_request-encode_request_example :
    (bytes : Bytes) × (encode_request
        (record { reply_subject = derived_reply_subject (codes "a.b") unique_id; payload = 7 ∷ [] })
      ≡ ok bytes)
    × (on_request (codes "a.b") bytes
        ≡ some (codes "a.b", derived_reply_subject (codes "a.b") unique_id, 7 ∷ []))
unfolding is_unique_id
on_request-encode_request_example =
    on_request-encode_request (codes "a.b") unique_id (7 ∷ []) false refl checked

is_reply_subject_for_unique_example : codes "a.b" ≡ codes "a.b"
unfolding has_wildcard split text_eq is_unique_id is_reply_subject_for is_valid_reply_subject
is_reply_subject_for_unique_example =
    is_reply_subject_for_unique (derived_reply_subject (codes "a.b") unique_id) (codes "a.b")
      (codes "a.b") refl refl
