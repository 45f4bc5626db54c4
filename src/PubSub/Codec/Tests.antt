-- ===== src/PubSub/Codec/Tests.antt =====
-- Runs of the codec of software_bus/pubsub.py, and its theorems at concrete messages.
use software_bus.Prelude.{
  arith, ◌≡◌, ◌↔◌, ◌⊎◌, true, refl, false, [], ◌∷◌, ◌++◌, length, ok, err, Error,
}
use software_bus.Text.{Bytes, codes}
use software_bus.Text.Utf8.{encode, decode}
use software_bus.Text.BigEndian.{to_bytes, from_bytes}
use software_bus.BaseLayer.Framing.{check_payload_length}
use software_bus.PubSub.Codec.{
  Message, subscription, publish, encode_subject, encode_message, decode_subject, decode_message,
  check_publish_length,
}
use software_bus.PubSub.Codec.RoundTrip.{decode_message-encode_message, decode_message_appended}
use software_bus.PubSub.Codec.Reencode.{Reencoded, decode_message-Reencoded}
use software_bus.PubSub.Codec.Errors.{
  unknown_tag, error_for, decode_message_raises, check_publish_length-encode_message,
}

-- "é" under `publish`, with the payload "x".
abbrev e_acute : Bytes
e_acute = 2 ∷ 0 ∷ 2 ∷ 0xC3 ∷ 0xA9 ∷ b'x' ∷ []

abbrev published : Message
published = publish (0xE9 ∷ []) (codes "x")

encode_publish_run : encode_message published ≡ ok e_acute
unfolding encode_message encode_subject encode to_bytes
encode_publish_run = refl

decode_publish_run : decode_message e_acute ≡ ok published
unfolding decode_message decode_subject decode from_bytes
decode_publish_run = refl

-- An overlong encoding and a surrogate are refused.
decode_refusals :
    (decode (0xC0 ∷ 0x80 ∷ []) ≡ err Error.value_error)
    × (decode (0xED ∷ 0xA0 ∷ 0x80 ∷ []) ≡ err Error.value_error)
unfolding decode
decode_refusals = (refl, refl)

decode_message-encode_message_example : decode_message e_acute ≡ ok published
decode_message-encode_message_example =
    decode_message-encode_message published e_acute encode_publish_run

abbrev unsubscribed : Bytes
unsubscribed = 1 ∷ 0 ∷ 0 ∷ 1 ∷ b'a' ∷ []

decode_message_appended_example :
    decode_message (unsubscribed ++ 9 ∷ 9 ∷ []) ≡ ok (subscription (codes "a") false)
unfolding encode_message encode_subject encode to_bytes
decode_message_appended_example =
    decode_message_appended (subscription (codes "a") false) unsubscribed (9 ∷ 9 ∷ []) refl refl

decode_message-Reencoded_example : Reencoded e_acute published
decode_message-Reencoded_example =
    decode_message-Reencoded e_acute published (omega arith) decode_publish_run

decode_message_raises_example :
    ((decode_message (6 ∷ 1 ∷ []) ≡ err Error.unknown_message_type)
      ↔ (unknown_tag (6 ∷ 1 ∷ []) ≡ true))
    × (((m : Message) × (decode_message (6 ∷ 1 ∷ []) ≡ ok m))
        ⊎ (decode_message (6 ∷ 1 ∷ []) ≡ err (error_for (6 ∷ 1 ∷ []))))
decode_message_raises_example = decode_message_raises (6 ∷ 1 ∷ [])

check_publish_length-encode_message_example :
    check_publish_length (0xE9 ∷ []) 1 ≡ check_payload_length (length e_acute)
check_publish_length-encode_message_example =
    check_publish_length-encode_message (0xE9 ∷ []) (codes "x") e_acute encode_publish_run
