-- ===== src/Scripts/Clients.antt =====
-- The clients' scripts: `run` of bl_client, ps_publish, ps_subscribe, rr_reply and, but for its replies,
-- rr_request (software_bus/bl_client.py and so on), with `repeat` of software_bus/_cli.py.
use software_bus.Prelude.{
  ℕ, zero, suc, false, if◌then◌else◌, List, [], ◌∷◌, ◌++◌, map, any, Option, none, some, Result, ok,
  err,
}
use software_bus.Text.{Text, Bytes, codes, text_eq}
use software_bus.Text.Utf8.{encode}
use software_bus.PubSub.Codec.{check_subject, check_publish_subject}
use software_bus.RequestReply.{check_request_subject}
use software_bus.Scripts.{
  other_error, Outcome, returned, raised, Act, connects, sends, publishes, subscribes, accepts,
  requests, sleeps, waits_ended, waits_forever, Body, Watch, run_client,
}

-- `repeat`, without the sleep before the first action.
abbrev pub repeated : ℕ → Act → List Act
repeated zero act = []
repeated (suc n) act = sleeps ∷ act ∷ repeated n act

abbrev pub repeat : ℕ → Act → List Act
repeat zero act = []
repeat (suc n) act = act ∷ repeated n act

-- A body that encodes a text after its first calls.
abbrev pub encoded : List Act → Text → (Bytes → List Act) → Body
encoded acts text rest = elim (encode text) [
  | ok bytes ↦ (acts ++ rest bytes, returned)
  | err e ↦ (acts, raised (other_error e))
]

-- `run` of ps_publish.
abbrev pub publishing : Text → Text → ℕ → Body
publishing subject message repeat_count =
    encoded (connects ∷ []) message (λ payload. repeat repeat_count (publishes subject payload))

abbrev pub run_publish : Text → Text → ℕ → List Outcome → Watch → List Act × Outcome
run_publish subject message repeat_count =
    run_client check_publish_subject (subject ∷ []) (publishing subject message repeat_count)

-- `run` of ps_subscribe.
abbrev pub subscribing : List Text → Body
subscribing subjects = (connects ∷ (map subscribes subjects ++ waits_forever ∷ []), returned)

abbrev pub run_subscribe : List Text → List Outcome → Watch → List Act × Outcome
run_subscribe subjects = run_client check_subject subjects (subscribing subjects)

-- `run` of bl_client.
abbrev pub sending : Option Text → ℕ → Body
sending none repeat_count = (connects ∷ waits_forever ∷ [], returned)
sending (some message) repeat_count =
    encoded (connects ∷ []) message
      (λ payload. repeat repeat_count (sends payload) ++ waits_forever ∷ [])

abbrev pub run_send : Option Text → ℕ → List Outcome → Watch → List Act × Outcome
run_send message repeat_count = run_client (λ subject. ok tt) [] (sending message repeat_count)

-- `dict.fromkeys(subjects)`, without those that have been seen.
unfoldable pub without_duplicates : List Text → List Text → List Text
without_duplicates seen [] = []
without_duplicates seen (s ∷ ss) =
    let rest = without_duplicates seen ss in
    let rest' = without_duplicates (s ∷ seen) ss in if any (text_eq s) seen then rest else s ∷ rest'

-- `run` of rr_reply.
abbrev pub replying : List Text → Body
replying subjects =
    (connects ∷ (map accepts (without_duplicates [] subjects) ++ waits_forever ∷ []), returned)

abbrev pub run_reply : List Text → List Outcome → Watch → List Act × Outcome
run_reply subjects =
    run_client (λ subject. check_request_subject subject false) subjects (replying subjects)

-- What its `on_request` replies with.
abbrev pub reply_payload : Text → Text → Result Bytes
reply_payload request_subject reply_message =
    encode (codes "Reply for " ++ (request_subject ++ (codes ": " ++ reply_message)))

-- The body of rr_request.
abbrev pub requesting : Text → Text → Body
requesting request_subject message =
    encoded (connects ∷ []) message (λ payload. requests request_subject payload ∷ waits_ended ∷ [])
