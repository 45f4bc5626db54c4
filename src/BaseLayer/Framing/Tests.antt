-- ===== src/BaseLayer/Framing/Tests.antt =====
-- Runs of the framing of software_bus/base_layer.py, and its theorems at concrete streams.
use software_bus.Prelude.{◌≡◌, ◌≢◌, refl, none, some, List, [], ◌∷◌, ◌++◌, err, Error}
use software_bus.Text.{Bytes, codes}
use software_bus.Text.BigEndian.{from_bytes}
use software_bus.BaseLayer.Framing.{
  check_payload_length, read_exactly, read_payload, receive, receive_loop, receive_all,
}
use software_bus.BaseLayer.Framing.Stream.{frames, receive_all-frames, receive_all_total}

abbrev two_payloads : List Bytes
two_payloads = codes "abc" ∷ [] ∷ []

-- The second frame is cut off.
receive_cut :
    receive_all (0 ∷ 0 ∷ 0 ∷ 1 ∷ 7 ∷ 0 ∷ 0 ∷ 1 ∷ []) ≡ some ((7 ∷ []) ∷ [], Error.incomplete_read)
unfolding receive_all receive_loop receive read_exactly read_payload from_bytes
receive_cut = refl

receive_huge : receive (1 ∷ 0 ∷ 0 ∷ 1 ∷ 7 ∷ []) ≡ err Error.received_too_long
unfolding receive read_exactly read_payload from_bytes
receive_huge = refl

receive_all-frames_example :
    receive_all (frames two_payloads ++ 0 ∷ []) ≡ some (two_payloads, Error.incomplete_read)
unfolding check_payload_length receive read_exactly
receive_all-frames_example =
    receive_all-frames two_payloads (0 ∷ []) Error.incomplete_read (refl, (refl, tt)) refl

receive_all_total_example : receive_all (0 ∷ 0 ∷ []) ≢ none
receive_all_total_example = receive_all_total (0 ∷ 0 ∷ [])
