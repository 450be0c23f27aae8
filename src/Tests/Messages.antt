-- ===== src/Tests/Messages.antt =====
-- plans/topology/pubsub.go at concrete inputs.
use p2p_tests.Prelude.{
  count, length, zero, suc, ◌≡◌, ◌≢◌, ◌⊎◌, refl, List, [], ◌∷◌, ◌++◌, Text, codes, Option, none,
  some, Bool, true, false, map, text_beq,
}
use p2p_tests.Prelude.Int.{pos}
use p2p_tests.Topology.Errors.{Result, ok, err, external}
use p2p_tests.Topology.TopicManager.Interface.{is_ok}
use p2p_tests.Topology.Pubsub.{Message, unset, ssv, accept, reject, msg_validator, decode_msg}
use p2p_tests.Topology.Pubsub.Verdicts.{msg_validator-verdict}
use p2p_tests.Topology.Listen.{
  delivered, failed, topic_closed, listening, returned, handle, stop, listen,
}
use p2p_tests.Topology.Listen.Handling.{Stops, deliveries, listen-handles}
use p2p_tests.Topology.Handlers.{count_calls}
use p2p_tests.Topology.Handlers.Counted
use p2p_tests.Topology.Handlers.Counted.{validated-counts}

-- A decoder of messages that begin with the byte 7: the rest is the message.
abbrev decode_seven : Text → Result Text
decode_seven [] = err (external [])
decode_seven (c ∷ s) = elim c [ zero ↦ err (external s) | suc n ↦ ok s ]

abbrev raw : Message Text
raw = record { topic = codes "test.3"; payload = 7 ∷ codes "decided"; validator_data = unset }

abbrev validated : Message Text
validated = record raw { validator_data = ssv (codes "decided") }

msg_validator-verdict_example :
    let v = msg_validator decode_seven (codes "test.3") (pos 5) raw in
    (((v.verdict ≡ accept)
        × (raw.topic ≡ codes "test.3")
        × (raw.payload ≢ [])
        × ((m : Text) × (decode_seven raw.payload ≡ ok m) × (v.message.validator_data ≡ ssv m)))
      ⊎ ((v.verdict ≡ reject)
          × ((raw.topic ≢ codes "test.3")
              ⊎ (raw.payload ≡ [])
              ⊎ (is_ok (decode_seven raw.payload) ≡ false))
          × (v.message ≡ raw)))
    × (v.message.topic ≡ raw.topic)
    × (v.message.payload ≡ raw.payload)
msg_validator-verdict_example = msg_validator-verdict decode_seven (codes "test.3") (pos 5) raw

raw_accepted : (msg_validator decode_seven (codes "test.3") (pos 5) raw).verdict ≡ accept
unfolding msg_validator decode_msg text_beq
raw_accepted = refl

validated-counts_example :
    let names =
      count_calls
        (listen (codes "test.3") false none (
          deliveries
            (Counted.validated decode_seven (codes "test.3") (pos 5) (raw ∷ raw ∷ [])))).0 in
    (count (codes "in_msg_test.3") names ≡ length (raw ∷ raw ∷ []))
    × (count (codes "in_msg_err_test.3") names ≡ 0)
validated-counts_example =
    validated-counts decode_seven (codes "test.3") (pos 5) (raw ∷ raw ∷ [])
      (raw_accepted, (raw_accepted, tt))

abbrev two_messages : List (Option (Message Text) × Bool)
two_messages = (some validated, false) ∷ (none, false) ∷ []

listen-handles_example :
    let calls = map (λ d. handle (codes "test.3") d.0) two_messages in
    (listen (codes "test.3") false none (deliveries two_messages) ≡ (calls, listening))
    × (listen (codes "test.3") false none (
          deliveries two_messages
          ++ record { done_before = true; next = delivered none; done_after = false } ∷ [])
        ≡ (calls, returned none))
    × (listen (codes "test.3") false none (
          deliveries two_messages
          ++ record { done_before = false; next = failed topic_closed; done_after = false } ∷ [])
        ≡ (
          calls ++ (stop {M = Text} (codes "test.3") topic_closed false).0,
          returned (stop {M = Text} (codes "test.3") topic_closed false).1,
        ))
    × Stops Text (codes "test.3") topic_closed false
listen-handles_example =
    listen-handles (codes "test.3") two_messages [] (delivered none) topic_closed false
