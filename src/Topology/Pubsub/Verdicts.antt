-- ===== src/Topology/Pubsub/Verdicts.antt =====
-- Which messages msgValidator accepts, and what it writes into them.
use p2p_tests.Prelude.{
  ℕ, ◌-◌, zero, suc, ◌≡◌, ◌≢◌, ◌⊎◌, refl, [], ◌∷◌, Text, ◌==◌, text_eq, true, false, length, arith,
  inl, inr, Bool-cases,
}
use p2p_tests.Prelude.Int.{ℤ}
use p2p_tests.Topology.Errors.{Result, ok}
use p2p_tests.Topology.TopicManager.Interface.{is_ok, Result-cases}
use p2p_tests.Topology.Pubsub.{
  Message, ssv, accept, reject, decode_msg, msg_validator, msg_id, drop,
}

module _ {M : Type 0} (decode : Text → Result M) where
  -- msgValidator accepts a message that came on the topic that the validator is for, is not empty
  -- and can be decoded, and writes the decoded message into the validator's data; it rejects every
  -- other message and leaves it as it was. It never changes a topic or a payload.
  pub msg_validator-verdict :
      (topic_name : Text) (latency : ℤ) (pmsg : Message M)
      → let v = msg_validator decode topic_name latency pmsg in
        (((v.verdict ≡ accept)
            × (pmsg.topic ≡ topic_name)
            × (pmsg.payload ≢ [])
            × ((m : M) × (decode pmsg.payload ≡ ok m) × (v.message.validator_data ≡ ssv m)))
          ⊎ ((v.verdict ≡ reject)
              × ((pmsg.topic ≢ topic_name)
                  ⊎ (pmsg.payload ≡ [])
                  ⊎ (is_ok (decode pmsg.payload) ≡ false))
              × (v.message ≡ pmsg)))
        × (v.message.topic ≡ pmsg.topic)
        × (v.message.payload ≡ pmsg.payload)
  unfolding msg_validator decode_msg
  msg_validator-verdict topic_name latency pmsg = (
    elim (Result-cases (decode pmsg.payload)) [
      | inr (e, bad) ↦ inr (ground (arith, bad), inr (inr (rw bad refl)), ground (arith, bad))
      | inl (m, good) ↦ elim (Bool-cases (pmsg.topic == topic_name)) [
        | inr other ↦ inr (
          ground (arith, other),
          inl (λ q. cc (other, (text_eq.beq_iff pmsg.topic topic_name).1 q)),
          ground (arith, other),
        )
        | inl same ↦ sized m good same pmsg.payload refl
      ]
    ],
    ground arith,
    ground arith,
  )
    where
      sized :
          (m : M)
          → decode pmsg.payload ≡ ok m
          → (pmsg.topic == topic_name) ≡ true
          → (p : Text) → pmsg.payload ≡ p
          → ((msg_validator decode topic_name latency pmsg).verdict ≡ accept)
              × (pmsg.topic ≡ topic_name)
              × (pmsg.payload ≢ [])
              × ((k : M) × (decode pmsg.payload ≡ ok k)
                  × ((msg_validator decode topic_name latency pmsg).message.validator_data ≡ ssv k))
            ⊎ ((msg_validator decode topic_name latency pmsg).verdict ≡ reject)
              × ((pmsg.topic ≢ topic_name)
                  ⊎ (pmsg.payload ≡ [])
                  ⊎ (is_ok (decode pmsg.payload) ≡ false))
              × ((msg_validator decode topic_name latency pmsg).message ≡ pmsg)
      sized m good same [] e = inr (ground (arith, e), inr (inl e), ground (arith, e))
      sized m good same (c ∷ s) e = inl (
        ground (arith, e, good, same),
        (text_eq.beq_iff pmsg.topic topic_name).0 same,
        λ q. cc (q, e),
        (m, good, ground (arith, e, good, same)),
      )

length-drop : (n : ℕ) (s : Text) → length (drop n s) ≡ length s - n
length-drop zero s = omega arith
length-drop (suc n) [] = omega arith
length-drop (suc n) (c ∷ s) = omega (arith, length-drop n s)

-- With a hash of 32 bytes, the identifier of a message that is not empty has twelve bytes.
pub length-msg_id :
    (sha256 : Text → Text) (payload : Text)
    → ((s : Text) → length (sha256 s) ≡ 32)
    → payload ≢ []
    → length (msg_id sha256 payload) ≡ 12
unfolding msg_id
length-msg_id sha256 [] size ne = absurd (ne refl)
length-msg_id sha256 (c ∷ s) size ne = omega (arith, length-drop 20 (sha256 (c ∷ s)), size (c ∷ s))
