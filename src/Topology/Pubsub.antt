-- ===== src/Topology/Pubsub.antt =====
-- plans/topology/pubsub.go: msgValidator, decodeMsg and msgID. The message type of the SSV library
-- and its Decode are parameters, and so is SHA-256.
pub mod Verdicts
use p2p_tests.Prelude.{
  ℕ, zero, suc, List, [], ◌∷◌, Text, ◌==◌, text_eq, Bool, true, false, not, if◌then◌else◌, eqb,
  length, Option, none, some,
}
use p2p_tests.Prelude.Int.{ℤ, pos, negsuc, leb_ℤ}
use p2p_tests.Topology.Errors.{GoError, Result, ok, err}

-- The field ValidatorData, of any type: not set, a message of the SSV library, or something else.
pub data ValidatorData (M : Type 0) : Type 0 where
  unset : ValidatorData M
  ssv : M → ValidatorData M
  foreign : ValidatorData M

-- pubsub.Message, as far as the program reads and writes it.
pub record Message (M : Type 0) : Type 0 where
  pub topic : Text
  pub payload : Text
  pub validator_data : ValidatorData M

-- pubsub.ValidationResult, of which msgValidator returns two values.
pub data Verdict : Type 0 where
  accept reject : Verdict

-- What a validation does: the message, which is written through its pointer, the verdict, and the
-- time that it sleeps.
pub record Validation (M : Type 0) : Type 0 where
  pub message : Message M
  pub verdict : Verdict
  pub slept : ℤ

module _ {M : Type 0} (decode : Text → Result M) where
  -- decodeMsg: the error is that of Decode. On an error the message is not used.
  unfoldable pub decode_msg : Text → Result M
  decode_msg payload = elim (decode payload) [ err e ↦ err e | ok m ↦ ok m ]

  -- The closure of msgValidator, for a topic and a latency.
  unfoldable pub msg_validator : Text → ℤ → Message M → Validation M
  unfolding decode_msg
  msg_validator topic_name latency pmsg =
      let rejected : Validation M = record { message = pmsg; verdict = reject; slept = pos 0 } in
      if not (pmsg.topic == topic_name)
      then rejected
      else if eqb (length pmsg.payload) 0
      then rejected
      else elim (decode_msg pmsg.payload) [
        | err e ↦ rejected
        | ok m ↦ record {
          message = record pmsg { validator_data = ssv m };
          verdict = accept;
          slept = if leb_ℤ (pos 1) latency then latency else pos 0;
        }
      ]

-- s[n:]
abbrev pub drop : ℕ → Text → Text
drop zero s = s
drop (suc n) [] = []
drop (suc n) (c ∷ s) = drop n s

-- msgID: the last twelve bytes of the hash, the empty text for an empty message.
unfoldable pub msg_id : (Text → Text) → Text → Text
msg_id sha256 [] = []
msg_id sha256 (c ∷ s) = drop 20 (sha256 (c ∷ s))
