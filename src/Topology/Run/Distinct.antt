-- ===== src/Topology/Run/Distinct.antt =====
-- The messages of all instances of a run: pubsub drops a message whose content it has seen.
use p2p_tests.Prelude.{
  ℕ, ◌≡◌, sym, ap, ◌∙◌, ◌∷◌, ◌++◌, append_assoc, Text, codes, append-injective, cut_unique, arith,
  inl, inr,
}
use p2p_tests.Prelude.Int.{ℤ, pos}
use p2p_tests.Prelude.Decimal.{print_int, print_int-injective, print_int-ne_below}
use p2p_tests.Topology.TopicManager.Interface.{Result-cases}
use p2p_tests.Topology.Errors.{Result, ok}
use p2p_tests.Topology.Sending.{message_data, message_of, prepare, ready}
use p2p_tests.Topology.Run.{node_name}

pos-injective : (i j : ℕ) → pos i ≡ pos j → i ≡ j
pos-injective i j e = cc

-- The data behind the number of the instance.
abbrev data_tail : ℕ → Text → Text
data_tail i pk = codes "i=" ++ (print_int (pos i) ++ (b',' ∷ codes "pk=" ++ pk))

message_data-parts :
    (seq : ℤ) (i : ℕ) (pk : Text)
    → message_data (node_name seq) i pk
      ≡ codes "some decided message from testnode-" ++ (print_int seq ++ b' ' ∷ data_tail i pk)
unfolding message_data
message_data-parts seq i pk = simp append_assoc

-- The data of a message says which instance has sent it, in which round, and for which validator.
message_data-injective :
    (seq seq' : ℤ) (i i' : ℕ) (pk pk' : Text)
    → message_data (node_name seq) i pk ≡ message_data (node_name seq') i' pk'
    → (seq ≡ seq') × (i ≡ i') × (pk ≡ pk')
message_data-injective seq seq' i i' pk pk' e =
    let shaped = sym (message_data-parts seq i pk) ∙ e ∙ message_data-parts seq' i' pk' in
    let first = append-injective (codes "some decided message from testnode-") _ _ shaped in
    let a =
      cut_unique b' ' (print_int seq) (print_int seq') (data_tail i pk) (data_tail i' pk')
        (print_int-ne_below b' ' seq (omega arith)) (print_int-ne_below b' ' seq' (omega arith))
        first in
    let second = append-injective (codes "i=") _ _ a.1 in
    let b =
      cut_unique b',' (print_int (pos i)) (print_int (pos i')) (codes "pk=" ++ pk)
        (codes "pk=" ++ pk') (print_int-ne_below b',' (pos i) (omega arith))
        (print_int-ne_below b',' (pos i') (omega arith)) second in
    (
      print_int-injective seq seq' a.0,
      pos-injective i i' (print_int-injective (pos i) (pos i') b.0),
      append-injective (codes "pk=") pk pk' b.1,
    )

-- What the code relies on in the message library: a message gives its data back, and its encoding
-- determines it.
pub record IsFaithful {M : Type 0} (ssv_message : Text → Text → M) (encode : M → Result Text)
    (data_of : M → Text) : Type 0 where
  pub kept : (raw text : Text) → data_of (ssv_message raw text) ≡ text
  pub encoded :
      (m m' : M) (payload : Text) → encode m ≡ ok payload → encode m' ≡ ok payload → m ≡ m'

module _ {M : Type 0} (decode_hex : Text → Result Text) (ssv_message : Text → Text → M)
    (encode : M → Result Text) (data_of : M → Text) where
  prepare-encoded :
      (name : Text) (i : ℕ) (pk payload : Text)
      → prepare decode_hex ssv_message encode name i pk ≡ ready payload
      → (raw : Text) × (encode (ssv_message raw (message_data name i pk)) ≡ ok payload)
  unfolding prepare message_of
  prepare-encoded name i pk payload e = elim (Result-cases (decode_hex pk)) [
    | inr (bad, refused) ↦ absurd (ground arith)
    | inl (raw, decoded) ↦ (raw, ground arith)
  ]

  -- Two messages that the instances of a run prepare and whose payloads are the same come from the same
  -- instance, in the same round, for the same validator.
  pub prepare-injective :
      (seq seq' : ℤ) (i i' : ℕ) (pk pk' payload : Text)
      → IsFaithful ssv_message encode data_of
      → prepare decode_hex ssv_message encode (node_name seq) i pk ≡ ready payload
      → prepare decode_hex ssv_message encode (node_name seq') i' pk' ≡ ready payload
      → (seq ≡ seq') × (i ≡ i') × (pk ≡ pk')
  prepare-injective seq seq' i i' pk pk' payload f p q =
      let (raw, a) = prepare-encoded (node_name seq) i pk payload p in
      let (raw', b) = prepare-encoded (node_name seq') i' pk' payload q in
      message_data-injective seq seq' i i' pk pk'
        (sym (f.kept raw _) ∙ ap data_of (f.encoded _ _ payload a b) ∙ f.kept raw' _)
