-- ===== src/Topology/Handlers/Counted.antt =====
-- What the counters of a topic say of the messages that came.
use p2p_tests.Prelude.{
  suc, ◌+◌, ◌≡◌, ◌≢◌, refl, ap, sym, List, [], ◌∷◌, ◌++◌, map, Option, none, some, Text, codes,
  Bool, true, false, ◌==◌, text_eq, arith, length, keep, count, append-injective, All, Bool-cases,
  inl, inr, if◌then◌else◌,
}
use p2p_tests.Prelude.Int.{ℤ}
use p2p_tests.Topology.Errors.{Result}
use p2p_tests.Topology.Pubsub.{Message, unset, ssv, foreign, accept, msg_validator, decode_msg}
use p2p_tests.Topology.Listen.{failed, cancelled, handle, listen}
use p2p_tests.Topology.Listen.Handling.{deliveries, listen-handles}
use p2p_tests.Topology.Handlers.{counter_of, count_calls}

-- The counters of one topic are two.
counters-ne : (t : Text) → codes "in_msg_" ++ t ≢ codes "in_msg_err_" ++ t
counters-ne t e =
    let rest : t ≡ codes "err_" ++ t = append-injective (codes "in_msg_") t (codes "err_" ++ t) e in
    let size : length t ≡ length (codes "err_" ++ t) = ap length rest in absurd (omega arith)

same-true : (t : Text) → (t == t) ≡ true
same-true t = (text_eq.beq_iff t t).1 refl

other-false : (s t : Text) → s ≢ t → (s == t) ≡ false
other-false s t ne = elim (Bool-cases (s == t)) [
  | inl e ↦ absurd (ne ((text_eq.beq_iff s t).0 e))
  | inr e ↦ e
]

module _ {M : Type 0} where
  -- A message that carries a decoded message.
  abbrev pub is_converted : Option (Message M) → Bool
  is_converted none = false
  is_converted (some pmsg) = elim pmsg.validator_data [
    | unset ↦ false
    | foreign ↦ false
    | ssv m ↦ true
  ]

  handled-counter :
      (t : Text) (pmsg : Option (Message M))
      → counter_of (handle t pmsg)
        ≡ (if is_converted pmsg then codes "in_msg_" ++ t else codes "in_msg_err_" ++ t)
  unfolding handle
  handled-counter t none = refl
  handled-counter t (some pmsg) = ground arith

  tallies :
      (t : Text) (ds : List (Option (Message M) × Bool))
      → let names = count_calls (map (λ d. handle t d.0) ds) in
        (count (codes "in_msg_" ++ t) names ≡ length (keep (λ d. is_converted d.0) ds))
        × (count (codes "in_msg_" ++ t) names + count (codes "in_msg_err_" ++ t) names ≡ length ds)
  unfolding count_calls
  tallies t [] = (refl, refl)
  tallies t (d ∷ ds) =
      let rest = tallies t ds in
      let msg = codes "in_msg_" ++ t in
      let bad = codes "in_msg_err_" ++ t in
      let apart = other-false msg bad (counters-ne t) in
      let apart' = other-false bad msg (λ e. counters-ne t (sym e)) in
      elim (Bool-cases (is_converted d.0)) [
        | inl good ↦
            rw (handled-counter t d.0, good, same-true msg, apart')
              (ap suc rest.0, omega (arith, rest.1))
        | inr poor ↦
            rw (handled-counter t d.0, poor, same-true bad, apart) (rest.0, omega (arith, rest.1))
      ]

  -- While messages come to a new subscription of a topic, the counter "in_msg_" of the topic is
  -- incremented once for each that carries a decoded message, and "in_msg_err_" once for each other:
  -- the two count all that came.
  pub listen-counts :
      (t : Text) (ds : List (Option (Message M) × Bool))
      → let names = count_calls (listen t false none (deliveries ds)).0 in
        (count (codes "in_msg_" ++ t) names ≡ length (keep (λ d. is_converted d.0) ds))
        × (count (codes "in_msg_" ++ t) names + count (codes "in_msg_err_" ++ t) names ≡ length ds)
  listen-counts t ds =
      rw (listen-handles t ds [] (failed cancelled) cancelled false).0 (tallies t ds)

  validated-converted :
      (decode : Text → Result M) (t : Text) (latency : ℤ) (pmsg : Message M)
      → (msg_validator decode t latency pmsg).verdict ≡ accept
      → is_converted (some (msg_validator decode t latency pmsg).message) ≡ true
  unfolding msg_validator decode_msg
  validated-converted decode t latency pmsg h = ground arith

  -- What the subscription of a topic delivers of messages that went through its validator.
  abbrev pub validated :
      (Text → Result M) → Text → ℤ → List (Message M) → List (Option (Message M) × Bool)
  validated decode t latency pmsgs =
      map (λ pmsg. (some (msg_validator decode t latency pmsg).message, false)) pmsgs

  keep-validated :
      (decode : Text → Result M) (t : Text) (latency : ℤ) (pmsgs : List (Message M))
      → All (λ pmsg. (msg_validator decode t latency pmsg).verdict ≡ accept) pmsgs
      → (length (validated decode t latency pmsgs) ≡ length pmsgs)
        × (length (keep (λ d. is_converted d.0) (validated decode t latency pmsgs)) ≡ length pmsgs)
  keep-validated decode t latency [] h = (refl, refl)
  keep-validated decode t latency (pmsg ∷ pmsgs) (good, all) =
      let rest = keep-validated decode t latency pmsgs all in
      rw (validated-converted decode t latency pmsg good) (ap suc rest.0, ap suc rest.1)

  -- When a new subscription delivers messages that the topic's validator has accepted, the counter
  -- "in_msg_" of the topic is incremented once for each of them, and "in_msg_err_" never.
  pub validated-counts :
      (decode : Text → Result M) (t : Text) (latency : ℤ) (pmsgs : List (Message M))
      → All (λ pmsg. (msg_validator decode t latency pmsg).verdict ≡ accept) pmsgs
      → let names =
          count_calls (listen t false none (deliveries (validated decode t latency pmsgs))).0 in
        (count (codes "in_msg_" ++ t) names ≡ length pmsgs)
        × (count (codes "in_msg_err_" ++ t) names ≡ 0)
  validated-counts decode t latency pmsgs h =
      let k = keep-validated decode t latency pmsgs h in
      let c = listen-counts t (validated decode t latency pmsgs) in omega arith
