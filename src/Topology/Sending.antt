-- ===== src/Topology/Sending.antt =====
-- plans/topology/groups.go and subnets.go: the rounds in which an instance publishes a message for
-- each of its validators. The decoder of hexadecimal keys, the message type of the SSV library and
-- its Encode are parameters; what rand.Int31n returns in a round is `draw` of that round. The
-- goroutines that call Listen need not have come to their Subscribe when the rounds begin: `late` says
-- which of them do between which publications.
pub mod Effects
pub mod Groups
pub mod Subnets
pub mod Missed
use p2p_tests.Prelude.{
  ◌≡◌, ◌⊎◌, inl, inr, refl, ℕ, zero, suc, ◌+◌, ◌-◌, ◌%◌, ◌^◌, List, [], ◌∷◌, ◌++◌, Option, none,
  some, Text, codes, Map, lookup, text_eq, Bool, true, false, if◌then◌else◌, ltb,
}
use p2p_tests.Prelude.Int.{ℤ, pos, negsuc, to_bits}
use p2p_tests.Prelude.Decimal.{print_int}
use p2p_tests.Utils.Generate.{is_positive}
use p2p_tests.Topology.Errors.{GoError, wrapped, Result, ok, err}
use p2p_tests.Topology.Clusters.{validator_subnet}
use p2p_tests.Topology.Subnets.{subnet_topic}
use p2p_tests.Topology.TopicManager.Interface.{Library}
use p2p_tests.Topology.TopicManager.{Manager, publish}
use p2p_tests.Topology.Listeners.{Start, start_all}

-- What a round does to the test environment, its log messages left out: the latency of the network
-- in milliseconds, with the callback state that is signalled once it is in force, a failure, a point
-- with whether the message was published (its value is the time that took, else -1.0), and a state
-- that is signalled.
pub data Act : Type 0 where
  shapes : ℕ → Text → Act
  fails : GoError → Act
  records : Text → Bool → Act
  signals : Text → Act

-- The variables of the rounds: the node's topic manager, what has been done, the calls of Listen so
-- far, and sendErr.
pub record Sending (State Topic Sub Params : Type 0) : Type 0 where
  pub tm : Manager State Topic Sub Params
  pub acts : List Act
  pub starts : List Start
  pub send_err : Option GoError

-- The failures that the goroutines record whose Subscribe returns an error. One whose loop ends by an
-- error of Next records it later, at any time; these failures are left out.
unfoldable pub listen_failures : List Start → List Act
listen_failures [] = []
listen_failures (st ∷ sts) = elim st.error [
  | none ↦ listen_failures sts
  | some e ↦ fails (wrapped e (codes "could not listen to test topic")) ∷ listen_failures sts
]

-- int32(n) for an int.
unfoldable pub to_int32 : ℤ → ℤ
to_int32 n = let w = to_bits n % 2 ^ 32 in if ltb w (2 ^ 31) then pos w else negsuc (2 ^ 32 - w - 1)

-- rand.Int31n(int32(latencyMax)), where `drawn` is what it returns; `none` is its panic.
unfoldable pub round_latency : ℤ → ℕ → Option ℕ
unfolding to_int32
round_latency latency_max drawn = if is_positive (to_int32 latency_max) then some drawn else none

-- The key and the message of a validator.
pub data Prepared : Type 0 where
  bad_key : GoError → Prepared
  bad_message : GoError → Prepared
  ready : Text → Prepared

pub Prepared-cases :
    (p : Prepared)
    → ((e : GoError) × (p ≡ bad_key e))
      ⊎ ((e : GoError) × (p ≡ bad_message e))
      ⊎ ((payload : Text) × (p ≡ ready payload))
Prepared-cases (bad_key e) = inl (e, refl)
Prepared-cases (bad_message e) = inr (inl (e, refl))
Prepared-cases (ready payload) = inr (inr (payload, refl))

-- m[k] for a map of strings.
abbrev pub or_empty : Option Text → Text
or_empty none = []
or_empty (some t) = t

abbrev pub is_none {ℓ} : {A : Type ℓ} → Option A → Bool
is_none none = true
is_none (some a) = false

abbrev pub group_point : Text → Text → ℕ → Text
group_point gid pk i =
    codes "publish-result,group="
    ++ gid
    ++ codes ",pk="
    ++ pk
    ++ codes ",round="
    ++ print_int (pos i)

abbrev pub subnet_point : ℤ → Text → ℕ → Text
subnet_point sub pk i =
    codes "publish-result,subnet="
    ++ print_int sub
    ++ codes ",pk="
    ++ pk
    ++ codes ",round="
    ++ print_int (pos i)

abbrev pub configured_state : ℕ → Text
configured_state i = codes "network-configured-" ++ print_int (pos i)

abbrev pub done_state : ℕ → Text
done_state i = codes "done-" ++ print_int (pos i)

module _ {State Topic Sub Params Validator TopicOpt SubOpt Peer : Type 0}
    (lib : Library State Topic Sub Params Validator TopicOpt SubOpt Peer)
    (validator : Text → ℤ → Validator) where
  -- Some goroutines come to the Subscribe of their Listen, one after the other.
  unfoldable pub listen_all :
      List Text → Sending State Topic Sub Params → Sending State Topic Sub Params
  listen_all ts s =
      let (tm, sts) = start_all lib validator ts s.tm in
      record s { tm = tm; acts = s.acts ++ listen_failures sts; starts = s.starts ++ sts }

-- The data of a message of the node `name` in round `i` for the validator with the key `pk`.
unfoldable pub message_data : Text → ℕ → Text → Text
message_data name i pk =
    codes "some decided message from "
    ++ name
    ++ codes " i="
    ++ print_int (pos i)
    ++ codes ",pk="
    ++ pk

module _ {M : Type 0} (decode_hex : Text → Result Text) (ssv_message : Text → Text → M)
    (encode : M → Result Text) (name : Text) where
  -- The message that the node `name` sends in round `i` for the validator with the key `pk`, which
  -- is `raw` in bytes.
  unfoldable pub message_of : ℕ → Text → Text → M
  unfolding message_data
  message_of i pk raw = ssv_message raw (message_data name i pk)

  -- The beginning of the loop's body.
  unfoldable pub prepare : ℕ → Text → Prepared
  prepare i pk = elim (decode_hex pk) [
    | err e ↦ bad_key e
    | ok raw ↦ elim (encode (message_of i pk raw)) [
      | err e ↦ bad_message e
      | ok payload ↦ ready payload
    ]
  ]

  module _ {State Topic Sub Params Validator TopicOpt SubOpt Peer : Type 0}
      (lib : Library State Topic Sub Params Validator TopicOpt SubOpt Peer)
      (validator : Text → ℤ → Validator) (id : Text) where
    -- The end of the body of runGroups, with the outcome of Publish.
    unfoldable pub report_group :
        Text
        → Text
        → ℕ
        → Manager State Topic Sub Params × Option GoError
        → Sending State Topic Sub Params
        → Sending State Topic Sub Params
    report_group gid pk i (tm, none) s = record s {
      tm = tm;
      acts = s.acts ++ records (group_point gid pk i) true ∷ [];
    }
    report_group gid pk i (tm, some e) s = record s {
      tm = tm;
      acts =
          s.acts
          ++ fails (
              wrapped e (
                codes "could not publish message on topic "
                ++ codes "test."
                ++ gid
                ++ codes " from peer "
                ++ id))
            ∷ records (group_point gid pk i) false
            ∷ [];
    }

    -- The body of the loop of runGroups.
    unfoldable pub send_group :
        Map Text Text → ℕ → Text → Sending State Topic Sub Params → Sending State Topic Sub Params
    send_group validator_groups i pk s = elim (prepare i pk) [
      | bad_key e ↦ record s {
        acts = s.acts ++ fails (wrapped e (codes "could not listen to test topic")) ∷ [];
      }
      | bad_message e ↦ record s {
        acts = s.acts ++ fails (wrapped e (codes "could not parse message")) ∷ [];
        send_err = some e;
      }
      | ready payload ↦
          let gid = or_empty (lookup pk validator_groups) in
          report_group gid pk i (publish lib validator (codes "test." ++ gid) payload s.tm) s
    ]

    -- The loop over the validators; `late j` subscribe before the publication at the place `j`.
    unfoldable pub send_groups :
        Map Text Text
        → ℕ
        → (ℕ → List Text)
        → List Text
        → Sending State Topic Sub Params
        → Sending State Topic Sub Params
    unfolding listen_all
    send_groups validator_groups i late [] s = listen_all lib validator (late 0) s
    send_groups validator_groups i late (pk ∷ pks) s =
        send_groups validator_groups i (λ j. late (suc j)) pks
          (send_group validator_groups i pk (listen_all lib validator (late 0) s))

    -- `n` rounds from the round `i` on; `none` is a panic. `sync` says whether the call that waits for
    -- a state, MustConfigureNetwork or MustSignalAndWait, returns; the others panic.
    unfoldable pub group_rounds :
        Map Text Text
        → ℤ
        → (ℕ → ℕ)
        → (Text → Bool)
        → (ℕ → ℕ → List Text)
        → List Text
        → ℕ
        → ℕ
        → Sending State Topic Sub Params
        → Option (Sending State Topic Sub Params)
    group_rounds validator_groups latency_max draw sync late pks zero i s = some s
    group_rounds validator_groups latency_max draw sync late pks (suc n) i s =
        elim (round_latency latency_max (draw i)) [
          | none ↦ none
          | some latency ↦
              let sent =
                send_groups validator_groups i (late i) pks
                  (record s { acts = s.acts ++ shapes latency (configured_state i) ∷ [] }) in
              elim (sync (configured_state i)) [
                | false ↦ none
                | true ↦ elim (sync (done_state i)) [
                  | false ↦ none
                  | true ↦
                      group_rounds validator_groups latency_max draw sync late pks n (suc i)
                        (record sent { acts = sent.acts ++ signals (done_state i) ∷ [] })
                ]
              ]
        ]

    -- The end of the body of runSubnets.
    unfoldable pub report_subnet :
        ℤ
        → Text
        → ℕ
        → Manager State Topic Sub Params × Option GoError
        → Sending State Topic Sub Params
        → Sending State Topic Sub Params
    report_subnet sub pk i (tm, e) s = record s {
      tm = tm;
      acts = s.acts ++ records (subnet_point sub pk i) (is_none e) ∷ [];
    }

    -- The body of the loop of runSubnets; `none` is the panic of ValidatorSubnet.
    unfoldable pub send_subnet :
        ℕ → ℕ → Text → Sending State Topic Sub Params → Option (Sending State Topic Sub Params)
    send_subnet subnets_count i pk s = elim (prepare i pk) [
      | bad_key e ↦ some (record s {
        acts = s.acts ++ fails (wrapped e (codes "could not listen to test topic")) ∷ [];
      })
      | bad_message e ↦ some (record s { send_err = some e })
      | ready payload ↦ elim (validator_subnet pk subnets_count) [
        | none ↦ none
        | some sub ↦
            some (report_subnet sub pk i (publish lib validator (subnet_topic sub) payload s.tm) s)
      ]
    ]

    unfoldable pub send_subnets :
        ℕ
        → ℕ
        → (ℕ → List Text)
        → List Text
        → Sending State Topic Sub Params
        → Option (Sending State Topic Sub Params)
    unfolding listen_all
    send_subnets subnets_count i late [] s = some (listen_all lib validator (late 0) s)
    send_subnets subnets_count i late (pk ∷ pks) s =
        elim (send_subnet subnets_count i pk (listen_all lib validator (late 0) s)) [
          | none ↦ none
          | some s' ↦ send_subnets subnets_count i (λ j. late (suc j)) pks s'
        ]

    unfoldable pub subnet_rounds :
        ℕ
        → ℤ
        → (ℕ → ℕ)
        → (Text → Bool)
        → (ℕ → ℕ → List Text)
        → List Text
        → ℕ
        → ℕ
        → Sending State Topic Sub Params
        → Option (Sending State Topic Sub Params)
    subnet_rounds subnets_count latency_max draw sync late pks zero i s = some s
    subnet_rounds subnets_count latency_max draw sync late pks (suc n) i s =
        elim (round_latency latency_max (draw i)) [
          | none ↦ none
          | some latency ↦ elim (sync (configured_state i)) [
            | false ↦ none
            | true ↦
                elim (send_subnets subnets_count i (late i) pks
                  (record s { acts = s.acts ++ shapes latency (configured_state i) ∷ [] })) [
                    | none ↦ none
                    | some sent ↦ elim (sync (done_state i)) [
                      | false ↦ none
                      | true ↦
                          subnet_rounds subnets_count latency_max draw sync late pks n (suc i)
                            (record sent { acts = sent.acts ++ signals (done_state i) ∷ [] })
                    ]
                  ]
          ]
        ]
