-- ===== src/Tests/Runs.antt =====
-- The runs of the test plan at concrete inputs: an instance with one validator, over the small
-- library.
use p2p_tests.Prelude.Decimal.{print_int}
use p2p_tests.Prelude.{text_beq}
use p2p_tests.Prelude.{
  ℕ, zero, suc, ◌≡◌, ◌≤◌, refl, List, [], ◌∷◌, ◌++◌, Text, codes, none, some, ◌==◌, text_eq,
  text_beq, true, false, if◌then◌else◌, lookup, insert, is_some, Map, In, inl, inr, All,
}
use p2p_tests.Prelude.Int.{ℤ, pos, to_bits, to_int}
use p2p_tests.Prelude.Sort.{sort_ints}
use p2p_tests.Prelude.Decimal.{print_int}
use p2p_tests.Utils.Group.{join_ints}
use p2p_tests.Utils.Generate.{is_positive}
use p2p_tests.Topology.Errors.{external, Result, ok, err}
use p2p_tests.Topology.Clusters.{cluster_id, validator_subnet, hex_digit}
use p2p_tests.Topology.Assignment.{assign, visit_share, take_share, is_member, increment}
use p2p_tests.Topology.TopicManager.{
  subscribe, after_join, open_sub, join_topic, set_scoring, set_validator,
}
use p2p_tests.Topology.TopicManager.History.{IsCovered}
use p2p_tests.Topology.Listeners.{group_topics, start_listen, start_all}
use p2p_tests.Topology.Listeners.Once.{loops, IsClean, start_all-once}
use p2p_tests.Topology.Sending.{
  message_data, message_of, prepare, ready, send_group, report_group, or_empty, Sending, listen_all,
  to_int32, send_groups, group_rounds,
}
use p2p_tests.Topology.Sending.Effects.{points, last_or, all_errors}
use p2p_tests.Topology.Sending.Groups.{group_rounds-sends}
use p2p_tests.Topology.Sending.Groups
use p2p_tests.Topology.Sending.Subnets.{subnet_rounds-sends}
use p2p_tests.Topology.Sending.Subnets
use p2p_tests.Topology.Run.{RunParams, nothing_sent, read_settings}
use p2p_tests.Topology.Run.Known.{answer, topic_of, group_rounds-joined}
use p2p_tests.Topology.Instances.{round_moves}
use p2p_tests.Topology.Instances.Posted.{names}
use p2p_tests.Topology.Instances.Performed.{act_names, group_rounds-names}
use p2p_tests.Topology.Sending.Missed.{published, group_rounds-misses}
use p2p_tests.Tests.Manager.{small_library, named_validator, fresh_manager}
use p2p_tests.Tests.Plan.{two_clusters, key_a, key_b, key_a_is_mine}

abbrev pub decode_key : Text → Result Text
decode_key pk = if pk == [] then err (external (codes "empty")) else ok pk

abbrev pub message : Text → Text → Text
message raw payload = payload

-- The library refuses to encode a message of the node "silent".
abbrev pub encoded : Text → Result Text
encoded m = if m == codes "silent" then err (external (codes "silent")) else ok m

abbrev pub me : Text
me = codes "me"

fresh_manager-IsCovered : IsCovered fresh_manager.topics fresh_manager.subs
unfolding lookup
fresh_manager-IsCovered u e = cc

abbrev my_topics : List Text
my_topics = codes "test.10_12_60_88" ∷ codes "test.10_12_60_88" ∷ []

no_subscription : lookup (codes "test.10_12_60_88") fresh_manager.subs ≡ none
unfolding lookup
no_subscription = refl

start_all-once_example :
    let sts = (start_all small_library named_validator my_topics fresh_manager).1 in
    (loops (codes "test.10_12_60_88") sts ≤ 1)
    × (In (codes "test.10_12_60_88") my_topics
        → All IsClean sts
        → loops (codes "test.10_12_60_88") sts ≡ 1)
start_all-once_example =
    start_all-once small_library named_validator (codes "test.10_12_60_88") my_topics fresh_manager
      no_subscription

my_groups : group_topics (assign 12 two_clusters).my_groups ≡ codes "test.10_12_60_88" ∷ []
unfolding group_topics assign visit_share take_share is_member increment lookup insert text_beq
    cluster_id join_ints sort_ints to_int print_int
my_groups = refl

In-my_topics : (t : Text) → In t (group_topics (assign 12 two_clusters).my_groups) → In t my_topics
In-my_topics t h = elim (rw my_groups at h) [ inl e ↦ inl e | inr bad ↦ absurd bad ]

All-IsClean : All IsClean (start_all small_library named_validator my_topics fresh_manager).1
unfolding start_all start_listen subscribe after_join open_sub join_topic set_scoring set_validator
    lookup insert text_beq
All-IsClean = (refl, (refl, tt))

fifty : is_positive (to_int32 (pos 50)) ≡ true
unfolding to_int32 to_bits
fifty = refl

-- Another call of Listen comes after the first publication.
abbrev pub late : ℕ → ℕ → List Text
late i zero = []
late i (suc j) = codes "test.10_12_60_88" ∷ []

key_a-ready : prepare decode_key message encoded me 1 key_a ≡ ready (message_data me 1 key_a)
unfolding prepare message_of message_data text_beq print_int
key_a-ready = refl

group_rounds-joined_example :
    let a = assign 12 two_clusters in
    let started = listen_all small_library named_validator my_topics (nothing_sent fresh_manager) in
    (s : Sending (List Text) Text Text ℕ) × (group_rounds decode_key message encoded me
        small_library named_validator me a.validator_groups
        (pos 50)
        (λ i. 7)
        (λ state. true)
        late
        a.my_validators
        1
        0
        started
      ≡ some s)
    × (let p =
          send_groups decode_key message encoded me small_library named_validator me
            a.validator_groups 1
            (late 1)
            (key_a ∷ [])
            s in
        (topic : Text) × (lookup (topic_of a.validator_groups key_a) p.tm.topics ≡ some topic)
        × (send_group decode_key message encoded me small_library named_validator me
              a.validator_groups 1 key_a p
            ≡ report_group decode_key message encoded me small_library named_validator me
                (or_empty (lookup key_a a.validator_groups))
                key_a
                1
                (answer decode_key message encoded me small_library named_validator me topic
                  (message_data me 1 key_a)
                  p.tm)
                p))
group_rounds-joined_example =
    group_rounds-joined decode_key message encoded me small_library named_validator me 12
      two_clusters my_topics fresh_manager (pos 50) (λ i. 7) (λ state. true) late 1 1 (key_a ∷ [])
      key_a (message_data me 1 key_a) fresh_manager-IsCovered In-my_topics All-IsClean fifty
      (λ state. refl) key_a_is_mine key_a-ready

abbrev sending : Sending (List Text) Text Text ℕ
sending = nothing_sent fresh_manager

abbrev only_subnet : Text → ℤ
only_subnet pk = pos 90

key_a-AreSubnets : Subnets.AreSubnets 128 only_subnet (key_a ∷ [])
unfolding validator_subnet hex_digit to_int
key_a-AreSubnets = (refl, tt)

abbrev pub no_params : RunParams
no_params = record { is_set = λ p. false; string_param = λ p. []; int_param = λ p. pos 0 }

pub default_latency : is_positive (to_int32 (read_settings no_params).latency_max) ≡ true
unfolding read_settings to_int32 to_bits
default_latency = refl

abbrev groups_of_a : Map Text Text
groups_of_a = (key_a, codes "10_12_60_88") ∷ []

no_topic : lookup (codes "test." ++ or_empty (lookup key_a groups_of_a)) sending.tm.topics ≡ none
unfolding lookup
no_topic = refl

group_rounds-misses_example :
    (s' : Sending (List Text) Text Text ℕ) × (group_rounds decode_key message encoded me
        small_library named_validator me groups_of_a
        (pos 50)
        (λ i. 7)
        (λ state. true)
        (λ r j. [])
        (key_a ∷ [])
        1
        0
        sending
      ≡ some s')
    × (published s'.acts ≡ published sending.acts)
    × (s'.tm ≡ fresh_manager)
group_rounds-misses_example =
    group_rounds-misses decode_key message encoded me small_library named_validator me groups_of_a
      (pos 50) (λ i. 7) (λ state. true) (key_a ∷ []) 1 0 sending fifty (λ state. refl)
      (no_topic, tt)

-- The state after two rounds.
abbrev two_rounds :
    (s' : Sending (List Text) Text Text ℕ) × (group_rounds decode_key message encoded me
        small_library named_validator me []
        (pos 50)
        (λ i. 7)
        (λ state. true)
        late
        (key_a ∷ [] ∷ key_b ∷ [])
        2
        0
        sending
      ≡ some s')
    × (points s'.acts
        ≡ [] ++ Groups.all_points decode_key message encoded me [] (key_a ∷ [] ∷ key_b ∷ []) 2 0)
    × (s'.send_err
        ≡ last_or none (all_errors decode_key message encoded me (key_a ∷ [] ∷ key_b ∷ []) 2 0))
    × ((u : Text)
        → is_some (lookup u fresh_manager.topics) ≡ true
        → is_some (lookup u s'.tm.topics) ≡ true)
two_rounds =
    group_rounds-sends decode_key message encoded me small_library named_validator me [] (pos 50)
      (λ i. 7) (λ state. true) late (key_a ∷ [] ∷ key_b ∷ []) 2 0 sending fifty (λ state. refl)

group_rounds-names_example :
    act_names two_rounds.0.acts ≡ act_names sending.acts ++ names (round_moves 2 0)
group_rounds-names_example =
    group_rounds-names decode_key message encoded me small_library named_validator me [] (pos 50)
      (λ i. 7) (λ state. true) late (key_a ∷ [] ∷ key_b ∷ []) 2 0 sending two_rounds.0 two_rounds.1
