-- ===== src/Tests/Manager.antt =====
-- plans/topology/topic_manager.go over a small library: its state is the list of the joined topics,
-- handles are names, and the validator of the topic "bad" is refused.
use p2p_tests.Prelude.{
  ℕ, ◌≡◌, refl, List, [], ◌∷◌, Text, codes, none, some, Bool, true, false, if◌then◌else◌, any, keep,
  not, ◌==◌, text_eq, text_beq, lookup, is_some, arith, inl, inr, Bool-cases,
}
use p2p_tests.Prelude.Int.{ℤ, pos}
use p2p_tests.Topology.Errors.{external, ok, err}
use p2p_tests.Topology.TopicManager.Interface.{Library, Joining, is_ok}
use p2p_tests.Topology.TopicManager.{
  Manager, new_topic_manager, join, join_topic, set_scoring, set_validator, leave, subscribe,
  publish, list_peers, not_found, open_sub, after_join,
}
use p2p_tests.Topology.TopicManager.History.{
  Call, joins, leaves, subscribes, run, IsCovered, run-new_topic_manager-IsCovered,
}
use p2p_tests.Topology.TopicManager.Idempotence.{publish-leave}
use p2p_tests.Topology.TopicManager.Abstract.{Steps}
use p2p_tests.Topology.TopicManager.Refinement.{view, outcomes, run-Steps}
use p2p_tests.Topology.TopicManager.RoundTrip.{leave-subscribe}
use p2p_tests.Topology.TopicManager.Persistence.{run-join_topic_fails}

-- Whether a topic is joined.
abbrev holds : List Text → Text → Bool
holds s t = any (λ u. t == u) s

abbrev refused : Text
refused = codes "bad"

abbrev pub small_library : Library (List Text) Text Text ℕ Text ℕ ℕ ℕ
small_library = record {
  join = λ t o s. if holds s t then (s, err (external t)) else (t ∷ s, ok t);
  set_score_params = λ h p s. (s, none);
  unregister_validator = λ t s. s;
  register_validator = λ t v s. if t == refused then (s, some (external t)) else (s, none);
  subscribe = λ h o s. (s, ok h);
  cancel = λ b s. s;
  close = λ h s. (keep (λ u. not (u == h)) s, none);
  publish = λ h d s. (s, none);
  list_peers = λ h s. [];
}

abbrev pub named_validator : Text → ℤ → Text
named_validator t latency = t

holds-keep :
    (h u : Text) (s : List Text)
    → holds (keep (λ v. not (v == h)) s) u ≡ (if u == h then false else holds s u)
holds-keep h u [] = ground arith
holds-keep h u (v ∷ s) =
    ground (arith, holds-keep h u s, text_eq.beq_iff u v, text_eq.beq_iff u h, text_eq.beq_iff v h)

small_library-join :
    (t : Text) (o : List ℕ) (s : List Text) (u : Text)
    → holds (small_library.join t o s).0 u ≡ (
        if is_ok (small_library.join t o s).1
        then (if u == t then true else holds s u)
        else holds s u)
small_library-join t o s u = elim (Bool-cases (holds s t)) [ inl e ↦ rw e refl | inr e ↦ rw e refl ]

small_library-register :
    (t : Text) (v : Text) (s : List Text) (u : Text)
    → holds (small_library.register_validator t v s).0 u ≡ holds s u
small_library-register t v s u = elim (Bool-cases (t == refused)) [
  | inl e ↦ rw e refl
  | inr e ↦ rw e refl
]

small_library-name :
    (t : Text) (o : List ℕ) (s : List Text) (h : Text) → (small_library.join t o s).1 ≡ ok h → h ≡ t
small_library-name t o s h e = elim (Bool-cases (holds s t)) [
  | inl j ↦ cc (rw j at e)
  | inr j ↦ cc (rw j at e)
]

small_library-joined :
    (t : Text) (o : List ℕ) (s : List Text)
    → holds s t ≡ true
    → is_ok (small_library.join t o s).1 ≡ false
small_library-joined t o s h = rw h refl

small_library-Joining : Joining small_library holds (λ h. h)
small_library-Joining = record {
  join_joined = small_library-joined;
  join_kept = small_library-join;
  join_name = small_library-name;
  close_kept = λ h s u. holds-keep h u s;
  score_kept = λ h p s u. refl;
  unregister_kept = λ t s u. refl;
  register_kept = small_library-register;
  subscribe_kept = λ h o s u. refl;
  cancel_kept = λ b s u. refl;
  publish_kept = λ h d s u. refl;
}

abbrev pub fresh_manager : Manager (List Text) Text Text ℕ
fresh_manager = record {
  ps = [];
  topics = [];
  subs = [];
  score_params = λ t. none;
  validation_latency = pos 5;
}

abbrev later_calls : List (Call ℕ ℕ)
later_calls = joins (codes "good") [] ∷ leaves refused ∷ subscribes refused [] ∷ []

refused_join : join small_library named_validator refused [] fresh_manager ≡ (
  record fresh_manager { ps = refused ∷ [] },
  some refused,
  (join small_library named_validator refused [] fresh_manager).2,
)
unfolding join join_topic set_scoring set_validator lookup text_beq
refused_join = refl

refused_topic : is_some (join small_library named_validator refused [] fresh_manager).1 ≡ true
unfolding join join_topic set_scoring set_validator lookup text_beq
refused_topic = refl

refused_error : is_some (join small_library named_validator refused [] fresh_manager).2 ≡ true
unfolding join join_topic set_scoring set_validator lookup text_beq
refused_error = refl

nothing_there : lookup refused fresh_manager.topics ≡ none
unfolding lookup
nothing_there = refl

run-join_topic_fails_example :
    let later =
      run small_library named_validator
        (join small_library named_validator refused [] fresh_manager).0
        later_calls in
    (is_some (join small_library named_validator refused [] later).2 ≡ true)
    × (is_some (subscribe small_library named_validator refused [] later).3 ≡ true)
    × ((publish small_library named_validator refused (codes "m") later).1
        ≡ some (not_found refused))
unfolding lookup
run-join_topic_fails_example =
    run-join_topic_fails small_library named_validator holds (λ h. h) small_library-Joining refused
      (codes "m") [] [] [] fresh_manager later_calls nothing_there nothing_there (λ u h e. cc)
      refused_topic refused_error

run-new_topic_manager-IsCovered_example :
    let tm =
      run small_library named_validator
        (new_topic_manager {Sub = Text} [] none (pos 5))
        later_calls in
    IsCovered tm.topics tm.subs
run-new_topic_manager-IsCovered_example =
    run-new_topic_manager-IsCovered small_library named_validator [] none (pos 5) later_calls

good_join : (join small_library named_validator (codes "good") [] fresh_manager).2 ≡ none
unfolding join join_topic set_scoring set_validator lookup text_beq
good_join = refl

good_subscribe : (subscribe small_library named_validator (codes "good") [] fresh_manager).3 ≡ none
unfolding subscribe after_join open_sub join_topic set_scoring set_validator lookup text_beq
good_subscribe = refl

abbrev joined_manager : Manager (List Text) Text Text ℕ
joined_manager = record fresh_manager {
  ps = codes "good" ∷ [];
  topics = (codes "good", codes "good") ∷ [];
}

publish-leave_example :
    let tm = (leave small_library named_validator (codes "good") joined_manager).0 in
    (publish small_library named_validator (codes "good") (codes "m") tm
      ≡ (tm, some (not_found (codes "good"))))
    × (list_peers small_library named_validator (codes "good") tm ≡ [])
publish-leave_example =
    publish-leave small_library named_validator (codes "good") (codes "m") joined_manager

abbrev round_trip : List (Call ℕ ℕ)
round_trip = subscribes (codes "good") [] ∷ joins refused [] ∷ leaves (codes "good") ∷ []

run-Steps_example :
    Steps
      (view small_library named_validator fresh_manager)
      (outcomes small_library named_validator fresh_manager round_trip)
      (view small_library named_validator
        (run small_library named_validator fresh_manager round_trip))
unfolding lookup
run-Steps_example = run-Steps small_library named_validator round_trip fresh_manager (λ u e. cc)

leave-subscribe_example :
    let left =
      (leave small_library named_validator refused
        (subscribe small_library named_validator refused [] fresh_manager).0).0 in
    (lookup refused left.topics ≡ lookup refused fresh_manager.topics)
    × (lookup refused left.subs ≡ lookup refused fresh_manager.subs)
leave-subscribe_example =
    leave-subscribe small_library named_validator refused [] fresh_manager refused nothing_there
      nothing_there
