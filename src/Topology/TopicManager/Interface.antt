-- ===== src/Topology/TopicManager/Interface.antt =====
-- The part of go-libp2p-pubsub that the topic manager calls, as an interface, and what the manager
-- may rely on: the documentation of Join says that a topic is joined at most once, and Close leaves
-- it; no other call joins or leaves a topic.
use p2p_tests.Prelude.{
  ◌≡◌, refl, ◌⊎◌, inl, inr, List, Option, Text, ◌==◌, text_eq, is_some, Bool, true, false,
  if◌then◌else◌,
}
use p2p_tests.Topology.Errors.{GoError, Result, ok, err}

-- A call gives the library's new state and its result. UnregisterTopicValidator's error is dropped
-- by the program, so it is not in the interface.
pub record Library (State Topic Sub Params Validator TopicOpt SubOpt Peer : Type 0) : Type 0 where
  pub join : Text → List TopicOpt → State → State × Result Topic
  pub set_score_params : Topic → Params → State → State × Option GoError
  pub unregister_validator : Text → State → State
  pub register_validator : Text → Validator → State → State × Option GoError
  pub subscribe : Topic → List SubOpt → State → State × Result Sub
  pub cancel : Sub → State → State
  pub close : Topic → State → State × Option GoError
  pub publish : Topic → Text → State → State × Option GoError
  pub list_peers : Topic → State → List Peer

abbrev pub is_ok {ℓ} : {A : Type ℓ} → Result A → Bool
is_ok (ok a) = true
is_ok (err e) = false

-- `joined s t`: the library holds the topic `t`. `name h` is the topic of a handle.
pub record Joining {State Topic Sub Params Validator TopicOpt SubOpt Peer : Type 0}
    (lib : Library State Topic Sub Params Validator TopicOpt SubOpt Peer)
    (joined : State → Text → Bool) (name : Topic → Text) : Type 0 where
  -- Join fails for a topic that is joined, and joins the topic if it succeeds.
  pub join_joined :
      (t : Text) (o : List TopicOpt) (s : State)
      → joined s t ≡ true
      → is_ok (lib.join t o s).1 ≡ false
  pub join_kept :
      (t : Text) (o : List TopicOpt) (s : State) (u : Text)
      → joined (lib.join t o s).0 u
        ≡ (if is_ok (lib.join t o s).1 then (if u == t then true else joined s u) else joined s u)
  pub join_name :
      (t : Text) (o : List TopicOpt) (s : State) (h : Topic)
      → (lib.join t o s).1 ≡ ok h
      → name h ≡ t
  -- Close leaves its handle's topic, unless it fails.
  pub close_kept :
      (h : Topic) (s : State) (u : Text)
      → joined (lib.close h s).0 u ≡ (
          if is_some (lib.close h s).1
          then joined s u
          else (if u == name h then false else joined s u))
  -- The other calls leave all topics as they are.
  pub score_kept :
      (h : Topic) (p : Params) (s : State) (u : Text)
      → joined (lib.set_score_params h p s).0 u ≡ joined s u
  pub unregister_kept :
      (t : Text) (s : State) (u : Text) → joined (lib.unregister_validator t s) u ≡ joined s u
  pub register_kept :
      (t : Text) (v : Validator) (s : State) (u : Text)
      → joined (lib.register_validator t v s).0 u ≡ joined s u
  pub subscribe_kept :
      (h : Topic) (o : List SubOpt) (s : State) (u : Text)
      → joined (lib.subscribe h o s).0 u ≡ joined s u
  pub cancel_kept : (b : Sub) (s : State) (u : Text) → joined (lib.cancel b s) u ≡ joined s u
  pub publish_kept :
      (h : Topic) (d : Text) (s : State) (u : Text) → joined (lib.publish h d s).0 u ≡ joined s u

pub Result-cases {ℓ} :
    {A : Type ℓ} (r : Result A) → ((a : A) × (r ≡ ok a)) ⊎ ((e : GoError) × (r ≡ err e))
Result-cases (ok a) = inl (a, refl)
Result-cases (err e) = inr (e, refl)
