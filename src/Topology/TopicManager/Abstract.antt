-- ===== src/Topology/TopicManager/Abstract.antt =====
-- What the manager promises, as an abstract machine: each topic is absent, joined or subscribed, and
-- a call moves the topic that it names. The manager's maps and the library are forgotten.
use p2p_tests.Prelude.{
  ◌≡◌, ◌≢◌, refl, List, [], ◌∷◌, Option, none, some, Text, Map, lookup, lookup-insert, ◌==◌,
  text_eq, Bool, true, false, arith,
}
use p2p_tests.Topology.TopicManager.Maps.{insert_some}
use p2p_tests.Topology.TopicManager.History.{Call, joins, leaves, subscribes, publishes, IsCovered}

pub data Status : Type 0 where
  absent joined subscribed : Status

pub data Kind : Type 0 where
  joining leaving subscribing publishing : Kind

-- How a call may move the topic that it names; the Boolean says whether it returns an error.
pub data Move : Kind → Bool → Status → Status → Type 0 where
  join_new : Move joining false absent joined
  join_old : (s : Status) → s ≢ absent → Move joining false s s
  join_refused : Move joining true absent absent
  leave_any : (failed : Bool) (s : Status) → Move leaving failed s absent
  subscribe_any : (s : Status) → Move subscribing false s subscribed
  subscribe_refused : (s : Status) → s ≢ subscribed → Move subscribing true s s
  -- The topic was joined on the way, and its subscription refused.
  subscribe_half : Move subscribing true absent joined
  publish_any : (failed : Bool) (s : Status) → s ≢ absent → Move publishing failed s s
  publish_unknown : Move publishing true absent absent

abbrev pub kind_of : {TopicOpt SubOpt : Type 0} → Call TopicOpt SubOpt → Kind
kind_of (joins t opts) = joining
kind_of (leaves t) = leaving
kind_of (subscribes t opts) = subscribing
kind_of (publishes t payload) = publishing

abbrev pub topic_of : {TopicOpt SubOpt : Type 0} → Call TopicOpt SubOpt → Text
topic_of (joins t opts) = t
topic_of (leaves t) = t
topic_of (subscribes t opts) = t
topic_of (publishes t payload) = t

-- A step of the abstract machine: the named topic moves, and no other.
abbrev pub Step :
    {TopicOpt SubOpt : Type 0}
    → (Text → Status)
    → Call TopicOpt SubOpt
    → Bool
    → (Text → Status)
    → Type 0
Step v c failed v' =
    Move (kind_of c) failed (v (topic_of c)) (v' (topic_of c))
    × ((u : Text) → (u == topic_of c) ≡ false → v' u ≡ v u)

pub data Steps {TopicOpt SubOpt : Type 0}
    : (Text → Status) → List (Call TopicOpt SubOpt × Bool) → (Text → Status) → Type 0 where
  stay : {v : Text → Status} → Steps v [] v
  go :
      {v v' v'' : Text → Status} {cs : List (Call TopicOpt SubOpt × Bool)}
      (c : Call TopicOpt SubOpt) (failed : Bool)
      → Step v c failed v'
      → Steps v' cs v''
      → Steps v ((c, failed) ∷ cs) v''

abbrev pub status_of : {Topic Sub : Type 0} → Option Topic → Option Sub → Status
status_of none sub = absent
status_of (some h) none = joined
status_of (some h) (some s) = subscribed

-- A move between statuses that are known by equations.
pub moved :
    {k : Kind} {failed failed' : Bool} {s s' v v' : Status}
    → failed' ≡ failed
    → v ≡ s
    → v' ≡ s'
    → Move k failed s s'
    → Move k failed' v v'
moved p q r m = rw (p, q, r) m

pub status_of-ne-absent :
    {Topic Sub : Type 0} (h : Topic) (sub : Option Sub) → status_of (some h) sub ≢ absent
status_of-ne-absent h none e = cc
status_of-ne-absent h (some s) e = cc

pub lookup_self :
    {A : Type 0} (t : Text) (a : A) (m : Map Text A) → lookup t (insert_some t (some a) m) ≡ some a
lookup_self t a m = rw (lookup-insert t t a m, (text_eq.beq_iff t t).1 refl) refl

-- A topic that is not joined has no subscription, and one with a subscription is joined.
pub no_sub :
    {Topic Sub : Type 0} (t : Text) (topics : Map Text Topic) (subs : Map Text Sub)
    → IsCovered topics subs
    → lookup t topics ≡ none
    → lookup t subs ≡ none
no_sub t topics subs c gone = ground (arith, c t)
