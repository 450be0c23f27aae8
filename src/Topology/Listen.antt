-- ===== src/Topology/Listen.antt =====
-- plans/topology/pubsub.go: Node.Listen. What the subscription and the context do is a list of
-- rounds; the calls of the node's two handlers are kept in order.
pub mod Handling
use p2p_tests.Prelude.{
  ℕ, List, [], ◌∷◌, ◌++◌, Option, none, some, Text, codes, Bool, true, false, if◌then◌else◌, ◌||◌,
}
use p2p_tests.Topology.Errors.{GoError, message}
use p2p_tests.Topology.Pubsub.{Message, ValidatorData, unset, ssv, foreign}

-- An error of Subscription.Next: the two that the library names, or another.
pub data NextError : Type 0 where
  cancelled topic_closed : NextError
  failing : GoError → NextError

-- What Next returns. A delivered message can be nil.
pub data Next (M : Type 0) : Type 0 where
  delivered : Option (Message M) → Next M
  failed : NextError → Next M

-- One turn of the loop: whether the context is done when the loop tests it, what Next returns, and
-- whether the context is done when that is looked at.
pub record Round (M : Type 0) : Type 0 where
  pub done_before : Bool
  pub next : Next M
  pub done_after : Bool

pub data HandlerCall (M : Type 0) : Type 0 where
  msg_handler : Text → M → HandlerCall M
  err_handler : Text → GoError → HandlerCall M

-- How the call stands: it waits in Next, or it has returned.
pub data Standing : Type 0 where
  listening : Standing
  returned : Option GoError → Standing

abbrev pub empty_message : GoError
empty_message = message (codes "got empty message")

abbrev pub not_converted : GoError
not_converted = message (codes "could not covert message")

module _ {M : Type 0} where
  -- What the loop does with a delivered message.
  unfoldable pub handle : Text → Option (Message M) → HandlerCall M
  handle t none = err_handler t empty_message
  handle t (some pmsg) = elim pmsg.validator_data [
    | unset ↦ err_handler t not_converted
    | foreign ↦ err_handler t not_converted
    | ssv m ↦ msg_handler t m
  ]

  -- What the loop does with an error of Next: the calls, and what Listen returns.
  unfoldable pub stop : Text → NextError → Bool → List (HandlerCall M) × Option GoError
  stop t e true = ([], none)
  stop t cancelled false = ([], none)
  stop t topic_closed false = ([], none)
  stop t (failing e) false = (err_handler t e ∷ [], some e)

  -- The loop, with the calls that were made before.
  unfoldable pub listen_loop :
      Text → List (Round M) → List (HandlerCall M) → List (HandlerCall M) × Standing
  listen_loop t [] calls = (calls, listening)
  listen_loop t (r ∷ rounds) calls = if r.done_before then (calls, returned none) else elim r.next [
    | failed e ↦ let (more, result) = stop t e r.done_after in (calls ++ more, returned result)
    | delivered pmsg ↦ listen_loop t rounds (calls ++ handle t pmsg ∷ [])
  ]

  -- Listen, behind its call of Subscribe, which said whether the subscription is old and whether
  -- there was an error.
  unfoldable pub listen :
      Text → Bool → Option GoError → List (Round M) → List (HandlerCall M) × Standing
  unfolding listen_loop
  listen t exist (some e) rounds = ([], returned (some e))
  listen t true none rounds = ([], returned none)
  listen t false none rounds = listen_loop t rounds []
