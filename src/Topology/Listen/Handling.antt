-- ===== src/Topology/Listen/Handling.antt =====
-- Every message that Listen receives leads to exactly one call of a handler, and what stops it.
use p2p_tests.Prelude.{
  ◌≡◌, ◌⊎◌, inl, inr, ◌∙◌, refl, sym, ap, List, [], ◌∷◌, ◌++◌, append_assoc, append-nil, map,
  Option, none, some, Text, Bool, true, false, arith,
}
use p2p_tests.Prelude.Int.{ℤ}
use p2p_tests.Topology.Errors.{GoError, Result, ok}
use p2p_tests.Topology.Pubsub.{Message, accept, msg_validator, decode_msg}
use p2p_tests.Topology.Listen.{
  Round, Next, NextError, cancelled, topic_closed, failing, err_handler, delivered, failed,
  HandlerCall, msg_handler, listening, returned, handle, stop, listen_loop, listen,
}

-- What an error of Next leads to.
abbrev pub Stops : Type 0 → Text → NextError → Bool → Type 0
Stops M t e after =
    (((after ≡ true) ⊎ (e ≡ cancelled) ⊎ (e ≡ topic_closed))
      × (stop {M = M} t e after ≡ ([], none)))
    ⊎ ((c : GoError) × (e ≡ failing c)
        × (after ≡ false)
        × (stop {M = M} t e after ≡ (err_handler t c ∷ [], some c)))

module _ {M : Type 0} where
  -- A round in which the context is not done and a message, perhaps nil, is delivered.
  abbrev pub delivery : Option (Message M) → Bool → Round M
  delivery pmsg after = record { done_before = false; next = delivered pmsg; done_after = after }

  abbrev pub deliveries : List (Option (Message M) × Bool) → List (Round M)
  deliveries ds = map (λ d. delivery d.0 d.1) ds

  listen_loop-append :
      (t : Text) (ds : List (Option (Message M) × Bool)) (rest : List (Round M))
      (calls : List (HandlerCall M))
      → listen_loop t (deliveries ds ++ rest) calls
        ≡ listen_loop t rest (calls ++ map (λ d. handle t d.0) ds)
  unfolding listen_loop
  listen_loop-append t [] rest calls = rw append-nil refl
  listen_loop-append t (d ∷ ds) rest calls =
      listen_loop-append t ds rest (calls ++ handle t d.0 ∷ []) ∙ rw append_assoc refl

  stop-Stops : (t : Text) (e : NextError) (after : Bool) → Stops M t e after
  unfolding stop
  stop-Stops t e true = inl (inl refl, refl)
  stop-Stops t cancelled false = inl (inr (inl refl), refl)
  stop-Stops t topic_closed false = inl (inr (inr refl), refl)
  stop-Stops t (failing c) false = inr (c, refl, refl, refl)

  -- Listen on a new subscription calls one handler for each message that comes, in the order in
  -- which they come, and listens on; it returns at the first round in which the context is done or
  -- Next fails, without looking at what comes after. When Next fails, `stop` says what is reported
  -- and returned: nothing if the context is done, the subscription cancelled or the topic closed,
  -- and any other error to the error handler and to the caller.
  pub listen-handles :
      (t : Text) (ds : List (Option (Message M) × Bool)) (rest : List (Round M)) (n : Next M)
      (e : NextError) (after : Bool)
      → let calls = map (λ d. handle t d.0) ds in
        (listen t false none (deliveries ds) ≡ (calls, listening))
        × (listen t false none
              (deliveries ds ++ record { done_before = true; next = n; done_after = after } ∷ rest)
            ≡ (calls, returned none))
        × (listen t false none (
              deliveries ds
              ++ record { done_before = false; next = failed e; done_after = after } ∷ rest)
            ≡ (calls ++ (stop {M = M} t e after).0, returned (stop {M = M} t e after).1))
        × Stops M t e after
  unfolding listen listen_loop
  listen-handles t ds rest n e after = (
    ap (λ rs. listen_loop t rs []) (sym (append-nil (deliveries ds)))
        ∙ listen_loop-append t ds [] [],
    listen_loop-append t ds _ [],
    listen_loop-append t ds _ [],
    stop-Stops t e after,
  )

  -- A message that msgValidator has accepted is handed to the message handler in its decoded form.
  pub handle-msg_validator :
      (decode : Text → Result M) (t topic_name : Text) (latency : ℤ) (pmsg : Message M) (m : M)
      → (msg_validator decode topic_name latency pmsg).verdict ≡ accept
      → decode pmsg.payload ≡ ok m
      → handle t (some (msg_validator decode topic_name latency pmsg).message) ≡ msg_handler t m
  unfolding handle msg_validator decode_msg
  handle-msg_validator decode t topic_name latency pmsg m h d = ground (arith, h, d)
