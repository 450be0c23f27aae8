-- ===== src/Topology/Tracer/Delivery.antt =====
-- Which events reach the two tracers and the metrics, over any interleaving of the goroutines.
use p2p_tests.Prelude.{
  ◌+◌, ◌≤◌, ◌≡◌, ◌∙◌, refl, sym, ap, List, [], ◌∷◌, ◌++◌, append_assoc, append-nil, Bool,
  if◌then◌else◌, length, length-append, keep, any, ltb, arith,
}
use p2p_tests.Topology.Tracer.{
  TraceEvent, TestMetrics, handle_event, same_type, filter_trace, whitelist, Tracer,
  channel_capacity, trace, take_event, take_done, stop, Action, traces, takes_event, takes_done,
  stops, step, run,
}
use p2p_tests.Topology.Tracer.Counts.{tally}

-- The events that Trace was called with.
abbrev pub traced : List Action → List TraceEvent
traced [] = []
traced (traces evt ∷ acts) = evt ∷ traced acts
traced (takes_event ∷ acts) = traced acts
traced (takes_done ∷ acts) = traced acts
traced (stops ∷ acts) = traced acts

-- Whether the filtering tracer passes an event on.
abbrev pub is_listed : TraceEvent → Bool
is_listed evt = any (λ typ. same_type evt.type typ) whitelist

-- The events that entered the channel, and those that the loop took out of it.
abbrev enters : Tracer → Action → List TraceEvent
enters s (traces evt) = if ltb (length s.event_ch) channel_capacity then evt ∷ [] else []
enters s takes_event = []
enters s takes_done = []
enters s stops = []

abbrev leaves : Tracer → Action → List TraceEvent
leaves s (traces evt) = []
leaves s takes_event = elim s.event_ch [ [] ↦ [] | evt ∷ rest ↦ if s.running then evt ∷ [] else [] ]
leaves s takes_done = []
leaves s stops = []

abbrev pub entered : Tracer → List Action → List TraceEvent
entered s [] = []
entered s (a ∷ acts) = enters s a ++ entered (step s a) acts

abbrev pub handled : Tracer → List Action → List TraceEvent
handled s [] = []
handled s (a ∷ acts) = leaves s a ++ handled (step s a) acts

step-filtered :
    (s : Tracer) (a : Action) → (step s a).filtered ≡ s.filtered ++ keep is_listed (traced (a ∷ []))
unfolding step trace take_event take_done stop filter_trace
step-filtered s (traces evt) = ground (arith, append-nil s.filtered)
step-filtered s takes_event = ground (arith, append-nil s.filtered)
step-filtered s takes_done = ground (arith, append-nil s.filtered)
step-filtered s stops = ground (arith, append-nil s.filtered)

step-queue :
    (s : Tracer) (a : Action) → s.event_ch ++ enters s a ≡ leaves s a ++ (step s a).event_ch
unfolding step trace take_event take_done stop
step-queue s (traces evt) = ground (arith, append-nil s.event_ch)
step-queue s takes_event = ground (arith, append-nil s.event_ch)
step-queue s takes_done = ground (arith, append-nil s.event_ch)
step-queue s stops = ground (arith, append-nil s.event_ch)

step-metrics : (s : Tracer) (a : Action) → (step s a).metrics ≡ tally s.metrics (leaves s a)
unfolding step trace take_event take_done stop
step-metrics s (traces evt) = refl
step-metrics s takes_event = ground arith
step-metrics s takes_done = ground arith
step-metrics s stops = ground arith

step-bound :
    (s : Tracer) (a : Action)
    → length s.event_ch ≤ channel_capacity
    → length (step s a).event_ch ≤ channel_capacity
unfolding step trace take_event take_done stop
step-bound s (traces evt) h = ground (arith, length-append s.event_ch (evt ∷ []))
step-bound s takes_event h = ground arith
step-bound s takes_done h = ground arith
step-bound s stops h = ground arith

tally-append :
    (m : TestMetrics) (xs ys : List TraceEvent) → tally m (xs ++ ys) ≡ tally (tally m xs) ys
tally-append m [] ys = refl
tally-append m (x ∷ xs) ys = tally-append (handle_event x m) xs ys

-- Whatever the goroutines do, and whether or not events are dropped for the metrics, the filtering
-- tracer is given exactly the traced events of the listed types, in order.
pub run-filtered :
    (s : Tracer) (acts : List Action)
    → (run s acts).filtered ≡ s.filtered ++ keep is_listed (traced acts)
unfolding run
run-filtered s [] = sym (append-nil s.filtered)
run-filtered s (a ∷ acts) =
    run-filtered (step s a) acts
    ∙ ap (λ out. out ++ keep is_listed (traced acts)) (step-filtered s a)
    ∙ rest a
  where
    rest :
        (b : Action)
        → (s.filtered ++ keep is_listed (traced (b ∷ []))) ++ keep is_listed (traced acts)
          ≡ s.filtered ++ keep is_listed (traced (b ∷ acts))
    rest (traces evt) = ground (
      arith,
      append_assoc s.filtered (evt ∷ []) (keep is_listed (traced acts)),
      append-nil s.filtered,
    )
    rest takes_event = rw append-nil refl
    rest takes_done = rw append-nil refl
    rest stops = rw append-nil refl

-- Whatever the goroutines do, the events that entered the channel leave it in the same order, those
-- that left it are the ones that the metrics count, and it never holds more than 1024.
pub run-metrics :
    (s : Tracer) (acts : List Action)
    → length s.event_ch ≤ channel_capacity
    → (s.event_ch ++ entered s acts ≡ handled s acts ++ (run s acts).event_ch)
      × ((run s acts).metrics ≡ tally s.metrics (handled s acts))
      × (length (run s acts).event_ch ≤ channel_capacity)
unfolding run
run-metrics s [] h = (append-nil s.event_ch, refl, h)
run-metrics s (a ∷ acts) h =
    let (queue, metrics, bound) = run-metrics (step s a) acts (step-bound s a h) in
    (
      sym (append_assoc s.event_ch (enters s a) (entered (step s a) acts))
          ∙ ap (λ q. q ++ entered (step s a) acts) (step-queue s a)
          ∙ append_assoc (leaves s a) (step s a).event_ch (entered (step s a) acts)
          ∙ ap (λ q. leaves s a ++ q) queue
          ∙ sym
              (append_assoc (leaves s a) (handled (step s a) acts) (run (step s a) acts).event_ch),
      metrics
          ∙ ap (λ m. tally m (handled (step s a) acts)) (step-metrics s a)
          ∙ sym (tally-append s.metrics (leaves s a) (handled (step s a) acts)),
      bound,
    )

leaves-length :
    (s : Tracer) (a : Action)
    → length (step s a).event_ch ≤ length s.event_ch + length (traced (a ∷ []))
unfolding step trace take_event take_done stop
leaves-length s (traces evt) = ground (arith, length-append s.event_ch (evt ∷ []))
leaves-length s takes_event = ground arith
leaves-length s takes_done = ground arith
leaves-length s stops = ground arith

-- No event is dropped for the metrics as long as the channel has room for all of them.
pub entered-traced :
    (s : Tracer) (acts : List Action)
    → length s.event_ch + length (traced acts) ≤ channel_capacity
    → entered s acts ≡ traced acts
entered-traced s [] h = refl
entered-traced s (traces evt ∷ acts) h =
    ground (
      arith,
      entered-traced (step s (traces evt)) acts (omega (arith, leaves-length s (traces evt))),
    )
entered-traced s (takes_event ∷ acts) h =
    entered-traced (step s takes_event) acts (omega (arith, leaves-length s takes_event))
entered-traced s (takes_done ∷ acts) h =
    entered-traced (step s takes_done) acts (omega (arith, leaves-length s takes_done))
entered-traced s (stops ∷ acts) h =
    entered-traced (step s stops) acts (omega (arith, leaves-length s stops))
