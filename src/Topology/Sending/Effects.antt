-- ===== src/Topology/Sending/Effects.antt =====
-- What the rounds leave in the test environment, read from their acts, and the errors that they keep.
use p2p_tests.Prelude.{
  ℕ, zero, suc, ◌≡◌, refl, ap, List, [], ◌∷◌, ◌++◌, Option, some, Text, Bool, true, false, keep,
  append-nil, ◌∙◌, arith, is_some, lookup, text_eq,
}
use p2p_tests.Prelude.Int.{ℤ}
use p2p_tests.Topology.TopicManager.Interface.{Library}
use p2p_tests.Topology.Listeners.{Start, start_all}
use p2p_tests.Topology.Listeners.Joined.{start_all-keeps}
use p2p_tests.Topology.Errors.{GoError, Result}
use p2p_tests.Topology.Sending.{
  Act, shapes, fails, records, signals, Prepared, bad_key, bad_message, ready, prepare,
  listen_failures, listen_all, Sending,
}

-- The points that were recorded, by name.
abbrev pub points : List Act → List Text
points [] = []
points (shapes n t ∷ acts) = points acts
points (fails e ∷ acts) = points acts
points (records p b ∷ acts) = p ∷ points acts
points (signals t ∷ acts) = points acts

pub points-append : (xs ys : List Act) → points (xs ++ ys) ≡ points xs ++ points ys
points-append [] ys = refl
points-append (shapes n t ∷ xs) ys = points-append xs ys
points-append (fails e ∷ xs) ys = points-append xs ys
points-append (records p b ∷ xs) ys = ap (◌∷◌ p) (points-append xs ys)
points-append (signals t ∷ xs) ys = points-append xs ys

-- The calls of Listen record no points.
pub points-listen_failures : (sts : List Start) → points (listen_failures sts) ≡ []
unfolding listen_failures
points-listen_failures [] = refl
points-listen_failures (st ∷ sts) = ground (arith, points-listen_failures sts)

abbrev pub is_ready : Prepared → Bool
is_ready (bad_key e) = false
is_ready (bad_message e) = false
is_ready (ready payload) = true

abbrev pub error_of : Prepared → List GoError
error_of (bad_key e) = []
error_of (bad_message e) = e ∷ []
error_of (ready payload) = []

-- The last of some errors, or the one that was there before.
abbrev pub last_or {ℓ} : {A : Type ℓ} → Option A → List A → Option A
last_or o [] = o
last_or o (a ∷ as') = last_or (some a) as'

pub last_or-append {ℓ} :
    {A : Type ℓ} (o : Option A) (xs ys : List A) → last_or o (xs ++ ys) ≡ last_or (last_or o xs) ys
last_or-append o [] ys = refl
last_or-append o (x ∷ xs) ys = last_or-append (some x) xs ys

-- Every call that waits for a state returns.
abbrev pub Passes : (Text → Bool) → Type 0
Passes sync = (state : Text) → sync state ≡ true

module _ {M : Type 0} (decode_hex : Text → Result Text) (ssv_message : Text → Text → M)
    (encode : M → Result Text) (name : Text) where
  -- The validators whose key and message are good in a round, in order.
  abbrev pub good : ℕ → List Text → List Text
  good i pks = keep (λ pk. is_ready (prepare decode_hex ssv_message encode name i pk)) pks

  -- The errors of Encode in a round, in order, and in `n` rounds from the round `i` on.
  abbrev pub round_errors : ℕ → List Text → List GoError
  round_errors i [] = []
  round_errors i (pk ∷ pks) =
      error_of (prepare decode_hex ssv_message encode name i pk) ++ round_errors i pks

  abbrev pub all_errors : List Text → ℕ → ℕ → List GoError
  all_errors pks zero i = []
  all_errors pks (suc n) i = round_errors i pks ++ all_errors pks n (suc i)

module _ {State Topic Sub Params Validator TopicOpt SubOpt Peer : Type 0}
    (lib : Library State Topic Sub Params Validator TopicOpt SubOpt Peer)
    (validator : Text → ℤ → Validator) where
  -- The calls of Listen leave the points, the error and the topics that are there.
  pub listen_all-fields :
      (ts : List Text) (s : Sending State Topic Sub Params)
      → let s' = listen_all lib validator ts s in
        (points s'.acts ≡ points s.acts)
        × (s'.send_err ≡ s.send_err)
        × ((u : Text)
            → is_some (lookup u s.tm.topics) ≡ true
            → is_some (lookup u s'.tm.topics) ≡ true)
  unfolding listen_all
  listen_all-fields ts s =
      let sts = (start_all lib validator ts s.tm).1 in
      (
        points-append s.acts (listen_failures sts)
            ∙ rw (points-listen_failures sts) (append-nil (points s.acts)),
        refl,
        λ u h. start_all-keeps lib validator u ts s.tm h,
      )
