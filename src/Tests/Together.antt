-- ===== src/Tests/Together.antt =====
-- Two instances of runGroups side by side, with a service that counts.
use p2p_tests.Prelude.{
  count, ℕ, Bool, ◌≤◌, ◌<◌, ◌≡◌, refl, sym, ◌∙◌, List, [], append-nil, Text, leb, leb→le, true,
  arith, In, inl, inr,
}
use p2p_tests.Topology.Instances.{
  configured, posts, dials, listens, publishes, script, System, begin, IsBarrier, Reach, start,
}
use p2p_tests.Topology.Instances.Rounds.{rounds_apart}
use p2p_tests.Topology.Instances.Progress.{IsWhole, Ready, no_deadlock, all_finish}

abbrev counting : List Text → Text → ℕ → Bool
counting log t target = leb target (count t log)

le→leb : (a b : ℕ) → a ≤ b → leb a b ≡ true
le→leb a b h = ground arith

counting-IsBarrier : IsBarrier counting
counting-IsBarrier = record {
  counted = λ log t target h. leb→le target (count t log) h;
  lets_go = λ log t target h. le→leb target (count t log) h;
}

all_finish_example :
    (t : System) × Reach counting 2 1 t
    × IsWhole counting 2 counting-IsBarrier 1 t
    × ((k : ℕ) → k < 2 → t.left k ≡ [])
all_finish_example = all_finish counting 2 counting-IsBarrier 1 start (λ k. refl)

-- A state in which both are through.
abbrev through :
    (t : System) × Reach counting 2 1 t
    × IsWhole counting 2 counting-IsBarrier 1 t
    × ((k : ℕ) → k < 2 → t.left k ≡ [])
through = all_finish counting 2 counting-IsBarrier 1 start (λ k. refl)

first_published : In (publishes 0) (script 1)
unfolding script
first_published = inr (inr (inr (inr (inr (inr (inr (inr (inr (inr (inl refl))))))))))

through-publishes : In (publishes 0) (through.0.past 0)
through-publishes =
    let e : through.0.past 0 ≡ script 1 =
      sym (append-nil (through.0.past 0)) ∙ rw (through.3 0 (omega arith)) at (through.2 0) in
    rw e first_published

rounds_apart_example :
    In dials (through.0.past 1)
    × In listens (through.0.past 1)
    × ((h : ℕ) → h ≤ 0 → In (posts (configured h)) (through.0.past 1))
    × ((h : ℕ) → h < 0 → In (publishes h) (through.0.past 1))
rounds_apart_example =
    rounds_apart counting 2 counting-IsBarrier 1 0 0 1 through.1 through-publishes (omega arith)

no_deadlock_example : Ready counting 2 counting-IsBarrier 1 (begin 1)
unfolding script
no_deadlock_example =
    no_deadlock counting 2 counting-IsBarrier 1 0 start (λ k. refl) (omega arith) (omega arith)
