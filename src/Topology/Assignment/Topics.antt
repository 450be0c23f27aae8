-- ===== src/Topology/Assignment/Topics.antt =====
-- Every validator of an instance is published on a topic that the instance listens to.
use p2p_tests.Prelude.{
  ℕ, ◌≡◌, ◌⊎◌, subst, refl, sym, ◌∙◌, List, [], ◌∷◌, ◌++◌, Text, text_eq, lookup, lookup-insert,
  is_some, true, arith, Bool-cases, inl, inr, some, In, ◌==◌,
}
use p2p_tests.Topology.Clusters.{Share, Clusters, cluster_id}
use p2p_tests.Topology.Assignment.{
  Assignment, no_assignment, is_member, increment, take_share, visit_share, visit_shares, assign,
}
use p2p_tests.Topology.Assignment.Members.{all_shares, visit_clusters-all_shares}

-- The group of a validator is one of the instance's groups.
abbrev pub HasTopic : Assignment → Text → Type 0
HasTopic a pk =
    (gid : Text) × (lookup pk a.validator_groups ≡ some gid)
    × (is_some (lookup gid a.my_groups) ≡ true)

abbrev AreListed : Assignment → Type 0
AreListed a = (pk : Text) → In pk a.my_validators → HasTopic a pk

-- The groups of a validator that is taken, then of the others.
take_share-old :
    (s : Share) (a : Assignment) (pk : Text) → HasTopic a pk → HasTopic (take_share s a) pk
unfolding take_share increment
take_share-old s a pk (gid, named, listed) = elim (Bool-cases (pk == s.pk)) [
  | inl same ↦ (
    cluster_id s.operators,
    rw (lookup-insert s.pk pk (cluster_id s.operators) a.validator_groups, same) refl,
    rw (lookup-insert (cluster_id s.operators) (cluster_id s.operators) _ a.my_groups)
        (ground (arith, text_eq.beq_iff (cluster_id s.operators) (cluster_id s.operators))),
  )
  | inr other ↦ (
    gid,
    rw (lookup-insert s.pk pk (cluster_id s.operators) a.validator_groups, other) named,
    rw (lookup-insert (cluster_id s.operators) gid _ a.my_groups) (ground arith),
  )
]

take_share-new : (s : Share) (a : Assignment) → HasTopic (take_share s a) s.pk
unfolding take_share increment
take_share-new s a = (
  cluster_id s.operators,
  lookup-insert s.pk s.pk (cluster_id s.operators) a.validator_groups
      ∙ ground (arith, text_eq.beq_iff s.pk s.pk),
  rw (lookup-insert (cluster_id s.operators) (cluster_id s.operators) _ a.my_groups)
      (ground (arith, text_eq.beq_iff (cluster_id s.operators) (cluster_id s.operators))),
)

In-append-one : (pk k : Text) (xs : List Text) → In pk (xs ++ k ∷ []) → (In pk xs) ⊎ (pk ≡ k)
In-append-one pk k [] (inl e) = inr e
In-append-one pk k [] (inr h) = absurd h
In-append-one pk k (x ∷ xs) (inl e) = inl (inl e)
In-append-one pk k (x ∷ xs) (inr h) = elim (In-append-one pk k xs h) [
  | inl o ↦ inl (inr o)
  | inr n ↦ inr n
]

take_share-AreListed : (s : Share) (a : Assignment) → AreListed a → AreListed (take_share s a)
take_share-AreListed s a l pk h =
    elim (In-append-one pk s.pk a.my_validators (unfold take_share in h)) [
      | inl old ↦ take_share-old s a pk (l pk old)
      | inr new ↦ subst (HasTopic (take_share s a)) (sym new) (take_share-new s a)
    ]

visit_share-AreListed :
    (my_oid : ℕ) (s : Share) (a : Assignment) → AreListed a → AreListed (visit_share my_oid s a)
unfolding visit_share
visit_share-AreListed my_oid s a l = elim (Bool-cases (is_member my_oid s)) [
  | inl mine ↦ rw (mine, visit_share) (take_share-AreListed s _ l)
  | inr other ↦ rw (other, visit_share) l
]

visit_shares-AreListed :
    (my_oid : ℕ) (shares : List Share) (a : Assignment)
    → AreListed a
    → AreListed (visit_shares my_oid shares a)
unfolding visit_shares
visit_shares-AreListed my_oid [] a l = l
visit_shares-AreListed my_oid (s ∷ shares) a l =
    visit_shares-AreListed my_oid shares (visit_share my_oid s a)
      (visit_share-AreListed my_oid s a l)

-- For each validator that runGroups takes for its instance, the group under which it will publish
-- the validator's message is known, and is one of the groups that it listens to.
pub assign-HasTopic :
    (my_oid : ℕ) (cls : Clusters) (pk : Text)
    → In pk (assign my_oid cls).my_validators
    → HasTopic (assign my_oid cls) pk
unfolding assign
assign-HasTopic my_oid cls =
    rw (visit_clusters-all_shares my_oid cls no_assignment)
      (visit_shares-AreListed my_oid (all_shares cls) no_assignment (λ pk h. absurd h))
