-- ===== src/Topology/Assignment/Members.antt =====
-- The validators of an instance are those of the shares that its operator is a member of.
use p2p_tests.Prelude.{
  ℕ, ◌+◌, ◌≡◌, refl, sym, ◌∙◌, List, [], ◌∷◌, ◌++◌, append_assoc, append-nil, map, Text, keep,
  length, arith, In, Bool-cases, true, false, any, eqb, inl, inr,
}
use p2p_tests.Utils.Group.{slots}
use p2p_tests.Topology.Clusters.{Share, Clusters}
use p2p_tests.Topology.Assignment.{
  Assignment, no_assignment, is_member, take_share, visit_share, visit_shares, visit_clusters,
  assign, SubnetAssignment, visit_subnet_share, visit_subnet_shares, visit_subnet_clusters,
  assign_subnets,
}

-- All shares of the clusters, in the order of the loops.
abbrev pub all_shares : Clusters → List Share
all_shares [] = []
all_shares ((gid, shares) ∷ cls) = shares ++ all_shares cls

-- The keys of the shares that pass the test of the loops.
abbrev pub keys_of : ℕ → List Share → List Text
keys_of my_oid shares = map (λ s. s.pk) (keep (is_member my_oid) shares)

pub visit_shares-append :
    (my_oid : ℕ) (xs ys : List Share) (a : Assignment)
    → visit_shares my_oid (xs ++ ys) a ≡ visit_shares my_oid ys (visit_shares my_oid xs a)
unfolding visit_shares
visit_shares-append my_oid [] ys a = refl
visit_shares-append my_oid (x ∷ xs) ys a = visit_shares-append my_oid xs ys (visit_share my_oid x a)

-- The two nested loops are one loop over all shares.
pub visit_clusters-all_shares :
    (my_oid : ℕ) (cls : Clusters) (a : Assignment)
    → visit_clusters my_oid cls a ≡ visit_shares my_oid (all_shares cls) a
unfolding visit_clusters visit_shares
visit_clusters-all_shares my_oid [] a = refl
visit_clusters-all_shares my_oid ((gid, shares) ∷ cls) a =
    visit_clusters-all_shares my_oid cls (visit_shares my_oid shares a)
    ∙ sym (visit_shares-append my_oid shares (all_shares cls) a)

visit_shares-my_validators :
    (my_oid : ℕ) (shares : List Share) (a : Assignment)
    → ((visit_shares my_oid shares a).my_validators ≡ a.my_validators ++ keys_of my_oid shares)
      × ((visit_shares my_oid shares a).validators_count ≡ a.validators_count + length shares)
unfolding visit_shares visit_share take_share
visit_shares-my_validators my_oid [] a = (sym (append-nil a.my_validators), omega arith)
visit_shares-my_validators my_oid (s ∷ shares) a =
    let ih = visit_shares-my_validators my_oid shares (visit_share my_oid s a) in
    ground (arith, ih.0, ih.1, append_assoc a.my_validators (s.pk ∷ []) (keys_of my_oid shares))

visit_subnet_shares-my_validators :
    (my_oid : ℕ) (shares : List Share) (a : SubnetAssignment)
    → ((visit_subnet_shares my_oid shares a).my_validators
        ≡ a.my_validators ++ keys_of my_oid shares)
      × ((visit_subnet_shares my_oid shares a).validators_count
          ≡ a.validators_count + length shares)
unfolding visit_subnet_shares visit_subnet_share
visit_subnet_shares-my_validators my_oid [] a = (sym (append-nil a.my_validators), omega arith)
visit_subnet_shares-my_validators my_oid (s ∷ shares) a =
    let ih = visit_subnet_shares-my_validators my_oid shares (visit_subnet_share my_oid s a) in
    ground (arith, ih.0, ih.1, append_assoc a.my_validators (s.pk ∷ []) (keys_of my_oid shares))

visit_subnet_shares-append :
    (my_oid : ℕ) (xs ys : List Share) (a : SubnetAssignment)
    → visit_subnet_shares my_oid (xs ++ ys) a
      ≡ visit_subnet_shares my_oid ys (visit_subnet_shares my_oid xs a)
unfolding visit_subnet_shares
visit_subnet_shares-append my_oid [] ys a = refl
visit_subnet_shares-append my_oid (x ∷ xs) ys a =
    visit_subnet_shares-append my_oid xs ys (visit_subnet_share my_oid x a)

visit_subnet_clusters-all_shares :
    (my_oid : ℕ) (cls : Clusters) (a : SubnetAssignment)
    → visit_subnet_clusters my_oid cls a ≡ visit_subnet_shares my_oid (all_shares cls) a
unfolding visit_subnet_clusters visit_subnet_shares
visit_subnet_clusters-all_shares my_oid [] a = refl
visit_subnet_clusters-all_shares my_oid ((gid, shares) ∷ cls) a =
    visit_subnet_clusters-all_shares my_oid cls (visit_subnet_shares my_oid shares a)
    ∙ sym (visit_subnet_shares-append my_oid shares (all_shares cls) a)

-- The keys of exactly those of some shares that have the operator in one of the four slots, in order
-- and one for each share.
pub data MemberKeys (my_oid : ℕ) : List Share → List Text → Type 0 where
  no_more : MemberKeys my_oid [] []
  member :
      (s : Share) {shares : List Share} {pks : List Text}
      → In my_oid (slots s.operators)
      → MemberKeys my_oid shares pks
      → MemberKeys my_oid (s ∷ shares) (s.pk ∷ pks)
  stranger :
      (s : Share) {shares : List Share} {pks : List Text}
      → ¬ In my_oid (slots s.operators)
      → MemberKeys my_oid shares pks
      → MemberKeys my_oid (s ∷ shares) pks

any-In :
    (n : ℕ) (xs : List ℕ)
    → (In n xs → any (λ m. eqb n m) xs ≡ true) × (any (λ m. eqb n m) xs ≡ true → In n xs)
any-In n [] = (λ h. absurd h, λ h. cc)
any-In n (x ∷ xs) =
    let rest = any-In n xs in
    elim (Bool-cases (eqb n x)) [
      | inl same ↦ (λ h. rw same refl, λ h. inl (ground (arith, same)))
      | inr other ↦
          (λ h. rw other (rest.0 (behind x xs h other)), λ h. inr (rest.1 (rw other at h)))
    ]
  where
    behind : (x : ℕ) (xs : List ℕ) → In n (x ∷ xs) → eqb n x ≡ false → In n xs
    behind x xs (inl e) ne = absurd (ground (arith, e, ne))
    behind x xs (inr h) ne = h

-- The inner loop over the operators of a share finds the instance's exactly when it is there.
is_member-In :
    (my_oid : ℕ) (s : Share)
    → (In my_oid (slots s.operators) → is_member my_oid s ≡ true)
      × (is_member my_oid s ≡ true → In my_oid (slots s.operators))
unfolding is_member
is_member-In my_oid s = any-In my_oid (slots s.operators)

keys_of-MemberKeys :
    (my_oid : ℕ) (shares : List Share) → MemberKeys my_oid shares (keys_of my_oid shares)
keys_of-MemberKeys my_oid [] = no_more
keys_of-MemberKeys my_oid (s ∷ shares) = elim (Bool-cases (is_member my_oid s)) [
  | inl same ↦
      rw same (member s ((is_member-In my_oid s).1 same) (keys_of-MemberKeys my_oid shares))
  | inr other ↦
      rw other (
        stranger s (λ h. cc ((is_member-In my_oid s).0 h, other))
          (keys_of-MemberKeys my_oid shares))
]

pub assign-keys_of :
    (my_oid : ℕ) (cls : Clusters)
    → ((assign my_oid cls).my_validators ≡ keys_of my_oid (all_shares cls))
      × ((assign my_oid cls).validators_count ≡ length (all_shares cls))
unfolding assign
assign-keys_of my_oid cls = rw (visit_clusters-all_shares my_oid cls no_assignment) (
    let f = visit_shares-my_validators my_oid (all_shares cls) no_assignment in
    (f.0, f.1 ∙ omega arith))

-- The loops of runGroups give an instance the keys of exactly the shares that have its operator in
-- one of their four slots, in the order of the clusters, one for each share, and count every share.
pub assign-MemberKeys :
    (my_oid : ℕ) (cls : Clusters)
    → MemberKeys my_oid (all_shares cls) (assign my_oid cls).my_validators
      × ((assign my_oid cls).validators_count ≡ length (all_shares cls))
assign-MemberKeys my_oid cls =
    let (keys, count) = assign-keys_of my_oid cls in
    (rw keys (keys_of-MemberKeys my_oid (all_shares cls)), count)

-- The loops of runSubnets give an instance the same validators in the same order as those of
-- runGroups, and the same count.
pub assign_subnets-assign :
    (my_oid : ℕ) (cls : Clusters)
    → ((assign_subnets my_oid cls).my_validators ≡ (assign my_oid cls).my_validators)
      × ((assign_subnets my_oid cls).validators_count ≡ (assign my_oid cls).validators_count)
unfolding assign_subnets
assign_subnets-assign my_oid cls =
    let (keys, count) = assign-keys_of my_oid cls in
    rw (visit_subnet_clusters-all_shares my_oid cls _) (
      let f = visit_subnet_shares-my_validators my_oid (all_shares cls) _ in
      (f.0 ∙ sym keys, f.1 ∙ omega (arith, count)))
