-- ===== src/Topology/Assignment/Coverage.antt =====
-- The loops of runGroups over the clusters that the generator makes.
use p2p_tests.Prelude.{
  ℕ, suc, ◌+◌, ◌*◌, ◌≤◌, ◌<◌, ◌≡◌, refl, ap, ◌∙◌, List, [], ◌∷◌, map, length, length-append, arith,
  All, All-append, ◌≢◌, Bool, true, false,
}
use p2p_tests.Prelude.Family.{total, total-same, total-zero, total-add, hit, total-hit}
use p2p_tests.Prelude.Int.{ℤ}
use p2p_tests.Utils.Group.{Group, slots}
use p2p_tests.Utils.Group.Slots.{filled}
use p2p_tests.Utils.Generate
use p2p_tests.Utils.Generate.{Groups}
use p2p_tests.Utils.Generate.Round.{IsPlacement, AreFiled, IsFiled, count_shares}
use p2p_tests.Utils.RandGroup.Draws.{IsProper}
use p2p_tests.Topology.Clusters.{Share, Clusters}
use p2p_tests.Topology.Assignment.{is_member, assign}
use p2p_tests.Topology.Assignment.Members.{all_shares, keys_of, assign-keys_of}

-- The clusters that a placement becomes when it is written and read back: the two types Share have
-- the same fields.
abbrev pub as_share : Generate.Share → Share
as_share s = record { pk = s.pk; operators = s.operators }

abbrev pub as_clusters : Groups → Clusters
as_clusters [] = []
as_clusters ((gid, shares) ∷ groups) = (gid, map as_share shares) ∷ as_clusters groups

-- Four different numbers from 1 to `top`.
abbrev pub AreFour : ℕ → Group → Type 0
AreFour top g =
    All (λ oid. (0 < oid) × (oid ≤ top)) (slots g)
    × (g.slot1 ≢ g.slot0)
    × (g.slot2 ≢ g.slot0)
    × (g.slot2 ≢ g.slot1)
    × (g.slot3 ≢ g.slot0)
    × (g.slot3 ≢ g.slot1)
    × (g.slot3 ≢ g.slot2)

IsProper-AreFour : (top : ℕ) (g : Group) → IsProper top g → AreFour top g
unfolding filled
IsProper-AreFour top g p = ground arith

abbrev one_of : Bool → ℕ
one_of true = 1
one_of false = 0

is_member-hit :
    (top k : ℕ) (s : Share)
    → AreFour top s.operators
    → one_of (is_member (suc k) s)
      ≡ hit s.operators.slot0 k
        + hit s.operators.slot1 k
        + hit s.operators.slot2 k
        + hit s.operators.slot3 k
unfolding is_member
is_member-hit top k s f = ground arith

-- Four of the first `top` instances take a share.
total-is_member :
    (top : ℕ) (s : Share)
    → AreFour top s.operators
    → total top (λ k. one_of (is_member (suc k) s)) ≡ 4
total-is_member top s f =
    let a = s.operators.slot0 in
    let b = s.operators.slot1 in
    let c = s.operators.slot2 in
    let d = s.operators.slot3 in
    let sums = total-same top _ _ (λ k lt. is_member-hit top k s f) in
    let ab = total-add top (hit a) (hit b) in
    let abc = total-add top (λ k. hit a k + hit b k) (hit c) in
    let abcd = total-add top (λ k. hit a k + hit b k + hit c k) (hit d) in
    sums
    ∙ ground
        (arith, ab, abc, abcd, total-hit top a, total-hit top b, total-hit top c, total-hit top d)

length-keys_of :
    (my_oid : ℕ) (s : Share) (shares : List Share)
    → length (keys_of my_oid (s ∷ shares))
      ≡ one_of (is_member my_oid s) + length (keys_of my_oid shares)
length-keys_of my_oid s shares = ground arith

total-keys_of :
    (top : ℕ) (shares : List Share)
    → All (λ s. AreFour top s.operators) shares
    → total top (λ k. length (keys_of (suc k) shares)) ≡ 4 * length shares
total-keys_of top [] h = total-zero top
total-keys_of top (s ∷ shares) h =
    total-same top _ _ (λ k lt. length-keys_of (suc k) s shares)
    ∙ total-add top _ _
    ∙ omega (arith, total-is_member top s h.0, total-keys_of top shares h.1)

all_shares-AreFour :
    (top : ℕ) (groups : Groups)
    → AreFiled top groups
    → All (λ s. AreFour top s.operators) (all_shares (as_clusters groups))
      × (length (all_shares (as_clusters groups)) ≡ count_shares groups)
all_shares-AreFour top [] h = (tt, refl)
all_shares-AreFour top ((gid, shares) ∷ groups) h =
    let rest = all_shares-AreFour top groups h.2 in
    let here = as_share-AreFour shares h.1 in
    (
      All-append (λ s. AreFour top s.operators) (map as_share shares)
          (all_shares (as_clusters groups)) here.0 rest.0,
      length-append (map as_share shares) (all_shares (as_clusters groups))
          ∙ omega (arith, here.1, rest.1),
    )
  where
    as_share-AreFour :
        (ss : List Generate.Share)
        → All (IsFiled top gid) ss
        → All (λ s. AreFour top s.operators) (map as_share ss)
          × (length (map as_share ss) ≡ length ss)
    as_share-AreFour [] f = (tt, refl)
    as_share-AreFour (x ∷ ss) f =
        let more = as_share-AreFour ss f.1 in
        ((IsProper-AreFour top x.operators f.0.0, more.0), ap suc more.1)

-- How many of the first `top` instances are members of a share's group.
abbrev pub takers : ℕ → Share → ℕ
takers top s = total top (λ k. one_of (is_member (suc k) s))

All-takers :
    (top : ℕ) (shares : List Share)
    → All (λ s. AreFour top s.operators) shares
    → All (λ s. takers top s ≡ 4) shares
All-takers top [] h = tt
All-takers top (s ∷ shares) h = (total-is_member top s h.0, All-takers top shares h.1)

-- Take the clusters of a placement of `n` validators by the generator over `top` operators, and one
-- instance for each operator, numbered from 1 to `top`: each share passes the operator test of four
-- of them, and the validators that runGroups gives to the instances are four times `n` together.
pub total-assign :
    (top n : ℕ) (max_groups : ℤ) (groups : Groups)
    → IsPlacement top max_groups n groups
    → All (λ s. takers top s ≡ 4) (all_shares (as_clusters groups))
      × (total top (λ k. length (assign (suc k) (as_clusters groups)).my_validators) ≡ 4 * n)
total-assign top n max_groups groups p =
    let a = all_shares-AreFour top groups p.filed in
    let lengths =
      λ (k : ℕ) (lt : k < top). ap length (assign-keys_of (suc k) (as_clusters groups)).0 in
    (
      All-takers top (all_shares (as_clusters groups)) a.0,
      total-same top _ _ lengths
          ∙ total-keys_of top (all_shares (as_clusters groups)) a.0
          ∙ omega (arith, a.1, p.counted),
    )
