-- ===== src/Utils/Generate/Round.antt =====
-- One round of GenerateGroups: what the map holds afterwards.
use p2p_tests.Prelude.{
  ℕ, suc, ◌+◌, ◌≡◌, ◌≢◌, inl, inr, refl, ap, ◌∙◌, List, [], ◌∷◌, ◌++◌, Option, none, some, Text,
  text_eq, lookup, insert, IsMap, insert-IsMap, length-insert, length, length-append, All,
  All-append, arith, Bool-cases, true, ◌||◌, not,
}
use p2p_tests.Prelude.Int.{ℤ, pos, negsuc, leb_ℤ}
use p2p_tests.Utils.Group.{Group, group_id}
use p2p_tests.Utils.RandGroup.Draws.{IsProper}
use p2p_tests.Utils.Generate.{Share, Groups, is_positive, generate_share, place_share}

-- How many shares the map holds.
abbrev pub count_shares : Groups → ℕ
count_shares [] = 0
count_shares ((gid, shares) ∷ m) = length shares + count_shares m

-- A share of proper operators stands under the identifier of its operators.
abbrev pub IsFiled : ℕ → Text → Share → Type 0
IsFiled top gid s = IsProper top s.operators × (group_id s.operators ≡ gid)

-- Every group of the map has a share, and its shares are filed under its key.
abbrev pub AreFiled : ℕ → Groups → Type 0
AreFiled top [] = Unit
AreFiled top ((gid, shares) ∷ m) = (shares ≢ []) × All (IsFiled top gid) shares × AreFiled top m

pub record IsPlacement (top : ℕ) (max_groups : ℤ) (made : ℕ) (groups : Groups) : Type 0 where
  pub distinct : IsMap groups
  pub filed : AreFiled top groups
  pub counted : count_shares groups ≡ made
  pub capped : (not (is_positive max_groups) || leb_ℤ (pos (length groups)) max_groups) ≡ true

pub empty-IsPlacement : (top : ℕ) (max_groups : ℤ) → IsPlacement top max_groups 0 []
empty-IsPlacement top (pos n) = record {
  distinct = tt;
  filed = tt;
  counted = refl;
  capped = ground arith;
}
empty-IsPlacement top (negsuc n) = record {
  distinct = tt;
  filed = tt;
  counted = refl;
  capped = ground arith;
}

append-ne-nil : (xs : List Share) (s : Share) → xs ++ s ∷ [] ≢ []
append-ne-nil [] s e = cc
append-ne-nil (x ∷ xs) s e = cc

abbrev or_nil {ℓ} : {A : Type ℓ} → Option (List A) → List A
or_nil none = []
or_nil (some xs) = xs

-- The shares of a key, none if it is not there.
abbrev shares_at : Text → Groups → List Share
shares_at gid m = or_nil (lookup gid m)

insert-AreFiled :
    (top : ℕ) (gid : Text) (s : Share) (old : List Share) (m : Groups)
    → shares_at gid m ≡ old
    → IsFiled top gid s
    → AreFiled top m
    → AreFiled top (insert gid (old ++ s ∷ []) m)
unfolding lookup insert
insert-AreFiled top gid s old [] same f h = rw (← same) (append-ne-nil [] s, (f, tt), tt)
insert-AreFiled top gid s old ((i, shares) ∷ m) same f h = elim (Bool-cases (text_eq.beq gid i)) [
  | inl e ↦
      let q : shares ≡ old = rw e at same in
      rw (e, ← q)
        (
          append-ne-nil shares s,
          All-append (IsFiled top i) shares (s ∷ []) h.1
              ((f.0, f.1 ∙ (text_eq.beq_iff gid i).0 e), tt),
          h.2,
        )
  | inr e ↦ rw e (h.0, h.1, insert-AreFiled top gid s old m (rw e at same) f h.2)
]

count_shares-insert :
    (gid : Text) (s : Share) (m : Groups)
    → count_shares (insert gid (shares_at gid m ++ s ∷ []) m) ≡ suc (count_shares m)
unfolding lookup insert
count_shares-insert gid s [] = refl
count_shares-insert gid s ((i, shares) ∷ m) =
    ground (arith, count_shares-insert gid s m, length-append shares (s ∷ []))

module _ (key : ℕ → Text) where
  place_share-shares :
      (max_groups : ℤ) (made : ℕ) (groups : Groups) (g : Group) {groups' : Groups}
      → place_share key max_groups made groups g ≡ some groups'
      → groups'
        ≡ insert
            (group_id g)
            (shares_at (group_id g) groups ++ generate_share key made g ∷ [])
            groups
  unfolding place_share
  place_share-shares max_groups made groups g e = ground arith

  place_share-capped :
      (top : ℕ) (max_groups : ℤ) (made : ℕ) (groups : Groups) (g : Group) {groups' : Groups}
      → IsPlacement top max_groups made groups
      → place_share key max_groups made groups g ≡ some groups'
      → (not (is_positive max_groups) || leb_ℤ (pos (length groups')) max_groups) ≡ true
  unfolding place_share
  place_share-capped top (negsuc n) made groups g p e = ground arith
  place_share-capped top (pos n) made groups g p e = ground (
    arith,
    p.capped,
    length-insert (group_id g) (shares_at (group_id g) groups ++ generate_share key made g ∷ [])
        groups,
  )

  -- A round that places a share keeps the map well-formed, with one share more.
  pub place_share-IsPlacement :
      (top : ℕ) (max_groups : ℤ) (made : ℕ) (groups : Groups) (g : Group) {groups' : Groups}
      → IsProper top g
      → IsPlacement top max_groups made groups
      → place_share key max_groups made groups g ≡ some groups'
      → IsPlacement top max_groups (suc made) groups'
  unfolding generate_share
  place_share-IsPlacement top max_groups made groups g proper p e =
      let s = generate_share key made g in
      let same = place_share-shares max_groups made groups g e in
      record {
        distinct = rw same (insert-IsMap (group_id g) _ groups p.distinct);
        filed = rw same (insert-AreFiled top (group_id g) s _ groups refl (proper, refl) p.filed);
        counted = rw same (count_shares-insert (group_id g) s groups ∙ ap suc p.counted);
        capped = place_share-capped top max_groups made groups g p e;
      }
