-- ===== src/TreeData/Live.antt =====
-- The invariant that ties the map of leaves to the tree, through batches of `TreeData`.
use world_tree.Prelude.{
  ℕ, suc, ◌+◌, ◌-◌, ◌≤◌, ◌<◌, ◌≡◌, ◌≢◌, ◌∙◌, ◌⊎◌, inl, inr, true, false, none, some, List, [], ◌∷◌,
  arith, length, get_elem?, get_elem?-lt, length-take-le, contains, ◌==◌, Bool-cases,
  get_elem?-segment_inside, get_elem?-segment_outside, le_or_lt,
}
use world_tree.Merkle.{Hash, hash_zero, PoseidonTree}
use world_tree.LeafMap
use world_tree.LeafMap.{get-nil}
use world_tree.TreeData.{TreeData, new}
use world_tree.TreeData.History.{IsBounded}
use world_tree.TreeData.Insert.{Inserted}
use world_tree.TreeData.Delete.{Deleted, holds_of_contains}

-- Every identity of the map is a leaf of the tree, and the empty leaf is none of them.
pub record IsLive {P : PoseidonTree} (d : TreeData P) : Type 0 where
  pub bounded : IsBounded d
  pub no_zero : LeafMap.get hash_zero d.leaves ≡ none
  pub present :
      (q : Hash) (ts : ℕ)
      → LeafMap.get q d.leaves ≡ some ts
      → (i : ℕ) × (get_elem? (P.leaves d.tree) i ≡ some q)

-- The batch goes to empty leaves within the tree.
pub record IsVacant (start : ℕ) (ids ls : List Hash) : Type 0 where
  pub fits : start + length ids ≤ length ls
  pub vacant : (k : ℕ) → k < length ids → get_elem? ls (start + k) ≡ some hash_zero
  pub nonzero : contains hash_zero ids ≡ false

pub contains-get_elem? :
    (q : Hash) (ids : List Hash) → contains q ids ≡ true → (k : ℕ) × (get_elem? ids k ≡ some q)
contains-get_elem? q [] h = cc
contains-get_elem? q (x ∷ ids) h = elim (Bool-cases (x == q)) [
  | inl e ↦ (0, ground (arith, e))
  | inr e ↦ let (k, f) = contains-get_elem? q ids (ground (arith, e)) in (suc k, f)
]

module _ (P : PoseidonTree) where
  pub new-IsLive : (tree : P.Canonical) (size : ℕ) → IsLive (new P tree size)
  unfolding new
  new-IsLive tree size = record {
    bounded = omega arith;
    no_zero = get-nil hash_zero;
    present = λ q ts h. absurd (ground (arith, get-nil q, h));
  }

  -- A leaf of the tree that is no empty leaf lies outside the segment of a batch.
  pub outside :
      {start : ℕ} {ids ls : List Hash} (q : Hash) (i : ℕ)
      → IsVacant start ids ls
      → q ≢ hash_zero
      → get_elem? ls i ≡ some q
      → (i < start) ⊎ (start + length ids ≤ i)
  outside {start} {ids} {ls} q i v z h = elim (le_or_lt start i) [
    | inr before ↦ inl before
    | inl from ↦ elim (le_or_lt (start + length ids) i) [
      | inl after ↦ inr after
      | inr within ↦
          let e : start + (i - start) ≡ i = omega arith in
          let f = v.vacant (i - start) (omega arith) in absurd (ground (arith, rw e at f, h, z))
    ]
  ]

  pub nonzero_key :
      {d : TreeData P} {q ts : ℕ} → IsLive d → LeafMap.get q d.leaves ≡ some ts → q ≢ hash_zero
  nonzero_key {d} {q} {ts} l h = λ e. absurd (ground (arith, rw e at h, l.no_zero))

  Inserted-present :
      {ts start : ℕ} {ids : List Hash} {d d' : TreeData P}
      → Inserted ts start ids d d'
      → IsVacant start ids (P.leaves d.tree)
      → IsLive d
      → (q t : ℕ) → LeafMap.get q d'.leaves ≡ some t
      → (i : ℕ) × (get_elem? (P.leaves d'.tree) i ≡ some q)
  Inserted-present {ts} {start} {ids} {d} {d'} s v l q t h = elim (Bool-cases (contains q ids)) [
    | inl c ↦
        let (k, f) = contains-get_elem? q ids c in
        (
          start + k,
          rw s.segment (
              get_elem?-segment_inside start ids _ (P.leaves d.tree) k (omega (arith, v.fits))
                (get_elem?-lt ids k q f)
              ∙ f),
        )
    | inr c ↦
        let old : LeafMap.get q d.leaves ≡ some t = ground (arith, s.stamped q, c, h) in
        let (i, f) = l.present q t old in
        (
          i,
          rw s.segment (
              get_elem?-segment_outside start ids (P.leaves d.tree) i
                (outside q i v (nonzero_key l old) f) v.fits
              ∙ f),
        )
  ]

  Deleted-present :
      {ts : ℕ} {is : List ℕ} {d d' : TreeData P}
      → Deleted ts is d d'
      → IsLive d
      → (q t : ℕ) → LeafMap.get q d'.leaves ≡ some t
      → (i : ℕ) × (get_elem? (P.leaves d'.tree) i ≡ some q)
  Deleted-present {ts} {is} {d} {d'} s l q t h =
      let z : q ≢ hash_zero = λ e. absurd (ground (arith, rw e at h, s.gone hash_zero l.no_zero)) in
      let f = s.forgotten q z in
      let old : LeafMap.get q d.leaves ≡ some t = ground (arith, f, h) in
      let (i, at_i) = l.present q t old in
      (i, ground (arith, s.cleared i, at_i, f, h, holds_of_contains q is (P.leaves d.tree) i))

  pub Inserted-IsLive :
      {ts start : ℕ} {ids : List Hash} {d d' : TreeData P}
      → Inserted ts start ids d d'
      → IsVacant start ids (P.leaves d.tree)
      → IsLive d
      → IsLive d'
  Inserted-IsLive {ts} {start} {ids} {d} {d'} s v l = record {
    bounded = rw (s.history, s.size) (length-take-le d.tree_history_size _);
    no_zero = ground (arith, s.stamped hash_zero, v.nonzero, l.no_zero);
    present = Inserted-present s v l;
  }

  pub Deleted-IsLive :
      {ts : ℕ} {is : List ℕ} {d d' : TreeData P} → Deleted ts is d d' → IsLive d → IsLive d'
  Deleted-IsLive {ts} {is} {d} {d'} s l = record {
    bounded = rw (s.history, s.size) (length-take-le d.tree_history_size _);
    no_zero = s.gone hash_zero l.no_zero;
    present = Deleted-present s l;
  }
