-- ===== src/TreeData/Full.antt =====
-- The converse of `IsLive`: every identity of the tree is in the map, through batches of `TreeData`.
use world_tree.Prelude.{
  ℕ, zero, suc, ◌+◌, ◌-◌, ◌≤◌, ◌≡◌, ◌≢◌, sym, ap, take, drop, ◌++◌, ◌∙◌, inl, inr, true, false,
  some, List, [], ◌∷◌, arith, length, get_elem?, get_elem?-segment_inside,
  get_elem?-segment_outside, contains, replicate, Bool-cases, Option-cases, le_or_lt,
}
use world_tree.Merkle.{Hash, hash_zero, PoseidonTree}
use world_tree.LeafMap
use world_tree.TreeData.{TreeData}
use world_tree.TreeData.Insert.{Inserted}
use world_tree.TreeData.Delete.{Deleted, holds}

-- No identity stands at two leaves.
abbrev pub Unrepeated : List Hash → Type 0
Unrepeated ls =
    (i j : ℕ) (q : Hash) → get_elem? ls i ≡ some q → get_elem? ls j ≡ some q → q ≢ hash_zero → i ≡ j

contains_of_get_elem? :
    (q : Hash) (ids : List Hash) (k : ℕ) → get_elem? ids k ≡ some q → contains q ids ≡ true
contains_of_get_elem? q [] k h = cc
contains_of_get_elem? q (x ∷ ids) zero h = ground (arith, h)
contains_of_get_elem? q (x ∷ ids) (suc k) h = ground (arith, contains_of_get_elem? q ids k h)

pub get_elem?-replicate : (n i : ℕ) (a q : Hash) → get_elem? (replicate n a) i ≡ some q → q ≡ a
get_elem?-replicate zero i a q h = cc
get_elem?-replicate (suc n) zero a q h = ground (arith, h)
get_elem?-replicate (suc n) (suc i) a q h = get_elem?-replicate n i a q h

-- If `q` stands at one leaf only, and this is at none of the indices, none of them holds `q`.
holds-elsewhere :
    (q : Hash) (is : List ℕ) (ls : List Hash) (i : ℕ)
    → contains i is ≡ false
    → ((j : ℕ) → get_elem? ls j ≡ some q → j ≡ i)
    → holds q is ls ≡ false
holds-elsewhere q [] ls i c only = ground arith
holds-elsewhere q (j ∷ is) ls i c only = elim (Option-cases (get_elem? ls j)) [
  | inl e ↦ ground (arith, e, c, holds-elsewhere q is ls i)
  | inr (x, e) ↦ ground (arith, e, c, only j, holds-elsewhere q is ls i)
]

-- What stands in the leaves after a segment is written and is not of the segment stood there before.
unwritten :
    (start : ℕ) (ids ls : List Hash) (i : ℕ) (q : Hash)
    → start + length ids ≤ length ls
    → contains q ids ≡ false
    → get_elem? (take start ls ++ (ids ++ drop (start + length ids) ls)) i ≡ some q
    → get_elem? ls i ≡ some q
unwritten start ids ls i q fits c h = elim (le_or_lt start i) [
  | inr before ↦ sym (get_elem?-segment_outside start ids ls i (inl before) fits) ∙ h
  | inl from ↦ elim (le_or_lt (start + length ids) i) [
    | inl after ↦ sym (get_elem?-segment_outside start ids ls i (inr after) fits) ∙ h
    | inr within ↦
        let e : start + (i - start) ≡ i = omega arith in
        let inside =
          get_elem?-segment_inside start ids (drop (start + length ids) ls) ls (i - start)
            (omega (arith, fits)) (omega arith) in
        let written = contains_of_get_elem? q ids (i - start) (sym inside ∙ rw e h) in
        absurd (ground (arith, written, c))
  ]
]

module _ {P : PoseidonTree} where
  abbrev pub IsFull : TreeData P → Type 0
  IsFull d =
      (i : ℕ) (q : Hash)
      → get_elem? (P.leaves d.tree) i ≡ some q
      → q ≢ hash_zero
      → (ts : ℕ) × (LeafMap.get q d.leaves ≡ some ts)

  pub Inserted-IsFull :
      {ts start : ℕ} {ids : List Hash} {d d' : TreeData P}
      → Inserted ts start ids d d'
      → start + length ids ≤ length (P.leaves d.tree)
      → IsFull d
      → IsFull d'
  Inserted-IsFull {ts} {start} {ids} {d} {d'} s fits f i q h z =
      elim (Bool-cases (contains q ids)) [
        | inl c ↦ (ts, ground (arith, s.stamped q, c))
        | inr c ↦
            let old : get_elem? (P.leaves d.tree) i ≡ some q =
              unwritten start ids (P.leaves d.tree) i q fits c
                (sym (ap (λ l. get_elem? l i) s.segment) ∙ h) in
            let (t, e) = f i q old z in (t, ground (arith, s.stamped q, c, e))
      ]

  pub Deleted-IsFull :
      {ts : ℕ} {is : List ℕ} {d d' : TreeData P}
      → Deleted ts is d d'
      → Unrepeated (P.leaves d.tree)
      → IsFull d
      → IsFull d'
  Deleted-IsFull {ts} {is} {d} {d'} s u f i q h z = elim (Bool-cases (contains i is)) [
    | inl c ↦ absurd (ground (arith, s.cleared i, c, h, z))
    | inr c ↦
        let old : get_elem? (P.leaves d.tree) i ≡ some q = ground (arith, s.cleared i, c, h) in
        let (t, e) = f i q old z in
        let away = holds-elsewhere q is (P.leaves d.tree) i c (λ j g. u j i q g old z) in
        (t, ground (arith, s.forgotten q z, away, e))
  ]
