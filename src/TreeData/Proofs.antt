-- ===== src/TreeData/Proofs.antt =====
-- `get_inclusion_proof` of `TreeData`: which tree it serves, and that the proofs it serves verify.
use world_tree.Prelude.{
  ℕ, zero, suc, ◌≡◌, refl, inl, inr, Option, none, some, List, [], ◌∷◌, arith, get_elem?, ltb, ◌==◌,
  Bool-cases, Option-cases, if◌then◌else◌,
}
use world_tree.Merkle.{Hash, PoseidonTree, IsMerkle}
use world_tree.LeafMap
use world_tree.TreeData.{
  TreeData, HistoricalTree, InclusionProof, position, proof, inclusion_at, search_history,
  proof_for, get_inclusion_proof,
}

-- A position that is found holds the leaf.
pub position-get_elem? :
    (q : Hash) (ls : List Hash) (i : ℕ)
    → position (λ x. x == q) ls ≡ some i
    → get_elem? ls i ≡ some q
unfolding position
position-get_elem? q [] i h = cc
position-get_elem? q (x ∷ ls) zero h = ground arith
position-get_elem? q (x ∷ ls) (suc i) h = ground (arith, position-get_elem? q ls i)

-- A leaf that is in the list has a position.
pub position-ne-none :
    (q : Hash) (ls : List Hash) (i : ℕ)
    → get_elem? ls i ≡ some q
    → (j : ℕ) × (position (λ x. x == q) ls ≡ some j)
unfolding position
position-ne-none q [] i h = cc
position-ne-none q (x ∷ ls) zero h = (0, ground arith)
position-ne-none q (x ∷ ls) (suc i) h =
    let (j, e) = position-ne-none q ls i h in
    elim (Bool-cases (x == q)) [ inl t ↦ (0, rw t) | inr f ↦ (suc j, rw (f, e)) ]

module _ (P : PoseidonTree) where
  -- The proof `p` leads from the identity to the root that is served with it.
  abbrev pub Verifies : Hash → InclusionProof P → Type 0
  Verifies identity p = P.proof_root p.proof identity ≡ p.root

  -- The first tree of the history with a root.
  unfoldable pub find_tree : Hash → List (HistoricalTree P) → Option (HistoricalTree P)
  find_tree root [] = none
  find_tree root (h ∷ hs) = if P.root h.tree == root then some h else find_tree root hs

  -- The search stops at the first tree with the root: too old a tree gives no proof, and no other
  -- tree is tried.
  pub search_history-find_tree :
      (identity root ts : ℕ) (hs : List (HistoricalTree P))
      → search_history P identity root ts hs ≡ elim (find_tree root hs) [
        | none ↦ none
        | some h ↦ if ltb h.root_timestamp ts then none else inclusion_at P root h.tree identity
      ]
  unfolding search_history find_tree
  search_history-find_tree identity root ts [] = refl
  search_history-find_tree identity root ts (h ∷ hs) =
      ground (arith, search_history-find_tree identity root ts hs)

module _ (P : PoseidonTree) (L : IsMerkle P) where
  inclusion_at-Verifies :
      (root : Hash) (t : P.Tree) (identity : Hash) (p : InclusionProof P)
      → P.root t ≡ root
      → inclusion_at P root t identity ≡ some p
      → Verifies P identity p × (p.root ≡ root)
  unfolding inclusion_at proof
  inclusion_at-Verifies root t identity p r h =
      elim (Option-cases (position (λ leaf. leaf == identity) (P.leaves t))) [
        | inl e ↦ absurd (ground (arith, e))
        | inr (i, e) ↦
            ground
              (arith, e, L.proof_lem t i identity (position-get_elem? identity (P.leaves t) i e))
      ]

  search_history-Verifies :
      (identity root ts : ℕ) (hs : List (HistoricalTree P)) (p : InclusionProof P)
      → search_history P identity root ts hs ≡ some p
      → Verifies P identity p × (p.root ≡ root)
  unfolding search_history
  search_history-Verifies identity root ts [] p h = cc
  search_history-Verifies identity root ts (x ∷ hs) p h = ground (
    arith,
    inclusion_at-Verifies root x.tree identity p,
    search_history-Verifies identity root ts hs p,
  )

  -- A served proof verifies against the root that was asked for, or the latest root if none was.
  pub get_inclusion_proof-Verifies :
      (d : TreeData P) (identity : Hash) (root : Option Hash) (p : InclusionProof P)
      → get_inclusion_proof P d identity root ≡ some p
      → Verifies P identity p × (p.root ≡ elim root [ none ↦ P.root d.tree | some r ↦ r ])
  unfolding get_inclusion_proof proof_for
  get_inclusion_proof-Verifies d identity none p h =
      ground (arith, inclusion_at-Verifies (P.root d.tree) d.tree identity p refl)
  get_inclusion_proof-Verifies d identity (some r) p h =
      elim (Option-cases (LeafMap.get identity d.leaves)) [
        | inl e ↦ absurd (ground (arith, e))
        | inr (ts, e) ↦ ground (
          arith,
          e,
          inclusion_at-Verifies r d.tree identity p,
          search_history-Verifies identity r ts d.tree_history p,
        )
      ]

  pub inclusion_at-some :
      (root : Hash) (t : P.Tree) (identity : Hash) (i : ℕ)
      → get_elem? (P.leaves t) i ≡ some identity
      → (p : InclusionProof P) × (inclusion_at P root t identity ≡ some p)
  unfolding inclusion_at proof
  inclusion_at-some root t identity i h =
      let (j, e) = position-ne-none identity (P.leaves t) i h in
      (record { root = root; proof = P.proof t j }, ground (arith, e))
