-- ===== src/TreeData/Batches.antt =====
-- Whole batches of `TreeData`, and what `get_inclusion_proof` serves after them.
use world_tree.Prelude.{
  ℕ, ◌+◌, ◌≤◌, ◌<◌, ◌≡◌, ◌≢◌, inl, inr, true, false, Option, none, some, List, arith, length,
  contains, Bool-cases, ℕ-cases,
}
use world_tree.Exec.{ok}
use world_tree.Merkle.{Hash, hash_zero, PoseidonTree, IsMerkle}
use world_tree.LeafMap
use world_tree.TreeData.{
  TreeData, InclusionProof, search_history, proof_for, get_inclusion_proof, insert_many_at,
  delete_many,
}
use world_tree.TreeData.History.{IsBounded}
use world_tree.TreeData.Insert.{Inserted, insert_many_at-Inserted}
use world_tree.TreeData.Delete.{AllBelow, holds, delete_many-Deleted}
use world_tree.TreeData.Runs.{Inserted-of_run}
use world_tree.TreeData.Proofs.{Verifies, get_inclusion_proof-Verifies, inclusion_at-some}
use world_tree.TreeData.Live.{IsLive, IsVacant, nonzero_key, Inserted-IsLive, Deleted-IsLive}

module _ (P : PoseidonTree) where
  -- The service has a proof of `q` against the latest root, and it verifies.
  abbrev pub Serves : TreeData P → Hash → Type 0
  Serves d q =
      (p : InclusionProof P) × (get_inclusion_proof P d q none ≡ some p)
      × Verifies P q p
      × (p.root ≡ P.root d.tree)

  -- An identity that is not in the map gets no proof, whatever root is asked for.
  pub get_inclusion_proof-unknown :
      (d : TreeData P) (q : Hash) (root : Option Hash)
      → LeafMap.get q d.leaves ≡ none
      → get_inclusion_proof P d q root ≡ none
  unfolding get_inclusion_proof
  get_inclusion_proof-unknown d q root h = ground (arith, h)

module _ (P : PoseidonTree) (L : IsMerkle P) where
  -- In a live state every identity of the map is served.
  pub live-Serves :
      (d : TreeData P) (q ts : ℕ) → IsLive d → LeafMap.get q d.leaves ≡ some ts → Serves P d q
  unfolding get_inclusion_proof proof_for
  live-Serves d q ts l h =
      let (i, at_i) = l.present q ts h in
      let (p, e) = inclusion_at-some P L (P.root d.tree) d.tree q i at_i in
      let served : get_inclusion_proof P d q none ≡ some p = ground (arith, h, e) in
      let (verified, root) = get_inclusion_proof-Verifies P L d q none p served in
      (p, served, verified, root)

  module _ (E : Type 0) where
    -- From a live state, a batch of identities that goes to empty leaves is written, the state stays
    -- live, and every identity that was in the map or is in the batch is served afterwards.
    pub insert_many_at-Serves :
        (ts start : ℕ) (ids : List Hash) (d : TreeData P)
        → IsLive d
        → IsVacant start ids (P.leaves d.tree)
        → (d' : TreeData P) × (insert_many_at P E (some ts) start ids d ≡ (ok tt, d'))
          × IsLive d'
          × ((q : Hash) → contains q ids ≡ true → Serves P d' q)
          × ((q t : ℕ) → LeafMap.get q d.leaves ≡ some t → Serves P d' q)
    insert_many_at-Serves ts start ids d l v =
        let (d', done, s) = insert_many_at-Inserted P E L ts start ids d l.bounded v.fits in
        let l' = Inserted-IsLive P s v l in
        (
          d',
          done,
          l',
          (λ q c. live-Serves d' q ts l' (ground (arith, s.stamped q, c))),
          (λ q t h. elim (Bool-cases (contains q ids)) [
            | inl c ↦ live-Serves d' q ts l' (ground (arith, s.stamped q, c))
            | inr c ↦ live-Serves d' q t l' (ground (arith, s.stamped q, c, h))
          ]),
        )

    -- From a live state, a batch of deletions within the tree is written, the state stays live, the
    -- identities at its indices get no proof at any root, old ones included, and every other
    -- identity of the map is served.
    pub delete_many-Serves :
        (ts : ℕ) (is : List ℕ) (d : TreeData P)
        → IsLive d
        → AllBelow (length (P.leaves d.tree)) is
        → (d' : TreeData P) × (delete_many P E (some ts) is d ≡ (ok tt, d'))
          × IsLive d'
          × ((q : Hash) (root : Option Hash)
              → q ≢ hash_zero
              → holds q is (P.leaves d.tree) ≡ true
              → get_inclusion_proof P d' q root ≡ none)
          × ((q t : ℕ)
              → LeafMap.get q d.leaves ≡ some t
              → holds q is (P.leaves d.tree) ≡ false
              → Serves P d' q)
    delete_many-Serves ts is d l b =
        let (d', done, s) = delete_many-Deleted P E L ts is d l.bounded b in
        let l' = Deleted-IsLive P s l in
        (
          d',
          done,
          l',
          (λ q root z c.
              get_inclusion_proof-unknown P d' q root (ground (arith, s.forgotten q z, c))),
          (λ q t h c.
              live-Serves d' q t l' (ground (arith, s.forgotten q (nonzero_key P l h), c, h))),
        )

-- Requests for the root before a batch of insertions.
module _ (P : PoseidonTree) {ts start : ℕ} {ids : List Hash} {d d' : TreeData P} where
  Inserted-kept :
      (q t : ℕ)
      → Inserted ts start ids d d'
      → 0 < d.tree_history_size
      → P.root d.tree ≢ P.root d'.tree
      → contains q ids ≡ false
      → LeafMap.get q d.leaves ≡ some t
      → t ≤ d.latest_root_timestamp
      → get_inclusion_proof P d' q (some (P.root d.tree))
        ≡ get_inclusion_proof P d q (some (P.root d.tree))
  unfolding get_inclusion_proof proof_for search_history
  Inserted-kept q t s z r c h o = elim (ℕ-cases d.tree_history_size) [
    | inl e ↦ absurd (omega (arith, e))
    | inr (n, e) ↦ ground (arith, s.stamped q, c, h, s.history, e)
  ]

  Inserted-refused :
      (q : ℕ)
      → Inserted ts start ids d d'
      → 0 < d.tree_history_size
      → P.root d.tree ≢ P.root d'.tree
      → contains q ids ≡ true
      → d.latest_root_timestamp < ts
      → get_inclusion_proof P d' q (some (P.root d.tree)) ≡ none
  unfolding get_inclusion_proof proof_for search_history
  Inserted-refused q s z r c o = elim (ℕ-cases d.tree_history_size) [
    | inl e ↦ absurd (omega (arith, e))
    | inr (n, e) ↦ ground (arith, s.stamped q, c, s.history, e)
  ]

module _ (P : PoseidonTree) (L : IsMerkle P) (E : Type 0) where
  -- After a batch of insertions within the tree, from a bounded history, a request for the root
  -- before it is answered as before the batch, if the size of the history is not 0, the root has
  -- changed, the identity is not in the batch and was stamped no later than the old root.
  pub old_root_kept :
      (ts start : ℕ) (ids : List Hash) (d d' : TreeData P) (q t : ℕ)
      → IsBounded d
      → start + length ids ≤ length (P.leaves d.tree)
      → insert_many_at P E (some ts) start ids d ≡ (ok tt, d')
      → 0 < d.tree_history_size
      → P.root d.tree ≢ P.root d'.tree
      → contains q ids ≡ false
      → LeafMap.get q d.leaves ≡ some t
      → t ≤ d.latest_root_timestamp
      → get_inclusion_proof P d' q (some (P.root d.tree))
        ≡ get_inclusion_proof P d q (some (P.root d.tree))
  old_root_kept ts start ids d d' q t b h run =
      Inserted-kept P q t (Inserted-of_run P E L ts start ids d d' b h run)

  -- After a batch of insertions within the tree, from a bounded history, an identity of the batch
  -- gets no proof for the root before it, if the size of the history is not 0, the root has changed
  -- and the clock has moved on from the time of that root.
  pub old_root_refused :
      (ts start : ℕ) (ids : List Hash) (d d' : TreeData P) (q : ℕ)
      → IsBounded d
      → start + length ids ≤ length (P.leaves d.tree)
      → insert_many_at P E (some ts) start ids d ≡ (ok tt, d')
      → 0 < d.tree_history_size
      → P.root d.tree ≢ P.root d'.tree
      → contains q ids ≡ true
      → d.latest_root_timestamp < ts
      → get_inclusion_proof P d' q (some (P.root d.tree)) ≡ none
  old_root_refused ts start ids d d' q b h run =
      Inserted-refused P q (Inserted-of_run P E L ts start ids d d' b h run)
