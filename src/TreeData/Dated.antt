-- ===== src/TreeData/Dated.antt =====
-- The times of the trees and of the identities: which requests `get_inclusion_proof` answers.
use mathlib.Core.Path.{subst}
use world_tree.Prelude.{
  zero, suc, ℕ, ◌≤◌, ◌<◌, ◌≡◌, ◌≢◌, ◌↔◌, inl, inr, some, List, [], ◌∷◌, arith, get_elem?, take, All,
  contains, ◌==◌, Bool-cases, Option-cases, eq_of_==, ne_of_==, le_or_lt,
}
use world_tree.Merkle.{Hash, PoseidonTree, IsMerkle}
use world_tree.LeafMap
use world_tree.TreeData.{
  TreeData, HistoricalTree, InclusionProof, new, get_inclusion_proof, proof_for, search_history,
}
use world_tree.TreeData.History.{snapshot}
use world_tree.TreeData.Insert.{Inserted}
use world_tree.TreeData.Delete.{Deleted}
use world_tree.TreeData.Batches.{get_inclusion_proof-unknown}
use world_tree.TreeData.Proofs.{find_tree, search_history-find_tree, inclusion_at-some}
use world_tree.TreeData.Live.{
  IsLive, IsVacant, new-IsLive, nonzero_key, Inserted-IsLive, Deleted-IsLive,
}

All-take : {A : Type 0} (Q : A → Type 0) (n : ℕ) (xs : List A) → All Q xs → All Q (take n xs)
All-take Q zero xs a = tt
All-take Q (suc n) [] a = tt
All-take Q (suc n) (x ∷ xs) a = (a.0, All-take Q n xs a.1)

All-map :
    {A : Type 0} (Q R : A → Type 0) (xs : List A) → ((x : A) → Q x → R x) → All Q xs → All R xs
All-map Q R [] f a = tt
All-map Q R (x ∷ xs) f a = (f x a.0, All-map Q R xs f a.1)

module _ {P : PoseidonTree} where
  -- A tree of the history has every identity of the map that was stamped no later than it.
  abbrev pub Holds : TreeData P → HistoricalTree P → Type 0
  Holds d h =
      (q t : ℕ)
      → LeafMap.get q d.leaves ≡ some t
      → t ≤ h.root_timestamp
      → (i : ℕ) × (get_elem? (P.leaves h.tree) i ≡ some q)

  pub record IsDated (d : TreeData P) : Type 0 where
    pub live : IsLive d
    -- The trees of the history are no newer than the current one.
    pub ordered : All (λ h. h.root_timestamp ≤ d.latest_root_timestamp) d.tree_history
    pub held : All (Holds d) d.tree_history

  -- The first tree of the history with a root is a tree of the history.
  find_tree-All :
      (Q : HistoricalTree P → Type 0) (root : Hash) (hs : List (HistoricalTree P))
      (h : HistoricalTree P)
      → All Q hs
      → find_tree P root hs ≡ some h
      → Q h
  unfolding find_tree
  find_tree-All Q root [] h a e = cc
  find_tree-All Q root (x ∷ hs) h a e = elim (Bool-cases (P.root x.tree == root)) [
    | inl f ↦ let same : x ≡ h = ground (arith, f, e) in subst Q same a.0
    | inr f ↦ find_tree-All Q root hs h a.1 (ground (arith, f, e))
  ]

  -- The batch leaves the stamps that are no newer than the old root as they were.
  abbrev OldStamps : TreeData P → TreeData P → Type 0
  OldStamps d d' =
      (q t : ℕ)
      → LeafMap.get q d'.leaves ≡ some t
      → t ≤ d.latest_root_timestamp
      → LeafMap.get q d.leaves ≡ some t

  Holds-later :
      (d d' : TreeData P) (hs : List (HistoricalTree P))
      → OldStamps d d'
      → All (λ h. h.root_timestamp ≤ d.latest_root_timestamp) hs
      → All (Holds d) hs
      → All (Holds d') hs
  Holds-later d d' [] o a b = tt
  Holds-later d d' (x ∷ hs) o a b =
      ((λ q t e le. b.0 q t (o q t e (omega (arith, a.0))) le), Holds-later d d' hs o a.1 b.1)

  -- A batch at a time no earlier than the old root, which keeps the old stamps and caches the tree.
  step-IsDated :
      (d d' : TreeData P)
      → d.latest_root_timestamp ≤ d'.latest_root_timestamp
      → d'.tree_history ≡ take d.tree_history_size (snapshot d ∷ d.tree_history)
      → OldStamps d d'
      → IsLive d'
      → IsDated d
      → IsDated d'
  step-IsDated d d' later history o l g =
      let all : List (HistoricalTree P) = snapshot d ∷ d.tree_history in
      let ordered : All (λ h. h.root_timestamp ≤ d.latest_root_timestamp) all =
        (omega arith, g.ordered) in
      record {
        live = l;
        ordered = rw history (
            All-take (λ h. h.root_timestamp ≤ d'.latest_root_timestamp) d.tree_history_size all
              (All-map _ _ all (λ h k. omega (arith, k, later)) ordered));
        held = rw history (
            All-take (Holds d') d.tree_history_size all
              (Holds-later d d' all o ordered ((λ q t e le. g.live.present q t e), g.held)));
      }

  pub Inserted-IsDated :
      {ts start : ℕ} {ids : List Hash} {d d' : TreeData P}
      → Inserted ts start ids d d'
      → IsVacant start ids (P.leaves d.tree)
      → d.latest_root_timestamp < ts
      → IsDated d
      → IsDated d'
  Inserted-IsDated {ts} {start} {ids} {d} {d'} s v later g =
      step-IsDated d d' (rw s.timestamp (omega arith)) s.history
        (λ q t e le. elim (Bool-cases (contains q ids)) [
          | inl c ↦ absurd (ground (arith, s.stamped q, c, e))
          | inr c ↦ ground (arith, s.stamped q, c, e)
        ])
        (Inserted-IsLive P s v g.live) g

  pub Deleted-IsDated :
      {ts : ℕ} {is : List ℕ} {d d' : TreeData P}
      → Deleted ts is d d'
      → d.latest_root_timestamp ≤ ts
      → IsDated d
      → IsDated d'
  Deleted-IsDated {ts} {is} {d} {d'} s later g =
      let l = Deleted-IsLive P s g.live in
      step-IsDated d d' (rw s.timestamp later) s.history
        (λ q t e le. ground (arith, s.forgotten q (nonzero_key P l e), e)) l g

module _ (P : PoseidonTree) where
  pub new-IsDated : (tree : P.Canonical) (size : ℕ) → IsDated (new P tree size)
  unfolding new
  new-IsDated tree size = record { live = new-IsLive P tree size; ordered = tt; held = tt }

  -- A request for a root is due an answer for an identity of time `t`: the root is the current one,
  -- or that of a tree of the history (the newest one with that root) which is no older than `t`.
  pub data IsDue (d : TreeData P) (t : ℕ) (root : Hash) : Type 0 where
    current : root ≡ P.root d.tree → IsDue d t root
    historical :
        (h : HistoricalTree P)
        → root ≢ P.root d.tree
        → find_tree P root d.tree_history ≡ some h
        → t ≤ h.root_timestamp
        → IsDue d t root

  -- An answer comes only if it is due.
  answered-IsDue :
      (d : TreeData P) (q root t : ℕ) (p : InclusionProof P)
      → LeafMap.get q d.leaves ≡ some t
      → get_inclusion_proof P d q (some root) ≡ some p
      → IsDue d t root
  unfolding get_inclusion_proof proof_for
  answered-IsDue d q root t p h e = elim (Bool-cases (root == P.root d.tree)) [
    | inl c ↦ current (eq_of_== root (P.root d.tree) c)
    | inr c ↦
        let searched : search_history P q root t d.tree_history ≡ some p =
          ground (arith, h, c, e) in
        elim (Option-cases (find_tree P root d.tree_history)) [
          | inl f ↦
              absurd
                (ground (arith, search_history-find_tree P q root t d.tree_history, f, searched))
          | inr (x, f) ↦ elim (le_or_lt t x.root_timestamp) [
            | inl le ↦ historical x (ne_of_== root (P.root d.tree) c) f le
            | inr lt ↦ absurd (
                ground (arith, search_history-find_tree P q root t d.tree_history, f, searched, lt))
          ]
        ]
  ]

  module _ (L : IsMerkle P) where
    -- What is due is answered.
    pub due-answered :
        (d : TreeData P) (q root t : ℕ)
        → IsDated d
        → LeafMap.get q d.leaves ≡ some t
        → IsDue d t root
        → (p : InclusionProof P) × (get_inclusion_proof P d q (some root) ≡ some p)
    unfolding get_inclusion_proof proof_for
    due-answered d q root t g h (current e) =
        let (i, at_i) = g.live.present q t h in
        let (p, f) = inclusion_at-some P L root d.tree q i at_i in (p, ground (arith, h, e, f))
    due-answered d q root t g h (historical x ne found le) =
        let (i, at_i) = find_tree-All (Holds d) root d.tree_history x g.held found q t h le in
        let (p, f) = inclusion_at-some P L root x.tree q i at_i in
        (p, ground (arith, h, ne, search_history-find_tree P q root t d.tree_history, found, le, f))

    -- In a dated state, a request for an identity at a root is answered exactly if the identity is
    -- in the map, and the root is the current one or that of a tree of the history (the newest one
    -- with that root) which is no older than the identity.
    pub get_inclusion_proof_iff :
        (d : TreeData P) (q : Hash) (root : Hash)
        → IsDated d
        → ((p : InclusionProof P) × (get_inclusion_proof P d q (some root) ≡ some p))
          ↔ ((t : ℕ) × (LeafMap.get q d.leaves ≡ some t) × IsDue d t root)
    get_inclusion_proof_iff d q root g = (
      (λ (p, e). elim (Option-cases (LeafMap.get q d.leaves)) [
        | inl f ↦ absurd (ground (arith, get_inclusion_proof-unknown P d q (some root) f, e))
        | inr (t, f) ↦ (t, f, answered-IsDue d q root t p f e)
      ]),
      (λ (t, f, due). due-answered d q root t g f due),
    )
