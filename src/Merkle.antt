-- ===== src/Merkle.antt =====
-- The interface of `LazyMerkleTree<PoseidonHash, _>` of the semaphore crate, which src/tree/mod.rs
-- names `PoseidonTree` and does not implement.
use world_tree.Prelude.{ℕ, ◌<◌, ◌^◌, ◌≡◌, Option, some, List, length, get_elem?, set, replicate}

-- `<PoseidonHash as Hasher>::Hash`, a 256-bit unsigned integer.
abbrev pub Hash : Type 0
Hash = ℕ

abbrev pub hash_zero : Hash
hash_zero = 0

-- The operations that the sources call. `none` is a call that panics.
pub record PoseidonTree : Type 1 where
  -- `PoseidonTree<Derived>`
  pub Tree : Type 0
  -- `PoseidonTree<Canonical>`
  pub Canonical : Type 0
  pub Proof : Type 0
  pub new_with_dense_prefix : ℕ → ℕ → Hash → Canonical
  pub derived : Canonical → Tree
  pub depth : Canonical → ℕ
  pub root : Tree → Hash
  pub leaves : Tree → List Hash
  pub get_leaf : Tree → ℕ → Option Hash
  pub update : Tree → ℕ → Hash → Option Tree
  pub proof : Tree → ℕ → Proof
  -- The root that a proof gives for a leaf.
  pub proof_root : Proof → Hash → Hash

-- What the crate documents of them, for indices in range.
pub record IsMerkle (P : PoseidonTree) : Type 0 where
  pub get_leaf_lem :
      (t : P.Tree) (i : ℕ) → i < length (P.leaves t) → P.get_leaf t i ≡ get_elem? (P.leaves t) i
  pub update_lem :
      (t : P.Tree) (i : ℕ) (h : Hash)
      → i < length (P.leaves t)
      → (t' : P.Tree) × (P.update t i h ≡ some t') × (P.leaves t' ≡ set (P.leaves t) i h)
  pub proof_lem :
      (t : P.Tree) (i : ℕ) (h : Hash)
      → get_elem? (P.leaves t) i ≡ some h
      → P.proof_root (P.proof t i) h ≡ P.root t
  pub new_lem :
      (d p : ℕ) (h : Hash)
      → P.leaves (P.derived (P.new_with_dense_prefix d p h)) ≡ replicate (2 ^ d) h
  pub depth_lem : (d p : ℕ) (h : Hash) → P.depth (P.new_with_dense_prefix d p h) ≡ d
