-- ===== src/Tests/Tree.antt =====
-- A tree library that keeps its leaves in a list, with the laws that src/tree relies on.
use world_tree.Prelude.{
  ℕ, zero, suc, ◌+◌, ◌*◌, ◌^◌, ◌≡◌, refl, ap, none, some, List, [], ◌∷◌, arith, length, get_elem?,
  set, replicate, ltb, if◌then◌else◌,
}
use world_tree.Merkle.{PoseidonTree, IsMerkle}

abbrev pub root_of : List ℕ → ℕ
root_of [] = 1
root_of (x ∷ xs) = x + 10 * root_of xs

abbrev pub list_tree : PoseidonTree
list_tree = record {
  Tree = List ℕ;
  Canonical = ℕ × ℕ;
  Proof = List ℕ × ℕ;
  new_with_dense_prefix = λ depth dense h. (depth, h);
  derived = λ c. replicate (2 ^ c.0) c.1;
  depth = λ c. c.0;
  root = root_of;
  leaves = λ t. t;
  get_leaf = get_elem?;
  update = λ t i h. if ltb i (length t) then some (set t i h) else none;
  proof = λ t i. (t, i);
  proof_root = λ p h. root_of (set p.0 p.1 h);
}

set_same : (ls : List ℕ) (i h : ℕ) → get_elem? ls i ≡ some h → set ls i h ≡ ls
set_same [] i h e = refl
set_same (x ∷ ls) zero h e = ground (arith, e)
set_same (x ∷ ls) (suc i) h e = ap (◌∷◌ x) (set_same ls i h e)

pub list_tree-IsMerkle : IsMerkle list_tree
list_tree-IsMerkle = record {
  get_leaf_lem = λ t i b. refl;
  update_lem = λ t i h b. (set t i h, ground (arith, b), refl);
  proof_lem = λ t i h e. ap root_of (set_same t i h e);
  new_lem = λ d p h. refl;
  depth_lem = λ d p h. refl;
}
