-- ===== src/Tests/Batches.antt =====
-- The theorems on `TreeData` at a tree of four leaves.
use world_tree.Prelude.{
  ap, Bool-cases, ◌==◌, eq_of_==, inl, inr, ℕ, zero, suc, ◌+◌, ◌<◌, ◌≡◌, ◌≢◌, refl, true, false,
  Option, none, some, List, [], ◌∷◌, arith, get_elem?, contains,
}
use world_tree.Exec.{ok}
use world_tree.Merkle.{Hash, hash_zero}
use world_tree.LeafMap
use world_tree.TreeData.{
  TreeData, InclusionProof, new, get_inclusion_proof, search_history, insert_many_at, delete_many,
  cache_tree_history, pop_back, insert_from, insert_at, proof_for, inclusion_at, proof, position,
}
use world_tree.TreeData.Insert.{Inserted, insert_many_at-Inserted}
use world_tree.TreeData.Delete.{Deleted, holds, delete_many-Deleted}
use world_tree.TreeData.Proofs.{Verifies, get_inclusion_proof-Verifies}
use world_tree.TreeData.Live.{IsLive, IsVacant}
use world_tree.TreeData.Batches.{Serves, insert_many_at-Serves, delete_many-Serves}
use world_tree.Tests.Tree.{list_tree, list_tree-IsMerkle}

abbrev pub ids : List Hash
ids = 7 ∷ 8 ∷ []

abbrev empty_tree : List ℕ
empty_tree = 0 ∷ 0 ∷ 0 ∷ 0 ∷ []

abbrev pub empty_data : TreeData list_tree
empty_data = record {
  tree = empty_tree;
  depth = 2;
  tree_history_size = 1;
  latest_root_timestamp = 0;
  tree_history = [];
  leaves = [];
}

-- After the batch of 7 and 8 at time 100, and then one of 9 at time 200.
abbrev pub one_batch : TreeData list_tree
one_batch = record {
  tree = 7 ∷ 8 ∷ 0 ∷ 0 ∷ [];
  depth = 2;
  tree_history_size = 1;
  latest_root_timestamp = 100;
  tree_history = record { tree = empty_tree; root_timestamp = 0 } ∷ [];
  leaves = (8, 100) ∷ (7, 100) ∷ [];
}

abbrev pub two_batches : TreeData list_tree
two_batches = record {
  tree = 7 ∷ 8 ∷ 9 ∷ 0 ∷ [];
  depth = 2;
  tree_history_size = 1;
  latest_root_timestamp = 200;
  tree_history = record { tree = 7 ∷ 8 ∷ 0 ∷ 0 ∷ []; root_timestamp = 100 } ∷ [];
  leaves = (9, 200) ∷ (8, 100) ∷ (7, 100) ∷ [];
}

empty_data-new : new list_tree (2, 0) 1 ≡ empty_data
unfolding new
empty_data-new = refl

pub one_batch-run : insert_many_at list_tree ℕ (some 100) 0 ids empty_data ≡ (ok tt, one_batch)
unfolding insert_many_at cache_tree_history pop_back insert_from insert_at LeafMap.insert
    LeafMap.remove
one_batch-run = refl

pub two_batches-run :
    insert_many_at list_tree ℕ (some 200) 2 (9 ∷ []) one_batch ≡ (ok tt, two_batches)
unfolding insert_many_at cache_tree_history pop_back insert_from insert_at LeafMap.insert
    LeafMap.remove
two_batches-run = refl

empty_data-IsLive : IsLive empty_data
empty_data-IsLive = record {
  bounded = omega arith;
  no_zero = LeafMap.get-nil hash_zero;
  present = λ q ts h. absurd (ground (arith, LeafMap.get-nil q, h));
}

pub ids-IsVacant : IsVacant 0 ids empty_tree
ids-IsVacant = record { fits = omega arith; vacant = empty_before; nonzero = refl }
  where
    empty_before : (k : ℕ) → k < 2 → get_elem? empty_tree (0 + k) ≡ some hash_zero
    empty_before zero h = refl
    empty_before (suc zero) h = refl
    empty_before (suc (suc k)) h = absurd (omega arith)

one_batch-IsLive : IsLive one_batch
unfolding LeafMap.get
one_batch-IsLive = record { bounded = omega arith; no_zero = refl; present = found }
  where
    found :
        (q ts : ℕ)
        → LeafMap.get q one_batch.leaves ≡ some ts
        → (i : ℕ) × (get_elem? one_batch.tree i ≡ some q)
    found q ts h = elim (Bool-cases (7 == q)) [
      | inl e ↦ (0, ap some (eq_of_== 7 q e))
      | inr e ↦ elim (Bool-cases (8 == q)) [
        | inl f ↦ (1, ap some (eq_of_== 8 q f))
        | inr f ↦ absurd (ground (arith, e, f, h))
      ]
    ]

insert_many_at-Serves_example :
    (d' : TreeData list_tree) × (insert_many_at list_tree ℕ (some 100) 0 ids empty_data
      ≡ (ok tt, d'))
    × IsLive d'
    × ((q : Hash) → contains q ids ≡ true → Serves list_tree d' q)
    × ((q t : ℕ) → LeafMap.get q empty_data.leaves ≡ some t → Serves list_tree d' q)
insert_many_at-Serves_example =
    insert_many_at-Serves list_tree list_tree-IsMerkle ℕ 100 0 ids empty_data empty_data-IsLive
      ids-IsVacant

delete_many-Serves_example :
    (d' : TreeData list_tree) × (delete_many list_tree ℕ (some 300) (1 ∷ []) one_batch
      ≡ (ok tt, d'))
    × IsLive d'
    × ((q : Hash) (root : Option Hash)
        → q ≢ hash_zero
        → holds q (1 ∷ []) one_batch.tree ≡ true
        → get_inclusion_proof list_tree d' q root ≡ none)
    × ((q t : ℕ)
        → LeafMap.get q one_batch.leaves ≡ some t
        → holds q (1 ∷ []) one_batch.tree ≡ false
        → Serves list_tree d' q)
delete_many-Serves_example =
    delete_many-Serves list_tree list_tree-IsMerkle ℕ 300 (1 ∷ []) one_batch one_batch-IsLive
      (omega arith, tt)

insert_many_at-Inserted_example :
    (d' : TreeData list_tree) × (insert_many_at list_tree ℕ (some 200) 2 (9 ∷ []) one_batch
      ≡ (ok tt, d'))
    × Inserted 200 2 (9 ∷ []) one_batch d'
insert_many_at-Inserted_example =
    insert_many_at-Inserted list_tree ℕ list_tree-IsMerkle 200 2 (9 ∷ []) one_batch (omega arith)
      (omega arith)

delete_many-Deleted_example :
    (d' : TreeData list_tree) × (delete_many list_tree ℕ (some 300) (1 ∷ 0 ∷ []) one_batch
      ≡ (ok tt, d'))
    × Deleted 300 (1 ∷ 0 ∷ []) one_batch d'
delete_many-Deleted_example =
    delete_many-Deleted list_tree ℕ list_tree-IsMerkle 300 (1 ∷ 0 ∷ []) one_batch (omega arith)
      (omega arith, (omega arith, tt))

seven_stamp : LeafMap.get 7 one_batch.leaves ≡ some 100
unfolding LeafMap.get
seven_stamp = refl

-- The proof of 7 for the root before the last batch.
abbrev old_proof : InclusionProof list_tree
old_proof = record { root = 10087; proof = (7 ∷ 8 ∷ 0 ∷ 0 ∷ [], 0) }

old_proof-run : get_inclusion_proof list_tree two_batches 7 (some 10087) ≡ some old_proof
unfolding get_inclusion_proof LeafMap.get proof_for search_history inclusion_at proof position
old_proof-run = refl

get_inclusion_proof-Verifies_example : Verifies list_tree 7 old_proof × (old_proof.root ≡ 10087)
get_inclusion_proof-Verifies_example =
    get_inclusion_proof-Verifies list_tree list_tree-IsMerkle two_batches 7 (some 10087) old_proof
      old_proof-run
