-- ===== src/TreeData.antt =====
-- src/tree/tree_data.rs: the tree that is served, its history and its leaves. A method takes the
-- state and returns it beside the outcome. `now` is a reading of the system clock in seconds, or
-- `none` for a clock that stands before the epoch.
pub mod History
pub mod Insert
pub mod Delete
pub mod Proofs
pub mod Frame
pub mod Live
pub mod Full
pub mod Batches
pub mod Runs
pub mod Dated
pub mod Timely
pub mod Standing
use mathlib.Core.Option
use world_tree.Prelude.{
  ℕ, suc, Bool, Option, none, some, List, [], ◌∷◌, length, ltb, ◌==◌, if◌then◌else◌,
}
use world_tree.Exec.{Outcome, ok, panic, Exec, expect, pure, lift, ◌>>=◌, ◌>>◌}
use world_tree.Merkle.{Hash, hash_zero, PoseidonTree}
use world_tree.LeafMap
use world_tree.LeafMap.{LeafMap}

-- `VecDeque::pop_back`, the front first.
unfoldable pub pop_back {ℓ} : {A : Type ℓ} → List A → Option (A × List A)
pop_back [] = none
pop_back (x ∷ []) = some (x, [])
pop_back (x ∷ y ∷ xs) = elim (pop_back (y ∷ xs)) [
  | none ↦ none
  | some (last, rest) ↦ some (last, x ∷ rest)
]

-- `Iterator::position`.
unfoldable pub position : (Hash → Bool) → List Hash → Option ℕ
position p [] = none
position p (x ∷ xs) = if p x then some 0 else Option.map suc (position p xs)

-- Data of the trees of a library `P`.
pub record HistoricalTree (P : PoseidonTree) : Type 0 where
  pub tree : P.Tree
  pub root_timestamp : ℕ

pub record TreeData (P : PoseidonTree) : Type 0 where
  pub tree : P.Tree
  pub depth : ℕ
  pub tree_history_size : ℕ
  pub latest_root_timestamp : ℕ
  pub tree_history : List (HistoricalTree P)
  pub leaves : LeafMap

pub record InclusionProof (P : PoseidonTree) : Type 0 where
  pub root : Hash
  pub proof : P.Proof

module _ (P : PoseidonTree) where
  unfoldable pub new : P.Canonical → ℕ → TreeData P
  new tree tree_history_size = record {
    tree = P.derived tree;
    depth = P.depth tree;
    tree_history_size = tree_history_size;
    latest_root_timestamp = 0;
    tree_history = [];
    leaves = [];
  }

  -- The call of the private `proof` is on the path of `get_inclusion_proof` alone.
  unfoldable pub proof : P.Tree → Hash → Option P.Proof
  proof tree identity = elim (position (λ leaf. leaf == identity) (P.leaves tree)) [
    | none ↦ none
    | some idx ↦ some (P.proof tree idx)
  ]

  unfoldable pub inclusion_at : Hash → P.Tree → Hash → Option (InclusionProof P)
  inclusion_at root tree identity = elim (proof tree identity) [
    | none ↦ none
    | some p ↦ some (record { root = root; proof = p })
  ]

  -- The loop over the history.
  unfoldable pub search_history :
      Hash → Hash → ℕ → List (HistoricalTree P) → Option (InclusionProof P)
  search_history identity root leaf_timestamp [] = none
  search_history identity root leaf_timestamp (prev ∷ older) =
      let rest = search_history identity root leaf_timestamp older in
      if P.root prev.tree == root
      then (if ltb prev.root_timestamp leaf_timestamp
          then none
          else inclusion_at root prev.tree identity)
      else rest

  unfoldable pub proof_for : TreeData P → Hash → Option Hash → ℕ → Option (InclusionProof P)
  proof_for d identity none leaf_timestamp = inclusion_at (P.root d.tree) d.tree identity
  proof_for d identity (some root) leaf_timestamp =
      if root == P.root d.tree
      then inclusion_at root d.tree identity
      else search_history identity root leaf_timestamp d.tree_history

  unfoldable pub get_inclusion_proof : TreeData P → Hash → Option Hash → Option (InclusionProof P)
  get_inclusion_proof d identity root = elim (LeafMap.get identity d.leaves) [
    | none ↦ none
    | some leaf_timestamp ↦ proof_for d identity root leaf_timestamp
  ]

  module _ (E : Type 0) where
    -- The part of `cache_tree_history` that makes room.
    unfoldable pub make_room : Exec E (TreeData P) (Unit {0})
    make_room d =
        if length d.tree_history == d.tree_history_size
        then elim (pop_back d.tree_history) [
          | none ↦ (panic, d)
          | some (last, rest) ↦ (ok tt, record d { tree_history = rest })
        ]
        else (ok tt, d)

    unfoldable pub push_front : Exec E (TreeData P) (Unit {0})
    push_front d = (
      ok tt,
      record d {
        tree_history =
            record { tree = d.tree; root_timestamp = d.latest_root_timestamp } ∷ d.tree_history;
      },
    )

    unfoldable pub cache_tree_history : Exec E (TreeData P) (Unit {0})
    unfolding make_room push_front
    cache_tree_history d =
        if d.tree_history_size == 0 then (ok tt, d) else (make_room >> push_front) d

    -- `current_unix_timestamp!`
    abbrev pub current_unix_timestamp : Option ℕ → Outcome E ℕ
    current_unix_timestamp now = expect now

    abbrev pub set_latest_root_timestamp : ℕ → Exec E (TreeData P) (Unit {0})
    set_latest_root_timestamp t d = (ok tt, record d { latest_root_timestamp = t })

    -- One round of the loop of `insert_many_at`.
    unfoldable pub insert_at : ℕ → ℕ → Hash → Exec E (TreeData P) (Unit {0})
    insert_at timestamp idx identity d = elim (P.update d.tree idx identity) [
      | none ↦ (panic, d)
      | some t ↦ (ok tt, record d { tree = t; leaves = LeafMap.insert identity timestamp d.leaves })
    ]

    unfoldable pub insert_from : ℕ → ℕ → List Hash → Exec E (TreeData P) (Unit {0})
    insert_from timestamp idx [] = pure tt
    insert_from timestamp idx (identity ∷ rest) = do
      insert_at timestamp idx identity
      insert_from timestamp (suc idx) rest

    unfoldable pub insert_many_at : Option ℕ → ℕ → List Hash → Exec E (TreeData P) (Unit {0})
    insert_many_at now start_index identities = do
      cache_tree_history
      timestamp ← lift (current_unix_timestamp now)
      insert_from timestamp start_index identities
      set_latest_root_timestamp timestamp

    -- One round of the loop of `delete_many`: the leaf leaves the map, then the tree.
    unfoldable pub remove_leaf : ℕ → Exec E (TreeData P) (Unit {0})
    remove_leaf idx d = elim (P.get_leaf d.tree idx) [
      | none ↦ (panic, d)
      | some identity ↦ (ok tt, record d { leaves = LeafMap.remove identity d.leaves })
    ]

    unfoldable pub clear_leaf : ℕ → Exec E (TreeData P) (Unit {0})
    clear_leaf idx d = elim (P.update d.tree idx hash_zero) [
      | none ↦ (panic, d)
      | some t ↦ (ok tt, record d { tree = t })
    ]

    unfoldable pub delete_each : List ℕ → Exec E (TreeData P) (Unit {0})
    unfolding remove_leaf clear_leaf
    delete_each [] = pure tt
    delete_each (idx ∷ rest) = do remove_leaf idx; clear_leaf idx; delete_each rest

    unfoldable pub delete_many : Option ℕ → List ℕ → Exec E (TreeData P) (Unit {0})
    delete_many now delete_indices = do
      cache_tree_history
      delete_each delete_indices
      timestamp ← lift (current_unix_timestamp now)
      set_latest_root_timestamp timestamp
