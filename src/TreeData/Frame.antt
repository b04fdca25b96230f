-- ===== src/TreeData/Frame.antt =====
-- What the batches of `TreeData` leave alone on every outcome, a panic included.
use world_tree.Prelude.{ℕ, suc, ◌≡◌, Option, none, some, List, [], ◌∷◌, arith}
use world_tree.Exec.{Exec, lift, ◌>>=◌, ◌>>◌}
use world_tree.Merkle.{Hash, PoseidonTree}
use world_tree.TreeData.{
  TreeData, insert_at, insert_from, insert_many_at, remove_leaf, clear_leaf, delete_each,
  delete_many, current_unix_timestamp, set_latest_root_timestamp,
}
use world_tree.TreeData.History.{IsBounded, cached, cache_tree_history_lem}

-- The history, its size and the depth.
pub record SameFrame {P : PoseidonTree} (d d' : TreeData P) : Type 0 where
  pub history : d'.tree_history ≡ d.tree_history
  pub size : d'.tree_history_size ≡ d.tree_history_size
  pub depth : d'.depth ≡ d.depth

module _ (P : PoseidonTree) (E : Type 0) where
  -- A method that leaves the frame alone.
  abbrev Frames : Exec E (TreeData P) (Unit {0}) → Type 0
  Frames m = (d : TreeData P) → SameFrame d (m d).1

  Frames-then : (m n : Exec E (TreeData P) (Unit {0})) → Frames m → Frames n → Frames (m >> n)
  Frames-then m n hm hn d = ground (arith, hm d, hn (m d).1)

  Frames-insert_at : (ts idx : ℕ) (x : Hash) → Frames (insert_at P E ts idx x)
  unfolding insert_at
  Frames-insert_at ts idx x d = ground arith

  Frames-insert_from : (ts idx : ℕ) (ids : List Hash) → Frames (insert_from P E ts idx ids)
  unfolding insert_from
  Frames-insert_from ts idx [] d = ground arith
  Frames-insert_from ts idx (x ∷ ids) d =
      Frames-then (insert_at P E ts idx x) (insert_from P E ts (suc idx) ids)
        (Frames-insert_at ts idx x) (Frames-insert_from ts (suc idx) ids) d

  Frames-delete_each : (is : List ℕ) → Frames (delete_each P E is)
  unfolding delete_each
  Frames-delete_each [] d = ground arith
  Frames-delete_each (i ∷ is) d =
      Frames-then (remove_leaf P E i) (clear_leaf P E i >> delete_each P E is) (λ c. ground arith)
        (Frames-then (clear_leaf P E i) (delete_each P E is) (λ c. ground arith)
          (Frames-delete_each is))
        d

  abbrev stamp_root : Option ℕ → Exec E (TreeData P) (Unit {0})
  stamp_root now = lift (current_unix_timestamp P E now) >>= set_latest_root_timestamp P E

  Frames-stamp_root : (now : Option ℕ) → Frames (stamp_root now)
  Frames-stamp_root none c = ground arith
  Frames-stamp_root (some ts) c = ground arith

  -- Whatever becomes of a batch of insertions from a bounded history, a panic included, the history
  -- has taken the tree before the batch, and its size and the depth are as they were.
  pub insert_many_at-SameFrame :
      (now : Option ℕ) (start : ℕ) (ids : List Hash) (d : TreeData P)
      → IsBounded d
      → SameFrame (cached d) (insert_many_at P E now start ids d).1
  unfolding insert_many_at
  insert_many_at-SameFrame none start ids d b = rw (cache_tree_history_lem P E d b) (ground arith)
  insert_many_at-SameFrame (some ts) start ids d b = rw (cache_tree_history_lem P E d b) (
      Frames-then (insert_from P E ts start ids) (set_latest_root_timestamp P E ts)
        (Frames-insert_from ts start ids) (λ c. ground arith) (cached d))

  -- Whatever becomes of a batch of deletions from a bounded history, a panic included, the history
  -- has taken the tree before the batch, and its size and the depth are as they were.
  pub delete_many-SameFrame :
      (now : Option ℕ) (is : List ℕ) (d : TreeData P)
      → IsBounded d
      → SameFrame (cached d) (delete_many P E now is d).1
  unfolding delete_many
  delete_many-SameFrame now is d b = rw (cache_tree_history_lem P E d b) (
      Frames-then (delete_each P E is) (stamp_root now) (Frames-delete_each is)
        (Frames-stamp_root now) (cached d))
