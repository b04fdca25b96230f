-- ===== src/TreeData/Insert.antt =====
-- `insert_many_at` of `TreeData` against what a batch of insertions is to do.
use world_tree.Prelude.{
  ℕ, zero, suc, ◌+◌, ◌≤◌, ◌≡◌, refl, ap, ◌∙◌, some, List, [], ◌∷◌, ◌++◌, arith, length, take, drop,
  set, length-set, contains, if◌then◌else◌,
}
use world_tree.Exec.{ok}
use world_tree.Merkle.{Hash, PoseidonTree, IsMerkle}
use world_tree.LeafMap
use world_tree.LeafMap.{LeafMap, get-insert}
use world_tree.TreeData.{TreeData, insert_at, insert_from, insert_many_at}
use world_tree.TreeData.History.{IsBounded, snapshot, cached, cache_tree_history_lem}

-- The leaves with `ids` written from `start` on.
pub write_from : ℕ → List Hash → List Hash → List Hash
write_from idx [] ls = ls
write_from idx (x ∷ xs) ls = write_from (suc idx) xs (set ls idx x)

write_from-cons :
    (i : ℕ) (x : Hash) (ids ls : List Hash)
    → write_from (suc i) ids (x ∷ ls) ≡ x ∷ write_from i ids ls
unfolding write_from
write_from-cons i x [] ls = refl
write_from-cons i x (y ∷ ids) ls = write_from-cons (suc i) x ids (set ls i y)

-- Consecutive writes in range replace one segment of the leaves.
pub write_from-segment :
    (start : ℕ) (ids ls : List Hash)
    → start + length ids ≤ length ls
    → write_from start ids ls ≡ take start ls ++ (ids ++ drop (start + length ids) ls)
unfolding write_from
write_from-segment zero [] ls h = refl
write_from-segment zero (x ∷ ids) [] h = absurd (omega arith)
write_from-segment zero (x ∷ ids) (y ∷ ls) h =
    let e : 0 + suc (length ids) ≡ suc (length ids) = omega arith in
    let e0 : 0 + length ids ≡ length ids = omega arith in
    rw e (
      write_from-cons 0 x ids ls
      ∙ ap (◌∷◌ x) (rw e0 at (write_from-segment zero ids ls (omega arith))))
write_from-segment (suc i) ids [] h = absurd (omega arith)
write_from-segment (suc i) ids (y ∷ ls) h =
    let e : suc i + length ids ≡ suc (i + length ids) = omega arith in
    rw e (write_from-cons i y ids ls ∙ ap (◌∷◌ y) (write_from-segment i ids ls (omega arith)))

-- The map with every identity of a batch stamped.
pub stamp_all : ℕ → List Hash → LeafMap → LeafMap
stamp_all ts [] m = m
stamp_all ts (x ∷ xs) m = stamp_all ts xs (LeafMap.insert x ts m)

pub get-stamp_all :
    (ts q : ℕ) (ids : List Hash) (m : LeafMap)
    → LeafMap.get q (stamp_all ts ids m) ≡ (if contains q ids then some ts else LeafMap.get q m)
unfolding stamp_all
get-stamp_all ts q [] m = refl
get-stamp_all ts q (x ∷ ids) m =
    ground (arith, get-stamp_all ts q ids (LeafMap.insert x ts m), get-insert x q ts m)

-- What a batch of insertions at time `ts` makes of the state `d`.
pub record Inserted {P : PoseidonTree} (ts start : ℕ) (ids : List Hash) (d d' : TreeData P)
    : Type 0 where
  pub segment :
      P.leaves d'.tree
      ≡ take start (P.leaves d.tree) ++ (ids ++ drop (start + length ids) (P.leaves d.tree))
  pub stamped :
      (q : Hash)
      → LeafMap.get q d'.leaves ≡ (if contains q ids then some ts else LeafMap.get q d.leaves)
  pub history : d'.tree_history ≡ take d.tree_history_size (snapshot d ∷ d.tree_history)
  pub size : d'.tree_history_size ≡ d.tree_history_size
  pub timestamp : d'.latest_root_timestamp ≡ ts
  pub depth : d'.depth ≡ d.depth

module _ (P : PoseidonTree) (E : Type 0) (L : IsMerkle P) where
  insert_from_lem :
      (ts idx : ℕ) (ids : List Hash) (d : TreeData P)
      → idx + length ids ≤ length (P.leaves d.tree)
      → (t : P.Tree) × (insert_from P E ts idx ids d
          ≡ (ok tt, record d { tree = t; leaves = stamp_all ts ids d.leaves }))
        × (P.leaves t ≡ write_from idx ids (P.leaves d.tree))
  unfolding insert_from insert_at write_from stamp_all
  insert_from_lem ts idx [] d h = (d.tree, refl, refl)
  insert_from_lem ts idx (x ∷ ids) d h =
      let (t, updated, written) = L.update_lem d.tree idx x (omega arith) in
      let d1 : TreeData P = record d { tree = t; leaves = LeafMap.insert x ts d.leaves } in
      let (t', rest, final) =
        insert_from_lem ts (suc idx) ids d1
          (rw (written, length-set (P.leaves d.tree) idx x) (omega arith)) in
      (t', ground (arith, updated, rest), rw (← written) final)

  -- A batch of insertions within the tree, from a bounded history, succeeds: the identities are
  -- the segment of the leaves from `start` on and the other leaves stay, each identity is stamped
  -- with the time of the batch, and the tree before it is in the history.
  pub insert_many_at-Inserted :
      (ts start : ℕ) (ids : List Hash) (d : TreeData P)
      → IsBounded d
      → start + length ids ≤ length (P.leaves d.tree)
      → (d' : TreeData P) × (insert_many_at P E (some ts) start ids d ≡ (ok tt, d'))
        × Inserted ts start ids d d'
  unfolding insert_many_at
  insert_many_at-Inserted ts start ids d b h =
      let (t, done, written) = insert_from_lem ts start ids (cached d) h in
      (
        record (cached d) {
          tree = t;
          leaves = stamp_all ts ids d.leaves;
          latest_root_timestamp = ts;
        },
        rw (cache_tree_history_lem P E d b, done),
        record {
          segment = written ∙ write_from-segment start ids (P.leaves d.tree) h;
          stamped = λ q. get-stamp_all ts q ids d.leaves;
          history = refl;
          size = refl;
          timestamp = refl;
          depth = refl;
        },
      )
