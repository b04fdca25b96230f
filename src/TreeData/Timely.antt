-- ===== src/TreeData/Timely.antt =====
-- Which requests are answered after any run of batches at times that move on.
use world_tree.Prelude.{ℕ, ◌≤◌, ◌<◌, ◌≡◌, ◌↔◌, some, List}
use world_tree.Merkle.{Hash, PoseidonTree, IsMerkle}
use world_tree.LeafMap
use world_tree.TreeData.{TreeData, HistoricalTree, InclusionProof, new, get_inclusion_proof}
use world_tree.TreeData.Live.{IsVacant}
use world_tree.TreeData.Runs.{Runs, begin, inserted, deleted, Inserted-of_run, Deleted-of_run}
use world_tree.TreeData.Dated.{
  IsDated, IsDue, new-IsDated, Inserted-IsDated, Deleted-IsDated, get_inclusion_proof_iff,
}

module _ (P : PoseidonTree) (E : Type 0) where
  -- The clock is never behind the time of the root, and ahead of it at an insertion, and identities
  -- go to empty leaves.
  abbrev pub Timely :
      {d : TreeData P} {past : List (HistoricalTree P)} {d' : TreeData P}
      → Runs P E d past d'
      → Type 0
  Timely begin = Unit
  Timely (inserted {d1} r ts start ids h run) =
      Timely r × (d1.latest_root_timestamp < ts) × IsVacant start ids (P.leaves d1.tree)
  Timely (deleted {d1} r ts is h run) = Timely r × (d1.latest_root_timestamp ≤ ts)

  module _ (L : IsMerkle P) where
    pub Runs-IsDated :
        {d : TreeData P} {past : List (HistoricalTree P)} {d' : TreeData P}
        → IsDated d
        → (r : Runs P E d past d') → Timely r
        → IsDated d'
    Runs-IsDated g begin u = g
    Runs-IsDated g (inserted {d1} {d2} r ts start ids h run) u =
        let (timely, later, vacant) = u in
        let g1 = Runs-IsDated g r timely in
        Inserted-IsDated (Inserted-of_run P E L ts start ids d1 d2 g1.live.bounded h run) vacant
          later g1
    Runs-IsDated g (deleted {d1} {d2} r ts is h run) u =
        let g1 = Runs-IsDated g r u.0 in
        Deleted-IsDated (Deleted-of_run P E L ts is d1 d2 g1.live.bounded h run) u.1 g1

    -- From a new tree, after any run of batches within the tree, each successful, of which the
    -- insertions go to empty leaves at a time after that of the root, and the deletions are not
    -- before it: a request for an identity at a root is answered exactly if the identity is in the
    -- map, and the root is the current one or that of a tree of the history (the newest one with
    -- that root) which is no older than the identity.
    pub runs_answered :
        (tree : P.Canonical) (size : ℕ) {past : List (HistoricalTree P)} {d : TreeData P}
        → (r : Runs P E (new P tree size) past d) → Timely r
        → (q root : Hash)
        → ((p : InclusionProof P) × (get_inclusion_proof P d q (some root) ≡ some p))
          ↔ ((t : ℕ) × (LeafMap.get q d.leaves ≡ some t) × IsDue P d t root)
    runs_answered tree size {past} {d} r u q root =
        get_inclusion_proof_iff P L d q root (Runs-IsDated (new-IsDated P tree size) r u)
