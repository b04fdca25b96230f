-- ===== src/Updater/Full.antt =====
-- Every identity of the tree of the updater is in its map, transaction by transaction.
use mathlib.Core.Path.{subst}
use world_tree.Prelude.{ℕ, ◌+◌, ◌≤◌, ◌≡◌, sym, ◌∙◌, List, [], ◌∷◌, arith, length}
use world_tree.Exec.{ok}
use world_tree.Merkle.{Hash, PoseidonTree, IsMerkle}
use world_tree.Chain.{Transaction}
use world_tree.TreeData.Delete.{AllBelow}
use world_tree.TreeData.Full.{IsFull, Unrepeated, Inserted-IsFull, Deleted-IsFull}
use world_tree.Foreign.{Foreign}
use world_tree.Updater.{SyncState, Round, sync_from_transaction, sync_each}
use world_tree.Updater.Padding.{inserted_identities, deleted_indices}
use world_tree.Updater.Accept.{Accepts, register_identities-Registered, delete_identities-Removed}
use world_tree.Updater.Calls.{to_registration, to_deletion}
use world_tree.Updater.Mirror.{
  Effect, registers, deletes, Effects, none_left, first, Mirrors, sync_from_transaction-Mirrors,
}

module _ (P : PoseidonTree) (F : Foreign) (round : Round F) where
  -- No state of the contract's leaves on the way has an identity twice.
  abbrev pub NeverRepeated :
      {depth : ℕ} {txs : List Transaction} {ls ls' : List Hash}
      → Effects P F round depth txs ls ls'
      → Type 0
  NeverRepeated none_left = Unit
  NeverRepeated (first {ls = ls} e es) = Unrepeated ls × NeverRepeated es

  module _ (L : IsMerkle P) (A : Accepts F) (depth : ℕ) where
    -- From leaves without an identity twice a transaction leaves every identity of the tree in the
    -- map.
    sync_from_transaction-IsFull :
        (tx : Transaction) (ls ls' : List Hash) (s s' : SyncState P F)
        → Effect P F round depth tx ls ls'
        → Mirrors P F depth ls s
        → Unrepeated ls
        → IsFull s.tree_data
        → sync_from_transaction P F round tx s ≡ (ok tt, s')
        → IsFull s'.tree_data
    sync_from_transaction-IsFull tx ls ls' s s' (registers call r v e) m u f run =
        let k = r.known in
        let fits : call.start_index + length (inserted_identities call)
            ≤ length (P.leaves s.tree_data.tree) =
          rw m.leaves v.fits in
        let (s2, run2, done) =
          register_identities-Registered P F tx k.number k.at L A k.block k.dated k.ts call s
            m.live.bounded fits in
        let all_run = to_registration P F round tx s k call r.selected r.decoded ∙ run2 in
        subst (λ r. IsFull r.1.tree_data) (sym all_run ∙ run) (Inserted-IsFull done.tree fits f)
    sync_from_transaction-IsFull tx ls ls' s s' (deletes packed proof pre post k shallow d b e) m u
          f run =
        let b' : AllBelow (length (P.leaves s.tree_data.tree))
            (deleted_indices s.tree_data.depth packed) =
          rw (m.leaves, m.depth_kept) b in
        let (s2, run2, done) =
          delete_identities-Removed P F tx k.number k.at L A k.block k.dated k.ts packed proof pre
            post s m.live.bounded (rw m.depth_kept shallow) b' in
        let all_run = to_deletion P F round tx s k packed proof pre post d ∙ run2 in
        subst (λ r. IsFull r.1.tree_data) (sym all_run ∙ run)
          (Deleted-IsFull done.tree (rw m.leaves u) f)

    pub sync_each-IsFull :
        (txs : List Transaction) (ls ls' : List Hash) (s s' : SyncState P F)
        → (es : Effects P F round depth txs ls ls') → Mirrors P F depth ls s
        → NeverRepeated es
        → IsFull s.tree_data
        → sync_each P F round txs s ≡ (ok tt, s')
        → IsFull s'.tree_data
    unfolding sync_each
    sync_each-IsFull [] ls ls' s s' none_left m u f run = subst (λ r. IsFull r.1.tree_data) run f
    sync_each-IsFull (tx ∷ txs) ls ls'' s s' (first {ls' = ls'} e es) m u f run =
        let (s1, run1, m1, same) =
          sync_from_transaction-Mirrors P F round L A depth tx ls ls' s e m in
        let f1 = sync_from_transaction-IsFull tx ls ls' s s1 e m u.0 f run1 in
        sync_each-IsFull txs ls' ls'' s1 s' es m1 u.1 f1 (ground (arith, run1, run))
