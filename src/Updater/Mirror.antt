-- ===== src/Updater/Mirror.antt =====
-- The tree of the updater against the leaves of the contract, transaction by transaction.
use world_tree.Prelude.{
  ℕ, ◌+◌, ◌<◌, ◌≡◌, refl, sym, ◌∙◌, inr, List, [], ◌∷◌, ◌++◌, arith, length, take, drop,
}
use world_tree.Exec.{ok}
use world_tree.Merkle.{Hash, PoseidonTree, IsMerkle}
use world_tree.Chain.{Transaction}
use world_tree.TreeData.Delete.{AllBelow, clear_all}
use world_tree.TreeData.Live.{IsLive, IsVacant, Inserted-IsLive, Deleted-IsLive}
use world_tree.Foreign.{Foreign, RegisterIdentitiesCall}
use world_tree.Updater.{SyncState, Round, sync_from_transaction, sync_each}
use world_tree.Updater.Padding.{inserted_identities, deleted_indices}
use world_tree.Updater.Calls.{Selects, Deletes, IsKnown, to_registration, to_deletion}
use world_tree.Updater.Accept.{Accepts, register_identities-Registered, delete_identities-Removed}

module _ (P : PoseidonTree) (F : Foreign) where
  -- The local tree is live and has the leaves `ls`.
  pub record Mirrors (depth : ℕ) (ls : List Hash) (s : SyncState P F) : Type 0 where
    pub live : IsLive s.tree_data
    pub depth_kept : s.tree_data.depth ≡ depth
    pub leaves : P.leaves s.tree_data.tree ≡ ls

module _ (P : PoseidonTree) (F : Foreign) (round : Round F) where
  -- A call of `registerIdentities`.
  pub record IsRegistration (tx : Transaction) (call : RegisterIdentitiesCall) : Type 0 where
    pub known : IsKnown P F round tx
    pub selected : Selects tx F.register_selector
    pub decoded : F.decode_register tx.input ≡ inr call

  -- What a transaction does to the leaves of the contract's tree: new identities go to empty
  -- leaves, and deleted leaves become empty.
  pub data Effect (depth : ℕ) (tx : Transaction) (ls ls' : List Hash) : Type 0 where
    registers :
        (call : RegisterIdentitiesCall)
        → IsRegistration tx call
        → IsVacant call.start_index (inserted_identities call) ls
        → ls'
          ≡ take call.start_index ls
            ++ (inserted_identities call
                ++ drop (call.start_index + length (inserted_identities call)) ls)
        → Effect depth tx ls ls'
    deletes :
        (packed proof : List ℕ) (pre_root post_root : ℕ)
        → IsKnown P F round tx
        → depth < 32
        → Deletes F tx packed proof pre_root post_root
        → AllBelow (length ls) (deleted_indices depth packed)
        → ls' ≡ clear_all (deleted_indices depth packed) ls
        → Effect depth tx ls ls'

  pub data Effects (depth : ℕ) : List Transaction → List Hash → List Hash → Type 0 where
    none_left : {ls : List Hash} → Effects depth [] ls ls
    first :
        {tx : Transaction} {txs : List Transaction} {ls ls' ls'' : List Hash}
        → Effect depth tx ls ls'
        → Effects depth txs ls' ls''
        → Effects depth (tx ∷ txs) ls ls''

  module _ (L : IsMerkle P) (A : Accepts F) (depth : ℕ) where
    -- A transaction that takes the contract from leaves `ls` to `ls'`, by a deletion only in a tree
    -- of a depth below 32, is handled with success, if the database accepts every statement, takes
    -- a local tree that mirrors `ls` to one that mirrors `ls'`, and leaves the updater as it is.
    pub sync_from_transaction-Mirrors :
        (tx : Transaction) (ls ls' : List Hash) (s : SyncState P F)
        → Effect depth tx ls ls'
        → Mirrors P F depth ls s
        → (s' : SyncState P F) × (sync_from_transaction P F round tx s ≡ (ok tt, s'))
          × Mirrors P F depth ls' s'
          × (s'.updater ≡ s.updater)
    sync_from_transaction-Mirrors tx ls ls' s (registers call r v e) m =
        let k = r.known in
        let v' : IsVacant call.start_index (inserted_identities call) (P.leaves s.tree_data.tree) =
          rw m.leaves v in
        let (s', run, done) =
          register_identities-Registered P F tx k.number k.at L A k.block k.dated k.ts call s
            m.live.bounded v'.fits in
        (
          s',
          to_registration P F round tx s k call r.selected r.decoded ∙ run,
          record {
            live = Inserted-IsLive P done.tree v' m.live;
            depth_kept = done.tree.depth ∙ m.depth_kept;
            leaves = done.tree.segment ∙ rw m.leaves (sym e);
          },
          done.updater,
        )
    sync_from_transaction-Mirrors tx ls ls' s (deletes packed proof pre post k shallow d b e) m =
        let b' : AllBelow (length (P.leaves s.tree_data.tree))
            (deleted_indices s.tree_data.depth packed) =
          rw (m.leaves, m.depth_kept) b in
        let (s', run, done) =
          delete_identities-Removed P F tx k.number k.at L A k.block k.dated k.ts packed proof pre
            post s m.live.bounded (rw m.depth_kept shallow) b' in
        (
          s',
          to_deletion P F round tx s k packed proof pre post d ∙ run,
          record {
            live = Deleted-IsLive P done.tree m.live;
            depth_kept = done.tree.depth ∙ m.depth_kept;
            leaves = done.tree.written ∙ rw (m.leaves, m.depth_kept) (sym e);
          },
          done.updater,
        )

    -- So does a sequence of transactions.
    pub sync_each-Mirrors :
        (txs : List Transaction) (ls ls' : List Hash) (s : SyncState P F)
        → Effects depth txs ls ls'
        → Mirrors P F depth ls s
        → (s' : SyncState P F) × (sync_each P F round txs s ≡ (ok tt, s'))
          × Mirrors P F depth ls' s'
          × (s'.updater ≡ s.updater)
    unfolding sync_each
    sync_each-Mirrors [] ls ls' s none_left m = (s, refl, m, refl)
    sync_each-Mirrors (tx ∷ txs) ls ls'' s (first {ls' = ls'} e es) m =
        let (s1, run, m1, same1) = sync_from_transaction-Mirrors tx ls ls' s e m in
        let (s2, rest, m2, same2) = sync_each-Mirrors txs ls' ls'' s1 es m1 in
        (s2, ground (arith, run, rest), m2, same2 ∙ same1)
