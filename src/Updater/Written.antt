-- ===== src/Updater/Written.antt =====
-- The statements that the updater sends to the database, transaction by transaction.
use mathlib.Core.Path.{subst}
use world_tree.Prelude.{
  ℕ, ◌+◌, ◌≤◌, ◌≡◌, sym, ◌∙◌, Option, some, List, [], ◌∷◌, ◌++◌, map, arith, length,
}
use world_tree.Exec.{ok}
use world_tree.Merkle.{Hash, PoseidonTree, IsMerkle}
use world_tree.Chain.{Transaction}
use world_tree.BlockScanner.{BlockScanner}
use world_tree.BlockMap
use world_tree.Foreign.{Foreign, RegisterIdentitiesCall, InsertionRow, DeletionRow, BatchRow}
use world_tree.TreeData.Delete.{AllBelow}
use world_tree.Updater.{SyncState, Round, sync_from_transaction, sync_each, sync_to_head}
use world_tree.Updater.Padding.{inserted_identities, deleted_indices}
use world_tree.Updater.Accept.{
  Accepts, inserted_row, deleted_row, batch_of, register_identities-Registered,
  delete_identities-Removed,
}
use world_tree.Updater.Calls.{to_registration, to_deletion}
use world_tree.Updater.Mirror.{
  Effect, registers, deletes, Effects, none_left, first, Mirrors, sync_from_transaction-Mirrors,
}
use world_tree.Updater.Head.{Delivers, moved, moved-Mirrors, to_each}

pub data Statement (F : Foreign) : Type 0 where
  insertions : List (InsertionRow F.Text F.DateTime) → Statement F
  deletions : List (DeletionRow F.Text F.DateTime) → Statement F
  batch : BatchRow F.Text F.DateTime → Statement F

module _ (F : Foreign) where
  unfoldable pub execute : Statement F → F.Db → Option F.Db
  execute (insertions rows) db = F.insert_insertions rows db
  execute (deletions rows) db = F.insert_deletions rows db
  execute (batch row) db = F.insert_batch row db

  -- One statement after the other, each of them with success.
  pub data Executed : List (Statement F) → F.Db → F.Db → Type 0 where
    done : {db : F.Db} → Executed [] db db
    then :
        {x : Statement F} {xs : List (Statement F)} {db db' db'' : F.Db}
        → execute x db ≡ some db'
        → Executed xs db' db''
        → Executed (x ∷ xs) db db''

  pub Executed-append :
      {xs ys : List (Statement F)} {db db' db'' : F.Db}
      → Executed xs db db'
      → Executed ys db' db''
      → Executed (xs ++ ys) db db''
  Executed-append done w = w
  Executed-append (then e r) w = then e (Executed-append r w)

module _ (P : PoseidonTree) (F : Foreign) (tx : Transaction) (number : ℕ) (at : F.DateTime) where
  -- The rows of the identities of a call, and the row of the batch.
  abbrev pub registration : RegisterIdentitiesCall → List (Statement F)
  registration call =
      insertions (map (inserted_row P F tx number at) (inserted_identities call))
      ∷ batch (
          batch_of P F tx number at (length (inserted_identities call)) 0
            (length call.identity_commitments) call.insertion_proof call.pre_root call.post_root)
      ∷ []

  -- The rows of the leaves at the indices, as they stand before, and the row of the batch.
  abbrev pub removal : List Hash → List ℕ → List ℕ → ℕ → ℕ → List (Statement F)
  removal ls is proof pre_root post_root =
      deletions (map (deleted_row P F tx number at ls) is)
      ∷ batch (batch_of P F tx number at 0 (length is) 0 proof pre_root post_root)
      ∷ []

module _ (P : PoseidonTree) (F : Foreign) (round : Round F) {depth : ℕ} where
  abbrev pub statements_of :
      {tx : Transaction} {ls ls' : List Hash}
      → Effect P F round depth tx ls ls'
      → List (Statement F)
  statements_of {tx} (registers call r v e) = registration P F tx r.known.number r.known.at call
  statements_of {tx} {ls} (deletes packed proof pre post k shallow d b e) =
      removal P F tx k.number k.at ls (deleted_indices depth packed) proof pre post

  abbrev pub all_statements :
      {txs : List Transaction} {ls ls' : List Hash}
      → Effects P F round depth txs ls ls'
      → List (Statement F)
  all_statements none_left = []
  all_statements (first e es) = statements_of e ++ all_statements es

module _ (P : PoseidonTree) (F : Foreign) (round : Round F) (L : IsMerkle P) (A : Accepts F)
    {depth : ℕ} where
  sync_from_transaction-Executed :
      (tx : Transaction) (ls ls' : List Hash) (s s' : SyncState P F)
      → (e : Effect P F round depth tx ls ls') → Mirrors P F depth ls s
      → sync_from_transaction P F round tx s ≡ (ok tt, s')
      → Executed F (statements_of P F round e) s.db s'.db
  unfolding execute
  sync_from_transaction-Executed tx ls ls' s s' (registers call r v e) m run =
      let known = r.known in
      let fits : call.start_index + length (inserted_identities call)
          ≤ length (P.leaves s.tree_data.tree) =
        rw m.leaves v.fits in
      let (s2, run2, done_by) =
        register_identities-Registered P F tx known.number known.at L A known.block known.dated
          known.ts call s m.live.bounded fits in
      let all_run = to_registration P F round tx s known call r.selected r.decoded ∙ run2 in
      subst (λ o. Executed F (registration P F tx known.number known.at call) s.db o.1.db)
        (sym all_run ∙ run) (then done_by.rows (then done_by.batch done))
  sync_from_transaction-Executed tx ls ls' s s' (deletes packed proof pre post known shallow d b e)
        m run =
      let b' : AllBelow (length (P.leaves s.tree_data.tree))
          (deleted_indices s.tree_data.depth packed) =
        rw (m.leaves, m.depth_kept) b in
      let (s2, run2, done_by) =
        delete_identities-Removed P F tx known.number known.at L A known.block known.dated known.ts
          packed proof pre post s m.live.bounded (rw m.depth_kept shallow) b' in
      let all_run = to_deletion P F round tx s known packed proof pre post d ∙ run2 in
      subst
        (λ o.
          Executed F
            (removal P F tx known.number known.at ls (deleted_indices depth packed) proof pre post)
            s.db o.1.db)
        (sym all_run ∙ run)
        (subst
          (λ l.
            Executed F
              (removal P F tx known.number known.at l (deleted_indices depth packed) proof pre post)
              s.db s2.db)
          m.leaves
          (subst
            (λ n.
              Executed F
                (removal P F tx known.number known.at (P.leaves s.tree_data.tree)
                  (deleted_indices n packed) proof pre post)
                s.db s2.db)
            m.depth_kept (then done_by.rows (then done_by.batch done))))

  sync_each-Executed :
      (txs : List Transaction) (ls ls' : List Hash) (s s' : SyncState P F)
      → (es : Effects P F round depth txs ls ls') → Mirrors P F depth ls s
      → sync_each P F round txs s ≡ (ok tt, s')
      → Executed F (all_statements P F round es) s.db s'.db
  unfolding sync_each
  sync_each-Executed [] ls ls' s s' none_left m run =
      subst (λ o. Executed F [] s.db o.1.db) run done
  sync_each-Executed (tx ∷ txs) ls ls'' s s' (first {ls' = ls'} e es) m run =
      let (s1, run1, m1, same) =
        sync_from_transaction-Mirrors P F round L A depth tx ls ls' s e m in
      Executed-append F (sync_from_transaction-Executed tx ls ls' s s1 e m run1)
        (sync_each-Executed txs ls' ls'' s1 s' es m1 (ground (arith, run1, run)))

  -- A round that delivers transactions sends the statements for them in their order.
  pub sync_to_head-Executed :
      (ls ls' : List Hash) (s s' : SyncState P F) (scanner : BlockScanner)
      → (c : Delivers P F round depth s.updater.block_scanner scanner ls ls')
      → Mirrors P F depth ls s
      → sync_to_head P F round s ≡ (ok tt, s')
      → Executed F (all_statements P F round c.effects) s.db s'.db
  sync_to_head-Executed ls ls' s s' scanner c m run =
      sync_each-Executed (BlockMap.values c.entries) ls ls' (moved P F round s scanner) s' c.effects
        (moved-Mirrors P F round depth ls s scanner m)
        (sym (to_each P F round s scanner c.fetches) ∙ run)
