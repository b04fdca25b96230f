-- ===== src/Updater/Frame.antt =====
-- What `sync_to_head` keeps whatever becomes of it: success, an error, a panic, or no end.
use world_tree.Prelude.{
  ℕ, ◌≡◌, refl, ◌∙◌, inl, inr, Bool, true, false, Option, List, [], ◌∷◌, map, arith, if◌then◌else◌,
}
use world_tree.Exec.{Outcome, Outcome-cases, ok, err, Exec, expect, lift, ◌>>=◌}
use world_tree.Merkle.{PoseidonTree}
use world_tree.Chain.{Transaction, Block, Log}
use world_tree.TreeData.{TreeData}
use world_tree.TreeData.History.{IsBounded, cached, cached-IsBounded}
use world_tree.TreeData.Frame.{SameFrame, insert_many_at-SameFrame, delete_many-SameFrame}
use world_tree.BlockMap
use world_tree.Error.{abi_codec_error, unrecognized_function_selector}
use world_tree.Foreign.{
  Foreign, RegisterIdentitiesCall, DeleteIdentitiesCall, DeleteIdentitiesWithBatchSizeCall,
}
use world_tree.Updater.{
  Error, Sync, SyncState, Round, on_tree, exec_db, register_identities, delete_identities, map_err,
  on_register, on_delete, on_delete_with_batch_size, dispatch, selector_eq, selector_of,
  expect_some, sync_from_transaction, sync_each, next_logs, sync_logs, sync_to_head, hashes_of,
  collect,
}

-- From a bounded state: the state is still bounded, and the configuration of the tree and the
-- field `latest_synced_block` are as they were.
pub record Stays {P : PoseidonTree} {F : Foreign} (s s' : SyncState P F) : Type 0 where
  pub bounded : IsBounded s'.tree_data
  pub depth : s'.tree_data.depth ≡ s.tree_data.depth
  pub size : s'.tree_data.tree_history_size ≡ s.tree_data.tree_history_size
  pub latest : s'.updater.latest_synced_block ≡ s.updater.latest_synced_block

module _ (P : PoseidonTree) (F : Foreign) where
  record Keeps {A : Type 0} (m : Sync P F A) : Type 0 where
    at : (s : SyncState P F) → IsBounded s.tree_data → Stays s (m s).1

  pub Stays-refl : (s : SyncState P F) → IsBounded s.tree_data → Stays s s
  Stays-refl s b = record { bounded = b; depth = refl; size = refl; latest = refl }

  pub Stays-trans : {a b c : SyncState P F} → Stays a b → Stays b c → Stays a c
  Stays-trans h k = record {
    bounded = k.bounded;
    depth = k.depth ∙ h.depth;
    size = k.size ∙ h.size;
    latest = k.latest ∙ h.latest;
  }

  Keeps-lift : {A : Type 0} (r : Outcome (Error P F) A) → Keeps (lift r)
  Keeps-lift r = record { at = Stays-refl }

  Keeps-continue :
      {A B : Type 0} (m : Sync P F A) (f : A → Sync P F B)
      → Keeps m
      → ((a : A) → Keeps (f a))
      → Keeps (m >>= f)
  Keeps-continue m f hm hf = record {
    at = λ s b.
        let first = hm.at s b in
        elim (Outcome-cases (m s).0) [
          | inl (a, r) ↦ rw r (Stays-trans first ((hf a).at (m s).1 first.bounded))
          | inr (inl (x, r)) ↦ rw r first
          | inr (inr (inl r)) ↦ rw r first
          | inr (inr (inr r)) ↦ rw r first
        ];
  }

  Keeps-if :
      {A : Type 0} (b : Bool) (m n : Sync P F A) → Keeps m → Keeps n → Keeps (if b then m else n)
  Keeps-if true m n hm hn = hm
  Keeps-if false m n hm hn = hn

  Keeps-exec_db : (q : F.Db → Option F.Db) → Keeps (exec_db P F q)
  unfolding exec_db
  Keeps-exec_db q = record { at = λ s b. ground arith }

  Keeps-on_tree :
      (m : Exec (Error P F) (TreeData P) (Unit {0}))
      → ((d : TreeData P) → IsBounded d → SameFrame (cached d) (m d).1)
      → Keeps (on_tree P F m)
  unfolding on_tree
  Keeps-on_tree m h = record {
    at = λ s b.
        let f = h s.tree_data b in
        record {
          bounded = rw (f.history, f.size) (cached-IsBounded s.tree_data);
          depth = f.depth;
          size = f.size;
          latest = refl;
        };
  }

  module _ (tx : Transaction) (number : ℕ) (block : Block) where
    Keeps-register :
        (now : Option ℕ) (call : RegisterIdentitiesCall)
        → Keeps (register_identities P F tx number block now call)
    unfolding register_identities
    Keeps-register now call = Keeps-continue _ _ (Keeps-lift _) (λ rows.
        Keeps-continue _ _ (Keeps-exec_db (F.insert_insertions rows)) (λ _.
          Keeps-continue _ _ (Keeps-lift _) (λ row.
            Keeps-continue _ _ (Keeps-exec_db (F.insert_batch row))
              (λ _. Keeps-on_tree _ (insert_many_at-SameFrame P (Error P F) now _ _)))))

    Keeps-delete :
        (now : Option ℕ) (packed proof : List ℕ) (pre post : ℕ)
        → Keeps (delete_identities P F tx number block now packed proof pre post)
    unfolding delete_identities
    Keeps-delete now packed proof pre post = record {
      at = λ s.
          (Keeps-continue _ _ (Keeps-lift _) (λ rows.
              Keeps-continue _ _ (Keeps-exec_db (F.insert_deletions rows)) (λ _.
                Keeps-continue _ _ (Keeps-lift _) (λ row.
                  Keeps-continue _ _ (Keeps-exec_db (F.insert_batch row))
                    (λ _. Keeps-on_tree _ (delete_many-SameFrame P (Error P F) now _)))))).at
            s;
    }

    Keeps-on_register : (now : Option ℕ) → Keeps (on_register P F tx number block now)
    unfolding on_register
    Keeps-on_register now =
        Keeps-continue (lift (map_err P F abi_codec_error (F.decode_register tx.input))) _
          (Keeps-lift _) (Keeps-register now)

    Keeps-on_delete : (now : Option ℕ) → Keeps (on_delete P F tx number block now)
    unfolding on_delete
    Keeps-on_delete now =
        Keeps-continue (lift (map_err P F abi_codec_error (F.decode_delete tx.input))) _
          (Keeps-lift _)
          (λ (call : DeleteIdentitiesCall).
            Keeps-delete now call.packed_deletion_indices call.deletion_proof call.pre_root
              call.post_root)

    Keeps-on_delete_with_batch_size :
        (now : Option ℕ) → Keeps (on_delete_with_batch_size P F tx number block now)
    unfolding on_delete_with_batch_size
    Keeps-on_delete_with_batch_size now =
        Keeps-continue
          (lift (map_err P F abi_codec_error (F.decode_delete_with_batch_size tx.input))) _
          (Keeps-lift _)
          (λ (call : DeleteIdentitiesWithBatchSizeCall).
            Keeps-delete now call.packed_deletion_indices call.deletion_proof call.pre_root
              call.post_root)

    Keeps-dispatch :
        (now : Option ℕ) (selector : List ℕ) → Keeps (dispatch P F tx number block now selector)
    unfolding dispatch
    Keeps-dispatch now selector =
        Keeps-if (selector_eq selector F.register_selector) _ _ (Keeps-on_register now) (
          Keeps-if (selector_eq selector F.delete_selector) _ _ (Keeps-on_delete now) (
            Keeps-if (selector_eq selector F.delete_with_batch_size_selector) _ _
              (Keeps-on_delete_with_batch_size now)
              (Keeps-lift (err unrecognized_function_selector))))

  module _ (round : Round F) where
    Keeps-transaction : (tx : Transaction) → Keeps (sync_from_transaction P F round tx)
    unfolding sync_from_transaction
    Keeps-transaction tx =
        Keeps-continue (lift (selector_of P F tx.input)) _ (Keeps-lift _) (λ selector.
          Keeps-continue (lift (expect tx.block_number)) _ (Keeps-lift _) (λ number.
            Keeps-continue (lift (expect_some P F (round.middleware.get_block number))) _
              (Keeps-lift _) (λ block. Keeps-dispatch tx number block (round.clock tx) selector)))

    Keeps-each : (txs : List Transaction) → Keeps (sync_each P F round txs)
    unfolding sync_each
    Keeps-each [] = Keeps-lift (ok tt)
    Keeps-each (tx ∷ txs) =
        Keeps-continue (sync_from_transaction P F round tx) _ (Keeps-transaction tx)
          (λ _. Keeps-each txs)

    Keeps-logs : (logs : List Log) → Keeps (sync_logs P F round logs)
    unfolding sync_logs
    Keeps-logs [] = Keeps-lift (ok tt)
    Keeps-logs (l ∷ logs) =
        Keeps-continue (lift (hashes_of P F round (l ∷ logs))) _ (Keeps-lift _) (λ hashes.
          Keeps-continue
            (lift
              (collect P F round (round.arrivals (map round.middleware.get_transaction hashes)) []))
            _ (Keeps-lift _) (λ sorted. Keeps-each (BlockMap.values sorted)))

    Keeps-next : Keeps (next_logs P F round)
    unfolding next_logs
    Keeps-next = record {
      at = λ s b. record { bounded = b; depth = refl; size = refl; latest = refl };
    }

    -- Whatever becomes of `sync_to_head`, the history stays within its size, the depth and the size
    -- stay as configured, and `latest_synced_block` is never advanced.
    pub sync_to_head-Stays :
        (s : SyncState P F) → IsBounded s.tree_data → Stays s (sync_to_head P F round s).1
    unfolding sync_to_head
    sync_to_head-Stays s b = (Keeps-continue (next_logs P F round) _ Keeps-next Keeps-logs).at s b
