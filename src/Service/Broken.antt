-- ===== src/Service/Broken.antt =====
-- What the service answers after a round that failed.
use mathlib.Core.Path.{subst}
use world_tree.Prelude.{ℕ, ◌^◌, ◌≡◌, refl, sym, ap, inr, true, none, some, List, arith, replicate}
use world_tree.Exec.{err}
use world_tree.Merkle.{Hash, hash_zero, PoseidonTree, IsMerkle}
use world_tree.LeafMap
use world_tree.BlockScanner.{BlockScanner}
use world_tree.Foreign.{Foreign}
use world_tree.TreeData.{InclusionProof}
use world_tree.TreeData.Proofs.{Verifies}
use world_tree.TreeData.Batches.{live-Serves}
use world_tree.Updater.{SyncState, Round, Error, sync_to_head}
use world_tree.Updater.Accept.{Accepts}
use world_tree.Updater.Broken.{Breaks, sync_to_head-Breaks}
use world_tree.Updater.Mirror.{Mirrors}
use world_tree.WorldTree.{WorldTree, looping, stopped, loop_sync}
use world_tree.WorldTree.Follow.{Follows, Follows-InStep}
use world_tree.Service.{status_ok, new, inclusion_proof}
use world_tree.Service.Rounds.{start-InStep}

module _ (P : PoseidonTree) (F : Foreign) where
  -- The task stops, with the leaves `ls`, and serves them.
  pub record StopsWith (ls : List Hash) (w : WorldTree P F) : Type 0 where
    pub phase : w.phase ≡ stopped
    pub synced : w.synced ≡ true
    pub leaves : P.leaves w.tree_data.tree ≡ ls
    pub served :
        (q ts : ℕ)
        → LeafMap.get q w.tree_data.leaves ≡ some ts
        → (p : InclusionProof P) × (inclusion_proof P F w
              (record { identity_commitment = q; root = none })
            ≡ inr (status_ok, some p))
          × Verifies P q p
          × (p.root ≡ P.root w.tree_data.tree)

  -- A synced service over a mirror serves it, whatever its phase.
  stopped-StopsWith :
      (L : IsMerkle P) (depth : ℕ) (ls : List Hash) (s : SyncState P F)
      → Mirrors P F depth ls s
      → StopsWith ls (record { state = s; synced = true; phase = stopped })
  unfolding inclusion_proof
  stopped-StopsWith L depth ls s m = record {
    phase = refl;
    synced = refl;
    leaves = m.leaves;
    served = λ q ts h.
        let (p, e, verified, root) = live-Serves P L s.tree_data q ts m.live h in
        (p, ap (λ o. inr (status_ok, o)) e, verified, root);
  }

  loop_sync-err :
      (round : Round F) (v : WorldTree P F) (s' : SyncState P F) (e : Error P F)
      → v.synced ≡ true
      → sync_to_head P F round v.state ≡ (err e, s')
      → loop_sync P F round v ≡ record { state = s'; synced = true; phase = stopped }
  unfolding loop_sync
  loop_sync-err round v s' e synced run = ground (arith, synced, run)

  module _ (db : F.Db) (signature depth dense size address creation_block window : ℕ) where
    -- A service that is in its loop after rounds that each bring transactions of the contract or no
    -- logs, from an empty tree and over a database that accepts every statement, goes through a round
    -- in which a transaction is refused with an error: its task stops, but the service stays synced
    -- with the leaves that the contract had before that transaction, and every identity in its map
    -- still gets a proof at the latest root that verifies.
    pub failed_round-StopsWith :
        (L : IsMerkle P) (A : Accepts F) (v : WorldTree P F) (ls ls' : List Hash)
        → Follows P F depth
            (new P F db signature depth dense size address creation_block window)
            (replicate (2 ^ depth) hash_zero)
            v
            ls
        → v.phase ≡ looping
        → (round : Round F) (scanner : BlockScanner) (e : Error P F)
        → Breaks P F round depth v.updater.block_scanner scanner ls ls' e
        → StopsWith ls' (loop_sync P F round v)
    failed_round-StopsWith L A v ls ls' f looped round scanner e b =
        let i =
          Follows-InStep P F depth L A
            (start-InStep P F db signature depth dense size address creation_block window L) f in
        let (s', run, m) =
          sync_to_head-Breaks P F round depth L A ls ls' e v.state scanner b i.mirrors in
        subst (StopsWith ls') (sym (loop_sync-err round v s' e (i.ready looped) run))
          (stopped-StopsWith L depth ls' s' m)
