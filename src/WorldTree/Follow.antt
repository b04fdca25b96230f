-- ===== src/WorldTree/Follow.antt =====
-- The task of a `WorldTree` through any number of rounds that succeed.
use mathlib.Core.Path.{subst}
use world_tree.Prelude.{ℕ, ◌≡◌, ◌≢◌, refl, sym, true, List, [], arith}
use world_tree.Exec.{ok}
use world_tree.Merkle.{Hash, PoseidonTree, IsMerkle}
use world_tree.BlockScanner
use world_tree.BlockScanner.{BlockScanner}
use world_tree.Foreign.{Foreign}
use world_tree.Updater.{SyncState, Round, sync_to_head, next_logs, sync_logs}
use world_tree.Updater.Accept.{Accepts}
use world_tree.Updater.Mirror.{Mirrors}
use world_tree.Updater.Head.{Delivers, sync_to_head-Mirrors}
use world_tree.WorldTree.{WorldTree, starting, looping, stopped, first_sync, loop_sync}

module _ (P : PoseidonTree) (F : Foreign) (depth : ℕ) where
  -- A round brings transactions from the contract, or no logs.
  pub data Brings (round : Round F) (start : BlockScanner) (ls : List Hash)
      : List Hash → Type 0 where
    delivers :
        {ls' : List Hash} (scanner : BlockScanner)
        → Delivers P F round depth start scanner ls ls'
        → Brings round start ls ls'
    idles :
        (scanner : BlockScanner)
        → BlockScanner.next round.scan_fuel round.middleware start ≡ (ok [], scanner)
        → Brings round start ls ls

  -- The states that the task gets to from `w`, while the contract goes from leaves `ls0` on.
  pub data Follows (w : WorldTree P F) (ls0 : List Hash) : WorldTree P F → List Hash → Type 0 where
    begins : Follows w ls0 w ls0
    syncs_first :
        {v : WorldTree P F} {ls ls' : List Hash}
        → Follows w ls0 v ls
        → (round : Round F) → v.phase ≡ starting
        → Brings round v.updater.block_scanner ls ls'
        → Follows w ls0 (first_sync P F round v) ls'
    syncs_again :
        {v : WorldTree P F} {ls ls' : List Hash}
        → Follows w ls0 v ls
        → (round : Round F) → v.phase ≡ looping
        → Brings round v.updater.block_scanner ls ls'
        → Follows w ls0 (loop_sync P F round v) ls'

  -- The tree mirrors the leaves `ls`, and the task runs on, synced once it is in its loop.
  pub record InStep (v : WorldTree P F) (ls : List Hash) : Type 0 where
    pub mirrors : Mirrors P F depth ls v.state
    pub running : v.phase ≢ stopped
    pub ready : v.phase ≡ looping → v.synced ≡ true

  module _ (L : IsMerkle P) (A : Accepts F) where
    pub sync_to_head-Brings :
        (round : Round F) (ls ls' : List Hash) (s : SyncState P F)
        → Brings round s.updater.block_scanner ls ls'
        → Mirrors P F depth ls s
        → (s' : SyncState P F) × (sync_to_head P F round s ≡ (ok tt, s')) × Mirrors P F depth ls' s'
    unfolding sync_to_head next_logs sync_logs
    sync_to_head-Brings round ls ls' s (delivers scanner c) m =
        let (s', run, m', moved) = sync_to_head-Mirrors P F round L A depth ls ls' s scanner c m in
        (s', run, m')
    sync_to_head-Brings round ls ls' s (idles scanner e) m = (
      record s { updater = record s.updater { block_scanner = scanner } },
      ground (arith, e),
      record { live = m.live; depth_kept = m.depth_kept; leaves = m.leaves },
    )

    pub first_sync-InStep :
        (round : Round F) (v : WorldTree P F) (ls ls' : List Hash)
        → Brings round v.updater.block_scanner ls ls'
        → InStep v ls
        → InStep (first_sync P F round v) ls'
    unfolding first_sync
    first_sync-InStep round v ls ls' b i =
        let (s', run, m) = sync_to_head-Brings round ls ls' v.state b i.mirrors in
        let after : WorldTree P F = record { state = s'; synced = true; phase = looping } in
        let e : first_sync P F round v ≡ after = ground (arith, run) in
        subst (λ u. InStep u ls') (sym e)
          (record { mirrors = m; running = λ h. cc; ready = λ h. refl })

    pub loop_sync-InStep :
        (round : Round F) (v : WorldTree P F) (ls ls' : List Hash)
        → v.phase ≡ looping
        → Brings round v.updater.block_scanner ls ls'
        → InStep v ls
        → InStep (loop_sync P F round v) ls'
    unfolding loop_sync
    loop_sync-InStep round v ls ls' p b i =
        let (s', run, m) = sync_to_head-Brings round ls ls' v.state b i.mirrors in
        let after : WorldTree P F = record { state = s'; synced = v.synced; phase = looping } in
        let e : loop_sync P F round v ≡ after = ground (arith, run) in
        subst (λ u. InStep u ls') (sym e)
          (record { mirrors = m; running = λ h. cc; ready = λ h. i.ready p })

    -- If each round brings transactions of the contract or no logs, and the database accepts every
    -- statement, the task never stops: its tree mirrors the leaves that the contract has come to,
    -- and once it is in its loop the service is synced.
    pub Follows-InStep :
        {w : WorldTree P F} {ls0 : List Hash} {v : WorldTree P F} {ls : List Hash}
        → InStep w ls0
        → Follows w ls0 v ls
        → InStep v ls
    Follows-InStep i begins = i
    Follows-InStep i (syncs_first {v} {ls} {ls'} f round p b) =
        first_sync-InStep round v ls ls' b (Follows-InStep i f)
    Follows-InStep i (syncs_again {v} {ls} {ls'} f round p b) =
        loop_sync-InStep round v ls ls' p b (Follows-InStep i f)
