-- ===== src/WorldTree/Scanned.antt =====
-- The logs that the rounds of the task handle, against the chain.
use mathlib.Core.Path.{subst}
use world_tree.Prelude.{ℕ, ◌≡◌, sym, refl, ◌∙◌, List, [], ◌∷◌, ◌++◌, arith}
use world_tree.Exec.{ok}
use world_tree.Merkle.{Hash, PoseidonTree, IsMerkle}
use world_tree.Chain.{Log}
use world_tree.BlockScanner.{BlockScanner}
use world_tree.BlockScanner.Rounds.{Head, Scans, idle, scanned}
use world_tree.Foreign.{Foreign}
use world_tree.Updater.{SyncState, Round, sync_to_head, next_logs, sync_logs}
use world_tree.Updater.Accept.{Accepts}
use world_tree.Updater.Mirror.{Mirrors}
use world_tree.Updater.Head.{sync_to_head-Mirrors}
use world_tree.WorldTree.{WorldTree, first_sync, loop_sync}
use world_tree.WorldTree.Follow.{
  Brings, delivers, idles, Follows, begins, syncs_first, syncs_again, InStep, Follows-InStep,
}

module _ (P : PoseidonTree) (F : Foreign) (depth : ℕ) where
  -- The logs that a round handles, and where it leaves the scanner.
  abbrev pub round_logs :
      {round : Round F} {start : BlockScanner} {ls ls' : List Hash}
      → Brings P F depth round start ls ls'
      → List Log
  round_logs (delivers scanner c) = c.log ∷ c.logs
  round_logs (idles scanner e) = []

  abbrev pub scanner_of :
      {round : Round F} {start : BlockScanner} {ls ls' : List Hash}
      → Brings P F depth round start ls ls'
      → BlockScanner
  scanner_of (delivers scanner c) = scanner
  scanner_of (idles scanner e) = scanner

  -- The logs of all rounds, in order.
  abbrev pub handled :
      {w : WorldTree P F} {ls0 : List Hash} {v : WorldTree P F} {ls : List Hash}
      → Follows P F depth w ls0 v ls
      → List Log
  handled begins = []
  handled (syncs_first f round p b) = handled f ++ round_logs b
  handled (syncs_again f round p b) = handled f ++ round_logs b

  -- In each round the provider knows the chain, up to some block.
  abbrev pub KnowsChain :
      (logs_of : ℕ → List Log)
      → {w : WorldTree P F} {ls0 : List Hash} {v : WorldTree P F} {ls : List Hash}
      → Follows P F depth w ls0 v ls
      → Type 0
  KnowsChain logs_of begins = Unit
  KnowsChain logs_of (syncs_first {v} f round p b) =
      KnowsChain logs_of f
      × ((latest : ℕ) × Head logs_of v.updater.block_scanner round.middleware round.scan_fuel
            latest)
  KnowsChain logs_of (syncs_again {v} f round p b) =
      KnowsChain logs_of f
      × ((latest : ℕ) × Head logs_of v.updater.block_scanner round.middleware round.scan_fuel
            latest)

  module _ (L : IsMerkle P) (A : Accepts F) where
    -- A round leaves the scanner where `next` does.
    pub round_scanner :
        (round : Round F) (ls ls' : List Hash) (s : SyncState P F)
        → (b : Brings P F depth round s.updater.block_scanner ls ls') → Mirrors P F depth ls s
        → (s' : SyncState P F) × (sync_to_head P F round s ≡ (ok tt, s'))
          × (s'.updater.block_scanner ≡ scanner_of b)
    unfolding sync_to_head next_logs sync_logs
    round_scanner round ls ls' s (delivers scanner c) m =
        let (s', run, m', moved) = sync_to_head-Mirrors P F round L A depth ls ls' s scanner c m in
        (s', run, moved)
    round_scanner round ls ls' s (idles scanner e) m = (
      record s { updater = record s.updater { block_scanner = scanner } },
      ground (arith, e),
      refl,
    )

    pub first_sync-scanner :
        (round : Round F) (v : WorldTree P F) (s' : SyncState P F)
        → sync_to_head P F round v.state ≡ (ok tt, s')
        → s'.updater.block_scanner ≡ (first_sync P F round v).updater.block_scanner
    unfolding first_sync
    first_sync-scanner round v s' run = ground (arith, run)

    pub loop_sync-scanner :
        (round : Round F) (v : WorldTree P F) (s' : SyncState P F)
        → sync_to_head P F round v.state ≡ (ok tt, s')
        → s'.updater.block_scanner ≡ (loop_sync P F round v).updater.block_scanner
    unfolding loop_sync
    loop_sync-scanner round v s' run = ground (arith, run)

    -- A round is one more call of the scanner.
    round-Scans :
        (logs_of : ℕ → List Log) (round : Round F) (start s1 : BlockScanner) (logs : List Log)
        → {ls ls' : List Hash} (b : Brings P F depth round s1 ls ls') → (latest : ℕ)
        → Head logs_of s1 round.middleware round.scan_fuel latest
        → Scans F.Failure logs_of start s1 logs
        → Scans F.Failure logs_of start (scanner_of b) (logs ++ round_logs b)
    round-Scans logs_of round start s1 logs (delivers scanner c) latest h r =
        scanned r round.middleware round.scan_fuel latest h (c.log ∷ c.logs) scanner c.scanned
    round-Scans logs_of round start s1 logs (idles scanner e) latest h r =
        scanned r round.middleware round.scan_fuel latest h [] scanner e

    pub Follows-Scans :
        (logs_of : ℕ → List Log) {w : WorldTree P F} {ls0 : List Hash} {v : WorldTree P F}
        {ls : List Hash}
        → InStep P F depth w ls0
        → (f : Follows P F depth w ls0 v ls) → KnowsChain logs_of f
        → Scans F.Failure logs_of w.updater.block_scanner v.updater.block_scanner (handled f)
    Follows-Scans logs_of i begins u = idle
    Follows-Scans logs_of {w} i (syncs_first {v} {ls} {ls'} f round p b) u =
        let j = Follows-InStep P F depth L A i f in
        let (latest, head) = u.1 in
        let (s', run, same) = round_scanner round ls ls' v.state b j.mirrors in
        subst (λ z. Scans F.Failure logs_of w.updater.block_scanner z (handled f ++ round_logs b))
          (sym same ∙ first_sync-scanner round v s' run)
          (round-Scans logs_of round _ _ _ b latest head (Follows-Scans logs_of i f u.0))
    Follows-Scans logs_of {w} i (syncs_again {v} {ls} {ls'} f round p b) u =
        let j = Follows-InStep P F depth L A i f in
        let (latest, head) = u.1 in
        let (s', run, same) = round_scanner round ls ls' v.state b j.mirrors in
        subst (λ z. Scans F.Failure logs_of w.updater.block_scanner z (handled f ++ round_logs b))
          (sym same ∙ loop_sync-scanner round v s' run)
          (round-Scans logs_of round _ _ _ b latest head (Follows-Scans logs_of i f u.0))
