-- ===== src/Contract/Safe.antt =====
-- A round in which anything may fail leaves the leaves of the contract after some block.
use mathlib.Core.Path.{subst}
use world_tree.Prelude.{
  ℕ, suc, ◌+◌, ◌-◌, ◌≤◌, ◌≡◌, ◌≢◌, sym, ap, ◌∙◌, inl, inr, List, [], ◌∷◌, map, arith,
}
use world_tree.Exec.{Outcome, ok, err, panic, out_of_fuel, Outcome-cases}
use world_tree.Merkle.{PoseidonTree, IsMerkle}
use world_tree.Chain.{Log}
use world_tree.BlockScanner
use world_tree.BlockScanner.{BlockScanner}
use world_tree.BlockScanner.Complete.{span}
use world_tree.BlockScanner.Partial.{next-ok}
use world_tree.BlockScanner.Failure.{next-unchanged}
use world_tree.BlockMap
use world_tree.BlockMap.{BlockMap}
use world_tree.Foreign.{Foreign}
use world_tree.Error.{middleware_error}
use world_tree.Updater.{
  SyncState, Round, Error, collect, sync_each, sync_logs, sync_to_head, next_logs,
}
use world_tree.Updater.Mirror.{Mirrors}
use world_tree.Updater.Head.{hashes_of-some, moved, moved-Mirrors}
use world_tree.Contract.{Contract, logs_at}
use world_tree.Contract.Blocks.{entries, hashes, entries-asked}
use world_tree.Contract.Rounds.{no_hashes}
use world_tree.Contract.Partial.{Held, Passed, entries-Passed}
use world_tree.Contract.Faults.{Truthfully, collect-found}

module _ (P : PoseidonTree) (F : Foreign) (L : IsMerkle P) (depth : ℕ) (c : Contract F depth)
    (round : Round F) where
  -- After `sync_to_head` from block `n`: with success the tree mirrors the contract where the scanner
  -- stands, and in any case it has the leaves of the contract after a block from `n` to there.
  pub record Synced (n : ℕ) (o : Outcome (Error P F) (Unit {0}) × SyncState P F) : Type 0 where
    pub succeeded :
        o.0 ≡ ok tt
        → Mirrors P F depth (c.leaves_at o.1.updater.block_scanner.last_synced_block) o.1
    pub held : Held P F depth c n o.1.updater.block_scanner.last_synced_block o.1

  module _ (s : SyncState P F) (latest : ℕ)
      (t : Truthfully P F depth c round s.updater.block_scanner latest)
      (i : Mirrors P F depth (c.leaves_at s.updater.block_scanner.last_synced_block) s) where
    abbrev n : ℕ
    n = s.updater.block_scanner.last_synced_block

    abbrev found : BlockMap
    found = entries F depth c (suc n) (latest - n)

    abbrev after : BlockScanner
    after = record s.updater.block_scanner { last_synced_block = latest }

    abbrev s1 : SyncState P F
    s1 = moved P F round s after

    i1 : Mirrors P F depth (c.leaves_at n) s1
    i1 = moved-Mirrors P F round depth (c.leaves_at n) s after i

    passed : Passed P F L depth round c n latest s1 (sync_each P F round (BlockMap.values found) s1)
    passed =
        entries-Passed P F L depth round c n (latest - n) latest s1 (omega (arith, t.scans.behind))
          i1

    Passed-Synced :
        (o : Outcome (Error P F) (Unit {0}) × SyncState P F)
        → Passed P F L depth round c n latest s1 o
        → Synced n o
    Passed-Synced o p =
        let at : latest ≡ o.1.updater.block_scanner.last_synced_block =
          ap (λ u. u.block_scanner.last_synced_block) (sym p.updater) in
        record {
          succeeded = λ e. subst (λ k. Mirrors P F depth (c.leaves_at k) o.1) at (p.succeeded e);
          held = subst (λ k. Held P F depth c n k o.1) at p.held;
        }

    -- Nothing was handled.
    broken :
        {o : Outcome (Error P F) (Unit {0}) × SyncState P F}
        → (r : Outcome (Error P F) (Unit {0})) (sc : BlockScanner) → r ≢ ok tt
        → n ≤ sc.last_synced_block
        → o ≡ (r, moved P F round s sc)
        → Synced n o
    broken r sc refused le run = subst (Synced n) (sym run) (record {
      succeeded = λ e. absurd (refused e);
      held = record { block = n; after = omega arith; before = le; leaves = i.leaves };
    })

    logs-Synced :
        (logs : List Log)
        → span (logs_at F depth c) (suc n) (latest - n) ≡ logs
        → Synced n (sync_logs P F round logs s1)
    unfolding sync_logs sync_each BlockMap.values
    logs-Synced [] e =
        let none_found = no_hashes found (
          ap (map (λ l. l.transaction_hash)) (sym e)
          ∙ entries-asked F depth c (suc n) (latest - n)) in
        subst (λ txs. Synced n (sync_each P F round txs s1)) (ap BlockMap.values none_found)
          (Passed-Synced _ passed)
    logs-Synced (log ∷ logs) e =
        let asked = hashes_of-some P F round (log ∷ logs) (hashes F depth c found) (
          ap (map (λ l. l.transaction_hash)) (sym e)
          ∙ entries-asked F depth c (suc n) (latest - n)) in
        let replies =
          round.arrivals (map round.middleware.get_transaction (hashes F depth c found)) in
        elim (Outcome-cases (collect P F round replies [])) [
          | inl (m, r) ↦
              let same =
                collect-found P F depth c round (suc n) (latest - n) latest s.updater.block_scanner
                  m (omega (arith, t.scans.behind)) t r in
              let run : sync_logs P F round (log ∷ logs) s1
                  ≡ sync_each P F round (BlockMap.values m) s1 =
                ground (arith, asked, r) in
              subst (Synced n)
                (sym (run ∙ ap (λ k. sync_each P F round (BlockMap.values k) s1) same))
                (Passed-Synced _ passed)
          | inr (inl (x, r)) ↦
              broken (err x) after (λ e. cc) t.scans.behind (ground (arith, asked, r))
          | inr (inr (inl r)) ↦
              broken panic after (λ e. cc) t.scans.behind (ground (arith, asked, r))
          | inr (inr (inr r)) ↦
              broken out_of_fuel after (λ e. cc) t.scans.behind (ground (arith, asked, r))
        ]

    -- Where the scanner failed it is as it was, and the task has nothing to handle.
    scan_broken :
        {o : Outcome (Error P F) (Unit {0}) × SyncState P F}
        → (r : Outcome (Error P F) (Unit {0})) → r ≢ ok tt
        → ((logs : List Log)
            → (BlockScanner.next round.scan_fuel round.middleware s.updater.block_scanner).0
              ≢ ok logs)
        → o ≡ (
          r,
          moved P F round s
              (BlockScanner.next round.scan_fuel round.middleware s.updater.block_scanner).1,
        )
        → Synced n o
    scan_broken r refused failed run =
        let kept = next-unchanged s.updater.block_scanner round.middleware round.scan_fuel failed in
        broken r s.updater.block_scanner refused (omega arith)
          (run ∙ ap (λ sc. (r, moved P F round s sc)) kept)

    pub sync_to_head-Synced : Synced n (sync_to_head P F round s)
    unfolding sync_to_head next_logs
    sync_to_head-Synced =
        let scanned = BlockScanner.next round.scan_fuel round.middleware s.updater.block_scanner in
        elim (Outcome-cases scanned.0) [
          | inl (logs, r) ↦
              let both : scanned ≡ (ok logs, scanned.1) = ap (λ o. (o, scanned.1)) r in
              let (all, stands) =
                next-ok (logs_at F depth c) s.updater.block_scanner round.middleware latest t.scans
                  round.scan_fuel logs scanned.1 both in
              let first : n + 1 ≡ suc n = omega arith in
              let same = sym (all ∙ ap (λ k. span (logs_at F depth c) k (latest - n)) first) in
              let run : sync_to_head P F round s
                  ≡ sync_logs P F round logs (moved P F round s scanned.1) =
                ground (arith, r) in
              subst (Synced n)
                (sym (run ∙ ap (λ sc. sync_logs P F round logs (moved P F round s sc)) stands))
                (logs-Synced logs same)
          | inr (inl (x, r)) ↦
              scan_broken (err (middleware_error x)) (λ e. cc) (λ logs e. absurd cc)
                (ground (arith, r))
          | inr (inr (inl r)) ↦
              scan_broken panic (λ e. cc) (λ logs e. absurd cc) (ground (arith, r))
          | inr (inr (inr r)) ↦
              scan_broken out_of_fuel (λ e. cc) (λ logs e. absurd cc) (ground (arith, r))
        ]
