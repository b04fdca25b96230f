-- ===== src/WorldTree/Written.antt =====
-- The statements that the rounds of the task send to the database.
use mathlib.Core.Path.{subst}
use world_tree.Prelude.{ℕ, ◌≡◌, sym, ◌∙◌, List, [], ◌++◌, arith}
use world_tree.Exec.{ok}
use world_tree.Merkle.{Hash, PoseidonTree, IsMerkle}
use world_tree.BlockScanner.{BlockScanner}
use world_tree.Foreign.{Foreign}
use world_tree.Updater.{SyncState, Round, sync_to_head, next_logs, sync_logs}
use world_tree.Updater.Accept.{Accepts}
use world_tree.Updater.Mirror.{Mirrors}
use world_tree.Updater.Written.{
  Statement, Executed, done, Executed-append, all_statements, sync_to_head-Executed,
}
use world_tree.WorldTree.{WorldTree, first_sync, loop_sync}
use world_tree.WorldTree.Follow.{
  Brings, delivers, idles, Follows, begins, syncs_first, syncs_again, InStep, sync_to_head-Brings,
  Follows-InStep,
}

module _ (P : PoseidonTree) (F : Foreign) (depth : ℕ) where
  abbrev pub round_statements :
      {round : Round F} {start : BlockScanner} {ls ls' : List Hash}
      → Brings P F depth round start ls ls'
      → List (Statement F)
  round_statements {round} (delivers scanner c) = all_statements P F round c.effects
  round_statements (idles scanner e) = []

  abbrev pub written :
      {w : WorldTree P F} {ls0 : List Hash} {v : WorldTree P F} {ls : List Hash}
      → Follows P F depth w ls0 v ls
      → List (Statement F)
  written begins = []
  written (syncs_first f round p b) = written f ++ round_statements b
  written (syncs_again f round p b) = written f ++ round_statements b

  module _ (L : IsMerkle P) (A : Accepts F) where
    round-Executed :
        (round : Round F) (ls ls' : List Hash) (s s' : SyncState P F)
        → (b : Brings P F depth round s.updater.block_scanner ls ls') → Mirrors P F depth ls s
        → sync_to_head P F round s ≡ (ok tt, s')
        → Executed F (round_statements b) s.db s'.db
    unfolding sync_to_head next_logs sync_logs
    round-Executed round ls ls' s s' (delivers scanner c) m run =
        sync_to_head-Executed P F round L A ls ls' s s' scanner c m run
    round-Executed round ls ls' s s' (idles scanner e) m run =
        let after : SyncState P F = record s {
          updater = record s.updater { block_scanner = scanner };
        } in
        let idle : sync_to_head P F round s ≡ (ok tt, after) = ground (arith, e) in
        subst (λ o. Executed F [] s.db o.1.db) (sym idle ∙ run) done

    first_sync-db :
        (round : Round F) (v : WorldTree P F) (s' : SyncState P F)
        → sync_to_head P F round v.state ≡ (ok tt, s')
        → s'.db ≡ (first_sync P F round v).db
    unfolding first_sync
    first_sync-db round v s' run = ground (arith, run)

    loop_sync-db :
        (round : Round F) (v : WorldTree P F) (s' : SyncState P F)
        → sync_to_head P F round v.state ≡ (ok tt, s')
        → s'.db ≡ (loop_sync P F round v).db
    unfolding loop_sync
    loop_sync-db round v s' run = ground (arith, run)

    -- The database is what the statements of all rounds make of it, in order.
    pub Follows-Executed :
        {w : WorldTree P F} {ls0 : List Hash} {v : WorldTree P F} {ls : List Hash}
        → InStep P F depth w ls0
        → (f : Follows P F depth w ls0 v ls) → Executed F (written f) w.db v.db
    Follows-Executed i begins = done
    Follows-Executed {w} i (syncs_first {v} {ls} {ls'} f round p b) =
        let j = Follows-InStep P F depth L A i f in
        let (s', run, m) = sync_to_head-Brings P F depth L A round ls ls' v.state b j.mirrors in
        subst (Executed F (written f ++ round_statements b) w.db) (first_sync-db round v s' run) (
          Executed-append F (Follows-Executed i f)
            (round-Executed round ls ls' v.state s' b j.mirrors run))
    Follows-Executed {w} i (syncs_again {v} {ls} {ls'} f round p b) =
        let j = Follows-InStep P F depth L A i f in
        let (s', run, m) = sync_to_head-Brings P F depth L A round ls ls' v.state b j.mirrors in
        subst (Executed F (written f ++ round_statements b) w.db) (loop_sync-db round v s' run) (
          Executed-append F (Follows-Executed i f)
            (round-Executed round ls ls' v.state s' b j.mirrors run))
