-- ===== src/Service/Scanned.antt =====
-- Which of the chain's logs the service handles through its rounds.
use world_tree.Prelude.{ℕ, ◌+◌, ◌-◌, ◌^◌, ◌≤◌, ◌≡◌, List, replicate}
use world_tree.Merkle.{Hash, hash_zero, PoseidonTree, IsMerkle}
use world_tree.Chain.{Log}
use world_tree.BlockScanner
use world_tree.BlockScanner.Complete.{span}
use world_tree.BlockScanner.Rounds.{Scans-UpTo}
use world_tree.Foreign.{Foreign}
use world_tree.Updater
use world_tree.Updater.Accept.{Accepts}
use world_tree.WorldTree
use world_tree.WorldTree.{WorldTree}
use world_tree.WorldTree.Follow.{Follows}
use world_tree.WorldTree.Scanned.{KnowsChain, handled, Follows-Scans}
use world_tree.Service.{new}
use world_tree.Service.Rounds.{start-InStep}

module _ (P : PoseidonTree) (F : Foreign) where
  module _ (db : F.Db) (signature depth dense size address creation_block window : ℕ) where
    -- A service that started with an empty tree and went through rounds that each bring
    -- transactions of the contract or no logs, over a database that accepts every statement and
    -- with a provider that in each round knows the chain up to its head, has in these rounds
    -- handled the logs of every block after the creation block up to where its scanner stands, each
    -- once and in order.
    pub rounds_scanned :
        (L : IsMerkle P) (A : Accepts F) (logs_of : ℕ → List Log) (v : WorldTree P F)
        (ls : List Hash)
        → (f : Follows P F depth
            (new P F db signature depth dense size address creation_block window)
            (replicate (2 ^ depth) hash_zero)
            v
            ls)
        → KnowsChain P F depth logs_of f
        → (creation_block ≤ v.updater.block_scanner.last_synced_block)
          × (handled P F depth f
              ≡ span logs_of
                  (creation_block + 1)
                  (v.updater.block_scanner.last_synced_block - creation_block))
    unfolding new WorldTree.new Updater.new BlockScanner.new
    rounds_scanned L A logs_of v ls f known =
        let u = Scans-UpTo F.Failure logs_of (
          Follows-Scans P F depth L A logs_of
            (start-InStep P F db signature depth dense size address creation_block window L) f
            known) in
        (u.moved, u.all)
