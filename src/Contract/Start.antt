-- ===== src/Contract/Start.antt =====
-- The service before its first round, at the contract's creation block.
use mathlib.Core.Path.{subst}
use world_tree.Prelude.{ℕ, ◌^◌, ◌≡◌, refl, sym, replicate}
use world_tree.Merkle.{hash_zero, PoseidonTree, IsMerkle}
use world_tree.BlockScanner
use world_tree.Foreign.{Foreign}
use world_tree.Updater
use world_tree.WorldTree
use world_tree.WorldTree.{WorldTree}
use world_tree.WorldTree.Follow.{InStep}
use world_tree.Service.{new}
use world_tree.Service.Rounds.{start-InStep}
use world_tree.Contract.{Contract}

module _ (P : PoseidonTree) (F : Foreign) where
  module _ (db : F.Db) (signature depth dense size address creation_block window : ℕ) where
    abbrev start : WorldTree P F
    start = new P F db signature depth dense size address creation_block window

    pub start-at : start.updater.block_scanner.last_synced_block ≡ creation_block
    unfolding new WorldTree.new Updater.new BlockScanner.new
    start-at = refl

    -- It is in step with a contract whose tree is empty at its creation.
    pub start-begun :
        (L : IsMerkle P) (c : Contract F depth)
        → c.leaves_at creation_block ≡ replicate (2 ^ depth) hash_zero
        → InStep P F depth start (c.leaves_at creation_block)
    start-begun L c empty =
        subst (InStep P F depth start) (sym empty)
          (start-InStep P F db signature depth dense size address creation_block window L)
