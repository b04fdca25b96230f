-- ===== src/Contract/Database.antt =====
-- The database against the contract.
use mathlib.Core.Path.{subst}
use world_tree.Prelude.{ℕ, ◌-◌, ◌^◌, ◌≡◌, refl, replicate}
use world_tree.Merkle.{hash_zero, PoseidonTree, IsMerkle}
use world_tree.Foreign.{Foreign}
use world_tree.TreeData.Full.{Unrepeated}
use world_tree.Updater.Accept.{Accepts}
use world_tree.Updater.Written.{Executed}
use world_tree.WorldTree
use world_tree.WorldTree.{WorldTree}
use world_tree.WorldTree.Written.{Follows-Executed}
use world_tree.Service.{new}
use world_tree.Contract.{Contract}
use world_tree.Contract.Tables.{tables}
use world_tree.Contract.Start.{start-at, start-begun}
use world_tree.Contract.Follow.{Honestly, Honestly-Tracks}

module _ (P : PoseidonTree) (F : Foreign) where
  module _ (db : F.Db) (signature depth dense size address creation_block window : ℕ) where
    abbrev start : WorldTree P F
    start = new P F db signature depth dense size address creation_block window

    start-db : start.db ≡ db
    unfolding new WorldTree.new
    start-db = refl

    -- A service that starts with an empty tree at the contract's creation block, whose tree is
    -- empty then, never has an identity twice, and changes at most once in a block and, with
    -- deletions, has a depth below 32, over a database that accepts every statement, and that goes
    -- through rounds with honest providers up to the chain's head `n`: the database is what it was
    -- at the start after the statements, in order, for each call of the contract from the block
    -- after its creation to block `n`, which are a row for each identity that the call inserts or
    -- deletes, and then a row for the batch.
    pub database_written :
        (L : IsMerkle P) (D : Accepts F) (c : Contract F depth) (handled_at : ℕ → ℕ)
        → c.leaves_at creation_block ≡ replicate (2 ^ depth) hash_zero
        → ((n : ℕ) → Unrepeated (c.leaves_at n))
        → {v : WorldTree P F} {n : ℕ}
        → Honestly P F depth c handled_at
            (new P F db signature depth dense size address creation_block window)
            creation_block
            v
            n
        → Executed F (tables P F depth c creation_block (n - creation_block)) db v.db
    database_written L D c handled_at empty apart {v} {n} h =
        let at = start-at P F db signature depth dense size address creation_block window in
        let begun =
          start-begun P F db signature depth dense size address creation_block window L c empty in
        let t = Honestly-Tracks P F depth c handled_at L D apart creation_block begun at h in
        let done = Follows-Executed P F depth L D begun t.follows in
        subst (λ d. Executed F (tables P F depth c creation_block (n - creation_block)) d v.db)
          start-db (subst (λ xs. Executed F xs start.db v.db) t.sent done)
