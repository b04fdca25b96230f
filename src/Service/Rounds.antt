-- ===== src/Service/Rounds.antt =====
-- What the service answers after any number of rounds that succeed.
use world_tree.Prelude.{ℕ, ◌^◌, ◌≡◌, inr, true, none, some, List, arith, replicate, get_elem?, ◌≢◌}
use world_tree.Merkle.{Hash, hash_zero, PoseidonTree, IsMerkle}
use world_tree.LeafMap
use world_tree.Foreign.{Foreign}
use world_tree.TreeData.{InclusionProof}
use world_tree.TreeData.Proofs.{Verifies}
use world_tree.TreeData.Batches.{live-Serves}
use world_tree.Updater.Accept.{Accepts}
use world_tree.WorldTree
use world_tree.WorldTree.{WorldTree, starting, looping, stopped}
use world_tree.WorldTree.Follow.{Follows, InStep, Follows-InStep}
use world_tree.WorldTree.Full.{FollowsUnrepeated, Follows-IsFull}
use world_tree.Service.Complete.{start-IsFull}
use world_tree.Service.{status_ok, new, inclusion_proof}
use world_tree.Service.Replies.{start-Mirrors}

module _ (P : PoseidonTree) (F : Foreign) where
  module _ (db : F.Db) (signature depth dense size address creation_block window : ℕ) where
    pub start-InStep :
        IsMerkle P
        → InStep P F depth
            (new P F db signature depth dense size address creation_block window)
            (replicate (2 ^ depth) hash_zero)
    unfolding new WorldTree.new
    start-InStep L = record {
      mirrors = start-Mirrors P F db signature depth dense size address creation_block window L;
      running = λ e. cc;
      ready = λ e. absurd cc;
    }

    -- A service that started with an empty tree and went through rounds that each bring transactions
    -- of the contract or no logs, over a database that accepts every statement, serves in its loop
    -- the leaves that the contract has come to: its tree has them, and every identity in its map
    -- gets a proof at the latest root that verifies.
    pub rounds_serve :
        (L : IsMerkle P) (A : Accepts F) (v : WorldTree P F) (ls : List Hash)
        → Follows P F depth
            (new P F db signature depth dense size address creation_block window)
            (replicate (2 ^ depth) hash_zero)
            v
            ls
        → v.phase ≡ looping
        → (P.leaves v.tree_data.tree ≡ ls)
          × ((q ts : ℕ)
              → LeafMap.get q v.tree_data.leaves ≡ some ts
              → (p : InclusionProof P) × (inclusion_proof P F v
                    (record { identity_commitment = q; root = none })
                  ≡ inr (status_ok, some p))
                × Verifies P q p
                × (p.root ≡ P.root v.tree_data.tree))
    unfolding inclusion_proof
    rounds_serve L A v ls f looped =
        let i = Follows-InStep P F depth L A (start-InStep L) f in
        let m = i.mirrors in
        (
          m.leaves,
          (λ q ts h.
              let (p, e, verified, root) = live-Serves P L v.tree_data q ts m.live h in
              (p, ground (arith, e, i.ready looped), verified, root)),
        )

    -- A service that started with an empty tree and went through rounds that each bring transactions
    -- of the contract or no logs, over a database that accepts every statement, while no state of the
    -- contract's leaves had an identity twice, is synced in its loop, and has a proof at the latest
    -- root that verifies for every identity among the leaves that the contract has come to.
    pub rounds_complete :
        (L : IsMerkle P) (A : Accepts F) (v : WorldTree P F) (ls : List Hash)
        → (f : Follows P F depth
            (new P F db signature depth dense size address creation_block window)
            (replicate (2 ^ depth) hash_zero)
            v
            ls)
        → FollowsUnrepeated P F depth f
        → v.phase ≡ looping
        → (v.synced ≡ true)
          × ((j : ℕ) (q : Hash)
              → get_elem? ls j ≡ some q
              → q ≢ hash_zero
              → (p : InclusionProof P) × (inclusion_proof P F v
                    (record { identity_commitment = q; root = none })
                  ≡ inr (status_ok, some p))
                × Verifies P q p
                × (p.root ≡ P.root v.tree_data.tree))
    rounds_complete L A v ls f u looped =
        let i = Follows-InStep P F depth L A (start-InStep L) f in
        let full =
          Follows-IsFull P F depth L A (start-InStep L)
            (start-IsFull P F db signature depth dense size address creation_block window L) f u in
        let (leaves, served) = rounds_serve L A v ls f looped in
        (
          i.ready looped,
          (λ j q h z. let (ts, in_map) = full j q (rw leaves h) z in served q ts in_map),
        )
