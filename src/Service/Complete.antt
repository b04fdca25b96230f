-- ===== src/Service/Complete.antt =====
-- After its first sync the service has a proof for every identity of the contract.
use world_tree.Prelude.{
  ℕ, ◌^◌, ◌≡◌, ◌≢◌, refl, sym, ap, ◌∙◌, inr, true, none, some, List, arith, replicate, get_elem?,
}
use world_tree.Merkle.{Hash, hash_zero, PoseidonTree, IsMerkle}
use world_tree.BlockScanner.{BlockScanner}
use world_tree.Foreign.{Foreign}
use world_tree.TreeData
use world_tree.TreeData.{InclusionProof}
use world_tree.TreeData.Full.{IsFull, get_elem?-replicate}
use world_tree.TreeData.Proofs.{Verifies}
use world_tree.TreeData.Batches.{live-Serves}
use world_tree.Updater.{Round}
use world_tree.Updater.Accept.{Accepts}
use world_tree.Updater.Full.{NeverRepeated}
use world_tree.Updater.Head.{Delivers, sync_to_head-Mirrors, sync_to_head-IsFull}
use world_tree.WorldTree
use world_tree.WorldTree.{WorldTree, looping, first_sync}
use world_tree.Service.{status_ok, new, inclusion_proof}
use world_tree.Service.Replies.{start-Mirrors}

module _ (P : PoseidonTree) (F : Foreign) where
  module _ (db : F.Db) (signature depth dense size address creation_block window : ℕ) where
    abbrev start : WorldTree P F
    start = new P F db signature depth dense size address creation_block window

    -- The empty tree has no identity.
    pub start-IsFull : IsMerkle P → IsFull start.tree_data
    unfolding new WorldTree.new TreeData.new
    start-IsFull L i q h z =
        let zeros = ap (λ l. get_elem? l i) (sym (L.new_lem depth dense hash_zero)) in
        absurd (z (get_elem?-replicate (2 ^ depth) i hash_zero q (zeros ∙ h)))

    -- The first sync of a service with an empty tree, if the round delivers transactions that take
    -- the contract from the empty tree to leaves `ls`, the database accepts every statement, and no
    -- state of the leaves on the way has an identity twice: the service is synced, and every
    -- identity among the leaves `ls` gets a proof at the latest root that verifies.
    pub first_sync_complete :
        (L : IsMerkle P) (A : Accepts F) (round : Round F) (ls : List Hash) (scanner : BlockScanner)
        → (c : Delivers P F round depth
            (new P F db signature depth dense size address creation_block
              window).updater.block_scanner
            scanner
            (replicate (2 ^ depth) hash_zero)
            ls)
        → NeverRepeated P F round c.effects
        → (v : WorldTree P F) × (first_sync P F round
              (new P F db signature depth dense size address creation_block window)
            ≡ v)
          × (v.synced ≡ true)
          × ((i : ℕ) (q : Hash)
              → get_elem? ls i ≡ some q
              → q ≢ hash_zero
              → (p : InclusionProof P) × (inclusion_proof P F v
                    (record { identity_commitment = q; root = none })
                  ≡ inr (status_ok, some p))
                × Verifies P q p
                × (p.root ≡ P.root v.tree_data.tree))
    unfolding first_sync inclusion_proof
    first_sync_complete L A round ls scanner c u =
        let m0 = start-Mirrors P F db signature depth dense size address creation_block window L in
        let zeros : List Hash = replicate (2 ^ depth) hash_zero in
        let (s, run, m, moved) =
          sync_to_head-Mirrors P F round L A depth zeros ls start.state scanner c m0 in
        let full =
          sync_to_head-IsFull P F round L A depth zeros ls start.state s scanner c m0 u
            (start-IsFull L) run in
        (
          record { state = s; synced = true; phase = looping },
          ground (arith, run),
          refl,
          (λ i q h z.
              let (ts, in_map) = full i q (rw m.leaves h) z in
              let (p, e, verified, root) = live-Serves P L s.tree_data q ts m.live in_map in
              (p, ground (arith, e), verified, root)),
        )
