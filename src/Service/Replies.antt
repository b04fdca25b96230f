-- ===== src/Service/Replies.antt =====
-- What clients of the service get, in the states that the service reaches.
use world_tree.Prelude.{
  ℕ, ◌^◌, ◌≡◌, refl, ◌∙◌, inl, inr, Bool-cases, true, false, none, some, List, arith, replicate,
}
use world_tree.Merkle.{Hash, hash_zero, PoseidonTree, IsMerkle}
use world_tree.LeafMap
use world_tree.BlockScanner.{BlockScanner}
use world_tree.Foreign.{Foreign}
use world_tree.TreeData
use world_tree.TreeData.{TreeData, InclusionProof, get_inclusion_proof}
use world_tree.TreeData.Live.{new-IsLive}
use world_tree.TreeData.Proofs.{Verifies, get_inclusion_proof-Verifies}
use world_tree.TreeData.Batches.{live-Serves}
use world_tree.Updater
use world_tree.Updater.{SyncState, Round}
use world_tree.Updater.Accept.{Accepts}
use world_tree.Updater.Mirror.{Mirrors}
use world_tree.Updater.Head.{Delivers, sync_to_head-Mirrors}
use world_tree.Error.{tree_not_synced}
use world_tree.WorldTree
use world_tree.WorldTree.{WorldTree, Reach, starting, looping, first_sync}
use world_tree.WorldTree.Invariant.{Sound, Reach-Sound}
use world_tree.Service.{InclusionProofRequest, status_ok, new, inclusion_proof, synced}

module _ (P : PoseidonTree) (F : Foreign) where
  -- A proof that the service returns verifies, for the identity of the request, against the root of
  -- the request or the latest root, and the service was synced.
  pub inclusion_proof-Verifies :
      (L : IsMerkle P) (w : WorldTree P F) (req : InclusionProofRequest) (code : ℕ)
      → (p : InclusionProof P) → inclusion_proof P F w req ≡ inr (code, some p)
      → (w.synced ≡ true)
        × (code ≡ status_ok)
        × Verifies P req.identity_commitment p
        × (p.root ≡ elim req.root [ none ↦ P.root w.tree_data.tree | some r ↦ r ])
  unfolding inclusion_proof
  inclusion_proof-Verifies L w req code p h = elim (Bool-cases w.synced) [
    | inl e ↦
        let served : get_inclusion_proof P w.tree_data req.identity_commitment req.root ≡ some p =
          ground (arith, e, h) in
        let (verified, root) =
          get_inclusion_proof-Verifies P L w.tree_data req.identity_commitment req.root p served in
        (e, ground (arith, e, h), verified, root)
    | inr e ↦ absurd (ground (arith, e, h))
  ]

  module _ (db : F.Db) (signature depth dense size address creation_block window : ℕ) where
    abbrev start : WorldTree P F
    start = new P F db signature depth dense size address creation_block window

    start-Sound : {v : WorldTree P F} → Reach P F start v → Sound start v
    unfolding new WorldTree.new TreeData.new
    start-Sound r = Reach-Sound P F (omega arith) refl r

    start-latest : start.updater.latest_synced_block ≡ creation_block
    unfolding new WorldTree.new Updater.new
    start-latest = refl

    -- As long as the service is not synced, `/synced` reports the creation block, however far the
    -- sync has come, and `/inclusionProof` is refused.
    pub unsynced_replies :
        {v : WorldTree P F} (req : InclusionProofRequest)
        → Reach P F (new P F db signature depth dense size address creation_block window) v
        → v.synced ≡ false
        → (synced P F v
            ≡ (status_ok, record { synced = false; block_number = some creation_block }))
          × (inclusion_proof P F v req ≡ inl tree_not_synced)
    unfolding synced inclusion_proof
    unsynced_replies req r e =
        let s = start-Sound r in ground (arith, e, s.stays.latest ∙ start-latest)

    pub start-Mirrors : IsMerkle P → Mirrors P F depth (replicate (2 ^ depth) hash_zero) start.state
    unfolding new WorldTree.new TreeData.new
    start-Mirrors L = record {
      live = new-IsLive P (P.new_with_dense_prefix depth dense hash_zero) size;
      depth_kept = L.depth_lem depth dense hash_zero;
      leaves = L.new_lem depth dense hash_zero;
    }

    -- The first sync of a service with an empty tree, if the round delivers transactions that take
    -- the contract from the empty tree to leaves `ls` and the database accepts every statement: the
    -- service is synced, its tree has the leaves `ls`, and every identity in its map gets a proof at
    -- the latest root that verifies.
    pub first_sync-Serves :
        (L : IsMerkle P) (A : Accepts F) (round : Round F) (ls : List Hash) (scanner : BlockScanner)
        → Delivers P F round depth
            (new P F db signature depth dense size address creation_block
              window).updater.block_scanner
            scanner
            (replicate (2 ^ depth) hash_zero)
            ls
        → (v : WorldTree P F) × (first_sync P F round
              (new P F db signature depth dense size address creation_block window)
            ≡ v)
          × (v.synced ≡ true)
          × (P.leaves v.tree_data.tree ≡ ls)
          × ((q ts : ℕ)
              → LeafMap.get q v.tree_data.leaves ≡ some ts
              → (p : InclusionProof P) × (inclusion_proof P F v
                    (record { identity_commitment = q; root = none })
                  ≡ inr (status_ok, some p))
                × Verifies P q p
                × (p.root ≡ P.root v.tree_data.tree))
    unfolding first_sync inclusion_proof
    first_sync-Serves L A round ls scanner delivered =
        let (s, run, m, moved) =
          sync_to_head-Mirrors P F round L A depth (replicate (2 ^ depth) hash_zero) ls start.state
            scanner delivered (start-Mirrors L) in
        (
          record { state = s; synced = true; phase = looping },
          ground (arith, run),
          refl,
          m.leaves,
          (λ q ts h.
              let (p, e, verified, root) = live-Serves P L s.tree_data q ts m.live h in
              (p, ground (arith, e), verified, root)),
        )
