-- ===== src/Tests/Transactions.antt =====
-- The theorems on the updater and on rounds of the task, for the contract's two transactions.
use world_tree.Prelude.{
  ℕ, ◌^◌, ◌≡◌, refl, inr, ◌↔◌, map, take, none, some, [], ◌∷◌, arith, replicate, true, get_elem?,
  ◌≢◌,
}
use world_tree.Prelude.Int.{as_i64, pos}
use world_tree.Exec.{ok}
use world_tree.Merkle.{Hash, hash_zero}
use world_tree.LeafMap
use world_tree.Indices.{unpack_indices, from_be_bytes}
use world_tree.TreeData
use world_tree.TreeData.{TreeData, InclusionProof}
use world_tree.TreeData.Live.{new-IsLive}
use world_tree.TreeData.Proofs.{Verifies}
use world_tree.Rows.{created_at}
use world_tree.Updater.{
  SyncState, padding_index, sync_to_head, sync_from_transaction, register_identities,
  delete_identities,
}
use world_tree.Updater.Accept.{
  Registered, Removed, register_identities-Registered, delete_identities-Removed,
}
use world_tree.Updater.Mirror.{Mirrors, sync_from_transaction-Mirrors}
use world_tree.Updater.Head.{sync_to_head-Mirrors}
use world_tree.WorldTree
use world_tree.WorldTree.{WorldTree, Step, Reach, starting, first_sync, here, next}
use world_tree.Service
use world_tree.Service.{InclusionProofRequest, status_ok, inclusion_proof, synced}
use world_tree.Tests.Tree.{list_tree, list_tree-IsMerkle}
use world_tree.Tests.Contract.{crates, crates-Accepts, tx_register, tx_delete, one_round}
use world_tree.Tests.Sync.{
  service-NeverRepeated, service-AllMoveOn, service, block_5, zeros, middle, final, call, packed,
  scanner_after, register-Effect, service-Delivers,
}
use world_tree.WorldTree.{looping}
use world_tree.WorldTree.Follow.{Follows, begins, syncs_first, delivers}
use world_tree.Service.Rounds.{rounds_complete}
use world_tree.WorldTree.Full.{FollowsUnrepeated}
use world_tree.WorldTree.Traced.{FollowsTimely, states_before}
use world_tree.Service.History.{rounds_history}
use world_tree.Updater.Traced.{view}
use world_tree.TreeData.Dated.{IsDue}

pub service-Mirrors : Mirrors list_tree crates 2 zeros service.state
unfolding Service.new WorldTree.new TreeData.new
service-Mirrors = record { live = new-IsLive list_tree (2, 0) 5; depth_kept = refl; leaves = refl }

sync_to_head-Mirrors_example :
    (s' : SyncState list_tree crates) × (sync_to_head list_tree crates one_round service.state
      ≡ (ok tt, s'))
    × Mirrors list_tree crates 2 final s'
    × (s'.updater.block_scanner ≡ scanner_after)
sync_to_head-Mirrors_example =
    sync_to_head-Mirrors list_tree crates one_round list_tree-IsMerkle crates-Accepts 2 zeros final
      service.state scanner_after service-Delivers service-Mirrors

sync_from_transaction-Mirrors_example :
    (s' : SyncState list_tree crates) × (sync_from_transaction list_tree crates one_round
        tx_register service.state
      ≡ (ok tt, s'))
    × Mirrors list_tree crates 2 middle s'
    × (s'.updater ≡ service.updater)
sync_from_transaction-Mirrors_example =
    sync_from_transaction-Mirrors list_tree crates one_round list_tree-IsMerkle crates-Accepts 2
      tx_register zeros middle service.state register-Effect service-Mirrors

block_5-created_at : created_at list_tree crates block_5 ≡ ok (pos 5)
unfolding created_at as_i64
block_5-created_at = refl

register_identities-Registered_example :
    (s' : SyncState list_tree crates) × (register_identities list_tree crates tx_register 5 block_5
        (some 100)
        call
        service.state
      ≡ (ok tt, s'))
    × Registered list_tree crates tx_register 5 (pos 5) 100 (7 ∷ 8 ∷ []) call service.state s'
unfolding Service.new WorldTree.new TreeData.new
register_identities-Registered_example =
    register_identities-Registered list_tree crates tx_register 5 (pos 5) list_tree-IsMerkle
      crates-Accepts block_5 block_5-created_at 100 call service.state (omega arith) (omega arith)

delete_identities-Removed_example :
    (s' : SyncState list_tree crates) × (delete_identities list_tree crates tx_delete 5 block_5
        (some 100)
        packed
        []
        0
        0
        service.state
      ≡ (ok tt, s'))
    × Removed list_tree crates tx_delete 5 (pos 5) 100 (1 ∷ []) [] 0 0 service.state s'
unfolding Service.new WorldTree.new TreeData.new padding_index unpack_indices from_be_bytes
delete_identities-Removed_example =
    delete_identities-Removed list_tree crates tx_delete 5 (pos 5) list_tree-IsMerkle crates-Accepts
      block_5 block_5-created_at 100 packed [] 0 0 service.state (omega arith) (omega arith)
      (omega arith, tt)

abbrev pub synced_once : WorldTree list_tree crates
synced_once = first_sync list_tree crates one_round service

pub service-Follows :
    Follows list_tree crates 2 service (replicate (2 ^ 2) hash_zero) synced_once final
unfolding Service.new WorldTree.new
service-Follows = syncs_first begins one_round refl (delivers scanner_after service-Delivers)

pub synced_once-run : synced_once.phase ≡ looping
unfolding first_sync
synced_once-run =
    let (s', run, m, moved) =
      sync_to_head-Mirrors list_tree crates one_round list_tree-IsMerkle crates-Accepts 2 zeros
        final service.state scanner_after service-Delivers service-Mirrors in
    ground (arith, run)

pub service-FollowsUnrepeated : FollowsUnrepeated list_tree crates 2 service-Follows
unfolding service-Follows
service-FollowsUnrepeated = (tt, service-NeverRepeated)

rounds_complete_example :
    (synced_once.synced ≡ true)
    × ((j : ℕ) (q : Hash)
        → get_elem? final j ≡ some q
        → q ≢ hash_zero
        → (p : InclusionProof list_tree) × (inclusion_proof list_tree crates synced_once
              (record { identity_commitment = q; root = none })
            ≡ inr (status_ok, some p))
          × Verifies list_tree q p
          × (p.root ≡ list_tree.root synced_once.tree_data.tree))
rounds_complete_example =
    rounds_complete list_tree crates 0 2 2 0 5 1 3 1 list_tree-IsMerkle crates-Accepts synced_once
      final service-Follows service-FollowsUnrepeated synced_once-run

service-FollowsTimely : FollowsTimely list_tree crates 2 service-Follows
unfolding service-Follows
service-FollowsTimely = (tt, service-AllMoveOn)

rounds_history_example :
    (map (view list_tree) synced_once.tree_data.tree_history
      ≡ take 5 (states_before list_tree crates 2 service-Follows))
    × ((q root : Hash)
        → ((p : InclusionProof list_tree) × (inclusion_proof list_tree crates synced_once
                (record { identity_commitment = q; root = some root })
              ≡ inr (status_ok, some p)))
          ↔ ((t : ℕ) × (LeafMap.get q synced_once.tree_data.leaves ≡ some t)
              × IsDue list_tree synced_once.tree_data t root))
rounds_history_example =
    rounds_history list_tree crates 0 2 2 0 5 1 3 1 list_tree-IsMerkle crates-Accepts synced_once
      final service-Follows service-FollowsTimely synced_once-run
