-- ===== src/Tests/Faults.antt =====
-- The theorem on rounds that may fail, for the chain with the contract's two transactions: the block of
-- the second one cannot be had.
use mathlib.Core.List.{Permᴰ}
use mathlib.Core.Path.{subst}
use world_tree.Prelude.{
  ◌+◌, ◌-◌, ◌^◌, ◌<◌, ap, sym, ◌∙◌, Option, List, ℕ, ◌≤◌, ◌≡◌, refl, ◌⊎◌, inl, inr, true, false,
  some, none, arith, if◌then◌else◌, ◌==◌,
}
use world_tree.Prelude.Int.{as_i64}
use world_tree.Indices.{unpack_indices, from_be_bytes}
use world_tree.TreeData.{
  insert_many_at, insert_from, insert_at, delete_many, delete_each, clear_leaf, remove_leaf,
  cache_tree_history, make_room, push_front, pop_back,
}
use world_tree.Rows.{created_at, traverse, insertion_row, deletion_row, batch_row}
use world_tree.TreeData
use world_tree.LeafMap
use world_tree.BlockMap
use world_tree.BlockScanner.Complete.{span}
use world_tree.Updater.{
  selector_eq, padding_index, sync_to_head, next_logs, sync_logs, hashes_of, collect, sync_each,
  sync_from_transaction, selector_of, dispatch, on_register, on_delete, register_identities,
  delete_identities, on_tree, exec_db,
}
use world_tree.WorldTree.{first_sync}
use world_tree.Tests.Sync.{middle}
use world_tree.TreeData.{InclusionProof}
use world_tree.TreeData.Proofs.{Verifies}
use world_tree.Error.{tree_not_synced}
use world_tree.BlockScanner
use world_tree.Updater
use world_tree.Updater.{Round}
use world_tree.WorldTree
use world_tree.WorldTree.{WorldTree, stopped}
use world_tree.WorldTree.Run.{advance}
use world_tree.Service
use world_tree.Service.{status_ok, inclusion_proof}
use world_tree.Contract.Faults.{Truthfully}
use world_tree.Contract.Faulty.{not_yet, round_more}
use world_tree.Contract.AnyRound.{faults_safe}
use world_tree.Tests.Tree.{list_tree, list_tree-IsMerkle}
use world_tree.Chain.{Transaction, Filter}
use world_tree.Contract.{logs_at}
use world_tree.BlockScanner.{BlockScanner}
use world_tree.Tests.Contract.{crates, logs_in, mined, span-mined}
use world_tree.Tests.Sync.{service}
use world_tree.Tests.Chain.{
  contract, round_at, honest_round, at_5, at_5-scanner, all_blocks, crosses, leaves_at,
}

abbrev failing_round : Round crates
failing_round = record honest_round {
  middleware = record honest_round.middleware {
    get_block = λ n. if n == 6 then inl 9 else inr (some (record { timestamp = n }));
  };
}

abbrev left : WorldTree list_tree crates
left = advance list_tree crates at_5.phase failing_round at_5

-- The registration of block 5 was handled and the deletion of block 6 was not, and the task stopped.
left_runs :
    (left.phase ≡ stopped)
    × (left.tree_data.tree ≡ middle)
    × (left.updater.block_scanner.last_synced_block ≡ 6)
unfolding Service.new WorldTree.new TreeData.new Updater.new BlockScanner.new advance first_sync
    sync_to_head next_logs sync_logs BlockScanner.next BlockScanner.scan BlockScanner.window_end
    BlockScanner.store_last span hashes_of collect sync_each sync_from_transaction selector_of
    dispatch on_register on_delete register_identities delete_identities on_tree exec_db traverse
    created_at insertion_row deletion_row batch_row selector_eq padding_index unpack_indices
    from_be_bytes as_i64 insert_many_at insert_from insert_at delete_many delete_each clear_leaf
    remove_leaf cache_tree_history make_room push_front pop_back LeafMap.insert LeafMap.remove
    LeafMap.get BlockMap.insert BlockMap.values
left_runs = (refl, refl, refl)

known-Truthfully :
    (latest : ℕ) (scanner : BlockScanner) (round : Round crates)
    → scanner.last_synced_block ≤ latest
    → latest + scanner.window_size < 2 ^ 64
    → round.middleware.get_block_number ≡ inr latest
    → ((f : Filter)
        → round.middleware.get_logs f ≡ inr (logs_in (mined latest (logs_at crates 2 contract)) f))
    → round.middleware.get_transaction ≡ honest_round.middleware.get_transaction
    → round.arrivals ≡ honest_round.arrivals
    → Truthfully list_tree crates 2 contract round scanner latest
known-Truthfully latest scanner round behind fits head logs found arrived = record {
  scans = record {
    head = inl head;
    ranges = λ a b le short known. inl (
        logs _
        ∙ ap inr (
            span-mined latest (logs_at crates 2 contract) a (b + 1 - a)
              (omega (arith, le, known))));
    behind = behind;
    fits = fits;
  };
  transactions = λ n tx l e. inl (
      inl (
        ap (λ get. get tx.hash) found
        ∙ all_blocks (λ m t. honest_round.middleware.get_transaction t.hash ≡ inr (some t)) refl
            refl n tx e));
  arrives =
      subst (λ a. (rs : List (ℕ ⊎ Option Transaction)) → Permᴰ rs (a rs)) (sym arrived) crosses;
}

first-Truthfully :
    Truthfully list_tree crates 2 contract (round_at 5) service.updater.block_scanner 5
unfolding Service.new WorldTree.new Updater.new BlockScanner.new
first-Truthfully =
    known-Truthfully 5 _ (round_at 5) (omega arith) (omega arith) refl (λ f. refl) refl refl

failing_round-Truthfully :
    Truthfully list_tree crates 2 contract failing_round at_5.updater.block_scanner 6
failing_round-Truthfully =
    known-Truthfully 6 _ failing_round (omega (arith, at_5-scanner.0))
      (omega (arith, at_5-scanner.1)) refl (λ f. refl) refl refl

faults_safe_example :
    ((earlier : ℕ) × (3 ≤ earlier)
      × (at_5.tree_data.tree ≡ leaves_at earlier)
      × ((block : ℕ) × (earlier ≤ block)
          × (block ≤ left.updater.block_scanner.last_synced_block)
          × (left.tree_data.tree ≡ leaves_at block)
          × ((left.phase ≡ stopped) ⊎ (block ≡ left.updater.block_scanner.last_synced_block))))
    × (((left.synced ≡ false)
          × (inclusion_proof list_tree crates left (record { identity_commitment = 7; root = none })
              ≡ inl tree_not_synced))
        ⊎ ((left.synced ≡ true)
            × ((inclusion_proof list_tree crates left
                    (record { identity_commitment = 7; root = none })
                  ≡ inr (status_ok, none))
                ⊎ ((p : InclusionProof list_tree) × (inclusion_proof list_tree crates left
                        (record { identity_commitment = 7; root = none })
                      ≡ inr (status_ok, some p))
                    × Verifies list_tree 7 p
                    × (p.root ≡ list_tree.root left.tree_data.tree)))))
faults_safe_example =
    faults_safe list_tree crates 0 2 2 0 5 1 3 1 list_tree-IsMerkle contract refl
      (round_more not_yet (round_at 5) 5 first-Truthfully)
      (round_more not_yet failing_round 6 failing_round-Truthfully) 7
