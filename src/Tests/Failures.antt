-- ===== src/Tests/Failures.antt =====
-- The theorem on a round that fails, for a registration followed by an unknown call.
use mathlib.Core.List.{Permᴰ}
use world_tree.Prelude.{◌^◌, ◌≡◌, refl, inr, ◌==◌, if◌then◌else◌, some, [], ◌∷◌, arith, replicate}
use world_tree.Exec.{err}
use world_tree.Merkle.{hash_zero}
use world_tree.Chain.{Transaction, filter_for}
use world_tree.BlockScanner
use world_tree.BlockScanner.{BlockScanner}
use world_tree.BlockScanner.Complete.{span}
use world_tree.BlockMap
use world_tree.Error.{unrecognized_function_selector}
use world_tree.Rows.{created_at}
use world_tree.Prelude.Int.{as_i64, pos}
use world_tree.Updater
use world_tree.Updater.{
  SyncState, Round, selector_eq, selector_of, dispatch, sync_from_transaction, sync_to_head,
  next_logs, sync_logs,
}
use world_tree.Updater.Calls.{IsKnown}
use world_tree.Updater.Mirror.{Effect, registers, first, none_left}
use world_tree.Updater.Head.{Fetches}
use world_tree.Updater.Broken.{Breaks}
use world_tree.WorldTree
use world_tree.WorldTree.{WorldTree, looping, first_sync, loop_sync}
use world_tree.WorldTree.Follow.{Follows, begins, syncs_first, idles}
use world_tree.Service
use world_tree.Service.Broken.{StopsWith, failed_round-StopsWith}
use world_tree.Tests.Tree.{list_tree, list_tree-IsMerkle}
use world_tree.Tests.Contract.{crates, crates-Accepts, tx_register, provider, one_round, log_of}
use world_tree.Tests.Sync.{service, zeros, middle, call, block_5, call-IsVacant}

-- At first the chain ends at the creation block.
abbrev early : Round crates
early = record one_round { middleware = record provider { get_block_number = inr 3 } }

abbrev waiting : WorldTree list_tree crates
waiting = first_sync list_tree crates early service

waiting-Follows : Follows list_tree crates 2 service (replicate (2 ^ 2) hash_zero) waiting zeros
unfolding Service.new WorldTree.new Updater.new BlockScanner.new BlockScanner.next BlockScanner.scan
waiting-Follows =
    syncs_first begins early refl
      (idles (record { last_synced_block = 3; window_size = 1; filter = filter_for 1 2 }) refl)

waiting-run : waiting.phase ≡ looping
unfolding first_sync sync_to_head next_logs sync_logs Service.new WorldTree.new Updater.new
    BlockScanner.new BlockScanner.next BlockScanner.scan
waiting-run = refl

-- Block 6 has a call that is none of the contract's three.
abbrev tx_bad : Transaction
tx_bad = record { hash = 60; block_number = some 6; input = 9 ∷ 0 ∷ 0 ∷ 0 ∷ [] }

abbrev bad_round : Round crates
bad_round = record one_round {
  middleware = record provider {
    get_transaction = λ h. inr (if h == 50 then some tx_register else some tx_bad);
  };
}

bad-Fetches :
    Fetches list_tree crates bad_round waiting.updater.block_scanner
      (record { last_synced_block = 6; window_size = 1; filter = filter_for 1 2 })
unfolding first_sync sync_to_head next_logs sync_logs Service.new WorldTree.new Updater.new
    BlockScanner.new BlockScanner.next BlockScanner.scan BlockScanner.window_end span
bad-Fetches = record {
  log = log_of 50;
  logs = log_of 60 ∷ [];
  hashes = 50 ∷ 60 ∷ [];
  entries = (5, tx_register) ∷ (6, tx_bad) ∷ [];
  scanned = refl;
  asked = refl;
  arrived = Permᴰ.swap refl refl;
  sorted = ((omega arith, tt), (tt, tt));
  mined = (refl, (refl, tt));
}

bad-IsKnown : IsKnown list_tree crates bad_round tx_register
unfolding created_at as_i64
bad-IsKnown = record {
  number = 5;
  block = block_5;
  at = pos 5;
  ts = 100;
  long = omega arith;
  mined = refl;
  found = refl;
  dated = refl;
  clock = refl;
}

bad-Effect : Effect list_tree crates bad_round 2 tx_register zeros middle
unfolding selector_eq
bad-Effect =
    registers call (record { known = bad-IsKnown; selected = refl; decoded = refl }) call-IsVacant
      refl

bad-refused :
    (s : SyncState list_tree crates)
    → (sync_from_transaction list_tree crates bad_round tx_bad s).0
      ≡ err unrecognized_function_selector
unfolding sync_from_transaction selector_of dispatch selector_eq
bad-refused s = refl

bad-Breaks :
    Breaks list_tree crates bad_round 2 waiting.updater.block_scanner
      (record { last_synced_block = 6; window_size = 1; filter = filter_for 1 2 })
      zeros
      middle
      unrecognized_function_selector
unfolding bad-Fetches BlockMap.values
bad-Breaks = record {
  fetches = bad-Fetches;
  good = tx_register ∷ [];
  bad = tx_bad;
  rest = [];
  split = refl;
  effects = first bad-Effect none_left;
  refused = λ s m. bad-refused s;
}

failed_round-StopsWith_example :
    StopsWith list_tree crates middle (loop_sync list_tree crates bad_round waiting)
failed_round-StopsWith_example =
    failed_round-StopsWith list_tree crates 0 2 2 0 5 1 3 1 list_tree-IsMerkle crates-Accepts
      waiting zeros middle waiting-Follows waiting-run bad_round _ unrecognized_function_selector
      bad-Breaks
