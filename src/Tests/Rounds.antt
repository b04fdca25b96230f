-- ===== src/Tests/Rounds.antt =====
-- The theorem on the logs that the rounds handle: a round before the contract's transactions, and one
-- after them.
use mathlib.Core.List.{Permᴰ}
use mathlib.Core.Path.{subst}
use world_tree.Prelude.{sym, ◌+◌, ◌<◌, ℕ, ◌-◌, ◌^◌, ◌≤◌, ◌≡◌, refl, inr, [], ◌∷◌, arith, replicate}
use world_tree.Merkle.{hash_zero}
use world_tree.BlockScanner
use world_tree.BlockScanner.Complete.{span}
use world_tree.BlockMap
use world_tree.Updater
use world_tree.Updater.{Round, sync_to_head, next_logs, sync_logs, hashes_of, collect, sync_each}
use world_tree.Chain.{Filter}
use world_tree.BlockScanner.{BlockScanner}
use world_tree.BlockScanner.Rounds.{Head}
use world_tree.Updater.Mirror.{first, none_left}
use world_tree.Updater.Head.{Delivers}
use world_tree.WorldTree
use world_tree.WorldTree.{WorldTree, looping, first_sync, loop_sync}
use world_tree.WorldTree.Follow.{Follows, begins, syncs_first, syncs_again, Brings, delivers, idles}
use world_tree.WorldTree.Scanned.{KnowsChain, handled}
use world_tree.Service
use world_tree.Service.Scanned.{rounds_scanned}
use world_tree.Tests.Tree.{list_tree, list_tree-IsMerkle}
use world_tree.Tests.Contract.{
  crates, crates-Accepts, one_round, chain_logs, log_of, logs_in, mined, tx_register, tx_delete,
}
use world_tree.Tests.Sync.{service, final, scanner_after, register-Effect, delete-Effect}
use world_tree.Tests.Scans.{provider_at, mined-Answers}

abbrev early_round : Round crates
early_round = record one_round { middleware = provider_at 4 }

-- The first round finds no logs up to block 4.
abbrev at_4 : WorldTree list_tree crates
at_4 = first_sync list_tree crates early_round service

abbrev at_6 : WorldTree list_tree crates
at_6 = loop_sync list_tree crates one_round at_4

abbrev scanner_4 : BlockScanner
scanner_4 = record scanner_after { last_synced_block = 4 }

-- Nothing found, so the task is in its loop with its scanner at block 4.
at_4-run : (at_4.phase ≡ looping) × (at_4.updater.block_scanner ≡ scanner_4)
unfolding Service.new WorldTree.new Updater.new BlockScanner.new first_sync sync_to_head next_logs
    sync_logs BlockScanner.next BlockScanner.scan BlockScanner.window_end BlockScanner.store_last
    span hashes_of collect sync_each BlockMap.values
at_4-run = (refl, refl)

early-Brings :
    Brings list_tree crates 2 early_round service.updater.block_scanner
      (replicate (2 ^ 2) hash_zero)
      (replicate (2 ^ 2) hash_zero)
unfolding Service.new WorldTree.new Updater.new BlockScanner.new BlockScanner.next BlockScanner.scan
    BlockScanner.window_end BlockScanner.store_last span
early-Brings = idles scanner_4 refl

late-Delivers :
    Delivers list_tree crates one_round 2 scanner_4 scanner_after
      (replicate (2 ^ 2) hash_zero)
      final
unfolding BlockScanner.next BlockScanner.scan BlockScanner.window_end BlockScanner.store_last span
    BlockMap.values
late-Delivers = record {
  fetches = record {
    log = log_of 50;
    logs = log_of 60 ∷ [];
    hashes = 50 ∷ 60 ∷ [];
    entries = (5, tx_register) ∷ (6, tx_delete) ∷ [];
    scanned = refl;
    asked = refl;
    arrived = Permᴰ.swap refl refl;
    sorted = ((omega arith, tt), (tt, tt));
    mined = (refl, (refl, tt));
  };
  effects = first register-Effect (first delete-Effect none_left);
}

late-Brings :
    Brings list_tree crates 2 one_round at_4.updater.block_scanner
      (replicate (2 ^ 2) hash_zero)
      final
late-Brings =
    subst (λ s. Brings list_tree crates 2 one_round s (replicate (2 ^ 2) hash_zero) final)
      (sym at_4-run.1) (delivers scanner_after late-Delivers)

two_rounds-Follows : Follows list_tree crates 2 service (replicate (2 ^ 2) hash_zero) at_6 final
unfolding Service.new
two_rounds-Follows =
    syncs_again (syncs_first begins early_round refl early-Brings) one_round at_4-run.0 late-Brings

knows :
    (latest : ℕ) (scanner : BlockScanner) (round : Round crates)
    → ((f : Filter) → round.middleware.get_logs f ≡ inr (logs_in (mined latest chain_logs) f))
    → round.middleware.get_block_number ≡ inr latest
    → round.scan_fuel ≡ 10
    → scanner.last_synced_block ≤ latest
    → latest + scanner.window_size < 2 ^ 64
    → latest - scanner.last_synced_block < 10
    → Head chain_logs scanner round.middleware round.scan_fuel latest
knows latest scanner round answer head fuel behind fits enough = record {
  answers = mined-Answers chain_logs latest scanner round.middleware answer;
  head = head;
  behind = behind;
  fits = fits;
  enough = omega (arith, fuel, enough);
}

late_round-Head : Head chain_logs scanner_4 one_round.middleware one_round.scan_fuel 6
late_round-Head = record {
  answers = record { ranges = λ a b le short known. refl };
  head = refl;
  behind = omega arith;
  fits = omega arith;
  enough = omega arith;
}

two_rounds-KnowsChain : KnowsChain list_tree crates 2 chain_logs two_rounds-Follows
unfolding two_rounds-Follows Service.new WorldTree.new Updater.new BlockScanner.new
two_rounds-KnowsChain = (
  (tt, (4, knows 4 _ early_round (λ f. refl) refl refl (omega arith) (omega arith) (omega arith))),
  (
    6,
    subst (λ s. Head chain_logs s one_round.middleware one_round.scan_fuel 6) (sym at_4-run.1)
        late_round-Head,
  ),
)

rounds_scanned_example :
    (3 ≤ at_6.updater.block_scanner.last_synced_block)
    × (handled list_tree crates 2 two_rounds-Follows
        ≡ span chain_logs 4 (at_6.updater.block_scanner.last_synced_block - 3))
rounds_scanned_example =
    rounds_scanned list_tree crates 0 2 2 0 5 1 3 1 list_tree-IsMerkle crates-Accepts chain_logs
      at_6 final two_rounds-Follows two_rounds-KnowsChain
