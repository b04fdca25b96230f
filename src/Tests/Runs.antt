-- ===== src/Tests/Runs.antt =====
-- The theorems on runs of batches, of the scanner and of the tasks.
use world_tree.Prelude.{
  Bool-cases, ◌==◌, if◌then◌else◌, ℕ, zero, suc, ◌+◌, ◌<◌, ◌≡◌, ◌↔◌, refl, inl, inr, some, List, [],
  ◌∷◌, ◌++◌, ◌-◌, ◌^◌, ◌≤◌, ap, map, arith, get_elem?, true,
}
use world_tree.Exec.{ok, err}
use world_tree.Merkle.{hash_zero}
use world_tree.LeafMap
use world_tree.TreeData.{
  TreeData, HistoricalTree, InclusionProof, new, get_inclusion_proof, delete_many,
  cache_tree_history, pop_back, delete_each, clear_leaf, remove_leaf,
}
use world_tree.TreeData.Live.{IsVacant}
use world_tree.TreeData.Dated.{IsDue}
use world_tree.TreeData.Runs.{Runs, begin, inserted, deleted, Kept, Runs-Kept}
use world_tree.TreeData.Timely.{Timely, runs_answered}
use world_tree.BlockScanner.{BlockScanner, next, scan, window_end, store_last}
use world_tree.BlockScanner.Complete.{span, next_complete}
use world_tree.BlockScanner.Rounds.{Head, Scans, idle, scanned, failed, UpTo, Scans-UpTo}
use world_tree.Claims
use world_tree.Claims.{claim_of}
use world_tree.Claims.Task
use world_tree.Claims.Task.{ClaimTask, Rounds, Printed, Rounds-Printed}
use world_tree.Updater.Mirror.{Mirrors}
use world_tree.WorldTree.{WorldTree, Reach, starting, looping, stopped}
use world_tree.WorldTree.Follow.{InStep, delivers}
use world_tree.WorldTree.Run.{run}
use world_tree.WorldTree.Live.{AllBring, none_left, one_more, run_synced}
use world_tree.Service
use world_tree.WorldTree
use world_tree.Tests.Tree.{list_tree, list_tree-IsMerkle}
use world_tree.Tests.Contract.{crates, crates-Accepts, one_round, chain_logs}
use world_tree.Tests.Sync.{service, zeros, final, service-Delivers}
use world_tree.Tests.Transactions.{service-Mirrors}
use world_tree.Tests.Batches.{
  ids, empty_data, two_batches, one_batch-run, two_batches-run, ids-IsVacant,
}
use world_tree.Tests.Scans.{
  scanner, failing, provider_at, token_at, mined-Answers, first_word, transfers, claims,
}

-- After the two batches, 8 is deleted at time 300.
abbrev after_deletion : TreeData list_tree
after_deletion = record {
  tree = 7 ∷ 0 ∷ 9 ∷ 0 ∷ [];
  depth = 2;
  tree_history_size = 1;
  latest_root_timestamp = 300;
  tree_history = record { tree = 7 ∷ 8 ∷ 9 ∷ 0 ∷ []; root_timestamp = 200 } ∷ [];
  leaves = (9, 200) ∷ (7, 100) ∷ [];
}

after_deletion-run :
    delete_many list_tree ℕ (some 300) (1 ∷ []) two_batches ≡ (ok tt, after_deletion)
unfolding delete_many cache_tree_history pop_back delete_each clear_leaf remove_leaf LeafMap.remove
after_deletion-run = refl

abbrev past_trees : List (HistoricalTree list_tree)
past_trees =
    record { tree = 7 ∷ 8 ∷ 9 ∷ 0 ∷ []; root_timestamp = 200 }
    ∷ record { tree = 7 ∷ 8 ∷ 0 ∷ 0 ∷ []; root_timestamp = 100 }
    ∷ record { tree = 0 ∷ 0 ∷ 0 ∷ 0 ∷ []; root_timestamp = 0 }
    ∷ []

abbrev three_batches : Runs list_tree ℕ empty_data past_trees after_deletion
three_batches =
    deleted
      (inserted (inserted begin 100 0 ids (omega arith) one_batch-run) 200 2 (9 ∷ []) (omega arith)
        two_batches-run)
      300 (1 ∷ []) (omega arith, tt) after_deletion-run

Runs-Kept_example : Kept list_tree ℕ empty_data past_trees after_deletion
Runs-Kept_example = Runs-Kept list_tree ℕ list_tree-IsMerkle (omega arith) three_batches

nine-IsVacant : IsVacant 2 (9 ∷ []) (7 ∷ 8 ∷ 0 ∷ 0 ∷ [])
nine-IsVacant = record { fits = omega arith; vacant = empty_before; nonzero = refl }
  where
    empty_before : (k : ℕ) → k < 1 → get_elem? (7 ∷ 8 ∷ 0 ∷ 0 ∷ []) (2 + k) ≡ some hash_zero
    empty_before zero h = refl
    empty_before (suc k) h = absurd (omega arith)

three_batches-Timely : Timely list_tree ℕ three_batches
three_batches-Timely = (((tt, omega arith, ids-IsVacant), omega arith, nine-IsVacant), omega arith)

runs_answered_example :
    ((p : InclusionProof list_tree) × (get_inclusion_proof list_tree after_deletion 7 (some 10987)
        ≡ some p))
    ↔ ((t : ℕ) × (LeafMap.get 7 after_deletion.leaves ≡ some t)
        × IsDue list_tree after_deletion t 10987)
unfolding new
runs_answered_example =
    runs_answered list_tree ℕ list_tree-IsMerkle (2, 0) 1 three_batches three_batches-Timely 7 10987

-- A call that gets to block 5, one that fails, and one that gets to block 6.
scanner_5-Head : Head {X = ℕ} chain_logs scanner (provider_at 5) 10 5
scanner_5-Head = record {
  answers = mined-Answers chain_logs 5 scanner (provider_at 5) (λ f. refl);
  head = refl;
  behind = omega arith;
  fits = omega arith;
  enough = omega arith;
}

abbrev at_block : ℕ → BlockScanner
at_block n = record scanner { last_synced_block = n }

scanner_6-Head : Head {X = ℕ} chain_logs (at_block 5) (provider_at 6) 10 6
scanner_6-Head = record {
  answers = mined-Answers chain_logs 6 (at_block 5) (provider_at 6) (λ f. refl);
  head = refl;
  behind = omega arith;
  fits = omega arith;
  enough = omega arith;
}

failing-next : next 10 failing (at_block 5) ≡ (err 9, at_block 5)
unfolding next scan window_end
failing-next = refl

three_calls :
    Scans ℕ chain_logs scanner
      (at_block 6)
      (([] ++ span chain_logs 4 (5 - 3)) ++ span chain_logs 6 (6 - 5))
three_calls =
    scanned
      (failed
        (scanned idle (provider_at 5) 10 5 scanner_5-Head (span chain_logs 4 (5 - 3)) (at_block 5) (
          next_complete chain_logs scanner (provider_at 5) 10 5 scanner_5-Head.answers refl
            (omega arith) (omega arith) (omega arith)))
        failing 10 (err 9) (at_block 5) failing-next (λ found e. absurd cc))
      (provider_at 6) 10 6 scanner_6-Head (span chain_logs 6 (6 - 5)) (at_block 6)
      (next_complete chain_logs (at_block 5) (provider_at 6) 10 6 scanner_6-Head.answers refl
        (omega arith) (omega arith) (omega arith))

Scans-UpTo_example :
    UpTo chain_logs scanner
      (at_block 6)
      (([] ++ span chain_logs 4 (5 - 3)) ++ span chain_logs 6 (6 - 5))
Scans-UpTo_example = Scans-UpTo ℕ chain_logs three_calls

abbrev claim_task : ClaimTask
claim_task = record { state = claims; phase = starting }

token_at-Head :
    (latest : ℕ) (s : BlockScanner)
    → s.last_synced_block ≤ latest
    → latest + s.window_size < 2 ^ 64
    → latest - s.last_synced_block < 10
    → Head {X = ℕ} transfers s (token_at latest) 10 latest
token_at-Head latest s behind fits enough = record {
  answers = mined-Answers transfers latest s (token_at latest) (λ f. refl);
  head = refl;
  behind = behind;
  fits = fits;
  enough = enough;
}

abbrev lines_of : ℕ → List (ℕ × ℕ)
lines_of n = if n == 5 then (77, 42) ∷ [] else []

lines-decode : (k : ℕ) → map (claim_of first_word) (transfers k) ≡ map some (lines_of k)
unfolding claim_of
lines-decode k = elim (Bool-cases (k == 5)) [ inl e ↦ rw e refl | inr e ↦ rw e refl ]

-- The transfer is in the first of two rounds.
abbrev one_claim_round : ClaimTask
one_claim_round = Task.advance ℕ first_word starting 10 (token_at 5) claim_task

abbrev two_claim_rounds : ClaimTask
two_claim_rounds = Task.advance ℕ first_word one_claim_round.phase 10 (token_at 6) one_claim_round

one_claim_round-scanner : one_claim_round.state.updater.block_scanner ≡ at_block 5
unfolding Task.advance Task.sync_round Claims.sync_to_head Claims.print_each claim_of next scan
    window_end store_last span
one_claim_round-scanner = refl

claims_advanced : Rounds ℕ first_word transfers claim_task two_claim_rounds
claims_advanced =
    let at = ap (λ s. s.last_synced_block) one_claim_round-scanner in
    let window = ap (λ s. s.window_size) one_claim_round-scanner in
    Rounds.then
      (Rounds.then Rounds.begin (token_at 5) 10 5
        (token_at-Head 5 scanner (omega arith) (omega arith) (omega arith)))
      (token_at 6) 10 6
      (token_at-Head 6 _ (omega (arith, at)) (omega (arith, window)) (omega (arith, at)))

Rounds-Printed_example : Printed ℕ first_word transfers lines_of claim_task two_claim_rounds
Rounds-Printed_example =
    Rounds-Printed ℕ first_word transfers lines_of lines-decode (λ e. absurd cc) claims_advanced

service-InStep : InStep list_tree crates 2 service zeros
unfolding Service.new WorldTree.new
service-InStep = record { mirrors = service-Mirrors; running = λ e. cc; ready = λ e. absurd cc }

one_round-AllBring : AllBring list_tree crates 2 (one_round ∷ []) service zeros final
one_round-AllBring = one_more (delivers _ service-Delivers) none_left

run_synced_example :
    ((run list_tree crates (one_round ∷ []) service).phase ≡ looping)
    × ((run list_tree crates (one_round ∷ []) service).synced ≡ true)
    × Mirrors list_tree crates 2 final (run list_tree crates (one_round ∷ []) service).state
run_synced_example =
    run_synced list_tree crates 2 list_tree-IsMerkle crates-Accepts one_round [] service zeros final
      service-InStep one_round-AllBring
