-- ===== src/Tests/Chain.antt =====
-- The theorems on the service against the contract, for a chain with the contract's two transactions.
use mathlib.Core.List.{Permᴰ}
use mathlib.Core.Path.{subst}
use world_tree.Prelude.{
  ℕ, zero, suc, ap, ◌+◌, ◌-◌, ◌*◌, ◌^◌, ◌≤◌, ◌<◌, ◌≡◌, refl, ◌⊎◌, inr, true, Option, none, some,
  List, [], ◌∷◌, arith,
}
use world_tree.Prelude.Int.{as_i64, pos}
use world_tree.Merkle.{Hash}
use world_tree.Chain.{Transaction}
use world_tree.Indices.{unpack_indices, from_be_bytes}
use world_tree.TreeData.{
  InclusionProof, insert_many_at, insert_from, insert_at, delete_many, delete_each, clear_leaf,
  remove_leaf, cache_tree_history, make_room, push_front, pop_back,
}
use world_tree.TreeData.Delete.{clear_all}
use world_tree.TreeData.Full.{Unrepeated, get_elem?-replicate}
use world_tree.TreeData.Proofs.{Verifies}
use world_tree.Rows.{created_at, traverse, insertion_row, deletion_row, batch_row}
use world_tree.TreeData
use world_tree.LeafMap
use world_tree.BlockMap
use world_tree.BlockScanner
use world_tree.BlockScanner.{BlockScanner}
use world_tree.BlockScanner.Complete.{span}
use world_tree.Updater
use world_tree.Updater.{
  Round, selector_eq, padding_index, sync_to_head, next_logs, sync_logs, hashes_of, collect,
  sync_each, sync_from_transaction, selector_of, dispatch, on_register, on_delete,
  register_identities, delete_identities, on_tree, exec_db,
}
use world_tree.Updater.Calls.{IsKnown, plain}
use world_tree.WorldTree
use world_tree.WorldTree.{WorldTree, first_sync}
use world_tree.WorldTree.Run.{advance}
use world_tree.Service
use world_tree.Service.{status_ok}
use world_tree.Http.{app}
use world_tree.Contract.{Contract, Change, inserts, removes, logs_at, Honest}
use world_tree.Contract.Follow.{Honestly, not_yet, round_more}
use world_tree.Contract.Served.{contract_served}
use world_tree.Tests.Tree.{list_tree, list_tree-IsMerkle}
use world_tree.Tests.Contract.{
  crates, crates-Accepts, tx_register, tx_delete, log_of, logs_in, mined, span-mined, provider,
  crossed, one_round,
}
use world_tree.Tests.Sync.{
  service, zeros, middle, final, call, packed, call-IsVacant, middle-Unrepeated,
}
use world_tree.Tests.Clients.{
  server, server-IsAxum, parts, body_of, response_of, proof_bytes, asks_seven,
}

-- Blocks 5 and 6 have a transaction each.
abbrev pub transaction_at : ℕ → Option Transaction
transaction_at (suc (suc (suc (suc (suc zero))))) = some tx_register
transaction_at (suc (suc (suc (suc (suc (suc zero)))))) = some tx_delete
transaction_at n = none

abbrev pub leaves_at : ℕ → List Hash
leaves_at (suc (suc (suc (suc (suc zero))))) = middle
leaves_at (suc (suc (suc (suc (suc (suc n)))))) = final
leaves_at n = zeros

-- What holds of the transactions that stand at the blocks.
here : {tx tx' : Transaction} (Q : Transaction → Type 0) → some tx ≡ some tx' → Q tx → Q tx'
here {tx = tx} {tx' = tx'} Q e q = let same : tx ≡ tx' = cc in subst Q same q

pub all_blocks :
    (Q : ℕ → Transaction → Type 0)
    → Q 5 tx_register
    → Q 6 tx_delete
    → (n : ℕ) (tx : Transaction) → transaction_at n ≡ some tx
    → Q n tx
all_blocks Q a b zero tx h = absurd cc
all_blocks Q a b (suc zero) tx h = absurd cc
all_blocks Q a b (suc (suc zero)) tx h = absurd cc
all_blocks Q a b (suc (suc (suc zero))) tx h = absurd cc
all_blocks Q a b (suc (suc (suc (suc zero)))) tx h = absurd cc
all_blocks Q a b (suc (suc (suc (suc (suc zero))))) tx h = here (Q 5) h a
all_blocks Q a b (suc (suc (suc (suc (suc (suc zero)))))) tx h = here (Q 6) h b
all_blocks Q a b (suc (suc (suc (suc (suc (suc (suc n))))))) tx h = absurd cc

pub inserting : Change crates 2 tx_register zeros middle
unfolding selector_eq
inserting = inserts call refl refl call-IsVacant refl

pub removing : Change crates 2 tx_delete middle final
unfolding selector_eq padding_index unpack_indices from_be_bytes clear_all
removing = removes packed [] 0 0 (omega arith) (plain refl refl refl) (omega arith, tt) refl

abbrev pub before : ℕ → List Hash
before zero = zeros
before (suc n) = leaves_at n

pub stays : (n : ℕ) → transaction_at (suc n) ≡ none → leaves_at n ≡ leaves_at (suc n)
stays zero h = refl
stays (suc zero) h = refl
stays (suc (suc zero)) h = refl
stays (suc (suc (suc zero))) h = refl
stays (suc (suc (suc (suc zero)))) h = cc
stays (suc (suc (suc (suc (suc zero))))) h = cc
stays (suc (suc (suc (suc (suc (suc n)))))) h = refl

abbrev pub contract : Contract crates 2
contract = record {
  transaction_at = transaction_at;
  log_of = λ tx. log_of tx.hash;
  leaves_at = leaves_at;
  date_at = pos;
  hashed = λ tx. refl;
  mined = all_blocks (λ n tx. tx.block_number ≡ some n) refl refl;
  called = λ n.
      all_blocks (λ m tx. Change crates 2 tx (before m) (leaves_at m)) inserting removing (suc n);
  quiet = stays;
}

-- Each block ten seconds after the one before it.
abbrev pub handled_at : ℕ → ℕ
handled_at n = n * 10

-- A provider with the contract's events up to the head of the chain, and a clock for its transactions.
abbrev pub round_at : ℕ → Round crates
round_at latest = record one_round {
  middleware = record provider {
    get_block_number = inr latest;
    get_logs = λ f. inr (logs_in (mined latest (logs_at crates 2 contract)) f);
  };
  clock = λ tx. some tx.hash;
}

-- The round at the chain's last event.
abbrev pub honest_round : Round crates
honest_round = round_at 6

register-IsKnown : (latest : ℕ) → IsKnown list_tree crates (round_at latest) tx_register
unfolding created_at as_i64
register-IsKnown latest = record {
  number = 5;
  block = record { timestamp = 5 };
  at = pos 5;
  ts = 50;
  long = omega arith;
  mined = refl;
  found = refl;
  dated = refl;
  clock = refl;
}

delete-IsKnown : (latest : ℕ) → IsKnown list_tree crates (round_at latest) tx_delete
unfolding created_at as_i64
delete-IsKnown latest = record {
  number = 6;
  block = record { timestamp = 6 };
  at = pos 6;
  ts = 60;
  long = omega arith;
  mined = refl;
  found = refl;
  dated = refl;
  clock = refl;
}

pub crosses : (rs : List (ℕ ⊎ Option Transaction)) → Permᴰ rs (crossed rs)
crosses [] = Permᴰ.nil
crosses (a ∷ []) = Permᴰ.cons refl Permᴰ.nil
crosses (a ∷ b ∷ rs) = Permᴰ.swap refl refl

-- A round is honest for a scanner that is not ahead of its head.
round_at-Honest :
    (latest : ℕ) (scanner : BlockScanner)
    → scanner.last_synced_block ≤ latest
    → latest + scanner.window_size < 2 ^ 64
    → latest - scanner.last_synced_block < 10
    → Honest crates 2 list_tree contract handled_at scanner (round_at latest) latest
unfolding register-IsKnown delete-IsKnown
round_at-Honest latest scanner behind fits enough = record {
  head = record {
    answers = record {
      ranges = λ a b le short known.
          ap inr (
            span-mined latest (logs_at crates 2 contract) a (b + 1 - a) (omega (arith, le, known)));
    };
    head = refl;
    behind = behind;
    fits = fits;
    enough = enough;
  };
  transactions = λ n tx l.
      all_blocks (λ m t. honest_round.middleware.get_transaction t.hash ≡ inr (some t)) refl refl n
        tx;
  known = λ n tx l.
      all_blocks
        (λ m t.
          (k : IsKnown list_tree crates (round_at latest) t) × (k.ts ≡ handled_at m)
          × (k.at ≡ pos m))
        (register-IsKnown latest, refl, refl) (delete-IsKnown latest, refl, refl) n tx;
  arrives = crosses;
}

pub first-Honest :
    Honest crates 2 list_tree contract handled_at service.updater.block_scanner (round_at 5) 5
unfolding Service.new WorldTree.new Updater.new BlockScanner.new
first-Honest = round_at-Honest 5 _ (omega arith) (omega arith) (omega arith)

-- The service after a round at block 5.
abbrev pub at_5 : WorldTree list_tree crates
at_5 = advance list_tree crates service.phase (round_at 5) service

pub at_5-scanner :
    (at_5.updater.block_scanner.last_synced_block ≡ 5)
    × (at_5.updater.block_scanner.window_size ≡ 1)
unfolding Service.new WorldTree.new TreeData.new Updater.new BlockScanner.new advance first_sync
    sync_to_head next_logs sync_logs BlockScanner.next BlockScanner.scan BlockScanner.window_end
    BlockScanner.store_last span hashes_of collect sync_each sync_from_transaction selector_of
    dispatch on_register on_delete register_identities delete_identities on_tree exec_db traverse
    created_at insertion_row deletion_row batch_row selector_eq padding_index unpack_indices
    from_be_bytes as_i64 insert_many_at insert_from insert_at delete_many delete_each clear_leaf
    remove_leaf cache_tree_history make_room push_front pop_back LeafMap.insert LeafMap.remove
    LeafMap.get BlockMap.insert BlockMap.values
at_5-scanner = (refl, refl)

pub second-Honest :
    Honest crates 2 list_tree contract handled_at at_5.updater.block_scanner honest_round 6
second-Honest =
    round_at-Honest 6 _ (omega (arith, at_5-scanner.0)) (omega (arith, at_5-scanner.1))
      (omega (arith, at_5-scanner.0))

-- Both rounds.
pub two_rounds :
    Honestly list_tree crates 2 contract handled_at service 3
      (advance list_tree crates at_5.phase honest_round at_5)
      6
two_rounds =
    round_more (round_more not_yet (round_at 5) 5 first-Honest) honest_round 6 second-Honest

zeros-Unrepeated : Unrepeated zeros
zeros-Unrepeated i j q h k z = absurd (z (get_elem?-replicate 4 i 0 q h))

final-Unrepeated : Unrepeated final
final-Unrepeated zero zero q h k z = refl
final-Unrepeated i (suc j) q h k z = absurd (z (get_elem?-replicate 3 j 0 q k))
final-Unrepeated (suc i) j q h k z = absurd (z (get_elem?-replicate 3 i 0 q h))

pub apart : (n : ℕ) → Unrepeated (leaves_at n)
apart zero = zeros-Unrepeated
apart (suc zero) = zeros-Unrepeated
apart (suc (suc zero)) = zeros-Unrepeated
apart (suc (suc (suc zero))) = zeros-Unrepeated
apart (suc (suc (suc (suc zero)))) = zeros-Unrepeated
apart (suc (suc (suc (suc (suc zero))))) = middle-Unrepeated
apart (suc (suc (suc (suc (suc (suc n)))))) = final-Unrepeated

contract_served_example :
    ((advance list_tree crates at_5.phase honest_round at_5).synced ≡ true)
    × ((advance list_tree crates at_5.phase honest_round at_5).tree_data.tree ≡ final)
    × ((p : InclusionProof list_tree) × (app list_tree crates server
            (advance list_tree crates at_5.phase honest_round at_5)
            parts
            (body_of (7 ∷ []))
          ≡ response_of status_ok (proof_bytes (some p)))
        × Verifies list_tree 7 p
        × (p.root
            ≡ list_tree.root
                (advance list_tree crates at_5.phase honest_round at_5).tree_data.tree))
contract_served_example =
    contract_served list_tree crates server 0 2 2 0 5 1 3 1 server-IsAxum list_tree-IsMerkle
      crates-Accepts contract handled_at refl apart (round_more not_yet (round_at 5) 5 first-Honest)
      honest_round 6 second-Honest 0 7 refl (λ e. absurd (omega (arith, e))) parts
      (body_of (7 ∷ [])) asks_seven
