-- ===== src/Updater.antt =====
-- src/tree/tree_updater.rs: the tree and the tables follow the transactions of the contract.
pub mod Accept
pub mod Padding
pub mod Calls
pub mod Mirror
pub mod Lands
pub mod Full
pub mod Failure
pub mod Order
pub mod Sorted
pub mod Frame
pub mod Head
pub mod Traced
pub mod Written
pub mod Broken
use world_tree.Prelude.{
  ℕ, ◌%◌, ◌^◌, Bool, true, false, not, ◌&&◌, ◌⊎◌, inl, inr, Option, none, some, List, [], ◌∷◌, map,
  length, take, take_while, ltb, ◌==◌, if◌then◌else◌,
}
use world_tree.Prelude.Int.{as_i64}
use world_tree.Exec.{
  Outcome, ok, err, panic, out_of_fuel, Exec, expect, ok_or, pure, fail, lift, ◌>>=◌, ◌>>◌,
}
use world_tree.Merkle.{Hash, PoseidonTree}
use world_tree.Indices.{unpack_indices}
use world_tree.Chain.{filter_for, Log, Transaction, Block, Middleware}
use world_tree.BlockScanner
use world_tree.BlockScanner.{BlockScanner}
use world_tree.BlockMap
use world_tree.BlockMap.{BlockMap}
use world_tree.Rows.{traverse, insertion_row, deletion_row, batch_row}
use world_tree.TreeData.{TreeData, insert_many_at, delete_many}
use world_tree.Error.{
  TreeAvailabilityError, transaction_hash_not_found, block_number_not_found, transaction_not_found,
  unrecognized_function_selector, middleware_error, abi_codec_error,
}
use world_tree.Foreign.{Foreign, RegisterIdentitiesCall, InsertionRow, DeletionRow, BatchRow}

pub record TreeUpdater : Type 0 where
  pub address : ℕ
  pub latest_synced_block : ℕ
  pub block_scanner : BlockScanner

-- `tree_changed_signature` is the signature of the event `TreeChanged`, which `abigen!` computes.
unfoldable pub new : ℕ → ℕ → ℕ → ℕ → TreeUpdater
new tree_changed_signature address creation_block window_size = record {
  address = address;
  latest_synced_block = creation_block;
  block_scanner =
      BlockScanner.new window_size creation_block (filter_for address tree_changed_signature);
}

unfoldable pub selector_eq : List ℕ → List ℕ → Bool
selector_eq [] [] = true
selector_eq (x ∷ xs) (y ∷ ys) = (x == y) && selector_eq xs ys
selector_eq _ _ = false

-- `2_u32.pow(depth as u32)`, the index that pads a batch of deletions, as in a release build.
unfoldable pub padding_index : ℕ → ℕ
padding_index depth = 2 ^ (depth % 2 ^ 32) % 2 ^ 32

-- The commitments up to the first zero, which pads a batch.
abbrev pub identities_of : RegisterIdentitiesCall → List Hash
identities_of call = take_while (λ x. not (x == 0)) call.identity_commitments

-- The indices up to the first padding, for a tree of the given depth.
abbrev pub indices_of : ℕ → List ℕ → List ℕ
indices_of depth packed = take_while (λ x. not (x == padding_index depth)) (unpack_indices packed)

-- What the methods change: the updater's own blocks, the tree, and the database.
pub record SyncState (P : PoseidonTree) (F : Foreign) : Type 0 where
  pub updater : TreeUpdater
  pub tree_data : TreeData P
  pub db : F.Db

-- What one round meets outside: the provider, the reading of the clock while a transaction is
-- handled, the order in which the requested transactions arrive, and the fuel of the scanner.
pub record Round (F : Foreign) : Type 0 where
  pub middleware : Middleware F.Failure
  pub clock : Transaction → Option ℕ
  pub arrivals : List (F.Failure ⊎ Option Transaction) → List (F.Failure ⊎ Option Transaction)
  pub scan_fuel : ℕ

module _ (P : PoseidonTree) (F : Foreign) where
  abbrev pub Error : Type 0
  Error = TreeAvailabilityError F.Failure

  abbrev pub Sync : Type 0 → Type 0
  Sync = Exec Error (SyncState P F)

  -- A `map_err` of the answer of a foreign call.
  abbrev pub map_err : {A : Type 0} → (F.Failure → Error) → F.Failure ⊎ A → Outcome Error A
  map_err wrap (inl x) = err (wrap x)
  map_err wrap (inr a) = ok a

  abbrev pub map_outcome : {A : Type 0} → Outcome F.Failure A → Outcome Error A
  map_outcome (ok a) = ok a
  map_outcome (err x) = err (middleware_error x)
  map_outcome panic = panic
  map_outcome out_of_fuel = out_of_fuel

  -- An answer that is not `Ok(Some(_))` panics: `expect`, and then `unwrap`.
  abbrev pub expect_some : {A : Type 0} → F.Failure ⊎ Option A → Outcome Error A
  expect_some (inl x) = panic
  expect_some (inr o) = expect o

  -- A method of the tree, run on the tree of the state.
  unfoldable pub on_tree : Exec Error (TreeData P) (Unit {0}) → Sync (Unit {0})
  on_tree m s = let (r, d) = m s.tree_data in (r, record s { tree_data = d })

  -- A statement to the database, whose failure panics.
  unfoldable pub exec_db : (F.Db → Option F.Db) → Sync (Unit {0})
  exec_db statement s = elim (statement s.db) [
    | none ↦ (panic, s)
    | some db ↦ (ok tt, record s { db = db })
  ]

  -- `Selector::try_from(&calldata[0..4])`: a slice of less than four bytes panics.
  unfoldable pub selector_of : List ℕ → Outcome Error (List ℕ)
  selector_of calldata = if ltb (length calldata) 4 then panic else ok (take 4 calldata)

  module _ (tx : Transaction) (number : ℕ) (block : Block) where
    unfoldable pub register_identities : Option ℕ → RegisterIdentitiesCall → Sync (Unit {0})
    unfolding insertion_row batch_row on_tree exec_db traverse
    register_identities now call = do
      let identities = identities_of call
      entities ← lift (traverse P F (insertion_row P F tx number block) identities)
      exec_db (F.insert_insertions entities)
      batch_entity ← lift (
          batch_row P F tx number block (length identities) 0 (length call.identity_commitments)
            call.insertion_proof call.pre_root call.post_root)
      exec_db (F.insert_batch batch_entity)
      on_tree (insert_many_at P Error now call.start_index identities)

    -- The common part of the two branches that delete.
    unfoldable pub delete_identities : Option ℕ → List ℕ → List ℕ → ℕ → ℕ → Sync (Unit {0})
    unfolding deletion_row batch_row on_tree exec_db traverse
    delete_identities now packed proof pre_root post_root s =
        (do
          let indices = indices_of s.tree_data.depth packed
          entities ← lift (traverse P F (deletion_row P F tx number block s.tree_data) indices)
          exec_db (F.insert_deletions entities)
          batch_entity ←
              lift (batch_row P F tx number block 0 (length indices) 0 proof pre_root post_root)
          exec_db (F.insert_batch batch_entity)
          on_tree (delete_many P Error now indices))
          s

    -- The three branches on the selector.
    unfoldable pub on_register : Option ℕ → Sync (Unit {0})
    unfolding register_identities
    on_register now = do
      call ← lift (map_err abi_codec_error (F.decode_register tx.input))
      register_identities now call

    unfoldable pub on_delete : Option ℕ → Sync (Unit {0})
    unfolding delete_identities
    on_delete now = do
      call ← lift (map_err abi_codec_error (F.decode_delete tx.input))
      delete_identities now call.packed_deletion_indices call.deletion_proof call.pre_root
          call.post_root

    unfoldable pub on_delete_with_batch_size : Option ℕ → Sync (Unit {0})
    unfolding delete_identities
    on_delete_with_batch_size now = do
      call ← lift (map_err abi_codec_error (F.decode_delete_with_batch_size tx.input))
      delete_identities now call.packed_deletion_indices call.deletion_proof call.pre_root
          call.post_root

    -- The chain of tests on the selector.
    unfoldable pub dispatch : Option ℕ → List ℕ → Sync (Unit {0})
    unfolding on_register on_delete on_delete_with_batch_size
    dispatch now selector =
        if selector_eq selector F.register_selector
        then on_register now
        else if selector_eq selector F.delete_selector
        then on_delete now
        else if selector_eq selector F.delete_with_batch_size_selector
        then on_delete_with_batch_size now
        else fail unrecognized_function_selector

  module _ (round : Round F) where
    unfoldable pub sync_from_transaction : Transaction → Sync (Unit {0})
    unfolding selector_of dispatch
    sync_from_transaction tx = do
      function_selector ← lift (selector_of tx.input)
      number ← lift (expect tx.block_number)
      block ← lift (expect_some (round.middleware.get_block number))
      dispatch tx number block (round.clock tx) function_selector

    -- The first loop over the logs.
    unfoldable pub hashes_of : List Log → Outcome Error (List ℕ)
    hashes_of = traverse P F (λ log. ok_or transaction_hash_not_found log.transaction_hash)

    -- The loop over the transactions as they arrive.
    unfoldable pub collect :
        List (F.Failure ⊎ Option Transaction) → BlockMap → Outcome Error BlockMap
    collect [] sorted = ok sorted
    collect (inl x ∷ rest) sorted = err (middleware_error x)
    collect (inr none ∷ rest) sorted = err transaction_not_found
    collect (inr (some tx) ∷ rest) sorted = elim tx.block_number [
      | none ↦ err block_number_not_found
      | some number ↦ collect rest (BlockMap.insert number tx sorted)
    ]

    unfoldable pub sync_each : List Transaction → Sync (Unit {0})
    sync_each [] = pure tt
    sync_each (tx ∷ rest) = do sync_from_transaction tx; sync_each rest

    -- `self.block_scanner.next()`, on the scanner of the state.
    unfoldable pub next_logs : Sync (List Log)
    next_logs s =
        let (r, scanner) =
          BlockScanner.next round.scan_fuel round.middleware s.updater.block_scanner in
        (map_outcome r, record s { updater = record s.updater { block_scanner = scanner } })

    unfoldable pub sync_logs : List Log → Sync (Unit {0})
    unfolding hashes_of
    sync_logs [] = pure tt
    sync_logs (log ∷ logs) = do
      hashes ← lift (hashes_of (log ∷ logs))
      sorted_transactions ←
          lift (collect (round.arrivals (map round.middleware.get_transaction hashes)) [])
      sync_each (BlockMap.values sorted_transactions)

    unfoldable pub sync_to_head : Sync (Unit {0})
    unfolding next_logs sync_logs
    sync_to_head = do logs ← next_logs; sync_logs logs
