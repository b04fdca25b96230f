-- ===== src/Tests/Sessions.antt =====
-- The theorems on older roots, on sessions and on the database, for the chain with the contract's two transactions.
use world_tree.Prelude.{ℕ, ◌≡◌, refl, some, [], ◌∷◌, arith, ◌-◌, get_elem?, All, take, map, List}
use world_tree.Prelude.Int.{as_i64}
use world_tree.Indices.{unpack_indices, from_be_bytes}
use world_tree.TreeData.{
  InclusionProof, HistoricalTree, insert_many_at, insert_from, insert_at, delete_many, delete_each,
  clear_leaf, remove_leaf, cache_tree_history, make_room, push_front, pop_back,
}
use world_tree.TreeData.Proofs.{Verifies}
use world_tree.Rows.{created_at, traverse, insertion_row, deletion_row, batch_row}
use world_tree.TreeData
use world_tree.LeafMap
use world_tree.BlockMap
use world_tree.BlockScanner
use world_tree.BlockScanner.Complete.{span}
use world_tree.Updater
use world_tree.Updater.{
  Round, selector_eq, padding_index, sync_to_head, next_logs, sync_logs, hashes_of, collect,
  sync_each, sync_from_transaction, selector_of, dispatch, on_register, on_delete,
  register_identities, delete_identities, on_tree, exec_db,
}
use world_tree.WorldTree
use world_tree.WorldTree.{WorldTree, first_sync}
use world_tree.WorldTree.Run.{advance}
use world_tree.Service
use world_tree.Service.{status_ok}
use world_tree.Http.{app}
use world_tree.Contract.Follow.{not_yet}
use world_tree.Contract.OldRoots.{old_root_served}
use world_tree.Contract.Passage.{states}
use world_tree.Http.Posts.{Posts}
use world_tree.Logging.{body_to_string, body_to_bytes_safe, read_chunks, size_hint}
use world_tree.Tests.Tree.{list_tree, list_tree-IsMerkle}
use world_tree.Tests.Contract.{crates, crates-Accepts}
use world_tree.Tests.Sync.{service, middle}
use world_tree.Tests.Clients.{server, server-IsAxum, parts, body_of, response_of, proof_bytes}
use world_tree.Contract.Session.{
  Exchange, Session, opens, syncs, asks, Answered, InOrder, Session-Answered,
}
use world_tree.Tests.Clients.{asks_seven}
use world_tree.Updater.Written.{Executed}
use world_tree.Contract.Tables.{tables}
use world_tree.Contract.Database.{database_written}
use world_tree.Contract.Follow.{round_more}
use world_tree.Tests.Chain.{
  contract, handled_at, round_at, honest_round, apart, first-Honest, at_5, second-Honest,
  two_rounds,
}

-- The service at the chain's head, with the tree of block 5 on top of its history.
abbrev at_head : WorldTree list_tree crates
at_head = advance list_tree crates at_5.phase honest_round at_5

abbrev tree_5 : HistoricalTree list_tree
tree_5 = record { tree = middle; root_timestamp = 50 }

tree_5-kept : get_elem? at_head.tree_data.tree_history 0 ≡ some tree_5
unfolding Service.new WorldTree.new TreeData.new Updater.new BlockScanner.new advance first_sync
    sync_to_head next_logs sync_logs BlockScanner.next BlockScanner.scan BlockScanner.window_end
    BlockScanner.store_last span hashes_of collect sync_each sync_from_transaction selector_of
    dispatch on_register on_delete register_identities delete_identities on_tree exec_db traverse
    created_at insertion_row deletion_row batch_row selector_eq padding_index unpack_indices
    from_be_bytes as_i64 insert_many_at insert_from insert_at delete_many delete_each clear_leaf
    remove_leaf cache_tree_history make_room push_front pop_back LeafMap.insert LeafMap.remove
    LeafMap.get BlockMap.insert BlockMap.values
tree_5-kept = refl

asks_seven_at :
    Posts list_tree crates server parts
      (body_of (7 ∷ 10087 ∷ []))
      (record { identity_commitment = 7; root = some 10087 })
unfolding body_to_string body_to_bytes_safe read_chunks size_hint
asks_seven_at = record {
  method = refl;
  path = refl;
  text = 7 ∷ 10087 ∷ [];
  readable = refl;
  decoded = refl;
}

seven_stood :
    All (λ ls. (i : ℕ) × (get_elem? ls i ≡ some 7)) (take 1 (states crates 2 contract 3 (6 - 3) []))
unfolding states
seven_stood = ((0, refl), tt)

old_root_served_example :
    (map (λ x. x.tree) at_head.tree_data.tree_history
      ≡ take 5 (states crates 2 contract 3 (6 - 3) []))
    × ((p : InclusionProof list_tree) × (app list_tree crates server at_head parts
            (body_of (7 ∷ 10087 ∷ []))
          ≡ response_of status_ok (proof_bytes (some p)))
        × Verifies list_tree 7 p
        × (p.root ≡ 10087))
old_root_served_example =
    old_root_served list_tree crates server 0 2 2 0 5 1 3 1 list_tree-IsMerkle crates-Accepts
      contract handled_at refl apart (λ a b h. omega (arith, h)) (λ m h. omega (arith, h))
      server-IsAxum (round_more not_yet (round_at 5) 5 first-Honest) honest_round 6 second-Honest 0
      tree_5 tree_5-kept 0 7 refl (λ e. absurd (omega (arith, e))) seven_stood parts
      (body_of (7 ∷ 10087 ∷ [])) asks_seven_at

-- A client asks, the task syncs twice, and the client asks again.
abbrev exchanges : List (Exchange list_tree crates server)
exchanges =
    record {
      identity = 7;
      reply = app list_tree crates server at_head parts (body_of (7 ∷ []));
      rounds = 2;
      block = 6;
    }
    ∷ record {
      identity = 7;
      reply = app list_tree crates server service parts (body_of (7 ∷ []));
      rounds = 0;
      block = 3;
    }
    ∷ []

session : Session list_tree crates server 2 contract handled_at service 3 at_head 2 6 exchanges
session =
    asks
      (syncs (syncs (asks opens 7 parts (body_of (7 ∷ [])) asks_seven) (round_at 5) 5 first-Honest)
        honest_round 6 second-Honest)
      7 parts (body_of (7 ∷ [])) asks_seven

Session-Answered_example :
    All (Answered list_tree crates server 2 contract handled_at) exchanges
    × InOrder list_tree crates server 2 contract handled_at exchanges
Session-Answered_example =
    Session-Answered list_tree crates server 0 2 2 0 5 1 3 1 list_tree-IsMerkle crates-Accepts
      contract handled_at refl apart server-IsAxum session

database_written_example :
    Executed crates (tables list_tree crates 2 contract 3 (6 - 3)) 0 at_head.db
database_written_example =
    database_written list_tree crates 0 2 2 0 5 1 3 1 list_tree-IsMerkle crates-Accepts contract
      handled_at refl apart two_rounds
