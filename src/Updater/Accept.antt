-- ===== src/Updater/Accept.antt =====
-- A transaction that the updater accepts: what it writes to the tree and to the tables.
use mathlib.Core.Path.{subst}
use world_tree.Prelude.{
  ℕ, ◌+◌, ◌≤◌, ◌<◌, ◌≡◌, refl, some, List, [], ◌∷◌, map, arith, length, All, get_elem?,
  get_elem?-some, none,
}
use world_tree.Prelude.Int.{as_i64}
use world_tree.Exec.{Outcome, ok}
use world_tree.Merkle.{Hash, hash_zero, PoseidonTree, IsMerkle}
use world_tree.Chain.{Transaction, Block}
use world_tree.TreeData.{TreeData, insert_many_at, delete_many}
use world_tree.TreeData.History.{IsBounded}
use world_tree.TreeData.Insert.{Inserted, insert_many_at-Inserted}
use world_tree.TreeData.Delete.{AllBelow, Deleted, delete_many-Deleted}
use world_tree.Foreign.{Foreign, RegisterIdentitiesCall, InsertionRow, DeletionRow, BatchRow}
use world_tree.Rows.{traverse, created_at, insertion_row, deletion_row, batch_row}
use world_tree.Updater.{
  Error, SyncState, identities_of, indices_of, register_identities, delete_identities,
}
use world_tree.Updater.Padding.{
  inserted_identities, deleted_indices, identities_of_lem, indices_of_lem,
}

-- Every statement to the database succeeds.
pub record Accepts (F : Foreign) : Type 0 where
  pub insertions :
      (rows : List (InsertionRow F.Text F.DateTime)) (db : F.Db)
      → (db' : F.Db) × (F.insert_insertions rows db ≡ some db')
  pub deletions :
      (rows : List (DeletionRow F.Text F.DateTime)) (db : F.Db)
      → (db' : F.Db) × (F.insert_deletions rows db ≡ some db')
  pub batch :
      (row : BatchRow F.Text F.DateTime) (db : F.Db)
      → (db' : F.Db) × (F.insert_batch row db ≡ some db')

module _ (P : PoseidonTree) (F : Foreign) where
  traverse-map :
      {A B : Type 0} (f : A → Outcome (Error P F) B) (g : A → B) (xs : List A)
      → All (λ x. f x ≡ ok (g x)) xs
      → traverse P F f xs ≡ ok (map g xs)
  unfolding traverse
  traverse-map f g [] h = refl
  traverse-map f g (x ∷ xs) h = ground (arith, h.0, traverse-map f g xs h.1)

module _ (P : PoseidonTree) (F : Foreign) (tx : Transaction) (number : ℕ) (at : F.DateTime) where
  abbrev pub inserted_row : Hash → InsertionRow F.Text F.DateTime
  inserted_row id = record {
    pubkey = F.hash_to_string id;
    inserted_in_block = as_i64 number;
    inserted_in_tx = F.encode_hex tx.hash;
    created_at = at;
  }

  -- The row of the leaf at an index, as the tree stands before the batch.
  abbrev pub deleted_row : List Hash → ℕ → DeletionRow F.Text F.DateTime
  deleted_row ls index = record {
    pubkey = F.hash_to_string (elim (get_elem? ls index) [ none ↦ hash_zero | some id ↦ id ]);
    deleted_at_block = as_i64 number;
    deleted_in_tx = F.encode_hex tx.hash;
    created_at = at;
  }

  abbrev pub batch_of : ℕ → ℕ → ℕ → List ℕ → ℕ → ℕ → BatchRow F.Text F.DateTime
  batch_of inserted deleted size proof preroot postroot = record {
    tx = F.encode_hex tx.hash;
    total_inserted = as_i64 inserted;
    total_deleted = as_i64 deleted;
    block = as_i64 number;
    batch_size = as_i64 size;
    proof = F.encode_proof_hex proof;
    preroot = F.encode_hex preroot;
    postroot = F.encode_hex postroot;
    created_at = at;
  }

  -- The tree takes the identities `ids` of the call, and the tables a row for each of them and one for
  -- the batch.
  pub record Registered (ts : ℕ) (ids : List Hash) (call : RegisterIdentitiesCall)
      (s s' : SyncState P F) : Type 0 where
    pub tree : Inserted ts call.start_index ids s.tree_data s'.tree_data
    pub run :
        insert_many_at P (Error P F) (some ts) call.start_index ids s.tree_data
        ≡ (ok tt, s'.tree_data)
    pub updater : s'.updater ≡ s.updater
    pub middle : F.Db
    pub rows : F.insert_insertions (map inserted_row ids) s.db ≡ some middle
    pub batch :
        F.insert_batch
          (batch_of
            (length ids)
            0
            (length call.identity_commitments)
            call.insertion_proof
            call.pre_root
            call.post_root)
          middle
        ≡ some s'.db

  -- The tree drops the leaves at the indices, and the tables take a row for each and one for the
  -- batch.
  pub record Removed (ts : ℕ) (is proof : List ℕ) (pre_root post_root : ℕ) (s s' : SyncState P F)
      : Type 0 where
    pub tree : Deleted ts is s.tree_data s'.tree_data
    pub run : delete_many P (Error P F) (some ts) is s.tree_data ≡ (ok tt, s'.tree_data)
    pub updater : s'.updater ≡ s.updater
    pub middle : F.Db
    pub rows :
        F.insert_deletions (map (deleted_row (P.leaves s.tree_data.tree)) is) s.db ≡ some middle
    pub batch :
        F.insert_batch (batch_of 0 (length is) 0 proof pre_root post_root) middle ≡ some s'.db

  module _ (L : IsMerkle P) (A : Accepts F) (block : Block) (c : created_at P F block ≡ ok at) where
    rows_of_identities :
        (ids : List Hash)
        → All (λ id. insertion_row P F tx number block id ≡ ok (inserted_row id)) ids
    unfolding insertion_row
    rows_of_identities [] = tt
    rows_of_identities (x ∷ ids) = (ground (arith, c), rows_of_identities ids)

    rows_of_indices :
        (d : TreeData P) (is : List ℕ)
        → AllBelow (length (P.leaves d.tree)) is
        → All (λ i. deletion_row P F tx number block d i ≡ ok (deleted_row (P.leaves d.tree) i)) is
    unfolding deletion_row
    rows_of_indices d [] h = tt
    rows_of_indices d (i ∷ is) h =
        let (x, here) = get_elem?-some (P.leaves d.tree) i h.0 in
        (ground (arith, c, L.get_leaf_lem d.tree i h.0, here), rows_of_indices d is h.1)

    batch_row_lem :
        (inserted deleted size : ℕ) (proof : List ℕ) (preroot postroot : ℕ)
        → batch_row P F tx number block inserted deleted size proof preroot postroot
          ≡ ok (batch_of inserted deleted size proof preroot postroot)
    unfolding batch_row
    batch_row_lem inserted deleted size proof preroot postroot = ground (arith, c)

    register_identities_lem :
        (ts : ℕ) (call : RegisterIdentitiesCall) (s : SyncState P F)
        → IsBounded s.tree_data
        → call.start_index + length (identities_of call) ≤ length (P.leaves s.tree_data.tree)
        → (s' : SyncState P F) × (register_identities P F tx number block (some ts) call s
            ≡ (ok tt, s'))
          × Registered ts (identities_of call) call s s'
    unfolding register_identities
    register_identities_lem ts call s b h =
        let ids : List Hash = identities_of call in
        let rows =
          traverse-map P F (insertion_row P F tx number block) inserted_row ids
            (rows_of_identities ids) in
        let (db1, e1) = A.insertions (map inserted_row ids) s.db in
        let row =
          batch_row_lem (length ids) 0 (length call.identity_commitments) call.insertion_proof
            call.pre_root call.post_root in
        let (db2, e2) =
          A.batch
            (batch_of (length ids) 0 (length call.identity_commitments) call.insertion_proof
              call.pre_root call.post_root)
            db1 in
        let (d', done, written) =
          insert_many_at-Inserted P (Error P F) L ts call.start_index ids s.tree_data b h in
        (
          record s { tree_data = d'; db = db2 },
          ground (arith, rows, e1, row, e2, done),
          record {
            tree = written;
            run = done;
            updater = refl;
            middle = db1;
            rows = e1;
            batch = e2;
          },
        )

    -- A registration within the tree, from a bounded history, succeeds if the database accepts every
    -- statement and the time of the block is a date: it writes the identities before the first zero
    -- to the tree, a row for each of them, and a row for the batch.
    pub register_identities-Registered :
        (ts : ℕ) (call : RegisterIdentitiesCall) (s : SyncState P F)
        → IsBounded s.tree_data
        → call.start_index + length (inserted_identities call) ≤ length (P.leaves s.tree_data.tree)
        → (s' : SyncState P F) × (register_identities P F tx number block (some ts) call s
            ≡ (ok tt, s'))
          × Registered ts (inserted_identities call) call s s'
    register_identities-Registered ts call s b h =
        subst
          (λ ids.
            call.start_index + length ids ≤ length (P.leaves s.tree_data.tree)
            → (s' : SyncState P F) × (register_identities P F tx number block (some ts) call s
                ≡ (ok tt, s'))
              × Registered ts ids call s s')
          (identities_of_lem call) (register_identities_lem ts call s b) h

    delete_identities_lem :
        (ts : ℕ) (packed proof : List ℕ) (pre_root post_root : ℕ) (s : SyncState P F)
        → IsBounded s.tree_data
        → AllBelow (length (P.leaves s.tree_data.tree)) (indices_of s.tree_data.depth packed)
        → (s' : SyncState P F) × (delete_identities P F tx number block
              (some ts)
              packed
              proof
              pre_root
              post_root
              s
            ≡ (ok tt, s'))
          × Removed ts (indices_of s.tree_data.depth packed) proof pre_root post_root s s'
    unfolding delete_identities
    delete_identities_lem ts packed proof pre_root post_root s b h =
        let is : List ℕ = indices_of s.tree_data.depth packed in
        let row_of = deleted_row (P.leaves s.tree_data.tree) in
        let rows =
          traverse-map P F (deletion_row P F tx number block s.tree_data) row_of is
            (rows_of_indices s.tree_data is h) in
        let (db1, e1) = A.deletions (map row_of is) s.db in
        let row = batch_row_lem 0 (length is) 0 proof pre_root post_root in
        let (db2, e2) = A.batch (batch_of 0 (length is) 0 proof pre_root post_root) db1 in
        let (d', done, written) = delete_many-Deleted P (Error P F) L ts is s.tree_data b h in
        (
          record s { tree_data = d'; db = db2 },
          ground (arith, rows, e1, row, e2, done),
          record {
            tree = written;
            run = done;
            updater = refl;
            middle = db1;
            rows = e1;
            batch = e2;
          },
        )

    -- A deletion within the tree, of a depth below 32 and from a bounded history, succeeds if the
    -- database accepts every statement and the time of the block is a date: it clears the leaves at
    -- the 32-bit indices before the first one that equals `2 ^ depth`, and writes a row for each of
    -- them and a row for the batch.
    pub delete_identities-Removed :
        (ts : ℕ) (packed proof : List ℕ) (pre_root post_root : ℕ) (s : SyncState P F)
        → IsBounded s.tree_data
        → s.tree_data.depth < 32
        → AllBelow (length (P.leaves s.tree_data.tree)) (deleted_indices s.tree_data.depth packed)
        → (s' : SyncState P F) × (delete_identities P F tx number block
              (some ts)
              packed
              proof
              pre_root
              post_root
              s
            ≡ (ok tt, s'))
          × Removed ts (deleted_indices s.tree_data.depth packed) proof pre_root post_root s s'
    delete_identities-Removed ts packed proof pre_root post_root s b shallow h =
        subst
          (λ is.
            AllBelow (length (P.leaves s.tree_data.tree)) is
            → (s' : SyncState P F) × (delete_identities P F tx number block (some ts) packed proof
                  pre_root post_root s
                ≡ (ok tt, s'))
              × Removed ts is proof pre_root post_root s s')
          (indices_of_lem s.tree_data.depth packed shallow)
          (delete_identities_lem ts packed proof pre_root post_root s b) h
