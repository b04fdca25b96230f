-- ===== src/Foreign.antt =====
-- The other crates that the updater calls: the calls decoded by the bindings that `abigen!` makes
-- of src/abi.rs, and the tables of src/entities, written through sea-orm.
use world_tree.Prelude.{ℕ, ◌⊎◌, Option, List}
use world_tree.Prelude.Int.{ℤ}
use world_tree.Merkle.{Hash}

pub record RegisterIdentitiesCall : Type 0 where
  pub insertion_proof : List ℕ
  pub pre_root : ℕ
  pub start_index : ℕ
  pub identity_commitments : List ℕ
  pub post_root : ℕ

pub record DeleteIdentitiesCall : Type 0 where
  pub deletion_proof : List ℕ
  pub packed_deletion_indices : List ℕ
  pub pre_root : ℕ
  pub post_root : ℕ

-- `DeleteIdentitiesWithDeletionProofAndBatchSizeAndPackedDeletionIndicesAndPreRootCall`
pub record DeleteIdentitiesWithBatchSizeCall : Type 0 where
  pub deletion_proof : List ℕ
  pub batch_size : ℕ
  pub packed_deletion_indices : List ℕ
  pub pre_root : ℕ
  pub post_root : ℕ

-- Rows of the tables, over the types of texts and times. The keys `id` are left to the database.
pub record InsertionRow (Text DateTime : Type 0) : Type 0 where
  pub pubkey : Text
  pub inserted_in_block : ℤ
  pub inserted_in_tx : Text
  pub created_at : DateTime

pub record DeletionRow (Text DateTime : Type 0) : Type 0 where
  pub pubkey : Text
  pub deleted_at_block : ℤ
  pub deleted_in_tx : Text
  pub created_at : DateTime

pub record BatchRow (Text DateTime : Type 0) : Type 0 where
  pub tx : Text
  pub total_inserted : ℤ
  pub total_deleted : ℤ
  pub block : ℤ
  pub batch_size : ℤ
  pub proof : Text
  pub preroot : Text
  pub postroot : Text
  pub created_at : DateTime

pub record Foreign : Type 1 where
  -- An error value of a provider or of the ABI decoder.
  pub Failure : Type 0
  pub Text : Type 0
  pub DateTime : Type 0
  pub Db : Type 0
  pub register_selector : List ℕ
  pub delete_selector : List ℕ
  pub delete_with_batch_size_selector : List ℕ
  pub decode_register : List ℕ → Failure ⊎ RegisterIdentitiesCall
  pub decode_delete : List ℕ → Failure ⊎ DeleteIdentitiesCall
  pub decode_delete_with_batch_size : List ℕ → Failure ⊎ DeleteIdentitiesWithBatchSizeCall
  pub hash_to_string : Hash → Text
  -- `encode_hex` of a hash or a root, and of the eight numbers of a proof.
  pub encode_hex : ℕ → Text
  pub encode_proof_hex : List ℕ → Text
  -- `DateTime::from_timestamp_opt`, in UTC.
  pub from_timestamp_opt : ℤ → Option DateTime
  -- `none` is a statement that fails, and it leaves the database as it was.
  pub insert_insertions : List (InsertionRow Text DateTime) → Db → Option Db
  pub insert_deletions : List (DeletionRow Text DateTime) → Db → Option Db
  pub insert_batch : BatchRow Text DateTime → Db → Option Db
