-- ===== src/Rows.antt =====
-- The rows that src/tree/tree_updater.rs writes to the tables, and their dates.
use world_tree.Prelude.{ℕ, ◌^◌, none, some, List, [], ◌∷◌, ltb, if◌then◌else◌}
use world_tree.Prelude.Int.{as_i64}
use world_tree.Exec.{Outcome, ok, err, panic, out_of_fuel, expect}
use world_tree.Merkle.{Hash, PoseidonTree}
use world_tree.Chain.{Transaction, Block}
use world_tree.TreeData.{TreeData}
use world_tree.Error.{TreeAvailabilityError}
use world_tree.Foreign.{Foreign, InsertionRow, DeletionRow, BatchRow}

-- `U256::as_u64` panics on a number that does not fit.
abbrev pub as_u64 : {E : Type 0} → ℕ → Outcome E ℕ
as_u64 n = if ltb n (2 ^ 64) then ok n else panic

module _ (P : PoseidonTree) (F : Foreign) where
  -- `collect` of an iterator whose closure may panic.
  unfoldable pub traverse :
      {A B : Type 0}
      → (A → Outcome (TreeAvailabilityError F.Failure) B)
      → List A
      → Outcome (TreeAvailabilityError F.Failure) (List B)
  traverse f [] = ok []
  traverse f (x ∷ xs) = elim (f x) [
    | ok y ↦ elim (traverse f xs) [
      | ok ys ↦ ok (y ∷ ys)
      | err e ↦ err e
      | panic ↦ panic
      | out_of_fuel ↦ out_of_fuel
    ]
    | err e ↦ err e
    | panic ↦ panic
    | out_of_fuel ↦ out_of_fuel
  ]

  unfoldable pub created_at : Block → Outcome (TreeAvailabilityError F.Failure) F.DateTime
  created_at block = elim (as_u64 block.timestamp) [
    | ok seconds ↦ expect (F.from_timestamp_opt (as_i64 seconds))
    | err e ↦ err e
    | panic ↦ panic
    | out_of_fuel ↦ out_of_fuel
  ]

  module _ (tx : Transaction) (number : ℕ) (block : Block) where
    unfoldable pub insertion_row :
        Hash → Outcome (TreeAvailabilityError F.Failure) (InsertionRow F.Text F.DateTime)
    unfolding created_at
    insertion_row id = elim (created_at block) [
      | ok at ↦ ok (record {
        pubkey = F.hash_to_string id;
        inserted_in_block = as_i64 number;
        inserted_in_tx = F.encode_hex tx.hash;
        created_at = at;
      })
      | err e ↦ err e
      | panic ↦ panic
      | out_of_fuel ↦ out_of_fuel
    ]

    unfoldable pub deletion_row :
        TreeData P → ℕ → Outcome (TreeAvailabilityError F.Failure) (DeletionRow F.Text F.DateTime)
    unfolding created_at
    deletion_row d index = elim (P.get_leaf d.tree index) [
      | none ↦ panic
      | some id ↦ elim (created_at block) [
        | ok at ↦ ok (record {
          pubkey = F.hash_to_string id;
          deleted_at_block = as_i64 number;
          deleted_in_tx = F.encode_hex tx.hash;
          created_at = at;
        })
        | err e ↦ err e
        | panic ↦ panic
        | out_of_fuel ↦ out_of_fuel
      ]
    ]

    unfoldable pub batch_row :
        ℕ
        → ℕ
        → ℕ
        → List ℕ
        → ℕ
        → ℕ
        → Outcome (TreeAvailabilityError F.Failure) (BatchRow F.Text F.DateTime)
    unfolding created_at
    batch_row inserted deleted size proof preroot postroot = elim (created_at block) [
      | ok at ↦ ok (record {
        tx = F.encode_hex tx.hash;
        total_inserted = as_i64 inserted;
        total_deleted = as_i64 deleted;
        block = as_i64 number;
        batch_size = as_i64 size;
        proof = F.encode_proof_hex proof;
        preroot = F.encode_hex preroot;
        postroot = F.encode_hex postroot;
        created_at = at;
      })
      | err e ↦ err e
      | panic ↦ panic
      | out_of_fuel ↦ out_of_fuel
    ]
