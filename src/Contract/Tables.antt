-- ===== src/Contract/Tables.antt =====
-- What the tables are to have of the contract: for each of its calls the rows of the identities that
-- it inserts or deletes, and a row of the batch.
use world_tree.Prelude.{
  ℕ, zero, suc, ◌+◌, ◌≡◌, refl, ap, ◌∙◌, inl, inr, Option, none, some, List, [], ◌++◌, take, arith,
  if◌then◌else◌,
}
use mathlib.Core.List.{append_assoc}
use world_tree.Merkle.{Hash, PoseidonTree}
use world_tree.Chain.{Transaction}
use world_tree.Foreign.{Foreign}
use world_tree.Updater.Padding.{deleted_indices}
use world_tree.Updater.Calls.{same_bytes, plain, with_batch_size}
use world_tree.Updater.Written.{Statement, registration, removal}
use world_tree.Contract.{Change, inserts, removes, Contract}

module _ (P : PoseidonTree) (F : Foreign) (depth : ℕ) where
  module _ (tx : Transaction) (number : ℕ) (at : F.DateTime) (ls : List Hash) where
    -- The statements for a call in a block, over the leaves before it.
    unfoldable pub call_statements : List (Statement F)
    call_statements =
        if same_bytes (take 4 tx.input) F.register_selector
        then elim (F.decode_register tx.input) [
          | inl x ↦ []
          | inr call ↦ registration P F tx number at call
        ]
        else if same_bytes (take 4 tx.input) F.delete_selector
        then elim (F.decode_delete tx.input) [
          | inl x ↦ []
          | inr call ↦
              removal P F tx number at ls (deleted_indices depth call.packed_deletion_indices)
                call.deletion_proof call.pre_root call.post_root
        ]
        else elim (F.decode_delete_with_batch_size tx.input) [
          | inl x ↦ []
          | inr call ↦
              removal P F tx number at ls (deleted_indices depth call.packed_deletion_indices)
                call.deletion_proof call.pre_root call.post_root
        ]

    abbrev pub change_statements : {ls' : List Hash} → Change F depth tx ls ls' → List (Statement F)
    change_statements (inserts call s d v e) = registration P F tx number at call
    change_statements (removes packed proof pre post shallow d b e) =
        removal P F tx number at ls (deleted_indices depth packed) proof pre post

    -- A call that changes the contract's tree has just these.
    pub change_statements_lem :
        {ls' : List Hash} (x : Change F depth tx ls ls') → change_statements x ≡ call_statements
    unfolding call_statements
    change_statements_lem (inserts call s d v e) = ground (arith, s, d)
    change_statements_lem (removes packed proof pre post shallow (plain a s d) b e) =
        ground (arith, a, s, d)
    change_statements_lem (removes packed proof pre post shallow (with_batch_size n a a' s d) b e) =
        ground (arith, a, a', d)

  module _ (c : Contract F depth) where
    abbrev pub statements_at : ℕ → Option Transaction → List (Statement F)
    statements_at n none = []
    statements_at n (some tx) = call_statements tx (suc n) (c.date_at (suc n)) (c.leaves_at n)

    -- The statements for the calls of the `count` blocks behind `n`, in order.
    unfoldable pub tables : ℕ → ℕ → List (Statement F)
    tables n zero = []
    tables n (suc count) = statements_at n (c.transaction_at (suc n)) ++ tables (suc n) count

    pub tables-join : (n k j : ℕ) → tables n k ++ tables (n + k) j ≡ tables n (k + j)
    unfolding tables
    tables-join n zero j =
        let e : n + 0 ≡ n = omega arith in let f : 0 + j ≡ j = omega arith in rw (e, f) refl
    tables-join n (suc k) j =
        let e : n + suc k ≡ suc n + k = omega arith in
        let f : suc k + j ≡ suc (k + j) = omega arith in
        rw (e, f)
          (append_assoc (statements_at n (c.transaction_at (suc n))) (tables (suc n) k)
              (tables (suc n + k) j)
            ∙ ap (λ l. statements_at n (c.transaction_at (suc n)) ++ l) (tables-join (suc n) k j))
