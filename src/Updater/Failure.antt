-- ===== src/Updater/Failure.antt =====
-- What the updater leaves behind when it fails.
use world_tree.Prelude.{ℕ, suc, ◌≡◌, ◌≢◌, inl, inr, Option, List, [], ◌∷◌, arith}
use world_tree.Exec.{Outcome, Outcome-cases, err, Exec, lift, expect, ◌>>◌}
use world_tree.Exec.Errors.{
  NoErr, ErrKeeps, ErrKeeps-of_NoErr, ErrKeeps-lift, ErrKeeps-if, NoErr-pure, NoErr-bind,
  ErrKeeps-bind_lift,
}
use world_tree.Merkle.{Hash, PoseidonTree}
use world_tree.Chain.{Transaction, Block}
use world_tree.TreeData.{
  TreeData, cache_tree_history, current_unix_timestamp, set_latest_root_timestamp, insert_at,
  insert_from, insert_many_at, remove_leaf, clear_leaf, delete_each, delete_many,
}
use world_tree.Error.{abi_codec_error, unrecognized_function_selector}
use world_tree.Foreign.{
  Foreign, RegisterIdentitiesCall, DeleteIdentitiesCall, DeleteIdentitiesWithBatchSizeCall,
}
use world_tree.Rows.{traverse, created_at, insertion_row, deletion_row, batch_row}
use world_tree.Updater.{
  Error, SyncState, Round, on_tree, exec_db, register_identities, delete_identities, on_register,
  on_delete, on_delete_with_batch_size, dispatch, selector_eq, selector_of, sync_from_transaction,
  expect_some, map_err,
}

-- The methods of the tree return no error.
module _ (P : PoseidonTree) (E : Type 0) where
  cache_tree_history-NoErr : NoErr (cache_tree_history P E)
  unfolding cache_tree_history
  cache_tree_history-NoErr = record { at = λ d e k. absurd (ground (arith, k)) }

  clock-NoErr : (now : Option ℕ) → NoErr {S = TreeData P} (lift (current_unix_timestamp P E now))
  clock-NoErr now = record { at = λ d e k. absurd (ground (arith, k)) }

  stamp-NoErr : (t : ℕ) → NoErr (set_latest_root_timestamp P E t)
  stamp-NoErr t = record { at = λ d e k. cc }

  insert_from-NoErr : (ts idx : ℕ) (ids : List Hash) → NoErr (insert_from P E ts idx ids)
  unfolding insert_from insert_at
  insert_from-NoErr ts idx [] = NoErr-pure tt
  insert_from-NoErr ts idx (x ∷ ids) =
      NoErr-bind (insert_at P E ts idx x) (λ _. insert_from P E ts (suc idx) ids)
        (record { at = λ d e k. absurd (ground (arith, k)) })
        (λ _. insert_from-NoErr ts (suc idx) ids)

  delete_each-NoErr : (is : List ℕ) → NoErr (delete_each P E is)
  unfolding delete_each
  delete_each-NoErr [] = NoErr-pure tt
  delete_each-NoErr (i ∷ is) =
      NoErr-bind (remove_leaf P E i) (λ _. clear_leaf P E i >> delete_each P E is)
        (record { at = λ d e k. absurd (ground (arith, k)) })
        (λ _.
          NoErr-bind (clear_leaf P E i) (λ _. delete_each P E is)
            (record { at = λ d e k. absurd (ground (arith, k)) }) (λ _. delete_each-NoErr is))

  pub insert_many_at-NoErr :
      (now : Option ℕ) (start : ℕ) (ids : List Hash) → NoErr (insert_many_at P E now start ids)
  unfolding insert_many_at
  insert_many_at-NoErr now start ids =
      NoErr-bind (cache_tree_history P E) _ cache_tree_history-NoErr (λ _.
        NoErr-bind (lift (current_unix_timestamp P E now)) _ (clock-NoErr now) (λ ts.
          NoErr-bind (insert_from P E ts start ids) _ (insert_from-NoErr ts start ids)
            (λ _. stamp-NoErr ts)))

  pub delete_many-NoErr : (now : Option ℕ) (is : List ℕ) → NoErr (delete_many P E now is)
  unfolding delete_many
  delete_many-NoErr now is = NoErr-bind (cache_tree_history P E) _ cache_tree_history-NoErr (λ _.
      NoErr-bind (delete_each P E is) _ (delete_each-NoErr is)
        (λ _. NoErr-bind (lift (current_unix_timestamp P E now)) _ (clock-NoErr now) stamp-NoErr))

module _ (P : PoseidonTree) (F : Foreign) where
  traverse-ne-err :
      {A B : Type 0} (f : A → Outcome (Error P F) B) (xs : List A) (e : Error P F)
      → ((x : A) (e' : Error P F) → f x ≢ err e')
      → traverse P F f xs ≢ err e
  unfolding traverse
  traverse-ne-err f [] e h = λ k. cc
  traverse-ne-err f (x ∷ xs) e h = λ k. elim (Outcome-cases (traverse P F f xs)) [
    | inl (ys, r) ↦ absurd (ground (arith, r, k, h x e))
    | inr (inl (e', r)) ↦ absurd (traverse-ne-err f xs e' h r)
    | inr (inr (inl r)) ↦ absurd (ground (arith, r, k, h x e))
    | inr (inr (inr r)) ↦ absurd (ground (arith, r, k, h x e))
  ]

  lift-NoErr :
      {S A : Type 0} (r : Outcome (Error P F) A)
      → ((e : Error P F) → r ≢ err e)
      → NoErr {S = S} (lift r)
  lift-NoErr r h = record { at = λ s. h }

  exec_db-NoErr : (q : F.Db → Option F.Db) → NoErr (exec_db P F q)
  unfolding exec_db
  exec_db-NoErr q = record { at = λ s e k. absurd (ground (arith, k)) }

  on_tree-NoErr : (m : Exec (Error P F) (TreeData P) (Unit {0})) → NoErr m → NoErr (on_tree P F m)
  unfolding on_tree
  on_tree-NoErr m h = record { at = λ s e k. h.at s.tree_data e k }

  created_at-ne-err : (block : Block) (e : Error P F) → created_at P F block ≢ err e
  unfolding created_at
  created_at-ne-err block e = λ k. absurd (ground (arith, k))

  module _ (tx : Transaction) (number : ℕ) (block : Block) where
    insertion_row-ne-err :
        (id : Hash) (e : Error P F) → insertion_row P F tx number block id ≢ err e
    unfolding insertion_row
    insertion_row-ne-err id e = λ k. absurd (ground (arith, k))

    deletion_row-ne-err :
        (d : TreeData P) (i : ℕ) (e : Error P F) → deletion_row P F tx number block d i ≢ err e
    unfolding deletion_row
    deletion_row-ne-err d i e = λ k. absurd (ground (arith, k))

    batch_row-ne-err :
        (a b c : ℕ) (proof : List ℕ) (pre post : ℕ) (e : Error P F)
        → batch_row P F tx number block a b c proof pre post ≢ err e
    unfolding batch_row
    batch_row-ne-err a b c proof pre post e = λ k. absurd (ground (arith, k))

    register_identities-NoErr :
        (now : Option ℕ) (call : RegisterIdentitiesCall)
        → NoErr (register_identities P F tx number block now call)
    unfolding register_identities
    register_identities-NoErr now call =
        NoErr-bind _ _ (lift-NoErr _ (λ e. traverse-ne-err _ _ e insertion_row-ne-err)) (λ rows.
          NoErr-bind _ _ (exec_db-NoErr (F.insert_insertions rows)) (λ _.
            NoErr-bind _ _ (lift-NoErr _ (batch_row-ne-err _ _ _ _ _ _)) (λ row.
              NoErr-bind _ _ (exec_db-NoErr (F.insert_batch row))
                (λ _. on_tree-NoErr _ (insert_many_at-NoErr P (Error P F) now _ _)))))

    delete_identities-NoErr :
        (now : Option ℕ) (packed proof : List ℕ) (pre post : ℕ)
        → NoErr (delete_identities P F tx number block now packed proof pre post)
    unfolding delete_identities
    delete_identities-NoErr now packed proof pre post = record {
      at = λ s.
          (NoErr-bind _ _
              (lift-NoErr _ (λ e. traverse-ne-err _ _ e (deletion_row-ne-err s.tree_data)))
              (λ rows. NoErr-bind _ _ (exec_db-NoErr (F.insert_deletions rows)) (λ _.
                NoErr-bind _ _ (lift-NoErr _ (batch_row-ne-err _ _ _ _ _ _)) (λ row.
                  NoErr-bind _ _ (exec_db-NoErr (F.insert_batch row))
                    (λ _. on_tree-NoErr _ (delete_many-NoErr P (Error P F) now _)))))).at
            s;
    }

    on_register-ErrKeeps : (now : Option ℕ) → ErrKeeps (on_register P F tx number block now)
    unfolding on_register
    on_register-ErrKeeps now =
        ErrKeeps-bind_lift (map_err P F abi_codec_error (F.decode_register tx.input)) _
          (λ call. ErrKeeps-of_NoErr _ (register_identities-NoErr now call))

    on_delete-ErrKeeps : (now : Option ℕ) → ErrKeeps (on_delete P F tx number block now)
    unfolding on_delete
    on_delete-ErrKeeps now = ErrKeeps-bind_lift _ _ (λ (call : DeleteIdentitiesCall).
        ErrKeeps-of_NoErr _ (
          delete_identities-NoErr now call.packed_deletion_indices call.deletion_proof call.pre_root
            call.post_root))

    on_delete_with_batch_size-ErrKeeps :
        (now : Option ℕ) → ErrKeeps (on_delete_with_batch_size P F tx number block now)
    unfolding on_delete_with_batch_size
    on_delete_with_batch_size-ErrKeeps now =
        ErrKeeps-bind_lift _ _ (λ (call : DeleteIdentitiesWithBatchSizeCall). ErrKeeps-of_NoErr _ (
          delete_identities-NoErr now call.packed_deletion_indices call.deletion_proof call.pre_root
            call.post_root))

    dispatch-ErrKeeps :
        (now : Option ℕ) (selector : List ℕ) → ErrKeeps (dispatch P F tx number block now selector)
    unfolding dispatch
    dispatch-ErrKeeps now selector =
        ErrKeeps-if (selector_eq selector F.register_selector) _ _ (on_register-ErrKeeps now) (
          ErrKeeps-if (selector_eq selector F.delete_selector) _ _ (on_delete-ErrKeeps now) (
            ErrKeeps-if (selector_eq selector F.delete_with_batch_size_selector) _ _
              (on_delete_with_batch_size-ErrKeeps now)
              (ErrKeeps-lift (err unrecognized_function_selector))))

  -- A transaction that is refused with an error, rather than by a panic, has changed neither the
  -- tree nor the database.
  pub sync_from_transaction-unchanged :
      (round : Round F) (tx : Transaction) (s : SyncState P F) (e : Error P F)
      → (sync_from_transaction P F round tx s).0 ≡ err e
      → (sync_from_transaction P F round tx s).1 ≡ s
  unfolding sync_from_transaction
  sync_from_transaction-unchanged round tx s e =
      (ErrKeeps-bind_lift (selector_of P F tx.input) _ (λ selector.
          ErrKeeps-bind_lift (expect tx.block_number) _ (λ number.
            ErrKeeps-bind_lift (expect_some P F (round.middleware.get_block number)) _
              (λ block. dispatch-ErrKeeps tx number block (round.clock tx) selector)))).at
        s e
