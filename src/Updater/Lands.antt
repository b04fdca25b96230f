-- ===== src/Updater/Lands.antt =====
-- A transaction of the contract, handled with whatever outcome: where the leaves of the tree come to.
use mathlib.Core.Path.{subst}
use world_tree.Prelude.{
  ℕ, ◌+◌, ◌≡◌, refl, sym, ap, ◌∙◌, ◌⊎◌, inl, inr, Option, none, some, List, ◌++◌, arith, length,
  take, drop,
}
use world_tree.Exec.{Outcome, ok, panic, Outcome-cases, Exec, lift, ◌>>=◌, ◌>>◌}
use world_tree.Merkle.{Hash, PoseidonTree, IsMerkle}
use world_tree.Chain.{Transaction, Block}
use world_tree.Foreign.{Foreign, RegisterIdentitiesCall, BatchRow}
use world_tree.Rows.{traverse, insertion_row, deletion_row, batch_row}
use world_tree.TreeData.{TreeData, insert_many_at, delete_many}
use world_tree.TreeData.History.{cached, cache_tree_history_lem}
use world_tree.TreeData.Insert.{insert_many_at-Inserted}
use world_tree.TreeData.Delete.{AllBelow, clear_all, delete_many-panic, delete_many-Deleted}
use world_tree.TreeData.Live.{IsVacant, Inserted-IsLive, Deleted-IsLive}
use world_tree.Updater.{
  SyncState, Error, Sync, identities_of, indices_of, on_tree, exec_db, register_identities,
  delete_identities,
}
use world_tree.Updater.Mirror.{Mirrors}

module _ (P : PoseidonTree) (F : Foreign) (depth : ℕ) (ls ls' : List Hash) where
  -- From a state with the leaves `ls`: with success the tree mirrors `ls'`, and in any case it has the
  -- leaves `ls` or `ls'`.
  pub record Landed (s : SyncState P F) (o : Outcome (Error P F) (Unit {0}) × SyncState P F)
      : Type 0 where
    pub succeeded : o.0 ≡ ok tt → Mirrors P F depth ls' o.1
    pub placed : (P.leaves o.1.tree_data.tree ≡ ls) ⊎ (P.leaves o.1.tree_data.tree ≡ ls')
    pub updater : o.1.updater ≡ s.updater

  -- A step that leaves the tree and the updater as they are.
  pub record Quiet {A : Type 0} (m : Sync P F A) : Type 0 where
    pub tree : (s : SyncState P F) → (m s).1.tree_data ≡ s.tree_data
    pub updater : (s : SyncState P F) → (m s).1.updater ≡ s.updater

  pub Quiet-lift : {A : Type 0} (r : Outcome (Error P F) A) → Quiet (lift r)
  Quiet-lift r = record { tree = λ s. refl; updater = λ s. refl }

  Quiet-exec_db : (q : F.Db → Option F.Db) → Quiet (exec_db P F q)
  unfolding exec_db
  Quiet-exec_db q = record { tree = λ s. ground arith; updater = λ s. ground arith }

  Mirrors-same :
      (s s1 : SyncState P F)
      → s1.tree_data ≡ s.tree_data
      → Mirrors P F depth ls s
      → Mirrors P F depth ls s1
  Mirrors-same s s1 e m = record {
    live = rw e m.live;
    depth_kept = rw e m.depth_kept;
    leaves = rw e m.leaves;
  }

  pub Landed-continue :
      {A : Type 0} (m : Sync P F A) (f : A → Sync P F (Unit {0})) (s : SyncState P F)
      → Quiet m
      → Mirrors P F depth ls s
      → ((a : A) (s1 : SyncState P F)
          → (m s).0 ≡ ok a
          → Mirrors P F depth ls s1
          → Landed s1 (f a s1))
      → Landed s ((m >>= f) s)
  Landed-continue m f s q i h =
      let s1 : SyncState P F = (m s).1 in
      let i1 = Mirrors-same s s1 (q.tree s) i in
      elim (Outcome-cases (m s).0) [
        | inl (a, r) ↦
            let l = h a s1 r i1 in
            rw r (record {
              succeeded = l.succeeded;
              placed = l.placed;
              updater = l.updater ∙ q.updater s;
            })
        | inr (inl (x, r)) ↦
            rw r
              (record { succeeded = λ e. absurd cc; placed = inl i1.leaves; updater = q.updater s })
        | inr (inr (inl r)) ↦
            rw r
              (record { succeeded = λ e. absurd cc; placed = inl i1.leaves; updater = q.updater s })
        | inr (inr (inr r)) ↦
            rw r
              (record { succeeded = λ e. absurd cc; placed = inl i1.leaves; updater = q.updater s })
      ]

module _ (P : PoseidonTree) (F : Foreign) (L : IsMerkle P) (depth : ℕ) where
  -- Insertions, with a clock before the epoch as well.
  insertion-Landed :
      (start : ℕ) (ids ls : List Hash) (now : Option ℕ) (s : SyncState P F)
      → IsVacant start ids ls
      → Mirrors P F depth ls s
      → Landed P F depth ls
          (take start ls ++ (ids ++ drop (start + length ids) ls))
          s
          (on_tree P F (insert_many_at P (Error P F) now start ids) s)
  unfolding on_tree insert_many_at
  insertion-Landed start ids ls none s v m =
      let e = cache_tree_history_lem P (Error P F) s.tree_data m.live.bounded in
      let run : on_tree P F (insert_many_at P (Error P F) none start ids) s
          ≡ (panic, record s { tree_data = cached s.tree_data }) =
        ground (arith, e) in
      subst (Landed P F depth ls _ s) (sym run)
        (record { succeeded = λ e. absurd cc; placed = inl m.leaves; updater = refl })
  insertion-Landed start ids ls (some ts) s v m =
      let v' : IsVacant start ids (P.leaves s.tree_data.tree) = rw m.leaves v in
      let (d', run, done) =
        insert_many_at-Inserted P (Error P F) L ts start ids s.tree_data m.live.bounded v'.fits in
      let all : on_tree P F (insert_many_at P (Error P F) (some ts) start ids) s
          ≡ (ok tt, record s { tree_data = d' }) =
        ap (λ o. (o.0, record s { tree_data = o.1 })) run in
      let leaves : P.leaves d'.tree ≡ take start ls ++ (ids ++ drop (start + length ids) ls) =
        done.segment ∙ ap (λ l. take start l ++ (ids ++ drop (start + length ids) l)) m.leaves in
      subst (Landed P F depth ls _ s) (sym all) (record {
        succeeded = λ e. record {
          live = Inserted-IsLive P done v' m.live;
          depth_kept = done.depth ∙ m.depth_kept;
          leaves = leaves;
        };
        placed = inr leaves;
        updater = refl;
      })

  deletion-Landed :
      (is : List ℕ) (ls : List Hash) (now : Option ℕ) (s : SyncState P F)
      → AllBelow (length ls) is
      → Mirrors P F depth ls s
      → Landed P F depth ls (clear_all is ls) s (on_tree P F (delete_many P (Error P F) now is) s)
  unfolding on_tree delete_many
  deletion-Landed is ls none s b m =
      let b' : AllBelow (length (P.leaves s.tree_data.tree)) is = rw m.leaves b in
      let (d', run, written) = delete_many-panic P (Error P F) L is s.tree_data m.live.bounded b' in
      let all : on_tree P F (delete_many P (Error P F) none is) s
          ≡ (panic, record s { tree_data = d' }) =
        ap (λ o. (o.0, record s { tree_data = o.1 })) run in
      subst (Landed P F depth ls _ s) (sym all) (record {
        succeeded = λ e. absurd cc;
        placed = inr (written ∙ ap (clear_all is) m.leaves);
        updater = refl;
      })
  deletion-Landed is ls (some ts) s b m =
      let b' : AllBelow (length (P.leaves s.tree_data.tree)) is = rw m.leaves b in
      let (d', run, done) =
        delete_many-Deleted P (Error P F) L ts is s.tree_data m.live.bounded b' in
      let all : on_tree P F (delete_many P (Error P F) (some ts) is) s
          ≡ (ok tt, record s { tree_data = d' }) =
        ap (λ o. (o.0, record s { tree_data = o.1 })) run in
      let leaves : P.leaves d'.tree ≡ clear_all is ls = done.written ∙ ap (clear_all is) m.leaves in
      subst (Landed P F depth ls _ s) (sym all) (record {
        succeeded = λ e. record {
          live = Deleted-IsLive P done m.live;
          depth_kept = done.depth ∙ m.depth_kept;
          leaves = leaves;
        };
        placed = inr leaves;
        updater = refl;
      })

  -- The common shape of both kinds of calls: rows, a row of the batch, and the tree at the end.
  module _ {R : Type 0} (rows : Outcome (Error P F) (List R)) (insert : List R → F.Db → Option F.Db)
      (row : Outcome (Error P F) (BatchRow F.Text F.DateTime))
      (change : Exec (Error P F) (TreeData P) (Unit {0})) where
    abbrev with_row : Sync P F (Unit {0})
    with_row = do
      batch_entity ← lift row
      exec_db P F (F.insert_batch batch_entity)
      on_tree P F change

    abbrev recorded : Sync P F (Unit {0})
    recorded = do entities ← lift rows; exec_db P F (insert entities); with_row

    recorded-Landed :
        (ls ls' : List Hash) (s : SyncState P F)
        → Mirrors P F depth ls s
        → ((s4 : SyncState P F)
            → Mirrors P F depth ls s4
            → Landed P F depth ls ls' s4 (on_tree P F change s4))
        → Landed P F depth ls ls' s (recorded s)
    recorded-Landed ls ls' s m h =
        Landed-continue P F depth ls ls' (lift rows)
          (λ entities. exec_db P F (insert entities) >> with_row) s
          (Quiet-lift P F depth ls ls' rows) m
          (λ entities s1 r1 m1.
            Landed-continue P F depth ls ls' (exec_db P F (insert entities)) (λ x. with_row) s1
              (Quiet-exec_db P F depth ls ls' (insert entities)) m1
              (λ x s2 r2 m2.
                Landed-continue P F depth ls ls' (lift row)
                  (λ b. exec_db P F (F.insert_batch b) >> on_tree P F change) s2
                  (Quiet-lift P F depth ls ls' row) m2
                  (λ b s3 r3 m3.
                    Landed-continue P F depth ls ls' (exec_db P F (F.insert_batch b))
                      (λ y. on_tree P F change) s3
                      (Quiet-exec_db P F depth ls ls' (F.insert_batch b)) m3
                      (λ y s4 r4 m4. h s4 m4))))

  module _ (tx : Transaction) (number : ℕ) (block : Block) (now : Option ℕ) where
    pub register_identities-Landed :
        (call : RegisterIdentitiesCall) (ls : List Hash) (s : SyncState P F)
        → IsVacant call.start_index (identities_of call) ls
        → Mirrors P F depth ls s
        → Landed P F depth ls
            (take call.start_index ls
              ++ (identities_of call ++ drop (call.start_index + length (identities_of call)) ls))
            s
            (register_identities P F tx number block now call s)
    unfolding register_identities
    register_identities-Landed call ls s v m =
        recorded-Landed (traverse P F (insertion_row P F tx number block) (identities_of call))
          F.insert_insertions
          (batch_row P F tx number block (length (identities_of call)) 0
            (length call.identity_commitments) call.insertion_proof call.pre_root call.post_root)
          (insert_many_at P (Error P F) now call.start_index (identities_of call)) ls _ s m
          (λ s4. insertion-Landed call.start_index (identities_of call) ls now s4 v)

    pub delete_identities-Landed :
        (packed proof : List ℕ) (pre_root post_root : ℕ) (ls : List Hash) (s : SyncState P F)
        → AllBelow (length ls) (indices_of depth packed)
        → Mirrors P F depth ls s
        → Landed P F depth ls
            (clear_all (indices_of depth packed) ls)
            s
            (delete_identities P F tx number block now packed proof pre_root post_root s)
    unfolding delete_identities
    delete_identities-Landed packed proof pre_root post_root ls s b m =
        let is : List ℕ = indices_of s.tree_data.depth packed in
        let same : is ≡ indices_of depth packed = ap (λ n. indices_of n packed) m.depth_kept in
        let b' : AllBelow (length ls) is = rw same b in
        subst
          (λ js.
            Landed P F depth ls (clear_all js ls) s
              (delete_identities P F tx number block now packed proof pre_root post_root s))
          same
          (recorded-Landed (traverse P F (deletion_row P F tx number block s.tree_data) is)
            F.insert_deletions
            (batch_row P F tx number block 0 (length is) 0 proof pre_root post_root)
            (delete_many P (Error P F) now is) ls (clear_all is ls) s m
            (λ s4. deletion-Landed is ls now s4 b'))
