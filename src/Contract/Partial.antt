-- ===== src/Contract/Partial.antt =====
-- The contract's transactions, handled with whatever outcome: the leaves of the tree are those of the
-- contract after some block.
use mathlib.Core.Path.{subst}
use world_tree.Prelude.{
  ℕ, zero, suc, ◌+◌, ◌≤◌, ◌≡◌, ◌≢◌, refl, sym, ◌∙◌, inl, inr, Option, none, some, List, ◌∷◌, ◌++◌,
  take, drop, length, arith, ◌<◌,
}
use world_tree.Exec.{Outcome, ok, err, panic, out_of_fuel, Outcome-cases, expect, lift}
use world_tree.Merkle.{Hash, PoseidonTree, IsMerkle}
use world_tree.Chain.{Transaction, Block}
use world_tree.BlockScanner.Complete.{span}
use world_tree.BlockMap
use world_tree.BlockMap.{BlockMap}
use world_tree.Foreign.{Foreign, RegisterIdentitiesCall}
use world_tree.TreeData.Delete.{AllBelow, clear_all}
use world_tree.TreeData.Live.{IsVacant}
use world_tree.Updater.Padding.{
  inserted_identities, deleted_indices, identities_of_lem, indices_of_lem,
}
use world_tree.Updater.{
  SyncState, Round, Error, register_identities, delete_identities, selector_of, expect_some,
  dispatch, sync_from_transaction, sync_each,
}
use world_tree.Updater.Calls.{dispatch-registration, dispatch-deletion}
use world_tree.Updater.Mirror.{Mirrors}
use world_tree.Updater.Lands.{
  Landed, Landed-continue, Quiet-lift, register_identities-Landed, delete_identities-Landed,
}
use world_tree.Contract.{Change, inserts, removes, Contract, entries_of}
use world_tree.Contract.Blocks.{entries}

module _ (P : PoseidonTree) (F : Foreign) (depth : ℕ) (c : Contract F depth) where
  -- The tree has the leaves of the contract after a block from `a` to `b`.
  pub record Held (a b : ℕ) (s : SyncState P F) : Type 0 where
    pub block : ℕ
    pub after : a ≤ block
    pub before : block ≤ b
    pub leaves : P.leaves s.tree_data.tree ≡ c.leaves_at block

module _ (P : PoseidonTree) (F : Foreign) (L : IsMerkle P) (depth : ℕ) (round : Round F) where
  selector_of-ok :
      (input selector : List ℕ) → selector_of P F input ≡ ok selector → take 4 input ≡ selector
  unfolding selector_of
  selector_of-ok input selector h = ground (arith, h)

  registration-Landed :
      (tx : Transaction) (number : ℕ) (block : Block) (now : Option ℕ)
      → (call : RegisterIdentitiesCall) (ls : List Hash) (s : SyncState P F)
      → IsVacant call.start_index (inserted_identities call) ls
      → Mirrors P F depth ls s
      → Landed P F depth ls
          (take call.start_index ls
            ++ (inserted_identities call
                ++ drop (call.start_index + length (inserted_identities call)) ls))
          s
          (register_identities P F tx number block now call s)
  registration-Landed tx number block now call ls s v m =
      subst
        (λ ids.
          IsVacant call.start_index ids ls
          → Landed P F depth ls
              (take call.start_index ls ++ (ids ++ drop (call.start_index + length ids) ls)) s
              (register_identities P F tx number block now call s))
        (identities_of_lem call)
        (λ v. register_identities-Landed P F L depth tx number block now call ls s v m) v

  deletion-Landed :
      (tx : Transaction) (number : ℕ) (block : Block) (now : Option ℕ)
      → (packed proof : List ℕ) (pre_root post_root : ℕ) (ls : List Hash) (s : SyncState P F)
      → depth < 32
      → AllBelow (length ls) (deleted_indices depth packed)
      → Mirrors P F depth ls s
      → Landed P F depth ls
          (clear_all (deleted_indices depth packed) ls)
          s
          (delete_identities P F tx number block now packed proof pre_root post_root s)
  deletion-Landed tx number block now packed proof pre_root post_root ls s shallow b m =
      subst
        (λ is.
          AllBelow (length ls) is
          → Landed P F depth ls (clear_all is ls) s
              (delete_identities P F tx number block now packed proof pre_root post_root s))
        (indices_of_lem depth packed shallow)
        (λ b.
          delete_identities-Landed P F L depth tx number block now packed proof pre_root post_root
            ls s b m)
        b

  dispatch-Landed :
      (tx : Transaction) (number : ℕ) (block : Block) (now : Option ℕ) (ls ls' : List Hash)
      (s : SyncState P F)
      → Change F depth tx ls ls'
      → Mirrors P F depth ls s
      → Landed P F depth ls ls' s (dispatch P F tx number block now (take 4 tx.input) s)
  dispatch-Landed tx number block now ls ls' s (inserts call h d v e) m =
      subst (Landed P F depth ls ls' s)
        (sym (dispatch-registration P F tx number block now s call h d))
        (subst (λ l. Landed P F depth ls l s (register_identities P F tx number block now call s))
          (sym e) (registration-Landed tx number block now call ls s v m))
  dispatch-Landed tx number block now ls ls' s (removes packed proof pre post shallow d b e) m =
      subst (Landed P F depth ls ls' s)
        (sym (dispatch-deletion P F tx number block now s packed proof pre post d))
        (subst
          (λ l.
            Landed P F depth ls l s
              (delete_identities P F tx number block now packed proof pre post s))
          (sym e) (deletion-Landed tx number block now packed proof pre post ls s shallow b m))

  -- Whatever the provider, the clock and the database answer, a call of the contract either changes
  -- the leaves as the contract does, or leaves them.
  sync_from_transaction-Landed :
      (tx : Transaction) (ls ls' : List Hash) (s : SyncState P F)
      → Change F depth tx ls ls'
      → Mirrors P F depth ls s
      → Landed P F depth ls ls' s (sync_from_transaction P F round tx s)
  unfolding sync_from_transaction
  sync_from_transaction-Landed tx ls ls' s x m =
      Landed-continue P F depth ls ls' (lift (selector_of P F tx.input)) _ s
        (Quiet-lift P F depth ls ls' (selector_of P F tx.input)) m
        (λ selector s1 r1 m1.
          Landed-continue P F depth ls ls' (lift (expect tx.block_number)) _ s1
            (Quiet-lift P F depth ls ls' (expect tx.block_number)) m1
            (λ number s2 r2 m2.
              Landed-continue P F depth ls ls'
                (lift (expect_some P F (round.middleware.get_block number)))
                (λ block. dispatch P F tx number block (round.clock tx) selector) s2
                (Quiet-lift P F depth ls ls' (expect_some P F (round.middleware.get_block number)))
                m2
                (λ block s3 r3 m3.
                  subst
                    (λ z.
                      Landed P F depth ls ls' s3
                        (dispatch P F tx number block (round.clock tx) z s3))
                    (selector_of-ok tx.input selector r1)
                    (dispatch-Landed tx number block (round.clock tx) ls ls' s3 x m3))))

  module _ (c : Contract F depth) where
    -- With success the tree mirrors the contract at block `b`, and in any case it has the leaves of
    -- the contract after a block from `a` to there.
    pub record Passed (a b : ℕ) (s : SyncState P F)
        (o : Outcome (Error P F) (Unit {0}) × SyncState P F) : Type 0 where
      pub succeeded : o.0 ≡ ok tt → Mirrors P F depth (c.leaves_at b) o.1
      pub held : Held P F depth c a b o.1
      pub updater : o.1.updater ≡ s.updater

    Passed-wider :
        (n b : ℕ) (s : SyncState P F) (o : Outcome (Error P F) (Unit {0}) × SyncState P F)
        → Passed (suc n) b s o
        → Passed n b s o
    Passed-wider n b s o p = record {
      succeeded = p.succeeded;
      held = record {
        block = p.held.block;
        after = omega (arith, p.held.after);
        before = p.held.before;
        leaves = p.held.leaves;
      };
      updater = p.updater;
    }

    -- A call that did not succeed.
    Passed-broken :
        (n b : ℕ) (s s1 : SyncState P F) (r : Outcome (Error P F) (Unit {0}))
        → n + 1 ≤ b
        → r ≢ ok tt
        → Landed P F depth (c.leaves_at n) (c.leaves_at (suc n)) s (r, s1)
        → Passed n b s (r, s1)
    Passed-broken n b s s1 r le refused l = record {
      succeeded = λ e. absurd (refused e);
      held = elim l.placed [
        | inl e ↦ record { block = n; after = omega arith; before = omega (arith, le); leaves = e }
        | inr e ↦ record {
          block = suc n;
          after = omega arith;
          before = omega (arith, le);
          leaves = e;
        }
      ];
      updater = l.updater;
    }

    -- One call, and then the rest of a sequence.
    Passed-then :
        (n b : ℕ) (tx : Transaction) (txs : List Transaction) (s : SyncState P F)
        → n + 1 ≤ b
        → Landed P F depth
            (c.leaves_at n)
            (c.leaves_at (suc n))
            s
            (sync_from_transaction P F round tx s)
        → ((s1 : SyncState P F)
            → Mirrors P F depth (c.leaves_at (suc n)) s1
            → Passed (suc n) b s1 (sync_each P F round txs s1))
        → Passed n b s (sync_each P F round (tx ∷ txs) s)
    unfolding sync_each
    Passed-then n b tx txs s le l rest =
        let s1 : SyncState P F = (sync_from_transaction P F round tx s).1 in
        elim (Outcome-cases (sync_from_transaction P F round tx s).0) [
          | inl (a, r) ↦
              let p = Passed-wider n b s1 _ (rest s1 (l.succeeded r)) in
              rw r
                (record { succeeded = p.succeeded; held = p.held; updater = p.updater ∙ l.updater })
          | inr (inl (x, r)) ↦ rw r (Passed-broken n b s s1 (err x) le (λ e. cc) (rw r at l))
          | inr (inr (inl r)) ↦ rw r (Passed-broken n b s s1 panic le (λ e. cc) (rw r at l))
          | inr (inr (inr r)) ↦ rw r (Passed-broken n b s s1 out_of_fuel le (λ e. cc) (rw r at l))
        ]

    entries_of-Passed :
        (n b : ℕ) (o : Option Transaction) (m : BlockMap) (s : SyncState P F)
        → n + 1 ≤ b
        → c.transaction_at (suc n) ≡ o
        → ((s1 : SyncState P F)
            → Mirrors P F depth (c.leaves_at (suc n)) s1
            → Passed (suc n) b s1 (sync_each P F round (BlockMap.values m) s1))
        → Mirrors P F depth (c.leaves_at n) s
        → Passed n b s (sync_each P F round (BlockMap.values (entries_of F depth (suc n) o ++ m)) s)
    unfolding BlockMap.values
    entries_of-Passed n b none m s le e rest i =
        Passed-wider n b s _ (rest s (subst (λ ls. Mirrors P F depth ls s) (c.quiet n e) i))
    entries_of-Passed n b (some tx) m s le e rest i =
        Passed-then n b tx (BlockMap.values m) s le
          (sync_from_transaction-Landed tx (c.leaves_at n) (c.leaves_at (suc n)) s (c.called n tx e)
            i)
          rest

    -- The transactions of the blocks behind `n` up to `b`.
    pub entries-Passed :
        (n count b : ℕ) (s : SyncState P F)
        → n + count ≡ b
        → Mirrors P F depth (c.leaves_at n) s
        → Passed n b s (sync_each P F round (BlockMap.values (entries F depth c (suc n) count)) s)
    unfolding span BlockMap.values sync_each
    entries-Passed n zero b s e i =
        let same : n ≡ b = omega (arith, e) in
        record {
          succeeded = λ r. subst (λ k. Mirrors P F depth (c.leaves_at k) s) same i;
          held = record {
            block = n;
            after = omega arith;
            before = omega (arith, e);
            leaves = i.leaves;
          };
          updater = refl;
        }
    entries-Passed n (suc j) b s e i =
        entries_of-Passed n b (c.transaction_at (suc n)) _ s (omega (arith, e)) refl
          (λ s1 i1. entries-Passed (suc n) j b s1 (omega (arith, e)) i1) i
