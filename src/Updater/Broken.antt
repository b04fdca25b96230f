-- ===== src/Updater/Broken.antt =====
-- A round in which a transaction is refused, after others have been handled.
use world_tree.Prelude.{ℕ, ◌≡◌, ap, ap₂, ◌∙◌, List, [], ◌∷◌, ◌++◌, arith}
use world_tree.Exec.{err}
use world_tree.Merkle.{Hash, PoseidonTree, IsMerkle}
use world_tree.Chain.{Transaction}
use world_tree.BlockScanner.{BlockScanner}
use world_tree.BlockMap
use world_tree.Foreign.{Foreign}
use world_tree.Updater.{SyncState, Round, Error, sync_from_transaction, sync_each, sync_to_head}
use world_tree.Updater.Accept.{Accepts}
use world_tree.Updater.Failure.{sync_from_transaction-unchanged}
use world_tree.Updater.Mirror.{Effects, none_left, first, Mirrors, sync_from_transaction-Mirrors}
use world_tree.Updater.Head.{Fetches, moved, moved-Mirrors, to_each}

module _ (P : PoseidonTree) (F : Foreign) (round : Round F) (depth : ℕ) where
  -- The round fetches transactions, of which some take the contract from leaves `ls` to `ls'`, and
  -- the next one is refused with an error.
  pub record Breaks (start scanner : BlockScanner) (ls ls' : List Hash) (e : Error P F)
      : Type 0 where
    pub fetches : Fetches P F round start scanner
    pub good : List Transaction
    pub bad : Transaction
    pub rest : List Transaction
    pub split : BlockMap.values fetches.entries ≡ good ++ (bad ∷ rest)
    pub effects : Effects P F round depth good ls ls'
    pub refused :
        (s : SyncState P F)
        → Mirrors P F depth ls' s
        → (sync_from_transaction P F round bad s).0 ≡ err e

  module _ (L : IsMerkle P) (A : Accepts F) where
    sync_each-Breaks :
        (good : List Transaction) (bad : Transaction) (rest : List Transaction) (ls ls' : List Hash)
        → (e : Error P F) (s : SyncState P F) → Effects P F round depth good ls ls'
        → ((s : SyncState P F)
            → Mirrors P F depth ls' s
            → (sync_from_transaction P F round bad s).0 ≡ err e)
        → Mirrors P F depth ls s
        → (s' : SyncState P F) × (sync_each P F round (good ++ (bad ∷ rest)) s ≡ (err e, s'))
          × Mirrors P F depth ls' s'
    unfolding sync_each
    sync_each-Breaks [] bad rest ls ls' e s none_left refused m =
        let h = refused s m in
        let both : sync_from_transaction P F round bad s ≡ (err e, s) =
          ap₂ (λ a b. (a, b)) h (sync_from_transaction-unchanged P F round bad s e h) in
        (s, ground (arith, both), m)
    sync_each-Breaks (tx ∷ good) bad rest ls ls'' e s (first {ls' = ls'} x xs) refused m =
        let (s1, run, m1, same1) =
          sync_from_transaction-Mirrors P F round L A depth tx ls ls' s x m in
        let (s2, more, m2) = sync_each-Breaks good bad rest ls' ls'' e s1 xs refused m1 in
        (s2, ground (arith, run, more), m2)

    -- The round ends with the error, and the tree mirrors the leaves before the refused transaction.
    pub sync_to_head-Breaks :
        (ls ls' : List Hash) (e : Error P F) (s : SyncState P F) (scanner : BlockScanner)
        → Breaks s.updater.block_scanner scanner ls ls' e
        → Mirrors P F depth ls s
        → (s' : SyncState P F) × (sync_to_head P F round s ≡ (err e, s')) × Mirrors P F depth ls' s'
    sync_to_head-Breaks ls ls' e s scanner b m =
        let (s', run, m') =
          sync_each-Breaks b.good b.bad b.rest ls ls' e (moved P F round s scanner) b.effects
            b.refused (moved-Mirrors P F round depth ls s scanner m) in
        (
          s',
          to_each P F round s scanner b.fetches
              ∙ ap (λ txs. sync_each P F round txs (moved P F round s scanner)) b.split
              ∙ run,
          m',
        )
