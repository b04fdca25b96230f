-- ===== src/Updater/Head.antt =====
-- One call of `sync_to_head`, from the provider's answers to the local tree.
use mathlib.Core.List.{Permᴰ, append-nil, append_assoc}
use world_tree.Prelude.{
  ℕ, ◌<◌, ◌≡◌, refl, sym, ap, ◌∙◌, ◌⊎◌, inr, Option, some, List, [], ◌∷◌, ◌++◌, map, arith, All,
}
use world_tree.Exec.{ok}
use world_tree.Merkle.{Hash, PoseidonTree, IsMerkle}
use world_tree.Chain.{Transaction, Log}
use world_tree.BlockScanner
use world_tree.BlockScanner.{BlockScanner}
use world_tree.BlockMap
use world_tree.BlockMap.{BlockMap}
use world_tree.BlockMap.Sorted.{Above, IsSorted, insert_last}
use world_tree.Foreign.{Foreign}
use world_tree.Rows.{traverse}
use world_tree.Updater.{SyncState, Round, hashes_of, collect, sync_each, sync_to_head}
use world_tree.Updater.Accept.{Accepts}
use world_tree.Updater.Mirror.{Effects, Mirrors, sync_each-Mirrors}
use world_tree.TreeData.Full.{IsFull}
use world_tree.Updater.Full.{NeverRepeated, sync_each-IsFull}
use world_tree.Updater.Order.{IsMined, AllApart, Apart, collect-perm}

module _ (P : PoseidonTree) (F : Foreign) (round : Round F) where
  -- The entries in the order of their blocks, as replies.
  abbrev pub replies_of : BlockMap → List (F.Failure ⊎ Option Transaction)
  replies_of = map (λ e. inr (some e.1))

  abbrev pub AllMined : BlockMap → Type 0
  AllMined = All (λ e. e.1.block_number ≡ some e.0)

  pub replies_of-IsMined : (m : BlockMap) → AllMined m → All (IsMined P F round) (replies_of m)
  replies_of-IsMined [] h = tt
  replies_of-IsMined (e ∷ m) h = ((e.0, h.0), replies_of-IsMined m h.1)

  replies_of-Apart :
      (e : ℕ × Transaction) (m : BlockMap)
      → e.1.block_number ≡ some e.0
      → Above e.0 m
      → AllMined m
      → All (Apart P F round (inr (some e.1))) (replies_of m)
  replies_of-Apart e [] h a k = tt
  replies_of-Apart e (x ∷ m) h a k =
      ((λ p. absurd (ground (arith, p, h, k.0, a.0))), replies_of-Apart e m h a.1 k.1)

  pub replies_of-AllApart :
      (m : BlockMap) → IsSorted m → AllMined m → AllApart P F round (replies_of m)
  replies_of-AllApart [] s h = tt
  replies_of-AllApart (e ∷ m) s h =
      (replies_of-Apart e m h.0 s.0 h.1, replies_of-AllApart m s.1 h.1)

  below_first :
      (acc : BlockMap) (e : ℕ × Transaction) (m : BlockMap)
      → All (λ a. Above a.0 (e ∷ m)) acc
      → All (λ a. a.0 < e.0) acc
  below_first [] e m h = tt
  below_first (a ∷ acc) e m h = (h.0.0, below_first acc e m h.1)

  spread :
      (acc : BlockMap) (e : ℕ × Transaction) (m : BlockMap)
      → All (λ a. Above a.0 (e ∷ m)) acc
      → Above e.0 m
      → All (λ a. Above a.0 m) (acc ++ (e ∷ []))
  spread [] e m h k = (k, tt)
  spread (a ∷ acc) e m h k = (h.0.1, spread acc e m h.1 k)

  pub hashes_of-some :
      (logs : List Log) (hashes : List ℕ)
      → map (λ l. l.transaction_hash) logs ≡ map some hashes
      → hashes_of P F round logs ≡ ok hashes
  unfolding hashes_of traverse
  hashes_of-some [] [] h = refl
  hashes_of-some [] (x ∷ hs) h = cc
  hashes_of-some (l ∷ ls) [] h = cc
  hashes_of-some (l ∷ ls) (x ∷ hs) h =
      let e : l.transaction_hash ≡ some x = cc in
      let rest : map (λ k. k.transaction_hash) ls ≡ map some hs = cc in
      ground (arith, e, hashes_of-some ls hs rest)

  collect-replies_of_from :
      (acc m : BlockMap)
      → All (λ a. Above a.0 m) acc
      → IsSorted m
      → AllMined m
      → collect P F round (replies_of m) acc ≡ ok (acc ++ m)
  unfolding collect
  collect-replies_of_from acc [] b s h = ap ok (sym (append-nil acc))
  collect-replies_of_from acc (e ∷ m) b s h =
      let next : BlockMap = acc ++ (e ∷ []) in
      ground (
        arith,
        h.0,
        insert_last e.0 e.1 acc (below_first acc e m b),
        collect-replies_of_from next m (spread acc e m b s.0) s.1 h.1,
        append_assoc acc (e ∷ []) m,
      )

  pub collect-replies_of :
      (m : BlockMap) → IsSorted m → AllMined m → collect P F round (replies_of m) [] ≡ ok m
  collect-replies_of m = collect-replies_of_from [] m tt

  -- The scanner returns the logs of some transactions, the provider has these, in whatever order they
  -- arrive, and each is in a block of its own.
  pub record Fetches (start scanner : BlockScanner) : Type 0 where
    pub log : Log
    pub logs : List Log
    pub hashes : List ℕ
    pub entries : BlockMap
    pub scanned :
        BlockScanner.next round.scan_fuel round.middleware start ≡ (ok (log ∷ logs), scanner)
    pub asked : map (λ l. l.transaction_hash) (log ∷ logs) ≡ map some hashes
    pub arrived :
        Permᴰ (replies_of entries) (round.arrivals (map round.middleware.get_transaction hashes))
    pub sorted : IsSorted entries
    pub mined : AllMined entries

  -- One round against the contract: it fetches transactions, and they take the contract from leaves
  -- `ls` to `ls'` in the order of their blocks.
  pub record Delivers (depth : ℕ) (start scanner : BlockScanner) (ls ls' : List Hash) : Type 0 where
    pub fetches : Fetches start scanner
    pub open fetches use *
    pub effects : Effects P F round depth (BlockMap.values fetches.entries) ls ls'

  -- With the scanner of the updater moved on.
  abbrev pub moved : SyncState P F → BlockScanner → SyncState P F
  moved s scanner = record s { updater = record s.updater { block_scanner = scanner } }

  -- What is left of `sync_to_head` once the transactions are there and sorted.
  pub to_each :
      (s : SyncState P F) (scanner : BlockScanner) (c : Fetches s.updater.block_scanner scanner)
      → sync_to_head P F round s ≡ sync_each P F round (BlockMap.values c.entries) (moved s scanner)
  unfolding sync_to_head
  to_each s scanner c =
      let collected =
        sym (
          collect-perm P F round (replies_of c.entries) _ c.arrived
            (replies_of-IsMined c.entries c.mined) (replies_of-AllApart c.entries c.sorted c.mined))
        ∙ collect-replies_of c.entries c.sorted c.mined in
      ground (arith, c.scanned, hashes_of-some (c.log ∷ c.logs) c.hashes c.asked, collected)

  pub moved-Mirrors :
      (depth : ℕ) (ls : List Hash) (s : SyncState P F) (scanner : BlockScanner)
      → Mirrors P F depth ls s
      → Mirrors P F depth ls (moved s scanner)
  moved-Mirrors depth ls s scanner m = record {
    live = m.live;
    depth_kept = m.depth_kept;
    leaves = m.leaves;
  }

  -- If a round delivers transactions that take the contract from leaves `ls` to `ls'`, and the
  -- database accepts every statement, then `sync_to_head` succeeds, takes a local tree that mirrors
  -- `ls` to one that mirrors `ls'`, and moves the scanner on.
  pub sync_to_head-Mirrors :
      (L : IsMerkle P) (A : Accepts F) (depth : ℕ) (ls ls' : List Hash) (s : SyncState P F)
      → (scanner : BlockScanner) → Delivers depth s.updater.block_scanner scanner ls ls'
      → Mirrors P F depth ls s
      → (s' : SyncState P F) × (sync_to_head P F round s ≡ (ok tt, s'))
        × Mirrors P F depth ls' s'
        × (s'.updater.block_scanner ≡ scanner)
  sync_to_head-Mirrors L A depth ls ls' s scanner c m =
      let (s2, run, m2, same) =
        sync_each-Mirrors P F round L A depth (BlockMap.values c.entries) ls ls' (moved s scanner)
          c.effects (moved-Mirrors depth ls s scanner m) in
      (s2, to_each s scanner c.fetches ∙ run, m2, ap (λ u. u.block_scanner) same)

  -- If moreover no state of the leaves on the way has an identity twice, and every identity of the
  -- local tree is in the map before, then this holds after a `sync_to_head` that succeeds.
  pub sync_to_head-IsFull :
      (L : IsMerkle P) (A : Accepts F) (depth : ℕ) (ls ls' : List Hash) (s s' : SyncState P F)
      → (scanner : BlockScanner) (c : Delivers depth s.updater.block_scanner scanner ls ls')
      → Mirrors P F depth ls s
      → NeverRepeated P F round c.effects
      → IsFull s.tree_data
      → sync_to_head P F round s ≡ (ok tt, s')
      → IsFull s'.tree_data
  sync_to_head-IsFull L A depth ls ls' s s' scanner c m u f run =
      sync_each-IsFull P F round L A depth (BlockMap.values c.entries) ls ls' (moved s scanner) s'
        c.effects (moved-Mirrors depth ls s scanner m) u f (sym (to_each s scanner c.fetches) ∙ run)
