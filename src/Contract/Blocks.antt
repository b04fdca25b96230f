-- ===== src/Contract/Blocks.antt =====
-- The transactions of a range of blocks, in the order of the blocks.
use world_tree.Prelude.{
  ℕ, zero, suc, ◌+◌, ◌≤◌, ◌<◌, ◌≡◌, refl, ap₂, inr, Option, none, some, List, ◌∷◌, ◌++◌, map, arith,
}
use world_tree.Merkle.{PoseidonTree}
use world_tree.Chain.{Log, Transaction}
use world_tree.BlockScanner.Complete.{span}
use world_tree.BlockMap.{BlockMap}
use world_tree.BlockMap.Sorted.{Above, IsSorted}
use world_tree.Foreign.{Foreign}
use world_tree.Updater.{Round}
use world_tree.Updater.Head.{replies_of, AllMined}
use world_tree.Contract.{Contract, logs_of, logs_at, entries_of, entries_at}

module _ (F : Foreign) (depth : ℕ) (c : Contract F depth) where
  -- The entries of the `count` blocks from `start` on.
  abbrev pub entries : ℕ → ℕ → BlockMap
  entries start count = span (entries_at F depth c) start count

  abbrev pub hashes : BlockMap → List ℕ
  hashes = map (λ e. e.1.hash)

  asked_more :
      (n : ℕ) (o : Option Transaction) (ls : List Log) (m : BlockMap)
      → map (λ l. l.transaction_hash) ls ≡ map some (hashes m)
      → map (λ l. l.transaction_hash) (logs_of F depth c.log_of o ++ ls)
        ≡ map some (hashes (entries_of F depth n o ++ m))
  asked_more n none ls m h = h
  asked_more n (some tx) ls m h = ap₂ ◌∷◌ (c.hashed tx) h

  -- The events of the blocks name the transactions.
  pub entries-asked :
      (a k : ℕ)
      → map (λ l. l.transaction_hash) (span (logs_at F depth c) a k)
        ≡ map some (hashes (entries a k))
  unfolding span
  entries-asked a zero = refl
  entries-asked a (suc k) = asked_more a (c.transaction_at a) _ _ (entries-asked (suc a) k)

  entries_of-Above :
      (b n : ℕ) (o : Option Transaction) (m : BlockMap)
      → b < n
      → Above b m
      → Above b (entries_of F depth n o ++ m)
  entries_of-Above b n none m l h = h
  entries_of-Above b n (some tx) m l h = (l, h)

  entries-Above : (b a k : ℕ) → b < a → Above b (entries a k)
  unfolding span
  entries-Above b a zero l = tt
  entries-Above b a (suc k) l =
      entries_of-Above b a (c.transaction_at a) _ l (entries-Above b (suc a) k (omega (arith, l)))

  entries_of-IsSorted :
      (n : ℕ) (o : Option Transaction) (m : BlockMap)
      → Above n m
      → IsSorted m
      → IsSorted (entries_of F depth n o ++ m)
  entries_of-IsSorted n none m a h = h
  entries_of-IsSorted n (some tx) m a h = (a, h)

  pub entries-IsSorted : (a k : ℕ) → IsSorted (entries a k)
  unfolding span
  entries-IsSorted a zero = tt
  entries-IsSorted a (suc k) =
      entries_of-IsSorted a (c.transaction_at a) _ (entries-Above a (suc a) k (omega arith))
        (entries-IsSorted (suc a) k)

  module _ (P : PoseidonTree) (round : Round F) where
    entries_of-AllMined :
        (n : ℕ) (o : Option Transaction) (m : BlockMap)
        → c.transaction_at n ≡ o
        → AllMined P F round m
        → AllMined P F round (entries_of F depth n o ++ m)
    entries_of-AllMined n none m e h = h
    entries_of-AllMined n (some tx) m e h = (c.mined n tx e, h)

    pub entries-AllMined : (a k : ℕ) → AllMined P F round (entries a k)
    unfolding span
    entries-AllMined a zero = tt
    entries-AllMined a (suc k) =
        entries_of-AllMined a (c.transaction_at a) _ refl (entries-AllMined (suc a) k)

    -- What the provider has to answer for the transactions up to a block.
    abbrev pub Finds : ℕ → Type 0
    Finds latest =
        (n : ℕ) (tx : Transaction)
        → n ≤ latest
        → c.transaction_at n ≡ some tx
        → round.middleware.get_transaction tx.hash ≡ inr (some tx)

    replies_more :
        (n : ℕ) (o : Option Transaction) (m : BlockMap)
        → ((tx : Transaction)
            → o ≡ some tx
            → round.middleware.get_transaction tx.hash ≡ inr (some tx))
        → map round.middleware.get_transaction (hashes m) ≡ replies_of P F round m
        → map round.middleware.get_transaction (hashes (entries_of F depth n o ++ m))
          ≡ replies_of P F round (entries_of F depth n o ++ m)
    replies_more n none m f h = h
    replies_more n (some tx) m f h = ap₂ ◌∷◌ (f tx refl) h

    -- The provider replies with the transactions.
    pub entries-replies :
        (a k latest : ℕ)
        → a + k ≤ latest + 1
        → Finds latest
        → map round.middleware.get_transaction (hashes (entries a k))
          ≡ replies_of P F round (entries a k)
    unfolding span
    entries-replies a zero latest l f = refl
    entries-replies a (suc k) latest l f =
        replies_more a (c.transaction_at a) _ (λ tx e. f a tx (omega (arith, l)) e)
          (entries-replies (suc a) k latest (omega (arith, l)) f)
