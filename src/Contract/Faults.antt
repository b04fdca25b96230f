-- ===== src/Contract/Faults.antt =====
-- Rounds in which anything may fail: a provider that answers truthfully or not at all, any clock, and
-- any database.
use mathlib.Core.List.{Permᴰ}
use mathlib.Core.List.Permᴰ as Perms
use mathlib.Core.Path.{subst}
use world_tree.Prelude.{
  ℕ, zero, suc, ◌+◌, ◌≤◌, ◌≡◌, refl, sym, ap₂, ◌∙◌, ◌⊎◌, inl, inr, Option, Option-cases, none, some,
  List, [], ◌∷◌, ◌++◌, map, arith, All,
}
use world_tree.Exec.{Outcome, ok}
use world_tree.Merkle.{PoseidonTree}
use world_tree.Chain.{Transaction}
use world_tree.BlockScanner.{BlockScanner}
use world_tree.BlockScanner.Complete.{span}
use world_tree.BlockScanner.Partial.{OrFails, Truthful}
use world_tree.BlockMap
use world_tree.BlockMap.{BlockMap}
use world_tree.Foreign.{Foreign}
use world_tree.Updater.{Round, Error, collect}
use world_tree.Updater.Order.{Reply, IsMined, All-perm, collect-perm}
use world_tree.Updater.Head.{
  replies_of, replies_of-IsMined, replies_of-AllApart, collect-replies_of,
}
use world_tree.Contract.{Contract, logs_at, entries_of}
use world_tree.Contract.Blocks.{entries, hashes, entries-IsSorted, entries-AllMined}

module _ (P : PoseidonTree) (F : Foreign) (depth : ℕ) (c : Contract F depth) (round : Round F) where
  -- Where the chain's head is block `latest`: each answer is the chain's or an error, or, for a
  -- transaction, that there is none. The transactions arrive in any order.
  pub record Truthfully (scanner : BlockScanner) (latest : ℕ) : Type 0 where
    pub scans : Truthful (logs_at F depth c) scanner round.middleware latest
    pub transactions :
        (n : ℕ) (tx : Transaction)
        → n ≤ latest
        → c.transaction_at n ≡ some tx
        → OrFails (round.middleware.get_transaction tx.hash) (some tx)
          ⊎ (round.middleware.get_transaction tx.hash ≡ inr none)
    pub arrives : (rs : List (F.Failure ⊎ Option Transaction)) → Permᴰ rs (round.arrivals rs)

  collect-ok :
      (rs : List (Reply P F round)) (m m' : BlockMap)
      → collect P F round rs m ≡ ok m'
      → All (IsMined P F round) rs
  unfolding collect
  collect-ok [] m m' h = tt
  collect-ok (inl x ∷ rs) m m' h = cc
  collect-ok (inr none ∷ rs) m m' h = cc
  collect-ok (inr (some tx) ∷ rs) m m' h = elim (Option-cases tx.block_number) [
    | inl e ↦ absurd (ground (arith, e, h))
    | inr (n, e) ↦ ((n, e), collect-ok rs (BlockMap.insert n tx m) m' (ground (arith, e, h)))
  ]

  Mined_reply :
      (tx : Transaction) (r : Reply P F round)
      → OrFails r (some tx) ⊎ (r ≡ inr none)
      → IsMined P F round r
      → r ≡ inr (some tx)
  Mined_reply tx r (inl (inl e)) i = e
  Mined_reply tx r (inl (inr (x, e))) i = absurd (subst (IsMined P F round) e i)
  Mined_reply tx r (inr e) i = absurd (subst (IsMined P F round) e i)

  entries_of-found :
      (n : ℕ) (o : Option Transaction) (m : BlockMap)
      → ((tx : Transaction)
          → o ≡ some tx
          → OrFails (round.middleware.get_transaction tx.hash) (some tx)
            ⊎ (round.middleware.get_transaction tx.hash ≡ inr none))
      → (All (IsMined P F round) (map round.middleware.get_transaction (hashes F depth c m))
          → map round.middleware.get_transaction (hashes F depth c m) ≡ replies_of P F round m)
      → All
          (IsMined P F round)
          (map round.middleware.get_transaction (hashes F depth c (entries_of F depth n o ++ m)))
      → map round.middleware.get_transaction (hashes F depth c (entries_of F depth n o ++ m))
        ≡ replies_of P F round (entries_of F depth n o ++ m)
  entries_of-found n none m t rest a = rest a
  entries_of-found n (some tx) m t rest a = ap₂ ◌∷◌ (Mined_reply tx _ (t tx refl) a.0) (rest a.1)

  -- If every reply has a transaction, they are the contract's.
  entries-found :
      (a k latest : ℕ) (scanner : BlockScanner)
      → a + k ≤ latest + 1
      → Truthfully scanner latest
      → All
          (IsMined P F round)
          (map round.middleware.get_transaction (hashes F depth c (entries F depth c a k)))
      → map round.middleware.get_transaction (hashes F depth c (entries F depth c a k))
        ≡ replies_of P F round (entries F depth c a k)
  unfolding span
  entries-found a zero latest scanner l t h = refl
  entries-found a (suc k) latest scanner l t h =
      entries_of-found a (c.transaction_at a) _ (λ tx e. t.transactions a tx (omega (arith, l)) e)
        (λ i. entries-found (suc a) k latest scanner (omega (arith, l)) t i) h

  -- If the transactions can be collected at all, they are the contract's, in order.
  pub collect-found :
      (a k latest : ℕ) (scanner : BlockScanner) (m : BlockMap)
      → a + k ≤ latest + 1
      → Truthfully scanner latest
      → collect P F round
          (round.arrivals
            (map round.middleware.get_transaction (hashes F depth c (entries F depth c a k))))
          []
        ≡ ok m
      → m ≡ entries F depth c a k
  collect-found a k latest scanner m l t h =
      let es : BlockMap = entries F depth c a k in
      let asked = map round.middleware.get_transaction (hashes F depth c es) in
      let mined =
        All-perm P F round (IsMined P F round) (Perms.symm (t.arrives asked))
          (collect-ok _ [] m h) in
      let same = entries-found a k latest scanner l t mined in
      let arrived : Permᴰ (replies_of P F round es) (round.arrivals asked) =
        subst (λ rs. Permᴰ rs (round.arrivals asked)) same (t.arrives asked) in
      let collected =
        sym (
          collect-perm P F round (replies_of P F round es) _ arrived
            (replies_of-IsMined P F round es (entries-AllMined F depth c P round a k))
            (replies_of-AllApart P F round es (entries-IsSorted F depth c a k)
              (entries-AllMined F depth c P round a k)))
        ∙ collect-replies_of P F round es (entries-IsSorted F depth c a k)
            (entries-AllMined F depth c P round a k) in
      ok_inj (sym h ∙ collected)
    where
      ok_inj : {a b : BlockMap} → ◌≡◌ {A = Outcome (Error P F) BlockMap} (ok a) (ok b) → a ≡ b
      ok_inj e = cc
