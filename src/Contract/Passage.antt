-- ===== src/Contract/Passage.antt =====
-- From block to block: the effects of the transactions of a range, with the contract's leaves before
-- each of them and the times at which they are handled.
use mathlib.Core.Path.{subst}
use world_tree.Prelude.{
  ℕ, zero, suc, ◌+◌, ◌≤◌, ◌<◌, ◌≡◌, refl, sym, ap, ap₂, ◌∙◌, Option, none, some, List, [], ◌∷◌,
  ◌++◌, map, arith, some_inj, All,
}
use world_tree.Merkle.{Hash, PoseidonTree}
use world_tree.Chain.{Transaction}
use world_tree.BlockScanner.Complete.{span}
use world_tree.BlockMap
use world_tree.BlockMap.{BlockMap}
use world_tree.Foreign.{Foreign}
use world_tree.TreeData.Full.{Unrepeated}
use world_tree.Updater.{Round}
use world_tree.Updater.Calls.{IsKnown}
use world_tree.Updater.Mirror.{Effect, registers, deletes, Effects, none_left, first}
use world_tree.Updater.Full.{NeverRepeated}
use world_tree.Updater.Traced.{AllMoveOn, MovesOn, time_of, time_after, seen_after}
use world_tree.Contract.{Change, inserts, removes, Contract, entries_of}
use world_tree.Contract.Blocks.{entries}
use world_tree.Updater.Written.{statements_of, all_statements}
use world_tree.Contract.Tables.{
  call_statements, change_statements, change_statements_lem, statements_at, tables,
}

-- Later blocks are handled at later times.
abbrev pub Increasing : (ℕ → ℕ) → Type 0
Increasing handled_at = (a b : ℕ) → a < b → handled_at a < handled_at b

-- The time `t` is before those of the blocks behind `n`.
abbrev pub Before : (ℕ → ℕ) → ℕ → ℕ → Type 0
Before handled_at t n = (m : ℕ) → n < m → t < handled_at m

module _ (F : Foreign) (depth : ℕ) (c : Contract F depth) where
  abbrev stack : Option Transaction → List Hash → List (List Hash) → List (List Hash)
  stack none ls seen = seen
  stack (some tx) ls seen = ls ∷ seen

  -- The leaves before each transaction of the `count` blocks behind `n`, on top of those before.
  unfoldable pub states : ℕ → ℕ → List (List Hash) → List (List Hash)
  states n zero seen = seen
  states n (suc count) seen =
      states (suc n) count (stack (c.transaction_at (suc n)) (c.leaves_at n) seen)

  pub states-join :
      (n k j : ℕ) (seen : List (List Hash))
      → states (n + k) j (states n k seen) ≡ states n (k + j) seen
  unfolding states
  states-join n zero j seen =
      let e : n + 0 ≡ n = omega arith in let f : 0 + j ≡ j = omega arith in rw (e, f) refl
  states-join n (suc k) j seen =
      let e : n + suc k ≡ suc n + k = omega arith in
      let f : suc k + j ≡ suc (k + j) = omega arith in
      rw (e, f) (states-join (suc n) k j (stack (c.transaction_at (suc n)) (c.leaves_at n) seen))

  stack-Unrepeated :
      (o : Option Transaction) (ls : List Hash) (seen : List (List Hash))
      → Unrepeated ls
      → All Unrepeated seen
      → All Unrepeated (stack o ls seen)
  stack-Unrepeated none ls seen u a = a
  stack-Unrepeated (some tx) ls seen u a = (u, a)

  pub states-Unrepeated :
      (n k : ℕ) (seen : List (List Hash))
      → ((i : ℕ) → Unrepeated (c.leaves_at i))
      → All Unrepeated seen
      → All Unrepeated (states n k seen)
  unfolding states
  states-Unrepeated n zero seen u a = a
  states-Unrepeated n (suc k) seen u a =
      states-Unrepeated (suc n) k _ u
        (stack-Unrepeated (c.transaction_at (suc n)) (c.leaves_at n) seen (u n) a)

  module _ (P : PoseidonTree) (round : Round F) (handled_at : ℕ → ℕ) where
    -- Transactions that lead from leaves `ls` after block `n` to leaves `ls'`, `count` blocks later.
    pub record Passage (n count : ℕ) (txs : List Transaction) (ls ls' : List Hash) : Type 0 where
      pub effects : Effects P F round depth txs ls ls'
      pub unrepeated : NeverRepeated P F round effects
      pub on_time :
          Increasing handled_at
          → (t : ℕ) → Before handled_at t n
          → AllMoveOn P F round effects t
            × Before handled_at (time_after P F round effects t) (n + count)
      pub seen :
          (t : ℕ) (before : List (List Hash × ℕ))
          → map (λ s. s.0) (seen_after P F round effects t before)
            ≡ states n count (map (λ s. s.0) before)
      pub written : all_statements P F round effects ≡ tables P F depth c n count

    Change-Effect :
        {tx : Transaction} {ls ls' : List Hash} (x : Change F depth tx ls ls')
        → (k : IsKnown P F round tx)
        → (e : Effect P F round depth tx ls ls') × (time_of P F round e ≡ k.ts)
          × ((t : ℕ) → t < k.ts → MovesOn P F round e t)
          × (statements_of P F round e ≡ change_statements P F depth tx k.number k.at ls x)
    Change-Effect (inserts call s d v e) k = (
      registers call (record { known = k; selected = s; decoded = d }) v e,
      refl,
      (λ t h. h),
      refl,
    )
    Change-Effect (removes packed proof pre post shallow d b e) k =
        (deletes packed proof pre post k shallow d b e, refl, (λ t h. omega (arith, h)), refl)

    Passage-nothing : (n : ℕ) (ls : List Hash) → Passage n 0 [] ls ls
    unfolding states tables
    Passage-nothing n ls = record {
      effects = none_left;
      unrepeated = tt;
      on_time = λ mono t b. (tt, λ m h. b m (omega (arith, h)));
      seen = λ t before. refl;
      written = refl;
    }

    Passage-quiet :
        (n count : ℕ) (txs : List Transaction) (ls : List Hash)
        → c.transaction_at (suc n) ≡ none
        → Passage (suc n) count txs (c.leaves_at (suc n)) ls
        → Passage n (suc count) txs (c.leaves_at n) ls
    unfolding states tables
    Passage-quiet n count txs ls e p =
        subst (λ l. Passage n (suc count) txs l ls) (sym (c.quiet n e))
          (record {
            effects = p.effects;
            unrepeated = p.unrepeated;
            on_time = λ mono t b.
                let (moves, later) = p.on_time mono t (λ m h. b m (omega (arith, h))) in
                (moves, λ m h. later m (omega (arith, h)));
            seen = λ t before.
                p.seen t before
                ∙ ap (λ o. states (suc n) count (stack o (c.leaves_at n) (map (λ s. s.0) before)))
                    (sym e);
            written =
                p.written
                ∙ ap (λ o. statements_at P F depth c n o ++ tables P F depth c (suc n) count)
                    (sym e);
          })

    -- The number and the date of the block are the contract's.
    sent_at :
        (n : ℕ) (tx : Transaction) (e : c.transaction_at (suc n) ≡ some tx)
        (k : IsKnown P F round tx)
        → k.at ≡ c.date_at (suc n)
        → change_statements P F depth tx k.number k.at (c.leaves_at n) (c.called n tx e)
          ≡ call_statements P F depth tx (suc n) (c.date_at (suc n)) (c.leaves_at n)
    sent_at n tx e k dated =
        let number : k.number ≡ suc n = some_inj (sym k.mined ∙ c.mined (suc n) tx e) in
        change_statements_lem P F depth tx k.number k.at (c.leaves_at n) (c.called n tx e)
        ∙ ap₂ (λ m at. call_statements P F depth tx m at (c.leaves_at n)) number dated

    Passage-called :
        (n count : ℕ) (tx : Transaction) (txs : List Transaction) (ls : List Hash)
        → Unrepeated (c.leaves_at n)
        → c.transaction_at (suc n) ≡ some tx
        → (k : IsKnown P F round tx) → k.ts ≡ handled_at (suc n)
        → k.at ≡ c.date_at (suc n)
        → Passage (suc n) count txs (c.leaves_at (suc n)) ls
        → Passage n (suc count) (tx ∷ txs) (c.leaves_at n) ls
    unfolding states tables
    Passage-called n count tx txs ls u e k at dated p =
        let (x, same, moves, sent) = Change-Effect (c.called n tx e) k in
        record {
          effects = first x p.effects;
          unrepeated = (u, p.unrepeated);
          on_time = λ mono t b.
              let now : t < handled_at (suc n) = b (suc n) (omega arith) in
              let (rest, later) =
                p.on_time mono (time_of P F round x)
                  (λ m h. omega (arith, same, at, mono (suc n) m h)) in
              ((moves t (omega (arith, at, now)), rest), λ m h. later m (omega (arith, h)));
          seen = λ t before.
              p.seen (time_of P F round x) ((c.leaves_at n, t) ∷ before)
              ∙ ap (λ o. states (suc n) count (stack o (c.leaves_at n) (map (λ s. s.0) before)))
                  (sym e);
          written =
              ap₂ ◌++◌ (sent ∙ sent_at n tx e k dated) p.written
              ∙ ap (λ o. statements_at P F depth c n o ++ tables P F depth c (suc n) count) (sym e);
        }

    entries_of-Passage :
        (n count : ℕ) (o : Option Transaction) (m : BlockMap) (ls : List Hash)
        → Unrepeated (c.leaves_at n)
        → c.transaction_at (suc n) ≡ o
        → ((tx : Transaction)
            → o ≡ some tx
            → (k : IsKnown P F round tx) × (k.ts ≡ handled_at (suc n)) × (k.at ≡ c.date_at (suc n)))
        → Passage (suc n) count (BlockMap.values m) (c.leaves_at (suc n)) ls
        → Passage n
            (suc count)
            (BlockMap.values (entries_of F depth (suc n) o ++ m))
            (c.leaves_at n)
            ls
    unfolding BlockMap.values
    entries_of-Passage n count none m ls u e k p = Passage-quiet n count _ ls e p
    entries_of-Passage n count (some tx) m ls u e k p =
        let (known, at, dated) = k tx refl in Passage-called n count tx _ ls u e known at dated p

    -- The transactions of the `count` blocks behind `n` take the contract from its leaves after `n` to
    -- those after the last of these.
    pub entries-Passage :
        (n count last : ℕ)
        → n + count ≡ last
        → ((i : ℕ) → Unrepeated (c.leaves_at i))
        → ((i : ℕ) (tx : Transaction)
            → i ≤ last
            → c.transaction_at i ≡ some tx
            → (k : IsKnown P F round tx) × (k.ts ≡ handled_at i) × (k.at ≡ c.date_at i))
        → Passage n count
            (BlockMap.values (entries F depth c (suc n) count))
            (c.leaves_at n)
            (c.leaves_at last)
    unfolding span BlockMap.values
    entries-Passage n zero last e u k =
        let same : n ≡ last = omega (arith, e) in
        subst (λ i. Passage n 0 [] (c.leaves_at n) (c.leaves_at i)) same
          (Passage-nothing n (c.leaves_at n))
    entries-Passage n (suc j) last e u k =
        entries_of-Passage n j (c.transaction_at (suc n)) _ _ (u n) refl
          (λ tx h. k (suc n) tx (omega (arith, e)) h)
          (entries-Passage (suc n) j last (omega (arith, e)) u k)
