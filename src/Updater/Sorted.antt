-- ===== src/Updater/Sorted.antt =====
-- What `sync_to_head` keeps of the transactions that arrive: of each block the last one.
use world_tree.Prelude.{
  ℕ, ◌≡◌, refl, ◌∙◌, inl, inr, Option, none, some, List, [], ◌∷◌, ◌++◌, ◌==◌, arith, All,
  if◌then◌else◌,
}
use world_tree.Exec.{ok, err}
use world_tree.Merkle.{PoseidonTree}
use world_tree.Chain.{Transaction}
use world_tree.BlockMap
use world_tree.BlockMap.{BlockMap}
use world_tree.BlockMap.Sorted.{IsSorted}
use world_tree.Error.{middleware_error, transaction_not_found, block_number_not_found}
use world_tree.Foreign.{Foreign}
use world_tree.Updater.{Round, Error, collect}
use world_tree.Updater.Order.{Reply, IsMined, collect-IsSorted}

-- The transaction that the map has for a block.
unfoldable pub get : ℕ → BlockMap → Option Transaction
get b [] = none
get b ((k, v) ∷ m) = if k == b then some v else get b m

get-insert :
    (b k : ℕ) (v : Transaction) (m : BlockMap)
    → get b (BlockMap.insert k v m) ≡ (if k == b then some v else get b m)
unfolding get BlockMap.insert
get-insert b k v [] = refl
get-insert b k v ((j, w) ∷ m) = ground (arith, get-insert b k v m)

abbrev or_else : Option Transaction → Option Transaction → Option Transaction
or_else (some tx) o = some tx
or_else none o = o

abbrev in_block : ℕ → Option ℕ → Transaction → Option Transaction
in_block b none tx = none
in_block b (some n) tx = if n == b then some tx else none

module _ (P : PoseidonTree) (F : Foreign) (round : Round F) where
  -- The last transaction of the block among the replies.
  unfoldable pub last_of : ℕ → List (Reply P F round) → Option Transaction
  last_of b [] = none
  last_of b (inr (some tx) ∷ rs) = or_else (last_of b rs) (in_block b tx.block_number tx)
  last_of b (_ ∷ rs) = last_of b rs

  -- A reply that ends the loop, with its error.
  pub data Refused : Reply P F round → Error P F → Type 0 where
    failed : (x : F.Failure) → Refused (inl x) (middleware_error x)
    not_found : Refused (inr none) transaction_not_found
    not_mined :
        (tx : Transaction) → tx.block_number ≡ none → Refused (inr (some tx)) block_number_not_found

  collect-last_from :
      (rs : List (Reply P F round)) (m : BlockMap)
      → All (IsMined P F round) rs
      → (m' : BlockMap) × (collect P F round rs m ≡ ok m')
        × ((b : ℕ) → get b m' ≡ or_else (last_of b rs) (get b m))
  unfolding collect last_of
  collect-last_from [] m h = (m, refl, λ b. refl)
  collect-last_from (inl x ∷ rs) m h = absurd h.0
  collect-last_from (inr none ∷ rs) m h = absurd h.0
  collect-last_from (inr (some tx) ∷ rs) m h =
      let (n, e) = h.0 in
      let (m', run, found) = collect-last_from rs (BlockMap.insert n tx m) h.1 in
      (m', ground (arith, e, run), λ b. found b ∙ later b n m (last_of b rs) e)
    where
      later :
          (b n : ℕ) (m : BlockMap) (o : Option Transaction)
          → tx.block_number ≡ some n
          → or_else o (get b (BlockMap.insert n tx m))
            ≡ or_else (or_else o (in_block b tx.block_number tx)) (get b m)
      later b n m none e = ground (arith, e, get-insert b n tx m)
      later b n m (some x) e = refl

  collect-Refused :
      (rs : List (Reply P F round)) (bad : Reply P F round) (rest : List (Reply P F round))
      (e : Error P F) (m : BlockMap)
      → All (IsMined P F round) rs
      → Refused bad e
      → collect P F round (rs ++ (bad ∷ rest)) m ≡ err e
  unfolding collect
  collect-Refused [] bad rest e m h (failed x) = refl
  collect-Refused [] bad rest e m h not_found = refl
  collect-Refused [] bad rest e m h (not_mined tx n) = ground (arith, n)
  collect-Refused (inl x ∷ rs) bad rest e m h r = absurd h.0
  collect-Refused (inr none ∷ rs) bad rest e m h r = absurd h.0
  collect-Refused (inr (some tx) ∷ rs) bad rest e m h r =
      ground (arith, h.0.1, collect-Refused rs bad rest e (BlockMap.insert h.0.0 tx m) h.1 r)

  -- From replies that all have a mined transaction, `collect` makes a map in the strict order of the
  -- blocks, which has for each block the last of the block's transactions among the replies, and for
  -- a block without one nothing: an earlier one of the same block is lost. If another reply follows
  -- these, which is an error of the provider, no transaction, or one that is not mined, the result is
  -- the error for that reply, whatever comes after it.
  pub collect_lem :
      (rs : List (Reply P F round))
      → All (IsMined P F round) rs
      → ((m : BlockMap) × (collect P F round rs [] ≡ ok m)
          × IsSorted m
          × ((b : ℕ) → get b m ≡ last_of b rs))
        × ((bad : Reply P F round) (rest : List (Reply P F round)) (e : Error P F)
            → Refused bad e
            → collect P F round (rs ++ (bad ∷ rest)) [] ≡ err e)
  unfolding get
  collect_lem rs h =
      let (m, run, found) = collect-last_from rs [] h in
      (
        (m, run, collect-IsSorted P F round rs m run, λ b. found b ∙ or_else-none (last_of b rs)),
        λ bad rest e r. collect-Refused rs bad rest e [] h r,
      )
    where
      or_else-none : (o : Option Transaction) → or_else o none ≡ o
      or_else-none none = refl
      or_else-none (some x) = refl
