-- ===== src/Contract.antt =====
-- The contract that the service follows, as the documentation of src/abi.rs's bindings has it: which
-- calls change its tree, what they do to the leaves, and the event that each of them emits.
pub mod Blocks
pub mod Tables
pub mod Passage
pub mod Rounds
pub mod Follow
pub mod Start
pub mod Served
pub mod Partial
pub mod Faults
pub mod Safe
pub mod Faulty
pub mod AnyRound
pub mod Session
pub mod Database
pub mod OldRoots
use mathlib.Core.List.{Permᴰ}
use world_tree.Prelude.{
  ℕ, suc, ◌+◌, ◌≤◌, ◌<◌, ◌≡◌, ◌⊎◌, inr, Option, none, some, List, [], ◌∷◌, ◌++◌, length, take, drop,
}
use world_tree.Merkle.{Hash, PoseidonTree}
use world_tree.Chain.{Log, Transaction}
use world_tree.BlockScanner.{BlockScanner}
use world_tree.BlockScanner.Rounds.{Head}
use world_tree.BlockMap.{BlockMap}
use world_tree.TreeData.Delete.{AllBelow, clear_all}
use world_tree.TreeData.Live.{IsVacant}
use world_tree.Foreign.{Foreign, RegisterIdentitiesCall}
use world_tree.Updater.{Round}
use world_tree.Updater.Padding.{inserted_identities, deleted_indices}
use world_tree.Updater.Calls.{Selects, Deletes, IsKnown}

module _ (F : Foreign) (depth : ℕ) where
  -- What a call does to the leaves of the contract's tree: new identities go to empty leaves, and
  -- deleted leaves become empty.
  pub data Change (tx : Transaction) (ls ls' : List Hash) : Type 0 where
    inserts :
        (call : RegisterIdentitiesCall)
        → Selects tx F.register_selector
        → F.decode_register tx.input ≡ inr call
        → IsVacant call.start_index (inserted_identities call) ls
        → ls'
          ≡ take call.start_index ls
            ++ (inserted_identities call
                ++ drop (call.start_index + length (inserted_identities call)) ls)
        → Change tx ls ls'
    removes :
        (packed proof : List ℕ) (pre_root post_root : ℕ)
        → depth < 32
        → Deletes F tx packed proof pre_root post_root
        → AllBelow (length ls) (deleted_indices depth packed)
        → ls' ≡ clear_all (deleted_indices depth packed) ls
        → Change tx ls ls'

  -- A chain with the contract: in each block at most one transaction changes its tree, by a call
  -- that emits one event, the leaves after each block, and the block's date.
  pub record Contract : Type 0 where
    pub transaction_at : ℕ → Option Transaction
    pub log_of : Transaction → Log
    pub leaves_at : ℕ → List Hash
    pub date_at : ℕ → F.DateTime
    pub hashed : (tx : Transaction) → (log_of tx).transaction_hash ≡ some tx.hash
    pub mined : (n : ℕ) (tx : Transaction) → transaction_at n ≡ some tx → tx.block_number ≡ some n
    pub called :
        (n : ℕ) (tx : Transaction)
        → transaction_at (suc n) ≡ some tx
        → Change tx (leaves_at n) (leaves_at (suc n))
    pub quiet : (n : ℕ) → transaction_at (suc n) ≡ none → leaves_at n ≡ leaves_at (suc n)

  abbrev pub logs_of : (Transaction → Log) → Option Transaction → List Log
  logs_of log none = []
  logs_of log (some tx) = log tx ∷ []

  -- The events of a block.
  abbrev pub logs_at : Contract → ℕ → List Log
  logs_at c n = logs_of c.log_of (c.transaction_at n)

  abbrev pub entries_of : ℕ → Option Transaction → BlockMap
  entries_of n none = []
  entries_of n (some tx) = (n, tx) ∷ []

  abbrev pub entries_at : Contract → ℕ → BlockMap
  entries_at c n = entries_of n (c.transaction_at n)

  -- What the provider and the clock answer in a round, where the chain's head is block `latest`: the
  -- events and the transactions of the chain up to there, and for a block's transaction its date
  -- and the time at which it is handled. The transactions arrive in any order.
  pub record Honest (P : PoseidonTree) (c : Contract) (handled_at : ℕ → ℕ) (scanner : BlockScanner)
      (round : Round F) (latest : ℕ) : Type 0 where
    pub head : Head (logs_at c) scanner round.middleware round.scan_fuel latest
    pub transactions :
        (n : ℕ) (tx : Transaction)
        → n ≤ latest
        → c.transaction_at n ≡ some tx
        → round.middleware.get_transaction tx.hash ≡ inr (some tx)
    pub known :
        (n : ℕ) (tx : Transaction)
        → n ≤ latest
        → c.transaction_at n ≡ some tx
        → (k : IsKnown P F round tx) × (k.ts ≡ handled_at n) × (k.at ≡ c.date_at n)
    pub arrives : (rs : List (F.Failure ⊎ Option Transaction)) → Permᴰ rs (round.arrivals rs)
