-- ===== src/Chain.antt =====
-- What the sources take from the ethers crate: the data that a provider answers with, and the
-- provider (`M: Middleware`), which is a parameter everywhere.
use world_tree.Prelude.{ℕ, ◌⊎◌, Option, none, some, List}

-- A filter as the sources build it: `Filter::new().address(_).topic0(_)`, and then a block range.
pub record Filter : Type 0 where
  pub address : ℕ
  pub topic0 : ℕ
  pub from_block : Option ℕ
  pub to_block : Option ℕ

abbrev pub filter_for : ℕ → ℕ → Filter
filter_for address topic0 = record {
  address = address;
  topic0 = topic0;
  from_block = none;
  to_block = none;
}

abbrev pub with_range : Filter → ℕ → ℕ → Filter
with_range f from_block to_block = record f {
  from_block = some from_block;
  to_block = some to_block;
}

-- The fields that are read; `payload` is the field `data`.
pub record Log : Type 0 where
  pub transaction_hash : Option ℕ
  pub topics : List ℕ
  pub payload : List ℕ

pub record Transaction : Type 0 where
  pub hash : ℕ
  pub block_number : Option ℕ
  pub input : List ℕ

pub record Block : Type 0 where
  pub timestamp : ℕ

-- The answers of the provider during one round, an error `X` or a value.
pub record Middleware (X : Type 0) : Type 0 where
  pub get_block_number : X ⊎ ℕ
  pub get_logs : Filter → X ⊎ List Log
  pub get_transaction : ℕ → X ⊎ Option Transaction
  pub get_block : ℕ → X ⊎ Option Block
