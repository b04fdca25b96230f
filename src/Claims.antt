-- ===== src/Claims.antt =====
-- src/claims/mod.rs: the updater that prints the claims of an airdrop.
pub mod Printed
pub mod Task
use world_tree.Prelude.{
  ℕ, suc, zero, ◌⊎◌, inl, inr, Option, none, some, List, [], ◌∷◌, ◌++◌, get_elem?,
}
use world_tree.Exec.{Outcome, ok, err, panic, out_of_fuel, Exec, expect, pure, lift, ◌>>=◌, ◌>>◌}
use world_tree.Chain.{filter_for, Log, Middleware}
use world_tree.BlockScanner
use world_tree.BlockScanner.{BlockScanner}

-- src/tree/error.rs
pub data GrantClaimedError (X : Type 0) : Type 0 where
  missing_transaction : GrantClaimedError X
  unrecognized_transaction : GrantClaimedError X
  transaction_hash_not_found : GrantClaimedError X
  block_number_not_found : GrantClaimedError X
  transaction_not_found : GrantClaimedError X
  unrecognized_function_selector : GrantClaimedError X
  middleware_error : X → GrantClaimedError X
  provider_error : X → GrantClaimedError X
  contract_error : X → GrantClaimedError X
  abi_codec_error : X → GrantClaimedError X
  eth_abi_error : X → GrantClaimedError X
  hyper_error : X → GrantClaimedError X
  send_log_error : X → GrantClaimedError X

pub record ClaimUpdater : Type 0 where
  pub address : ℕ
  pub latest_synced_block : ℕ
  pub block_scanner : BlockScanner

-- `transfer_signature` is the signature of the event `Transfer`, which `abigen!` computes.
unfoldable pub new : ℕ → ℕ → ℕ → ℕ → ClaimUpdater
new transfer_signature address creation_block window_size = record {
  address = address;
  latest_synced_block = creation_block;
  block_scanner =
      BlockScanner.new window_size creation_block (filter_for address transfer_signature);
}

-- The updater, and the lines printed so far: an amount and a receiver.
pub record ClaimState : Type 0 where
  pub updater : ClaimUpdater
  pub printed : List (ℕ × ℕ)

-- The amount and the receiver of a log, `topics[1]`; `none` is a panic. `decode_u256` is
-- `U256::decode`, and `none` is an error.
unfoldable pub claim_of : (List ℕ → Option ℕ) → Log → Option (ℕ × ℕ)
claim_of decode_u256 log = elim (decode_u256 log.payload) [
  | none ↦ none
  | some amount ↦ elim (get_elem? log.topics 1) [
    | none ↦ none
    | some receiver ↦ some (amount, receiver)
  ]
]

module _ (X : Type 0) (decode_u256 : List ℕ → Option ℕ) where
  abbrev pub Claim : Type 0 → Type 0
  Claim = Exec (GrantClaimedError X) ClaimState

  abbrev pub map_outcome : {A : Type 0} → Outcome X A → Outcome (GrantClaimedError X) A
  map_outcome (ok a) = ok a
  map_outcome (err x) = err (middleware_error x)
  map_outcome panic = panic
  map_outcome out_of_fuel = out_of_fuel

  unfoldable pub print_each : List Log → Claim (Unit {0})
  unfolding claim_of
  print_each [] s = (ok tt, s)
  print_each (log ∷ logs) s = elim (claim_of decode_u256 log) [
    | none ↦ (panic, s)
    | some line ↦ print_each logs (record s { printed = s.printed ++ (line ∷ []) })
  ]

  unfoldable pub next_logs : ℕ → Middleware X → Claim (List Log)
  next_logs fuel m s =
      let (r, scanner) = BlockScanner.next fuel m s.updater.block_scanner in
      (map_outcome r, record s { updater = record s.updater { block_scanner = scanner } })

  unfoldable pub sync_to_head : ℕ → Middleware X → Claim (Unit {0})
  unfolding next_logs print_each
  sync_to_head fuel m = do logs ← next_logs fuel m; print_each logs
