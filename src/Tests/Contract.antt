-- ===== src/Tests/Contract.antt =====
-- A contract with two transactions, a provider that answers for it, and a database that counts rows.
use world_tree.Prelude.{
  ℕ, zero, suc, ◌+◌, ◌-◌, ◌≤◌, ◌≡◌, leb, arith, refl, ◌⊎◌, inl, inr, Option, none, some, List, [],
  ◌∷◌, length, ◌==◌, if◌then◌else◌,
}
use world_tree.Prelude.Int.{ℤ}
use world_tree.Chain.{Log, Transaction, Middleware, Filter}
use world_tree.BlockScanner.Complete.{span}
use world_tree.Foreign.{
  Foreign, RegisterIdentitiesCall, DeleteIdentitiesCall, DeleteIdentitiesWithBatchSizeCall,
}
use world_tree.Updater.{Round}
use world_tree.Updater.Accept.{Accepts}

-- After the four bytes of the selector the words of a call stand as they are.
abbrev pub decode_register : List ℕ → ℕ ⊎ RegisterIdentitiesCall
decode_register (a ∷ b ∷ c ∷ d ∷ start ∷ ids) = inr (record {
  insertion_proof = [];
  pre_root = 0;
  start_index = start;
  identity_commitments = ids;
  post_root = 0;
})
decode_register _ = inl 1

abbrev pub decode_delete : List ℕ → ℕ ⊎ DeleteIdentitiesCall
decode_delete (a ∷ b ∷ c ∷ d ∷ packed) =
    inr (record {
      deletion_proof = [];
      packed_deletion_indices = packed;
      pre_root = 0;
      post_root = 0;
    })
decode_delete _ = inl 2

abbrev pub decode_delete_with_batch_size : List ℕ → ℕ ⊎ DeleteIdentitiesWithBatchSizeCall
decode_delete_with_batch_size (a ∷ b ∷ c ∷ d ∷ size ∷ packed) = inr (record {
  deletion_proof = [];
  batch_size = size;
  packed_deletion_indices = packed;
  pre_root = 0;
  post_root = 0;
})
decode_delete_with_batch_size _ = inl 3

abbrev pub crates : Foreign
crates = record {
  Failure = ℕ;
  Text = ℕ;
  DateTime = ℤ;
  Db = ℕ;
  register_selector = 1 ∷ 0 ∷ 0 ∷ 0 ∷ [];
  delete_selector = 2 ∷ 0 ∷ 0 ∷ 0 ∷ [];
  delete_with_batch_size_selector = 3 ∷ 0 ∷ 0 ∷ 0 ∷ [];
  decode_register = decode_register;
  decode_delete = decode_delete;
  decode_delete_with_batch_size = decode_delete_with_batch_size;
  hash_to_string = λ h. h;
  encode_hex = λ h. h;
  encode_proof_hex = length;
  from_timestamp_opt = some;
  insert_insertions = λ rows db. some (db + length rows);
  insert_deletions = λ rows db. some (db + length rows);
  insert_batch = λ row db. some (db + 1);
}

pub crates-Accepts : Accepts crates
crates-Accepts = record {
  insertions = λ rows db. (db + length rows, refl);
  deletions = λ rows db. (db + length rows, refl);
  batch = λ row db. (db + 1, refl);
}

-- Block 5 registers 7 and 8, and block 6 deletes the leaf 1, both with padding.
abbrev pub tx_register : Transaction
tx_register = record {
  hash = 50;
  block_number = some 5;
  input = 1 ∷ 0 ∷ 0 ∷ 0 ∷ 0 ∷ 7 ∷ 8 ∷ 0 ∷ [];
}

abbrev pub tx_delete : Transaction
tx_delete = record {
  hash = 60;
  block_number = some 6;
  input = 2 ∷ 0 ∷ 0 ∷ 0 ∷ 0 ∷ 0 ∷ 0 ∷ 1 ∷ 0 ∷ 0 ∷ 0 ∷ 4 ∷ [];
}

abbrev pub log_of : ℕ → Log
log_of hash = record { transaction_hash = some hash; topics = []; payload = [] }

abbrev pub chain_logs : ℕ → List Log
chain_logs n = if n == 5 then log_of 50 ∷ [] else if n == 6 then log_of 60 ∷ [] else []

-- The logs that a filter selects of a chain.
abbrev pub logs_in : (ℕ → List Log) → Filter → List Log
logs_in logs_of f = elim f.from_block [
  | none ↦ []
  | some a ↦ elim f.to_block [ none ↦ [] | some b ↦ span logs_of a (b + 1 - a) ]
]

-- A chain whose head is block `latest`: the blocks after it have no logs yet.
abbrev pub mined : ℕ → (ℕ → List Log) → ℕ → List Log
mined latest logs_of n = if leb n latest then logs_of n else []

pub span-mined :
    (latest : ℕ) (logs_of : ℕ → List Log) (a count : ℕ)
    → a + count ≤ latest + 1
    → span (mined latest logs_of) a count ≡ span logs_of a count
unfolding span
span-mined latest logs_of a zero h = refl
span-mined latest logs_of a (suc count) h =
    let e : mined latest logs_of a ≡ logs_of a = ground (arith, h) in
    rw (e, span-mined latest logs_of (suc a) count (omega (arith, h))) refl

abbrev pub provider : Middleware ℕ
provider = record {
  get_block_number = inr 6;
  get_logs = λ f. inr (logs_in chain_logs f);
  get_transaction = λ h. inr (if h == 50 then some tx_register else some tx_delete);
  get_block = λ n. inr (some (record { timestamp = n }));
}

-- The second transaction arrives first.
abbrev pub crossed : List (ℕ ⊎ Option Transaction) → List (ℕ ⊎ Option Transaction)
crossed (a ∷ b ∷ rest) = b ∷ a ∷ rest
crossed rs = rs

abbrev pub one_round : Round crates
one_round = record {
  middleware = provider;
  clock = λ tx. some 100;
  arrivals = crossed;
  scan_fuel = 10;
}
