-- ===== src/Tests/Program.antt =====
-- The theorems on the configuration, the throttled provider, the retries and `main`.
use Prim.Native.String.{String}
use text.Mathlib.Text.{◌==◌ as str_eq}
use world_tree.Prelude.{
  ℕ, ◌≡◌, ◌↔◌, refl, ◌⊎◌, inl, inr, Bool-cases, Bool, true, false, Option, none, some, List, [],
  ◌∷◌, arith, if◌then◌else◌,
}
use world_tree.Prelude.Int.{negsuc}
use world_tree.Config.{Serde, ServiceConfig, Source, try_deserialize, serialize, load}
use world_tree.Config.Fields.{entry, IsSerde, InRange}
use world_tree.Config.Roundtrip.{try_deserialize-serialize}
use world_tree.Config.Defaults.{required_settings, load-required}
use world_tree.Throttle.{ThrottledProvider}
use world_tree.Throttle.Paced.{Paced}
use world_tree.Tests.Pace.{governor, counting}
use world_tree.Program.{RetrySettings, main, Outcome}
use world_tree.WorldTree.{WorldTree}
use world_tree.Service
use world_tree.Service.Serve.{Task, http_server, tree_sync}
use world_tree.Retry.{JsonRpcError, HttpClientError, json_rpc_error, should_retry}
use world_tree.Retry.Rules.{IsDueToLimit, should_retry_iff}
use world_tree.Tests.Tree.{list_tree}
use world_tree.Tests.Contract.{crates}

mutual
  data Settings : Type 0 where
    null : Settings
    number : ℕ → Settings
    words : String → Settings
    table : Entries → Settings

  data Entries : Type 0 where
    last : Entries
    more : String → Settings → Entries → Entries

abbrev entries_of : List (String × Settings) → Entries
entries_of [] = last
entries_of ((k, v) ∷ rest) = more k v (entries_of rest)

abbrev lookup : Entries → String → Option Settings
lookup last key = none
lookup (more k v rest) key = if str_eq k key then some v else lookup rest key

lookup-entries_of :
    (entries : List (String × Settings)) (key : String)
    → lookup (entries_of entries) key ≡ entry entries key
lookup-entries_of [] key = refl
lookup-entries_of ((k, v) ∷ rest) key = elim (Bool-cases (str_eq k key)) [
  | inl e ↦ rw e refl
  | inr e ↦ rw e (lookup-entries_of rest key)
]

abbrev as_number : Settings → Option ℕ
as_number (number n) = some n
as_number _ = none

abbrev as_words : Settings → Option String
as_words (words s) = some s
as_words _ = none

abbrev as_table : Settings → Option (String → Option Settings)
as_table (table es) = some (lookup es)
as_table _ = none

abbrev is_null : Settings → Bool
is_null null = true
is_null _ = false

-- A socket is its port.
abbrev serde : Serde ℕ ℕ String
serde = record {
  Value = Settings;
  write_map = λ entries. table (entries_of entries);
  read_map = as_table;
  nil = null;
  is_nil = is_null;
  string = record { write = words; read = as_words };
  u32 = record { write = number; read = as_number };
  u64 = record { write = number; read = as_number };
  usize = record { write = number; read = as_number };
  address = record { write = number; read = as_number };
  socket = record { write = number; read = as_number };
  url_parse = some;
  url_text = λ u. u;
  localhost = λ a b c d port. port;
}

serde-IsSerde : IsSerde serde
serde-IsSerde = record {
  map_lem = λ entries. (lookup (entries_of entries), refl, lookup-entries_of entries);
  string_lem = λ s. refl;
  u32_lem = λ n h. refl;
  u64_lem = λ n h. refl;
  usize_lem = λ n h. refl;
  address_lem = λ a. refl;
  socket_lem = λ a. refl;
  url_lem = λ u. refl;
  nil_lem = refl;
  some_lem = λ n. refl;
}

abbrev limited : Option ℕ → ℕ → ℕ → ServiceConfig ℕ ℕ String
limited limit window socket = record {
  world_tree = record {
    world_id_contract_address = 5;
    window_size = window;
    creation_block = 3;
    tree_history_size = 2;
    tree_depth = 2;
    dense_prefix_depth = 2;
    socket_address = socket;
  };
  provider = record { rpc_endpoint = "http://localhost:8545"; throttle = limit };
}

abbrev config : ServiceConfig ℕ ℕ String
config = limited (some 20) 30 9090

twenty : (n : ℕ) → ◌≡◌ {A = Option ℕ} (some 20) (some n) → 20 ≡ n
twenty n e = cc

config-InRange : InRange serde config
config-InRange = record {
  window_size = omega arith;
  creation_block = omega arith;
  tree_history_size = omega arith;
  tree_depth = omega arith;
  dense_prefix_depth = omega arith;
  throttle = λ n e. omega (arith, twenty n e);
}

try_deserialize-serialize_example : try_deserialize serde (serialize serde config) ≡ inr config
try_deserialize-serialize_example =
    try_deserialize-serialize serde serde-IsSerde config config-InRange

abbrev defaults : ServiceConfig ℕ ℕ String
defaults = limited none 1000 8080

defaults-InRange : InRange serde defaults
defaults-InRange = record {
  window_size = omega arith;
  creation_block = omega arith;
  tree_history_size = omega arith;
  tree_depth = omega arith;
  dense_prefix_depth = omega arith;
  throttle = λ n e. absurd cc;
}

-- There is nothing to build without sources.
abbrev build_required : List (Source String) → Option Settings
build_required [] = none
build_required (s ∷ ss) = some (required_settings serde defaults)

load-required_example : load serde build_required (some "world-tree.json") ≡ inr defaults
load-required_example =
    load-required serde build_required "world-tree.json" serde-IsSerde defaults defaults-InRange
      refl refl refl refl

-- The server ends well, and the sync of the tree with the error 4.
abbrev outcomes : List (Task list_tree crates ℕ) → List (ℕ ⊎ Option ℕ)
outcomes [] = []
outcomes (http_server socket tree ∷ tasks) = inr none ∷ outcomes tasks
outcomes (tree_sync tree ∷ tasks) = inr (some 4) ∷ outcomes tasks

abbrev no_error : String → Option (JsonRpcError ℕ)
no_error body = none

-- The client remembers its settings.
abbrev retry_new :
    RetrySettings → ThrottledProvider governor counting → (HttpClientError ℕ → Bool) → ℕ
retry_new settings p policy = settings.initial_backoff

abbrev program : Outcome ℕ ℕ
program =
    main list_tree crates serde governor counting (λ url. 0) (λ a b. b) no_error retry_new
      build_required true 0 2 9 outcomes

abbrev served : WorldTree list_tree crates
served = Service.new list_tree crates 0 2 2 2 2 5 3 1000

abbrev limited_address : HttpClientError ℕ
limited_address =
    json_rpc_error
      (record { code = negsuc 32015; message = "daily rate limit reached"; details = none })

should_retry_iff_example :
    (should_retry no_error limited_address ≡ true) ↔ IsDueToLimit no_error limited_address
should_retry_iff_example = should_retry_iff no_error limited_address
