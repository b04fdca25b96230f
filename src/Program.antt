-- ===== src/Program.antt =====
-- bin/tree_availability_service.rs, `main`: what the program starts, and how it ends.
pub mod Ends
use world_tree.Prelude.{
  ℕ, ◌^◌, ◌-◌, Bool, true, false, ◌⊎◌, inl, inr, Option, none, some, List, [], ◌∷◌, ◌++◌,
  if◌then◌else◌,
}
use Prim.Native.String.{String}
use world_tree.Merkle.{PoseidonTree}
use world_tree.Foreign.{Foreign}
use world_tree.Service.Serve
use world_tree.Service.Serve.{Task, TreeAvailabilityService, serve}
use world_tree.Retry.{JsonRpcError, HttpClientError, should_retry}
use world_tree.Throttle
use world_tree.Throttle.{Governor, JsonRpcClient, ThrottledProvider}
use world_tree.Config.{Serde, ConfigError, ServiceConfig, WorldTreeConfig, Source, load}

abbrev pub u32_max : ℕ
u32_max = 2 ^ 32 - 1

-- The limit of requests per second: no limit is the largest.
unfoldable pub limit : Option ℕ → ℕ
limit none = u32_max
limit (some n) = n

-- The settings of the retry client, its times in milliseconds.
pub record RetrySettings : Type 0 where
  pub rate_limit_retries : ℕ
  pub timeout_retries : ℕ
  pub initial_backoff : ℕ

-- How `main` ends. `J` is a panic or cancellation of a task, `E` the error that a task returns.
pub data Outcome (J E : Type 0) : Type 0 where
  config_failed : ConfigError → Outcome J E
  subscriber_failed : Outcome J E
  panicked : Outcome J E
  join_failed : J → Outcome J E
  task_failed : E → Outcome J E
  ended : Outcome J E

-- `result??` for each result, in the order in which the tasks end; `inr none` is `Ok(Ok(()))`.
unfoldable pub wait_all : {J E : Type 0} → List (J ⊎ Option E) → Outcome J E
wait_all [] = ended
wait_all (inl j ∷ results) = join_failed j
wait_all (inr (some e) ∷ results) = task_failed e
wait_all (inr none ∷ results) = wait_all results

-- The address of the contract is a number, as in the scanner. `parse` is the reader of the errors in a
-- response, and `retry_new` the builder of the crate ethers: its client sends requests to the
-- throttled provider, as often as its settings and the policy say. The tasks' calls go to this client.
module _ (P : PoseidonTree) (F : Foreign) {Socket Url Jitter Call Reply : Type 0}
    (S : Serde ℕ Socket Url) (G : Governor Jitter) (C : JsonRpcClient Call Reply)
    (http : Url → C.Provider) (jitter_new : ℕ → ℕ → Jitter) {Json Client : Type 0}
    (parse : String → Option (JsonRpcError Json))
    (retry_new : RetrySettings
      → ThrottledProvider G C
      → (HttpClientError Json → Bool)
      → Client) where
  pub record Started : Type 0 where
    pub middleware : Client
    pub service : TreeAvailabilityService P F
    pub handles : List (Task P F Socket)

  -- The service of a configuration.
  unfoldable pub service_of : F.Db → ℕ → ℕ → WorldTreeConfig ℕ Socket → TreeAvailabilityService P F
  service_of db tree_changed_signature transfer_signature config =
      Serve.new P F db tree_changed_signature transfer_signature config.tree_depth
        config.dense_prefix_depth config.tree_history_size config.world_id_contract_address
        config.creation_block config.window_size

  -- What is started over a provider.
  unfoldable pub started_with :
      F.Db → ℕ → ℕ → ServiceConfig ℕ Socket Url → ThrottledProvider G C → Started
  unfolding service_of
  started_with db tree_changed_signature transfer_signature config throttled =
      let service : TreeAvailabilityService P F =
        service_of db tree_changed_signature transfer_signature config.world_tree in
      record {
        middleware =
            retry_new
              (record { rate_limit_retries = 10; timeout_retries = 3; initial_backoff = 500 })
              throttled (should_retry parse);
        service = service;
        handles = serve P F service config.world_tree.socket_address;
      }

  -- From the configuration to the service that is served: `none` is the panic of the provider.
  unfoldable pub start : F.Db → ℕ → ℕ → ServiceConfig ℕ Socket Url → Option Started
  start db tree_changed_signature transfer_signature config =
      elim (Throttle.new G C (http config.provider.rpc_endpoint) (limit config.provider.throttle)
        (some (jitter_new 50 500))) [
          | none ↦ none
          | some throttled ↦
              some (started_with db tree_changed_signature transfer_signature config throttled)
        ]

  -- `outcomes` gives the results of the tasks, in the order in which they end, and `subscriber`
  -- whether the tracing subscriber could be set.
  unfoldable pub main :
      {J E : Type 0}
      → (List (Source String) → Option S.Value)
      → Bool
      → F.Db
      → ℕ
      → ℕ
      → (List (Task P F Socket) → List (J ⊎ Option E))
      → Outcome J E
  main build subscriber db tree_changed_signature transfer_signature outcomes =
      elim (load S build (some "/home/atris/world-tree/default_config.json")) [
        | inl e ↦ config_failed e
        | inr config ↦ elim subscriber [
          | false ↦ subscriber_failed
          | true ↦ elim (start db tree_changed_signature transfer_signature config) [
            | none ↦ panicked
            | some started ↦ wait_all (outcomes started.handles)
          ]
        ]
      ]
