-- ===== src/Config.antt =====
-- src/tree/config.rs with src/serde_utils/url.rs: the configuration, how it is read and written.
pub mod Fields
pub mod Roundtrip
pub mod Defaults
use Prim.Native.String.{String}
use world_tree.Prelude.{
  ℕ, Bool, true, false, ◌⊎◌, inl, inr, Option, none, some, List, [], ◌∷◌, ◌++◌, if◌then◌else◌,
}

-- A value's text form and back, as the other crates give them.
pub record Codec (Value T : Type 0) : Type 0 where
  pub write : T → Value
  pub read : Value → Option T

-- The settings' values, from the crates config and serde, over the types of addresses, sockets and
-- URLs.
pub record Serde (Address Socket Url : Type 0) : Type 1 where
  pub Value : Type 0
  pub write_map : List (String × Value) → Value
  -- A map's entries by key.
  pub read_map : Value → Option (String → Option Value)
  pub nil : Value
  pub is_nil : Value → Bool
  pub string : Codec Value String
  pub u32 : Codec Value ℕ
  pub u64 : Codec Value ℕ
  pub usize : Codec Value ℕ
  pub address : Codec Value Address
  pub socket : Codec Value Socket
  -- `Url::parse` and `as_ref`.
  pub url_parse : String → Option Url
  pub url_text : Url → String
  -- The address 127.0.0.1:8080.
  pub localhost : ℕ → ℕ → ℕ → ℕ → ℕ → Socket

pub data ConfigError : Type 0 where
  build_failed : ConfigError
  not_a_map : ConfigError
  missing_field : String → ConfigError
  invalid_field : String → ConfigError

pub record WorldTreeConfig (Address Socket : Type 0) : Type 0 where
  pub world_id_contract_address : Address
  pub window_size : ℕ
  pub creation_block : ℕ
  pub tree_history_size : ℕ
  pub tree_depth : ℕ
  pub dense_prefix_depth : ℕ
  pub socket_address : Socket

pub record ProviderConfig (Url : Type 0) : Type 0 where
  pub rpc_endpoint : Url
  pub throttle : Option ℕ

pub record ServiceConfig (Address Socket Url : Type 0) : Type 0 where
  pub world_tree : WorldTreeConfig Address Socket
  pub provider : ProviderConfig Url

abbrev pub default_window_size : ℕ
default_window_size = 1000

-- A source of settings: the file, which has to exist, or the environment, by its prefix and its
-- separator, and whether its texts are parsed.
pub data Source (FilePath : Type 0) : Type 0 where
  file_required : FilePath → Source FilePath
  environment : String → String → Bool → Source FilePath

abbrev pub config_prefix : String
config_prefix = "WLD"

-- A field's value by its key, or else the default, if the field has one.
unfoldable pub field :
    {Value T : Type 0}
    → (String → Option Value)
    → String
    → (Value → Option T)
    → Option T
    → ConfigError ⊎ T
field entries key read otherwise = elim (entries key) [
  | none ↦ elim otherwise [ none ↦ inl (missing_field key) | some x ↦ inr x ]
  | some value ↦ elim (read value) [ none ↦ inl (invalid_field key) | some x ↦ inr x ]
]

unfoldable pub and_then : {A B : Type 0} → ConfigError ⊎ A → (A → ConfigError ⊎ B) → ConfigError ⊎ B
and_then (inl e) next = inl e
and_then (inr x) next = next x

module _ {Address Socket Url : Type 0} (S : Serde Address Socket Url) where
  unfoldable pub default_socket_address : Socket
  default_socket_address = S.localhost 127 0 0 1 8080

  -- `Option<u32>`: null is `None`.
  unfoldable pub read_throttle : S.Value → Option (Option ℕ)
  read_throttle value =
      if S.is_nil value
      then some none
      else elim (S.u32.read value) [ none ↦ none | some n ↦ some (some n) ]

  unfoldable pub write_throttle : Option ℕ → S.Value
  write_throttle none = S.nil
  write_throttle (some n) = S.u32.write n

  -- `deserialize` and `serialize` of `serde_utils::url`.
  unfoldable pub read_url : S.Value → Option Url
  read_url value = elim (S.string.read value) [ none ↦ none | some s ↦ S.url_parse s ]

  unfoldable pub write_url : Url → S.Value
  write_url url = S.string.write (S.url_text url)

  -- The derived `Deserialize` and `Serialize` with the attributes of the fields.
  unfoldable pub read_world_tree :
      (String → Option S.Value) → ConfigError ⊎ WorldTreeConfig Address Socket
  read_world_tree entries =
      and_then (field entries "world_id_contract_address" S.address.read none) (λ contract.
        and_then (field entries "window_size" S.u64.read (some default_window_size)) (λ window.
          and_then (field entries "creation_block" S.u64.read none) (λ created.
            and_then (field entries "tree_history_size" S.usize.read none) (λ size.
              and_then (field entries "tree_depth" S.usize.read none) (λ depth.
                and_then (field entries "dense_prefix_depth" S.usize.read none) (λ dense.
                  and_then
                    (field entries "socket_address" S.socket.read (some default_socket_address))
                    (λ socket. inr (record {
                      world_id_contract_address = contract;
                      window_size = window;
                      creation_block = created;
                      tree_history_size = size;
                      tree_depth = depth;
                      dense_prefix_depth = dense;
                      socket_address = socket;
                    }))))))))

  unfoldable pub read_provider : (String → Option S.Value) → ConfigError ⊎ ProviderConfig Url
  read_provider entries = and_then (field entries "rpc_endpoint" read_url none) (λ url.
      and_then (field entries "throttle" read_throttle (some none))
        (λ limit. inr (record { rpc_endpoint = url; throttle = limit })))

  -- A section of the settings.
  unfoldable pub section :
      {T : Type 0}
      → (String → Option S.Value)
      → String
      → ((String → Option S.Value) → ConfigError ⊎ T)
      → ConfigError ⊎ T
  section entries key read = and_then (field entries key (λ v. some v) none) (λ value.
      elim (S.read_map value) [ none ↦ inl (invalid_field key) | some inner ↦ read inner ])

  unfoldable pub try_deserialize : S.Value → ConfigError ⊎ ServiceConfig Address Socket Url
  try_deserialize settings = elim (S.read_map settings) [
    | none ↦ inl not_a_map
    | some entries ↦ and_then (section entries "world_tree" read_world_tree) (λ tree.
        and_then (section entries "provider" read_provider)
          (λ provider. inr (record { world_tree = tree; provider = provider })))
  ]

  abbrev pub world_tree_entries : WorldTreeConfig Address Socket → List (String × S.Value)
  world_tree_entries c =
      ("world_id_contract_address", S.address.write c.world_id_contract_address)
      ∷ ("window_size", S.u64.write c.window_size)
      ∷ ("creation_block", S.u64.write c.creation_block)
      ∷ ("tree_history_size", S.usize.write c.tree_history_size)
      ∷ ("tree_depth", S.usize.write c.tree_depth)
      ∷ ("dense_prefix_depth", S.usize.write c.dense_prefix_depth)
      ∷ ("socket_address", S.socket.write c.socket_address)
      ∷ []

  abbrev pub provider_entries : ProviderConfig Url → List (String × S.Value)
  provider_entries c =
      ("rpc_endpoint", write_url c.rpc_endpoint) ∷ ("throttle", write_throttle c.throttle) ∷ []

  unfoldable pub serialize : ServiceConfig Address Socket Url → S.Value
  serialize c = S.write_map (
      ("world_tree", S.write_map (world_tree_entries c.world_tree))
      ∷ ("provider", S.write_map (provider_entries c.provider))
      ∷ [])

  -- `build` reads the sources, a later one over an earlier.
  unfoldable pub load :
      {FilePath : Type 0}
      → (List (Source FilePath) → Option S.Value)
      → Option FilePath
      → ConfigError ⊎ ServiceConfig Address Socket Url
  load {FilePath = FilePath} build config_path =
      let file : List (Source FilePath) = elim config_path [
        | none ↦ []
        | some path ↦ file_required path ∷ []
      ] in
      elim (build (file ++ (environment config_prefix "__" true ∷ []))) [
        | none ↦ inl build_failed
        | some settings ↦ try_deserialize settings
      ]
