-- ===== src/Config/Defaults.antt =====
-- What the settings may leave out.
use Prim.Native.String.{String}
use world_tree.Prelude.{◌≡◌, sym, ◌∙◌, ap, inl, inr, true, Option, none, some, List, [], ◌∷◌, arith}
use world_tree.Config.{
  Serde, ServiceConfig, field, read_throttle, write_url, build_failed, try_deserialize,
  default_window_size, default_socket_address, Source, file_required, environment, load,
}
use world_tree.Config.Fields.{IsSerde, InRange, world_tree_read, provider_read, sections_read}

module _ {Address Socket Url : Type 0} (S : Serde Address Socket Url) where
  -- The settings that have to be given.
  abbrev pub required_settings : ServiceConfig Address Socket Url → S.Value
  required_settings c = S.write_map (
      (
        "world_tree",
        S.write_map (
            ("world_id_contract_address", S.address.write c.world_tree.world_id_contract_address)
            ∷ ("creation_block", S.u64.write c.world_tree.creation_block)
            ∷ ("tree_history_size", S.usize.write c.world_tree.tree_history_size)
            ∷ ("tree_depth", S.usize.write c.world_tree.tree_depth)
            ∷ ("dense_prefix_depth", S.usize.write c.world_tree.dense_prefix_depth)
            ∷ []),
      )
      ∷ ("provider", S.write_map (("rpc_endpoint", write_url S c.provider.rpc_endpoint) ∷ []))
      ∷ [])

  field_missing :
      {T : Type 0} (entries : String → Option S.Value) (key : String) (read : S.Value → Option T)
      → (x : T) → entries key ≡ none
      → field entries key read (some x) ≡ inr x
  unfolding field
  field_missing entries key read x h = ground (arith, h)

  -- With values that read as they are written, settings may leave out the window, the socket and the
  -- limit: if the sources, a given file and then the environment, build to the rest of a configuration
  -- with a window of 1000 blocks, the socket 127.0.0.1:8080 and no limit, its numbers in range, then
  -- `load` gives that configuration.
  pub load-required :
      {FilePath : Type 0} (build : List (Source FilePath) → Option S.Value)
      → (config_path : FilePath) (I : IsSerde S) (c : ServiceConfig Address Socket Url)
      → InRange S c
      → c.world_tree.window_size ≡ 1000
      → c.world_tree.socket_address ≡ S.localhost 127 0 0 1 8080
      → c.provider.throttle ≡ none
      → build (file_required config_path ∷ environment "WLD" "__" true ∷ [])
        ≡ some (required_settings c)
      → load S build (some config_path) ≡ inr c
  unfolding load default_socket_address
  load-required build config_path I c r window socket limit built =
      ap (λ m. elim m [ none ↦ inl build_failed | some settings ↦ try_deserialize S settings ])
        built
      ∙ sections_read S I c _ _
          (λ f e.
            world_tree_read S I c r f
              (record {
                contract = e "world_id_contract_address";
                created = e "creation_block";
                size = e "tree_history_size";
                depth = e "tree_depth";
                dense = e "dense_prefix_depth";
              })
              (field_missing f "window_size" S.u64.read default_window_size (e "window_size")
                ∙ ap inr (sym window))
              (field_missing f "socket_address" S.socket.read (default_socket_address S)
                  (e "socket_address")
                ∙ ap inr (sym socket)))
          (λ f e.
            provider_read S I c f (e "rpc_endpoint") (
              field_missing f "throttle" (read_throttle S) none (e "throttle")
              ∙ ap inr (sym limit)))
