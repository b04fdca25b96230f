-- ===== src/Config/Roundtrip.antt =====
-- A configuration that is written is read back.
use Prim.Native.String.{String}
use world_tree.Prelude.{◌≡◌, inr, Option, none, some}
use world_tree.Config.{
  Serde, ServiceConfig, read_throttle, read_world_tree, read_provider, world_tree_entries,
  provider_entries, try_deserialize, serialize, default_window_size, default_socket_address,
}
use world_tree.Config.Fields.{
  entry, IsSerde, InRange, field_found, throttle_back, world_tree_read, provider_read,
  sections_read,
}

module _ {Address Socket Url : Type 0} (S : Serde Address Socket Url) where
  world_tree_back :
      (I : IsSerde S) (c : ServiceConfig Address Socket Url)
      → InRange S c
      → (f : String → Option S.Value)
      → ((key : String) → f key ≡ entry (world_tree_entries S c.world_tree) key)
      → read_world_tree S f ≡ inr c.world_tree
  world_tree_back I c r f e =
      world_tree_read S I c r f
        (record {
          contract = e "world_id_contract_address";
          created = e "creation_block";
          size = e "tree_history_size";
          depth = e "tree_depth";
          dense = e "dense_prefix_depth";
        })
        (field_found S f "window_size" S.u64.read (some default_window_size) _ _ (e "window_size")
          (I.u64_lem c.world_tree.window_size r.window_size))
        (field_found S f "socket_address" S.socket.read (some (default_socket_address S)) _ _
          (e "socket_address") (I.socket_lem c.world_tree.socket_address))

  provider_back :
      (I : IsSerde S) (c : ServiceConfig Address Socket Url)
      → InRange S c
      → (f : String → Option S.Value)
      → ((key : String) → f key ≡ entry (provider_entries S c.provider) key)
      → read_provider S f ≡ inr c.provider
  provider_back I c r f e = provider_read S I c f (e "rpc_endpoint") (
      field_found S f "throttle" (read_throttle S) (some none) _ _ (e "throttle")
        (throttle_back S I c.provider.throttle r.throttle))

  -- With values that read as they are written, a configuration whose numbers fit their types is what
  -- reading it back gives: every field is found under the key that it is written to, and a URL and an
  -- absent limit come back.
  pub try_deserialize-serialize :
      (I : IsSerde S) (c : ServiceConfig Address Socket Url)
      → InRange S c
      → try_deserialize S (serialize S c) ≡ inr c
  unfolding serialize
  try_deserialize-serialize I c r =
      sections_read S I c _ _ (world_tree_back I c r) (provider_back I c r)
