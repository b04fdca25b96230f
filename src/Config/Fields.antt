-- ===== src/Config/Fields.antt =====
-- The fields of a configuration in the settings: how each is read, and what they make together.
use Prim.Native.String.{String}
use world_tree.Prelude.{
  ℕ, ◌^◌, ◌<◌, ◌≡◌, refl, ◌∙◌, ap, inl, inr, true, false, ◌⊎◌, Option, none, some, List, [], ◌∷◌,
  arith, if◌then◌else◌,
}
use text.Mathlib.Text.{◌==◌ as str_eq}
use world_tree.Config.{
  Serde, ConfigError, WorldTreeConfig, ServiceConfig, field, and_then, read_throttle,
  write_throttle, read_url, write_url, read_world_tree, read_provider, not_a_map, section,
  try_deserialize, default_window_size, default_socket_address,
}

abbrev pub entry : {Value : Type 0} → List (String × Value) → String → Option Value
entry [] key = none
entry ((k, v) ∷ rest) key = if str_eq k key then some v else entry rest key

-- What the crates document: a map has the entries that it is made of, and a value in range is read as
-- it was written.
module _ {Address Socket Url : Type 0} (S : Serde Address Socket Url) where
  pub record IsSerde : Type 0 where
    pub map_lem :
        (entries : List (String × S.Value))
        → (f : String → Option S.Value) × (S.read_map (S.write_map entries) ≡ some f)
          × ((key : String) → f key ≡ entry entries key)
    pub string_lem : (s : String) → S.string.read (S.string.write s) ≡ some s
    pub u32_lem : (n : ℕ) → n < 2 ^ 32 → S.u32.read (S.u32.write n) ≡ some n
    pub u64_lem : (n : ℕ) → n < 2 ^ 64 → S.u64.read (S.u64.write n) ≡ some n
    pub usize_lem : (n : ℕ) → n < 2 ^ 64 → S.usize.read (S.usize.write n) ≡ some n
    pub address_lem : (a : Address) → S.address.read (S.address.write a) ≡ some a
    pub socket_lem : (a : Socket) → S.socket.read (S.socket.write a) ≡ some a
    pub url_lem : (u : Url) → S.url_parse (S.url_text u) ≡ some u
    pub nil_lem : S.is_nil S.nil ≡ true
    pub some_lem : (n : ℕ) → S.is_nil (S.u32.write n) ≡ false

  -- A field that the entries have, and that reads.
  pub field_found :
      {T : Type 0} (entries : String → Option S.Value) (key : String) (read : S.Value → Option T)
      → (otherwise : Option T) (v : S.Value) (x : T) → entries key ≡ some v
      → read v ≡ some x
      → field entries key read otherwise ≡ inr x
  unfolding field
  field_found entries key read otherwise v x h r = ground (arith, h, r)

  pub url_back : IsSerde → (u : Url) → read_url S (write_url S u) ≡ some u
  unfolding read_url write_url
  url_back I u = ground (arith, I.string_lem (S.url_text u), I.url_lem u)

  pub throttle_back :
      IsSerde
      → (t : Option ℕ) → ((n : ℕ) → t ≡ some n → n < 2 ^ 32)
      → read_throttle S (write_throttle S t) ≡ some t
  unfolding read_throttle write_throttle
  throttle_back I none h = ground (arith, I.nil_lem)
  throttle_back I (some n) h = ground (arith, I.some_lem n, I.u32_lem n (h n refl))

  next_step :
      {A B : Type 0} {x : ConfigError ⊎ A} {a : A} (next : A → ConfigError ⊎ B)
      {y : ConfigError ⊎ B}
      → x ≡ inr a
      → next a ≡ y
      → and_then x next ≡ y
  unfolding and_then
  next_step next h k = ap (λ x. and_then x next) h ∙ k

  pub record InRange (c : ServiceConfig Address Socket Url) : Type 0 where
    pub window_size : c.world_tree.window_size < 2 ^ 64
    pub creation_block : c.world_tree.creation_block < 2 ^ 64
    pub tree_history_size : c.world_tree.tree_history_size < 2 ^ 64
    pub tree_depth : c.world_tree.tree_depth < 2 ^ 64
    pub dense_prefix_depth : c.world_tree.dense_prefix_depth < 2 ^ 64
    pub throttle : (n : ℕ) → c.provider.throttle ≡ some n → n < 2 ^ 32

  pub record Required (c : WorldTreeConfig Address Socket) (f : String → Option S.Value)
      : Type 0 where
    pub contract :
        f "world_id_contract_address" ≡ some (S.address.write c.world_id_contract_address)
    pub created : f "creation_block" ≡ some (S.u64.write c.creation_block)
    pub size : f "tree_history_size" ≡ some (S.usize.write c.tree_history_size)
    pub depth : f "tree_depth" ≡ some (S.usize.write c.tree_depth)
    pub dense : f "dense_prefix_depth" ≡ some (S.usize.write c.dense_prefix_depth)

  pub world_tree_read :
      (I : IsSerde) (c : ServiceConfig Address Socket Url)
      → InRange c
      → (f : String → Option S.Value) → Required c.world_tree f
      → field f "window_size" S.u64.read (some default_window_size) ≡ inr c.world_tree.window_size
      → field f "socket_address" S.socket.read (some (default_socket_address S))
        ≡ inr c.world_tree.socket_address
      → read_world_tree S f ≡ inr c.world_tree
  unfolding read_world_tree
  world_tree_read I c r f e window socket =
      next_step _
        (field_found f "world_id_contract_address" S.address.read none _ _ e.contract
          (I.address_lem c.world_tree.world_id_contract_address))
        (next_step _ window (
          next_step _
            (field_found f "creation_block" S.u64.read none _ _ e.created
              (I.u64_lem c.world_tree.creation_block r.creation_block))
            (next_step _
              (field_found f "tree_history_size" S.usize.read none _ _ e.size
                (I.usize_lem c.world_tree.tree_history_size r.tree_history_size))
              (next_step _
                (field_found f "tree_depth" S.usize.read none _ _ e.depth
                  (I.usize_lem c.world_tree.tree_depth r.tree_depth))
                (next_step _
                  (field_found f "dense_prefix_depth" S.usize.read none _ _ e.dense
                    (I.usize_lem c.world_tree.dense_prefix_depth r.dense_prefix_depth))
                  (next_step _ socket refl))))))

  pub provider_read :
      (I : IsSerde) (c : ServiceConfig Address Socket Url) (f : String → Option S.Value)
      → f "rpc_endpoint" ≡ some (write_url S c.provider.rpc_endpoint)
      → field f "throttle" (read_throttle S) (some none) ≡ inr c.provider.throttle
      → read_provider S f ≡ inr c.provider
  unfolding read_provider
  provider_read I c f url limit =
      next_step _
        (field_found f "rpc_endpoint" (read_url S) none _ _ url
          (url_back I c.provider.rpc_endpoint))
        (next_step _ limit refl)

  section_back :
      (I : IsSerde) {T : Type 0} (f : String → Option S.Value) (key : String)
      → (read : (String → Option S.Value) → ConfigError ⊎ T) (entries : List (String × S.Value))
        (x : T)
      → f key ≡ some (S.write_map entries)
      → ((g : String → Option S.Value) → ((k : String) → g k ≡ entry entries k) → read g ≡ inr x)
      → section S f key read ≡ inr x
  unfolding section
  section_back I f key read entries x h back =
      let (g, read_back, e) = I.map_lem entries in
      next_step _ (field_found f key (λ v. some v) none _ _ h refl)
        (ground (arith, read_back, back g e))

  -- The two sections make the configuration.
  pub sections_read :
      (I : IsSerde) (c : ServiceConfig Address Socket Url) (tree provider : List (String × S.Value))
      → ((g : String → Option S.Value)
          → ((k : String) → g k ≡ entry tree k)
          → read_world_tree S g ≡ inr c.world_tree)
      → ((g : String → Option S.Value)
          → ((k : String) → g k ≡ entry provider k)
          → read_provider S g ≡ inr c.provider)
      → try_deserialize S
          (S.write_map (("world_tree", S.write_map tree) ∷ ("provider", S.write_map provider) ∷ []))
        ≡ inr c
  unfolding try_deserialize
  sections_read I c tree provider tree_reads provider_reads =
      let (f, read_back, e) =
        I.map_lem (("world_tree", S.write_map tree) ∷ ("provider", S.write_map provider) ∷ []) in
      ap
        (λ m. elim m [
          | none ↦ inl not_a_map
          | some entries ↦ and_then (section S entries "world_tree" (read_world_tree S)) (λ tree'.
              and_then (section S entries "provider" (read_provider S))
                (λ provider'. inr (record { world_tree = tree'; provider = provider' })))
        ])
        read_back
      ∙ next_step _
          (section_back I f "world_tree" (read_world_tree S) tree _ (e "world_tree") tree_reads)
          (next_step _
            (section_back I f "provider" (read_provider S) provider _ (e "provider") provider_reads)
            refl)
