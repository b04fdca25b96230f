-- ===== src/Indices.antt =====
-- src/tree/tree_updater.rs, `pack_indices` and `unpack_indices`: 32-bit indices as big-endian bytes.
pub mod RoundTrip
use world_tree.Prelude.{ℕ, ◌+◌, ◌*◌, ◌/◌, ◌%◌, List, [], ◌∷◌, ◌++◌}

-- `u32::to_be_bytes`
unfoldable pub to_be_bytes : ℕ → List ℕ
to_be_bytes x = (x / 16777216 % 256) ∷ (x / 65536 % 256) ∷ (x / 256 % 256) ∷ (x % 256) ∷ []

-- `u32::from_be_bytes`
unfoldable pub from_be_bytes : ℕ → ℕ → ℕ → ℕ → ℕ
from_be_bytes a b c d = a * 16777216 + b * 65536 + c * 256 + d

unfoldable pub pack_indices : List ℕ → List ℕ
unfolding to_be_bytes
pack_indices [] = []
pack_indices (index ∷ indices) = to_be_bytes index ++ pack_indices indices

-- `chunks_exact(4)` leaves out what is too short for a chunk.
unfoldable pub unpack_indices : List ℕ → List ℕ
unfolding from_be_bytes
unpack_indices (a ∷ b ∷ c ∷ d ∷ packed) = from_be_bytes a b c d ∷ unpack_indices packed
unpack_indices _ = []
