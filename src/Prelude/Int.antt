-- ===== src/Prelude/Int.antt =====
-- Signed 64-bit integers, for the casts `as i64` of the sources.
use Prim.Native.Nat.{ℕ, ◌-◌, ◌%◌, ◌^◌}
use world_tree.Prelude.Tests.{ltb, if◌then◌else◌}

-- `negsuc n` is -(n + 1).
pub data ℤ : Type 0 where
  pos : ℕ → ℤ
  negsuc : ℕ → ℤ

-- `n as i64` of an unsigned 64-bit `n`: the same bits, in two's complement.
unfoldable pub as_i64 : ℕ → ℤ
as_i64 n =
    let bits = n % 2 ^ 64 in if ltb bits (2 ^ 63) then pos bits else negsuc (2 ^ 64 - 1 - bits)
