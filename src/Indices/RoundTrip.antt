-- ===== src/Indices/RoundTrip.antt =====
-- `unpack_indices` inverts `pack_indices`, and the other way round on whole chunks of bytes.
use world_tree.Prelude.{
  ℕ, suc, ◌*◌, ◌/◌, ◌%◌, ◌^◌, ◌<◌, ◌≡◌, refl, ap, ap₂, List, [], ◌∷◌, ◌++◌, arith, length, take,
  All,
}
use world_tree.Indices.{to_be_bytes, from_be_bytes, pack_indices, unpack_indices}

abbrev pub IsU32 : ℕ → Type 0
IsU32 x = x < 2 ^ 32

abbrev pub IsByte : ℕ → Type 0
IsByte x = x < 256

-- Unpacking what was packed gives the indices back, if each fits 32 bits.
pub unpack_indices-pack_indices :
    (indices : List ℕ) → All IsU32 indices → unpack_indices (pack_indices indices) ≡ indices
unfolding unpack_indices pack_indices
unpack_indices-pack_indices [] h = refl
unpack_indices-pack_indices (x ∷ xs) h =
    let e : from_be_bytes (x / 16777216 % 256) (x / 65536 % 256) (x / 256 % 256) (x % 256) ≡ x =
      omega arith in
    rw (e, unpack_indices-pack_indices xs h.1)

pub length-pack_indices : (indices : List ℕ) → length (pack_indices indices) ≡ 4 * length indices
unfolding pack_indices
length-pack_indices [] = omega arith
length-pack_indices (x ∷ xs) = omega (arith, length-pack_indices xs)

bytes_of_word :
    (a b c d : ℕ) (rest : List ℕ)
    → IsByte a
    → IsByte b
    → IsByte c
    → IsByte d
    → to_be_bytes (from_be_bytes a b c d) ++ rest ≡ a ∷ b ∷ c ∷ d ∷ rest
unfolding to_be_bytes from_be_bytes
bytes_of_word a b c d rest ha hb hc hd =
    let x : ℕ = from_be_bytes a b c d in
    let e0 : x / 16777216 % 256 ≡ a = omega arith in
    let e1 : x / 65536 % 256 ≡ b = omega arith in
    let e2 : x / 256 % 256 ≡ c = omega arith in
    let e3 : x % 256 ≡ d = omega arith in
    ap₂ ◌∷◌ e0 (ap₂ ◌∷◌ e1 (ap₂ ◌∷◌ e2 (ap (λ y. y ∷ rest) e3)))

-- Packing what was unpacked gives back the bytes of the whole chunks; the at most three bytes
-- behind them are lost.
pub pack_indices-unpack_indices :
    (packed : List ℕ)
    → All IsByte packed
    → pack_indices (unpack_indices packed) ≡ take (length packed / 4 * 4) packed
unfolding unpack_indices pack_indices
pack_indices-unpack_indices (a ∷ b ∷ c ∷ d ∷ packed) h =
    let n : ℕ = length packed in
    let e : suc (suc (suc (suc n))) / 4 * 4 ≡ suc (suc (suc (suc (n / 4 * 4)))) = omega arith in
    rw (e, pack_indices-unpack_indices packed h.1.1.1.1)
      (bytes_of_word a b c d (take (n / 4 * 4) packed) h.0 h.1.0 h.1.1.0 h.1.1.1.0)
pack_indices-unpack_indices [] h = refl
pack_indices-unpack_indices (a ∷ []) h = refl
pack_indices-unpack_indices (a ∷ b ∷ []) h = refl
pack_indices-unpack_indices (a ∷ b ∷ c ∷ []) h = refl

-- Every unpacked index fits 32 bits.
pub unpack_indices-IsU32 : (packed : List ℕ) → All IsByte packed → All IsU32 (unpack_indices packed)
unfolding unpack_indices
unpack_indices-IsU32 (a ∷ b ∷ c ∷ d ∷ packed) h =
    (omega arith, unpack_indices-IsU32 packed h.1.1.1.1)
unpack_indices-IsU32 _ h = tt
