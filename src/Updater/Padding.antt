-- ===== src/Updater/Padding.antt =====
-- What the calls of the contract mean without their padding, described apart from the updater: the
-- identities before the first zero, and the 32-bit indices before the first one behind the last leaf.
use world_tree.Prelude.{
  ℕ, zero, suc, ◌+◌, ◌-◌, ◌*◌, ◌^◌, ◌≤◌, ◌<◌, ◌%◌, ◌≡◌, refl, ap, ◌∙◌, inl, inr, List, [], ◌∷◌,
  arith, ◌==◌, Bool-cases, not, take_while, if◌then◌else◌,
}
use world_tree.Merkle.{Hash}
use world_tree.Foreign.{RegisterIdentitiesCall}
use world_tree.Indices.{unpack_indices, from_be_bytes}
use world_tree.Updater.{padding_index, identities_of, indices_of}

-- A list up to the first `p`.
abbrev pub before : ℕ → List ℕ → List ℕ
before p [] = []
before p (x ∷ xs) = if x == p then [] else x ∷ before p xs

-- Four bytes to a word, the highest one first.
abbrev pub words : List ℕ → List ℕ
words (a ∷ b ∷ c ∷ d ∷ bytes) = (256 * (256 * (256 * a + b) + c) + d) ∷ words bytes
words _ = []

abbrev pub inserted_identities : RegisterIdentitiesCall → List Hash
inserted_identities call = before 0 call.identity_commitments

-- In a tree of this depth there is no leaf with the index `2 ^ depth`.
abbrev pub deleted_indices : ℕ → List ℕ → List ℕ
deleted_indices depth packed = before (2 ^ depth) (words packed)

take_while-before : (p : ℕ) (xs : List ℕ) → take_while (λ x. not (x == p)) xs ≡ before p xs
take_while-before p [] = refl
take_while-before p (x ∷ xs) = elim (Bool-cases (x == p)) [
  | inl e ↦ rw e refl
  | inr e ↦ rw e (ap (λ l. x ∷ l) (take_while-before p xs))
]

unpack_indices-words : (packed : List ℕ) → unpack_indices packed ≡ words packed
unfolding unpack_indices from_be_bytes
unpack_indices-words (a ∷ b ∷ c ∷ d ∷ bytes) =
    let e : a * 16777216 + b * 65536 + c * 256 + d ≡ 256 * (256 * (256 * a + b) + c) + d =
      omega arith in
    rw (e, unpack_indices-words bytes) refl
unpack_indices-words [] = refl
unpack_indices-words (a ∷ []) = refl
unpack_indices-words (a ∷ b ∷ []) = refl
unpack_indices-words (a ∷ b ∷ c ∷ []) = refl

power_grows : (j k : ℕ) → 2 ^ j ≤ 2 ^ (j + k)
power_grows j zero = let e : j + 0 ≡ j = omega arith in rw e (omega arith)
power_grows j (suc k) =
    let e : j + suc k ≡ suc (j + k) = omega arith in rw e (omega (arith, power_grows j k))

padding_index_lem : (depth : ℕ) → depth < 32 → padding_index depth ≡ 2 ^ depth
unfolding padding_index
padding_index_lem depth h =
    let small : depth % 2 ^ 32 ≡ depth = omega (arith, h) in
    let top : depth + (31 - depth) ≡ 31 = omega (arith, h) in
    let fits : 2 ^ depth ≤ 2 ^ 31 = rw top at (power_grows depth (31 - depth)) in
    rw small (omega (arith, fits))

pub identities_of_lem :
    (call : RegisterIdentitiesCall) → identities_of call ≡ inserted_identities call
identities_of_lem call = take_while-before 0 call.identity_commitments

pub indices_of_lem :
    (depth : ℕ) (packed : List ℕ)
    → depth < 32
    → indices_of depth packed ≡ deleted_indices depth packed
indices_of_lem depth packed h =
    take_while-before (padding_index depth) (unpack_indices packed)
    ∙ ap (λ p. before p (unpack_indices packed)) (padding_index_lem depth h)
    ∙ ap (before (2 ^ depth)) (unpack_indices-words packed)
