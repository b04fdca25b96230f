-- ===== src/TreeData/History.antt =====
-- The history of `TreeData`: what `cache_tree_history` keeps, against an unbounded list of all trees.
use world_tree.Prelude.{
  ℕ, zero, suc, inl, inr, ℕ-cases, ◌≤◌, ◌≡◌, refl, some, List, [], ◌∷◌, arith, length, take,
  length-take-le, take_of_length-le,
}
use world_tree.Exec.{ok}
use world_tree.Merkle.{PoseidonTree}
use world_tree.TreeData.{TreeData, HistoricalTree, pop_back, cache_tree_history}

-- The last of a non-empty list is popped, and the others are kept in order.
pub pop_back-take {ℓ} :
    {A : Type ℓ} (n : ℕ) (xs : List A)
    → length xs ≡ suc n
    → (last : A) × (pop_back xs ≡ some (last, take n xs))
unfolding pop_back
pop_back-take zero (x ∷ []) h = (x, refl)
pop_back-take (suc n) (x ∷ y ∷ xs) h =
    let (last, e) = pop_back-take n (y ∷ xs) (omega arith) in (last, rw (e, pop_back))
pop_back-take zero [] h = absurd (omega arith)
pop_back-take (suc n) [] h = absurd (omega arith)
pop_back-take zero (x ∷ y ∷ xs) h = absurd (omega arith)
pop_back-take (suc n) (x ∷ []) h = absurd (omega arith)

module _ {P : PoseidonTree} where
  abbrev pub snapshot : TreeData P → HistoricalTree P
  snapshot d = record { tree = d.tree; root_timestamp = d.latest_root_timestamp }

  -- The history never holds more trees than its size.
  abbrev pub IsBounded : TreeData P → Type 0
  IsBounded d = length d.tree_history ≤ d.tree_history_size

  -- The state that `cache_tree_history` is to leave.
  abbrev pub cached : TreeData P → TreeData P
  cached d = record d { tree_history = take d.tree_history_size (snapshot d ∷ d.tree_history) }

  pub cached-IsBounded : (d : TreeData P) → IsBounded (cached d)
  cached-IsBounded d = length-take-le d.tree_history_size (snapshot d ∷ d.tree_history)

module _ (P : PoseidonTree) (E : Type 0) where
  -- From a bounded history `cache_tree_history` does not panic, and leaves the last trees up to the
  -- configured size, the current one first.
  pub cache_tree_history_lem :
      (d : TreeData P) → IsBounded d → cache_tree_history P E d ≡ (ok tt, cached d)
  unfolding cache_tree_history
  cache_tree_history_lem d h = elim (ℕ-cases d.tree_history_size) [
    | inl z ↦ rw (z, cache_tree_history) (ground (arith, take_of_length-le 0 d.tree_history))
    | inr (n, e) ↦
        ground (arith, e, pop_back-take n d.tree_history, take_of_length-le n d.tree_history)
  ]
