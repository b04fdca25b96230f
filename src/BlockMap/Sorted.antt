-- ===== src/BlockMap/Sorted.antt =====
-- The order of a `BlockMap`, and that insertions of different blocks commute.
use world_tree.Prelude.{ℕ, ◌<◌, ◌≡◌, ◌≢◌, refl, [], ◌∷◌, ◌++◌, arith, All}
use world_tree.Chain.{Transaction}
use world_tree.BlockMap.{BlockMap, insert}

abbrev pub Above : ℕ → BlockMap → Type 0
Above k = All (λ e. k < e.0)

-- The blocks are strictly increasing: no block stands twice.
abbrev pub IsSorted : BlockMap → Type 0
IsSorted [] = Unit
IsSorted (e ∷ m) = Above e.0 m × IsSorted m

Above-insert :
    (b k : ℕ) (v : Transaction) (m : BlockMap) → b < k → Above b m → Above b (insert k v m)
unfolding insert
Above-insert b k v [] h a = (h, tt)
Above-insert b k v (e ∷ m) h a = ground (arith, Above-insert b k v m h a.1)

Above-lt : (a b : ℕ) (m : BlockMap) → a < b → Above b m → Above a m
Above-lt a b [] h k = tt
Above-lt a b (e ∷ m) h k = (omega (arith, k.0), Above-lt a b m h k.1)

pub insert-IsSorted :
    (k : ℕ) (v : Transaction) (m : BlockMap) → IsSorted m → IsSorted (insert k v m)
unfolding insert
insert-IsSorted k v [] s = (tt, tt)
insert-IsSorted k v (e ∷ m) s =
    ground (arith, insert-IsSorted k v m s.1, Above-insert e.0 k v m, Above-lt k e.0 m)

pub insert_comm :
    (k j : ℕ) (v w : Transaction) (m : BlockMap)
    → k ≢ j
    → insert k v (insert j w m) ≡ insert j w (insert k v m)
unfolding insert
insert_comm k j v w [] h = ground arith
insert_comm k j v w (e ∷ m) h = ground (arith, insert_comm k j v w m h)

-- An entry above all others goes to the end.
pub insert_last :
    (k : ℕ) (v : Transaction) (m : BlockMap)
    → All (λ e. e.0 < k) m
    → insert k v m ≡ m ++ ((k, v) ∷ [])
unfolding insert
insert_last k v [] h = refl
insert_last k v (e ∷ m) h = ground (arith, insert_last k v m h.1)
