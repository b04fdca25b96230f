-- ===== src/Updater/Order.antt =====
-- The order in which `sync_to_head` handles the transactions that it has requested.
use mathlib.Core.List.{Permᴰ}
use mathlib.Core.Path.{subst}
use world_tree.Prelude.{
  ℕ, ◌≡◌, ◌≢◌, refl, sym, ap, ap₂, ◌∙◌, ◌⊎◌, inl, inr, Option, Option-cases, none, some, List, [],
  ◌∷◌, arith, All,
}
use world_tree.Exec.{ok}
use world_tree.Merkle.{PoseidonTree}
use world_tree.Chain.{Transaction}
use world_tree.BlockMap
use world_tree.BlockMap.{BlockMap}
use world_tree.BlockMap.Sorted.{IsSorted, insert-IsSorted, insert_comm}
use world_tree.Foreign.{Foreign}
use world_tree.Updater.{Round, collect}

module _ (P : PoseidonTree) (F : Foreign) (round : Round F) where
  abbrev pub Reply : Type 0
  Reply = F.Failure ⊎ Option Transaction

  collect-IsSorted_from :
      (replies : List Reply) (m m' : BlockMap)
      → IsSorted m
      → collect P F round replies m ≡ ok m'
      → IsSorted m'
  unfolding collect
  collect-IsSorted_from [] m m' s h = let e : m ≡ m' = cc in subst IsSorted e s
  collect-IsSorted_from (inl x ∷ rest) m m' s h = cc
  collect-IsSorted_from (inr none ∷ rest) m m' s h = cc
  collect-IsSorted_from (inr (some tx) ∷ rest) m m' s h = elim (Option-cases tx.block_number) [
    | inl e ↦ absurd (ground (arith, e))
    | inr (n, e) ↦
        collect-IsSorted_from rest (BlockMap.insert n tx m) m' (insert-IsSorted n tx m s)
          (ground (arith, e))
  ]

  -- What the replies are sorted into is in the order of blocks, strictly: of two transactions of one
  -- block at most one is handled.
  pub collect-IsSorted :
      (replies : List Reply) (sorted : BlockMap)
      → collect P F round replies [] ≡ ok sorted
      → IsSorted sorted
  collect-IsSorted replies sorted h = collect-IsSorted_from replies [] sorted tt h

  -- A reply with a mined transaction, and its block.
  abbrev pub IsMined : Reply → Type 0
  IsMined (inl x) = ⊥
  IsMined (inr none) = ⊥
  IsMined (inr (some tx)) = (n : ℕ) × (tx.block_number ≡ some n)

  abbrev pub block_of : Reply → Option ℕ
  block_of (inr (some tx)) = tx.block_number
  block_of _ = none

  abbrev put : Option ℕ → Transaction → BlockMap → BlockMap
  put none tx m = m
  put (some n) tx m = BlockMap.insert n tx m

  abbrev put_reply : Reply → BlockMap → BlockMap
  put_reply (inl x) m = m
  put_reply (inr none) m = m
  put_reply (inr (some tx)) m = put tx.block_number tx m

  put_all : List Reply → BlockMap → BlockMap
  put_all [] m = m
  put_all (r ∷ rs) m = put_all rs (put_reply r m)

  collect-put_all :
      (rs : List Reply) (m : BlockMap) → All IsMined rs → collect P F round rs m ≡ ok (put_all rs m)
  unfolding collect put_all
  collect-put_all [] m h = refl
  collect-put_all (inl x ∷ rs) m h = absurd h.0
  collect-put_all (inr none ∷ rs) m h = absurd h.0
  collect-put_all (inr (some tx) ∷ rs) m h =
      ground (arith, h.0.1, collect-put_all rs (BlockMap.insert h.0.0 tx m) h.1)

  abbrev pub Apart : Reply → Reply → Type 0
  Apart r r' = block_of r ≢ block_of r'

  -- No two replies are of one block.
  abbrev pub AllApart : List Reply → Type 0
  AllApart [] = Unit
  AllApart (r ∷ rs) = All (Apart r) rs × AllApart rs

  put_comm :
      (o o' : Option ℕ) (t t' : Transaction) (m : BlockMap)
      → o ≢ o'
      → put o t (put o' t' m) ≡ put o' t' (put o t m)
  put_comm none o' t t' m h = refl
  put_comm (some n) none t t' m h = refl
  put_comm (some n) (some k) t t' m h = insert_comm n k t t' m (λ e. h (ap some e))

  put_reply_comm :
      (r r' : Reply) (m : BlockMap)
      → Apart r r'
      → put_reply r (put_reply r' m) ≡ put_reply r' (put_reply r m)
  put_reply_comm (inl x) r' m h = refl
  put_reply_comm (inr none) r' m h = refl
  put_reply_comm (inr (some t)) (inl x) m h = refl
  put_reply_comm (inr (some t)) (inr none) m h = refl
  put_reply_comm (inr (some t)) (inr (some t')) m h =
      put_comm t.block_number t'.block_number t t' m h

  pub All-perm : (Q : Reply → Type 0) {rs rs' : List Reply} → Permᴰ rs rs' → All Q rs → All Q rs'
  All-perm Q Permᴰ.nil h = tt
  All-perm Q (Permᴰ.cons e p) h = (subst Q e h.0, All-perm Q p h.1)
  All-perm Q (Permᴰ.swap e f) h = (subst Q f h.1.0, (subst Q e h.0, h.1.1))
  All-perm Q (Permᴰ.trans p q) h = All-perm Q q (All-perm Q p h)

  AllApart-perm : {rs rs' : List Reply} → Permᴰ rs rs' → AllApart rs → AllApart rs'
  AllApart-perm Permᴰ.nil h = tt
  AllApart-perm (Permᴰ.cons {b} {l₁} e p) h =
      (All-perm (Apart b) p (subst (λ r. All (Apart r) l₁) e h.0), AllApart-perm p h.1)
  AllApart-perm (Permᴰ.swap {l} e f) h = (
    (
      (λ x. h.0.0 (ap block_of e ∙ sym x ∙ sym (ap block_of f))),
      subst (λ r. All (Apart r) l) f h.1.0,
    ),
    (subst (λ r. All (Apart r) l) e h.0.1, h.1.1),
  )
  AllApart-perm (Permᴰ.trans p q) h = AllApart-perm q (AllApart-perm p h)

  put_all-perm :
      {rs rs' : List Reply} (m : BlockMap)
      → Permᴰ rs rs'
      → AllApart rs
      → put_all rs m ≡ put_all rs' m
  unfolding put_all
  put_all-perm m Permᴰ.nil h = refl
  put_all-perm m (Permᴰ.cons {b} {l₁} e p) h =
      ap (λ r. put_all l₁ (put_reply r m)) e ∙ put_all-perm (put_reply b m) p h.1
  put_all-perm m (Permᴰ.swap {a} {b} {l} e f) h =
      ap (put_all l)
        (sym (put_reply_comm a b m h.0.0) ∙ ap₂ (λ x y. put_reply x (put_reply y m)) e f)
  put_all-perm m (Permᴰ.trans p q) h = put_all-perm m p h ∙ put_all-perm m q (AllApart-perm p h)

  -- The order of arrival does not matter, if every reply is a mined transaction and no two are of
  -- one block.
  pub collect-perm :
      (rs rs' : List Reply)
      → Permᴰ rs rs'
      → All IsMined rs
      → AllApart rs
      → collect P F round rs [] ≡ collect P F round rs' []
  collect-perm rs rs' p h a =
      collect-put_all rs [] h
      ∙ ap ok (put_all-perm [] p a)
      ∙ sym (collect-put_all rs' [] (All-perm IsMined p h))
