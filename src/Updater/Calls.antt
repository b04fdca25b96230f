-- ===== src/Updater/Calls.antt =====
-- The calls of the contract that `sync_from_transaction` tells apart, and where it takes each to.
use world_tree.Prelude.{
  ℕ, ◌≤◌, ◌≡◌, ◌∙◌, refl, inl, inr, Bool, Bool-cases, true, false, Option, some, List, [], ◌∷◌,
  ◌==◌, if◌then◌else◌, arith, length, take,
}
use world_tree.Exec.{ok}
use world_tree.Merkle.{PoseidonTree}
use world_tree.Chain.{Transaction, Block}
use world_tree.Foreign.{Foreign, RegisterIdentitiesCall}
use world_tree.Rows.{created_at}
use world_tree.Updater.{
  SyncState, Round, selector_eq, register_identities, delete_identities, dispatch,
  sync_from_transaction,
}

-- The bytes of two lists, one by one, described apart from the updater.
abbrev pub same_bytes : List ℕ → List ℕ → Bool
same_bytes [] [] = true
same_bytes [] (y ∷ ys) = false
same_bytes (x ∷ xs) [] = false
same_bytes (x ∷ xs) (y ∷ ys) = if x == y then same_bytes xs ys else false

selector_eq-same_bytes : (xs ys : List ℕ) → selector_eq xs ys ≡ same_bytes xs ys
unfolding selector_eq
selector_eq-same_bytes [] [] = refl
selector_eq-same_bytes [] (y ∷ ys) = refl
selector_eq-same_bytes (x ∷ xs) [] = refl
selector_eq-same_bytes (x ∷ xs) (y ∷ ys) = elim (Bool-cases (x == y)) [
  | inl e ↦ rw e (selector_eq-same_bytes xs ys)
  | inr e ↦ rw e refl
]

abbrev pub Selects : Transaction → List ℕ → Type 0
Selects tx selector = same_bytes (take 4 tx.input) selector ≡ true

abbrev pub Passes : Transaction → List ℕ → Type 0
Passes tx selector = same_bytes (take 4 tx.input) selector ≡ false

module _ (F : Foreign) where
  -- A call of one of the two `deleteIdentities`, for packed indices.
  pub data Deletes (tx : Transaction) (packed proof : List ℕ) (pre_root post_root : ℕ)
      : Type 0 where
    plain :
        Passes tx F.register_selector
        → Selects tx F.delete_selector
        → F.decode_delete tx.input
          ≡ inr (record {
            deletion_proof = proof;
            packed_deletion_indices = packed;
            pre_root = pre_root;
            post_root = post_root;
          })
        → Deletes tx packed proof pre_root post_root
    with_batch_size :
        (batch_size : ℕ)
        → Passes tx F.register_selector
        → Passes tx F.delete_selector
        → Selects tx F.delete_with_batch_size_selector
        → F.decode_delete_with_batch_size tx.input
          ≡ inr (record {
            deletion_proof = proof;
            batch_size = batch_size;
            packed_deletion_indices = packed;
            pre_root = pre_root;
            post_root = post_root;
          })
        → Deletes tx packed proof pre_root post_root

module _ (P : PoseidonTree) (F : Foreign) (tx : Transaction) (number : ℕ) (block : Block)
    (now : Option ℕ) (s : SyncState P F) where
  pub dispatch-registration :
      (call : RegisterIdentitiesCall)
      → Selects tx F.register_selector
      → F.decode_register tx.input ≡ inr call
      → dispatch P F tx number block now (take 4 tx.input) s
        ≡ register_identities P F tx number block now call s
  unfolding dispatch
  dispatch-registration call h e =
      let h' = selector_eq-same_bytes (take 4 tx.input) F.register_selector ∙ h in
      ground (arith, h', e)

  pub dispatch-deletion :
      (packed proof : List ℕ) (pre_root post_root : ℕ)
      → Deletes F tx packed proof pre_root post_root
      → dispatch P F tx number block now (take 4 tx.input) s
        ≡ delete_identities P F tx number block now packed proof pre_root post_root s
  unfolding dispatch
  dispatch-deletion packed proof pre_root post_root (plain a b e) =
      let a' = selector_eq-same_bytes (take 4 tx.input) F.register_selector ∙ a in
      let b' = selector_eq-same_bytes (take 4 tx.input) F.delete_selector ∙ b in
      ground (arith, a', b', e)
  dispatch-deletion packed proof pre_root post_root (with_batch_size n a b c e) =
      let a' = selector_eq-same_bytes (take 4 tx.input) F.register_selector ∙ a in
      let b' = selector_eq-same_bytes (take 4 tx.input) F.delete_selector ∙ b in
      let c' = selector_eq-same_bytes (take 4 tx.input) F.delete_with_batch_size_selector ∙ c in
      ground (arith, a', b', c', e)

module _ (P : PoseidonTree) (F : Foreign) (round : Round F) where
  -- What the updater needs to know of any transaction that it handles.
  pub record IsKnown (tx : Transaction) : Type 0 where
    pub number : ℕ
    pub block : Block
    pub at : F.DateTime
    pub ts : ℕ
    pub long : 4 ≤ length tx.input
    pub mined : tx.block_number ≡ some number
    pub found : round.middleware.get_block number ≡ inr (some block)
    pub dated : created_at P F block ≡ ok at
    pub clock : round.clock tx ≡ some ts

  module _ (tx : Transaction) (s : SyncState P F) (k : IsKnown tx) where
    to_dispatch :
        sync_from_transaction P F round tx s
        ≡ dispatch P F tx k.number k.block (some k.ts) (take 4 tx.input) s
    unfolding sync_from_transaction
    to_dispatch = ground (arith, k.long, k.mined, k.found, k.clock)

    pub to_registration :
        (call : RegisterIdentitiesCall)
        → Selects tx F.register_selector
        → F.decode_register tx.input ≡ inr call
        → sync_from_transaction P F round tx s
          ≡ register_identities P F tx k.number k.block (some k.ts) call s
    to_registration call h e =
        to_dispatch ∙ dispatch-registration P F tx k.number k.block (some k.ts) s call h e

    pub to_deletion :
        (packed proof : List ℕ) (pre_root post_root : ℕ)
        → Deletes F tx packed proof pre_root post_root
        → sync_from_transaction P F round tx s
          ≡ delete_identities P F tx k.number k.block (some k.ts) packed proof pre_root post_root s
    to_deletion packed proof pre_root post_root d =
        to_dispatch
        ∙ dispatch-deletion P F tx k.number k.block (some k.ts) s packed proof pre_root post_root d
