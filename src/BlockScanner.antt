-- ===== src/BlockScanner.antt =====
-- src/tree/block_scanner.rs. The provider is an argument of `next`, and `fuel` bounds the rounds of
-- its loop. Sums of u64 wrap, as in a release build.
pub mod Complete
pub mod Failure
pub mod Rounds
pub mod Partial
use world_tree.Prelude.{
  ℕ, zero, suc, ◌+◌, ◌%◌, ◌^◌, min, ◌⊎◌, inl, inr, true, false, List, [], ◌++◌, ltb,
}
use world_tree.Exec.{Outcome, ok, err, out_of_fuel, Exec, pure, lift, ◌>>=◌, ◌>>◌}
use world_tree.Chain.{Filter, with_range, Log, Middleware}

abbrev pub add_u64 : ℕ → ℕ → ℕ
add_u64 a b = (a + b) % 2 ^ 64

pub record BlockScanner : Type 0 where
  pub last_synced_block : ℕ
  pub window_size : ℕ
  pub filter : Filter

unfoldable pub new : ℕ → ℕ → Filter → BlockScanner
new window_size current_block filter = record {
  last_synced_block = current_block;
  window_size = window_size;
  filter = filter;
}

-- The block that a round of the loop ends at.
unfoldable pub window_end : ℕ → ℕ → ℕ → ℕ
window_end window_size last_synced_block latest_block =
    min (add_u64 (add_u64 last_synced_block 1) window_size) latest_block

module _ {X : Type 0} where
  abbrev pub reply : {A : Type 0} → X ⊎ A → Outcome X A
  reply (inl x) = err x
  reply (inr a) = ok a

  -- The loop: the block reached and the logs so far.
  unfoldable pub scan :
      ℕ → BlockScanner → Middleware X → ℕ → ℕ → List Log → Outcome X (ℕ × List Log)
  scan zero s m latest_block last_synced_block logs = out_of_fuel
  scan (suc fuel) s m latest_block last_synced_block logs =
      elim (ltb last_synced_block latest_block) [
        | false ↦ ok (last_synced_block, logs)
        | true ↦
            let from_block = add_u64 last_synced_block 1 in
            let to_block = window_end s.window_size last_synced_block latest_block in
            elim (m.get_logs (with_range s.filter from_block to_block)) [
              | inl x ↦ err x
              | inr found ↦ scan fuel s m latest_block to_block (logs ++ found)
            ]
      ]

  unfoldable pub store_last : ℕ → Exec X BlockScanner (Unit {0})
  store_last block s = (ok tt, record s { last_synced_block = block })

  unfoldable pub next : ℕ → Middleware X → Exec X BlockScanner (List Log)
  unfolding store_last
  next fuel m s =
      (do
        latest_block ← lift (reply m.get_block_number)
        (last_synced_block, logs) ← lift (scan fuel s m latest_block s.last_synced_block [])
        store_last last_synced_block
        pure logs)
        s
