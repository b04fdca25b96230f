-- ===== src/Claims/Printed.antt =====
-- What `sync_to_head` of the claims prints.
use mathlib.Core.List.{append-nil, append_assoc}
use world_tree.Prelude.{
  ℕ, ◌+◌, ◌-◌, ◌^◌, ◌≤◌, ◌<◌, ◌≡◌, inr, Option, some, List, [], ◌∷◌, ◌++◌, map, arith,
}
use world_tree.Exec.{ok}
use world_tree.Chain.{Log, Middleware}
use world_tree.BlockScanner.{BlockScanner}
use world_tree.BlockScanner.Complete.{Answers, span, next_complete}
use world_tree.Claims.{ClaimState, claim_of, print_each, sync_to_head}

print_each_lem :
    {X : Type 0} (decode_u256 : List ℕ → Option ℕ) (logs : List Log) (lines : List (ℕ × ℕ))
    → (s : ClaimState) → map (claim_of decode_u256) logs ≡ map some lines
    → print_each X decode_u256 logs s ≡ (ok tt, record s { printed = s.printed ++ lines })
unfolding print_each
print_each_lem decode_u256 [] [] s h = ground (arith, append-nil s.printed)
print_each_lem decode_u256 [] (y ∷ ys) s h = cc
print_each_lem decode_u256 (l ∷ ls) [] s h = cc
print_each_lem {X} decode_u256 (l ∷ ls) (y ∷ ys) s h =
    let e : claim_of decode_u256 l ≡ some y = cc in
    let rest : map (claim_of decode_u256) ls ≡ map some ys = cc in
    let s1 : ClaimState = record s { printed = s.printed ++ (y ∷ []) } in
    ground (
      arith,
      e,
      print_each_lem {X = X} decode_u256 ls ys s1 rest,
      append_assoc s.printed (y ∷ []) ys,
    )

-- If the provider knows the logs of each block, the scanner is not ahead of the chain, the sums of
-- blocks fit 64 bits, the fuel is more than the number of missing blocks and every log of these
-- decodes, one call prints a line for each of them, in order, and moves to the latest block.
pub sync_to_head-printed :
    {X : Type 0} (decode_u256 : List ℕ → Option ℕ) (logs_of : ℕ → List Log) (m : Middleware X)
    → (s : ClaimState) (lines : List (ℕ × ℕ)) (fuel latest : ℕ)
    → Answers logs_of s.updater.block_scanner m latest
    → m.get_block_number ≡ inr latest
    → s.updater.block_scanner.last_synced_block ≤ latest
    → latest + s.updater.block_scanner.window_size < 2 ^ 64
    → latest - s.updater.block_scanner.last_synced_block < fuel
    → map (claim_of decode_u256) (
        span logs_of
          (s.updater.block_scanner.last_synced_block + 1)
          (latest - s.updater.block_scanner.last_synced_block))
      ≡ map some lines
    → sync_to_head X decode_u256 fuel m s ≡ (
      ok tt,
      record {
        updater = record s.updater {
          block_scanner = record s.updater.block_scanner { last_synced_block = latest };
        };
        printed = s.printed ++ lines;
      },
    )
unfolding sync_to_head
sync_to_head-printed {X} decode_u256 logs_of m s lines fuel latest a e le b f h =
    let scanner : BlockScanner = s.updater.block_scanner in
    let logs : List Log =
      span logs_of (scanner.last_synced_block + 1) (latest - scanner.last_synced_block) in
    let s1 : ClaimState = record s {
      updater = record s.updater { block_scanner = record scanner { last_synced_block = latest } };
    } in
    ground (
      arith,
      next_complete logs_of scanner m fuel latest a e le b f,
      print_each_lem {X = X} decode_u256 logs lines s1 h,
    )
