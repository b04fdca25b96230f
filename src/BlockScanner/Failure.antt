-- ===== src/BlockScanner/Failure.antt =====
-- `next` of the scanner when the provider fails, and at a window that overflows.
use world_tree.Prelude.{
  ℕ, zero, suc, ◌-◌, ◌^◌, ◌<◌, ◌≡◌, ◌≢◌, refl, ap, ◌∙◌, inl, inr, List, [], ◌++◌, Sum-cases, arith,
}
use world_tree.Exec.{Outcome-cases, ok, out_of_fuel}
use world_tree.Chain.{with_range, Log, Middleware}
use world_tree.BlockScanner.{BlockScanner, add_u64, window_end, scan, next}

module _ {X : Type 0} (s : BlockScanner) (m : Middleware X) where
  -- A call of `next` that does not return logs leaves the scanner as it was: the blocks are
  -- scanned again by the next call.
  pub next-unchanged :
      (fuel : ℕ) → ((logs : List Log) → (next fuel m s).0 ≢ ok logs) → (next fuel m s).1 ≡ s
  unfolding next
  next-unchanged fuel h = elim (Sum-cases m.get_block_number) [
    | inl (x, e) ↦ ground (arith, e)
    | inr (latest, e) ↦ elim (Outcome-cases (scan fuel s m latest s.last_synced_block [])) [
      | inl (r, f) ↦ ground (arith, e, f, h r.1)
      | inr (inl (x, f)) ↦ ground (arith, e, f)
      | inr (inr (inl f)) ↦ ground (arith, e, f)
      | inr (inr (inr f)) ↦ ground (arith, e, f)
    ]
  ]

  window_end_max :
      (last latest : ℕ)
      → last < latest
      → latest < 2 ^ 64
      → window_end (2 ^ 64 - 1) last latest ≡ last
  unfolding window_end
  window_end_max last latest h b = omega arith

  scan_stuck :
      (fuel latest last : ℕ) (logs : List Log)
      → s.window_size ≡ 2 ^ 64 - 1
      → ((a b : ℕ) → (found : List Log) × (m.get_logs (with_range s.filter a b) ≡ inr found))
      → last < latest
      → latest < 2 ^ 64
      → scan fuel s m latest last logs ≡ out_of_fuel
  unfolding scan
  scan_stuck zero latest last logs w a h b = refl
  scan_stuck (suc fuel) latest last logs w a h b =
      let to_block : ℕ = window_end s.window_size last latest in
      let same : to_block ≡ last =
        ap (λ k. window_end k last latest) w ∙ window_end_max last latest h b in
      let (found, e) = a (add_u64 last 1) to_block in
      ground (arith, e, same, scan_stuck fuel latest last (logs ++ found) w a h b)

  -- With the largest window size the scanner never gets past its block, however long it runs, if
  -- blocks are missing and the provider answers every request.
  pub next-window_max :
      (fuel latest : ℕ)
      → s.window_size ≡ 2 ^ 64 - 1
      → ((a b : ℕ) → (found : List Log) × (m.get_logs (with_range s.filter a b) ≡ inr found))
      → m.get_block_number ≡ inr latest
      → s.last_synced_block < latest
      → latest < 2 ^ 64
      → (next fuel m s).0 ≡ out_of_fuel
  unfolding next
  next-window_max fuel latest w a e h b =
      ground (arith, e, scan_stuck fuel latest s.last_synced_block [] w a h b)
