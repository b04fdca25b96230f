-- ===== src/BlockScanner/Complete.antt =====
-- `next` of the scanner returns every log of the blocks it passes, once and in order.
use mathlib.Core.List.{append-nil, append_assoc}
use world_tree.Prelude.{
  ℕ, zero, suc, ◌+◌, ◌-◌, ◌^◌, ◌≤◌, ◌<◌, ◌≡◌, sym, ap, ◌∙◌, inl, inr, List, [], ◌++◌, arith,
  le_or_lt,
}
use world_tree.Exec.{ok}
use world_tree.Chain.{with_range, Log, Middleware}
use world_tree.BlockScanner.{BlockScanner, add_u64, window_end, scan, next}

-- What `count` blocks from `start` on have, such as logs.
unfoldable pub span : {A : Type 0} → (ℕ → List A) → ℕ → ℕ → List A
span logs_of start zero = []
span logs_of start (suc count) = logs_of start ++ span logs_of (suc start) count

pub span-add :
    {A : Type 0} (logs_of : ℕ → List A) (a m n : ℕ)
    → span logs_of a (m + n) ≡ span logs_of a m ++ span logs_of (a + m) n
unfolding span
span-add logs_of a zero n =
    let e : 0 + n ≡ n = omega arith in let f : a + 0 ≡ a = omega arith in rw (e, f)
span-add logs_of a (suc m) n =
    let e : suc m + n ≡ suc (m + n) = omega arith in
    let f : a + suc m ≡ suc a + m = omega arith in
    rw (e, f, span-add logs_of (suc a) m n)
      (sym (append_assoc (logs_of a) (span logs_of (suc a) m) (span logs_of (suc a + m) n)))

pub span-from_zero : {A : Type 0} (logs_of : ℕ → List A) (a n : ℕ) → span logs_of a (n - n) ≡ []
unfolding span
span-from_zero logs_of a n = let e : n - n ≡ 0 = omega arith in rw e

-- The logs up to `b`, and the ones from there on up to `c`.
pub span-join :
    {A : Type 0} (logs_of : ℕ → List A) (a b c : ℕ)
    → a ≤ b
    → b ≤ c
    → span logs_of (a + 1) (b - a) ++ span logs_of (b + 1) (c - b) ≡ span logs_of (a + 1) (c - a)
span-join logs_of a b c h k =
    let e : a + 1 + (b - a) ≡ b + 1 = omega arith in
    let f : b - a + (c - b) ≡ c - a = omega arith in
    sym (rw (e, f) at (span-add logs_of (a + 1) (b - a) (c - b)))

-- Where the head of the chain is block `latest`, the provider knows the logs of each block up to
-- there, and answers for ranges of at most `window_size + 1` of these blocks.
pub record Answers {X : Type 0} (logs_of : ℕ → List Log) (s : BlockScanner) (m : Middleware X)
    (latest : ℕ) : Type 0 where
  pub ranges :
      (a b : ℕ)
      → a ≤ b
      → b ≤ a + s.window_size
      → b ≤ latest
      → m.get_logs (with_range s.filter a b) ≡ inr (span logs_of a (b + 1 - a))

-- Without overflow a round moves on, by at most a window, and stays within the chain.
pub window_end_bounds :
    (w last latest : ℕ)
    → last < latest
    → latest + w < 2 ^ 64
    → (add_u64 last 1 ≡ last + 1)
      × (last + 1 ≤ window_end w last latest)
      × (window_end w last latest ≤ last + 1 + w)
      × (window_end w last latest ≤ latest)
unfolding window_end
window_end_bounds w last latest h b = omega arith

module _ {X : Type 0} (logs_of : ℕ → List Log) (s : BlockScanner) (m : Middleware X) where
  pub scan_stop :
      (fuel latest last : ℕ) (logs : List Log)
      → latest ≤ last
      → scan (suc fuel) s m latest last logs ≡ ok (last, logs)
  unfolding scan
  scan_stop fuel latest last logs h = ground arith

  pub scan_step :
      (fuel latest last : ℕ) (logs found : List Log)
      → last < latest
      → m.get_logs (with_range s.filter (add_u64 last 1) (window_end s.window_size last latest))
        ≡ inr found
      → scan (suc fuel) s m latest last logs
        ≡ scan fuel s m latest (window_end s.window_size last latest) (logs ++ found)
  unfolding scan
  scan_step fuel latest last logs found h e = ground (arith, e)

  pub reached :
      (latest last : ℕ) (logs : List Log)
      → last ≤ latest
      → latest ≤ last
      → ◌≡◌ {A = ℕ × List Log}
          (last, logs)
          (latest, logs ++ span logs_of (last + 1) (latest - last))
  unfolding span
  reached latest last logs h k =
      let e : latest ≡ last = omega arith in
      let f : last - last ≡ 0 = omega arith in rw (e, f, append-nil)

  pub joined :
      (latest last to_block : ℕ) (logs : List Log)
      → last + 1 ≤ to_block
      → to_block ≤ latest
      → (logs ++ span logs_of (last + 1) (to_block + 1 - (last + 1)))
          ++ span logs_of (to_block + 1) (latest - to_block)
        ≡ logs ++ span logs_of (last + 1) (latest - last)
  joined latest last to_block logs h k =
      let first : ℕ = to_block + 1 - (last + 1) in
      let e : to_block + 1 ≡ last + 1 + first = omega arith in
      let f : latest - last ≡ first + (latest - to_block) = omega arith in
      append_assoc logs (span logs_of (last + 1) first)
        (span logs_of (to_block + 1) (latest - to_block))
      ∙ ap (λ l. logs ++ l)
          (ap (λ k. span logs_of (last + 1) first ++ span logs_of k (latest - to_block)) e
            ∙ sym (span-add logs_of (last + 1) first (latest - to_block))
            ∙ ap (span logs_of (last + 1)) (sym f))

  scan_lem :
      (fuel latest last : ℕ) (logs : List Log)
      → Answers logs_of s m latest
      → last ≤ latest
      → latest + s.window_size < 2 ^ 64
      → latest - last < fuel
      → scan fuel s m latest last logs
        ≡ ok (latest, logs ++ span logs_of (last + 1) (latest - last))
  scan_lem zero latest last logs a le b f = absurd (omega arith)
  scan_lem (suc fuel) latest last logs a le b f = elim (le_or_lt latest last) [
    | inl stop ↦
        scan_stop fuel latest last logs stop ∙ ap ok (reached latest last logs (omega arith) stop)
    | inr more ↦
        let (from, moved, window, within) = window_end_bounds s.window_size last latest more b in
        let to_block : ℕ = window_end s.window_size last latest in
        let found : List Log = span logs_of (last + 1) (to_block + 1 - (last + 1)) in
        scan_step fuel latest last logs found more
          (rw from (a.ranges (last + 1) to_block moved window within))
        ∙ scan_lem fuel latest to_block (logs ++ found) a within b (omega arith)
        ∙ ap (λ l. ok (latest, l)) (joined latest last to_block logs moved within)
  ]

  -- `next` returns the logs of every block behind the last synced one up to the latest one, each
  -- once and in order, and moves to the latest block, if the provider answers for ranges of at
  -- most `window_size + 1` blocks up to the latest one, the scanner is not ahead of the chain, the sums of blocks fit 64
  -- bits, and the fuel is more than the number of missing blocks.
  pub next_complete :
      (fuel latest : ℕ)
      → Answers logs_of s m latest
      → m.get_block_number ≡ inr latest
      → s.last_synced_block ≤ latest
      → latest + s.window_size < 2 ^ 64
      → latest - s.last_synced_block < fuel
      → next fuel m s ≡ (
        ok (span logs_of (s.last_synced_block + 1) (latest - s.last_synced_block)),
        record s { last_synced_block = latest },
      )
  unfolding next
  next_complete fuel latest a e le b f =
      ground (arith, e, scan_lem fuel latest s.last_synced_block [] a le b f)
