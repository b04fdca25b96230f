-- ===== src/BlockScanner/Partial.antt =====
-- `next` against a provider that may fail at any request, but answers truthfully when it does not.
use world_tree.Prelude.{
  ℕ, zero, suc, ◌+◌, ◌-◌, ◌^◌, ◌≤◌, ◌<◌, ◌≡◌, sym, ap, ◌∙◌, ◌⊎◌, inl, inr, List, [], ◌++◌, arith,
  le_or_lt,
}
use world_tree.Exec.{Outcome, ok, Outcome-cases}
use world_tree.Chain.{with_range, Log, Middleware}
use world_tree.BlockScanner.{BlockScanner, add_u64, window_end, scan, next}
use world_tree.BlockScanner.Complete.{
  span, scan_stop, scan_step, reached, joined, window_end_bounds,
}

-- An answer is the given one, or an error.
abbrev pub OrFails : {X A : Type 0} → X ⊎ A → A → Type 0
OrFails {X} answer a = (answer ≡ inr a) ⊎ ((x : X) × (answer ≡ inl x))

-- For the chain's head `latest` and its logs, and a scanner whose sums fit.
pub record Truthful {X : Type 0} (logs_of : ℕ → List Log) (s : BlockScanner) (m : Middleware X)
    (latest : ℕ) : Type 0 where
  pub head : OrFails m.get_block_number latest
  pub ranges :
      (a b : ℕ)
      → a ≤ b
      → b ≤ a + s.window_size
      → b ≤ latest
      → OrFails (m.get_logs (with_range s.filter a b)) (span logs_of a (b + 1 - a))
  pub behind : s.last_synced_block ≤ latest
  pub fits : latest + s.window_size < 2 ^ 64

module _ {X : Type 0} (logs_of : ℕ → List Log) (s : BlockScanner) (m : Middleware X) (latest : ℕ)
    (t : Truthful logs_of s m latest) where
  scan-ok :
      (fuel last : ℕ) (logs : List Log) (r : ℕ × List Log)
      → last ≤ latest
      → scan fuel s m latest last logs ≡ ok r
      → r ≡ (latest, logs ++ span logs_of (last + 1) (latest - last))
  unfolding scan
  scan-ok zero last logs r le h = cc
  scan-ok (suc fuel) last logs r le h = elim (le_or_lt latest last) [
    | inl stop ↦
        let e = sym (scan_stop logs_of s m fuel latest last logs stop) ∙ h in
        ok_inj (sym e) ∙ reached logs_of s m latest last logs le stop
    | inr more ↦
        let (from, moved, window, within) =
          window_end_bounds s.window_size last latest more t.fits in
        let to_block : ℕ = window_end s.window_size last latest in
        let found : List Log = span logs_of (last + 1) (to_block + 1 - (last + 1)) in
        let answer : OrFails (m.get_logs (with_range s.filter (add_u64 last 1) to_block)) found =
          rw from (t.ranges (last + 1) to_block moved window within) in
        elim answer [
          | inl e ↦
              let rest =
                scan-ok fuel to_block (logs ++ found) r within
                  (sym (scan_step logs_of s m fuel latest last logs found more e) ∙ h) in
              rest
              ∙ ap (λ l. (latest, l)) (joined logs_of s m latest last to_block logs moved within)
          | inr (x, e) ↦ absurd (ground (arith, more, e, h))
        ]
  ]
    where
      ok_inj : {a b : ℕ × List Log} → ◌≡◌ {A = Outcome X (ℕ × List Log)} (ok a) (ok b) → a ≡ b
      ok_inj e = cc

  -- If `next` succeeds, it has found just the logs of the missing blocks and stands at the head.
  pub next-ok :
      (fuel : ℕ) (logs : List Log) (s' : BlockScanner)
      → next fuel m s ≡ (ok logs, s')
      → (logs ≡ span logs_of (s.last_synced_block + 1) (latest - s.last_synced_block))
        × (s' ≡ record s { last_synced_block = latest })
  unfolding next
  next-ok fuel logs s' h = elim t.head [
    | inl e ↦ elim (Outcome-cases (scan fuel s m latest s.last_synced_block [])) [
      | inl (r, f) ↦
          let run : next fuel m s ≡ (ok r.1, record s { last_synced_block = r.0 }) =
            ground (arith, e, f) in
          let (found, stands) = answer (sym run ∙ h) in
          let all = scan-ok fuel s.last_synced_block [] r t.behind f in
          (
            sym found ∙ ap (λ r. r.1) all,
            sym stands ∙ ap (λ r. record s { last_synced_block = r.0 }) all,
          )
      | inr (inl (x, f)) ↦ absurd (ground (arith, e, f, h))
      | inr (inr (inl f)) ↦ absurd (ground (arith, e, f, h))
      | inr (inr (inr f)) ↦ absurd (ground (arith, e, f, h))
    ]
    | inr (x, e) ↦ absurd (ground (arith, e, h))
  ]
    where
      answer :
          {a b : List Log} {c d : BlockScanner}
          → ◌≡◌ {A = Outcome X (List Log) × BlockScanner} (ok a, c) (ok b, d)
          → (a ≡ b) × (c ≡ d)
      answer e = (cc, cc)
