-- ===== src/Tests/Pace.antt =====
-- The theorem on the throttled provider, for a limiter that spaces requests evenly.
use world_tree.Prelude.{
  ℕ, zero, suc, ◌+◌, ◌-◌, ◌*◌, ◌/◌, ◌≤◌, ◌≡◌, ◌≢◌, refl, none, some, List, [], ◌∷◌, arith,
  get_elem?,
}
use world_tree.Throttle
use world_tree.Throttle.{Governor, JsonRpcClient, ThrottledProvider, requests}
use world_tree.Throttle.Paced.{Paced, IsGovernor, Sends, new-Sends}

-- A limiter has its quota, and the time from which it lets the next request through.
abbrev interval : ℕ → ℕ
interval n = 1000000000 / n

abbrev granted_at : ℕ × ℕ → ℕ → ℕ
granted_at l now = now + (l.1 - now)

abbrev pub governor : Governor ℕ
governor = record {
  Limiter = ℕ × ℕ;
  per_second = λ n. (n, 0);
  until_ready =
      λ l now. record { limiter = (l.0, granted_at l now + interval l.0); time = granted_at l now };
  until_ready_with_jitter = λ d l now. record {
    limiter = (l.0, granted_at l now + interval l.0);
    time = granted_at l now + d;
  };
}

abbrev pub counting : JsonRpcClient ℕ ℕ
counting = record {
  Provider = ℕ;
  request = λ q call now. record { provider = suc q; time = now + 1; reply = q + call };
}

-- Each an interval after the one before it.
abbrev Spaced : ℕ → ℕ → List ℕ → Type 0
Spaced k next [] = Unit
Spaced k next (t ∷ times) = (t + k ≤ next) × Spaced k t times

Spaced-next :
    (k next i e : ℕ) (times : List ℕ)
    → Spaced k next times
    → get_elem? times i ≡ some e
    → e + (i + 1) * k ≤ next
Spaced-next k next i e [] h at = absurd cc
Spaced-next k next zero e (t ∷ times) h at = let same : t ≡ e = cc in omega (arith, same, h.0)
Spaced-next k next (suc i) e (t ∷ times) h at =
    let rest = Spaced-next k t i e times h.1 at in grind (arith, rest, h.0)

Spaced-apart :
    (k next i j earlier later : ℕ) (times : List ℕ)
    → Spaced k next times
    → get_elem? times i ≡ some later
    → get_elem? times (i + j) ≡ some earlier
    → earlier + j * k ≤ later
Spaced-apart k next i j earlier later [] h at before = absurd cc
Spaced-apart k next zero zero earlier later (t ∷ times) h at before =
    let same : later ≡ earlier = cc in omega (arith, same)
Spaced-apart k next zero (suc j) earlier later (t ∷ times) h at before =
    let same : t ≡ later = cc in
    let e : j + 1 ≡ suc j = omega arith in
    let z : 0 + suc j ≡ suc j = omega arith in
    let rest = Spaced-next k t j earlier times h.1 (rw z at before) in rw e at (rw same at rest)
Spaced-apart k next (suc i) j earlier later (t ∷ times) h at before =
    let e : suc i + j ≡ suc (i + j) = omega arith in
    Spaced-apart k t i j earlier later times h.1 at (rw e at before)

product_le : (a b k : ℕ) → a ≤ b → a * k ≤ b * k
product_le a b k h = grind (arith, h)

record Granted (n : ℕ) (l : ℕ × ℕ) (times : List ℕ) : Type 0 where
  quota : l.0 ≡ n
  some_quota : n ≢ 0
  spaced : Spaced (interval n) l.1 times

Granted-Paced : (n : ℕ) (l : ℕ × ℕ) (times : List ℕ) → Granted n l times → Paced n times
Granted-Paced n l times g = record {
  apart = λ i j earlier later at before.
      let rest = Spaced-apart (interval n) l.1 i j earlier later times g.spaced at before in
      let fewer : j + 1 - n ≤ j = omega (arith, g.some_quota) in
      omega (arith, rest, product_le (j + 1 - n) j (interval n) fewer);
}

-- One more request.
Granted-more :
    (n now : ℕ) (l : ℕ × ℕ) (times : List ℕ)
    → Granted n l times
    → Granted n (l.0, granted_at l now + interval l.0) (granted_at l now ∷ times)
Granted-more n now l times g = record {
  quota = g.quota;
  some_quota = g.some_quota;
  spaced = (rw g.quota (omega arith), Spaced-later times g.spaced);
}
  where
    Spaced-later :
        (times : List ℕ)
        → Spaced (interval n) l.1 times
        → Spaced (interval n) (granted_at l now) times
    Spaced-later [] h = tt
    Spaced-later (t ∷ times) h = (omega (arith, h.0), h.1)

pub governor-IsGovernor : IsGovernor governor counting
governor-IsGovernor = record {
  Granted = Granted;
  longest = λ d. d;
  fresh = λ n h. record { quota = refl; some_quota = h; spaced = tt };
  ready_lem = λ {n} {l} {times} now g past. (omega arith, Granted-more n now l times g);
  jitter_lem = λ {n} {l} {times} d now g past.
      (granted_at l now, omega arith, omega arith, omega arith, Granted-more n now l times g);
  paced = λ {n} {l} {times} g. Granted-Paced n l times g;
  reply_lem = λ q call now. omega arith;
}

new-Sends_example :
    (◌≡◌ {A = ℕ} 10 0 → Throttle.new governor counting 5 10 (some 50) ≡ none)
    × (◌≢◌ {A = ℕ} 10 0
        → (p : ThrottledProvider governor counting) × (Throttle.new governor counting 5 10 (some 50)
            ≡ some p)
          × ((calls : List ℕ) (now : ℕ)
              → (times : List ℕ) × Sends governor counting governor-IsGovernor
                  (some 50)
                  5
                  []
                  now
                  calls
                  (requests governor counting p calls now)
                  times
                × Paced 10 times))
new-Sends_example = new-Sends governor counting governor-IsGovernor 5 10 (some 50)
