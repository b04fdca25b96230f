-- ===== src/Throttle/Paced.antt =====
-- The throttled provider keeps the pace of its limiter, for requests one after another.
use world_tree.Prelude.{
  ℕ, ◌+◌, ◌-◌, ◌*◌, ◌/◌, ◌≤◌, ◌≡◌, ◌≢◌, Option, none, some, List, [], ◌∷◌, arith, get_elem?, All,
}
use world_tree.Throttle.{
  Governor, Ready, JsonRpcClient, ThrottledProvider, new, wait, request, requests,
}

-- Times in nanoseconds, the latest one first, for `n` requests per second: `n` of them may come at
-- once, and each one more takes another `n`th of a second.
pub record Paced (n : ℕ) (times : List ℕ) : Type 0 where
  pub apart :
      (i j earlier later : ℕ)
      → get_elem? times i ≡ some later
      → get_elem? times (i + j) ≡ some earlier
      → earlier + (j + 1 - n) * (1000000000 / n) ≤ later

module _ {Jitter Call Reply : Type 0} (G : Governor Jitter) (C : JsonRpcClient Call Reply) where
  -- What governor documents, for a clock that does not go back. `Granted n l times` says that `l` is
  -- a limiter for `n` requests per second that has let through requests at these times. A jitter
  -- adds a delay up to its longest to the wait.
  pub record IsGovernor : Type 1 where
    pub Granted : ℕ → G.Limiter → List ℕ → Type 0
    pub longest : Jitter → ℕ
    pub fresh : (n : ℕ) → n ≢ 0 → Granted n (G.per_second n) []
    pub ready_lem :
        {n : ℕ} {l : G.Limiter} {times : List ℕ} (now : ℕ)
        → Granted n l times
        → All (λ t. t ≤ now) times
        → (now ≤ (G.until_ready l now).time)
          × Granted n (G.until_ready l now).limiter ((G.until_ready l now).time ∷ times)
    pub jitter_lem :
        {n : ℕ} {l : G.Limiter} {times : List ℕ} (d : Jitter) (now : ℕ)
        → Granted n l times
        → All (λ t. t ≤ now) times
        → (granted : ℕ) × (now ≤ granted)
          × (granted ≤ (G.until_ready_with_jitter d l now).time)
          × ((G.until_ready_with_jitter d l now).time ≤ granted + longest d)
          × Granted n (G.until_ready_with_jitter d l now).limiter (granted ∷ times)
    pub paced : {n : ℕ} {l : G.Limiter} {times : List ℕ} → Granted n l times → Paced n times
    -- A reply does not come before its request.
    pub reply_lem : (q : C.Provider) (call : Call) (now : ℕ) → now ≤ (C.request q call now).time

  module _ (W : IsGovernor) where
    abbrev pub longest_of : Option Jitter → ℕ
    longest_of none = 0
    longest_of (some d) = W.longest d

    -- The provider below is sent the calls in their order and gives the replies. Each is let through
    -- at a time not before it is asked for, or before the one ahead is done, and sent then or up to the longest
    -- delay later. The times at which calls are let through, before and after, have the latest one first.
    pub data Sends (d : Option Jitter)
        : C.Provider → List ℕ → ℕ → List Call → List Reply → List ℕ → Type 0 where
      idle : {q : C.Provider} {times : List ℕ} {now : ℕ} → Sends d q times now [] [] times
      sent :
          {q : C.Provider} {times : List ℕ} {now ready granted : ℕ} {call : Call}
          {calls : List Call} {replies : List Reply} {times' : List ℕ}
          → now ≤ granted
          → granted ≤ ready
          → ready ≤ granted + longest_of d
          → Sends d
              (C.request q call ready).provider
              (granted ∷ times)
              (C.request q call ready).time
              calls
              replies
              times'
          → Sends d q times now (call ∷ calls) ((C.request q call ready).reply ∷ replies) times'

    -- What a wait leaves.
    record Waited (n : ℕ) (d : Option Jitter) (times : List ℕ) (now : ℕ) (r : Ready G.Limiter)
        : Type 0 where
      granted : ℕ
      after : now ≤ granted
      before : granted ≤ r.time
      delayed : r.time ≤ granted + longest_of d
      next : W.Granted n r.limiter (granted ∷ times)

    wait-Waited :
        (n : ℕ) (p : ThrottledProvider G C) (times : List ℕ) (now : ℕ)
        → W.Granted n p.throttle times
        → All (λ t. t ≤ now) times
        → Waited n p.jitter times now (wait G C p now)
    unfolding wait
    wait-Waited n p times now g past =
        elim p.jitter
          as (λ d. Waited n d times now (elim d as (λ _. Ready G.Limiter) [
            | some delay ↦ G.until_ready_with_jitter delay p.throttle now
            | none ↦ G.until_ready p.throttle now
          ])) [
            | some d ↦
                let (at, after, before, delayed, next) = W.jitter_lem d now g past in
                record {
                  granted = at;
                  after = after;
                  before = before;
                  delayed = delayed;
                  next = next;
                }
            | none ↦
                let (after, next) = W.ready_lem now g past in
                record {
                  granted = (G.until_ready p.throttle now).time;
                  after = after;
                  before = omega arith;
                  delayed = omega arith;
                  next = next;
                }
          ]

    All-later : (a b : ℕ) (times : List ℕ) → a ≤ b → All (λ t. t ≤ a) times → All (λ t. t ≤ b) times
    All-later a b [] h past = tt
    All-later a b (t ∷ times) h past = (omega (arith, h, past.0), All-later a b times h past.1)

    requests-Sends :
        (n : ℕ) (p : ThrottledProvider G C) (times : List ℕ) (calls : List Call) (now : ℕ)
        → W.Granted n p.throttle times
        → All (λ t. t ≤ now) times
        → (times' : List ℕ) × Sends p.jitter p.inner times now calls
            (requests G C p calls now)
            times'
          × Paced n times'
    unfolding requests request
    requests-Sends n p times [] now g past = (times, idle, W.paced g)
    requests-Sends n p times (call ∷ calls) now g past =
        let w = wait-Waited n p times now g past in
        let done = request G C p call now in
        let later : w.granted ≤ done.time =
          omega (arith, w.before, W.reply_lem p.inner call (wait G C p now).time) in
        let (times', rest, paced) =
          requests-Sends n done.provider (w.granted ∷ times) calls done.time w.next
            (later, All-later now done.time times (omega (arith, w.after, later)) past) in
        (times', sent w.after w.before w.delayed rest, paced)

    -- A limit of zero requests per second panics. With any other limit, for a limiter as governor
    -- documents it and a clock that does not go back, a throttled provider is made, and requests to
    -- it one after another have the replies of the provider below to the same requests, in their
    -- order and each sent once: let through by the limiter not before it is asked for or before the
    -- one ahead is done, and sent then or, with a jitter, up to its longest delay later; and the
    -- request that is let through `j` behind another comes at least `j + 1 - n` times an `n`th of a
    -- second, in whole nanoseconds, after it, for a limit of `n`.
    pub new-Sends :
        (q : C.Provider) (n : ℕ) (d : Option Jitter)
        → (n ≡ 0 → new G C q n d ≡ none)
          × (n ≢ 0
              → (p : ThrottledProvider G C) × (new G C q n d ≡ some p)
                × ((calls : List Call) (now : ℕ)
                    → (times : List ℕ) × Sends d q [] now calls (requests G C p calls now) times
                      × Paced n times))
    unfolding new
    new-Sends q n d = (
      (λ z. ground (arith, z)),
      (λ z.
          let p : ThrottledProvider G C = record {
            throttle = G.per_second n;
            jitter = d;
            inner = q;
          } in
          (p, ground (arith, z), λ calls now. requests-Sends n p [] calls now (W.fresh n z) tt)),
    )
