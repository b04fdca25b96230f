-- ===== src/Throttle.antt =====
-- crates/ethers-throttle/src/lib.rs: the provider that waits for the rate limiter before each request.
pub mod Paced
use world_tree.Prelude.{ℕ, Option, none, some, List, [], ◌∷◌, ◌==◌, if◌then◌else◌}

-- What a limiter is after a wait, and when it ends.
pub record Ready (Limiter : Type 0) : Type 0 where
  pub limiter : Limiter
  pub time : ℕ

-- What a request leaves: the provider, the time, and the reply.
pub record Done (Provider Reply : Type 0) : Type 0 where
  pub provider : Provider
  pub time : ℕ
  pub reply : Reply

-- The crate governor, with times in numbers: a limiter for a number of requests per second, and its two ways to wait, which
-- change its state and the time.
pub record Governor (Jitter : Type 0) : Type 1 where
  pub Limiter : Type 0
  pub per_second : ℕ → Limiter
  pub until_ready : Limiter → ℕ → Ready Limiter
  pub until_ready_with_jitter : Jitter → Limiter → ℕ → Ready Limiter

-- A provider below: its answer to a request at a time, the provider afterwards, and when.
pub record JsonRpcClient (Call Reply : Type 0) : Type 1 where
  pub Provider : Type 0
  pub request : Provider → Call → ℕ → Done Provider Reply

module _ {Jitter Call Reply : Type 0} (G : Governor Jitter) (C : JsonRpcClient Call Reply) where
  pub record ThrottledProvider : Type 0 where
    pub throttle : G.Limiter
    pub jitter : Option Jitter
    pub inner : C.Provider

  -- `none` is the panic of `expect`.
  unfoldable pub new : C.Provider → ℕ → Option Jitter → Option ThrottledProvider
  new provider requests_per_second delay =
      if requests_per_second == 0
      then none
      else some
          (record { throttle = G.per_second requests_per_second; jitter = delay; inner = provider })

  unfoldable pub wait : ThrottledProvider → ℕ → Ready G.Limiter
  wait p now = elim p.jitter [
    | some delay ↦ G.until_ready_with_jitter delay p.throttle now
    | none ↦ G.until_ready p.throttle now
  ]

  unfoldable pub request : ThrottledProvider → Call → ℕ → Done ThrottledProvider Reply
  unfolding wait
  request p call now =
      let ready = wait p now in
      let done = C.request p.inner call ready.time in
      record {
        provider = record p { throttle = ready.limiter; inner = done.provider };
        time = done.time;
        reply = done.reply;
      }

  -- Requests one after another, each from the time at which the one before is done.
  unfoldable pub requests : ThrottledProvider → List Call → ℕ → List Reply
  unfolding request
  requests p [] now = []
  requests p (call ∷ calls) now =
      let done = request p call now in done.reply ∷ requests done.provider calls done.time
