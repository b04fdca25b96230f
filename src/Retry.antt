-- ===== src/Retry.antt =====
-- bin/tree_availability_service.rs, `CustomRetryPolicy`: which failures of the provider are retried,
-- and after how long.
pub mod Rules
use Prim.Native.String.{String, [], ◌∷◌}
use text.Mathlib.Text.{starts_with, ◌==◌ as str_eq}
use world_tree.Prelude.{
  ℕ, ◌+◌, ◌%◌, ◌^◌, Bool, true, false, ◌||◌, ◌&&◌, Option, none, some, ◌==◌, if◌then◌else◌,
}
use world_tree.Prelude.Int.{ℤ, pos, negsuc}

-- `str::contains`
unfoldable pub contains : String → String → Bool
contains [] pattern = starts_with [] pattern
contains (c ∷ s) pattern = starts_with (c ∷ s) pattern || contains s pattern

abbrev pub int_eq : ℤ → ℤ → Bool
int_eq (pos a) (pos b) = a == b
int_eq (negsuc a) (negsuc b) = a == b
int_eq _ _ = false

-- The other crates' errors, over the types of JSON values.
pub record JsonRpcError (Json : Type 0) : Type 0 where
  pub code : ℤ
  pub message : String
  pub details : Option Json

pub data HttpClientError (Json : Type 0) : Type 0 where
  reqwest_error : Option ℕ → HttpClientError Json
  json_rpc_error : JsonRpcError Json → HttpClientError Json
  serde_json : String → HttpClientError Json

abbrev pub too_many_requests : ℕ
too_many_requests = 429

module _ {Json : Type 0} where
  unfoldable pub should_retry_json_rpc_error : JsonRpcError Json → Bool
  unfolding contains
  should_retry_json_rpc_error e =
      if int_eq e.code (pos 429)
      then true
      else if int_eq e.code (negsuc 32602)
      then true
      else if int_eq e.code (negsuc 32004)
      then true
      else if int_eq e.code (negsuc 32015) && contains e.message "rate limit"
      then true
      else if str_eq e.message "header not found"
      then true
      else str_eq e.message "daily request count exceeded, request rate limited"

  -- `parse` reads the JSON text of a response that holds an error.
  unfoldable pub should_retry : (String → Option (JsonRpcError Json)) → HttpClientError Json → Bool
  unfolding should_retry_json_rpc_error
  should_retry parse (reqwest_error status) = elim status [
    | none ↦ false
    | some code ↦ code == too_many_requests
  ]
  should_retry parse (json_rpc_error e) = should_retry_json_rpc_error e
  should_retry parse (serde_json body) = elim (parse body) [
    | none ↦ false
    | some e ↦ should_retry_json_rpc_error e
  ]

  -- `backoff_seconds` reads `data["rate"]["backoff_seconds"]` as an unsigned number, and
  -- `backoff_whole_seconds` the whole seconds of it as a float, cast to 64 bits.
  unfoldable pub backoff_hint :
      (Json → Option ℕ) → (Json → Option ℕ) → HttpClientError Json → Option ℕ
  backoff_hint backoff_seconds backoff_whole_seconds (json_rpc_error e) = elim e.details [
    | none ↦ none
    | some details ↦ elim (backoff_seconds details) [
      | some seconds ↦ some seconds
      | none ↦ elim (backoff_whole_seconds details) [
        | some seconds ↦ some ((seconds + 1) % 2 ^ 64)
        | none ↦ none
      ]
    ]
  ]
  backoff_hint backoff_seconds backoff_whole_seconds _ = none
