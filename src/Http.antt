-- ===== src/Http.antt =====
-- src/tree/service.rs, the router of `serve`: the routes, and the logging middleware around them.
pub mod Posts
pub mod Answers
pub mod Status
use Prim.Native.String.{String}
use text.Mathlib.Text.{◌==◌ as str_eq}
use world_tree.Prelude.{
  ℕ, Bool, true, false, ◌⊎◌, inl, inr, Option, none, some, List, if◌then◌else◌,
}
use world_tree.Merkle.{PoseidonTree}
use world_tree.Foreign.{Foreign}
use world_tree.TreeData.{InclusionProof}
use world_tree.WorldTree.{WorldTree}
use world_tree.Service.{
  InclusionProofRequest, SyncResponse, inclusion_proof, synced, health, into_response,
}
use world_tree.Logging.{HttpBody, Request, Response, middleware}

pub data Method : Type 0 where
  get head post other : Method

abbrev pub is_get : Method → Bool
is_get get = true
is_get _ = false

-- `routing::get` takes HEAD as well.
abbrev pub is_get_or_head : Method → Bool
is_get_or_head get = true
is_get_or_head head = true
is_get_or_head _ = false

abbrev pub is_post : Method → Bool
is_post post = true
is_post _ = false

-- The head of a request, over the type of its headers.
pub record Parts (Headers : Type 0) : Type 0 where
  pub method : Method
  pub path : String
  pub headers : Headers

-- What the routes take from axum and hyper: extractors, and how values turn into responses.
pub record Axum (P : PoseidonTree) : Type 1 where
  pub Failure : Type 0
  pub Text : Type 0
  pub Headers : Type 0
  pub ResponseHead : Type 0
  pub from_utf8 : List ℕ → Option Text
  pub body_from : Text → HttpBody Failure
  pub body_empty : HttpBody Failure
  -- The extractor `Json` of the request: a rejection, or the value.
  pub json_request :
      Headers → HttpBody Failure → Response ResponseHead (HttpBody Failure) ⊎ InclusionProofRequest
  -- `into_response` of a status code with a value, with a text, and alone.
  pub json_proof : ℕ → Option (InclusionProof P) → Response ResponseHead (HttpBody Failure)
  pub json_sync : ℕ → SyncResponse → Response ResponseHead (HttpBody Failure)
  pub with_text : ℕ → String → Response ResponseHead (HttpBody Failure)
  pub status_only : ℕ → Response ResponseHead (HttpBody Failure)
  -- What the router answers by itself: to another path, or another method of a path.
  pub unrouted :
      Request (Parts Headers) (HttpBody Failure) → Response ResponseHead (HttpBody Failure)

module _ {P : PoseidonTree} (A : Axum P) where
  abbrev pub Req : Type 0
  Req = Request (Parts A.Headers) (HttpBody A.Failure)

  abbrev pub Res : Type 0
  Res = Response A.ResponseHead (HttpBody A.Failure)

module _ (P : PoseidonTree) (F : Foreign) (A : Axum P) where
  -- The handler of `/inclusionProof` between its extractor and its response.
  unfoldable pub inclusion_proof_route : WorldTree P F → Req A → Res A
  unfolding inclusion_proof into_response
  inclusion_proof_route world_tree request =
      elim (A.json_request request.parts.headers request.body) [
        | inl rejection ↦ rejection
        | inr req ↦ elim (inclusion_proof P F world_tree req) [
          | inl e ↦ let (code, message) = into_response e in A.with_text code message
          | inr (code, proof) ↦ A.json_proof code proof
        ]
      ]

  unfoldable pub synced_route : WorldTree P F → Res A
  unfolding synced
  synced_route world_tree = let (code, reply) = synced P F world_tree in A.json_sync code reply

  unfoldable pub routes : WorldTree P F → Req A → Res A
  unfolding inclusion_proof_route synced_route health
  routes world_tree request =
      if str_eq request.parts.path "/inclusionProof"
      then (if is_post request.parts.method
          then inclusion_proof_route world_tree request
          else A.unrouted request)
      else if str_eq request.parts.path "/synced"
      then (if is_post request.parts.method then synced_route world_tree else A.unrouted request)
      else if str_eq request.parts.path "/health"
      then (if is_get_or_head request.parts.method
          then A.status_only health
          else A.unrouted request)
      else A.unrouted request

  -- The whole router: the middleware's error, a status code, is a response as well.
  unfoldable pub app : WorldTree P F → Parts A.Headers → HttpBody A.Failure → Res A
  unfolding middleware routes
  app world_tree parts body =
      elim (middleware A.from_utf8 A.body_from A.body_empty (routes world_tree)
        (record { parts = parts; is_get = is_get parts.method; body = body })) [
          | inl code ↦ A.status_only code
          | inr response ↦ response
        ]
