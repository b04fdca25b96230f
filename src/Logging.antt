-- ===== src/Logging.antt =====
-- crates/axum-middleware/src/logging.rs: the middleware around every handler, less its log lines.
pub mod Body
use world_tree.Prelude.{
  ℕ, ◌*◌, Bool, true, false, ◌||◌, ◌&&◌, ◌⊎◌, inl, inr, Option, none, some, List, [], ◌∷◌, ◌++◌,
  length, leb, ltb, if◌then◌else◌,
}

abbrev pub max_request_body_size : ℕ
max_request_body_size = 1024 * 1024

abbrev pub bad_request : ℕ
bad_request = 400

abbrev pub payload_too_large : ℕ
payload_too_large = 413

abbrev pub internal_server_error : ℕ
internal_server_error = 500

-- A body: its size hint, and the chunks that come of it, each an error `X` or bytes.
pub record HttpBody (X : Type 0) : Type 0 where
  pub lower : ℕ
  pub upper : Option ℕ
  pub chunks : List (X ⊎ List ℕ)

-- `size_hint().upper()`, or else the lower bound.
unfoldable pub size_hint : {X : Type 0} → HttpBody X → ℕ
size_hint body = elim body.upper [ none ↦ body.lower | some n ↦ n ]

-- The loop over the chunks.
unfoldable pub read_chunks : {X : Type 0} → List ℕ → List (X ⊎ List ℕ) → ℕ ⊎ List ℕ
read_chunks body_bytes [] = inr body_bytes
read_chunks body_bytes (inl x ∷ chunks) = inl internal_server_error
read_chunks body_bytes (inr chunk ∷ chunks) =
    elim (ltb max_request_body_size (length (body_bytes ++ chunk))) [
      | true ↦ inl payload_too_large
      | false ↦ read_chunks (body_bytes ++ chunk) chunks
    ]

unfoldable pub body_to_bytes_safe : {X : Type 0} → HttpBody X → ℕ ⊎ List ℕ
unfolding size_hint read_chunks
body_to_bytes_safe body =
    if ltb max_request_body_size (size_hint body)
    then inl payload_too_large
    else read_chunks [] body.chunks

-- `from_utf8` is `String::from_utf8`, and `none` is an error.
unfoldable pub body_to_string : {X Text : Type 0} → (List ℕ → Option Text) → HttpBody X → ℕ ⊎ Text
body_to_string from_utf8 body = elim (body_to_bytes_safe body) [
  | inl code ↦ inl code
  | inr bytes ↦ elim (from_utf8 bytes) [ none ↦ inl bad_request | some s ↦ inr s ]
]

-- The heads of a request and of a response are passed on as they are.
pub record Request (Parts B : Type 0) : Type 0 where
  pub parts : Parts
  pub is_get : Bool
  pub body : B

pub record Response (Parts B : Type 0) : Type 0 where
  pub parts : Parts
  pub status : ℕ
  pub body : B

abbrev pub is_client_error : ℕ → Bool
is_client_error status = leb 400 status && ltb status 500

abbrev pub is_server_error : ℕ → Bool
is_server_error status = leb 500 status && ltb status 600

-- `Body::from` of a text and `Body::empty` are the other crate's.
module _ {X Text Head : Type 0} (from_utf8 : List ℕ → Option Text) (body_from : Text → HttpBody X)
    (body_empty : HttpBody X) where
  unfoldable pub handle_response : Response Head (HttpBody X) → ℕ ⊎ Response Head (HttpBody X)
  handle_response response =
      if is_client_error response.status || is_server_error response.status
      then elim (body_to_string from_utf8 response.body) [
        | inl code ↦ inl code
        | inr response_body ↦ inr (record response { body = body_from response_body })
      ]
      else inr response

  module _ {Parts : Type 0} where
    -- `next` is the rest of the stack.
    unfoldable pub middleware :
        (Request Parts (HttpBody X) → Response Head (HttpBody X))
        → Request Parts (HttpBody X)
        → ℕ ⊎ Response Head (HttpBody X)
    unfolding handle_response
    middleware next request =
        if request.is_get
        then handle_response (next (record request { body = body_empty }))
        else elim (body_to_string from_utf8 request.body) [
          | inl code ↦ inl code
          | inr body ↦ handle_response (next (record request { body = body_from body }))
        ]
