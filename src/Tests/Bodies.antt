-- ===== src/Tests/Bodies.antt =====
-- The theorems on the bodies of requests and responses.
use world_tree.Prelude.{ℕ, ◌≡◌, ◌≤◌, ◌↔◌, refl, inr, none, some, true, false, List, [], ◌∷◌, length}
use world_tree.Logging.{
  HttpBody, Request, Response, body_to_string, body_to_bytes_safe, middleware, size_hint,
  read_chunks, max_request_body_size,
}
use world_tree.Logging.Body.{good, concat, body_to_bytes_safe_iff}

-- Two chunks, without an exact length.
abbrev chunked : HttpBody ℕ
chunked = record { lower = 0; upper = none; chunks = inr (1 ∷ 2 ∷ []) ∷ inr (3 ∷ []) ∷ [] }

abbrev huge : HttpBody ℕ
huge = record { lower = 0; upper = some 1048577; chunks = [] }

abbrev body_from : List ℕ → HttpBody ℕ
body_from bytes = record {
  lower = length bytes;
  upper = some (length bytes);
  chunks = inr bytes ∷ [];
}

abbrev body_empty : HttpBody ℕ
body_empty = record { lower = 0; upper = some 0; chunks = [] }

-- A handler that echoes the body.
abbrev echo : Request ℕ (HttpBody ℕ) → Response ℕ (HttpBody ℕ)
echo request = record { parts = request.parts; status = 404; body = request.body }

abbrev get_request : Request ℕ (HttpBody ℕ)
get_request = record { parts = 5; is_get = true; body = chunked }

abbrev huge_request : Request ℕ (HttpBody ℕ)
huge_request = record { parts = 5; is_get = false; body = huge }

chunked-run : body_to_bytes_safe chunked ≡ inr (1 ∷ 2 ∷ 3 ∷ [])
unfolding body_to_bytes_safe read_chunks size_hint
chunked-run = refl

body_to_bytes_safe_iff_example : (body_to_bytes_safe chunked ≡ inr (1 ∷ 2 ∷ 3 ∷ [])) ↔ (
    (cs : List (List ℕ)) × (chunked.chunks ≡ good ℕ cs)
    × (1 ∷ 2 ∷ 3 ∷ [] ≡ concat cs)
    × (3 ≤ max_request_body_size)
    × (size_hint chunked ≤ max_request_body_size))
body_to_bytes_safe_iff_example = body_to_bytes_safe_iff ℕ chunked (1 ∷ 2 ∷ 3 ∷ [])

-- The body of the request does not come back.
abbrev get_response : Response ℕ (HttpBody ℕ)
get_response = record { parts = 5; status = 404; body = body_from [] }

get_request-run : middleware some body_from body_empty echo get_request ≡ inr get_response
unfolding middleware body_to_string body_to_bytes_safe
get_request-run = refl
