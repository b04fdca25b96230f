-- ===== src/Tests/Clients.antt =====
-- The theorems on the router, for requests and responses of a few numbers.
use mathlib.Core.List.{append-nil}
use Prim.Native.String.{len}
use world_tree.Prelude.{
  ℕ, zero, suc, sym, ap, ◌≡◌, refl, ◌⊎◌, inl, inr, true, false, if◌then◌else◌, Option, none, some,
  List, [], ◌∷◌, arith, length,
}
use world_tree.TreeData.{InclusionProof, get_inclusion_proof}
use world_tree.TreeData.Proofs.{Verifies}
use world_tree.Service.{InclusionProofRequest, status_ok, service_unavailable}
use world_tree.Logging.{
  HttpBody, Response, body_to_string, body_to_bytes_safe, read_chunks, size_hint,
}
use world_tree.Http.{Axum, Parts, get, post, app}
use world_tree.Http.Status.{status_routes}
use world_tree.Http.Posts.{IsAxum, Posts}
use world_tree.Http.Answers.{posted_proof, posted_reply}
use world_tree.Tests.Tree.{list_tree, list_tree-IsMerkle}
use world_tree.Tests.Contract.{crates, crates-Accepts}
use world_tree.Tests.Sync.{final}
use world_tree.Tests.Task.{failed, failed-Reach, request}
use world_tree.Tests.Transactions.{
  synced_once, service-Follows, service-FollowsUnrepeated, synced_once-run,
}

-- A text is its bytes; a body has them in one chunk.
abbrev pub body_of : List ℕ → HttpBody ℕ
body_of bytes = record {
  lower = length bytes;
  upper = some (length bytes);
  chunks = inr bytes ∷ [];
}

abbrev pub response_of : ℕ → List ℕ → Response ℕ (HttpBody ℕ)
response_of code bytes = record { parts = 0; status = code; body = body_of bytes }

-- A request's first chunk is an identity, and perhaps a root.
abbrev pub read_request : List (ℕ ⊎ List ℕ) → Response ℕ (HttpBody ℕ) ⊎ InclusionProofRequest
read_request (inr (q ∷ []) ∷ _) = inr (record { identity_commitment = q; root = none })
read_request (inr (q ∷ r ∷ []) ∷ _) = inr (record { identity_commitment = q; root = some r })
read_request _ = inl (response_of 422 [])

abbrev pub proof_bytes : Option (InclusionProof list_tree) → List ℕ
proof_bytes none = []
proof_bytes (some p) = p.root ∷ []

abbrev pub sync_bytes : Option ℕ → List ℕ
sync_bytes none = []
sync_bytes (some n) = n ∷ []

-- The text of each message is as long as it, with the same character throughout.
abbrev pub units : ℕ → List ℕ
units zero = []
units (suc n) = 1 ∷ units n

length-units : (n : ℕ) → length (units n) ≡ n
length-units zero = refl
length-units (suc n) = ap suc (length-units n)

abbrev pub server : Axum list_tree
server = record {
  Failure = ℕ;
  Text = List ℕ;
  Headers = ℕ;
  ResponseHead = ℕ;
  from_utf8 = some;
  body_from = body_of;
  body_empty = body_of [];
  json_request = λ headers body. read_request body.chunks;
  json_proof = λ code p. response_of code (proof_bytes p);
  json_sync = λ code r. response_of code (sync_bytes r.block_number);
  with_text = λ code s. response_of code (units (len s));
  status_only = λ code. response_of code [];
  unrouted = λ r. response_of 404 [];
}

pub server-IsAxum : IsAxum server
unfolding body_to_string body_to_bytes_safe read_chunks size_hint
server-IsAxum = record {
  proof_status = λ code p. refl;
  sync_status = λ code r. refl;
  text_status = λ code s. refl;
  status_only_lem = λ code. refl;
  text_of = λ s. units (len s);
  bytes_of = λ s. units (len s);
  text_hint = λ code s. refl;
  text_chunks = λ code s. (units (len s) ∷ [], refl, sym (append-nil (units (len s))));
  decoded = λ s. refl;
  utf8_length = λ s. omega (arith, length-units (len s));
}

abbrev pub parts : Parts ℕ
parts = record { method = post; path = "/inclusionProof"; headers = 0 }

pub asks_seven : Posts list_tree crates server parts (body_of (7 ∷ [])) request
unfolding body_to_string body_to_bytes_safe read_chunks size_hint
asks_seven = record { method = refl; path = refl; text = 7 ∷ []; readable = refl; decoded = refl }

posted_proof_example :
    (p : InclusionProof list_tree) × (app list_tree crates server synced_once parts
        (body_of (7 ∷ []))
      ≡ response_of status_ok (proof_bytes (some p)))
    × Verifies list_tree 7 p
    × (p.root ≡ list_tree.root synced_once.tree_data.tree)
posted_proof_example =
    posted_proof list_tree crates server 0 2 2 0 5 1 3 1 server-IsAxum list_tree-IsMerkle
      crates-Accepts synced_once final service-Follows service-FollowsUnrepeated synced_once-run 0 7
      refl (λ e. absurd (omega (arith, e))) parts (body_of (7 ∷ [])) asks_seven

posted_reply_example :
    (failed.synced ≡ true
      → app list_tree crates server failed parts (body_of (7 ∷ []))
        ≡ response_of status_ok
            (proof_bytes (get_inclusion_proof list_tree failed.tree_data 7 none)))
    × (failed.synced ≡ false
        → ((app list_tree crates server failed parts (body_of (7 ∷ []))).status
            ≡ service_unavailable)
          × ((app list_tree crates server failed parts (body_of (7 ∷ []))).body
              ≡ body_of (units 34)))
unfolding server-IsAxum
posted_reply_example =
    posted_reply list_tree crates server 0 2 2 0 5 1 3 1 server-IsAxum request failed-Reach parts
      (body_of (7 ∷ [])) asks_seven

abbrev synced_parts : Parts ℕ
synced_parts = record { method = post; path = "/synced"; headers = 0 }

status_routes_example :
    (synced_parts.method ≡ get
      → synced_parts.path ≡ "/health"
      → app list_tree crates server failed synced_parts (body_of []) ≡ response_of status_ok [])
    × ((text : List ℕ)
        → synced_parts.method ≡ post
        → synced_parts.path ≡ "/synced"
        → body_to_string some (body_of []) ≡ inr text
        → app list_tree crates server failed synced_parts (body_of [])
          ≡ server.json_sync status_ok (
              if failed.synced
              then record { synced = true; block_number = none }
              else record { synced = false; block_number = some 3 }))
status_routes_example =
    status_routes list_tree crates server 0 2 2 0 5 1 3 1 server-IsAxum synced_parts (body_of [])
      failed-Reach
