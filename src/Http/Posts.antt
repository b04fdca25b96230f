-- ===== src/Http/Posts.antt =====
-- A request to `/inclusionProof` on its way through the middleware and the routes.
use Prim.Native.String.{String, len}
use text.Mathlib.Text.{◌==◌ as str_eq}
use world_tree.Prelude.{
  ℕ, ◌*◌, ◌≤◌, ◌≡◌, refl, ◌∙◌, inl, inr, Bool, true, false, Option, some, List, length, arith,
  if◌then◌else◌, ap,
}
use world_tree.Merkle.{PoseidonTree}
use world_tree.Foreign.{Foreign}
use world_tree.Error.{tree_not_synced}
use world_tree.TreeData.{InclusionProof, get_inclusion_proof}
use world_tree.WorldTree.{WorldTree}
use world_tree.Service.{
  InclusionProofRequest, SyncResponse, status_ok, service_unavailable, inclusion_proof,
  into_response, to_status_code, error_text,
}
use world_tree.Logging.{
  HttpBody, max_request_body_size, size_hint, body_to_bytes_safe, body_to_string, handle_response,
  middleware,
}
use world_tree.Logging.Body.{good, concat, body_to_bytes_safe_iff}
use world_tree.Http.{
  Axum, Parts, Req, Res, post, is_get, is_post, inclusion_proof_route, routes, app,
}

-- What axum documents of them: a response has the status that it is made of; the response of a text
-- has a body of its size in UTF-8, which comes in chunks, can be decoded again, and takes at most
-- four bytes for a character.
pub record IsAxum {P : PoseidonTree} (A : Axum P) : Type 0 where
  pub proof_status :
      (code : ℕ) (p : Option (InclusionProof P)) → (A.json_proof code p).status ≡ code
  pub sync_status : (code : ℕ) (r : SyncResponse) → (A.json_sync code r).status ≡ code
  pub text_status : (code : ℕ) (s : String) → (A.with_text code s).status ≡ code
  pub status_only_lem : (code : ℕ) → (A.status_only code).status ≡ code
  pub text_of : String → A.Text
  pub bytes_of : String → List ℕ
  pub text_hint :
      (code : ℕ) (s : String) → (A.with_text code s).body.upper ≡ some (length (bytes_of s))
  pub text_chunks :
      (code : ℕ) (s : String)
      → (cs : List (List ℕ)) × ((A.with_text code s).body.chunks ≡ good A.Failure cs)
        × (bytes_of s ≡ concat cs)
  pub decoded : (s : String) → A.from_utf8 (bytes_of s) ≡ some (text_of s)
  pub utf8_length : (s : String) → length (bytes_of s) ≤ 4 * len s

pub if_false : {B : Type 0} {b : Bool} (x y : B) → b ≡ false → (if b then x else y) ≡ y
if_false x y h = rw h refl

module _ (P : PoseidonTree) (F : Foreign) (A : Axum P) where
  -- A request to `/inclusionProof` that the middleware and the extractor read as `req`.
  pub record Posts (parts : Parts A.Headers) (body : HttpBody A.Failure)
      (req : InclusionProofRequest) : Type 0 where
    pub method : parts.method ≡ post
    pub path : parts.path ≡ "/inclusionProof"
    pub text : A.Text
    pub readable : body_to_string A.from_utf8 body ≡ inr text
    pub decoded : A.json_request parts.headers (A.body_from text) ≡ inr req

  -- A request for the path goes to the handler.
  request_routed :
      (w : WorldTree P F) (parts : Parts A.Headers) (flag : Bool) (body : HttpBody A.Failure)
      → parts.method ≡ post
      → parts.path ≡ "/inclusionProof"
      → routes P F A w (record { parts = parts; is_get = flag; body = body })
        ≡ inclusion_proof_route P F A w (record { parts = parts; is_get = flag; body = body })
  unfolding routes
  request_routed w parts flag body m p =
      let at : str_eq parts.path "/inclusionProof" ≡ true = rw p refl in
      let by : is_post parts.method ≡ true = rw m refl in rw (at, by) refl

  -- The middleware hands a readable body on.
  pub middleware-read :
      (next : Req A → Res A)
      → (request : Req A) (text : A.Text) → request.is_get ≡ false
      → body_to_string A.from_utf8 request.body ≡ inr text
      → middleware A.from_utf8 A.body_from A.body_empty next request
        ≡ handle_response A.from_utf8 A.body_from A.body_empty
            (next (record request { body = A.body_from text }))
  unfolding middleware
  middleware-read next request text g h =
      if_false _ _ g
      ∙ ap
          (λ read. elim read [
            | inl code ↦ inl code
            | inr body ↦
                handle_response A.from_utf8 A.body_from A.body_empty
                  (next (record request { body = A.body_from body }))
          ])
          h

  -- What is left of the stack once the handler has answered.
  pub request_handled :
      (w : WorldTree P F) (parts : Parts A.Headers) (body : HttpBody A.Failure)
      → (req : InclusionProofRequest) (c : Posts parts body req) → (reply final : Res A)
      → inclusion_proof_route P F A w
          (record { parts = parts; is_get = is_get parts.method; body = A.body_from c.text })
        ≡ reply
      → handle_response A.from_utf8 A.body_from A.body_empty reply ≡ inr final
      → app P F A w parts body ≡ final
  unfolding app
  request_handled w parts body req c reply final answered passed =
      let e = request_routed w parts (is_get parts.method) (A.body_from c.text) c.method c.path in
      let g : is_get parts.method ≡ false = rw c.method refl in
      let read =
        middleware-read (routes P F A w)
          (record { parts = parts; is_get = is_get parts.method; body = body }) c.text g
          c.readable in
      ap (λ m. elim m [ inl failed ↦ A.status_only failed | inr response ↦ response ])
        (read ∙ ap (handle_response A.from_utf8 A.body_from A.body_empty) (e ∙ answered) ∙ passed)

  -- A reply that is no error passes the stack.
  pub reply_passes :
      (reply : Res A)
      → reply.status ≡ status_ok
      → handle_response A.from_utf8 A.body_from A.body_empty reply ≡ inr reply
  unfolding handle_response
  reply_passes reply h = rw h refl

  -- The handler's proof becomes its reply.
  pub proof_replied :
      (w : WorldTree P F) (request : Req A) (req : InclusionProofRequest)
      → (proof : Option (InclusionProof P))
      → A.json_request request.parts.headers request.body ≡ inr req
      → inclusion_proof P F w req ≡ inr (status_ok, proof)
      → inclusion_proof_route P F A w request ≡ A.json_proof status_ok proof
  unfolding inclusion_proof_route
  proof_replied w request req proof d e = ground (arith, d, e)

  -- A synced service returns what the tree has.
  pub synced_proof :
      (w : WorldTree P F) (req : InclusionProofRequest)
      → w.synced ≡ true
      → inclusion_proof P F w req
        ≡ inr (status_ok, get_inclusion_proof P w.tree_data req.identity_commitment req.root)
  unfolding inclusion_proof
  synced_proof w req e = ground (arith, e)

  -- The handler's refusal becomes its reply.
  pub refusal_replied :
      (w : WorldTree P F) (request : Req A) (req : InclusionProofRequest)
      → A.json_request request.parts.headers request.body ≡ inr req
      → inclusion_proof P F w req ≡ inl tree_not_synced
      → inclusion_proof_route P F A w request
        ≡ A.with_text service_unavailable "The world tree is not fully synced"
  unfolding inclusion_proof_route into_response to_status_code error_text
  refusal_replied w request req d e = ground (arith, d, e)

  -- A text whose UTF-8 is within the limit can be read back.
  read_text :
      (I : IsAxum A) (code : ℕ) (s : String)
      → 4 * len s ≤ max_request_body_size
      → body_to_string A.from_utf8 (A.with_text code s).body ≡ inr (I.text_of s)
  unfolding body_to_string size_hint
  read_text I code s short =
      let fits : length (I.bytes_of s) ≤ max_request_body_size =
        omega (arith, I.utf8_length s, short) in
      let hint : size_hint (A.with_text code s).body ≤ max_request_body_size =
        rw (I.text_hint code s) fits in
      let (cs, chunks, whole) = I.text_chunks code s in
      let read : body_to_bytes_safe (A.with_text code s).body ≡ inr (I.bytes_of s) =
        (body_to_bytes_safe_iff A.Failure (A.with_text code s).body (I.bytes_of s)).1
          (cs, chunks, whole, fits, hint) in
      ground (arith, read, I.decoded s)

  -- The middleware makes a new body of the text of a refusal.
  pub refusal_passes :
      (I : IsAxum A) (s : String)
      → 4 * len s ≤ max_request_body_size
      → handle_response A.from_utf8 A.body_from A.body_empty (A.with_text service_unavailable s)
        ≡ inr (record {
          parts = (A.with_text service_unavailable s).parts;
          status = service_unavailable;
          body = A.body_from (I.text_of s);
        })
  unfolding handle_response
  refusal_passes I s short =
      rw (I.text_status service_unavailable s, read_text I service_unavailable s short)
        (ap
          (λ code. inr (record {
            parts = (A.with_text service_unavailable s).parts;
            status = code;
            body = A.body_from (I.text_of s);
          }))
          (I.text_status service_unavailable s))
