-- ===== src/Logging/Body.antt =====
-- When `body_to_bytes_safe` accepts a body, and what it returns of it.
use mathlib.Core.List.{append-nil, append_assoc}
use world_tree.Prelude.{
  ℕ, ◌≤◌, ◌<◌, ◌≡◌, ◌↔◌, refl, sym, ap, ◌∙◌, ◌⊎◌, inl, inr, true, List, [], ◌∷◌, ◌++◌, map, arith,
  length, length-append, leb, if◌then◌else◌, Option, le_or_lt,
}
use world_tree.Logging.{
  HttpBody, max_request_body_size, payload_too_large, size_hint, read_chunks, body_to_bytes_safe,
  Request, Response, handle_response, middleware,
}

abbrev pub concat : List (List ℕ) → List ℕ
concat [] = []
concat (x ∷ xs) = x ++ concat xs

regroup : (acc c : List ℕ) (cs : List (List ℕ)) → (acc ++ c) ++ concat cs ≡ acc ++ (c ++ concat cs)
regroup acc c cs = append_assoc acc c (concat cs)

module _ (X : Type 0) where
  abbrev pub good : List (List ℕ) → List (X ⊎ List ℕ)
  good = map inr

  step_fits :
      (acc c : List ℕ) (chunks : List (X ⊎ List ℕ))
      → length (acc ++ c) ≤ max_request_body_size
      → read_chunks acc (inr c ∷ chunks) ≡ read_chunks (acc ++ c) chunks
  unfolding read_chunks
  step_fits acc c chunks h = ground arith

  step_too_large :
      (acc c : List ℕ) (chunks : List (X ⊎ List ℕ))
      → max_request_body_size < length (acc ++ c)
      → read_chunks acc (inr c ∷ chunks) ≡ inl payload_too_large
  unfolding read_chunks
  step_too_large acc c chunks h = ground arith

  read_chunks-fits :
      (acc : List ℕ) (cs : List (List ℕ))
      → length (acc ++ concat cs) ≤ max_request_body_size
      → read_chunks acc (good cs) ≡ inr (acc ++ concat cs)
  read_chunks-fits acc [] h = unfold read_chunks in ap inr (sym (append-nil acc))
  read_chunks-fits acc (c ∷ cs) h =
      let all : length ((acc ++ c) ++ concat cs) ≤ max_request_body_size =
        rw (regroup acc c cs) h in
      step_fits acc c (good cs) (omega (arith, length-append (acc ++ c) (concat cs)))
      ∙ read_chunks-fits (acc ++ c) cs all
      ∙ ap inr (regroup acc c cs)

  read_chunks-too_large :
      (acc : List ℕ) (cs : List (List ℕ))
      → length acc ≤ max_request_body_size
      → max_request_body_size < length (acc ++ concat cs)
      → read_chunks acc (good cs) ≡ inl payload_too_large
  read_chunks-too_large acc [] b h = absurd (omega (arith, ap length (append-nil acc)))
  read_chunks-too_large acc (c ∷ cs) b h =
      elim (le_or_lt (length (acc ++ c)) max_request_body_size) [
        | inl fits ↦
            step_fits acc c (good cs) fits
            ∙ read_chunks-too_large (acc ++ c) cs fits (rw (regroup acc c cs) h)
        | inr large ↦ step_too_large acc c (good cs) large
      ]

  read_chunks-inr :
      (acc : List ℕ) (chunks : List (X ⊎ List ℕ)) (bytes : List ℕ)
      → length acc ≤ max_request_body_size
      → read_chunks acc chunks ≡ inr bytes
      → (cs : List (List ℕ)) × (chunks ≡ good cs)
        × (bytes ≡ acc ++ concat cs)
        × (length bytes ≤ max_request_body_size)
  read_chunks-inr acc [] bytes b h =
      let e : acc ≡ bytes = unfold read_chunks in cc in
      ([], refl, sym e ∙ sym (append-nil acc), rw (← e) b)
  read_chunks-inr acc (inl x ∷ chunks) bytes b h = absurd (unfold read_chunks in cc)
  read_chunks-inr acc (inr c ∷ chunks) bytes b h =
      elim (le_or_lt (length (acc ++ c)) max_request_body_size) [
        | inl fits ↦
            let (cs, e, f, g) =
              read_chunks-inr (acc ++ c) chunks bytes fits
                (sym (step_fits acc c chunks fits) ∙ h) in
            (c ∷ cs, ap (λ l. inr c ∷ l) e, f ∙ regroup acc c cs, g)
        | inr large ↦
            let refused = step_too_large acc c chunks large in absurd (ground (arith, h, refused))
      ]

  body_to_bytes_safe-inr :
      (body : HttpBody X) (bytes : List ℕ)
      → body_to_bytes_safe body ≡ inr bytes
      → (cs : List (List ℕ)) × (body.chunks ≡ good cs)
        × (bytes ≡ concat cs)
        × (length bytes ≤ max_request_body_size)
        × (size_hint body ≤ max_request_body_size)
  unfolding body_to_bytes_safe
  body_to_bytes_safe-inr body bytes h = elim (le_or_lt (size_hint body) max_request_body_size) [
    | inl small ↦
        let (cs, e, f, g) =
          read_chunks-inr [] body.chunks bytes (omega arith) (ground (arith, h)) in
        (cs, e, f, g, small)
    | inr large ↦ absurd (ground (arith, h))
  ]

  body_to_bytes_safe_lem :
      (body : HttpBody X) (cs : List (List ℕ))
      → body.chunks ≡ good cs
      → size_hint body ≤ max_request_body_size
      → body_to_bytes_safe body ≡ (
          if leb (length (concat cs)) max_request_body_size
          then inr (concat cs)
          else inl payload_too_large)
  unfolding body_to_bytes_safe
  body_to_bytes_safe_lem body cs e h = elim (le_or_lt (length (concat cs)) max_request_body_size) [
    | inl fits ↦ ground (arith, e, h, fits, read_chunks-fits [] cs fits)
    | inr large ↦ ground (arith, e, h, large, read_chunks-too_large [] cs (omega arith) large)
  ]

  body_to_bytes_safe-good :
      (body : HttpBody X) (cs : List (List ℕ))
      → body.chunks ≡ good cs
      → length (concat cs) ≤ max_request_body_size
      → size_hint body ≤ max_request_body_size
      → body_to_bytes_safe body ≡ inr (concat cs)
  body_to_bytes_safe-good body cs e fits h =
      ground (arith, body_to_bytes_safe_lem body cs e h, fits)

  -- A body is accepted, with the given bytes, exactly if no chunk of it is an error, the bytes are
  -- those of its chunks in order, and both its hint and the bytes are within the limit.
  pub body_to_bytes_safe_iff :
      (body : HttpBody X) (bytes : List ℕ)
      → (body_to_bytes_safe body ≡ inr bytes) ↔ (
          (cs : List (List ℕ)) × (body.chunks ≡ good cs)
          × (bytes ≡ concat cs)
          × (length bytes ≤ max_request_body_size)
          × (size_hint body ≤ max_request_body_size))
  body_to_bytes_safe_iff body bytes = (
    body_to_bytes_safe-inr body bytes,
    λ (cs, e, same, fits, hint).
        body_to_bytes_safe-good body cs e (rw (← same) fits) hint ∙ ap inr (sym same),
  )

module _ {X Text Parts Head : Type 0} (from_utf8 : List ℕ → Option Text)
    (body_from : Text → HttpBody X) (body_empty : HttpBody X) where
  -- What the middleware returns for a GET comes of the handlers' answer to the request without its
  -- body, and keeps that answer's head and status.
  pub middleware-get :
      (next : Request Parts (HttpBody X) → Response Head (HttpBody X))
      → (request : Request Parts (HttpBody X)) (response : Response Head (HttpBody X))
      → request.is_get ≡ true
      → middleware from_utf8 body_from body_empty next request ≡ inr response
      → (response.status ≡ (next (record request { body = body_empty })).status)
        × (response.parts ≡ (next (record request { body = body_empty })).parts)
  unfolding middleware handle_response
  middleware-get next request response g h = ground arith
