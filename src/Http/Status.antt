-- ===== src/Http/Status.antt =====
-- What `/health` and `/synced` answer through the whole router.
use text.Mathlib.Text.{◌==◌ as str_eq}
use world_tree.Prelude.{
  Bool-cases, ℕ, ◌≡◌, refl, ◌∙◌, inl, inr, Bool, true, false, none, some, ap, if◌then◌else◌,
}
use world_tree.Merkle.{PoseidonTree}
use world_tree.Foreign.{Foreign}
use world_tree.WorldTree.{WorldTree, Reach}
use world_tree.Service.{SyncResponse, status_ok, new, synced, health}
use world_tree.Service.Replies.{unsynced_replies}
use world_tree.Logging.{HttpBody, body_to_string, handle_response, middleware}
use world_tree.Http.{
  Axum, Parts, Req, Res, get, post, is_get, is_get_or_head, is_post, synced_route, routes, app,
}
use world_tree.Http.Posts.{IsAxum, middleware-read, reply_passes}

if_true : {B : Type 0} {b : Bool} (x y : B) → b ≡ true → (if b then x else y) ≡ x
if_true x y h = rw h refl

module _ (P : PoseidonTree) (F : Foreign) (A : Axum P) where
  health_routed :
      (w : WorldTree P F) (request : Req A)
      → request.parts.method ≡ get
      → request.parts.path ≡ "/health"
      → routes P F A w request ≡ A.status_only health
  unfolding routes
  health_routed w request m p =
      let other : str_eq request.parts.path "/inclusionProof" ≡ false = rw p refl in
      let another : str_eq request.parts.path "/synced" ≡ false = rw p refl in
      let at : str_eq request.parts.path "/health" ≡ true = rw p refl in
      let by : is_get_or_head request.parts.method ≡ true = rw m refl in
      rw (other, another, at, by) refl

  synced_routed :
      (w : WorldTree P F) (request : Req A)
      → request.parts.method ≡ post
      → request.parts.path ≡ "/synced"
      → routes P F A w request ≡ synced_route P F A w
  unfolding routes
  synced_routed w request m p =
      let other : str_eq request.parts.path "/inclusionProof" ≡ false = rw p refl in
      let at : str_eq request.parts.path "/synced" ≡ true = rw p refl in
      let by : is_post request.parts.method ≡ true = rw m refl in rw (other, at, by) refl

  -- The middleware hands a GET on without its body.
  middleware-empty :
      (next : Req A → Res A)
      → (request : Req A) → request.is_get ≡ true
      → middleware A.from_utf8 A.body_from A.body_empty next request
        ≡ handle_response A.from_utf8 A.body_from A.body_empty
            (next (record request { body = A.body_empty }))
  unfolding middleware
  middleware-empty next request g = if_true _ _ g

  synced_replied :
      (w : WorldTree P F) (code : ℕ) (reply : SyncResponse)
      → synced P F w ≡ (code, reply)
      → synced_route P F A w ≡ A.json_sync code reply
  unfolding synced_route
  synced_replied w code reply h = ap (λ r. A.json_sync r.0 r.1) h

  -- A request whose body is readable, or not read, and whose reply passes the middleware.
  request_passed :
      (w : WorldTree P F) (parts : Parts A.Headers) (body : HttpBody A.Failure) (reply : Res A)
      → middleware A.from_utf8 A.body_from A.body_empty
          (routes P F A w)
          (record { parts = parts; is_get = is_get parts.method; body = body })
        ≡ handle_response A.from_utf8 A.body_from A.body_empty reply
      → reply.status ≡ status_ok
      → app P F A w parts body ≡ reply
  unfolding app
  request_passed w parts body reply h ok =
      ap (λ m. elim m [ inl failed ↦ A.status_only failed | inr response ↦ response ])
        (h ∙ reply_passes P F A reply ok)

  module _ (db : F.Db) (signature depth dense size address creation_block window : ℕ) where
    synced_lem :
        {v : WorldTree P F}
        → Reach P F (new P F db signature depth dense size address creation_block window) v
        → synced P F v ≡ (
          status_ok,
          if v.synced
              then record { synced = true; block_number = none }
              else record { synced = false; block_number = some creation_block },
        )
    unfolding synced
    synced_lem {v} reached = elim (Bool-cases v.synced) [
      | inl e ↦ rw e refl
      | inr e ↦
          let (reply, refused) =
            unsynced_replies P F db signature depth dense size address creation_block window
              (record { identity_commitment = 0; root = none }) reached e in
          reply ∙ rw e refl
    ]

    -- With responses of axum as documented, in every state that the service reaches, a GET of
    -- `/health` is answered with status 200 alone, whatever its body, and a readable POST to
    -- `/synced` with status 200 and JSON: that the service is synced, or that it is not and the
    -- creation block, however far the sync has come.
    pub status_routes :
        (I : IsAxum A) {v : WorldTree P F} (parts : Parts A.Headers) (body : HttpBody A.Failure)
        → Reach P F (new P F db signature depth dense size address creation_block window) v
        → (parts.method ≡ get
            → parts.path ≡ "/health"
            → app P F A v parts body ≡ A.status_only status_ok)
          × ((text : A.Text)
              → parts.method ≡ post
              → parts.path ≡ "/synced"
              → body_to_string A.from_utf8 body ≡ inr text
              → app P F A v parts body
                ≡ A.json_sync status_ok (
                    if v.synced
                    then record { synced = true; block_number = none }
                    else record { synced = false; block_number = some creation_block }))
    unfolding health
    status_routes I {v} parts body reached = (
      (λ m p.
          let g : is_get parts.method ≡ true = rw m refl in
          request_passed v parts body (A.status_only status_ok)
            (middleware-empty (routes P F A v) _ g
              ∙ ap (handle_response A.from_utf8 A.body_from A.body_empty) (
                  health_routed v
                    (record { parts = parts; is_get = is_get parts.method; body = A.body_empty }) m
                    p))
            (I.status_only_lem status_ok)),
      (λ text m p readable.
          let g : is_get parts.method ≡ false = rw m refl in
          let reply : SyncResponse =
            if v.synced
            then record { synced = true; block_number = none }
            else record { synced = false; block_number = some creation_block } in
          request_passed v parts body (A.json_sync status_ok reply)
            (middleware-read P F A (routes P F A v) _ text g readable
              ∙ ap (handle_response A.from_utf8 A.body_from A.body_empty) (
                  synced_routed v
                    (record {
                      parts = parts;
                      is_get = is_get parts.method;
                      body = A.body_from text;
                    })
                    m p
                  ∙ synced_replied v status_ok reply (synced_lem reached)))
            (I.sync_status status_ok reply)),
    )
