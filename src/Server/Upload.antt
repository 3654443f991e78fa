-- ===== src/Server/Upload.antt =====
-- One exchange of a client that posts: from the variables and the body of its request to the bytes
-- that go to the backend.
use linear_fcgi.Common.{ℕ, ◌+◌, ◌^◌, ◌<◌, ◌≡◌, refl, sym, ap, ap₂, ◌∙◌, arith}
use linear_fcgi.Common.{
  true, false, ◌||◌, List, [], ◌∷◌, ◌++◌, All, IsChar, codes, bytes_eq, Option, some, length,
}
use linear_fcgi.Common.Map.{Key}
use linear_fcgi.Client.State.{Client, connected, is_disconnecting, is_disconnected, Effect}
use linear_fcgi.Client.Callbacks.{WriteEnv, write_loop, write_one, decode_message}
use linear_fcgi.Client.Streams.{decode_message-url_encode}
use linear_fcgi.Loop.{World, LoopEnv, on_async}
use linear_fcgi.Loop.Requests.{client_of}
use linear_fcgi.Queries
use linear_fcgi.Queries.{make, session_id_key, data_key}
use linear_fcgi.Queries.Split.{Free}
use linear_fcgi.Queries.RoundTrip.{IsField, render, find-make-render}
use linear_fcgi.Request.Body.{envs_of, create_post}
use linear_fcgi.Request.Env.{request_method, content_length, http_origin}
use linear_fcgi.Request.Input.{Request, BodyEnv, Static, get_method}
use linear_fcgi.Response.Codes.{no_content}
use linear_fcgi.Response.Decimal.{decimal}
use linear_fcgi.Server.Handlers.{Server, Env, handle, by_method, on_post, session_id_of, origin_of}
use linear_fcgi.Server.Http.{field, session_id-Free}
use linear_fcgi.Server.Origin.{is_empty, is_allow_origin}
use linear_fcgi.Server.Posting.{noted, post_delivers, on_post-queued}
use linear_fcgi.Server.Reply.{status}
use linear_fcgi.Server.Run.{returns, run_callbacks, serve_requests, behind}
use linear_fcgi.Url.{url_encode}
use mathlib.Core.Option
use mathlib.Core.Path.{subst}

-- A POST whose body a client writes from fields, and which is read whole.
pub record IsPost (getenv : List ℕ → Option (List ℕ)) (env : BodyEnv) (fields : List (Key × List ℕ))
    : Type 0 where
  pub method : envs_of getenv request_method ≡ codes "POST"
  pub size : envs_of getenv content_length ≡ decimal (length (render fields))
  pub fits : length (render fields) < 2 ^ 63
  pub memory : env.malloc (length (render fields) + 1) ≡ true
  pub reads : env.fread (length (render fields)) ≡ some (render fields)
  pub chars : All IsChar (render fields)
  pub well_formed : All IsField fields

-- _write has memory, and libuv takes what it writes.
pub record Writes (env : WriteEnv) : Type 0 where
  pub memory : (n : ℕ) → env.malloc n ≡ true
  pub request_memory : env.req_malloc_ok ≡ true
  pub taken : (bytes : List ℕ) → env.uv_write_ok bytes ≡ true

write_loop-one :
    (env : WriteEnv) (text bytes : List ℕ)
    → Writes env
    → decode_message env text ≡ some bytes
    → write_loop env (text ∷ []) ≡ ([], Effect.send bytes ∷ [])
unfolding write_loop write_one
write_loop-one env text bytes w e = rw (e, w.request_memory, w.taken bytes, write_loop) refl

abbrev post_request : (List ℕ → Option (List ℕ)) → List (Key × List ℕ) → Request
post_request getenv fields = record { envs = envs_of getenv; queries = make (render fields) }

get-posted :
    (fields : List (Key × List ℕ)) (key : Key)
    → All IsField fields
    → Free b'=' key
    → Queries.get key (make (render fields)) ≡ field key fields
unfolding Queries.get
get-posted fields key well free =
    ap (λ o. Option.get_or o []) (find-make-render key fields free well)

handle-on_post :
    (s : Server) (env : Env) (req : Request) (w : World)
    → req.envs request_method ≡ codes "POST"
    → handle s env req w ≡ some (on_post s req w)
unfolding handle by_method get_method bytes_eq
handle-on_post s env req w m = rw m refl

data-Free : Free b'=' data_key
data-Free = ground arith

-- A post for a known session and text.
module _ (s : Server) (w : World) (req : Request) (id : Key) (posted : List ℕ) (c : Client)
    (sid : session_id_of req ≡ id) (datum : Queries.get_data req.queries ≡ posted)
    (named : is_empty id ≡ false) (there : client_of id w ≡ some c)
    (allowed : is_allow_origin s.matches (origin_of req) c.allow_origins ≡ true)
    (some_text : 0 < length posted) (up : c.state ≡ connected) where
  named_there : is_empty (session_id_of req) ≡ false
  named_there = ap is_empty sid ∙ named

  found_there : client_of (session_id_of req) w ≡ some c
  found_there = ap (λ i. client_of i w) sid ∙ there

  some_there : 0 < length (Queries.get_data req.queries)
  some_there = subst (λ t. 0 < length t) (sym datum) some_text

  open_there : (is_disconnecting c.state || is_disconnected c.state) ≡ false
  open_there = rw up refl

  on_post-reply : (on_post s req w).1 ≡ status no_content
  on_post-reply =
      ap (λ a. a.1) (on_post-queued s req w c named_there found_there allowed some_there open_there)

  on_post-sends :
      (loop_env : LoopEnv) (bytes : List ℕ)
      → w.requests ≡ []
      → c.write_queue ≡ []
      → Writes (loop_env.write_env id)
      → decode_message (loop_env.write_env id) posted ≡ some bytes
      → (w2 : World) × (on_async loop_env (on_post s req w).0 ≡ some w2)
        × (w2.calls ≡ w.calls ++ ((id, Effect.send bytes) ∷ []))
        × (client_of id w2 ≡ some c)
  unfolding noted
  on_post-sends loop_env bytes idle nothing writes e =
      let loop = write_loop-one (loop_env.write_env id) posted bytes writes e in
      let (w2, ran, calls, left) =
        post_delivers s req w c named_there found_there loop_env idle allowed some_there
          open_there in
      let queue : write_loop (loop_env.write_env (session_id_of req))
            (c.write_queue ++ (Queries.get_data req.queries ∷ []))
          ≡ ([], Effect.send bytes ∷ []) =
        ap₂ (λ i q. write_loop (loop_env.write_env i) q) sid
          (ap₂ (λ q t. q ++ (t ∷ [])) nothing datum)
        ∙ loop in
      (
        w2,
        ran,
        calls ∙ ap₂ (λ i (r : List (List ℕ) × List Effect). w.calls ++ noted i r.1) sid queue,
        ap (λ i. client_of i w2) (sym sid)
            ∙ left
            ∙ ap (λ (r : List (List ℕ) × List Effect). some (record c { write_queue = r.0 })) queue
            ∙ ap (λ q. some (record c { write_queue = q })) (sym nothing),
      )

-- A POST whose body is written from fields that name the session of a connected client and hold, as
-- data, the URL encoding of a Base64 text, is answered with 204 No Content; the next `onAsync` then
-- hands to libuv, behind what was called before, exactly the bytes that the text stands for, and the
-- client is as it was. The body must be read whole, no allocation fail, the origin be allowed, and
-- nothing wait in the queues before.
pub post_over_http :
    (s : Server) (env : Env) (body : BodyEnv) (st : Static) (w : World) (loop_env : LoopEnv)
    (getenv : List ℕ → Option (List ℕ)) (fields : List (Key × List ℕ)) (c : Client)
    (text bytes : List ℕ)
    → let id = field session_id_key fields in
      let write_env = loop_env.write_env id in
      IsPost getenv body fields
      → st.erange ≡ false
      → is_empty id ≡ false
      → client_of id w ≡ some c
      → c.state ≡ connected
      → c.write_queue ≡ []
      → w.requests ≡ []
      → is_allow_origin s.matches (envs_of getenv http_origin) c.allow_origins ≡ true
      → All IsChar text
      → url_encode write_env.malloc text ≡ some (field data_key fields)
      → 0 < length (field data_key fields)
      → write_env.base64_decode text ≡ some bytes
      → Writes write_env
      → (w1 w2 : World) × (serve_requests s
            (record { before = []; getenv = getenv; body = body; env = env } ∷ [])
            st
            w
          ≡ returns (status no_content ∷ []) (record st { body = render fields }) w1)
        × (on_async loop_env w1 ≡ some w2)
        × (w2.calls ≡ w.calls ++ ((id, Effect.send bytes) ∷ []))
        × (client_of id w2 ≡ some c)
unfolding serve_requests run_callbacks behind session_id_of Queries.get_session_id Queries.get_data
    origin_of
post_over_http s env body st w loop_env getenv fields c text bytes post calm named there up nothing
      idle allowed chars e some_text decoded writes =
    let id = field session_id_key fields in
    let req = post_request getenv fields in
    let sid = get-posted fields session_id_key post.well_formed session_id-Free in
    let datum = get-posted fields data_key post.well_formed data-Free in
    let message =
      decode_message-url_encode (loop_env.write_env id) text (field data_key fields) bytes
        writes.memory chars decoded e in
    let (w2, ran, calls, left) =
      on_post-sends s w req id (field data_key fields) c sid datum named there allowed some_text up
        loop_env bytes idle nothing writes message in
    let reply =
      on_post-reply s w req id (field data_key fields) c sid datum named there allowed some_text
        up in
    let created =
      create_post getenv body st (render fields) post.method post.size post.fits calm post.memory
        post.reads post.chars in
    let handled = handle-on_post s env req w post.method in
    (
      (on_post s req w).0,
      w2,
      rw (created, handled, serve_requests)
          (ap (λ r. returns (r ∷ []) (record st { body = render fields }) (on_post s req w).0)
            reply),
      ran,
      calls,
      left,
    )
