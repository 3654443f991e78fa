-- ===== src/Server/Posting.antt =====
-- Server::onPost of src/linear_fcgi_server.cc, and what the libuv thread then sends.
use linear_fcgi.Common.{ℕ, ◌<◌, ◌≡◌, refl, sym, ap, ◌∙◌, arith}
use linear_fcgi.Common.{true, false, ◌||◌, List, [], ◌∷◌, ◌++◌, some, length}
use linear_fcgi.Common.{bytes_eq_refl, append_assoc, append-nil}
use linear_fcgi.Common.Map.{Key}
use linear_fcgi.Client.State.{Client, Effect, RequestType, is_disconnecting, is_disconnected}
use linear_fcgi.Client.Callbacks.{run_write, write_loop}
use linear_fcgi.Client.Calls.{write}
use linear_fcgi.Loop.{World, put, perform, perform_one, finish, LoopEnv, serve, serve_all, on_async}
use linear_fcgi.Loop.Requests.{client_of, call-some, client_of-finish, run_write-Quiet, Quiet}
use linear_fcgi.Storage
use linear_fcgi.Queries
use linear_fcgi.Request.Input
use linear_fcgi.Response.Codes.{no_content, bad_request}
use linear_fcgi.Server.Origin.{is_empty, is_allow_origin}
use linear_fcgi.Server.Reply.{status}
use linear_fcgi.Server.Handlers.{Server, on_post, post_client, session_id_of, origin_of}

-- `write` has put a text at the end of the client's queue, and asked for a write.
unfoldable pub queued : Key → List ℕ → Client → World → World
queued id text c w =
    finish id w (
      record c { write_queue = c.write_queue ++ (text ∷ []) },
      Effect.execute RequestType.write ∷ [],
    )

-- The calls that a client's effects are noted as.
unfoldable pub noted : Key → List Effect → List (Key × Effect)
noted id [] = []
noted id (e ∷ es) = (id, e) ∷ noted id es

-- The calls are noted in their order.
perform-calls :
    (id : Key) (effects : List Effect) (w : World)
    → Quiet effects
    → (perform id effects w).calls ≡ w.calls ++ noted id effects
unfolding perform perform_one noted
perform-calls id [] w h = sym (append-nil w.calls)
perform-calls id (Effect.execute t ∷ es) w h = cc
perform-calls id (e ∷ es) w h =
    perform-calls id es (perform_one id e w) h.1 ∙ append_assoc w.calls ((id, e) ∷ []) (noted id es)

serve_all-one :
    (env : LoopEnv) (type : RequestType) (id : Key) (w w' : World)
    → serve env type id w ≡ some w'
    → serve_all env (record { type = type; client = id } ∷ []) w ≡ some w'
unfolding serve_all
serve_all-one env type id w w' h = rw (h, serve_all)

-- `onAsync` with one request for a write, of a client that is there.
on_async-write :
    (env : LoopEnv) (id : Key) (w : World) (c : Client)
    → w.requests ≡ record { type = RequestType.write; client = id } ∷ []
    → client_of id w ≡ some c
    → let (left, effects) = write_loop (env.write_env id) c.write_queue in
      (w' : World) × (on_async env w ≡ some w')
      × (w'.calls ≡ w.calls ++ noted id effects)
      × (client_of id w' ≡ some (record c { write_queue = left }))
unfolding on_async finish put run_write
on_async-write env id w c one found =
    let taken : World = record w { requests = [] } in
    let run = run_write (env.write_env id) in
    let there = call-some id run taken found in
    (
      finish id taken (run c),
      rw one (
          serve_all-one env RequestType.write id taken (finish id taken (run c))
            (unfold serve in there)),
      perform-calls id (run c).1 (put id (run c).0 taken) (run_write-Quiet (env.write_env id) c),
      rw (client_of-finish id id taken (run c), bytes_eq_refl id, found) refl,
    )

queued_lem :
    (id : Key) (text : List ℕ) (c : Client) (w : World)
    → client_of id w ≡ some c
    → w.requests ≡ []
    → ((queued id text c w).requests ≡ record { type = RequestType.write; client = id } ∷ [])
      × ((queued id text c w).calls ≡ w.calls)
      × (client_of id (queued id text c w)
          ≡ some (record c { write_queue = c.write_queue ++ (text ∷ []) }))
unfolding queued
queued_lem id text c w found idle =
    let c' : Client = record c { write_queue = c.write_queue ++ (text ∷ []) } in
    (
      unfold finish put perform perform_one in
          ap (λ t. t ++ (record { type = RequestType.write; client = id } ∷ [])) idle,
      unfold finish put perform perform_one in refl,
      rw
          (
            client_of-finish id id w (c', Effect.execute RequestType.write ∷ []),
            bytes_eq_refl id,
            found,
          )
          refl,
    )

module _ (s : Server) (req : Input.Request) (w : World) (c : Client)
    (named : is_empty (session_id_of req) ≡ false)
    (found : client_of (session_id_of req) w ≡ some c) where
  -- A post from an origin that the client's backend does not allow is answered with 400 Bad Request
  -- and changes nothing.
  pub on_post-origin :
      is_allow_origin s.matches (origin_of req) c.allow_origins ≡ false
      → on_post s req w ≡ (w, status bad_request)
  unfolding on_post Storage.get post_client
  on_post-origin denied = rw (named, found, denied)

  pub on_post-queued :
      is_allow_origin s.matches (origin_of req) c.allow_origins ≡ true
      → 0 < length (Queries.get_data req.queries)
      → (is_disconnecting c.state || is_disconnected c.state) ≡ false
      → on_post s req w
        ≡ (queued (session_id_of req) (Queries.get_data req.queries) c w, status no_content)
  unfolding on_post Storage.get post_client write queued finish
  on_post-queued allowed some_text up = ground arith

  -- The world of the libuv thread after the post, its queue taken, and the client there.
  abbrev posted : Client
  posted = record c { write_queue = c.write_queue ++ (Queries.get_data req.queries ∷ []) }

  -- With no request in the queue before, a post from an allowed origin, with a text, to a client that
  -- is not going down, is followed by one `onAsync` that goes well: it hands to libuv, behind what
  -- was called before, what `_write` makes of the client's queue with the text at its end, and
  -- leaves the client with the rest of that queue.
  pub post_delivers :
      (env : LoopEnv)
      → w.requests ≡ []
      → is_allow_origin s.matches (origin_of req) c.allow_origins ≡ true
      → 0 < length (Queries.get_data req.queries)
      → (is_disconnecting c.state || is_disconnected c.state) ≡ false
      → let id = session_id_of req in
        let (left, effects) =
          write_loop (env.write_env id) (c.write_queue ++ (Queries.get_data req.queries ∷ [])) in
        (w' : World) × (on_async env (on_post s req w).0 ≡ some w')
        × (w'.calls ≡ w.calls ++ noted id effects)
        × (client_of id w' ≡ some (record c { write_queue = left }))
  post_delivers env idle allowed some_text up =
      let id = session_id_of req in
      let w1 = queued id (Queries.get_data req.queries) c w in
      let (one, same, there) = queued_lem id (Queries.get_data req.queries) c w found idle in
      let (w', ran, calls, left) = on_async-write env id w1 posted one there in
      (
        w',
        rw (on_post-queued allowed some_text up) ran,
        calls ∙ ap (λ t. t ++ noted id (write_loop (env.write_env id) posted.write_queue).1) same,
        left,
      )
