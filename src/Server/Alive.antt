-- ===== src/Server/Alive.antt =====
-- The handlers of src/linear_fcgi_server.cc ask the libuv thread only for clients that live, and no
-- callback that is due uses a deleted one.
use linear_fcgi.Common.{◌≡◌, refl, sym, inl, inr, arith}
use linear_fcgi.Common.{
  ℕ, Bool, true, List, [], Option, none, some, if◌then◌else◌, length, drop, All-drop, All-mono,
}
use linear_fcgi.Common.{Bool-cases, bytes_eq, not, ltb}
use linear_fcgi.Common.Map.{Key}
use linear_fcgi.Client.State.{Client}
use linear_fcgi.Client.Calls.{Outcome, connect, disconnect, write}
use linear_fcgi.Storage
use linear_fcgi.Storage.{Storage}
use linear_fcgi.Storage.Laws.{create_lem}
use linear_fcgi.Loop.{World, put, perform, finish}
use linear_fcgi.Loop.Requests.{client_of, IsLive}
use linear_fcgi.Loop.Alive.{Stays, Lives, finish-Lives, Lives-moved}
use linear_fcgi.Request.Input
use linear_fcgi.Request.Input.{Method, get_method}
use linear_fcgi.Response.Codes.{bad_request, no_content}
use linear_fcgi.Server.Reply.{status}
use mathlib.Core.Path.{subst}
use linear_fcgi.Queries
use linear_fcgi.Uuid.Api.{unparse, is_null}
use linear_fcgi.Server.Origin.{Backend, is_empty, is_allow_origin}
use linear_fcgi.Server.Poll.{poll, Polled}
use linear_fcgi.Server.Dispatch.{After, if_kept, if-After, handle-After}
use linear_fcgi.Server.Handlers
use linear_fcgi.Server.Invariant.{poll_answer-world}
use linear_fcgi.Server.Handlers.{
  Server, Env, Answer, connected_answer, connect_created, connect_backend, reconnect_answer,
  disconnect_client, poll_answer, poll_client, on_poll, post_client, on_post, on_get, by_method,
  handle, session_id_of, origin_of,
}

abbrev pub AnswerLives : Option Answer → Type 0
AnswerLives = After Lives

connected_answer-Lives :
    (env : Env) (req : Input.Request) (id : Key) (w : World) (o : Outcome) {c : Client}
    → client_of id w ≡ some c
    → Lives w
    → Lives (connected_answer env req id w o).0
unfolding connected_answer finish
connected_answer-Lives env req id w (f, c', effects) there h =
    let w' = perform id effects (put id c' w) in
    let (asked, owned) = finish-Lives id w (c', effects) there h in
    let kept : Lives (record w' { requests = drop env.taken w'.requests }) =
      (All-drop (IsLive w') env.taken w'.requests asked, owned) in
    if_kept Lives f _ _ kept kept

connect_created-AnswerLives :
    (env : Env) (req : Input.Request) (backend : Backend) (id : Key) (w : World) (o : Option Client)
    → client_of id w ≡ o
    → Lives w
    → AnswerLives (connect_created env req backend id w o)
unfolding connect_created
connect_created-AnswerLives env req backend id w none there h = h
connect_created-AnswerLives env req backend id w (some c) there h =
    go (connect env.wakes backend.host backend.port c)
  where
    go :
        (o : Option Outcome)
        → AnswerLives (elim o [ none ↦ none | some r ↦ some (connected_answer env req id w r) ])
    go none = tt
    go (some r) = connected_answer-Lives env req id w r there h

-- A created client takes none away.
created_keeps :
    (id other : Key) (origins : List (List ℕ)) (timeout memory : ℕ) (new_ok : Bool) (s : Storage)
    (c : Client)
    → (Storage.create id origins timeout memory new_ok s).1 ≡ true
    → Storage.get other s ≡ some c
    → (d : Client) × (Storage.get other (Storage.create id origins timeout memory new_ok s).0
        ≡ some d)
unfolding Storage.get
created_keeps id other origins timeout memory new_ok s c made e =
    elim (create_lem id other origins timeout memory new_ok s) [
      | inr (failed, _, _) ↦ cc
      | inl (_, found) ↦ elim (Bool-cases (bytes_eq id other)) [
        | inl same ↦ rw (found, same) (_, refl)
        | inr differs ↦ rw (found, differs) (c, e)
      ]
    ]

connect_backend-AnswerLives :
    (s : Server) (env : Env) (req : Input.Request) (w : World) (o : Option Backend)
    → Lives w
    → AnswerLives (connect_backend s env req w o)
unfolding connect_backend Storage.get
connect_backend-AnswerLives s env req w none h = h
connect_backend-AnswerLives s env req w (some backend) h =
    let id = unparse env.uuid in
    let (storage, made) =
      Storage.create id backend.origins s.timeout env.memory env.new_ok w.storage in
    let stay : made ≡ true → Stays w (record w { storage = storage }) = λ done other (c, e).
      created_keeps id other backend.origins s.timeout env.memory env.new_ok w.storage c done e in
    elim (Bool-cases made) [
      | inr failed ↦ rw failed h
      | inl done ↦ rw done (
          connect_created-AnswerLives env req backend id (record w { storage = storage })
            (Storage.get id storage) refl
            (Lives-moved w (record w { storage = storage }) refl
              (All-mono _ _ w.calls (λ p. stay done p.0) h.1) (stay done) h))
    ]

pub reconnect_answer-world :
    (req : Input.Request) (id : Key) (w : World) (o : Option Client)
    → (reconnect_answer req id w o).0 ≡ w
unfolding reconnect_answer
reconnect_answer-world req id w o = ground arith

on_connect-AnswerLives :
    (s : Server) (env : Env) (req : Input.Request) (w : World)
    → Lives w
    → AnswerLives (Handlers.on_connect s env req w)
unfolding Handlers.on_connect
on_connect-AnswerLives s env req w h = elim (Bool-cases (is_empty (session_id_of req))) [
  | inr named ↦
      rw (named, reconnect_answer-world req (session_id_of req) w (Storage.get [] w.storage)) h
  | inl unnamed ↦ elim (Bool-cases (is_null env.uuid)) [
    | inl failed ↦ rw (unnamed, failed) h
    | inr drawn ↦ rw (unnamed, drawn) (connect_backend-AnswerLives s env req w _ h)
  ]
]

disconnect_client-Lives :
    (id : Key) (w : World) (o : Option Client)
    → client_of id w ≡ o
    → Lives w
    → Lives (disconnect_client id w o)
unfolding disconnect_client finish
disconnect_client-Lives id w none there h = h
disconnect_client-Lives id w (some c) there h = finish-Lives id w (disconnect c) there h

on_disconnect-Lives :
    (req : Input.Request) (w : World) → Lives w → Lives (Handlers.on_disconnect req w).0
unfolding Handlers.on_disconnect Storage.get
on_disconnect-Lives req w h = elim (Bool-cases (is_empty (session_id_of req))) [
  | inl unnamed ↦ rw unnamed h
  | inr named ↦ rw named (disconnect_client-Lives (session_id_of req) w _ refl h)
]

post_client-Lives :
    (s : Server) (req : Input.Request) (id : Key) (w : World) (o : Option Client)
    → client_of id w ≡ o
    → Lives w
    → Lives (post_client s req id w o).0
unfolding post_client finish
post_client-Lives s req id w none there h = h
post_client-Lives s req id w (some c) there h =
    let (c', _, effects) = write (Queries.get_data req.queries) c in
    let text = Queries.get_data req.queries in
    let writes : Answer = (finish id w (c', effects), status no_content) in
    let empty = not (ltb 0 (length text)) in
    if_kept Lives (not (is_allow_origin s.matches (origin_of req) c.allow_origins))
      (w, status bad_request) (if empty then (w, status no_content) else writes) h
      (if_kept Lives empty (w, status no_content) writes h
        (finish-Lives id w (c', effects) there h))

on_post-Lives : (s : Server) (req : Input.Request) (w : World) → Lives w → Lives (on_post s req w).0
unfolding on_post Storage.get
on_post-Lives s req w h =
    let id = session_id_of req in
    if_kept Lives (is_empty id) (w, status bad_request)
      (post_client s req id w (Storage.get id w.storage)) h
      (post_client-Lives s req id w (Storage.get id w.storage) refl h)

poll_client-AnswerLives :
    (env : Env) (req : Input.Request) (id : Key) (w : World) (o : Option Client)
    → client_of id w ≡ o
    → Lives w
    → AnswerLives (poll_client env req id w o)
unfolding poll_client finish
poll_client-AnswerLives env req id w none there h = h
poll_client-AnswerLives env req id w (some c) there h =
    polled (poll env.malloc env.now env.between c)
  where
    polled :
        (o : Option Polled)
        → AnswerLives (elim o [
          | none ↦ none
          | some p ↦ some (poll_answer env req (perform id p.effects (put id p.client w)) p.end)
        ])
    polled none = tt
    polled (some p) =
        let w' = perform id p.effects (put id p.client w) in
        subst Lives (sym (poll_answer-world env req w' p.end))
          (finish-Lives id w (p.client, p.effects) there h)

on_poll-AnswerLives :
    (env : Env) (req : Input.Request) (w : World) → Lives w → AnswerLives (on_poll env req w)
unfolding on_poll Storage.get
on_poll-AnswerLives env req w h =
    let id = session_id_of req in
    if-After Lives (is_empty id) (some (w, status bad_request))
      (poll_client env req id w (Storage.get id w.storage)) h
      (poll_client-AnswerLives env req id w (Storage.get id w.storage) refl h)

pub handle-AnswerLives :
    (s : Server) (env : Env) (req : Input.Request) (w : World)
    → Lives w
    → AnswerLives (handle s env req w)
handle-AnswerLives s env req w h =
    handle-After Lives s env req w h (on_connect-AnswerLives s env req w h)
      (on_disconnect-Lives req w h) (on_poll-AnswerLives env req w h) (on_post-Lives s req w h)
