-- ===== src/Server/Invariant.antt =====
-- Every handler of Server::run and every callback of the libuv thread keeps the client storage valid.
use linear_fcgi.Common.{◌≡◌, sym, inl, inr, arith}
use linear_fcgi.Common.{true, false, [], Option, none, some, if◌then◌else◌, length}
use linear_fcgi.Common.{Bool-cases, not, ltb}
use linear_fcgi.Common.Map.{Key}
use linear_fcgi.Client.State.{Client}
use linear_fcgi.Client.Calls.{Outcome, connect, disconnect, write}
use linear_fcgi.Storage
use linear_fcgi.Storage.{Storage}
use linear_fcgi.Storage.Laws.{create-IsValid}
use linear_fcgi.Loop.{World, put, perform, finish}
use linear_fcgi.Loop.Invariant.{
  Holds, put-Holds, perform-Holds, finish-Holds, WorldHolds, Callback, run_callback,
  run_callback-WorldHolds,
}
use linear_fcgi.Request.Input
use linear_fcgi.Request.Input.{Method, get_method}
use linear_fcgi.Response.Codes.{bad_request, no_content}
use linear_fcgi.Server.Reply.{Reply, status}
use mathlib.Core.Path.{subst}
use linear_fcgi.Queries
use linear_fcgi.Uuid.Api.{unparse, is_null}
use linear_fcgi.Server.Origin.{Backend, is_empty, is_allow_origin}
use linear_fcgi.Server.Poll.{poll, PollEnd, Polled}
use linear_fcgi.Server.Dispatch.{After, if_kept, if-After, handle-After}
use linear_fcgi.Server.Handlers
use linear_fcgi.Server.Handlers.{
  Server, Env, Answer, connected_answer, connect_created, connect_backend, reconnect_answer,
  disconnect_client, poll_answer, poll_client, on_poll, post_client, on_post, on_get, by_method,
  handle, session_id_of, origin_of, encoded_answer,
}

-- The same for the answer of a handler.
abbrev pub AnswerHolds : Option Answer → Type 0
AnswerHolds = After Holds

connected_answer-Holds :
    (env : Env) (req : Input.Request) (id : Key) (w : World) (o : Outcome)
    → Holds w
    → Holds (connected_answer env req id w o).0
unfolding connected_answer
connected_answer-Holds env req id w (true, c, effects) v =
    perform-Holds id effects (put id c w) (put-Holds id c w v)
connected_answer-Holds env req id w (false, c, effects) v =
    perform-Holds id effects (put id c w) (put-Holds id c w v)

connect_created-AnswerHolds :
    (env : Env) (req : Input.Request) (backend : Backend) (id : Key) (w : World) (o : Option Client)
    → Holds w
    → AnswerHolds (connect_created env req backend id w o)
unfolding connect_created
connect_created-AnswerHolds env req backend id w none v = v
connect_created-AnswerHolds env req backend id w (some c) v =
    go (connect env.wakes backend.host backend.port c)
  where
    go :
        (o : Option Outcome)
        → AnswerHolds (elim o [ none ↦ none | some r ↦ some (connected_answer env req id w r) ])
    go none = tt
    go (some r) = connected_answer-Holds env req id w r v

connect_backend-AnswerHolds :
    (s : Server) (env : Env) (req : Input.Request) (w : World) (o : Option Backend)
    → Holds w
    → AnswerHolds (connect_backend s env req w o)
unfolding connect_backend
connect_backend-AnswerHolds s env req w none v = v
connect_backend-AnswerHolds s env req w (some backend) v =
    let id = unparse env.uuid in
    let (storage, made) =
      Storage.create id backend.origins s.timeout env.memory env.new_ok w.storage in
    let valid = create-IsValid id backend.origins s.timeout env.memory env.new_ok w.storage v in
    elim (Bool-cases made) [
      | inr failed ↦ rw failed v
      | inl done ↦ rw done (
          connect_created-AnswerHolds env req backend id (record w { storage = storage })
            (Storage.get id storage) valid)
    ]

reconnect_answer-Holds :
    (req : Input.Request) (id : Key) (w : World) (o : Option Client)
    → Holds w
    → Holds (reconnect_answer req id w o).0
unfolding reconnect_answer
reconnect_answer-Holds req id w none v = v
reconnect_answer-Holds req id w (some c) v = v

on_connect-AnswerHolds :
    (s : Server) (env : Env) (req : Input.Request) (w : World)
    → Holds w
    → AnswerHolds (Handlers.on_connect s env req w)
unfolding Handlers.on_connect
on_connect-AnswerHolds s env req w v = elim (Bool-cases (is_empty (session_id_of req))) [
  | inr named ↦
      rw named (reconnect_answer-Holds req (session_id_of req) w (Storage.get [] w.storage) v)
  | inl unnamed ↦ elim (Bool-cases (is_null env.uuid)) [
    | inl failed ↦ rw (unnamed, failed) v
    | inr drawn ↦ rw (unnamed, drawn) (connect_backend-AnswerHolds s env req w _ v)
  ]
]

disconnect_client-Holds :
    (id : Key) (w : World) (o : Option Client) → Holds w → Holds (disconnect_client id w o)
unfolding disconnect_client
disconnect_client-Holds id w none v = v
disconnect_client-Holds id w (some c) v = unfold finish in finish-Holds id w (disconnect c) v

on_disconnect-Holds :
    (req : Input.Request) (w : World) → Holds w → Holds (Handlers.on_disconnect req w).0
unfolding Handlers.on_disconnect
on_disconnect-Holds req w v = elim (Bool-cases (is_empty (session_id_of req))) [
  | inl unnamed ↦ rw unnamed v
  | inr named ↦ rw named (disconnect_client-Holds (session_id_of req) w _ v)
]

pub poll_answer-world :
    (env : Env) (req : Input.Request) (w : World) (end : PollEnd)
    → (poll_answer env req w end).0 ≡ w
unfolding poll_answer encoded_answer
poll_answer-world env req w end = ground arith

post_client-Holds :
    (s : Server) (req : Input.Request) (id : Key) (w : World) (o : Option Client)
    → Holds w
    → Holds (post_client s req id w o).0
unfolding post_client finish
post_client-Holds s req id w none v = v
post_client-Holds s req id w (some c) v =
    let (c', _, effects) = write (Queries.get_data req.queries) c in
    let text = Queries.get_data req.queries in
    let writes : Answer = (finish id w (c', effects), status no_content) in
    let empty = not (ltb 0 (length text)) in
    if_kept Holds (not (is_allow_origin s.matches (origin_of req) c.allow_origins))
      (w, status bad_request) (if empty then (w, status no_content) else writes) v
      (if_kept Holds empty (w, status no_content) writes v (finish-Holds id w (c', effects) v))

on_post-Holds : (s : Server) (req : Input.Request) (w : World) → Holds w → Holds (on_post s req w).0
unfolding on_post
on_post-Holds s req w v =
    let id = session_id_of req in
    if_kept Holds (is_empty id) (w, status bad_request)
      (post_client s req id w (Storage.get id w.storage)) v
      (post_client-Holds s req id w (Storage.get id w.storage) v)

poll_client-AnswerHolds :
    (env : Env) (req : Input.Request) (id : Key) (w : World) (o : Option Client)
    → Holds w
    → AnswerHolds (poll_client env req id w o)
unfolding poll_client
poll_client-AnswerHolds env req id w none v = v
poll_client-AnswerHolds env req id w (some c) v = polled (poll env.malloc env.now env.between c)
  where
    polled :
        (o : Option Polled)
        → AnswerHolds (elim o [
          | none ↦ none
          | some p ↦ some (poll_answer env req (perform id p.effects (put id p.client w)) p.end)
        ])
    polled none = tt
    polled (some p) =
        let w' = perform id p.effects (put id p.client w) in
        subst Holds (sym (poll_answer-world env req w' p.end))
          (perform-Holds id p.effects (put id p.client w) (put-Holds id p.client w v))

on_poll-AnswerHolds :
    (env : Env) (req : Input.Request) (w : World) → Holds w → AnswerHolds (on_poll env req w)
unfolding on_poll
on_poll-AnswerHolds env req w v =
    let id = session_id_of req in
    if-After Holds (is_empty id) (some (w, status bad_request))
      (poll_client env req id w (Storage.get id w.storage)) v
      (poll_client-AnswerHolds env req id w (Storage.get id w.storage) v)

pub handle-AnswerHolds :
    (s : Server) (env : Env) (req : Input.Request) (w : World)
    → Holds w
    → AnswerHolds (handle s env req w)
handle-AnswerHolds s env req w v =
    handle-After Holds s env req w v (on_connect-AnswerHolds s env req w v)
      (on_disconnect-Holds req w v) (on_poll-AnswerHolds env req w v) (on_post-Holds s req w v)

-- A request of the FastCGI thread that is answered, or a callback that returns.
pub data Turn : World → World → Type 0 where
  answered :
      (s : Server) (env : Env) (req : Input.Request) (w w' : World) (reply : Reply)
      → handle s env req w ≡ some (w', reply)
      → Turn w w'
  called : (k : Callback) (w w' : World) → run_callback k w ≡ some w' → Turn w w'

pub data Run (start : World) : World → Type 0 where
  here : Run start start
  next : {w w' : World} → Run start w → Turn w w' → Run start w'

Turn-Holds : {w w' : World} → Turn w w' → Holds w → Holds w'
Turn-Holds (answered s env req w w' reply e) v =
    subst AnswerHolds e (handle-AnswerHolds s env req w v)
Turn-Holds (called k w w' e) v = subst WorldHolds e (run_callback-WorldHolds k w v)

-- After any sequence of handled requests and of callbacks from a valid storage on, in whatever order
-- and whatever the system answers, there are never more clients than allowed, nor two with one id.
pub Run-Holds : {start w : World} → Run start w → Holds start → Holds w
Run-Holds here v = v
Run-Holds (next r t) v = Turn-Holds t (Run-Holds r v)
