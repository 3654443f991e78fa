-- ===== src/Server/Answers.antt =====
-- Every request that the loop of Server::run of src/linear_fcgi_server.cc takes is answered.
use linear_fcgi.Common.{◌≡◌, refl}
use linear_fcgi.Common.{
  Bool, true, false, [], Option, none, some, if◌then◌else◌, bytes_eq, codes, not,
}
use linear_fcgi.Common.Map.{Key}
use linear_fcgi.Client.State.{Client}
use linear_fcgi.Client.Calls.{connect}
use linear_fcgi.Client.Connect.{TimesOut, connect_returns}
use linear_fcgi.Storage
use linear_fcgi.Loop.{World, put, perform}
use linear_fcgi.Queries
use linear_fcgi.Request.Input
use linear_fcgi.Request.Input.{Method, get_method}
use linear_fcgi.Response.Codes.{bad_request, service_unavailable}
use linear_fcgi.Server.Origin.{Backend, get_backend, is_empty}
use linear_fcgi.Server.Reply.{status}
use linear_fcgi.Server.Polling.{poll_ends}
use linear_fcgi.Server.Poll.{poll}
use linear_fcgi.Server.Handlers
use linear_fcgi.Server.Handlers.{
  Server, Env, Answer, session_id_of, origin_of, connected_answer, connect_created, connect_backend,
  reconnect_answer, poll_answer, poll_client, on_poll, on_post, on_get, by_method, handle,
}
use linear_fcgi.Uuid.Api.{unparse, is_null}

abbrev pub IsAnswered : Option Answer → Type 0
IsAnswered o = (a : Answer) × (o ≡ some a)

if-IsAnswered :
    (b : Bool) (x y : Option Answer) → IsAnswered x → IsAnswered y → IsAnswered (if b then x else y)
if-IsAnswered true x y h k = h
if-IsAnswered false x y h k = k

-- An answer that is made of a result, when there is one.
of_result {ℓ} :
    {A : Type ℓ} (o : Option A) (f : A → Answer)
    → (a : A) × (o ≡ some a)
    → IsAnswered (elim o [ none ↦ none | some a ↦ some (f a) ])
of_result none f (a, h) = cc
of_result (some a) f h = (f a, refl)

module _ (s : Server) (env : Env) (req : Input.Request) (late : TimesOut env.wakes) where
  connect_created-IsAnswered :
      (backend : Backend) (id : Key) (w : World) (o : Option Client)
      → IsAnswered (connect_created env req backend id w o)
  unfolding connect_created
  connect_created-IsAnswered backend id w none = (_, refl)
  connect_created-IsAnswered backend id w (some c) =
      of_result (connect env.wakes backend.host backend.port c) (connected_answer env req id w)
        (connect_returns env.wakes backend.host backend.port c late)

  connect_backend-IsAnswered :
      (w : World) (o : Option Backend) → IsAnswered (connect_backend s env req w o)
  unfolding connect_backend
  connect_backend-IsAnswered w none = (_, refl)
  connect_backend-IsAnswered w (some backend) =
      let id = unparse env.uuid in
      let (storage, made) =
        Storage.create id backend.origins s.timeout env.memory env.new_ok w.storage in
      if-IsAnswered (not made) (some (w, status service_unavailable))
        (connect_created env req backend id (record w { storage = storage })
          (Storage.get id storage))
        (_, refl)
        (connect_created-IsAnswered backend id (record w { storage = storage })
          (Storage.get id storage))

  on_connect-IsAnswered : (w : World) → IsAnswered (Handlers.on_connect s env req w)
  unfolding Handlers.on_connect
  on_connect-IsAnswered w =
      let found =
        get_backend s.matches s.config (Queries.get_channel req.queries) (origin_of req) in
      if-IsAnswered (is_empty (session_id_of req))
        (if is_null env.uuid
          then some (w, status service_unavailable)
          else connect_backend s env req w found)
        (some (reconnect_answer req (session_id_of req) w (Storage.get [] w.storage)))
        (if-IsAnswered (is_null env.uuid) (some (w, status service_unavailable))
          (connect_backend s env req w found) (_, refl) (connect_backend-IsAnswered w found))
        (_, refl)

  poll_client-IsAnswered :
      (id : Key) (w : World) (o : Option Client) → IsAnswered (poll_client env req id w o)
  unfolding poll_client
  poll_client-IsAnswered id w none = (_, refl)
  poll_client-IsAnswered id w (some c) =
      of_result (poll env.malloc env.now env.between c)
        (λ p. poll_answer env req (perform id p.effects (put id p.client w)) p.end)
        (poll_ends env.malloc env.now env.between c)

  on_poll-IsAnswered : (w : World) → IsAnswered (on_poll env req w)
  unfolding on_poll
  on_poll-IsAnswered w =
      let id = session_id_of req in
      if-IsAnswered (is_empty id) (some (w, status bad_request))
        (poll_client env req id w (Storage.get id w.storage)) (_, refl)
        (poll_client-IsAnswered id w (Storage.get id w.storage))

  on_get-IsAnswered : (w : World) → IsAnswered (on_get s env req w)
  unfolding on_get
  on_get-IsAnswered w =
      let command = Queries.get_command req.queries in
      let otherwise = some (w, status bad_request) in
      let polls = if bytes_eq command (codes "poll") then on_poll env req w else otherwise in
      let leaves = some (Handlers.on_disconnect req w) in
      let b = bytes_eq command (codes "disconnect") in
      if-IsAnswered (bytes_eq command (codes "connect")) (Handlers.on_connect s env req w)
        (if b then leaves else polls) (on_connect-IsAnswered w)
        (if-IsAnswered b leaves polls (_, refl)
          (if-IsAnswered (bytes_eq command (codes "poll")) (on_poll env req w) otherwise
            (on_poll-IsAnswered w) (_, refl)))

  by_method-IsAnswered : (m : Method) (w : World) → IsAnswered (by_method m s env req w)
  unfolding by_method
  by_method-IsAnswered Method.get w = on_get-IsAnswered w
  by_method-IsAnswered Method.post w = (_, refl)
  by_method-IsAnswered Method.unknown w = (_, refl)

  -- Whatever the request, its session and the world are, and whatever the libuv thread does
  -- meanwhile, `run` comes to an answer for it, provided that a wait of `connect` can time out.
  pub handle_answers : (w : World) → IsAnswered (handle s env req w)
  unfolding handle
  handle_answers w = by_method-IsAnswered (get_method req.envs) w
