-- ===== src/Server/Handlers.antt =====
-- src/linear_fcgi_server.cc: the handlers of Server::run. Each returns the world and the answer;
-- each holds the lock of the client storage while it uses a client, so it is one step of the world
-- but for what it is told that the libuv thread does meanwhile.
use linear_fcgi.Common.{ℕ, Bool, not, List, [], ◌∷◌}
use linear_fcgi.Common.{
  Option, none, some, if◌then◌else◌, ltb, length, drop, codes, c_str, bytes_eq,
}
use linear_fcgi.Common.Map.{Key}
use linear_fcgi.Client.State.{Client}
use linear_fcgi.Client.Calls.{Wake, Outcome, LoopEvent, connect, disconnect, write}
use linear_fcgi.Storage
use linear_fcgi.Storage.{Storage}
use linear_fcgi.Loop.{World, perform, put}
use linear_fcgi.Queries
use linear_fcgi.Request.Env.{http_origin}
use linear_fcgi.Request.Input.{Request, Method, get_method}
use linear_fcgi.Response.Codes.{
  ok, no_content, bad_request, not_found, method_not_allowed, gone, internal_server_error,
  service_unavailable,
}
use linear_fcgi.Uuid.Api.{is_null, unparse}
use linear_fcgi.Server.Origin.{Resource, Backend, Matcher, is_empty, get_backend, is_allow_origin}
use linear_fcgi.Server.Reply.{Reply, status, page, session_body, poll_body}
use linear_fcgi.Server.Poll.{PollEnd, poll_gone, no_memory, poll_data, poll}

pub record Server : Type 0 where
  pub matches : Matcher
  pub config : Option (List Resource)
  pub timeout : ℕ

-- What a handler meets: the result of uuid_generate, the memory of a new client, what happens while
-- `connect` waits and how many requests the libuv thread has taken from the queue when it returns,
-- and for a poll the allocator, the time, the Base64 encoder and what happens between its rounds.
pub record Env : Type 0 where
  pub uuid : List ℕ
  pub memory : ℕ
  pub new_ok : Bool
  pub wakes : List Wake
  pub taken : ℕ
  pub malloc : ℕ → Bool
  pub now : ℕ
  pub between : List (List LoopEvent)
  pub base64_encode : List ℕ → Option (List ℕ)

abbrev pub Answer : Type 0
Answer = World × Reply

unfoldable pub session_id_of : Request → Key
session_id_of req = Queries.get_session_id req.queries

unfoldable pub callback_of : Request → List ℕ
callback_of req = Queries.get_callback req.queries

unfoldable pub origin_of : Request → List ℕ
origin_of req = req.envs http_origin

unfoldable pub connected_answer : Env → Request → Key → World → Outcome → Answer
connected_answer env req id w (f, c, effects) =
    let w' = perform id effects (put id c w) in
    let w'' = record w' { requests = drop env.taken w'.requests } in
    if f
    then (w'', page ok (session_body (callback_of req) id))
    else (w'', status service_unavailable)

unfoldable pub connect_created :
    Env → Request → Backend → Key → World → Option Client → Option Answer
unfolding connected_answer
connect_created env req backend id w none = some (w, status service_unavailable)
connect_created env req backend id w (some c) =
    elim (connect env.wakes backend.host backend.port c) [
      | none ↦ none
      | some outcome ↦ some (connected_answer env req id w outcome)
    ]

unfoldable pub connect_backend : Server → Env → Request → World → Option Backend → Option Answer
unfolding connect_created
connect_backend s env req w none = some (w, status not_found)
connect_backend s env req w (some backend) =
    let id = unparse env.uuid in
    let (storage, made) =
      Storage.create id backend.origins s.timeout env.memory env.new_ok w.storage in
    if not made
    then some (w, status service_unavailable)
    else connect_created env req backend id (record w { storage = storage })
        (Storage.get id storage)

unfoldable pub reconnect_answer : Request → Key → World → Option Client → Answer
reconnect_answer req id w none = (w, status gone)
reconnect_answer req id w (some c) = (w, page ok (session_body (callback_of req) id))

-- Server::onConnect; `none` while `connect` waits. With a session id the source looks up `uuid`,
-- which is still the empty string there.
unfoldable pub on_connect : Server → Env → Request → World → Option Answer
unfolding connect_backend reconnect_answer
on_connect s env req w =
    let id = session_id_of req in
    if is_empty id
    then (if is_null env.uuid
        then some (w, status service_unavailable)
        else connect_backend s env req w
            (get_backend s.matches s.config (Queries.get_channel req.queries) (origin_of req)))
    else some (reconnect_answer req id w (Storage.get [] w.storage))

unfoldable pub disconnect_client : Key → World → Option Client → World
disconnect_client id w none = w
disconnect_client id w (some c) =
    let (c', effects) = disconnect c in perform id effects (put id c' w)

-- Server::onDisconnect.
unfoldable pub on_disconnect : Request → World → Answer
unfolding disconnect_client
on_disconnect req w =
    let id = session_id_of req in
    if is_empty id then (w, status bad_request) else (
      disconnect_client id w (Storage.get id w.storage),
      page ok (session_body (callback_of req) id),
    )

unfoldable pub encoded_answer : Request → World → Option (List ℕ) → Answer
encoded_answer req w none = (w, status internal_server_error)
encoded_answer req w (some text) = (w, page ok (poll_body (callback_of req) (c_str text)))

unfoldable pub poll_answer : Env → Request → World → PollEnd → Answer
unfolding encoded_answer
poll_answer env req w poll_gone = (w, status gone)
poll_answer env req w no_memory = (w, status internal_server_error)
poll_answer env req w (poll_data []) = (w, page ok (poll_body (callback_of req) []))
poll_answer env req w (poll_data (b ∷ bs)) = encoded_answer req w (env.base64_encode (b ∷ bs))

unfoldable pub poll_client : Env → Request → Key → World → Option Client → Option Answer
unfolding poll_answer
poll_client env req id w none = some (w, status gone)
poll_client env req id w (some c) = elim (poll env.malloc env.now env.between c) [
  | none ↦ none
  | some p ↦ some (poll_answer env req (perform id p.effects (put id p.client w)) p.end)
]

-- Server::onPoll; `none` would be a loop that does not end.
unfoldable pub on_poll : Env → Request → World → Option Answer
unfolding poll_client
on_poll env req w =
    let id = session_id_of req in
    if is_empty id
    then some (w, status bad_request)
    else poll_client env req id w (Storage.get id w.storage)

unfoldable pub post_client : Server → Request → Key → World → Option Client → Answer
post_client s req id w none = (w, status gone)
post_client s req id w (some c) =
    let text = Queries.get_data req.queries in
    if not (is_allow_origin s.matches (origin_of req) c.allow_origins)
    then (w, status bad_request)
    else if not (ltb 0 (length text))
    then (w, status no_content)
    else let (c', _, effects) = write text c in
      (perform id effects (put id c' w), status no_content)

-- Server::onPost.
unfoldable pub on_post : Server → Request → World → Answer
unfolding post_client
on_post s req w =
    let id = session_id_of req in
    if is_empty id
    then (w, status bad_request)
    else post_client s req id w (Storage.get id w.storage)

unfoldable pub on_get : Server → Env → Request → World → Option Answer
unfolding bytes_eq
on_get s env req w =
    let command = Queries.get_command req.queries in
    if bytes_eq command (codes "connect")
    then on_connect s env req w
    else if bytes_eq command (codes "disconnect")
    then some (on_disconnect req w)
    else if bytes_eq command (codes "poll")
    then on_poll env req w
    else some (w, status bad_request)

unfoldable pub by_method : Method → Server → Env → Request → World → Option Answer
unfolding on_get
by_method Method.get s env req w = on_get s env req w
by_method Method.post s env req w = some (on_post s req w)
by_method Method.unknown s env req w = some (w, status method_not_allowed)

-- One round of the loop of Server::run, for a request that is made.
unfoldable pub handle : Server → Env → Request → World → Option Answer
unfolding by_method
handle s env req w = by_method (get_method req.envs) s env req w
