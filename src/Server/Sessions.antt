-- ===== src/Server/Sessions.antt =====
-- Server::onConnect of src/linear_fcgi_server.cc: new sessions, and requests that name a session.
use linear_fcgi.Common.{◌≡◌, refl, sym, ◌∙◌, ◌⊎◌, inl, inr}
use linear_fcgi.Common.{Bool, true, false, List, Option, none, some}
use linear_fcgi.Common.{Bool-cases, bytes_eq_refl}
use linear_fcgi.Common.Map.{Key}
use linear_fcgi.Client.State.{Client, Effect}
use linear_fcgi.Client.Calls.{connect, Outcome}
use linear_fcgi.Client.Connect.{is_open, connect_truthful}
use linear_fcgi.Loop.{World, finish, perform, put}
use linear_fcgi.Loop.Requests.{client_of, client_of-finish}
use linear_fcgi.Storage
use linear_fcgi.Request.Input.{Request}
use linear_fcgi.Response.Codes.{ok, not_found, service_unavailable}
use linear_fcgi.Server.Origin.{is_empty, Backend}
use linear_fcgi.Server.Reply.{status, page, session_body}
use linear_fcgi.Server.Handlers.{
  Server, Env, Answer, on_connect, session_id_of, callback_of, connected_answer, connect_created,
  connect_backend,
}
use linear_fcgi.Uuid.Api.{is_null, unparse}

-- The session of a reply is open: its client is in the storage, on its way to the backend or there.
abbrev pub IsSession : Key → World → Type 0
IsSession id w = (c : Client) × (client_of id w ≡ some c) × (is_open c ≡ true)

-- What may be answered to a request for a new session.
abbrev pub Begins : Request → Key → Option Answer → Type 0
Begins req id none = Unit
Begins req id (some (w, status code)) = code ≡ service_unavailable ⊎ code ≡ not_found
Begins req id (some (w, page code body)) =
    (code ≡ ok) × (body ≡ session_body (callback_of req) id) × IsSession id w

client_of-perform-put :
    (id : Key) (effects : List Effect) (c c' : Client) (w : World)
    → client_of id w ≡ some c
    → client_of id (perform id effects (put id c' w)) ≡ some c'
unfolding finish
client_of-perform-put id effects c c' w found =
    client_of-finish id id w (c', effects) ∙ rw (bytes_eq_refl id, found) refl

connected_answer-Begins :
    (env : Env) (req : Request) (id : Key) (w : World) (c : Client) (o : Outcome)
    → client_of id w ≡ some c
    → o.0 ≡ is_open o.1
    → Begins req id (some (connected_answer env req id w o))
unfolding connected_answer
connected_answer-Begins env req id w c (true, c', effects) found truth =
    (refl, refl, (c', client_of-perform-put id effects c c' w found, sym truth))
connected_answer-Begins env req id w c (false, c', effects) found truth = inl refl

connect_created-Begins :
    (env : Env) (req : Request) (backend : Backend) (id : Key) (w : World) (o : Option Client)
    → client_of id w ≡ o
    → Begins req id (connect_created env req backend id w o)
unfolding connect_created
connect_created-Begins env req backend id w none found = inl refl
connect_created-Begins env req backend id w (some c) found =
    after_wait (connect env.wakes backend.host backend.port c)
      (λ r c' effects e. connect_truthful env.wakes backend.host backend.port c r c' effects e)
  where
    after_wait :
        (o : Option Outcome)
        → ((r : Bool) (c' : Client) (effects : List Effect)
            → o ≡ some (r, c', effects)
            → r ≡ is_open c')
        → Begins req id (elim o [ none ↦ none | some r ↦ some (connected_answer env req id w r) ])
    after_wait none truth = tt
    after_wait (some (r, c', effects)) truth =
        connected_answer-Begins env req id w c (r, c', effects) found (truth r c' effects refl)

connect_backend-Begins :
    (s : Server) (env : Env) (req : Request) (w : World) (o : Option Backend)
    → Begins req (unparse env.uuid) (connect_backend s env req w o)
unfolding connect_backend Storage.get
connect_backend-Begins s env req w none = inr refl
connect_backend-Begins s env req w (some backend) =
    let id = unparse env.uuid in
    let (storage, made) =
      Storage.create id backend.origins s.timeout env.memory env.new_ok w.storage in
    elim (Bool-cases made) [
      | inr failed ↦ rw failed (inl refl)
      | inl done ↦ rw done (
          connect_created-Begins env req backend id (record w { storage = storage })
            (Storage.get id storage) refl)
    ]

-- A connect request without a session id that is answered gets 503, 404, or a page that names the
-- session of the UUID drawn for it. The page is sent only if the client of that session is in the
-- storage and is connecting or connected, however the libuv thread runs during the wait.
pub new_session_open :
    (s : Server) (env : Env) (req : Request) (w : World)
    → is_empty (session_id_of req) ≡ true
    → Begins req (unparse env.uuid) (on_connect s env req w)
unfolding on_connect
new_session_open s env req w unnamed = elim (Bool-cases (is_null env.uuid)) [
  | inl failed ↦ rw (unnamed, failed) (inl refl)
  | inr drawn ↦ rw (unnamed, drawn) (connect_backend-Begins s env req w _)
]
