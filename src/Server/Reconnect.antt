-- ===== src/Server/Reconnect.antt =====
-- Requests to Server::onConnect of src/linear_fcgi_server.cc that name a session.
use linear_fcgi.Common.{◌≡◌, refl, inl, inr, arith}
use linear_fcgi.Common.{false, [], none, some, codes, bytes_eq, Option-cases}
use linear_fcgi.Loop.{World}
use linear_fcgi.Loop.Invariant.{Holds}
use linear_fcgi.Loop.Requests.{client_of}
use linear_fcgi.Loop.Sound.{Clients}
use linear_fcgi.Queries
use linear_fcgi.Request.Env.{request_method}
use linear_fcgi.Request.Input.{Request, get_method}
use linear_fcgi.Response.Codes.{gone}
use linear_fcgi.Server.Consistency.{Run-Clients}
use linear_fcgi.Server.Handlers.{
  Server, Env, handle, by_method, on_get, on_connect, session_id_of, reconnect_answer,
}
use linear_fcgi.Server.Invariant.{Run}
use linear_fcgi.Server.Origin.{is_empty}
use linear_fcgi.Server.Reply.{status}
use linear_fcgi.Storage

-- No client has the empty id, since each is created for the text of a UUID.
none_unnamed : (w : World) → Clients w → client_of [] w ≡ none
none_unnamed w h = elim (Option-cases (client_of [] w)) [
  | inl e ↦ e
  | inr (c, e) ↦ let named = (h [] c e).2 in absurd (omega arith)
]

-- After any run of requests and callbacks from a sound world on, a request to connect that names a
-- session, be it one whose client is there and open, is answered with 410 Gone and changes nothing.
pub reconnect_gone :
    {start w : World} (s : Server) (env : Env) (req : Request)
    → Run start w
    → Holds start
    → Clients start
    → req.envs request_method ≡ codes "GET"
    → Queries.get_command req.queries ≡ codes "connect"
    → is_empty (session_id_of req) ≡ false
    → handle s env req w ≡ some (w, status gone)
unfolding handle by_method get_method on_get on_connect reconnect_answer Storage.get bytes_eq
reconnect_gone {w = w} s env req r v h method command named =
    let (_, clients) = Run-Clients r v h in rw (method, command, named, none_unnamed w clients) refl
