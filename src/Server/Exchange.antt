-- ===== src/Server/Exchange.antt =====
-- One exchange of a client that polls: from the variables of its request to the text that goes back.
use linear_fcgi.Common.{ℕ, ◌≡◌, refl, arith}
use linear_fcgi.Common.{
  false, List, [], ◌∷◌, ◌++◌, All, All-append, IsChar, codes, Option, some, length, Bool-cases, inl,
  inr,
}
use linear_fcgi.Common.Map.{Key}
use linear_fcgi.Client.State.{Client, connected}
use linear_fcgi.Loop.{World}
use linear_fcgi.Loop.Requests.{client_of}
use linear_fcgi.Queries.{session_id_key, command_key, callback_key}
use linear_fcgi.Request.Input.{BodyEnv, Static}
use linear_fcgi.Response.Codes.{ok, number}
use linear_fcgi.Response.RoundTrip.{read_response}
use linear_fcgi.Response.Sending.{read_response-send_body}
use linear_fcgi.Server.Handlers.{Server, Env}
use linear_fcgi.Server.Http.{IsGet, create-get, field, shown, quiet, handle-Polls}
use linear_fcgi.Server.Origin.{is_empty}
use linear_fcgi.Server.Reply.{Reply, page, send, poll_body}
use linear_fcgi.Server.Run.{Accepted, returns, run_callbacks, serve_requests, behind}
use mathlib.Core.List.{flatten}

shown-IsChar :
    (encode : List ℕ → List ℕ) (text : List ℕ)
    → ((t : List ℕ) → All IsChar (encode t))
    → All IsChar (shown encode text)
shown-IsChar encode [] h = tt
shown-IsChar encode (b ∷ text) h = h (b ∷ text)

poll_body-IsChar :
    (callback text : List ℕ)
    → All IsChar callback
    → All IsChar text
    → All IsChar (poll_body callback text)
unfolding poll_body
poll_body-IsChar callback text hc ht = elim (Bool-cases (is_empty callback)) [
  | inl bare ↦ rw bare ht
  | inr called ↦ rw called (
      All-append IsChar (codes "try {") _ (ground arith) (
        All-append IsChar callback _ hc (
          All-append IsChar (codes "(\"") _ (ground arith)
            (All-append IsChar text (codes "\"); } catch(e) {}") ht (ground arith)))))
]

-- The request of a poll: a GET whose libuv thread is quiet.
abbrev pub polling :
    (getenv : List ℕ → Option (List ℕ)) → BodyEnv → Env → (encode : List ℕ → List ℕ) → Accepted
polling getenv body env encode = record {
  before = [];
  getenv = getenv;
  body = body;
  env = quiet env encode;
}

-- A GET request whose query string is written from fields that name the command `poll` and the
-- session of a connected client is answered, while the libuv thread is quiet, with a response from
-- which a reader gets the code 200 and a body that shows, in a call of the callback if one is
-- named, the encoding of a front of the bytes that wait for the client; the client keeps the rest.
-- The encoder of Base64 is taken to write characters without NUL, and so is the name of the callback.
pub poll_over_http :
    (s : Server) (env : Env) (encode : List ℕ → List ℕ) (body : BodyEnv) (st : Static) (w : World)
    (getenv : List ℕ → Option (List ℕ)) (fields : List (Key × List ℕ)) (c : Client)
    → IsGet getenv fields
    → field command_key fields ≡ codes "poll"
    → is_empty (field session_id_key fields) ≡ false
    → client_of (field session_id_key fields) w ≡ some c
    → c.state ≡ connected
    → ((t : List ℕ) → All IsChar (encode t))
    → All IsChar (field callback_key fields)
    → (text : List ℕ) × (left : List (List ℕ)) × (reply : Reply) × (w' : World) × (serve_requests s
          (polling getenv body env encode ∷ [])
          st
          w
        ≡ returns (reply ∷ []) st w')
      × (let answer = poll_body (field callback_key fields) (shown encode text) in
          read_response (send reply) ≡ some (200, length answer, answer))
      × (text ++ flatten left ≡ flatten c.read_queue)
      × (client_of (field session_id_key fields) w'
          ≡ some (record c { read_queue = left; last_access = env.now }))
unfolding serve_requests run_callbacks behind send number
poll_over_http s env encode body st w getenv fields c g command named there up chars
      callback_chars =
    let id = field session_id_key fields in
    let callback = field callback_key fields in
    let (text, left, w', e, kept, rest) =
      handle-Polls getenv fields g s env encode w id c command refl named there up chars in
    let answer = poll_body callback (shown encode text) in
    (
      text,
      left,
      page ok answer,
      w',
      rw (create-get getenv body st g.method, e, serve_requests) refl,
      read_response-send_body ok answer (
          poll_body-IsChar callback (shown encode text) callback_chars
            (shown-IsChar encode text chars)),
      kept,
      rest,
    )
