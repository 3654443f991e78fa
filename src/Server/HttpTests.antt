-- ===== src/Server/HttpTests.antt =====
-- The theorems on whole exchanges, and on a poll that is cut off, at an input.
use linear_fcgi.Common.{ℕ, ◌≡◌, refl, ap, arith}
use linear_fcgi.Common.{
  true, false, List, [], ◌∷◌, ◌++◌, All, IsChar, Option, none, some, codes, bytes_eq, if◌then◌else◌,
  length,
}
use linear_fcgi.Common.Map.{Key, find, insert}
use linear_fcgi.Client.State.{Client, Effect, connected, make}
use linear_fcgi.Loop.{World, LoopEnv, on_async}
use linear_fcgi.Loop.Requests.{client_of}
use linear_fcgi.Queries.RoundTrip.{IsField, render}
use linear_fcgi.Request.Env
use linear_fcgi.Request.Env.{name, request_method, query_string, content_length, http_origin}
use linear_fcgi.Request.Input.{BodyEnv, Static, Request}
use linear_fcgi.Response.Codes.{no_content, gone}
use linear_fcgi.Response.Decimal.{decimal}
use linear_fcgi.Response.RoundTrip.{read_response}
use linear_fcgi.Server.Exchange.{polling, poll_over_http}
use linear_fcgi.Server.Http.{IsGet, shown, request_of}
use linear_fcgi.Server.Losing.{cut_off, on_poll_loses}
use linear_fcgi.Server.Handlers.{Server, Env, on_poll, session_id_of}
use linear_fcgi.Client.Calls.{read_done}
use linear_fcgi.Client.Callbacks.{read_error}
use linear_fcgi.Queries
use linear_fcgi.Server.Origin.{is_empty, is_allow_origin}
use linear_fcgi.Server.Reply.{Reply, status, send, poll_body}
use linear_fcgi.Server.Run.{returns, serve_requests}
use linear_fcgi.Server.Upload.{IsPost, post_over_http}
use linear_fcgi.Url.{url_encode, encode_loop, encode_char}
use mathlib.Core.List.{flatten}

abbrev server : Server
server = record { matches = bytes_eq; config = none; timeout = 30 }

abbrev env : Env
env = record {
  uuid = [];
  memory = 0;
  new_ok = true;
  wakes = [];
  taken = 0;
  malloc = λ n. true;
  now = 7;
  between = [];
  base64_encode = λ text. some text;
}

abbrev client : Client
client = record (make (codes "s1") [] 30 0) {
  state = connected;
  read_queue = codes "ab" ∷ codes "c" ∷ [];
}

abbrev world : World
world = record {
  storage = record { max_clients = 8; client_map = (codes "s1", client) ∷ [] };
  requests = [];
  calls = [];
}

abbrev no_body : BodyEnv
no_body = record { malloc = λ n. false; fread = λ n. none }

abbrev static : Static
static = record { body = []; erange = false }

abbrev poll_fields : List (Key × List ℕ)
poll_fields = (codes "c", codes "poll") ∷ (codes "sid", codes "s1") ∷ (codes "f", codes "f") ∷ []

abbrev poll_getenv : List ℕ → Option (List ℕ)
poll_getenv key =
    if bytes_eq key (codes "REQUEST_METHOD")
    then some (codes "GET")
    else if bytes_eq key (codes "QUERY_STRING")
    then some (render poll_fields)
    else none

poll_fields-IsField : All IsField poll_fields
poll_fields-IsField = ground arith

poll_getenv-IsGet : IsGet poll_getenv poll_fields
unfolding Env.get name bytes_eq
poll_getenv-IsGet = record { method = refl; text = refl; well_formed = poll_fields-IsField }

-- A stand-in for Base64.
abbrev letters : List ℕ → List ℕ
letters text = codes "YWJj"

letters-IsChar : (t : List ℕ) → All IsChar (letters t)
letters-IsChar t = ground arith

callback-IsChar : All IsChar (codes "f")
callback-IsChar = ground arith

poll_over_http_example :
    (text : List ℕ) × (left : List (List ℕ)) × (reply : Reply) × (w' : World) × (serve_requests
        server
        (polling poll_getenv no_body env letters ∷ [])
        static
        world
      ≡ returns (reply ∷ []) static w')
    × (let answer = poll_body (codes "f") (shown letters text) in
        read_response (send reply) ≡ some (200, length answer, answer))
    × (text ++ flatten left ≡ flatten client.read_queue)
    × (client_of (codes "s1") w' ≡ some (record (client) { read_queue = left; last_access = 7 }))
unfolding find bytes_eq
poll_over_http_example =
    poll_over_http server env letters no_body static world poll_getenv poll_fields client
      poll_getenv-IsGet refl refl refl refl letters-IsChar callback-IsChar

abbrev base64_text : List ℕ
base64_text = codes "aGk="

abbrev encoded_text : List ℕ
encoded_text = codes "aGk%3d"

abbrev post_fields : List (Key × List ℕ)
post_fields = (codes "sid", codes "s1") ∷ (codes "data", encoded_text) ∷ []

abbrev post_getenv : List ℕ → Option (List ℕ)
post_getenv key =
    if bytes_eq key (codes "REQUEST_METHOD")
    then some (codes "POST")
    else if bytes_eq key (codes "CONTENT_LENGTH")
    then some (decimal (length (render post_fields)))
    else none

abbrev whole_body : BodyEnv
whole_body = record { malloc = λ n. true; fread = λ n. some (render post_fields) }

-- A stand-in for mod_websocket_base64_decode.
abbrev loop_env : LoopEnv
loop_env = record {
  connect_env = λ key. record {
    tcp_init_ok = true;
    malloc_ok = true;
    resolved = none;
    tcp_connect_ok = true;
  };
  write_env = λ key. record {
    malloc = λ n. true;
    base64_decode = λ text. some (codes "hi");
    req_malloc_ok = true;
    uv_write_ok = λ b. true;
  };
}

post_fields-IsField : All IsField post_fields
post_fields-IsField = ground arith

post_text-IsChar : All IsChar (render post_fields)
post_text-IsChar = ground arith

base64_text-IsChar : All IsChar base64_text
base64_text-IsChar = ground arith

post_getenv-IsPost : IsPost post_getenv whole_body post_fields
unfolding Env.get name bytes_eq
post_getenv-IsPost = record {
  method = refl;
  size = refl;
  fits = omega arith;
  memory = refl;
  reads = refl;
  chars = post_text-IsChar;
  well_formed = post_fields-IsField;
}

encoded_run : url_encode (λ n. true) base64_text ≡ some encoded_text
unfolding url_encode encode_loop encode_char
encoded_run = refl

post_over_http_example :
    (w1 w2 : World) × (serve_requests server
        (record { before = []; getenv = post_getenv; body = whole_body; env = env } ∷ [])
        static
        world
      ≡ returns (status no_content ∷ []) (record static { body = render post_fields }) w1)
    × (on_async loop_env w1 ≡ some w2)
    × (w2.calls ≡ (codes "s1", Effect.send (codes "hi")) ∷ [])
    × (client_of (codes "s1") w2 ≡ some client)
unfolding find bytes_eq is_allow_origin make Env.get
post_over_http_example =
    post_over_http server env whole_body static world loop_env post_getenv post_fields client
      base64_text (codes "hi") post_getenv-IsPost refl refl refl refl refl refl refl
      base64_text-IsChar encoded_run (omega arith) refl
      (record { memory = λ n. refl; request_memory = refl; taken = λ b. refl })

-- The backend closes the connection after the first round.
abbrev cut_env : Env
cut_env = record (env) { between = [] ∷ (read_done true read_error ∷ []) ∷ [] }

abbrev poll_request : Request
poll_request = request_of poll_getenv

poll_id : session_id_of poll_request ≡ codes "s1"
unfolding session_id_of Queries.get_session_id Queries.get Queries.make Env.get name bytes_eq find
    Queries.split Queries.cut insert
poll_id = refl

on_poll_loses_example :
    (w' : World) × (on_poll cut_env poll_request world ≡ some (w', status gone))
    × (client_of (session_id_of poll_request) w' ≡ some (cut_off 7 (codes "c" ∷ []) client))
unfolding find bytes_eq
on_poll_loses_example =
    on_poll_loses cut_env poll_request world client (codes "ab") (codes "c" ∷ []) true []
      (ap is_empty poll_id) (ap (λ i. client_of i world) poll_id) refl refl (omega arith)
      (omega arith) refl refl
