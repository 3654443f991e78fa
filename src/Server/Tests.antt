-- ===== src/Server/Tests.antt =====
-- The theorems on src/linear_fcgi_server.cc at an input.
use linear_fcgi.Common.{◌↔◌, ◌<◌, ◌≡◌, refl, inl, arith}
use linear_fcgi.Common.{true, false, List, [], ◌∷◌, ◌++◌, some, codes, bytes_eq, length}
use linear_fcgi.Common.Map.{Key, find}
use linear_fcgi.Client.State.{Client, connected, inet, make}
use linear_fcgi.Client.Callbacks.{write_loop, bytes, on_read}
use linear_fcgi.Client.Calls.{
  LoopEvent, connect_done, read_done, read, take_chunk, apply, apply_all,
}
use linear_fcgi.Loop.{World, LoopEnv, on_async}
use linear_fcgi.Loop.Requests.{client_of}
use linear_fcgi.Queries
use linear_fcgi.Queries.{Queries}
use linear_fcgi.Request.Env.{Ident}
use linear_fcgi.Request.Input
use linear_fcgi.Uuid.Api.{unparse}
use linear_fcgi.Server.Origin.{Backend, Resource, Matcher, is_empty, is_allow_origin, get_backend}
use linear_fcgi.Server.Poll.{Polled, poll_data, round, poll_loop, poll}
use linear_fcgi.Server.Handlers.{Server, Env, handle, on_connect, on_post, session_id_of, origin_of}
use linear_fcgi.Server.Routing.{Chosen, get_backend-Chosen}
use linear_fcgi.Server.Sessions.{Begins, new_session_open}
use linear_fcgi.Server.Gathering.{Gathered, poll_gathers}
use linear_fcgi.Server.Answers.{IsAnswered, handle_answers}
use linear_fcgi.Server.Posting.{post_delivers, noted}
use mathlib.Core.List.{flatten}

-- The build without PCRE.
abbrev same : Matcher
same = bytes_eq

abbrev backend : Backend
backend = record { host = codes "localhost"; port = 80; is_websocket = false; origins = [] }

abbrev resources : List Resource
resources =
    record { key = codes "news"; backend = backend }
    ∷ record { key = codes "chat"; backend = backend }
    ∷ []

abbrev pub server : Server
server = record { matches = same; config = some resources; timeout = 30 }

abbrev request : Queries → Input.Request
request queries = record { envs = λ (i : Ident). []; queries = queries }

get_backend-Chosen_example :
    (get_backend same (some resources) (codes "chat") [] ≡ some backend) ↔ (
      (rs : List Resource) × (some resources ≡ some rs)
      × (is_empty (codes "chat") ≡ false)
      × Chosen same (codes "chat") [] rs backend)
get_backend-Chosen_example = get_backend-Chosen same (some resources) (codes "chat") [] backend

abbrev env : Env
env = record {
  uuid = 1 ∷ 0 ∷ 0 ∷ 0 ∷ 0 ∷ 0 ∷ 16 ∷ 0 ∷ 128 ∷ 0 ∷ 0 ∷ 0 ∷ 0 ∷ 0 ∷ 0 ∷ 1 ∷ [];
  memory = 0;
  new_ok = true;
  wakes = record { events = connect_done 0 7 ∷ []; timed_out = false; gap = [] } ∷ [];
  taken = 1;
  malloc = λ n. true;
  now = 7;
  between = [];
  base64_encode = λ text. some text;
}

abbrev pub empty_world : World
empty_world = record {
  storage = record { max_clients = 8; client_map = [] };
  requests = [];
  calls = [];
}

abbrev connect_request : Input.Request
connect_request = request ((codes "ch", codes "chat") ∷ (codes "c", codes "connect") ∷ [])

connect_unnamed : is_empty (session_id_of connect_request) ≡ true
unfolding session_id_of Queries.get_session_id Queries.get find
connect_unnamed = refl

new_session_open_example :
    Begins connect_request (unparse env.uuid) (on_connect server env connect_request empty_world)
new_session_open_example = new_session_open server env connect_request empty_world connect_unnamed

abbrev pub id : Key
id = codes "s1"

abbrev pub client : Client
client = record (make id [] 30 0) { state = connected; read_queue = codes "ab" ∷ codes "c" ∷ [] }

abbrev pub world : World
world = record {
  storage = record { max_clients = 8; client_map = (id, client) ∷ [] };
  requests = [];
  calls = [];
}

abbrev pub post_request : Input.Request
post_request = request ((codes "sid", id) ∷ (codes "data", codes "x") ∷ [])

named : is_empty (session_id_of post_request) ≡ false
unfolding session_id_of Queries.get_session_id Queries.get find
named = refl

client_there : client_of (session_id_of post_request) world ≡ some client
unfolding session_id_of Queries.get_session_id Queries.get find
client_there = refl

abbrev pub loop_env : LoopEnv
loop_env = record {
  connect_env = λ id. record {
    tcp_init_ok = true;
    malloc_ok = true;
    resolved = some inet;
    tcp_connect_ok = true;
  };
  write_env = λ id. record {
    malloc = λ n. true;
    base64_decode = λ text. some text;
    req_malloc_ok = true;
    uv_write_ok = λ b. true;
  };
}

origin_allowed : is_allow_origin server.matches (origin_of post_request) client.allow_origins ≡ true
unfolding is_allow_origin origin_of
origin_allowed = refl

some_text : 0 < length (Queries.get_data post_request.queries)
unfolding Queries.get_data Queries.get find
some_text = omega arith

post_delivers_example :
    let sid = session_id_of post_request in
    let (left, effects) =
      write_loop
        (loop_env.write_env sid)
        (client.write_queue ++ (Queries.get_data post_request.queries ∷ [])) in
    (w' : World) × (on_async loop_env (on_post server post_request world).0 ≡ some w')
    × (w'.calls ≡ [] ++ noted sid effects)
    × (client_of sid w' ≡ some (record (client) { write_queue = left }))
post_delivers_example =
    post_delivers server post_request world client named client_there loop_env refl origin_allowed
      some_text refl

-- Between the first round and the second, the backend sends a byte.
abbrev between : List (List LoopEvent)
between = [] ∷ (read_done true (bytes (codes "d")) ∷ []) ∷ []

abbrev polled : Polled
polled = record {
  client = record (client) { read_queue = []; last_access = 9 };
  effects = [];
  end = poll_data (codes "abcd");
}

poll_run : poll (λ n. true) 9 between client ≡ some polled
unfolding poll poll_loop round read take_chunk apply_all apply on_read
poll_run = refl

poll_gathers_example : Gathered (flatten client.read_queue) between (codes "abcd") polled
poll_gathers_example =
    poll_gathers (λ n. true) 9 between (codes "abcd") client polled refl poll_run refl

abbrev pub late_env : Env
late_env = record (env) { wakes = record { events = []; timed_out = true; gap = [] } ∷ [] }

handle_answers_example : IsAnswered (handle server late_env connect_request empty_world)
handle_answers_example = handle_answers server late_env connect_request (inl refl) empty_world
