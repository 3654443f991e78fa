-- ===== src/Server/Http.antt =====
-- A poll from the text of its request to the text of its response: src/linear_fcgi_request.cc,
-- src/linear_fcgi_queries.cc, src/linear_fcgi_server.cc and src/linear_fcgi_response.cc together.
use linear_fcgi.Common.{ℕ, ◌≡◌, refl, sym, ap, ◌∙◌, arith}
use linear_fcgi.Common.{true, false, List, [], ◌∷◌, ◌++◌, All, codes, c_str_of_chars, IsChar}
use linear_fcgi.Common.{Option, some, bytes_eq, bytes_eq_refl}
use linear_fcgi.Common.Map.{Key, find, find-update}
use linear_fcgi.Client.State.{Client, connected}
use linear_fcgi.Loop.{World, put, perform}
use linear_fcgi.Loop.Requests.{client_of}
use linear_fcgi.Queries
use linear_fcgi.Queries.{Queries, make, session_id_key, command_key, callback_key}
use linear_fcgi.Queries.Split.{Free}
use linear_fcgi.Queries.RoundTrip.{IsField, render, find-make-render}
use linear_fcgi.Request.Env
use linear_fcgi.Request.Env.{Ident, request_method, query_string}
use linear_fcgi.Request.Input.{
  Request, BodyEnv, Static, done, Method, get_method, get_query_string, query_string_for,
  with_queries, create,
}
use linear_fcgi.Response.Codes.{ok}
use linear_fcgi.Server.Handlers.{
  Server, Env, Answer, session_id_of, callback_of, encoded_answer, handle, by_method, on_get,
  on_poll, poll_client, poll_answer,
}
use linear_fcgi.Server.Poll.{poll_data, poll}
use linear_fcgi.Server.QuietPoll.{ready, poll-QuietPoll}
use linear_fcgi.Storage
use linear_fcgi.Server.Origin.{is_empty}
use linear_fcgi.Server.Reply.{page, poll_body}
use mathlib.Core.List.{flatten}
use mathlib.Core.Option
use mathlib.Core.Path.{subst}

-- A GET request with a query string that a client writes from fields.
pub record IsGet (getenv : List ℕ → Option (List ℕ)) (fields : List (Key × List ℕ)) : Type 0 where
  pub method : Env.get getenv request_method ≡ codes "GET"
  pub text : Env.get getenv query_string ≡ render fields
  pub well_formed : All IsField fields

abbrev pub request_of : (List ℕ → Option (List ℕ)) → Request
request_of getenv = record { envs = Env.get getenv; queries = make (Env.get getenv query_string) }

get_method-get :
    (envs : Ident → List ℕ) → envs request_method ≡ codes "GET" → get_method envs ≡ Method.get
unfolding get_method
get_method-get envs m = rw m refl

pub create-get :
    (getenv : List ℕ → Option (List ℕ)) (body : BodyEnv) (st : Static)
    → Env.get getenv request_method ≡ codes "GET"
    → create getenv body st ≡ done (request_of getenv) st
unfolding create get_query_string with_queries query_string_for
create-get getenv body st m = rw (get_method-get (Env.get getenv) m) refl

-- What the getters of Queries answer for fields.
abbrev pub field : Key → List (Key × List ℕ) → List ℕ
field key fields = Option.get_or (find key fields) []

get-field :
    (getenv : List ℕ → Option (List ℕ)) (fields : List (Key × List ℕ)) (key : Key)
    → IsGet getenv fields
    → Free b'=' key
    → Queries.get key (make (Env.get getenv query_string)) ≡ field key fields
unfolding Queries.get
get-field getenv fields key g free =
    ap (λ t. Option.get_or (find key (make t)) []) g.text
    ∙ ap (λ o. Option.get_or o []) (find-make-render key fields free g.well_formed)

-- What stands for the bytes of a poll in its answer.
abbrev pub shown : (encode : List ℕ → List ℕ) → List ℕ → List ℕ
shown encode [] = []
shown encode (b ∷ text) = encode (b ∷ text)

-- There is memory, the encoder works, and the libuv thread is quiet.
abbrev pub quiet : Env → (encode : List ℕ → List ℕ) → Env
quiet env encode = record env {
  malloc = λ n. true;
  between = [];
  base64_encode = λ text. some (encode text);
}

poll_answer-data :
    (env : Env) (encode : List ℕ → List ℕ) (req : Request) (w : World) (text : List ℕ)
    → ((t : List ℕ) → All IsChar (encode t))
    → poll_answer (quiet env encode) req w (poll_data text)
      ≡ (w, page ok (poll_body (callback_of req) (shown encode text)))
unfolding poll_answer encoded_answer
poll_answer-data env encode req w [] chars = refl
poll_answer-data env encode req w (b ∷ text) chars =
    ap (λ t. (w, page ok (poll_body (callback_of req) t))) (c_str_of_chars _ (chars (b ∷ text)))

-- The end of a poll: the client keeps what was not answered.
abbrev pub Polls :
    (encode : List ℕ → List ℕ) (callback : List ℕ) (now : ℕ)
    → Key
    → Client
    → World
    → Option Answer
    → Type 0
Polls encode callback now id c w o =
    (text : List ℕ) × (left : List (List ℕ)) × (w' : World) × (o
      ≡ some (w', page ok (poll_body callback (shown encode text))))
    × (text ++ flatten left ≡ flatten c.read_queue)
    × (client_of id w' ≡ some (record c { read_queue = left; last_access = now }))

ready-same : (c : Client) → c.state ≡ connected → ready c c.read_queue ≡ c
ready-same c up = ap (λ t. record c { state = t }) (sym up)

pub client_of-put :
    (id : Key) (w : World) (c d : Client)
    → client_of id w ≡ some c
    → client_of id (put id d w) ≡ some d
unfolding put
client_of-put id w c d there =
    find-update id id (λ _. d) w.storage.client_map
    ∙ rw (bytes_eq_refl id) (ap (Option.map (λ _. d)) there)

poll_client-Polls :
    (env : Env) (encode : List ℕ → List ℕ) (req : Request) (id : Key) (w : World) (c : Client)
    → ((t : List ℕ) → All IsChar (encode t))
    → c.state ≡ connected
    → client_of id w ≡ some c
    → Polls encode
        (callback_of req)
        env.now
        id
        c
        w
        (poll_client (quiet env encode) req id w (some c))
unfolding poll_client perform
poll_client-Polls env encode req id w c chars up there =
    let (p, e, (text, left, parts, kept)) = poll-QuietPoll env.now c in
    let same = ready-same c up in
    let c2 = record c { state = connected; read_queue = left; last_access = env.now } in
    let run = ap (poll (λ n. true) env.now []) (sym same) ∙ e ∙ ap some parts in
    (
      text,
      left,
      put id c2 w,
      rw (run, poll_client) (ap some (poll_answer-data env encode req (put id c2 w) text chars)),
      kept,
      client_of-put id w c c2 there
          ∙ ap (λ t. some (record c { state = t; read_queue = left; last_access = env.now }))
              (sym up),
    )

command-Free : Free b'=' command_key
command-Free = ground arith

pub session_id-Free : Free b'=' session_id_key
session_id-Free = ground arith

callback-Free : Free b'=' callback_key
callback-Free = ground arith

on_get-poll :
    (s : Server) (env : Env) (req : Request) (w : World)
    → Queries.get_command req.queries ≡ codes "poll"
    → on_get s env req w ≡ on_poll env req w
unfolding on_get bytes_eq
on_get-poll s env req w h = rw h refl

on_poll-client :
    (env : Env) (req : Request) (w : World) (id : Key) (c : Client)
    → session_id_of req ≡ id
    → is_empty id ≡ false
    → client_of id w ≡ some c
    → on_poll env req w ≡ poll_client env req id w (some c)
unfolding on_poll Storage.get
on_poll-client env req w id c e named there = rw (e, named, there) refl

module _ (getenv : List ℕ → Option (List ℕ)) (fields : List (Key × List ℕ))
    (g : IsGet getenv fields) where
  callback-field : callback_of (request_of getenv) ≡ field callback_key fields
  unfolding callback_of Queries.get_callback
  callback-field = get-field getenv fields callback_key g callback-Free

  handle-on_poll :
      (s : Server) (env : Env) (w : World)
      → field command_key fields ≡ codes "poll"
      → handle s env (request_of getenv) w ≡ on_poll env (request_of getenv) w
  unfolding handle by_method Queries.get_command
  handle-on_poll s env w e =
      ap (λ m. by_method m s env (request_of getenv) w) (get_method-get (Env.get getenv) g.method)
      ∙ on_get-poll s env (request_of getenv) w
          (get-field getenv fields command_key g command-Free ∙ e)

  pub handle-Polls :
      (s : Server) (env : Env) (encode : List ℕ → List ℕ) (w : World) (id : Key) (c : Client)
      → field command_key fields ≡ codes "poll"
      → field session_id_key fields ≡ id
      → is_empty id ≡ false
      → client_of id w ≡ some c
      → c.state ≡ connected
      → ((t : List ℕ) → All IsChar (encode t))
      → Polls encode
          (field callback_key fields)
          env.now
          id
          c
          w
          (handle s (quiet env encode) (request_of getenv) w)
  unfolding session_id_of Queries.get_session_id
  handle-Polls s env encode w id c command sid named there up chars =
      let same =
        handle-on_poll s (quiet env encode) w command
        ∙ on_poll-client (quiet env encode) (request_of getenv) w id c
            (get-field getenv fields session_id_key g session_id-Free ∙ sid) named there in
      subst (λ o. Polls encode (field callback_key fields) env.now id c w o) (sym same)
        (subst
          (λ b.
            Polls encode b env.now id c w
              (poll_client (quiet env encode) (request_of getenv) id w (some c)))
          callback-field (poll_client-Polls env encode (request_of getenv) id w c chars up there))
