-- ===== src/Request/Getters.antt =====
-- The getters of src/linear_fcgi_request.cc. Request::create stores a value for every variable, so
-- that their assertion never fails.
use linear_fcgi.Common.{ℕ, ◌≡◌, sym, ap, List, Option}
use linear_fcgi.Queries.{Queries}
use linear_fcgi.Request.Env
use linear_fcgi.Request.Env.{
  Ident, remote_host, remote_addr, remote_port, content_type, content_length, http_cookie,
  http_origin, http_user_agent,
}
use linear_fcgi.Request.Input.{Request, BodyEnv, Static, Outcome, fault, done, with_queries, create}

unfoldable pub get_remote_host : Request → List ℕ
get_remote_host req = req.envs remote_host

unfoldable pub get_remote_addr : Request → List ℕ
get_remote_addr req = req.envs remote_addr

unfoldable pub get_remote_port : Request → List ℕ
get_remote_port req = req.envs remote_port

unfoldable pub get_content_type : Request → List ℕ
get_content_type req = req.envs content_type

unfoldable pub get_content_length : Request → List ℕ
get_content_length req = req.envs content_length

unfoldable pub get_cookie : Request → List ℕ
get_cookie req = req.envs http_cookie

unfoldable pub get_origin : Request → List ℕ
get_origin req = req.envs http_origin

unfoldable pub get_user_agent : Request → List ℕ
get_user_agent req = req.envs http_user_agent

unfoldable pub get_queries : Request → Queries
get_queries req = req.queries

with_queries-envs :
    (envs : Ident → List ℕ) (o : Outcome (List ℕ)) {req : Request} {s : Static}
    → with_queries envs o ≡ done req s
    → req.envs ≡ envs
unfolding with_queries
with_queries-envs envs fault h = cc
with_queries-envs envs (done text s) {req} h = sym (ap (λ (r : Request). r.envs) (done_inj h))
  where
    done_inj : {a b : Request} {s t : Static} → done a s ≡ done b t → a ≡ b
    done_inj h = cc

-- The getters of a created request answer what getenv does, a missing variable being the empty text.
getters-create :
    (getenv : List ℕ → Option (List ℕ)) (env : BodyEnv) (s s' : Static) (req : Request)
    → create getenv env s ≡ done req s'
    → (get_remote_host req ≡ Env.get getenv remote_host)
      × (get_remote_addr req ≡ Env.get getenv remote_addr)
      × (get_remote_port req ≡ Env.get getenv remote_port)
      × (get_content_type req ≡ Env.get getenv content_type)
      × (get_content_length req ≡ Env.get getenv content_length)
      × (get_cookie req ≡ Env.get getenv http_cookie)
      × (get_origin req ≡ Env.get getenv http_origin)
      × (get_user_agent req ≡ Env.get getenv http_user_agent)
unfolding create get_remote_host get_remote_addr get_remote_port get_content_type get_content_length
    get_cookie get_origin get_user_agent
getters-create getenv env s s' req h =
    let same = with_queries-envs (Env.get getenv) _ h in
    let value = λ (i : Ident). ap (λ (e : Ident → List ℕ). e i) same in
    (
      value remote_host,
      value remote_addr,
      value remote_port,
      value content_type,
      value content_length,
      value http_cookie,
      value http_origin,
      value http_user_agent,
    )
