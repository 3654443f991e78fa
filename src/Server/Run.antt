-- ===== src/Server/Run.antt =====
-- Server::run of src/linear_fcgi_server.cc: the loop over the requests that FCGI_Accept gives, with
-- the callbacks that the libuv thread runs before each.
use linear_fcgi.Common.{Bool, true, false, ℕ}
use linear_fcgi.Common.{List, [], ◌∷◌, Option, none, some}
use linear_fcgi.Loop.{World}
use linear_fcgi.Loop.Invariant.{Callback, run_callback}
use linear_fcgi.Request.Input.{BodyEnv, Static, fault, done, create}
use linear_fcgi.Server.Origin.{Resource, Matcher}
use linear_fcgi.Server.Handlers.{Server, Env, handle}
use linear_fcgi.Server.Reply.{Reply}

-- Server::Server; `none` where its assertion stops the program. A build without assertions does not
-- parse at all, and `memory` is what stands in config_ then.
unfoldable pub make_server :
    (ndebug : Bool) (parse : List ℕ → Option (List Resource)) (memory : Option (List Resource))
    (matches : Matcher) (path : List ℕ) (timeout : ℕ)
    → Option Server
make_server true parse memory matches path timeout =
    some (record { matches = matches; config = memory; timeout = timeout })
make_server false parse memory matches path timeout = elim (parse path) [
  | none ↦ none
  | some config ↦ some (record { matches = matches; config = some config; timeout = timeout })
]

-- An accepted request: what the libuv thread runs before it, its variables and its body, and what
-- its handler meets.
pub record Accepted : Type 0 where
  pub before : List Callback
  pub getenv : List ℕ → Option (List ℕ)
  pub body : BodyEnv
  pub env : Env

-- How the loop ends: `returns` when FCGI_Accept fails, `waits` when a connect goes on waiting, and
-- `crashes` when the memory of a client or of a body is used wrongly.
pub data RunEnd : Type 0 where
  returns : List Reply → Static → World → RunEnd
  waits : RunEnd
  crashes : RunEnd

unfoldable pub run_callbacks : List Callback → World → Option World
unfolding run_callback
run_callbacks [] w = some w
run_callbacks (c ∷ cs) w = elim (run_callback c w) [ none ↦ none | some w' ↦ run_callbacks cs w' ]

unfoldable pub behind : Reply → RunEnd → RunEnd
behind reply (returns replies st w) = returns (reply ∷ replies) st w
behind reply waits = waits
behind reply crashes = crashes

-- The loop, with the static text of Request::getQueryString.
unfoldable pub serve_requests : Server → List Accepted → Static → World → RunEnd
serve_requests s [] st w = returns [] st w
serve_requests s (a ∷ rest) st w = elim (run_callbacks a.before w) [
  | none ↦ crashes
  | some w1 ↦ elim (create a.getenv a.body st) [
    | fault ↦ crashes
    | done req st' ↦ elim (handle s a.env req w1) [
      | none ↦ waits
      | some (w2, reply) ↦ behind reply (serve_requests s rest st' w2)
    ]
  ]
]
