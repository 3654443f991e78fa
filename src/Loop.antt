-- ===== src/Loop.antt =====
-- src/linear_fcgi_loop.cc and .h: the requests of the FastCGI thread and the callbacks of libuv.
-- The world is the client storage, the request queue, and the calls that were made of libuv and the
-- like, each with the client it is for. A result of `none` is the use of a deleted client.
pub mod Requests
pub mod Start
pub mod Lifetime
pub mod Invariant
pub mod Alive
pub mod Due
pub mod Sound
mod Tests
use linear_fcgi.Common.{ℕ, Bool, true, false, not, List, [], ◌∷◌, ◌++◌, Option, none, some}
use linear_fcgi.Common.{if◌then◌else◌}
use linear_fcgi.Common.Map.{Key, find, update}
use linear_fcgi.Client.State.{Client, Effect, execute, RequestType}
use linear_fcgi.Client.Callbacks.{
  ConnectEnv, run_connect, WriteEnv, run_write, run_disconnect, on_connect, on_disconnect,
  ReadResult, on_read,
}
use linear_fcgi.Storage.{Storage, destroy, on_timer_all}

pub record Request : Type 0 where
  pub type : RequestType
  pub client : Key

pub record World : Type 0 where
  pub storage : Storage
  pub requests : List Request
  pub calls : List (Key × Effect)

-- One call: `Loop::execute` queues a request, anything else goes to the outside.
unfoldable pub perform_one : Key → Effect → World → World
perform_one id (execute t) w = record w {
  requests = w.requests ++ (record { type = t; client = id } ∷ []);
}
perform_one id e w = record w { calls = w.calls ++ ((id, e) ∷ []) }

unfoldable pub perform : Key → List Effect → World → World
unfolding perform_one
perform id [] w = w
perform id (e ∷ es) w = perform id es (perform_one id e w)

unfoldable pub perform_all : List (Key × Effect) → World → World
unfolding perform_one
perform_all [] w = w
perform_all ((id, e) ∷ es) w = perform_all es (perform_one id e w)

-- The client that a pointer leads to is replaced by what a method makes of it.
unfoldable pub put : Key → Client → World → World
put id c w = record w {
  storage = record (w.storage) { client_map = update id (λ _. c) w.storage.client_map };
}

unfoldable pub finish : Key → World → Client × List Effect → World
unfolding put perform
finish id w (c, effects) = perform id effects (put id c w)

-- A method is called through a pointer.
unfoldable pub call : Key → (Client → Client × List Effect) → World → Option World
unfolding finish
call id method w = elim (find id w.storage.client_map) [
  | none ↦ none
  | some c ↦ some (finish id w (method c))
]

-- What the system answers while requests are served.
pub record LoopEnv : Type 0 where
  pub connect_env : Key → ConnectEnv
  pub write_env : Key → WriteEnv

-- The `switch` of `onAsync`.
unfoldable pub serve : LoopEnv → RequestType → Key → World → Option World
unfolding call
serve env RequestType.connect id w = call id (run_connect (env.connect_env id)) w
serve env RequestType.disconnect id w = call id run_disconnect w
serve env RequestType.write id w = call id (run_write (env.write_env id)) w
serve env RequestType.undefined id w = some w

-- The loop of `onAsync` over the requests that it consumes.
unfoldable pub serve_all : LoopEnv → List Request → World → Option World
unfolding serve
serve_all env [] w = some w
serve_all env (r ∷ rs) w = elim (serve env r.type r.client w) [
  | none ↦ none
  | some w' ↦ serve_all env rs w'
]

-- Loop::onAsync.
unfoldable pub on_async : LoopEnv → World → Option World
unfolding serve_all
on_async env w = serve_all env w.requests (record w { requests = [] })

-- Loop::onConnect, with the `free` of its request.
unfoldable pub on_connect_callback : Key → (status now : ℕ) → World → Option World
unfolding call
on_connect_callback id status now w = call id (on_connect status now) w

-- Loop::onRead, with the `free` of the buffer.
unfoldable pub on_read_callback : Key → (malloc_ok : Bool) → ReadResult → World → Option World
unfolding call
on_read_callback id malloc_ok r w = call id (on_read malloc_ok r) w

unfoldable pub destroyed : Key → Option World → Option World
destroyed id none = none
destroyed id (some w) = some (record w { storage = destroy id w.storage })

-- Loop::onDisconnect.
unfoldable pub on_disconnect_callback : Key → World → Option World
unfolding call destroyed
on_disconnect_callback id w = destroyed id (call id on_disconnect w)

-- Loop::onTimer.
unfoldable pub on_timer_callback : ℕ → World → World
unfolding perform_all
on_timer_callback now w =
    let (storage, calls) = on_timer_all now w.storage in
    perform_all calls (record w { storage = storage })
