-- ===== src/Loop/Invariant.antt =====
-- Every callback of src/linear_fcgi_loop.cc keeps the client storage valid, where it returns.
use linear_fcgi.Common.{ℕ, inl, inr, arith}
use linear_fcgi.Common.{Bool, List, [], ◌∷◌, Option, none, some, Option-cases}
use linear_fcgi.Common.Map.{Key, update-IsMap, length-update}
use linear_fcgi.Client.State.{Client, Effect, RequestType}
use linear_fcgi.Client.Callbacks.{
  run_connect, run_write, run_disconnect, on_connect, on_disconnect, on_read, ReadResult,
}
use linear_fcgi.Storage.Laws.{IsValid, destroy-IsValid, on_timer_all-IsValid}
use linear_fcgi.Storage.{on_timer_all}
use linear_fcgi.Loop.{
  World, Request, put, perform, perform_one, perform_all, finish, call, LoopEnv, serve, serve_all,
  on_async, destroyed, on_connect_callback, on_read_callback, on_disconnect_callback,
  on_timer_callback,
}
use linear_fcgi.Loop.Requests.{perform-storage, client_of, call-some, call-none}

abbrev pub Holds : World → Type 0
Holds w = IsValid w.storage

pub put-Holds : (id : Key) (c : Client) (w : World) → Holds w → Holds (put id c w)
unfolding put
put-Holds id c w v = ground (
  arith,
  length-update id (λ _. c) w.storage.client_map,
  update-IsMap id (λ _. c) w.storage.client_map,
)

pub perform-Holds :
    (id : Key) (effects : List Effect) (w : World) → Holds w → Holds (perform id effects w)
perform-Holds id effects w v = rw (perform-storage id effects w) v

pub finish-Holds :
    (id : Key) (w : World) (r : Client × List Effect) → Holds w → Holds (finish id w r)
unfolding finish
finish-Holds id w (c, effects) v = perform-Holds id effects (put id c w) (put-Holds id c w v)

-- The world that is left, if there is one, is valid.
abbrev pub WorldHolds : Option World → Type 0
WorldHolds none = Unit
WorldHolds (some w) = Holds w

pub call-WorldHolds :
    (id : Key) (method : Client → Client × List Effect) (w : World)
    → Holds w
    → WorldHolds (call id method w)
call-WorldHolds id method w v = elim (Option-cases (client_of id w)) [
  | inl e ↦ rw (call-none id method w e) tt
  | inr (c, e) ↦ rw (call-some id method w e) (finish-Holds id w (method c) v)
]

serve-WorldHolds :
    (env : LoopEnv) (type : RequestType) (id : Key) (w : World)
    → Holds w
    → WorldHolds (serve env type id w)
unfolding serve
serve-WorldHolds env RequestType.connect id w v =
    call-WorldHolds id (run_connect (env.connect_env id)) w v
serve-WorldHolds env RequestType.disconnect id w v = call-WorldHolds id run_disconnect w v
serve-WorldHolds env RequestType.write id w v =
    call-WorldHolds id (run_write (env.write_env id)) w v
serve-WorldHolds env RequestType.undefined id w v = v

serve_all-WorldHolds :
    (env : LoopEnv) (rs : List Request) (w : World) → Holds w → WorldHolds (serve_all env rs w)
unfolding serve_all
serve_all-WorldHolds env [] w v = v
serve_all-WorldHolds env (r ∷ rs) w v =
    served (serve env r.type r.client w) (λ w' h. serve_all-WorldHolds env rs w' h)
      (serve-WorldHolds env r.type r.client w v)
  where
    served :
        (o : Option World)
        → ((w' : World) → Holds w' → WorldHolds (serve_all env rs w'))
        → WorldHolds o
        → WorldHolds (elim o [ none ↦ none | some w' ↦ serve_all env rs w' ])
    served none rest h = tt
    served (some w') rest h = rest w' h

perform_all-Holds :
    (calls : List (Key × Effect)) (w : World) → Holds w → Holds (perform_all calls w)
unfolding perform_all perform_one
perform_all-Holds [] w v = v
perform_all-Holds ((id, Effect.execute t) ∷ calls) w v = perform_all-Holds calls _ v
perform_all-Holds ((id, e) ∷ calls) w v = perform_all-Holds calls _ v

destroyed-WorldHolds : (id : Key) (o : Option World) → WorldHolds o → WorldHolds (destroyed id o)
unfolding destroyed
destroyed-WorldHolds id none v = tt
destroyed-WorldHolds id (some w) v = destroy-IsValid id w.storage v

-- What libuv can call, with what it passes.
pub data Callback : Type 0 where
  async : LoopEnv → Callback
  connected : Key → (status now : ℕ) → Callback
  was_read : Key → (malloc_ok : Bool) → ReadResult → Callback
  closed : Key → Callback
  timer : ℕ → Callback

unfoldable pub run_callback : Callback → World → Option World
unfolding on_async on_connect_callback on_read_callback on_disconnect_callback on_timer_callback
run_callback (async env) w = on_async env w
run_callback (connected id status now) w = on_connect_callback id status now w
run_callback (was_read id malloc_ok r) w = on_read_callback id malloc_ok r w
run_callback (closed id) w = on_disconnect_callback id w
run_callback (timer now) w = some (on_timer_callback now w)

pub run_callback-WorldHolds : (k : Callback) (w : World) → Holds w → WorldHolds (run_callback k w)
unfolding run_callback on_async on_connect_callback on_read_callback on_disconnect_callback
    on_timer_callback
run_callback-WorldHolds (async env) w v =
    serve_all-WorldHolds env w.requests (record w { requests = [] }) v
run_callback-WorldHolds (connected id status now) w v =
    call-WorldHolds id (on_connect status now) w v
run_callback-WorldHolds (was_read id malloc_ok r) w v = call-WorldHolds id (on_read malloc_ok r) w v
run_callback-WorldHolds (closed id) w v =
    destroyed-WorldHolds id (call id on_disconnect w) (call-WorldHolds id on_disconnect w v)
run_callback-WorldHolds (timer now) w v =
    perform_all-Holds (on_timer_all now w.storage).1
      (record w { storage = (on_timer_all now w.storage).0 }) (on_timer_all-IsValid now w.storage v)
