-- ===== src/Server/Lifetime.antt =====
-- Runs of both threads: src/linear_fcgi_server.cc and src/linear_fcgi_loop.cc together, and the clients
-- that their callbacks use.
use linear_fcgi.Common.{◌≡◌, some}
use linear_fcgi.Loop.{World}
use linear_fcgi.Loop.Invariant.{
  Holds, Callback, async, connected, was_read, closed, timer, run_callback, run_callback-WorldHolds,
  WorldHolds,
}
use linear_fcgi.Loop.Alive.{Lives}
use linear_fcgi.Loop.Due.{settle, Due, Due-Returns}
use linear_fcgi.Request.Input
use linear_fcgi.Server.Alive.{AnswerLives, handle-AnswerLives}
use linear_fcgi.Server.Handlers.{Server, Env, handle}
use linear_fcgi.Server.Invariant.{AnswerHolds, handle-AnswerHolds}
use linear_fcgi.Server.Reply.{Reply}
use mathlib.Core.Path.{subst}

-- A run of both threads in which libuv calls back only what is due.
pub data DueRun (start : World) : World → Type 0 where
  here : DueRun start start
  answered :
      {w w' : World} (s : Server) (env : Env) (req : Input.Request) (reply : Reply)
      → DueRun start w
      → handle s env req w ≡ some (w', reply)
      → DueRun start w'
  called :
      {w w' : World} (k : Callback)
      → DueRun start w
      → Due k w
      → run_callback k w ≡ some w'
      → DueRun start (settle k w')

settle-Holds : (k : Callback) (w : World) → Holds w → Holds (settle k w)
unfolding settle
settle-Holds (async env) w v = v
settle-Holds (connected id status now) w v = v
settle-Holds (was_read id malloc_ok r) w v = v
settle-Holds (closed id) w v = v
settle-Holds (timer now) w v = v

DueRun-Lives : {start w : World} → DueRun start w → Holds start → Lives start → Holds w × Lives w
DueRun-Lives here v h = (v, h)
DueRun-Lives (answered {w = w} s env req reply r e) v h =
    let (v', h') = DueRun-Lives r v h in
    (
      subst AnswerHolds e (handle-AnswerHolds s env req w v'),
      subst AnswerLives e (handle-AnswerLives s env req w h'),
    )
DueRun-Lives (called {w = w} {w' = w'} k r due e) v h =
    let (v', h') = DueRun-Lives r v h in
    let (w2, e2, h2) = Due-Returns k w due v' h' in
    let same : w2 ≡ w' = cc in
    (
      settle-Holds k w' (subst WorldHolds e (run_callback-WorldHolds k w v')),
      subst (λ x. Lives (settle k x)) same h2,
    )

-- Clients are deleted by the close callback only, while pointers to them stay in the queue of
-- requests and in what libuv holds. However requests and callbacks follow each other: a callback
-- that libuv may make finds its client alive and returns, and so does `onAsync` for all clients of
-- its queue. libuv is taken to make the connect, read and close callbacks of a handle only after the
-- call that starts them and before the close callback of the handle has been made; and no client is
-- closed while a request for it is queued. At the start the storage is valid, and queued requests
-- and pending calls are for clients in it.
pub no_use_after_free :
    {start w : World}
    → DueRun start w
    → Holds start
    → Lives start
    → (k : Callback) → Due k w
    → (w' : World) × (run_callback k w ≡ some w') × Lives (settle k w')
no_use_after_free {w = w} r v h k due =
    let (v', h') = DueRun-Lives r v h in Due-Returns k w due v' h'
