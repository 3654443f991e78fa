-- ===== src/Server/Consistency.antt =====
-- What holds of every client in the storage, however the threads of src/linear_fcgi_server.cc and
-- src/linear_fcgi_loop.cc go on.
use linear_fcgi.Loop.{World}
use linear_fcgi.Loop.Invariant.{Holds}
use linear_fcgi.Loop.Sound.{Clients, WorldClients, run_callback-WorldClients}
use linear_fcgi.Server.Dispatch.{After}
use linear_fcgi.Server.Invariant.{Turn, answered, called, Run, here, next, Run-Holds}
use linear_fcgi.Server.Sound.{handle-Clients}
use mathlib.Core.Path.{subst}

Turn-Clients : {w w' : World} → Turn w w' → Holds w → Clients w → Clients w'
Turn-Clients (answered s env req w w' reply e) v h =
    subst (After Clients) e (handle-Clients s env req w h)
Turn-Clients (called k w w' e) v h = subst WorldClients e (run_callback-WorldClients k w v h)

-- After any sequence of handled requests and of callbacks from a sound world on, in whatever order
-- and whatever the system answers: there are never more clients than allowed, nor two with one id;
-- each client in the storage has the id under which it stands, by which `Loop::onDisconnect` destroys
-- it, and which is not empty; and no buffer in its read queue is empty, so that a 0 of `Client::read` says that none is left.
pub Run-Clients :
    {start w : World} → Run start w → Holds start → Clients start → Holds w × Clients w
Run-Clients here v h = (v, h)
Run-Clients (next r t) v h =
    let (v', h') = Run-Clients r v h in (Run-Holds (next r t) v, Turn-Clients t v' h')
