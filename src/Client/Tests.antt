-- ===== src/Client/Tests.antt =====
-- Runs of src/linear_fcgi_client.cc, and the theorems at an input.
use linear_fcgi.Common.{◌+◌, ◌≤◌, ◌≡◌, refl, inr, arith}
use linear_fcgi.Common.{true, false, List, [], ◌∷◌, ◌++◌, some, codes}
use linear_fcgi.Client.State.{
  Client, Effect, RequestType, connected, is_disconnecting, make, execute,
}
use linear_fcgi.Client.Callbacks.{WriteEnv, run_write, on_connect, on_timer}
use linear_fcgi.Client.Calls.{
  connect_done, Wake, dial, disconnect, connect, wait_loop, apply_all, apply, prepend,
}
use linear_fcgi.Client.Connect.{is_open, connect_truthful}
use linear_fcgi.Client.Teardown.{
  Tracked, dial_step, disconnect_step, disconnect_request, here, next, fresh, after, served, total,
  closes_once, late_callback-closes_twice,
}
use linear_fcgi.Client.Streams.{on_reads, received, received-on_reads, Progress, run_write-Progress}
use mathlib.Core.List.{flatten}

abbrev new_client : Client
new_client = make (codes "id") [] 30 0

abbrev up_client : Client
up_client = record (new_client) { state = connected; read_queue = codes "a" ∷ [] }

-- A client that is dialled, torn down before the connection stands, and closed.
abbrev t0 : Tracked
t0 = fresh (codes "id") [] 30 0

abbrev t1 : Tracked
t1 = after t0 (dial (codes "localhost") 80 t0.client)

abbrev t2 : Tracked
t2 = after t1 (disconnect t1.client)

abbrev t3 : Tracked
t3 = served t2 0

t0_free : is_disconnecting t0.client.state ≡ false
unfolding fresh make
t0_free = refl

t2_pending : t2.pending ≡ 1
unfolding fresh make after dial disconnect total
t2_pending = refl

closes_once_example :
    (t3.pending + t3.closes ≤ 1)
    × (is_disconnecting t3.client.state ≡ true → t3.pending + t3.closes ≡ 1)
closes_once_example = closes_once (codes "id") [] 30 0 t3 (
    next (next (next here (dial_step (codes "localhost") 80 t0 t0_free)) (disconnect_step t1))
      (disconnect_request 0 t2 t2_pending))

abbrev up_tracked : Tracked
up_tracked = record { client = up_client; pending = 0; closes = 0 }

abbrev torn : Tracked
torn = after up_tracked (disconnect up_client)

abbrev called_back : Tracked
called_back = after torn (on_connect 0 5 torn.client)

abbrev timed : Tracked
timed = after called_back (on_timer 9 called_back.client)

late_callback-closes_twice_example : (timed.pending ≡ 1) × ((served timed 0).closes ≡ 2)
late_callback-closes_twice_example = late_callback-closes_twice up_tracked 0 5 9 (inr refl)

-- One wait, in which the connection comes up.
abbrev wakes : List Wake
wakes = record { events = connect_done 0 7 ∷ []; timed_out = false; gap = [] } ∷ []

abbrev dialled : Client
dialled = record (new_client) {
  host = codes "localhost";
  port = 80;
  state = connected;
  last_access = 7;
}

abbrev dial_effects : List Effect
dial_effects = execute RequestType.connect ∷ Effect.cond_signal ∷ Effect.read_start ∷ []

connect_run : connect wakes (codes "localhost") 80 new_client ≡ some (true, dialled, dial_effects)
unfolding connect make prepend wait_loop apply_all apply
connect_run = refl

connect_truthful_example : true ≡ is_open dialled
connect_truthful_example =
    connect_truthful wakes (codes "localhost") 80 new_client true dialled dial_effects connect_run

received-on_reads_example :
    received 3 9 (on_reads (codes "bc" ∷ codes "d" ∷ []) up_client)
    ≡ flatten up_client.read_queue ++ flatten (codes "bc" ∷ codes "d" ∷ [])
received-on_reads_example =
    received-on_reads (codes "bc" ∷ codes "d" ∷ []) 3 9 up_client refl (omega arith)

abbrev env : WriteEnv
env = record {
  malloc = λ n. true;
  base64_decode = λ text. some (0 ∷ text);
  req_malloc_ok = true;
  uv_write_ok = λ b. true;
}

abbrev writer : Client
writer = record (up_client) { write_queue = codes "x" ∷ codes "y" ∷ [] }

run_write-Progress_example :
    Progress env writer.write_queue (run_write env writer).0.write_queue (run_write env writer).1
run_write-Progress_example = run_write-Progress env writer
