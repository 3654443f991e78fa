-- ===== src/Client/Teardown.antt =====
-- How often src/linear_fcgi_client.cc closes the handle of a connection. libuv allows one uv_close
-- for a handle. A close is asked for by `disconnect`, through the request queue, or made at once by
-- `onRead` and `onTimer`.
use linear_fcgi.Common.{ℕ, suc, ◌+◌, ◌≤◌, ◌≡◌, refl, ◌⊎◌, arith}
use linear_fcgi.Common.{Bool, true, false, List, [], ◌∷◌, some, if◌then◌else◌}
use linear_fcgi.Client.State.{
  inet, inet6, connecting, connected, RequestType, Effect, execute, close, Client, is_disconnecting,
  make,
}
use linear_fcgi.Client.Callbacks.{
  ConnectEnv, run_connect, WriteEnv, write_one, write_loop, run_write, run_disconnect, on_connect,
  ReadResult, on_read, on_timer,
}
use linear_fcgi.Client.Calls.{read, write, dial, disconnect}

-- A client, its DISCONNECT requests still in the queue, and the calls of uv_close made so far.
pub record Tracked : Type 0 where
  pub client : Client
  pub pending : ℕ
  pub closes : ℕ

abbrev count_close : Effect → ℕ
count_close close = 1
count_close _ = 0

abbrev count_request : Effect → ℕ
count_request (execute RequestType.disconnect) = 1
count_request _ = 0

unfoldable pub total : (Effect → ℕ) → List Effect → ℕ
total weight [] = 0
total weight (e ∷ es) = weight e + total weight es

-- The books after a method that returned a client and its effects.
unfoldable pub after : Tracked → Client × List Effect → Tracked
unfolding total
after t (c, effects) = record {
  client = c;
  pending = t.pending + total count_request effects;
  closes = t.closes + total count_close effects;
}

-- A DISCONNECT request leaves the queue and is served.
unfoldable pub served : Tracked → (rest : ℕ) → Tracked
served t rest = after (record t { pending = rest }) (run_disconnect t.client)

-- The system calls of `_connect` all succeed.
abbrev pub Dials : ConnectEnv → Type 0
Dials env =
    (env.tcp_init_ok ≡ true)
    × (env.malloc_ok ≡ true)
    × ((env.resolved ≡ some inet) ⊎ (env.resolved ≡ some inet6))
    × (env.tcp_connect_ok ≡ true)

-- One critical section of either thread. The two steps that can move a client to FAIL_CONNECT are
-- timely: `connect_done` finds no teardown begun, and so does a `connect_request` that fails.
pub data Step : Tracked → Tracked → Type 0 where
  dial_step :
      (host : List ℕ) (port : ℕ) (t : Tracked)
      → is_disconnecting t.client.state ≡ false
      → Step t (after t (dial host port t.client))
  disconnect_step : (t : Tracked) → Step t (after t (disconnect t.client))
  read_step : (now : ℕ) (t : Tracked) → Step t (after t ((read now t.client).0, []))
  write_step :
      (text : List ℕ) (t : Tracked)
      → Step t (after t ((write text t.client).0, (write text t.client).2))
  connect_request :
      (env : ConnectEnv) (t : Tracked)
      → (is_disconnecting t.client.state ≡ false) ⊎ Dials env
      → Step t (after t (run_connect env t.client))
  write_request : (env : WriteEnv) (t : Tracked) → Step t (after t (run_write env t.client))
  disconnect_request : (rest : ℕ) (t : Tracked) → t.pending ≡ suc rest → Step t (served t rest)
  connect_done :
      (status now : ℕ) (t : Tracked)
      → is_disconnecting t.client.state ≡ false
      → Step t (after t (on_connect status now t.client))
  read_done :
      (malloc_ok : Bool) (r : ReadResult) (t : Tracked)
      → Step t (after t (on_read malloc_ok r t.client))
  timer : (now : ℕ) (t : Tracked) → Step t (after t (on_timer now t.client))

pub data Reach (start : Tracked) : Tracked → Type 0 where
  here : Reach start start
  next : {t u : Tracked} → Reach start t → Step t u → Reach start u

-- Every teardown that has begun is one request or one close, and none has before the state says so.
abbrev pub IsBalanced : Tracked → Type 0
IsBalanced t = t.pending + t.closes ≡ (if is_disconnecting t.client.state then 1 else 0)

write_loop-quiet :
    (env : WriteEnv) (queue : List (List ℕ))
    → (total count_request (write_loop env queue).1 ≡ 0)
      × (total count_close (write_loop env queue).1 ≡ 0)
unfolding write_loop write_one total
write_loop-quiet env [] = (refl, refl)
write_loop-quiet env (text ∷ queue) = ground (arith, write_loop-quiet env queue)

Step-IsBalanced : {t u : Tracked} → Step t u → IsBalanced t → IsBalanced u
unfolding after total served dial disconnect read write run_connect run_disconnect on_connect
    on_read
Step-IsBalanced (dial_step host port t h) b = ground arith
Step-IsBalanced (disconnect_step t) b = ground arith
Step-IsBalanced (read_step now t) b = ground arith
Step-IsBalanced (write_step text t) b = ground arith
Step-IsBalanced (connect_request env t h) b = ground arith
Step-IsBalanced (write_request env t) b =
    unfold run_write in ground (arith, write_loop-quiet env t.client.write_queue)
Step-IsBalanced (disconnect_request rest t h) b = ground arith
Step-IsBalanced (connect_done status now t h) b = ground arith
Step-IsBalanced (read_done malloc_ok r t) b = ground arith
Step-IsBalanced (timer now t) b = unfold on_timer in ground arith

Reach-IsBalanced : {s t : Tracked} → IsBalanced s → Reach s t → IsBalanced t
Reach-IsBalanced h here = h
Reach-IsBalanced h (next r st) = Step-IsBalanced st (Reach-IsBalanced h r)

-- A new client, with nothing asked for.
unfoldable pub fresh : List ℕ → List (List ℕ) → (timeout memory : ℕ) → Tracked
fresh id allow_origins timeout memory = record {
  client = make id allow_origins timeout memory;
  pending = 0;
  closes = 0;
}

-- From a new client on, by any interleaving of the methods in which no connect callback and no
-- failing `_connect` comes after a teardown has begun, the handle is closed at most once, counting the DISCONNECT requests that
-- are still in the queue, and exactly once if the state is DISCONNECTING.
pub closes_once :
    (id : List ℕ) (allow_origins : List (List ℕ)) (timeout memory : ℕ) (t : Tracked)
    → Reach (fresh id allow_origins timeout memory) t
    → (t.pending + t.closes ≤ 1)
      × (is_disconnecting t.client.state ≡ true → t.pending + t.closes ≡ 1)
unfolding fresh make
closes_once id allow_origins timeout memory t r =
    let b = Reach-IsBalanced refl r in (ground arith, ground arith)

-- The race that `closes_once` excludes: `disconnect` on an open connection, then a connect callback
-- with any status, then the timer at any time. The timer closes the handle while the request of
-- `disconnect` is in the queue, and serving that request closes it again.
pub late_callback-closes_twice :
    (t : Tracked) (status now later : ℕ)
    → (t.client.state ≡ connecting) ⊎ (t.client.state ≡ connected)
    → let t1 = after t (disconnect t.client) in
      let t2 = after t1 (on_connect status now t1.client) in
      let t3 = after t2 (on_timer later t2.client) in
      (t3.pending ≡ t.pending + 1) × ((served t3 t.pending).closes ≡ t.closes + 2)
unfolding after total served disconnect on_connect on_timer run_disconnect
late_callback-closes_twice t status now later h = ground arith
