-- ===== src/Client/Callbacks.antt =====
-- src/linear_fcgi_client.cc: the methods that the libuv thread calls. Each returns the client and
-- the calls that it makes. The state mutex is held wherever `state_` is read or written.
use linear_fcgi.Common.{ℕ, ◌+◌, Bool, true, false, not, ◌&&◌, ◌||◌, List, [], ◌∷◌, ◌++◌}
use linear_fcgi.Common.{Option, none, some, if◌then◌else◌, leb, ◌==◌, c_str}
use linear_fcgi.Url.{url_decode}
use linear_fcgi.Client.State.{
  fail_connect, connected, disconnecting, Family, other, Effect, cond_signal, alloc_connect_req,
  free_connect_req, tcp_connect, read_start, send, close, Client, is_connecting, is_connected,
  is_fail_connect,
}

-- What the system calls of `_connect` answer. `resolved` is the family of the first address that
-- getaddrinfo found.
pub record ConnectEnv : Type 0 where
  pub tcp_init_ok : Bool
  pub malloc_ok : Bool
  pub resolved : Option Family
  pub tcp_connect_ok : Bool

failed : Client → Client
failed c = record c { state = fail_connect }

connect_to : Bool → Family → Client → Client × List Effect
unfolding failed
connect_to ok other c = (failed c, free_connect_req ∷ cond_signal ∷ [])
connect_to true family c = (c, tcp_connect family ∷ [])
connect_to false family c = (failed c, tcp_connect family ∷ free_connect_req ∷ cond_signal ∷ [])

connect_resolved : ConnectEnv → Option Family → Client → Client × List Effect
unfolding connect_to
connect_resolved env none c = (failed c, cond_signal ∷ [])
connect_resolved env (some family) c = connect_to env.tcp_connect_ok family c

-- Client::_connect.
unfoldable pub run_connect : ConnectEnv → Client → Client × List Effect
unfolding connect_resolved
run_connect env c =
    if not env.tcp_init_ok
    then (failed c, cond_signal ∷ [])
    else if not env.malloc_ok
    then (failed c, cond_signal ∷ [])
    else let (c', effects) = connect_resolved env env.resolved c in
      (c', alloc_connect_req ∷ effects)

-- What `_write` calls: `base64_decode` is mod_websocket_base64_decode on a C string, `none` for a
-- negative result; `uv_write_ok` says whether uv_write takes a buffer.
pub record WriteEnv : Type 0 where
  pub malloc : ℕ → Bool
  pub base64_decode : List ℕ → Option (List ℕ)
  pub req_malloc_ok : Bool
  pub uv_write_ok : List ℕ → Bool

-- The bytes that a queued text stands for.
unfoldable pub decode_message : WriteEnv → List ℕ → Option (List ℕ)
decode_message env text = elim (url_decode env.malloc (c_str text)) [
  | none ↦ none
  | some urldecoded ↦ env.base64_decode (c_str urldecoded)
]

unfoldable pub write_one : WriteEnv → List ℕ → List Effect → List Effect
write_one env bytes effects = if env.uv_write_ok bytes then send bytes ∷ effects else effects

-- The loop of `_write` over the queue. A `return` leaves what is still queued.
unfoldable pub write_loop : WriteEnv → List (List ℕ) → List (List ℕ) × List Effect
write_loop env [] = ([], [])
write_loop env (text ∷ queue) =
    let (left, effects) = write_loop env queue in
    elim (decode_message env text) [
      | none ↦ (queue, [])
      | some bytes ↦
          if not env.req_malloc_ok then (queue, []) else (left, write_one env bytes effects)
    ]

-- Client::_write.
unfoldable pub run_write : WriteEnv → Client → Client × List Effect
unfolding write_loop
run_write env c =
    let (left, effects) = write_loop env c.write_queue in (record c { write_queue = left }, effects)

-- Client::_disconnect.
unfoldable pub run_disconnect : Client → Client × List Effect
run_disconnect c = (c, close ∷ [])

-- Client::onConnect. `status` is 0 for success; `now` is time(NULL).
unfoldable pub on_connect : (status now : ℕ) → Client → Client × List Effect
on_connect status now c =
    if not (status == 0) || not (is_connecting c.state)
    then (record c { state = fail_connect }, cond_signal ∷ [])
    else (record c { state = connected; last_access = now }, cond_signal ∷ read_start ∷ [])

-- The size and data of a read: negative for an error, else the bytes.
pub data ReadResult : Type 0 where
  read_error : ReadResult
  bytes : List ℕ → ReadResult

store_read : Bool → ReadResult → Client → Client × List Effect
store_read malloc_ok read_error c = (record c { state = disconnecting }, close ∷ [])
store_read malloc_ok (bytes []) c = (c, [])
store_read malloc_ok (bytes (b ∷ bs)) c =
    if malloc_ok then (record c { read_queue = c.read_queue ++ ((b ∷ bs) ∷ []) }, []) else (c, [])

-- Client::onRead.
unfoldable pub on_read : (malloc_ok : Bool) → ReadResult → Client → Client × List Effect
unfolding store_read
on_read malloc_ok r c = if not (is_connected c.state) then (c, []) else store_read malloc_ok r c

-- Client::onTimer. `now - last_access_ >= timeout_` with the subtraction moved over.
unfoldable pub on_timer : (now : ℕ) → Client → Client × List Effect
on_timer now c =
    if leb (c.last_access + c.timeout) now && (is_connected c.state || is_connecting c.state)
      || is_fail_connect c.state
    then (record c { state = disconnecting }, close ∷ [])
    else (c, [])

-- Client::onDisconnect only writes to the log.
unfoldable pub on_disconnect : Client → Client × List Effect
on_disconnect c = (c, [])
