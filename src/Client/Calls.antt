-- ===== src/Client/Calls.antt =====
-- src/linear_fcgi_client.cc: the methods that the FastCGI thread calls. `connect` waits on a
-- condition variable while the libuv thread goes on; what that thread does meanwhile is an argument.
use linear_fcgi.Common.{ℕ, Bool, true, false, not, ◌&&◌, ◌||◌, List, [], ◌∷◌, ◌++◌, length}
use linear_fcgi.Common.{Option, none, some, if◌then◌else◌}
use linear_fcgi.Client.State.{
  connecting, fail_connect, disconnecting, RequestType, Effect, execute, Client, is_connecting,
  is_connected, is_disconnecting, is_disconnected, is_fail_connect,
}
use linear_fcgi.Client.Callbacks.{
  ConnectEnv, run_connect, WriteEnv, run_write, run_disconnect, on_connect, ReadResult, on_read,
}

-- What the libuv thread can do to a client without the lock of the client storage.
pub data LoopEvent : Type 0 where
  connect_request : ConnectEnv → LoopEvent
  write_request : WriteEnv → LoopEvent
  disconnect_request : LoopEvent
  connect_done : (status now : ℕ) → LoopEvent
  read_done : (malloc_ok : Bool) → ReadResult → LoopEvent

unfoldable pub apply : LoopEvent → Client → Client × List Effect
unfolding run_connect run_write run_disconnect on_connect on_read
apply (connect_request env) c = run_connect env c
apply (write_request env) c = run_write env c
apply disconnect_request c = run_disconnect c
apply (connect_done status now) c = on_connect status now c
apply (read_done malloc_ok r) c = on_read malloc_ok r c

unfoldable pub apply_all : List LoopEvent → Client → Client × List Effect
unfolding apply
apply_all [] c = (c, [])
apply_all (e ∷ es) c =
    let (c', effects) = apply e c in let (c'', more) = apply_all es c' in (c'', effects ++ more)

-- Client::disconnect.
unfoldable pub disconnect : Client → Client × List Effect
disconnect c =
    if is_disconnecting c.state || is_disconnected c.state || is_fail_connect c.state
    then (c, [])
    else (record c { state = disconnecting }, execute RequestType.disconnect ∷ [])

-- One return of pthread_cond_timedwait: what ran during the wait, whether an error such as a
-- timeout is returned, and what runs between `unlock` and `disconnect` if it is.
pub record Wake : Type 0 where
  pub events : List LoopEvent
  pub timed_out : Bool
  pub gap : List LoopEvent

abbrev pub Outcome : Type 0
Outcome = Bool × Client × List Effect

unfoldable pub give_up : List LoopEvent → Client → List Effect → Outcome
unfolding apply_all disconnect
give_up gap c effects =
    let (c', more) = apply_all gap c in
    let (c'', last) = disconnect c' in (false, c'', effects ++ (more ++ last))

unfoldable pub prepend : List Effect → Option Outcome → Option Outcome
prepend effects none = none
prepend effects (some (result, c, more)) = some (result, c, effects ++ more)

-- The code from the label `again` on; `none` while the wait goes on.
unfoldable pub wait_loop : List Wake → Client → Option Outcome
unfolding apply_all give_up prepend
wait_loop [] c = none
wait_loop (w ∷ ws) c =
    let (c', effects) = apply_all w.events c in
    let again = prepend effects (wait_loop ws c') in
    if is_connected c'.state
    then some (true, c', effects)
    else if is_fail_connect c'.state
    then some (false, record c' { state = fail_connect }, effects)
    else if w.timed_out
    then some (give_up w.gap c' effects)
    else again

-- The part of `connect` before the wait, for a client that is neither open nor disconnecting.
unfoldable pub dial : (host : List ℕ) → (port : ℕ) → Client → Client × List Effect
dial host port c =
    (record c { host = host; port = port; state = connecting }, execute RequestType.connect ∷ [])

-- Client::connect.
unfoldable pub connect : List Wake → (host : List ℕ) → (port : ℕ) → Client → Option Outcome
unfolding wait_loop dial
connect wakes host port c =
    if is_connecting c.state || is_connected c.state
    then some (true, c, [])
    else if is_disconnecting c.state
    then some (false, c, [])
    else let (c', effects) = dial host port c in prepend effects (wait_loop wakes c')

-- What `Client::read` returns: -1, 0, or the size of the buffer that it fills.
pub data ReadReply : Type 0 where
  gone : ReadReply
  nothing : ReadReply
  chunk : List ℕ → ReadReply

unfoldable pub take_chunk : List (List ℕ) → Client → Client × ReadReply
take_chunk [] c = (c, nothing)
take_chunk (buf ∷ queue) c = (record c { read_queue = queue }, chunk buf)

-- Client::read. Only non-empty buffers are queued.
unfoldable pub read : (now : ℕ) → Client → Client × ReadReply
unfolding take_chunk
read now c =
    if not (is_connecting c.state) && not (is_connected c.state)
    then (c, gone)
    else take_chunk c.read_queue (record c { last_access = now })

-- Client::write; the result is `none` for -1, else the size.
unfoldable pub write : List ℕ → Client → Client × Option ℕ × List Effect
write text c = if is_disconnecting c.state || is_disconnected c.state then (c, none, []) else (
  record c { write_queue = c.write_queue ++ (text ∷ []) },
  some (length text),
  execute RequestType.write ∷ [],
)
