-- ===== src/Locks/Threads.antt =====
-- The mutexes that the handlers of src/linear_fcgi_server.cc and the callbacks of
-- src/linear_fcgi_loop.cc take and give.
use linear_fcgi.Common.{
  ℕ, zero, suc, Bool, true, false, List, [], ◌∷◌, ◌++◌, Option, some, if◌then◌else◌,
}
use linear_fcgi.Common.Map.{Key}
use linear_fcgi.Locks.{storage, acquire, release, Trace}
use linear_fcgi.Locks.Methods
use linear_fcgi.Locks.Methods.{print, prints, check_state, info, warn, debug}
use linear_fcgi.Client.State.{Client}
use linear_fcgi.Client.Callbacks.{ReadResult}
use linear_fcgi.Client.Calls.{Wake}
use linear_fcgi.Log.{Log}
use linear_fcgi.Storage.{Storage}
use mathlib.Core.Option

-- The ways through the handlers of Server, with the levels of the messages before a lock is taken.
pub data Way : Type 0 where
  at_once : (before : List ℕ) → Way  -- an answer before the storage is used
  refused : (before : List ℕ) → Way  -- there is no client, or none can be made
  connects : (before : List ℕ) (wakes : List Wake) (host : List ℕ) (port : ℕ) → Client → Way
  disconnects : Key → Way
  polls : (rounds : ℕ) → Key → Way
  posts : (messages : List ℕ) → (writes : Bool) → Key → Way  -- messages of isAllowOrigin

-- The code between lock and unlock of the client storage.
unfoldable pub within : Trace → Trace
within t = acquire storage ∷ (t ++ (release storage ∷ []))

unfoldable pub reads : ℕ → Key → Trace
unfolding check_state
reads zero id = []
reads (suc n) id = check_state id ++ reads n id

-- The handlers onConnect, onDisconnect, onPoll and onPost; `none` while `connect` waits.
unfoldable pub handler : Log → Way → Option Trace
unfolding within prints print reads check_state Methods.connect
handler l (at_once before) = some (prints l before)
handler l (refused before) = some (prints l before ++ within [])
handler l (connects before wakes host port c) =
    Option.map (λ t. prints l before ++ within (print l debug ++ t))
      (Methods.connect l wakes host port c)
handler l (disconnects id) = some (print l info ++ within (check_state id))
handler l (polls rounds id) = some (within (reads rounds id))
handler l (posts messages false id) = some (within (prints l messages))
handler l (posts messages true id) = some (within (prints l messages ++ check_state id))

-- What the libuv thread is called for. `served` is a request of Loop::onAsync.
pub data Callback : Type 0 where
  served_connect : Key → (asked : Bool) → Callback
  served_disconnect : Callback
  served_write : Callback
  connected : (status : ℕ) → Client → Callback
  was_read : ReadResult → Client → Callback
  closed : (known : Bool) → Callback
  timer : (now : ℕ) → Storage → Callback

-- Loop::onAsync, onConnect, onRead, onDisconnect and onTimer.
unfoldable pub callback : Log → Callback → Trace
unfolding within print Methods.run_connect Methods.run_disconnect Methods.on_connect Methods.on_read
    Methods.on_timers
callback l (served_connect id asked) = Methods.run_connect l id asked
callback l served_disconnect = Methods.run_disconnect l
callback l served_write = []
callback l (connected status c) = Methods.on_connect l status c
callback l (was_read r c) = Methods.on_read l r c
callback l (closed known) = print l info ++ within (if known then print l debug else [])
callback l (timer now s) = within (Methods.on_timers l now s.client_map)

unfoldable pub handlers : Log → List Way → Option Trace
unfolding handler
handlers l [] = some []
handlers l (w ∷ ws) =
    Option.bind (handler l w) (λ t. Option.map (λ more. t ++ more) (handlers l ws))

unfoldable pub callbacks : Log → List Callback → Trace
unfolding callback
callbacks l [] = []
callbacks l (k ∷ ks) = callback l k ++ callbacks l ks
