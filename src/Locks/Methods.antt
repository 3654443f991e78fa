-- ===== src/Locks/Methods.antt =====
-- The mutexes that the methods of both threads take and give, in their order.
use linear_fcgi.Common.{ℕ, ◌+◌, Bool, not, ◌&&◌, ◌||◌, List, [], ◌∷◌, ◌++◌, Option, none, some}
use linear_fcgi.Common.{if◌then◌else◌, ltb, leb, ◌==◌}
use linear_fcgi.Common.Map.{Key}
use linear_fcgi.Locks.{client, log, acquire, release, Trace}
use linear_fcgi.Client.State.{
  Client, is_connecting, is_connected, is_disconnecting, is_fail_connect,
}
use linear_fcgi.Client.Callbacks.{ReadResult, read_error, bytes}
use linear_fcgi.Client.Calls.{Wake, apply_all, dial}
use linear_fcgi.Log.{Log}
use mathlib.Core.Option

abbrev pub warn : ℕ
warn = 2

abbrev pub info : ℕ
info = 3

abbrev pub debug : ℕ
debug = 4

-- log::Print: Log::Write takes the lock of the log if there is a file.
unfoldable pub print : Log → (level : ℕ) → Trace
print l level =
    if ltb l.level level
    then []
    else elim l.file [ none ↦ [] | some file ↦ acquire log ∷ release log ∷ [] ]

unfoldable pub prints : Log → List ℕ → Trace
unfolding print
prints l [] = []
prints l (level ∷ levels) = print l level ++ prints l levels

-- Client::disconnect, Client::read and Client::write.
unfoldable pub check_state : Key → Trace
check_state id = acquire (client id) ∷ release (client id) ∷ []

-- The code of Client::connect from the label `again` on; pthread_cond_timedwait gives the lock and
-- takes it again. `none` while the wait goes on.
unfoldable pub wait_loop : Log → Key → List Wake → Client → Option Trace
unfolding apply_all check_state
wait_loop l id [] c = none
wait_loop l id (w ∷ ws) c =
    let (c', effects) = apply_all w.events c in
    let woken : Trace → Trace = λ t. release (client id) ∷ acquire (client id) ∷ t in
    let again = Option.map woken (wait_loop l id ws c') in
    if is_connected c'.state
    then some (woken (release (client id) ∷ []))
    else if is_fail_connect c'.state
    then some (woken (print l warn ++ (release (client id) ∷ [])))
    else if w.timed_out
    then some (woken (print l warn ++ (release (client id) ∷ check_state id)))
    else again

-- Client::connect.
unfoldable pub connect : Log → List Wake → (host : List ℕ) → (port : ℕ) → Client → Option Trace
unfolding wait_loop dial check_state
connect l wakes host port c =
    if is_connecting c.state || is_connected c.state || is_disconnecting c.state
    then some (check_state c.id)
    else Option.map (λ t. acquire (client c.id) ∷ t) (wait_loop l c.id wakes (dial host port c).0)

-- Client::_disconnect takes no lock but that of the log.
unfoldable pub run_disconnect : Log → Trace
unfolding print
run_disconnect l = print l info

-- Client::_connect; `asked` says whether it comes to the message that it connects.
unfoldable pub run_connect : Log → Key → (asked : Bool) → Trace
unfolding print
run_connect l id asked =
    acquire (client id) ∷ ((if asked then print l info else []) ++ (release (client id) ∷ []))

-- Client::onConnect.
unfoldable pub on_connect : Log → (status : ℕ) → Client → Trace
unfolding print
on_connect l status c =
    acquire (client c.id)
    ∷ ((if not (status == 0) || not (is_connecting c.state) then [] else print l info)
        ++ (release (client c.id) ∷ []))

-- Client::onRead.
unfoldable pub on_read : Log → ReadResult → Client → Trace
unfolding print run_disconnect
on_read l read_error c =
    acquire (client c.id)
    ∷ ((if is_connected c.state then print l warn ++ run_disconnect l else [])
        ++ (release (client c.id) ∷ []))
on_read l (bytes b) c = acquire (client c.id) ∷ release (client c.id) ∷ []

-- Client::onTimer.
unfoldable pub on_timer : Log → (now : ℕ) → Client → Trace
unfolding print run_disconnect
on_timer l now c =
    acquire (client c.id)
    ∷ ((if leb (c.last_access + c.timeout) now && (is_connected c.state || is_connecting c.state)
            || is_fail_connect c.state
          then print l (if is_fail_connect c.state then debug else info) ++ run_disconnect l
          else [])
        ++ (release (client c.id) ∷ []))

-- ClientStorage::onTimer.
unfoldable pub on_timers : Log → (now : ℕ) → List (Key × Client) → Trace
unfolding on_timer
on_timers l now [] = []
on_timers l now ((id, c) ∷ m) = on_timer l now c ++ on_timers l now m
