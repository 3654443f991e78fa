-- ===== src/Locks/Tests.antt =====
-- The theorems on the mutexes at an input.
use linear_fcgi.Common.{◌+◌, ◌≡◌, refl}
use linear_fcgi.Common.{true, List, [], ◌∷◌, some, length, codes}
use linear_fcgi.Client.State.{make}
use linear_fcgi.Client.Calls.{Wake}
use linear_fcgi.Locks.{
  storage, client, acquire, release, Trace, System, holds, takes, server_step, Run, here, next,
  started,
}
use linear_fcgi.Locks.Methods.{print, prints, check_state}
use linear_fcgi.Locks.Threads.{
  Way, disconnects, connects, handler, Callback, timer, within, handlers, callbacks,
}
use linear_fcgi.Locks.Progress.{GoesOn}
use linear_fcgi.Locks.Discipline.{threads_go_on}
use linear_fcgi.Locks.Starved.{connect_holds_off}
use linear_fcgi.Locks.Methods
use linear_fcgi.Locks.Methods.{debug}
use linear_fcgi.Client.Calls.{Wake, apply_all, dial}
use linear_fcgi.Locks.{Thread, same_lock}
use linear_fcgi.Common.{◌⊎◌, ◌++◌}
use linear_fcgi.Log.{initial}
use mathlib.Core.Option

abbrev ways : List Way
ways = disconnects (codes "a") ∷ []

abbrev ticks : List Callback
ticks =
    timer 9 (record { max_clients = 8; client_map = (codes "a", make (codes "a") [] 30 0) ∷ [] })
    ∷ []

-- The log is off.
abbrev server_trace : Trace
server_trace =
    acquire storage
    ∷ acquire (client (codes "a"))
    ∷ release (client (codes "a"))
    ∷ release storage
    ∷ []

server_way : handlers initial ways ≡ some server_trace
unfolding handlers print check_state within initial Option.bind
server_way = refl

-- The server has taken the lock of the storage, which the timer wants.
abbrev busy : System
busy = record (started server_trace (callbacks initial ticks)) {
  server = record {
    held = storage ∷ [];
    rest = acquire (client (codes "a")) ∷ release (client (codes "a")) ∷ release storage ∷ [];
  };
}

run : Run (started server_trace (callbacks initial ticks)) busy
unfolding holds
run = next here (server_step _ (takes storage [] _ refl refl))

threads_go_on_example : GoesOn (length server_trace + length (callbacks initial ticks)) run
threads_go_on_example = threads_go_on initial ways ticks server_trace server_way run

-- A wait that ends with the timeout.
abbrev wakes : List Wake
wakes = record { events = []; timed_out = true; gap = [] } ∷ []

abbrev connect_trace : Trace
connect_trace =
    acquire (client (codes "a"))
    ∷ release (client (codes "a"))
    ∷ acquire (client (codes "a"))
    ∷ release (client (codes "a"))
    ∷ acquire (client (codes "a"))
    ∷ release (client (codes "a"))
    ∷ []

handler_run :
    handler initial (connects [] wakes (codes "localhost") 80 (make (codes "a") [] 30 0))
    ≡ some (
        prints initial []
        ++ (acquire storage ∷ ((print initial debug ++ connect_trace) ++ (release storage ∷ []))))
unfolding make initial print prints within handler Methods.connect Methods.wait_loop apply_all dial
    check_state
handler_run = refl

-- What onTimer does in its critical section.
abbrev timer_section : Trace
timer_section = Methods.on_timers initial 9 ((codes "a", make (codes "a") [] 30 0) ∷ [])

abbrev want : Thread
want = record { held = []; rest = within timer_section ++ [] }

abbrev waits : System
waits = record {
  server = record {
    held = storage ∷ [];
    rest = ((print initial debug ++ connect_trace) ++ (release storage ∷ [])) ++ [];
  };
  loop = want;
}

abbrev waits_on : System
waits_on = record (waits) {
  server = record {
    held = client (codes "a") ∷ storage ∷ [];
    rest =
        release (client (codes "a"))
        ∷ acquire (client (codes "a"))
        ∷ release (client (codes "a"))
        ∷ acquire (client (codes "a"))
        ∷ release (client (codes "a"))
        ∷ release storage
        ∷ [];
  };
}

connect_goes_on : Run waits waits_on
unfolding holds same_lock print initial
connect_goes_on =
    next here (server_step waits (takes (client (codes "a")) (storage ∷ []) _ refl refl))

connect_holds_off_example :
    (waits_on.loop ≡ want)
    ⊎ ((mid : System) × Run waits mid
        × Run mid waits_on
        × (mid.server ≡ record { held = []; rest = [] })
        × (mid.loop ≡ want))
connect_holds_off_example =
    connect_holds_off initial [] wakes (codes "localhost") 80 (make (codes "a") [] 30 0)
      ((print initial debug ++ connect_trace) ++ (release storage ∷ [])) [] timer_section []
      handler_run connect_goes_on
