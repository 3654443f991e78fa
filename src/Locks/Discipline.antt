-- ===== src/Locks/Discipline.antt =====
-- Every handler and every callback takes its locks in the order and gives all of them back.
use linear_fcgi.Common.{ℕ, zero, suc, ◌+◌, ◌≡◌, arith}
use linear_fcgi.Common.{
  ◌||◌, ◌==◌, Bool, true, false, not, List, [], ◌∷◌, ◌++◌, Option, none, some, if◌then◌else◌,
  length,
}
use linear_fcgi.Common.Map.{Key}
use linear_fcgi.Client.State.{
  Client, is_connecting, is_disconnecting, is_connected, is_fail_connect,
}
use linear_fcgi.Client.Callbacks.{read_error, bytes}
use linear_fcgi.Client.Calls.{Wake, apply_all, dial}
use linear_fcgi.Locks.{storage, client, acquire, release, Trace, System, Run, started}
use linear_fcgi.Locks.Methods
use linear_fcgi.Locks.Methods.{print, prints, check_state, warn, info, debug}
use linear_fcgi.Locks.Tidy.{
  IsTidy, IsTidy-nil, IsTidy-lower, IsTidy-append, IsTidy-section, IsTidy-if, print-IsTidy,
  prints-IsTidy, check_state-IsTidy, Leaves, Leaves-woken, Leaves-section, Every, Every-if,
  Every-map,
}
use linear_fcgi.Locks.Progress.{GoesOn, started-GoesOn}
use linear_fcgi.Locks.Threads
use linear_fcgi.Locks.Threads.{Way, within, reads, handler, handlers, Callback, callback, callbacks}
use linear_fcgi.Log.{Log}
use mathlib.Core.Option
use mathlib.Core.Path.{subst}

wait_loop-Leaves :
    (l : Log) (id : Key) (ws : List Wake) (c : Client)
    → Every (Leaves id) (Methods.wait_loop l id ws c)
unfolding Methods.wait_loop
wait_loop-Leaves l id [] c = tt
wait_loop-Leaves l id (w ∷ ws) c =
    let c' = (apply_all w.events c).0 in
    let woken : Trace → Trace = λ t. release (client id) ∷ acquire (client id) ∷ t in
    let again =
      Every-map (Leaves id) (Leaves id) woken (Methods.wait_loop l id ws c') (Leaves-woken id)
        (wait_loop-Leaves l id ws c') in
    let up = Leaves-section id [] [] (IsTidy-nil 2) (IsTidy-nil 1) in
    let failed = Leaves-section id (print l warn) [] (print-IsTidy l warn) (IsTidy-nil 1) in
    let late =
      Leaves-section id (print l warn) (check_state id) (print-IsTidy l warn)
        (check_state-IsTidy id) in
    Every-if (Leaves id) (is_connected c'.state) _ _ up (
      Every-if (Leaves id) (is_fail_connect c'.state) _ _ failed
        (Every-if (Leaves id) w.timed_out _ _ late again))

pub connect-IsTidy :
    (l : Log) (wakes : List Wake) (host : List ℕ) (port : ℕ) (c : Client)
    → Every (IsTidy 1) (Methods.connect l wakes host port c)
unfolding Methods.connect
connect-IsTidy l wakes host port c =
    let mutex = λ (t : Trace). acquire (client c.id) ∷ t in
    let waiting = Methods.wait_loop l c.id wakes (dial host port c).0 in
    Every-if (IsTidy 1) (is_connecting c.state || is_connected c.state || is_disconnecting c.state)
      (some (check_state c.id)) (Option.map mutex waiting) (check_state-IsTidy c.id)
      (Every-map (Leaves c.id) (IsTidy 1) mutex waiting (λ t h held b. (b, h held b))
        (wait_loop-Leaves l c.id wakes (dial host port c).0))

-- A critical section of a client in which messages are written.
client_section :
    (id : Key) (b : Bool) (t : Trace)
    → IsTidy 2 t
    → IsTidy 1 (acquire (client id) ∷ ((if b then t else []) ++ (release (client id) ∷ [])))
client_section id b t h =
    IsTidy-section (client id) (if b then t else []) (IsTidy-if 2 b t [] h (IsTidy-nil 2))

two_prints : (l : Log) (a b : ℕ) → IsTidy 2 (print l a ++ print l b)
two_prints l a b = IsTidy-append 2 (print l a) (print l b) (print-IsTidy l a) (print-IsTidy l b)

within-IsTidy : (t : Trace) → IsTidy 1 t → IsTidy 0 (within t)
unfolding within
within-IsTidy t h = IsTidy-section storage t h

reads-IsTidy : (n : ℕ) (id : Key) → IsTidy 1 (reads n id)
unfolding reads
reads-IsTidy zero id = IsTidy-nil 1
reads-IsTidy (suc n) id =
    IsTidy-append 1 (check_state id) (reads n id) (check_state-IsTidy id) (reads-IsTidy n id)

on_timer-IsTidy : (l : Log) (now : ℕ) (c : Client) → IsTidy 1 (Methods.on_timer l now c)
unfolding Methods.on_timer Methods.run_disconnect
on_timer-IsTidy l now c = client_section c.id _ (print l _ ++ print l info) (two_prints l _ info)

on_timers-IsTidy :
    (l : Log) (now : ℕ) (m : List (Key × Client)) → IsTidy 1 (Methods.on_timers l now m)
unfolding Methods.on_timers
on_timers-IsTidy l now [] = IsTidy-nil 1
on_timers-IsTidy l now ((id, c) ∷ m) =
    IsTidy-append 1 (Methods.on_timer l now c) (Methods.on_timers l now m) (on_timer-IsTidy l now c)
      (on_timers-IsTidy l now m)

callback-IsTidy : (l : Log) (k : Callback) → IsTidy 0 (callback l k)
unfolding callback check_state Methods.run_connect Methods.run_disconnect Methods.on_connect
    Methods.on_read
callback-IsTidy l (Threads.served_connect id asked) =
    λ held h. client_section id asked (print l info) (print-IsTidy l info) held (omega arith)
callback-IsTidy l Threads.served_disconnect = IsTidy-lower 0 2 _ (omega arith) (print-IsTidy l info)
callback-IsTidy l Threads.served_write = IsTidy-nil 0
callback-IsTidy l (Threads.connected status c) =
    let refused = not (status == 0) || not (is_connecting c.state) in
    λ held h.
      IsTidy-section (client c.id) (if refused then [] else print l info)
        (IsTidy-if 2 refused [] (print l info) (IsTidy-nil 2) (print-IsTidy l info)) held
        (omega arith)
callback-IsTidy l (Threads.was_read read_error c) = λ held h.
    client_section c.id (is_connected c.state) (print l warn ++ print l info)
      (two_prints l warn info) held (omega arith)
callback-IsTidy l (Threads.was_read (bytes b) c) =
    IsTidy-lower 0 1 (check_state c.id) (omega arith) (check_state-IsTidy c.id)
callback-IsTidy l (Threads.closed known) =
    IsTidy-append 0 (print l info) (within (if known then print l debug else []))
      (IsTidy-lower 0 2 _ (omega arith) (print-IsTidy l info))
      (within-IsTidy _ (
        IsTidy-lower 1 2 _ (omega arith)
          (IsTidy-if 2 known (print l debug) [] (print-IsTidy l debug) (IsTidy-nil 2))))
callback-IsTidy l (Threads.timer now s) =
    within-IsTidy (Methods.on_timers l now s.client_map) (on_timers-IsTidy l now s.client_map)

handler-IsTidy : (l : Log) (w : Way) → Every (IsTidy 0) (handler l w)
unfolding handler
handler-IsTidy l (Threads.at_once before) =
    IsTidy-lower 0 2 _ (omega arith) (prints-IsTidy l before)
handler-IsTidy l (Threads.refused before) =
    IsTidy-append 0 (prints l before) (within [])
      (IsTidy-lower 0 2 _ (omega arith) (prints-IsTidy l before)) (within-IsTidy [] (IsTidy-nil 1))
handler-IsTidy l (Threads.connects before wakes host port c) =
    Every-map (IsTidy 1) (IsTidy 0) (λ t. prints l before ++ within (print l debug ++ t))
      (Methods.connect l wakes host port c)
      (λ t h.
        IsTidy-append 0 (prints l before) (within (print l debug ++ t))
          (IsTidy-lower 0 2 _ (omega arith) (prints-IsTidy l before))
          (within-IsTidy _ (
            IsTidy-append 1 (print l debug) t
              (IsTidy-lower 1 2 _ (omega arith) (print-IsTidy l debug)) h)))
      (connect-IsTidy l wakes host port c)
handler-IsTidy l (Threads.disconnects id) =
    IsTidy-append 0 (print l info) (within (check_state id))
      (IsTidy-lower 0 2 _ (omega arith) (print-IsTidy l info))
      (within-IsTidy (check_state id) (check_state-IsTidy id))
handler-IsTidy l (Threads.polls rounds id) =
    within-IsTidy (reads rounds id) (reads-IsTidy rounds id)
handler-IsTidy l (Threads.posts messages false id) =
    within-IsTidy (prints l messages) (IsTidy-lower 1 2 _ (omega arith) (prints-IsTidy l messages))
handler-IsTidy l (Threads.posts messages true id) =
    within-IsTidy (prints l messages ++ check_state id) (
      IsTidy-append 1 (prints l messages) (check_state id)
        (IsTidy-lower 1 2 _ (omega arith) (prints-IsTidy l messages)) (check_state-IsTidy id))

handlers-IsTidy : (l : Log) (ws : List Way) → Every (IsTidy 0) (handlers l ws)
unfolding handlers Option.bind
handlers-IsTidy l [] = IsTidy-nil 0
handlers-IsTidy l (w ∷ ws) =
    joined (handler l w) (handlers l ws) (handler-IsTidy l w) (handlers-IsTidy l ws)
  where
    joined :
        (o more : Option Trace)
        → Every (IsTidy 0) o
        → Every (IsTidy 0) more
        → Every (IsTidy 0) (Option.bind o (λ t. Option.map (λ m. t ++ m) more))
    joined none more h k = tt
    joined (some t) none h k = tt
    joined (some t) (some m) h k = IsTidy-append 0 t m h k

callbacks-IsTidy : (l : Log) (ks : List Callback) → IsTidy 0 (callbacks l ks)
unfolding callbacks
callbacks-IsTidy l [] = IsTidy-nil 0
callbacks-IsTidy l (k ∷ ks) =
    IsTidy-append 0 (callback l k) (callbacks l ks) (callback-IsTidy l k) (callbacks-IsTidy l ks)

-- Whatever handlers the FastCGI thread goes through, each `connect` of which comes to an end, and
-- whatever callbacks the libuv thread gets, in every interleaving of their actions on the mutexes
-- no mutex is held by both, a thread releases only what it holds and takes no mutex twice, and the
-- threads never block each other: there is a next action until both are through and hold nothing,
-- after as many actions as they have.
pub threads_go_on :
    (l : Log) (ws : List Way) (ks : List Callback) (p : Trace) {s : System}
    → handlers l ws ≡ some p
    → (r : Run (started p (callbacks l ks)) s) → GoesOn (length p + length (callbacks l ks)) r
threads_go_on l ws ks p h r =
    let tidy : IsTidy 0 p = subst (Every (IsTidy 0)) h (handlers-IsTidy l ws) in
    started-GoesOn p (callbacks l ks) (tidy [] (omega arith))
      (callbacks-IsTidy l ks [] (omega arith)) r
