-- ===== src/Client/Sound.antt =====
-- What holds of every client of src/linear_fcgi_client.cc: it keeps its id, which is not empty, and
-- it queues no empty buffer.
use linear_fcgi.Common.{ℕ, ◌<◌, ◌≡◌, arith}
use linear_fcgi.Common.{
  not, ◌||◌, Bool, true, false, List, [], ◌∷◌, Option, none, some, All, All-append, length,
  if◌then◌else◌,
}
use linear_fcgi.Client.State.{
  Client, Effect, is_connected, is_connecting, is_disconnecting, is_fail_connect,
}
use linear_fcgi.Client.Callbacks.{
  ConnectEnv, WriteEnv, ReadResult, read_error, bytes, run_connect, run_write, run_disconnect,
  on_connect, on_read, on_timer,
}
use linear_fcgi.Client.Calls.{
  LoopEvent, connect_request, write_request, disconnect_request, connect_done, read_done, apply,
  apply_all, disconnect, Wake, Outcome, give_up, prepend, wait_loop, dial, connect, take_chunk,
  read, write,
}

abbrev pub IsSound : (id : List ℕ) → Client → Type 0
IsSound id c = (c.id ≡ id) × All (λ (b : List ℕ). 0 < length b) c.read_queue × (0 < length id)

module _ (id : List ℕ) where
  if-IsSound :
      (b : Bool) (x y : Client × List Effect)
      → IsSound id x.0
      → IsSound id y.0
      → IsSound id (if b then x else y).0
  if-IsSound true x y h k = h
  if-IsSound false x y h k = k

  pub run_connect-IsSound :
      (env : ConnectEnv) (c : Client) → IsSound id c → IsSound id (run_connect env c).0
  unfolding run_connect
  run_connect-IsSound env c h = ground arith

  pub run_write-IsSound :
      (env : WriteEnv) (c : Client) → IsSound id c → IsSound id (run_write env c).0
  unfolding run_write
  run_write-IsSound env c h = h

  pub run_disconnect-IsSound : (c : Client) → IsSound id c → IsSound id (run_disconnect c).0
  unfolding run_disconnect
  run_disconnect-IsSound c h = h

  pub on_connect-IsSound :
      (status now : ℕ) (c : Client) → IsSound id c → IsSound id (on_connect status now c).0
  unfolding on_connect
  on_connect-IsSound status now c h = ground arith

  pub on_timer-IsSound : (now : ℕ) (c : Client) → IsSound id c → IsSound id (on_timer now c).0
  unfolding on_timer
  on_timer-IsSound now c h = ground arith

  pub on_read-IsSound :
      (malloc_ok : Bool) (r : ReadResult) (c : Client)
      → IsSound id c
      → IsSound id (on_read malloc_ok r c).0
  unfolding on_read
  on_read-IsSound ok read_error c h = ground arith
  on_read-IsSound ok (bytes []) c h = ground arith
  on_read-IsSound ok (bytes (b ∷ bs)) c h =
      let kept =
        All-append (λ (b : List ℕ). 0 < length b) c.read_queue ((b ∷ bs) ∷ []) h.1
          (omega arith, tt) in
      if-IsSound (not (is_connected c.state)) (c, []) _ h
        (if-IsSound ok _ (c, []) (h.0, kept, h.2) h)

  apply-IsSound : (e : LoopEvent) (c : Client) → IsSound id c → IsSound id (apply e c).0
  unfolding apply
  apply-IsSound (connect_request env) c h = run_connect-IsSound env c h
  apply-IsSound (write_request env) c h = run_write-IsSound env c h
  apply-IsSound disconnect_request c h = run_disconnect-IsSound c h
  apply-IsSound (connect_done status now) c h = on_connect-IsSound status now c h
  apply-IsSound (read_done ok r) c h = on_read-IsSound ok r c h

  pub apply_all-IsSound :
      (es : List LoopEvent) (c : Client) → IsSound id c → IsSound id (apply_all es c).0
  unfolding apply_all
  apply_all-IsSound [] c h = h
  apply_all-IsSound (e ∷ es) c h = apply_all-IsSound es (apply e c).0 (apply-IsSound e c h)

  pub disconnect-IsSound : (c : Client) → IsSound id c → IsSound id (disconnect c).0
  unfolding disconnect
  disconnect-IsSound c h = ground arith

  pub write-IsSound : (text : List ℕ) (c : Client) → IsSound id c → IsSound id (write text c).0
  unfolding write
  write-IsSound text c h = ground arith

  take_chunk-IsSound :
      (queue : List (List ℕ)) (c : Client)
      → c.id ≡ id
      → All (λ (b : List ℕ). 0 < length b) queue
      → IsSound id c
      → IsSound id (take_chunk queue c).0
  unfolding take_chunk
  take_chunk-IsSound [] c own full h = h
  take_chunk-IsSound (buf ∷ queue) c own full h = (own, full.1, h.2)

  pub read-IsSound : (now : ℕ) (c : Client) → IsSound id c → IsSound id (read now c).0
  unfolding read
  read-IsSound now c h =
      let taken = take_chunk-IsSound c.read_queue (record c { last_access = now }) h.0 h.1 h in
      ground arith

  abbrev pub OutcomeIsSound : Option Outcome → Type 0
  OutcomeIsSound none = Unit
  OutcomeIsSound (some (result, c, effects)) = IsSound id c

  if_outcome :
      (b : Bool) (x y : Option Outcome)
      → OutcomeIsSound x
      → OutcomeIsSound y
      → OutcomeIsSound (if b then x else y)
  if_outcome true x y h k = h
  if_outcome false x y h k = k

  prepend-OutcomeIsSound :
      (effects : List Effect) (o : Option Outcome)
      → OutcomeIsSound o
      → OutcomeIsSound (prepend effects o)
  unfolding prepend
  prepend-OutcomeIsSound effects none h = tt
  prepend-OutcomeIsSound effects (some (result, c, more)) h = h

  wait_loop-OutcomeIsSound :
      (ws : List Wake) (c : Client) → IsSound id c → OutcomeIsSound (wait_loop ws c)
  unfolding wait_loop give_up
  wait_loop-OutcomeIsSound [] c h = tt
  wait_loop-OutcomeIsSound (w ∷ ws) c h =
      let (c', effects) = apply_all w.events c in
      let h' : IsSound id c' = apply_all-IsSound w.events c h in
      let gap = disconnect-IsSound (apply_all w.gap c').0 (apply_all-IsSound w.gap c' h') in
      let again =
        prepend-OutcomeIsSound effects (wait_loop ws c') (wait_loop-OutcomeIsSound ws c' h') in
      if_outcome (is_connected c'.state) _ _ h'
        (if_outcome (is_fail_connect c'.state) _ _ h' (if_outcome w.timed_out _ _ gap again))

  pub connect-OutcomeIsSound :
      (ws : List Wake) (host : List ℕ) (port : ℕ) (c : Client)
      → IsSound id c
      → OutcomeIsSound (connect ws host port c)
  unfolding connect dial
  connect-OutcomeIsSound ws host port c h =
      let (c', effects) = dial host port c in
      if_outcome (is_connecting c.state || is_connected c.state) _ _ h (
        if_outcome (is_disconnecting c.state) _ _ h
          (prepend-OutcomeIsSound effects (wait_loop ws c') (wait_loop-OutcomeIsSound ws c' h)))
