-- ===== src/Loop/Due.antt =====
-- The callbacks of src/linear_fcgi_loop.cc that libuv may make, and that they use no deleted client.
use linear_fcgi.Common.{ℕ, ◌≡◌, refl, sym, ◌∙◌, ◌≢◌, ◌⊎◌, inl, inr}
use linear_fcgi.Common.{Bool, List, [], ◌∷◌, none, some, if◌then◌else◌}
use linear_fcgi.Common.{Option-cases, All, Bool-cases, bytes_eq, bytes_eq_iff}
use linear_fcgi.Common.Map.{Key, update, find-update, find-erase, update-IsMap}
use linear_fcgi.Client.State.{Client, Effect, RequestType, Family, tcp_connect, read_start, close}
use linear_fcgi.Client.Callbacks.{
  run_connect, run_disconnect, run_write, ReadResult, on_connect, on_read,
}
use linear_fcgi.Storage.{destroy}
use linear_fcgi.Loop.{
  serve, serve_all, on_async, LoopEnv, on_connect_callback, on_read_callback, Request, World, put,
  finish, call, on_timer_callback,
}
use linear_fcgi.Loop.Invariant.{
  Holds, Callback, async, connected, was_read, closed, timer, run_callback,
}
use linear_fcgi.Loop.Requests.{client_of, IsLive, call-some, call-none}
use linear_fcgi.Loop.Lifetime.{
  on_async_safe, serve_all-some, serve_all-none, Asks, without, on_disconnect_callback-some,
}
use mathlib.Core.Path.{subst}
use linear_fcgi.Loop.Alive.{
  IsThere, Owned, Lives, finish-Owned, finish-Lives, on_timer_callback-Lives,
}

-- What is left of the calls when libuv has closed the handle of a client.
unfoldable pub dismiss : Key → List (Key × Effect) → List (Key × Effect)
unfolding bytes_eq
dismiss id [] = []
dismiss id ((other, e) ∷ calls) =
    let rest = dismiss id calls in if bytes_eq id other then rest else (other, e) ∷ rest

-- The calls of a world are those that libuv has not finished: the close callback ends them all.
unfoldable pub settle : Callback → World → World
unfolding dismiss
settle (closed id) w = record w { calls = dismiss id w.calls }
settle k w = w

abbrev pub Pending : Key → Effect → List (Key × Effect) → Type 0
Pending id e [] = ⊥
Pending id e (p ∷ calls) = ((id, e) ≡ p) ⊎ Pending id e calls

-- What libuv promises: a handle has callbacks only between the call that starts them and its close
-- callback. What it cannot know: no request for the client is queued at the close callback.
pub data Due : Callback → World → Type 0 where
  due_async : {w : World} (env : LoopEnv) → Due (async env) w
  due_connected :
      {w : World} (id : Key) (family : Family) (status now : ℕ)
      → Pending id (tcp_connect family) w.calls
      → Due (connected id status now) w
  due_read :
      {w : World} (id : Key) (malloc_ok : Bool) (r : ReadResult)
      → Pending id read_start w.calls
      → Due (was_read id malloc_ok r) w
  due_closed :
      {w : World} (id : Key) → Pending id close w.calls → ¬ Asks id w.requests → Due (closed id) w
  due_timer : {w : World} (now : ℕ) → Due (timer now) w

-- The client of a pending call is in the storage.
Pending-IsThere :
    (w : World) (id : Key) (e : Effect) (calls : List (Key × Effect))
    → Pending id e calls
    → All (λ p. IsThere w p.0) calls
    → IsThere w id
Pending-IsThere w id e [] at h = absurd at
Pending-IsThere w id e (p ∷ calls) (inl same) (h, hs) = subst (λ p. IsThere w p.0) (sym same) h
Pending-IsThere w id e (p ∷ calls) (inr at) (h, hs) = Pending-IsThere w id e calls at hs

-- The callback returns, and the clients of the queued requests and of the pending calls live.
abbrev pub Returns : Callback → World → Type 0
Returns k w = (w' : World) × (run_callback k w ≡ some w') × Lives (settle k w')

method-some :
    (id : Key) (method : Client → Client × List Effect) (w : World)
    → IsThere w id
    → Lives w
    → (w' : World) × (call id method w ≡ some w') × Lives w'
method-some id method w (c, there) h =
    (finish id w (method c), call-some id method w there, finish-Lives id w (method c) there h)

undefined_or : (t : RequestType) → (t ≡ RequestType.undefined) ⊎ (t ≢ RequestType.undefined)
undefined_or RequestType.undefined = inl refl
undefined_or RequestType.connect = inr (λ e. cc)
undefined_or RequestType.disconnect = inr (λ e. cc)
undefined_or RequestType.write = inr (λ e. cc)

pub client_of-without :
    (id : Key) (w : World) (c : Client) (other : Key)
    → Holds w
    → client_of other (without id c w) ≡ (if bytes_eq id other then none else client_of other w)
unfolding without put destroy
client_of-without id w c other v =
    let m = w.storage.client_map in
    find-erase id other (update id (λ _. c) m) (update-IsMap id (λ _. c) m v.is_map)
    ∙ elim (Bool-cases (bytes_eq id other)) [
      | inl same ↦ rw same refl
      | inr differs ↦ rw (find-update id other (λ _. c) m, differs) refl
    ]

-- The client of `id` is gone from the second world, the others are there.
module _ (id : Key) (w w' : World)
    (left : (other : Key)
      → client_of other w' ≡ (if bytes_eq id other then none else client_of other w)) where
  -- Nothing is queued for the one that goes.
  gone_unasked : (rs : List Request) → ¬ Asks id rs → All (IsLive w) rs → All (IsLive w') rs
  gone_unasked [] unasked h = tt
  gone_unasked (r ∷ rs) unasked (h, hs) = (
    elim h [
      | inl u ↦ inl u
      | inr (c, e) ↦ elim (Bool-cases (bytes_eq id r.client)) [
        | inr differs ↦ inr (c, rw (left r.client, differs) e)
        | inl same ↦ elim (undefined_or r.type) [
          | inl u ↦ inl u
          | inr asked ↦ absurd (unasked (inl (sym ((bytes_eq_iff id r.client).0 same), asked)))
        ]
      ]
    ],
    gone_unasked rs (λ a. unasked (inr a)) hs,
  )

  gone_dismissed :
      (calls : List (Key × Effect))
      → All (λ p. IsThere w p.0) calls
      → All (λ p. IsThere w' p.0) (dismiss id calls)
  unfolding dismiss
  gone_dismissed [] h = tt
  gone_dismissed ((other, e) ∷ calls) ((c, there), hs) = elim (Bool-cases (bytes_eq id other)) [
    | inl same ↦ rw same (gone_dismissed calls hs)
    | inr differs ↦ rw differs ((c, rw (left other, differs) there), gone_dismissed calls hs)
  ]

closed-Returns :
    (id : Key) (w : World)
    → IsThere w id
    → ¬ Asks id w.requests
    → Holds w
    → Lives w
    → Returns (closed id) w
unfolding run_callback without settle
closed-Returns id w (c, there) unasked v h =
    let left : (other : Key)
        → client_of other (without id c w)
          ≡ (if bytes_eq id other then none else client_of other w) =
      λ other. client_of-without id w c other v in
    (
      without id c w,
      on_disconnect_callback-some id w there,
      (
        gone_unasked id w (without id c w) left w.requests unasked h.0,
        gone_dismissed id w (without id c w) left w.calls h.1,
      ),
    )

-- The calls of `onAsync` are for clients that are there.
call-Owned :
    (id : Key) (method : Client → Client × List Effect) (w : World) {w' : World}
    → call id method w ≡ some w'
    → Owned w
    → Owned w'
call-Owned id method w {w'} e h = elim (Option-cases (client_of id w)) [
  | inl gone ↦ cc (call-none id method w gone)
  | inr (c, there) ↦
      let same : finish id w (method c) ≡ w' = cc (call-some id method w there) in
      subst Owned same (finish-Owned id w (method c) (c, there) h)
]

serve-Owned :
    (env : LoopEnv) (type : RequestType) (id : Key) (w : World) {w' : World}
    → serve env type id w ≡ some w'
    → Owned w
    → Owned w'
unfolding serve
serve-Owned env RequestType.connect id w e h =
    call-Owned id (run_connect (env.connect_env id)) w e h
serve-Owned env RequestType.disconnect id w e h = call-Owned id run_disconnect w e h
serve-Owned env RequestType.write id w e h = call-Owned id (run_write (env.write_env id)) w e h
serve-Owned env RequestType.undefined id w {w'} e h = let same : w ≡ w' = cc in subst Owned same h

serve_all-Owned :
    (env : LoopEnv) (rs : List Request) (w : World) {w' : World}
    → serve_all env rs w ≡ some w'
    → Owned w
    → Owned w'
serve_all-Owned env [] w {w'} e h = let same : w ≡ w' = unfold serve_all in cc in subst Owned same h
serve_all-Owned env (r ∷ rs) w e h = elim (Option-cases (serve env r.type r.client w)) [
  | inl gone ↦ cc (serve_all-none env r rs w gone)
  | inr (u, served) ↦
      serve_all-Owned env rs u (sym (serve_all-some env r rs w u served) ∙ e)
        (serve-Owned env r.type r.client w served h)
]

-- A due callback uses no deleted client.
pub Due-Returns : (k : Callback) (w : World) → Due k w → Holds w → Lives w → Returns k w
unfolding run_callback on_connect_callback on_read_callback on_async settle
Due-Returns _ w (due_async env) v h =
    let (w', e, empty, same) = on_async_safe env w h.0 in
    (w', e, (rw empty tt, serve_all-Owned env w.requests (record w { requests = [] }) e h.1))
Due-Returns _ w (due_connected id family status now at) v h =
    method-some id (on_connect status now) w
      (Pending-IsThere w id (tcp_connect family) w.calls at h.1) h
Due-Returns _ w (due_read id malloc_ok r at) v h =
    method-some id (on_read malloc_ok r) w (Pending-IsThere w id read_start w.calls at h.1) h
Due-Returns _ w (due_closed id at unasked) v h =
    closed-Returns id w (Pending-IsThere w id close w.calls at h.1) unasked v h
Due-Returns _ w (due_timer now) v h =
    (on_timer_callback now w, refl, on_timer_callback-Lives now w h)
