-- ===== src/Loop/Sound.antt =====
-- The callbacks of src/linear_fcgi_loop.cc keep what holds of every client.
use linear_fcgi.Common.{ℕ, ◌≡◌, refl, sym, ap, ◌∙◌, inl, inr}
use linear_fcgi.Common.{
  List, [], ◌∷◌, Option, none, some, Option-cases, Bool-cases, bytes_eq, bytes_eq_iff,
  if◌then◌else◌,
}
use linear_fcgi.Common.Map.{Key}
use linear_fcgi.Client.State.{Client, Effect, RequestType}
use linear_fcgi.Client.Callbacks.{
  run_connect, run_write, run_disconnect, on_connect, on_read, on_timer,
}
use linear_fcgi.Client.Sound.{
  IsSound, run_connect-IsSound, run_write-IsSound, run_disconnect-IsSound, on_connect-IsSound,
  on_read-IsSound, on_timer-IsSound,
}
use linear_fcgi.Storage.{Storage, get, on_timer_all}
use linear_fcgi.Storage.Laws.{find-on_timer_all, on_timer_all-closes}
use linear_fcgi.Loop.{
  Request, World, finish, call, LoopEnv, serve, serve_all, on_async, on_connect_callback,
  on_read_callback, on_disconnect_callback, on_timer_callback,
}
use linear_fcgi.Loop.Alive.{perform_all-Quiet}
use linear_fcgi.Loop.Due.{client_of-without}
use linear_fcgi.Loop.Invariant.{
  Holds, Callback, async, connected, was_read, closed, timer, run_callback,
}
use linear_fcgi.Loop.Lifetime.{on_disconnect_callback-some, on_disconnect_callback-none}
use linear_fcgi.Loop.Requests.{client_of, client_of-finish, call-some, call-none}
use mathlib.Core.Option
use mathlib.Core.Path.{subst}

-- Every client stands under its own id, which is not empty, and queues no empty buffer.
abbrev pub Clients : World → Type 0
Clients w = (id : Key) (c : Client) → client_of id w ≡ some c → IsSound id c

abbrev pub WorldClients : Option World → Type 0
WorldClients none = Unit
WorldClients (some w) = Clients w

pub none-some : (d : Client) → none ≡ some d → ⊥
none-some d e = cc

some_same : (o : Option Client) (x d : Client) → Option.map (λ _. x) o ≡ some d → x ≡ d
some_same none x d e = cc
some_same (some c) x d e = cc

pub finish-Clients :
    (id : Key) (w : World) (r : Client × List Effect)
    → IsSound id r.0
    → Clients w
    → Clients (finish id w r)
finish-Clients id w r sound h other d e =
    let changed = Option.map (λ _. r.0) (client_of other w) in
    let whole = sym (client_of-finish id other w r) ∙ e in
    elim (Bool-cases (bytes_eq id other)) [
      | inl same ↦
          let found = sym (ap (λ b. if b then changed else client_of other w) same) ∙ whole in
          subst (λ i. IsSound i d) ((bytes_eq_iff id other).0 same)
            (subst (IsSound id) (some_same (client_of other w) r.0 d found) sound)
      | inr differs ↦
          h other d (sym (ap (λ b. if b then changed else client_of other w) differs) ∙ whole)
    ]

call-WorldClients :
    (id : Key) (method : Client → Client × List Effect) (w : World)
    → ((c : Client) → IsSound id c → IsSound id (method c).0)
    → Clients w
    → WorldClients (call id method w)
call-WorldClients id method w keeps h = elim (Option-cases (client_of id w)) [
  | inl e ↦ rw (call-none id method w e) tt
  | inr (c, e) ↦
      rw (call-some id method w e) (finish-Clients id w (method c) (keeps c (h id c e)) h)
]

serve-WorldClients :
    (env : LoopEnv) (type : RequestType) (id : Key) (w : World)
    → Clients w
    → WorldClients (serve env type id w)
unfolding serve
serve-WorldClients env RequestType.connect id w h =
    call-WorldClients id (run_connect (env.connect_env id)) w
      (run_connect-IsSound id (env.connect_env id)) h
serve-WorldClients env RequestType.disconnect id w h =
    call-WorldClients id run_disconnect w (run_disconnect-IsSound id) h
serve-WorldClients env RequestType.write id w h =
    call-WorldClients id (run_write (env.write_env id)) w (run_write-IsSound id (env.write_env id))
      h
serve-WorldClients env RequestType.undefined id w h = h

serve_all-WorldClients :
    (env : LoopEnv) (rs : List Request) (w : World) → Clients w → WorldClients (serve_all env rs w)
unfolding serve_all
serve_all-WorldClients env [] w h = h
serve_all-WorldClients env (r ∷ rs) w h = elim (Option-cases (serve env r.type r.client w)) [
  | inl e ↦ rw (e, serve_all) tt
  | inr (w', e) ↦
      rw (e, serve_all)
        (serve_all-WorldClients env rs w'
          (subst WorldClients e (serve-WorldClients env r.type r.client w h)))
]

map_cases :
    (f : Client → Client) (o : Option Client) (d : Client)
    → Option.map f o ≡ some d
    → (c : Client) × (o ≡ some c) × (f c ≡ d)
map_cases f none d e = cc
map_cases f (some c) d e = (c, refl, cc)

on_timer_callback-Clients : (now : ℕ) (w : World) → Clients w → Clients (on_timer_callback now w)
unfolding on_timer_callback get
on_timer_callback-Clients now w h id d e =
    let (storage, calls) = on_timer_all now w.storage in
    let (_, kept, _) =
      perform_all-Quiet calls (record w { storage = storage })
        (on_timer_all-closes now w.storage) in
    let found =
      sym (find-on_timer_all now id w.storage) ∙ sym (ap (λ (s : Storage). get id s) kept) ∙ e in
    let (c, there, same) = map_cases (λ c. (on_timer now c).0) (client_of id w) d found in
    subst (IsSound id) same (on_timer-IsSound id now c (h id c there))

on_disconnect_callback-WorldClients :
    (id : Key) (w : World) → Holds w → Clients w → WorldClients (on_disconnect_callback id w)
on_disconnect_callback-WorldClients id w v h = elim (Option-cases (client_of id w)) [
  | inl e ↦ rw (on_disconnect_callback-none id w e) tt
  | inr (c, e) ↦ rw (on_disconnect_callback-some id w e) (λ other d found.
      elim (Bool-cases (bytes_eq id other)) [
        | inl same ↦ absurd (
            none-some d (
              sym (ap (λ b. if b then none else client_of other w) same)
              ∙ sym (client_of-without id w c other v)
              ∙ found))
        | inr differs ↦ h other d (
            sym (ap (λ b. if b then none else client_of other w) differs)
            ∙ sym (client_of-without id w c other v)
            ∙ found)
      ])
]

pub run_callback-WorldClients :
    (k : Callback) (w : World) → Holds w → Clients w → WorldClients (run_callback k w)
unfolding run_callback on_async on_connect_callback on_read_callback
run_callback-WorldClients (async env) w v h =
    serve_all-WorldClients env w.requests (record w { requests = [] }) h
run_callback-WorldClients (connected id status now) w v h =
    call-WorldClients id (on_connect status now) w (on_connect-IsSound id status now) h
run_callback-WorldClients (was_read id ok r) w v h =
    call-WorldClients id (on_read ok r) w (on_read-IsSound id ok r) h
run_callback-WorldClients (closed id) w v h = on_disconnect_callback-WorldClients id w v h
run_callback-WorldClients (timer now) w v h = on_timer_callback-Clients now w h
