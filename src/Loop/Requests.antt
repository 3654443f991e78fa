-- ===== src/Loop/Requests.antt =====
-- What the calls of src/linear_fcgi_loop.cc leave of the request queue and of the storage.
use linear_fcgi.Common.{ℕ, ◌≡◌, refl, ap, ◌∙◌, ◌≢◌, ◌⊎◌, ◌↔◌, inl, inr, arith}
use linear_fcgi.Common.{Bool, true, false, List, [], ◌∷◌, Option, none, some, if◌then◌else◌}
use linear_fcgi.Common.{All, bytes_eq}
use linear_fcgi.Common.Map.{Key, find, find-update}
use linear_fcgi.Client.State.{Client, Effect, RequestType, execute}
use linear_fcgi.Client.Callbacks.{
  ConnectEnv, run_connect, WriteEnv, write_one, write_loop, run_write, run_disconnect,
}
use linear_fcgi.Loop.{Request, World, perform, put, finish, call, LoopEnv, serve, perform_one}
use linear_fcgi.Storage.{Storage}
use mathlib.Core.Option

-- Nothing is asked of the libuv thread.
abbrev pub is_request : Effect → Bool
is_request (execute t) = true
is_request _ = false

abbrev pub Quiet : List Effect → Type 0
Quiet = All (λ e. is_request e ≡ false)

pub run_connect-Quiet : (env : ConnectEnv) (c : Client) → Quiet (run_connect env c).1
unfolding run_connect
run_connect-Quiet env c = ground arith

pub write_loop-Quiet : (env : WriteEnv) (queue : List (List ℕ)) → Quiet (write_loop env queue).1
unfolding write_loop write_one
write_loop-Quiet env [] = tt
write_loop-Quiet env (text ∷ queue) = ground (arith, write_loop-Quiet env queue)

pub run_write-Quiet : (env : WriteEnv) (c : Client) → Quiet (run_write env c).1
unfolding run_write
run_write-Quiet env c = write_loop-Quiet env c.write_queue

-- Calls of the outside leave the queue alone.
pub perform-Quiet :
    (id : Key) (effects : List Effect) (w : World)
    → Quiet effects
    → (perform id effects w).requests ≡ w.requests
unfolding perform perform_one
perform-Quiet id [] w h = refl
perform-Quiet id (execute t ∷ es) w h = cc
perform-Quiet id (e ∷ es) w h = perform-Quiet id es _ h.1

-- No call touches the storage.
pub perform-storage :
    (id : Key) (effects : List Effect) (w : World) → (perform id effects w).storage ≡ w.storage
unfolding perform perform_one
perform-storage id [] w = refl
perform-storage id (execute t ∷ es) w = perform-storage id es _
perform-storage id (e ∷ es) w = perform-storage id es _

-- The client behind a pointer, if there is one.
abbrev pub client_of : Key → World → Option Client
client_of id w = find id w.storage.client_map

pub call-none :
    (id : Key) (method : Client → Client × List Effect) (w : World)
    → client_of id w ≡ none
    → call id method w ≡ none
unfolding call
call-none id method w h = rw (h, call)

pub call-some :
    (id : Key) (method : Client → Client × List Effect) (w : World) {c : Client}
    → client_of id w ≡ some c
    → call id method w ≡ some (finish id w (method c))
unfolding call
call-some id method w h = rw (h, call)

pub client_of-finish :
    (id other : Key) (w : World) (r : Client × List Effect)
    → client_of other (finish id w r)
      ≡ (if bytes_eq id other then Option.map (λ _. r.0) (client_of other w) else client_of other w)
unfolding finish put
client_of-finish id other w (c, effects) =
    ap (λ (s : Storage). find other s.client_map) (perform-storage id effects (put id c w))
    ∙ find-update id other (λ _. c) w.storage.client_map

requests-finish :
    (id : Key) (w : World) (r : Client × List Effect)
    → Quiet r.1
    → (finish id w r).requests ≡ w.requests
unfolding finish put
requests-finish id w (c, effects) h = perform-Quiet id effects (put id c w) h

-- The same clients are there.
abbrev pub SameClients : World → World → Type 0
SameClients w w' = (id : Key) → (client_of id w ≡ none) ↔ (client_of id w' ≡ none)

map-none :
    (b : Bool) (f : Client → Client) (o : Option Client)
    → (o ≡ none) ↔ ((if b then Option.map f o else o) ≡ none)
map-none false f o = (λ h. h, λ h. h)
map-none true f none = (λ h. refl, λ h. refl)
map-none true f (some c) = (λ h. cc, λ h. cc)

pub finish-SameClients :
    (id : Key) (w : World) (r : Client × List Effect) → SameClients w (finish id w r)
finish-SameClients id w r other =
    rw (client_of-finish id other w r) (map-none (bytes_eq id other) (λ _. r.0) (client_of other w))

-- What a step of the loop that goes well leaves: the queue, and the same clients.
abbrev pub Keeps : World → Option World → Type 0
Keeps w none = ⊥
Keeps w (some w') = (w'.requests ≡ w.requests) × SameClients w w'

call-Keeps :
    (id : Key) (method : Client → Client × List Effect) (w : World) {c : Client}
    → ((c : Client) → Quiet (method c).1)
    → client_of id w ≡ some c
    → Keeps w (call id method w)
call-Keeps id method w {c} quiet h =
    rw (call-some id method w h)
      (requests-finish id w (method c) (quiet c), finish-SameClients id w (method c))

-- The request can be served: it is of no kind, or its client is there.
abbrev pub IsLive : World → Request → Type 0
IsLive w r = (r.type ≡ RequestType.undefined) ⊎ ((c : Client) × (client_of r.client w ≡ some c))

pub serve-Keeps :
    (env : LoopEnv) (type : RequestType) (id : Key) (w : World)
    → (type ≡ RequestType.undefined) ⊎ ((c : Client) × (client_of id w ≡ some c))
    → Keeps w (serve env type id w)
unfolding serve
serve-Keeps env RequestType.undefined id w h = (refl, λ other. (λ e. e, λ e. e))
serve-Keeps env RequestType.connect id w (inl e) = cc
serve-Keeps env RequestType.connect id w (inr (c, e)) =
    call-Keeps id (run_connect (env.connect_env id)) w (run_connect-Quiet (env.connect_env id)) e
serve-Keeps env RequestType.disconnect id w (inl e) = cc
serve-Keeps env RequestType.disconnect id w (inr (c, e)) =
    call-Keeps id run_disconnect w (λ c. unfold run_disconnect in (refl, tt)) e
serve-Keeps env RequestType.write id w (inl e) = cc
serve-Keeps env RequestType.write id w (inr (c, e)) =
    call-Keeps id (run_write (env.write_env id)) w (run_write-Quiet (env.write_env id)) e

pub serve-none :
    (env : LoopEnv) (type : RequestType) (id : Key) (w : World)
    → type ≢ RequestType.undefined
    → client_of id w ≡ none
    → serve env type id w ≡ none
unfolding serve
serve-none env RequestType.undefined id w n h = absurd (n refl)
serve-none env RequestType.connect id w n h = call-none id (run_connect (env.connect_env id)) w h
serve-none env RequestType.disconnect id w n h = call-none id run_disconnect w h
serve-none env RequestType.write id w n h = call-none id (run_write (env.write_env id)) w h
