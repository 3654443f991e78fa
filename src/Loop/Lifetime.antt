-- ===== src/Loop/Lifetime.antt =====
-- `Loop::onAsync` of src/linear_fcgi_loop.cc and the lifetime of the clients that its requests name.
use linear_fcgi.Common.{◌≡◌, refl, ◌∙◌, ◌≢◌, ◌⊎◌, inl, inr}
use linear_fcgi.Common.{List, [], ◌∷◌, Option, none, some}
use linear_fcgi.Common.{All, Option-cases, bytes_eq_refl}
use linear_fcgi.Common.Map.{Key, find-erase, update-IsMap}
use linear_fcgi.Client.State.{Client, RequestType}
use mathlib.Core.Path.{subst}
use linear_fcgi.Client.Callbacks.{on_disconnect}
use linear_fcgi.Storage.{destroy}
use linear_fcgi.Storage.Laws
use linear_fcgi.Loop.{
  Request, World, LoopEnv, serve, serve_all, on_async, on_disconnect_callback, put, finish,
}
use linear_fcgi.Loop.Requests.{
  client_of, SameClients, Keeps, IsLive, serve-Keeps, serve-none, call-some, call-none,
}

IsLive-SameClients : (w w' : World) (r : Request) → SameClients w w' → IsLive w r → IsLive w' r
IsLive-SameClients w w' r same (inl e) = inl e
IsLive-SameClients w w' r same (inr (c, e)) = elim (Option-cases (client_of r.client w')) [
  | inl gone ↦ cc ((same r.client).1 gone)
  | inr found ↦ inr found
]

All-IsLive :
    (w w' : World) (rs : List Request) → SameClients w w' → All (IsLive w) rs → All (IsLive w') rs
All-IsLive w w' [] same h = tt
All-IsLive w w' (r ∷ rs) same (h, hs) =
    (IsLive-SameClients w w' r same h, All-IsLive w w' rs same hs)

Keeps-cases :
    (w : World) (o : Option World)
    → Keeps w o
    → (w' : World) × (o ≡ some w') × (w'.requests ≡ w.requests) × SameClients w w'
Keeps-cases w none h = absurd h
Keeps-cases w (some w') (e, same) = (w', refl, e, same)

Keeps-trans :
    (w w' : World) (o : Option World)
    → w'.requests ≡ w.requests
    → SameClients w w'
    → Keeps w' o
    → Keeps w o
Keeps-trans w w' none e same h = absurd h
Keeps-trans w w' (some w'') e same (e', same') =
    (e' ∙ e, λ id. (λ x. (same' id).0 ((same id).0 x), λ x. (same id).1 ((same' id).1 x)))

pub serve_all-some :
    (env : LoopEnv) (r : Request) (rs : List Request) (w w' : World)
    → serve env r.type r.client w ≡ some w'
    → serve_all env (r ∷ rs) w ≡ serve_all env rs w'
unfolding serve_all
serve_all-some env r rs w w' e = rw (e, serve_all)

pub serve_all-none :
    (env : LoopEnv) (r : Request) (rs : List Request) (w : World)
    → serve env r.type r.client w ≡ none
    → serve_all env (r ∷ rs) w ≡ none
unfolding serve_all
serve_all-none env r rs w e = rw (e, serve_all)

serve_all-Keeps :
    (env : LoopEnv) (rs : List Request) (w : World)
    → All (IsLive w) rs
    → Keeps w (serve_all env rs w)
serve_all-Keeps env [] w h = unfold serve_all in (refl, λ id. (λ e. e, λ e. e))
serve_all-Keeps env (r ∷ rs) w (h, hs) =
    let (w', e, q, same) =
      Keeps-cases w (serve env r.type r.client w) (serve-Keeps env r.type r.client w h) in
    rw (serve_all-some env r rs w w' e) (
      Keeps-trans w w' (serve_all env rs w') q same
        (serve_all-Keeps env rs w' (All-IsLive w w' rs same hs)))

-- When every queued request is for a client that is in the storage, `onAsync` serves the whole queue
-- without touching a deleted client: it leaves the queue empty and the same clients in the storage.
pub on_async_safe :
    (env : LoopEnv) (w : World)
    → All (IsLive w) w.requests
    → (w' : World) × (on_async env w ≡ some w') × (w'.requests ≡ []) × SameClients w w'
unfolding on_async
on_async_safe env w h =
    Keeps-cases (record w { requests = [] }) (serve_all env w.requests (record w { requests = [] }))
      (serve_all-Keeps env w.requests (record w { requests = [] }) h)

-- A request for the client stands in the list.
abbrev pub Asks : Key → List Request → Type 0
Asks id [] = ⊥
Asks id (r ∷ rs) = ((r.client ≡ id) × (r.type ≢ RequestType.undefined)) ⊎ Asks id rs

live_of_served :
    (env : LoopEnv) (type : RequestType) (id : Key) (w w' : World)
    → serve env type id w ≡ some w'
    → (type ≡ RequestType.undefined) ⊎ ((c : Client) × (client_of id w ≡ some c))
live_of_served env RequestType.undefined id w w' e = inl refl
live_of_served env type id w w' e = elim (Option-cases (client_of id w)) [
  | inl gone ↦ cc (serve-none env type id w (λ u. cc) gone)
  | inr found ↦ inr found
]

served-SameClients :
    (env : LoopEnv) (type : RequestType) (id : Key) (w w' : World)
    → serve env type id w ≡ some w'
    → SameClients w w'
served-SameClients env type id w w' e =
    let (u, e', _, same) =
      Keeps-cases w (serve env type id w)
        (serve-Keeps env type id w (live_of_served env type id w w' e)) in
    let u_eq : u ≡ w' = cc in subst (SameClients w) u_eq same

serve_all-dangles :
    (env : LoopEnv) (id : Key) (rs : List Request) (w : World)
    → Asks id rs
    → client_of id w ≡ none
    → serve_all env rs w ≡ none
serve_all-dangles env id [] w asks gone = absurd asks
serve_all-dangles env id (r ∷ rs) w (inl (e, n)) gone =
    serve_all-none env r rs w (serve-none env r.type r.client w n (rw e gone))
serve_all-dangles env id (r ∷ rs) w (inr asks) gone =
    elim (Option-cases (serve env r.type r.client w)) [
      | inl e ↦ serve_all-none env r rs w e
      | inr (w', e) ↦
          serve_all-some env r rs w w' e
          ∙ serve_all-dangles env id rs w' asks
              ((served-SameClients env r.type r.client w w' e id).0 gone)
    ]

-- The world that `Loop::onDisconnect` leaves.
unfoldable pub without : Key → Client → World → World
without id c w = let w' = put id c w in record w' { storage = destroy id w'.storage }

pub on_disconnect_callback-some :
    (id : Key) (w : World) {c : Client}
    → client_of id w ≡ some c
    → on_disconnect_callback id w ≡ some (without id c w)
unfolding on_disconnect_callback on_disconnect finish without
on_disconnect_callback-some id w h = rw (call-some id on_disconnect w h)

pub on_disconnect_callback-none :
    (id : Key) (w : World) → client_of id w ≡ none → on_disconnect_callback id w ≡ none
unfolding on_disconnect_callback
on_disconnect_callback-none id w h = rw (call-none id on_disconnect w h)

without_lem :
    (id : Key) (c : Client) (w : World)
    → Laws.IsValid w.storage
    → ((without id c w).requests ≡ w.requests) × (client_of id (without id c w) ≡ none)
unfolding without put destroy
without_lem id c w v = (
  refl,
  rw (
    find-erase id id _ (update-IsMap id (λ _. c) w.storage.client_map v.is_map),
    bytes_eq_refl id,
  ),
)

pub requests-on_disconnect :
    (id : Key) (w w' : World)
    → Laws.IsValid w.storage
    → on_disconnect_callback id w ≡ some w'
    → (w'.requests ≡ w.requests) × (client_of id w' ≡ none)
requests-on_disconnect id w w' v e = elim (Option-cases (client_of id w)) [
  | inl gone ↦ cc (on_disconnect_callback-none id w gone)
  | inr (c, found) ↦
      let w_eq : without id c w ≡ w' = cc (on_disconnect_callback-some id w found) in
      subst (λ u. (u.requests ≡ w.requests) × (client_of id u ≡ none)) w_eq (without_lem id c w v)
]

-- When libuv has closed a connection and `Loop::onDisconnect` has destroyed its client while a
-- request for that client is still in the queue, the next `onAsync` uses the deleted client,
-- whatever else is queued.
pub on_disconnect-dangles :
    (env : LoopEnv) (id : Key) (w w' : World)
    → Laws.IsValid w.storage
    → Asks id w.requests
    → on_disconnect_callback id w ≡ some w'
    → on_async env w' ≡ none
unfolding on_async
on_disconnect-dangles env id w w' v asks e =
    let (same, gone) = requests-on_disconnect id w w' v e in
    serve_all-dangles env id w'.requests (record w' { requests = [] }) (rw same asks) gone
