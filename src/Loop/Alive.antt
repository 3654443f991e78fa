-- ===== src/Loop/Alive.antt =====
-- The callbacks of src/linear_fcgi_loop.cc while every queued request is for a client that lives.
use linear_fcgi.Common.{ℕ, ◌≡◌, refl, sym, ◌∙◌, inl, inr}
use linear_fcgi.Common.{List, [], ◌∷◌, Option, some}
use linear_fcgi.Common.{◌++◌, append-nil, append_assoc, Option-cases, All-mono, All, All-append}
use linear_fcgi.Common.Map.{Key}
use linear_fcgi.Client.State.{Client, Effect, execute, RequestType}
use linear_fcgi.Client.Callbacks.{on_timer}
use linear_fcgi.Storage.{on_timer_all, get}
use linear_fcgi.Storage.Laws.{find-on_timer_all, on_timer_all-closes, on_timer_all-there}
use linear_fcgi.Loop.{
  Request, World, perform, perform_one, perform_all, put, finish, on_timer_callback,
}
use linear_fcgi.Loop.Requests.{client_of, IsLive, SameClients, finish-SameClients}
use mathlib.Core.Option

-- The client is in the storage.
abbrev pub IsThere : World → Key → Type 0
IsThere w id = (c : Client) × (client_of id w ≡ some c)

-- Every call is for a client in the storage.
abbrev pub Owned : World → Type 0
Owned w = All (λ (p : Key × Effect). IsThere w p.0) w.calls

-- Every queued request and every call is for a client in the storage.
abbrev pub Lives : World → Type 0
Lives w = All (IsLive w) w.requests × Owned w

-- What is in the storage of one world is in that of another.
abbrev pub Stays : World → World → Type 0
Stays w w' = (id : Key) → IsThere w id → IsThere w' id

Stays-IsLive : (w w' : World) (r : Request) → Stays w w' → IsLive w r → IsLive w' r
Stays-IsLive w w' r stay (inl u) = inl u
Stays-IsLive w w' r stay (inr there) = inr (stay r.client there)

SameClients-Stays : (w w' : World) → SameClients w w' → Stays w w'
SameClients-Stays w w' same id (c, e) = elim (Option-cases (client_of id w')) [
  | inl gone ↦ cc ((same id).1 gone)
  | inr found ↦ found
]

-- Each request of a list for one client, asked by `perform`, satisfies what all of that client do.
perform-All :
    (P : Request → Type 0) (id : Key)
    → ((t : RequestType) → P (record { type = t; client = id }))
    → (effects : List Effect) (w : World) → All P w.requests
    → All P (perform id effects w).requests
unfolding perform perform_one
perform-All P id ask [] w h = h
perform-All P id ask (execute t ∷ es) w h =
    perform-All P id ask es _ (All-append P w.requests _ h (ask t, tt))
perform-All P id ask (e ∷ es) w h = perform-All P id ask es _ h

-- So does each call, if all calls for that client do.
perform-calls :
    (P : Key × Effect → Type 0) (id : Key)
    → ((e : Effect) → P (id, e))
    → (effects : List Effect) (w : World) → All P w.calls
    → All P (perform id effects w).calls
unfolding perform perform_one
perform-calls P id ask [] w h = h
perform-calls P id ask (execute t ∷ es) w h = perform-calls P id ask es _ h
perform-calls P id ask (e ∷ es) w h =
    perform-calls P id ask es _ (All-append P w.calls _ h (ask e, tt))

-- A client that is there makes calls.
pub finish-Owned :
    (id : Key) (w : World) (r : Client × List Effect)
    → IsThere w id
    → Owned w
    → Owned (finish id w r)
unfolding finish put
finish-Owned id w r there h =
    let w' = finish id w r in
    let stay = SameClients-Stays w w' (finish-SameClients id w r) in
    perform-calls (λ p. IsThere w' p.0) id (λ e. stay id there) r.1 (put id r.0 w)
      (All-mono _ _ w.calls (λ p. stay p.0) h)

pub finish-Lives :
    (id : Key) (w : World) (r : Client × List Effect) {c : Client}
    → client_of id w ≡ some c
    → Lives w
    → Lives (finish id w r)
unfolding finish put
finish-Lives id w r {c} there (h, owned) =
    let w' = finish id w r in
    let stay = SameClients-Stays w w' (finish-SameClients id w r) in
    (
      perform-All (IsLive w') id (λ t. inr (stay id (c, there))) r.1 (put id r.0 w)
          (All-mono _ _ w.requests (λ q. Stays-IsLive w w' q stay) h),
      finish-Owned id w r (c, there) owned,
    )

pub perform_all-Quiet :
    (calls : List (Key × Effect)) (w : World)
    → All (λ (p : Key × Effect). p.1 ≡ Effect.close) calls
    → ((perform_all calls w).requests ≡ w.requests)
      × ((perform_all calls w).storage ≡ w.storage)
      × ((perform_all calls w).calls ≡ w.calls ++ calls)
unfolding perform_all perform_one
perform_all-Quiet [] w h = (refl, refl, sym (append-nil w.calls))
perform_all-Quiet ((id, execute t) ∷ calls) w h = cc
perform_all-Quiet ((id, e) ∷ calls) w h =
    let (queue, kept, made) = perform_all-Quiet calls _ h.1 in
    (queue, kept, made ∙ append_assoc w.calls ((id, e) ∷ []) calls)

map-some :
    {A B : Type 0} (f : A → B) (o : Option A) (x : A)
    → o ≡ some x
    → (y : B) × (Option.map f o ≡ some y)
map-some f o x e = rw e (f x, refl)

-- A world in which the same is asked and called for, and no client goes.
pub Lives-moved :
    (w w' : World) → w'.requests ≡ w.requests → Owned w' → Stays w w' → Lives w → Lives w'
Lives-moved w w' same owned stay h =
    (rw same (All-mono _ _ w.requests (λ r. Stays-IsLive w w' r stay) h.0), owned)

pub on_timer_callback-Lives : (now : ℕ) (w : World) → Lives w → Lives (on_timer_callback now w)
unfolding on_timer_callback get
on_timer_callback-Lives now w h =
    let (storage, calls) = on_timer_all now w.storage in
    let w' = on_timer_callback now w in
    let (queue, kept, made) =
      perform_all-Quiet calls (record w { storage = storage })
        (on_timer_all-closes now w.storage) in
    let stay : Stays w w' = λ id (c, e).
      let (d, found) = map-some (λ c. (on_timer now c).0) (client_of id w) c e in
      (d, rw kept (find-on_timer_all now id w.storage ∙ found)) in
    let there = All-mono _ _ calls (λ p. stay p.0) (on_timer_all-there now w.storage) in
    let owned = All-mono _ _ w.calls (λ p. stay p.0) h.1 in
    Lives-moved w w' queue (rw made (All-append (λ p. IsThere w' p.0) w.calls calls owned there))
      stay h
