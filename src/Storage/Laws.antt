-- ===== src/Storage/Laws.antt =====
-- The client storage keeps its bound, and is a map from session ids.
use linear_fcgi.Common.{ℕ, ◌≤◌, ◌≡◌, refl, ◌≢◌, ◌⊎◌, inl, inr, arith}
use linear_fcgi.Common.{Bool, true, false, List, [], ◌∷◌, none, some, if◌then◌else◌}
use linear_fcgi.Common.{
  map, All, All-append, All-mono, length, leb, bytes_eq, bytes_eq_iff, bytes_eq_refl, ◌+◌, ◌&&◌,
  ◌||◌, Bool-cases, Option-cases,
}
use linear_fcgi.Common.Map.{
  Key, find, IsMap, Absent, find-insert, length-insert_new, find-erase, length-erase, insert-IsMap,
  erase-IsMap, or_else,
}
use mathlib.Core.Option
use linear_fcgi.Client.State.{
  Client, make, Effect, close, is_connected, is_connecting, is_fail_connect,
}
use linear_fcgi.Client.Callbacks.{on_timer}
use linear_fcgi.Storage.{Storage, empty, create, destroy, get, on_timers, on_timer_all}

-- No more clients than allowed, and no id twice.
pub record IsValid (s : Storage) : Type 0 where
  pub bounded : length s.client_map ≤ s.max_clients
  pub is_map : IsMap s.client_map

pub empty-IsValid : (max_clients : ℕ) → IsValid (empty max_clients)
unfolding empty
empty-IsValid max_clients = ground arith

pub create-IsValid :
    (id : Key) (allow_origins : List (List ℕ)) (timeout memory : ℕ) (new_ok : Bool) (s : Storage)
    → IsValid s
    → IsValid (create id allow_origins timeout memory new_ok s).0
unfolding create
create-IsValid id allow_origins timeout memory new_ok s v =
    let c = make id allow_origins timeout memory in
    ground (arith, length-insert_new id c s.client_map, insert-IsMap id c s.client_map)

pub destroy-IsValid : (id : Key) (s : Storage) → IsValid s → IsValid (destroy id s)
unfolding destroy
destroy-IsValid id s v = ground (arith, length-erase id s.client_map, erase-IsMap id s.client_map)

-- A new entry is not shadowed by an old one.
pub same_key :
    (id other : Key) (c : Client) (m : List (Key × Client))
    → find id m ≡ none
    → bytes_eq id other ≡ true
    → or_else (find other m) (some c) ≡ some c
unfolding or_else
same_key id other c m free e = rw (← (bytes_eq_iff id other).0 e, free)

-- When `create` succeeds the new client is found under its id and every other id finds what it did;
-- when it fails nothing changes, and the storage was full, or had the id, or no memory was left.
pub create_lem :
    (id other : Key) (allow_origins : List (List ℕ)) (timeout memory : ℕ) (new_ok : Bool)
    (s : Storage)
    → let (s', made) = create id allow_origins timeout memory new_ok s in
      ((made ≡ true)
        × (find other s'.client_map ≡ (
            if bytes_eq id other
            then some (make id allow_origins timeout memory)
            else find other s.client_map)))
      ⊎ ((made ≡ false)
          × (s' ≡ s)
          × ((s.max_clients ≤ length s.client_map)
              ⊎ (find id s.client_map ≢ none)
              ⊎ (new_ok ≡ false)))
unfolding create
create_lem id other allow_origins timeout memory new_ok s =
    let c = make id allow_origins timeout memory in
    elim (Bool-cases (leb s.max_clients (length s.client_map))) [
      | inl full ↦ rw full (inr (refl, refl, inl (ground arith)))
      | inr room ↦ elim (Option-cases (find id s.client_map)) [
        | inr (old, e) ↦ ground arith
        | inl free ↦ elim (Bool-cases new_ok) [
          | inr failed ↦ ground arith
          | inl made ↦ inl (
            ground arith,
            ground
                (arith, find-insert id other c s.client_map, same_key id other c s.client_map free),
          )
        ]
      ]
    ]

-- After `destroy` the id is gone, and every other id finds what it did.
pub find-destroy :
    (id other : Key) (s : Storage)
    → IsValid s
    → get other (destroy id s) ≡ (if bytes_eq id other then none else get other s)
unfolding get destroy
find-destroy id other s v = find-erase id other s.client_map v.is_map

find-on_timers :
    (now : ℕ) (id : Key) (m : List (Key × Client))
    → find id (on_timers now m).0 ≡ Option.map (λ c. (on_timer now c).0) (find id m)
unfolding find on_timers
find-on_timers now id [] = refl
find-on_timers now id ((j, c) ∷ m) = ground (arith, find-on_timers now id m)

-- The timer keeps every id, and gives each client what its own `onTimer` makes of it.
pub find-on_timer_all :
    (now : ℕ) (id : Key) (s : Storage)
    → get id (on_timer_all now s).0 ≡ Option.map (λ c. (on_timer now c).0) (get id s)
unfolding get on_timer_all
find-on_timer_all now id s = find-on_timers now id s.client_map

Absent-on_timers :
    (now : ℕ) (id : Key) (m : List (Key × Client)) → Absent id m → Absent id (on_timers now m).0
unfolding on_timers
Absent-on_timers now id [] h = tt
Absent-on_timers now id ((j, c) ∷ m) h = (h.0, Absent-on_timers now id m h.1)

on_timers-IsMap :
    (now : ℕ) (m : List (Key × Client))
    → IsMap m
    → IsMap (on_timers now m).0 × (length (on_timers now m).0 ≡ length m)
unfolding on_timers
on_timers-IsMap now [] h = (tt, refl)
on_timers-IsMap now ((j, c) ∷ m) h = ground (arith, on_timers-IsMap now m, Absent-on_timers now j m)

pub length-on_timer_all :
    (now : ℕ) (s : Storage)
    → IsValid s
    → length (on_timer_all now s).0.client_map ≡ length s.client_map
unfolding on_timer_all
length-on_timer_all now s v = (on_timers-IsMap now s.client_map v.is_map).1

pub on_timer_all-IsValid : (now : ℕ) (s : Storage) → IsValid s → IsValid (on_timer_all now s).0
unfolding on_timer_all
on_timer_all-IsValid now s v = ground (arith, on_timers-IsMap now s.client_map)

on_timer-closes :
    (now : ℕ) (id : Key) (c : Client)
    → All (λ (p : Key × Effect). p.1 ≡ close) (map (λ e. (id, e)) (on_timer now c).1)
unfolding on_timer
on_timer-closes now id c = ground arith

on_timers-closes :
    (now : ℕ) (m : List (Key × Client))
    → All (λ (p : Key × Effect). p.1 ≡ close) (on_timers now m).1
unfolding on_timers
on_timers-closes now [] = tt
on_timers-closes now ((id, c) ∷ m) =
    All-append (λ (p : Key × Effect). p.1 ≡ close) (map (λ e. (id, e)) (on_timer now c).1) _
      (on_timer-closes now id c) (on_timers-closes now m)

-- All that the timer does is to close connections.
pub on_timer_all-closes :
    (now : ℕ) (s : Storage) → All (λ (p : Key × Effect). p.1 ≡ close) (on_timer_all now s).1
unfolding on_timer_all
on_timer_all-closes now s = on_timers-closes now s.client_map

in_tail :
    (id : Key) (c : Client) (m : List (Key × Client)) (other : Key)
    → (d : Client) × (find other m ≡ some d)
    → (d : Client) × (find other ((id, c) ∷ m) ≡ some d)
unfolding find
in_tail id c m other (d, e) = elim (Bool-cases (bytes_eq id other)) [
  | inl same ↦ rw same (c, refl)
  | inr differs ↦ rw differs (d, e)
]

head_there :
    (now : ℕ) (id : Key) (c : Client) (m : List (Key × Client))
    → All
        (λ (p : Key × Effect). (d : Client) × (find p.0 ((id, c) ∷ m) ≡ some d))
        (map (λ e. (id, e)) (on_timer now c).1)
unfolding on_timer find
head_there now id c m =
    let found : (d : Client) × ((if bytes_eq id id then some c else find id m) ≡ some d) =
      rw (bytes_eq_refl id) (c, refl) in
    elim (Bool-cases (
      leb (c.last_access + c.timeout) now && (is_connected c.state || is_connecting c.state)
      || is_fail_connect c.state)) [ inl late ↦ rw late (found, tt) | inr early ↦ rw early tt ]

on_timers-there :
    (now : ℕ) (m : List (Key × Client))
    → All (λ (p : Key × Effect). (c : Client) × (find p.0 m ≡ some c)) (on_timers now m).1
unfolding on_timers on_timer
on_timers-there now [] = tt
on_timers-there now ((id, c) ∷ m) =
    let There : List (Key × Client) → Key × Effect → Type 0 =
      λ m p. (c : Client) × (find p.0 m ≡ some c) in
    All-append (There ((id, c) ∷ m)) (map (λ e. (id, e)) (on_timer now c).1) _
      (head_there now id c m)
      (All-mono (There m) (There ((id, c) ∷ m)) (on_timers now m).1 (λ p. in_tail id c m p.0)
        (on_timers-there now m))

-- The timer closes only connections of clients in the storage.
pub on_timer_all-there :
    (now : ℕ) (s : Storage)
    → All (λ (p : Key × Effect). (c : Client) × (get p.0 s ≡ some c)) (on_timer_all now s).1
unfolding on_timer_all get
on_timer_all-there now s = on_timers-there now s.client_map
