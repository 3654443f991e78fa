-- ===== src/Storage.antt =====
-- src/linear_fcgi_client_storage.cc and .h: the clients by session id. The storage owns its clients,
-- so a Client* is modelled by the id, and it dangles once the id is no longer in the map. A method
-- is called with the lock held, so each is one step.
pub mod Laws
pub mod Spec
mod Tests
use linear_fcgi.Common.{ℕ, Bool, true, false, not, List, [], ◌∷◌, ◌++◌, Option, none, some, map}
use linear_fcgi.Common.{if◌then◌else◌, leb, length}
use linear_fcgi.Common.Map.{Key, find, insert, erase}
use linear_fcgi.Client.State.{Client, Effect, make}
use linear_fcgi.Client.Callbacks.{on_timer}

pub record Storage : Type 0 where
  pub max_clients : ℕ
  pub client_map : List (Key × Client)

-- `getInstance` on its first call.
unfoldable pub empty : ℕ → Storage
empty max_clients = record { max_clients = max_clients; client_map = [] }

unfoldable pub default_max_clients : ℕ
default_max_clients = 8

unfoldable pub default_timeout : ℕ
default_timeout = 30

is_some {ℓ} : {A : Type ℓ} → Option A → Bool
is_some none = false
is_some (some a) = true

-- ClientStorage::create; the answer says whether it is not NULL. `new_ok` is whether `new` finds
-- memory, and `memory` what it holds.
unfoldable pub create :
    Key → List (List ℕ) → (timeout memory : ℕ) → (new_ok : Bool) → Storage → Storage × Bool
unfolding is_some
create id allow_origins timeout memory new_ok s =
    if leb s.max_clients (length s.client_map)
    then (s, false)
    else if is_some (find id s.client_map)
    then (s, false)
    else if not new_ok
    then (s, false)
    else (
      record s { client_map = insert id (make id allow_origins timeout memory) s.client_map },
      true,
    )

-- ClientStorage::destroy.
unfoldable pub destroy : Key → Storage → Storage
destroy id s = record s { client_map = erase id s.client_map }

-- ClientStorage::get.
unfoldable pub get : Key → Storage → Option Client
get id s = find id s.client_map

on_timers : ℕ → List (Key × Client) → List (Key × Client) × List (Key × Effect)
on_timers now [] = ([], [])
on_timers now ((id, c) ∷ m) =
    let (c', effects) = on_timer now c in
    let (m', more) = on_timers now m in ((id, c') ∷ m', map (λ e. (id, e)) effects ++ more)

-- ClientStorage::onTimer, with the calls of each client.
unfoldable pub on_timer_all : ℕ → Storage → Storage × List (Key × Effect)
unfolding on_timers
on_timer_all now s =
    let (m, calls) = on_timers now s.client_map in (record s { client_map = m }, calls)
