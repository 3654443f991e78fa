-- ===== src/Client/State.antt =====
-- src/linear_fcgi_client.h: what a Client holds, and what its methods do to the outside.
-- A queue is the list of what is in it, oldest first; a tcp_buffer_t is the list of its bytes.
use linear_fcgi.Common.{ℕ, Bool, true, false, List, []}

pub data State : Type 0 where
  connecting fail_connect connected disconnecting disconnected : State

-- src/linear_fcgi_loop.h.
pub data RequestType : Type 0 where
  undefined connect disconnect write : RequestType

pub data Family : Type 0 where
  inet inet6 other : Family

-- Calls of libuv, pthread, the allocator and `Loop::execute`, in the order they are made.
pub data Effect : Type 0 where
  execute : RequestType → Effect
  cond_signal : Effect
  alloc_connect_req : Effect
  free_connect_req : Effect
  tcp_connect : Family → Effect
  read_start : Effect
  send : List ℕ → Effect
  close : Effect

-- `allow_origins` is the linked list of origin patterns; NULL is the empty list.
pub record Client : Type 0 where
  pub id : List ℕ
  pub host : List ℕ
  pub port : ℕ
  pub state : State
  pub allow_origins : List (List ℕ)
  pub last_access : ℕ
  pub timeout : ℕ
  pub read_queue : List (List ℕ)
  pub write_queue : List (List ℕ)

-- The constructor. `memory` stands for what the fields hold that it does not initialise.
unfoldable pub make : List ℕ → List (List ℕ) → ℕ → (memory : ℕ) → Client
make id allow_origins timeout memory = record {
  id = id;
  host = [];
  port = memory;
  state = disconnected;
  allow_origins = allow_origins;
  last_access = memory;
  timeout = timeout;
  read_queue = [];
  write_queue = [];
}

abbrev pub is_connecting : State → Bool
is_connecting connecting = true
is_connecting _ = false

abbrev pub is_connected : State → Bool
is_connected connected = true
is_connected _ = false

abbrev pub is_disconnecting : State → Bool
is_disconnecting disconnecting = true
is_disconnecting _ = false

abbrev pub is_disconnected : State → Bool
is_disconnected disconnected = true
is_disconnected _ = false

abbrev pub is_fail_connect : State → Bool
is_fail_connect fail_connect = true
is_fail_connect _ = false
