-- ===== src/Locks.antt =====
-- The mutexes of the program: the lock of the client storage (src/linear_fcgi_client_storage.cc), the
-- state lock of each client (src/linear_fcgi_client.cc) and that of the log
-- (src/linear_fcgi_log.cc), and two threads that take and give them.
pub mod Methods
pub mod Threads
pub mod Order
pub mod Progress
pub mod Tidy
pub mod Discipline
pub mod Starved
mod Tests
use linear_fcgi.Common.{
  ℕ, Bool, true, false, List, [], ◌∷◌, ◌++◌, bytes_eq, if◌then◌else◌, ltb, ◌≡◌,
}
use linear_fcgi.Common.Map.{Key}

pub data Lock : Type 0 where
  storage : Lock
  client : Key → Lock
  log : Lock

unfoldable pub same_lock : Lock → Lock → Bool
unfolding bytes_eq
same_lock storage storage = true
same_lock (client id) (client other) = bytes_eq id other
same_lock log log = true
same_lock _ _ = false

-- pthread_mutex_lock and pthread_mutex_unlock.
pub data Action : Type 0 where
  acquire : Lock → Action
  release : Lock → Action

abbrev pub Trace : Type 0
Trace = List Action

-- A thread: what it holds, the last lock first, and what it still does.
pub record Thread : Type 0 where
  pub held : List Lock
  pub rest : Trace

pub record System : Type 0 where
  pub server : Thread
  pub loop : Thread

unfoldable pub holds : Lock → List Lock → Bool
unfolding same_lock
holds l [] = false
holds l (m ∷ ms) = if same_lock m l then true else holds l ms

-- An action of one thread, while the other holds `others`. A mutex is released by its holder.
pub data Acts (others : List Lock) : Thread → Thread → Type 0 where
  takes :
      (l : Lock) (held : List Lock) (rest : Trace)
      → holds l held ≡ false
      → holds l others ≡ false
      → Acts others
          (record { held = held; rest = acquire l ∷ rest })
          (record { held = l ∷ held; rest = rest })
  gives :
      (l : Lock) (held : List Lock) (rest : Trace)
      → Acts others
          (record { held = l ∷ held; rest = release l ∷ rest })
          (record { held = held; rest = rest })

pub data Step : System → System → Type 0 where
  server_step :
      {t : Thread} (s : System) → Acts s.loop.held s.server t → Step s (record s { server = t })
  loop_step :
      {t : Thread} (s : System) → Acts s.server.held s.loop t → Step s (record s { loop = t })

abbrev pub started : Trace → Trace → System
started server loop = record {
  server = record { held = []; rest = server };
  loop = record { held = []; rest = loop };
}

-- The number of steps of a run stands with it.
pub data Run (start : System) : System → Type 0 where
  here : Run start start
  next : {s t : System} → Run start s → Step s t → Run start t
