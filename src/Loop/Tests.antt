-- ===== src/Loop/Tests.antt =====
-- The theorems on src/linear_fcgi_loop.cc at an input.
use linear_fcgi.Common.{◌≡◌, ◌≢◌, inl, refl, arith}
use linear_fcgi.Common.{true, [], ◌∷◌, none, some, codes}
use linear_fcgi.Common.Map.{Key, find, update, erase}
use linear_fcgi.Client.State.{Client, RequestType, connected, inet, make}
use linear_fcgi.Client.Callbacks.{on_disconnect}
use linear_fcgi.Storage.{destroy}
use linear_fcgi.Storage.Laws.{IsValid}
use linear_fcgi.Loop.{World, LoopEnv, on_async, on_disconnect_callback, call, finish, put, perform}
use linear_fcgi.Loop.Lifetime.{on_disconnect-dangles}

abbrev env : LoopEnv
env = record {
  connect_env = λ id. record {
    tcp_init_ok = true;
    malloc_ok = true;
    resolved = some inet;
    tcp_connect_ok = true;
  };
  write_env = λ id. record {
    malloc = λ n. true;
    base64_decode = λ text. some text;
    req_malloc_ok = true;
    uv_write_ok = λ b. true;
  };
}

abbrev id : Key
id = codes "a"

abbrev client : Client
client = record (make id [] 30 0) { state = connected; write_queue = codes "x" ∷ [] }

abbrev world : World
world = record {
  storage = record { max_clients = 8; client_map = (id, client) ∷ [] };
  requests = record { type = RequestType.write; client = id } ∷ [];
  calls = [];
}

world-IsValid : IsValid world.storage
world-IsValid = ground arith

abbrev left_world : World
left_world = record (world) { storage = record { max_clients = 8; client_map = [] } }

closed_run : on_disconnect_callback id world ≡ some left_world
unfolding on_disconnect_callback call finish put perform destroy on_disconnect find update erase
closed_run = refl

write_asked : RequestType.write ≢ RequestType.undefined
write_asked e = cc

on_disconnect-dangles_example : on_async env left_world ≡ none
on_disconnect-dangles_example =
    on_disconnect-dangles env id world left_world world-IsValid (inl (refl, write_asked)) closed_run
