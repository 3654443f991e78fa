-- ===== src/Server/RunTests.antt =====
-- The theorems on runs of src/linear_fcgi_server.cc at an input.
use linear_fcgi.Common.{if◌then◌else◌, ◌≡◌, refl, inl, arith}
use linear_fcgi.Common.{false, [], ◌∷◌, none, some, codes, bytes_eq}
use linear_fcgi.Common.Map.{find}
use linear_fcgi.Client.State.{Client, make, disconnecting, close}
use linear_fcgi.Loop.{World, on_timer_callback, perform_all}
use linear_fcgi.Storage.{on_timer_all}
use linear_fcgi.Client.Callbacks.{on_timer}
use linear_fcgi.Loop.Invariant.{Holds, closed, timer, run_callback}
use linear_fcgi.Request.Input
use linear_fcgi.Server.Handlers.{handle, session_id_of}
use linear_fcgi.Server.Reconnect.{reconnect_gone}
use linear_fcgi.Server.Origin.{is_empty}
use linear_fcgi.Server.Reply.{status}
use linear_fcgi.Response.Codes.{gone}
use linear_fcgi.Request.Env.{Ident}
use linear_fcgi.Queries
use linear_fcgi.Server.Lifetime
use linear_fcgi.Server.Lifetime.{no_use_after_free}
use linear_fcgi.Loop.Alive.{Lives}
use linear_fcgi.Loop.Due.{settle, due_timer, due_closed}
use linear_fcgi.Server.Invariant.{here, next, called}
use linear_fcgi.Server.Consistency.{Run-Clients}
use linear_fcgi.Loop.Sound.{Clients, none-some}
use linear_fcgi.Common.{Bool-cases, bytes_eq_iff, ap, sym, ◌∙◌, inr}
use mathlib.Core.Path.{subst}
use linear_fcgi.Client.Sound.{IsSound}
use linear_fcgi.Server.Tests.{server, late_env, world, id, client}

world-Holds : Holds world
world-Holds = ground arith

after_timer : (w' : World) × (run_callback (timer 9) world ≡ some w')
unfolding run_callback
after_timer = (_, refl)

client-IsSound : IsSound id client
unfolding make
client-IsSound = ground arith

some_client : (c : Client) → some client ≡ some c → client ≡ c
some_client c e = cc

world-Clients : Clients world
unfolding find
world-Clients key c e = elim (Bool-cases (bytes_eq id key)) [
  | inl same ↦
      let here : some client ≡ some c = sym (ap (λ b. if b then some client else none) same) ∙ e in
      subst (λ i. IsSound i c) ((bytes_eq_iff id key).0 same)
        (subst (IsSound id) (some_client c here) client-IsSound)
  | inr differs ↦ absurd (none-some c (sym (ap (λ b. if b then some client else none) differs) ∙ e))
]

Run-Clients_example : Holds after_timer.0 × Clients after_timer.0
Run-Clients_example =
    Run-Clients (next here (called (timer 9) world after_timer.0 after_timer.1)) world-Holds
      world-Clients

-- A timer closes the connection, which has been idle, and then libuv calls back that it is closed.
abbrev closing_world : World
closing_world = record (world) {
  storage = record {
    max_clients = 8;
    client_map = (id, record (client) { state = disconnecting }) ∷ [];
  };
  calls = (id, close) ∷ [];
}

ticked : run_callback (timer 40) world ≡ some closing_world
unfolding run_callback on_timer_callback on_timer_all on_timer perform_all make
ticked = refl

no_use_after_free_example :
    (w' : World) × (run_callback (closed id) closing_world ≡ some w')
    × Lives (settle (closed id) w')
unfolding settle
no_use_after_free_example =
    no_use_after_free (Lifetime.called (timer 40) Lifetime.here (due_timer 40) ticked) world-Holds
      (tt, tt) (closed id) (due_closed id (inl refl) (λ asked. asked))

-- A request to connect for the session whose client is there and connected.
abbrev again : Input.Request
again = record {
  envs = λ (i : Ident). codes "GET";
  queries = (codes "c", codes "connect") ∷ (codes "sid", id) ∷ [];
}

is_connect : Queries.get_command again.queries ≡ codes "connect"
unfolding Queries.get_command Queries.get find bytes_eq
is_connect = refl

names_session : is_empty (session_id_of again) ≡ false
unfolding session_id_of Queries.get_session_id Queries.get find bytes_eq
names_session = refl

reconnect_gone_example :
    handle server late_env again after_timer.0 ≡ some (after_timer.0, status gone)
reconnect_gone_example =
    reconnect_gone server late_env again
      (next here (called (timer 9) world after_timer.0 after_timer.1)) world-Holds world-Clients
      refl is_connect names_session
