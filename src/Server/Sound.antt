-- ===== src/Server/Sound.antt =====
-- The handlers of src/linear_fcgi_server.cc keep what holds of every client.
use linear_fcgi.Common.{◌<◌, arith, ℕ, zero, suc, ◌≡◌, refl, sym, ap, ◌∙◌, inl, inr}
use linear_fcgi.Common.{Bool, true, List, [], Option, none, some, if◌then◌else◌, length, ◌++◌}
use linear_fcgi.Common.{Bool-cases, bytes_eq, bytes_eq_iff, not, ltb}
use linear_fcgi.Common.Map.{Key}
use linear_fcgi.Client.State.{Client, Effect, make}
use linear_fcgi.Client.Calls.{LoopEvent, Outcome, connect, disconnect, write, read, apply_all}
use linear_fcgi.Client.Sound.{
  IsSound, OutcomeIsSound, connect-OutcomeIsSound, disconnect-IsSound, write-IsSound, read-IsSound,
  apply_all-IsSound,
}
use linear_fcgi.Storage
use linear_fcgi.Storage.{Storage}
use linear_fcgi.Storage.Laws.{create_lem}
use linear_fcgi.Loop.{World, put, perform, finish}
use linear_fcgi.Loop.Requests.{client_of}
use linear_fcgi.Loop.Sound.{Clients, finish-Clients}
use linear_fcgi.Request.Input
use linear_fcgi.Response.Codes.{bad_request, no_content}
use linear_fcgi.Server.Dispatch.{After, if_kept, if-After, handle-After}
use linear_fcgi.Server.Reply.{status}
use mathlib.Core.Path.{subst}
use linear_fcgi.Queries
use linear_fcgi.Uuid.Hex.{unparse_fields, print_hex}
use linear_fcgi.Uuid.Api.{unparse, is_null}
use linear_fcgi.Server.Origin.{Backend, is_empty, is_allow_origin}
use linear_fcgi.Server.Poll.{poll, poll_loop, Polled, round, head, tail, data_threshold}
use linear_fcgi.Server.Polling.{round-cases, poll_loop-finished, poll_loop-onward}
use linear_fcgi.Server.Handlers
use linear_fcgi.Server.Invariant.{poll_answer-world}
use linear_fcgi.Server.Alive.{reconnect_answer-world}
use linear_fcgi.Server.Handlers.{
  Server, Env, Answer, connected_answer, connect_created, connect_backend, reconnect_answer,
  disconnect_client, poll_answer, poll_client, on_poll, post_client, on_post, handle, session_id_of,
  origin_of,
}

abbrev PolledIsSound : Key → Option Polled → Type 0
PolledIsSound id none = Unit
PolledIsSound id (some p) = IsSound id p.client

poll_loop-PolledIsSound :
    (id : Key) (fuel : ℕ) (malloc : ℕ → Bool) (now : ℕ) (between : List (List LoopEvent))
    (joined : List ℕ) (c : Client) (effects : List Effect)
    → IsSound id c
    → PolledIsSound id (poll_loop fuel malloc now between joined c effects)
poll_loop-PolledIsSound id zero malloc now between joined c effects h = unfold poll_loop in tt
poll_loop-PolledIsSound id (suc fuel) malloc now between joined c effects h =
    let c1 = (apply_all (head between) c).0 in
    let h' = read-IsSound id now c1 (apply_all-IsSound id (head between) c h) in
    elim (round-cases (round malloc joined (read now c1).1)) [
      | inl (end, e) ↦ rw (poll_loop-finished fuel malloc now between joined c effects end e) h'
      | inr (joined', e) ↦
          rw (poll_loop-onward fuel malloc now between joined c effects joined' e) (
            poll_loop-PolledIsSound id fuel malloc now (tail between) joined' (read now c1).0
              (effects ++ (apply_all (head between) c).1) h')
    ]

connect_created-After :
    (env : Env) (req : Input.Request) (backend : Backend) (id : Key) (w : World) (o : Option Client)
    → client_of id w ≡ o
    → Clients w
    → After Clients (connect_created env req backend id w o)
unfolding connect_created connected_answer finish
connect_created-After env req backend id w none there h = h
connect_created-After env req backend id w (some c) there h =
    go (connect env.wakes backend.host backend.port c)
      (connect-OutcomeIsSound id env.wakes backend.host backend.port c (h id c there))
  where
    go :
        (o : Option Outcome)
        → OutcomeIsSound id o
        → After Clients (elim o [ none ↦ none | some r ↦ some (connected_answer env req id w r) ])
    go none sound = tt
    go (some (f, c', effects)) sound =
        let kept = finish-Clients id w (c', effects) sound h in if_kept Clients f _ _ kept kept

same_client : (x y : Client) → some x ≡ some y → x ≡ y
same_client x y e = cc

created_sound :
    (id : Key) (origins : List (List ℕ)) (timeout memory : ℕ) (new_ok : Bool) (w : World)
    → 0 < length id
    → Clients w
    → (Storage.create id origins timeout memory new_ok w.storage).1 ≡ true
    → Clients (record w { storage = (Storage.create id origins timeout memory new_ok w.storage).0 })
created_sound id origins timeout memory new_ok w named h made other d e =
    let new = make id origins timeout memory in
    elim (create_lem id other origins timeout memory new_ok w.storage) [
      | inr (failed, _, _) ↦ cc
      | inl (_, found) ↦
          let whole = sym found ∙ e in
          elim (Bool-cases (bytes_eq id other)) [
            | inl same ↦
                let at = sym (ap (λ b. if b then some new else client_of other w) same) ∙ whole in
                let own : IsSound id new = unfold make in (refl, tt, named) in
                subst (λ i. IsSound i d) ((bytes_eq_iff id other).0 same)
                  (subst (IsSound id) (same_client new d at) own)
            | inr differs ↦
                h other d
                  (sym (ap (λ b. if b then some new else client_of other w) differs) ∙ whole)
          ]
    ]

-- The text of a UUID is not empty.
length-unparse : (uuid : List ℕ) → 0 < length (unparse uuid)
unfolding unparse unparse_fields print_hex
length-unparse uuid = ground arith

connect_backend-After :
    (s : Server) (env : Env) (req : Input.Request) (w : World) (o : Option Backend)
    → Clients w
    → After Clients (connect_backend s env req w o)
unfolding connect_backend Storage.get
connect_backend-After s env req w none h = h
connect_backend-After s env req w (some backend) h =
    let id = unparse env.uuid in
    let (storage, made) =
      Storage.create id backend.origins s.timeout env.memory env.new_ok w.storage in
    elim (Bool-cases made) [
      | inr failed ↦ rw failed h
      | inl done ↦ rw done (
          connect_created-After env req backend id (record w { storage = storage })
            (Storage.get id storage) refl
            (created_sound id backend.origins s.timeout env.memory env.new_ok w
              (length-unparse env.uuid) h done))
    ]

on_connect-After :
    (s : Server) (env : Env) (req : Input.Request) (w : World)
    → Clients w
    → After Clients (Handlers.on_connect s env req w)
unfolding Handlers.on_connect
on_connect-After s env req w h =
    let id = session_id_of req in
    if-After Clients (is_empty id) _ (some (reconnect_answer req id w (Storage.get [] w.storage)))
      (if-After Clients (is_null env.uuid) _ _ h (connect_backend-After s env req w _ h))
      (subst Clients (sym (reconnect_answer-world req id w (Storage.get [] w.storage))) h)

disconnect_client-Clients :
    (id : Key) (w : World) (o : Option Client)
    → client_of id w ≡ o
    → Clients w
    → Clients (disconnect_client id w o)
unfolding disconnect_client finish
disconnect_client-Clients id w none there h = h
disconnect_client-Clients id w (some c) there h =
    finish-Clients id w (disconnect c) (disconnect-IsSound id c (h id c there)) h

on_disconnect-Clients :
    (req : Input.Request) (w : World) → Clients w → Clients (Handlers.on_disconnect req w).0
unfolding Handlers.on_disconnect Storage.get
on_disconnect-Clients req w h =
    if_kept Clients (is_empty (session_id_of req)) (w, status bad_request) _ h
      (disconnect_client-Clients (session_id_of req) w _ refl h)

post_client-Clients :
    (s : Server) (req : Input.Request) (id : Key) (w : World) (o : Option Client)
    → client_of id w ≡ o
    → Clients w
    → Clients (post_client s req id w o).0
unfolding post_client finish
post_client-Clients s req id w none there h = h
post_client-Clients s req id w (some c) there h =
    let text = Queries.get_data req.queries in
    let (c', _, effects) = write text c in
    let writes = finish-Clients id w (c', effects) (write-IsSound id text c (h id c there)) h in
    if_kept Clients (not (is_allow_origin s.matches (origin_of req) c.allow_origins))
      (w, status bad_request) _ h
      (if_kept Clients (not (ltb 0 (length text))) (w, status no_content) _ h writes)

on_post-Clients :
    (s : Server) (req : Input.Request) (w : World) → Clients w → Clients (on_post s req w).0
unfolding on_post Storage.get
on_post-Clients s req w h =
    let id = session_id_of req in
    if_kept Clients (is_empty id) (w, status bad_request) _ h
      (post_client-Clients s req id w (Storage.get id w.storage) refl h)

poll_client-After :
    (env : Env) (req : Input.Request) (id : Key) (w : World) (o : Option Client)
    → client_of id w ≡ o
    → Clients w
    → After Clients (poll_client env req id w o)
unfolding poll_client poll finish
poll_client-After env req id w none there h = h
poll_client-After env req id w (some c) there h = polled (poll env.malloc env.now env.between c) (
    poll_loop-PolledIsSound id (suc data_threshold) env.malloc env.now env.between [] c []
      (h id c there))
  where
    polled :
        (o : Option Polled)
        → PolledIsSound id o
        → After Clients (elim o [
          | none ↦ none
          | some p ↦ some (poll_answer env req (perform id p.effects (put id p.client w)) p.end)
        ])
    polled none sound = tt
    polled (some p) sound =
        let w' = perform id p.effects (put id p.client w) in
        subst Clients (sym (poll_answer-world env req w' p.end))
          (finish-Clients id w (p.client, p.effects) sound h)

on_poll-After :
    (env : Env) (req : Input.Request) (w : World) → Clients w → After Clients (on_poll env req w)
unfolding on_poll Storage.get
on_poll-After env req w h =
    let id = session_id_of req in
    if-After Clients (is_empty id) (some (w, status bad_request)) _ h
      (poll_client-After env req id w (Storage.get id w.storage) refl h)

pub handle-Clients :
    (s : Server) (env : Env) (req : Input.Request) (w : World)
    → Clients w
    → After Clients (handle s env req w)
handle-Clients s env req w h =
    handle-After Clients s env req w h (on_connect-After s env req w h)
      (on_disconnect-Clients req w h) (on_poll-After env req w h) (on_post-Clients s req w h)
