-- ===== src/Server/Losing.antt =====
-- A poll of src/linear_fcgi_server.cc during which the backend closes the connection.
use linear_fcgi.Common.{ℕ, suc, ◌<◌, ◌≡◌, refl, ap, ap₂, ◌∙◌, arith}
use linear_fcgi.Common.{Bool, true, false, List, [], ◌∷◌, some, length}
use linear_fcgi.Common.Map.{find}
use linear_fcgi.Client.State.{Client, Effect, connected, disconnecting, close}
use linear_fcgi.Client.Callbacks.{read_error, on_read}
use linear_fcgi.Client.Calls.{
  LoopEvent, read_done, apply, apply_all, read, take_chunk, ReadReply, gone, chunk,
}
use linear_fcgi.Loop.{World, put, perform}
use linear_fcgi.Loop.Requests.{client_of, perform-storage}
use linear_fcgi.Request.Input.{Request}
use linear_fcgi.Response.Codes
use linear_fcgi.Server.Handlers.{Env, on_poll, poll_client, poll_answer, session_id_of}
use linear_fcgi.Server.Http.{client_of-put}
use linear_fcgi.Server.Origin.{is_empty}
use linear_fcgi.Server.Poll.{poll_gone, poll, poll_loop, round, onward, data_threshold}
use linear_fcgi.Server.Polling.{poll_loop-finished, poll_loop-onward}
use linear_fcgi.Server.Reply.{status}
use linear_fcgi.Storage

-- The client that is left: open till the backend closed, with the queue behind the lost bytes.
abbrev pub cut_off : (now : ℕ) → List (List ℕ) → Client → Client
cut_off now queue c = record c { state = disconnecting; last_access = now; read_queue = queue }

module _ (malloc : ℕ → Bool) (now : ℕ) (c : Client) (bytes : List ℕ) (queue : List (List ℕ))
    (ok : Bool) (more : List (List LoopEvent)) (up : c.state ≡ connected)
    (waits : c.read_queue ≡ bytes ∷ queue) (some_bytes : 0 < length bytes)
    (few : length bytes < data_threshold) (memory : malloc (length bytes) ≡ true) where
  abbrev between : List (List LoopEvent)
  between = [] ∷ (read_done ok read_error ∷ []) ∷ more

  abbrev taken : Client
  taken = record c { last_access = now; read_queue = queue }

  first_read : read now c ≡ (taken, chunk bytes)
  unfolding read take_chunk
  first_read = rw (up, waits) refl

  first_round : round malloc [] (chunk bytes) ≡ onward bytes
  unfolding round
  first_round = ground arith

  closing : apply_all (read_done ok read_error ∷ []) taken ≡ (cut_off now queue c, close ∷ [])
  unfolding apply_all apply on_read
  closing = rw up refl

  no_read : read now (cut_off now queue c) ≡ (cut_off now queue c, gone)
  unfolding read
  no_read = refl

  second_round :
      (fuel : ℕ)
      → poll_loop (suc fuel) malloc now ((read_done ok read_error ∷ []) ∷ more) bytes taken []
        ≡ some (record { client = cut_off now queue c; effects = close ∷ []; end = poll_gone })
  unfolding round
  second_round fuel =
      let reads = ap (λ (r : Client × List Effect). read now r.0) closing ∙ no_read in
      poll_loop-finished fuel malloc now ((read_done ok read_error ∷ []) ∷ more) bytes taken []
        poll_gone (ap (λ r. round malloc bytes r.1) reads)
      ∙ ap₂
          (λ (d : Client) (effects : List Effect).
            some (record { client = d; effects = effects; end = poll_gone }))
          (ap (λ r. r.0) reads) (ap (λ r. r.1) closing)

  both_rounds :
      (fuel : ℕ)
      → poll_loop (suc (suc fuel)) malloc now between [] c []
        ≡ some (record { client = cut_off now queue c; effects = close ∷ []; end = poll_gone })
  unfolding apply_all
  both_rounds fuel =
      poll_loop-onward (suc fuel) malloc now between [] c [] bytes
        (ap (λ r. round malloc [] r.1) first_read ∙ first_round)
      ∙ ap
          (λ (r : Client × ReadReply).
            poll_loop (suc fuel) malloc now ((read_done ok read_error ∷ []) ∷ more) bytes r.0 [])
          first_read
      ∙ second_round fuel

  pub poll-cut_off :
      poll malloc now between c
      ≡ some (record { client = cut_off now queue c; effects = close ∷ []; end = poll_gone })
  unfolding poll
  poll-cut_off = both_rounds 16383

-- When a poll has taken bytes of a connected client and the backend closes the connection before the
-- next round, the answer is 410 Gone and the client no longer has the bytes: they are lost.
pub on_poll_loses :
    (env : Env) (req : Request) (w : World) (c : Client) (bytes : List ℕ) (queue : List (List ℕ))
    (ok : Bool) (more : List (List LoopEvent))
    → is_empty (session_id_of req) ≡ false
    → client_of (session_id_of req) w ≡ some c
    → c.state ≡ connected
    → c.read_queue ≡ bytes ∷ queue
    → 0 < length bytes
    → length bytes < data_threshold
    → env.malloc (length bytes) ≡ true
    → env.between ≡ [] ∷ (read_done ok read_error ∷ []) ∷ more
    → (w' : World) × (on_poll env req w ≡ some (w', status Codes.gone))
      × (client_of (session_id_of req) w' ≡ some (cut_off env.now queue c))
unfolding on_poll poll_client Storage.get poll_answer
on_poll_loses env req w c bytes queue ok more named there up waits some_bytes few memory events =
    let id = session_id_of req in
    let polled =
      ap (λ b. poll env.malloc env.now b c) events
      ∙ poll-cut_off env.malloc env.now c bytes queue ok more up waits some_bytes few memory in
    let put_back = put id (cut_off env.now queue c) w in
    (
      perform id (close ∷ []) put_back,
      rw (named, there, polled, poll_client) refl,
      ap (λ (s : Storage.Storage). find id s.client_map) (perform-storage id (close ∷ []) put_back)
          ∙ client_of-put id w c (cut_off env.now queue c) there,
    )
