-- ===== src/Server/Gathering.antt =====
-- The loop of Server::onPoll of src/linear_fcgi_server.cc while the libuv thread goes on reading from
-- the backend.
use linear_fcgi.Common.{ℕ, zero, suc, ◌≡◌, refl, sym, ap, ◌∙◌, ◌⊎◌, inl, inr, arith}
use linear_fcgi.Common.{Bool, true, false, List, [], ◌∷◌, ◌++◌, append_assoc, append-nil, take}
use linear_fcgi.Common.{some, if◌then◌else◌, not, ◌&&◌, flatten-append}
use linear_fcgi.Client.State.{Client, Effect, connected, is_connecting, is_connected}
use linear_fcgi.Client.Callbacks.{
  run_connect, run_write, run_disconnect, on_connect, bytes, read_error, on_read,
}
use linear_fcgi.Client.Calls.{
  LoopEvent, connect_request, write_request, disconnect_request, connect_done, read_done, apply,
  apply_all, read, take_chunk, gone,
}
use linear_fcgi.Client.Connect.{is_open}
use linear_fcgi.Server.Poll.{
  Polled, poll_data, poll_gone, finished, round, head, tail, poll_loop, poll, data_threshold,
}
use linear_fcgi.Server.Polling.{
  round-cases, poll_loop-finished, poll_loop-onward, Conserves, read-Conserves, finished-Conserves,
}
use mathlib.Core.List.{flatten}
use mathlib.Core.Path.{subst}

-- What the backend sends in one event, where there is memory for it.
abbrev pub sent : LoopEvent → List ℕ
sent (read_done true (bytes b)) = b
sent _ = []

abbrev pub brought : List LoopEvent → List ℕ
brought [] = []
brought (e ∷ es) = sent e ++ brought es

abbrev pub brought_all : List (List LoopEvent) → List ℕ
brought_all [] = []
brought_all (es ∷ rest) = brought es ++ brought_all rest

-- The client is still connected and has `more` behind its queue, or the connection is gone.
abbrev Gathers : Client → List ℕ → Client → Type 0
Gathers c more c' =
    ((c'.state ≡ connected) × (flatten c'.read_queue ≡ flatten c.read_queue ++ more))
    ⊎ (is_open c' ≡ false)

apply-closed : (e : LoopEvent) (c : Client) → is_open c ≡ false → is_open (apply e c).0 ≡ false
unfolding apply run_connect run_write run_disconnect on_connect on_read
apply-closed (connect_request env) c h = ground arith
apply-closed (write_request env) c h = h
apply-closed disconnect_request c h = h
apply-closed (connect_done status now) c h = ground arith
apply-closed (read_done malloc_ok r) c h = ground arith

apply-Gathers :
    (e : LoopEvent) (c : Client) → c.state ≡ connected → Gathers c (sent e) (apply e c).0
unfolding apply run_connect run_write run_disconnect on_connect on_read flatten
apply-Gathers (connect_request env) c h = ground (arith, append-nil (flatten c.read_queue))
apply-Gathers (write_request env) c h = inl (h, sym (append-nil (flatten c.read_queue)))
apply-Gathers disconnect_request c h = inl (h, sym (append-nil (flatten c.read_queue)))
apply-Gathers (connect_done status now) c h = ground arith
apply-Gathers (read_done malloc_ok read_error) c h = ground arith
apply-Gathers (read_done false (bytes [])) c h = ground (arith, append-nil (flatten c.read_queue))
apply-Gathers (read_done false (bytes (x ∷ b))) c h =
    ground (arith, append-nil (flatten c.read_queue))
apply-Gathers (read_done true (bytes [])) c h = ground (arith, append-nil (flatten c.read_queue))
apply-Gathers (read_done true (bytes (x ∷ b))) c h =
    ground (arith, flatten-append c.read_queue ((x ∷ b) ∷ []), append-nil (x ∷ b))

apply_all-closed :
    (es : List LoopEvent) (c : Client) → is_open c ≡ false → is_open (apply_all es c).0 ≡ false
unfolding apply_all
apply_all-closed [] c h = h
apply_all-closed (e ∷ es) c h = apply_all-closed es (apply e c).0 (apply-closed e c h)

apply_all-Gathers :
    (es : List LoopEvent) (c : Client)
    → c.state ≡ connected
    → Gathers c (brought es) (apply_all es c).0
unfolding apply_all
apply_all-Gathers [] c h = inl (h, sym (append-nil (flatten c.read_queue)))
apply_all-Gathers (e ∷ es) c h = elim (apply-Gathers e c h) [
  | inr closed ↦ inr (apply_all-closed es (apply e c).0 closed)
  | inl (up, first) ↦ elim (apply_all-Gathers es (apply e c).0 up) [
    | inr closed ↦ inr closed
    | inl (still, others) ↦ inl (
      still,
      others
          ∙ ap (λ r. r ++ brought es) first
          ∙ append_assoc (flatten c.read_queue) (sent e) (brought es),
    )
  ]
]

-- A connection that is gone ends the poll without data.
read-closed : (now : ℕ) (c : Client) → is_open c ≡ false → (read now c).1 ≡ gone
unfolding read
read-closed now c h = ground arith

read-state : (now : ℕ) (c : Client) → (read now c).0.state ≡ c.state
unfolding read
read-state now c = by_queue c.read_queue (record c { last_access = now }) refl
  where
    by_queue :
        (queue : List (List ℕ)) (c' : Client)
        → c'.state ≡ c.state
        → (if not (is_connecting c.state) && not (is_connected c.state)
            then (c, gone)
            else take_chunk queue c').0.state
          ≡ c.state
    by_queue [] c' h = unfold take_chunk in ground arith
    by_queue (b ∷ queue) c' h = unfold take_chunk in ground arith

brought-take :
    (k : ℕ) (between : List (List LoopEvent))
    → brought (head between) ++ brought_all (take k (tail between))
      ≡ brought_all (take (suc k) between)
brought-take zero [] = refl
brought-take (suc k) [] = refl
brought-take k (es ∷ rest) = refl

-- What a poll has gathered: the text and what stays queued are what was there and what the backend
-- sent in the rounds so far.
abbrev pub Gathered : List ℕ → List (List LoopEvent) → (text : List ℕ) → Polled → Type 0
Gathered old between text p =
    (k : ℕ) × (text ++ flatten p.client.read_queue ≡ old ++ brought_all (take k between))

round-gone : (malloc : ℕ → Bool) (joined : List ℕ) → round malloc joined gone ≡ finished poll_gone
unfolding round
round-gone malloc joined = refl

not_gone :
    {text : List ℕ} (p : Polled) (c : Client) (effects : List Effect)
    → some p ≡ some (record { client = c; effects = effects; end = poll_gone })
    → p.end ≡ poll_data text
    → ⊥
not_gone p c effects h e = cc

poll_loop_gathers :
    (fuel : ℕ) (malloc : ℕ → Bool) (now : ℕ) (between : List (List LoopEvent))
    (joined text : List ℕ) (c : Client) (effects : List Effect) (p : Polled)
    → c.state ≡ connected
    → poll_loop fuel malloc now between joined c effects ≡ some p
    → p.end ≡ poll_data text
    → Gathered (joined ++ flatten c.read_queue) between text p
poll_loop_gathers zero malloc now between joined text c effects p up h e = unfold poll_loop in cc
poll_loop_gathers (suc fuel) malloc now between joined text c effects p up h e =
    let c1 = (apply_all (head between) c).0 in
    let more = effects ++ (apply_all (head between) c).1 in
    elim (apply_all-Gathers (head between) c up) [
      | inr closed ↦
          let f = ap (round malloc joined) (read-closed now c1 closed) ∙ round-gone malloc joined in
          absurd (
            not_gone p (read now c1).0 more
              (sym h ∙ poll_loop-finished fuel malloc now between joined c effects poll_gone f) e)
      | inl (still, queued) ↦
          let kept = read-Conserves malloc now joined c1 in
          let grown : joined ++ flatten c1.read_queue
              ≡ (joined ++ flatten c.read_queue) ++ brought (head between) =
            ap (λ r. joined ++ r) queued
            ∙ sym (append_assoc joined (flatten c.read_queue) (brought (head between))) in
          elim (round-cases (round malloc joined (read now c1).1)) [
            | inl (end, f) ↦ (
              1,
              finished-Conserves end (read now c1).0 more
                    (sym h ∙ poll_loop-finished fuel malloc now between joined c effects end f) e
                    (subst (λ r. Conserves (joined ++ flatten c1.read_queue) r (read now c1).0) f
                      kept)
                  ∙ grown
                  ∙ ap (λ r. (joined ++ flatten c.read_queue) ++ r)
                      (sym (append-nil (brought (head between))) ∙ brought-take 0 between),
            )
            | inr (joined', f) ↦
                let (k, rest) =
                  poll_loop_gathers fuel malloc now (tail between) joined' text (read now c1).0 more
                    p (read-state now c1 ∙ still)
                    (sym (poll_loop-onward fuel malloc now between joined c effects joined' f) ∙ h)
                    e in
                let conserved =
                  subst (λ r. Conserves (joined ++ flatten c1.read_queue) r (read now c1).0) f
                    kept in
                (
                  suc k,
                  rest
                      ∙ ap (λ r. r ++ brought_all (take k (tail between))) (conserved ∙ grown)
                      ∙ append_assoc (joined ++ flatten c.read_queue) (brought (head between))
                          (brought_all (take k (tail between)))
                      ∙ ap (λ r. (joined ++ flatten c.read_queue) ++ r) (brought-take k between),
                )
          ]
    ]

-- A poll of a connected client that answers data answers, in order, a front of what was queued and
-- of what the backend sent in the first rounds of the poll, whatever else the libuv thread does in
-- them; the rest stays queued, and nothing is lost or sent twice.
pub poll_gathers :
    (malloc : ℕ → Bool) (now : ℕ) (between : List (List LoopEvent)) (text : List ℕ) (c : Client)
    (p : Polled)
    → c.state ≡ connected
    → poll malloc now between c ≡ some p
    → p.end ≡ poll_data text
    → Gathered (flatten c.read_queue) between text p
unfolding poll
poll_gathers malloc now between text c p up h e =
    poll_loop_gathers (suc data_threshold) malloc now between [] text c [] p up h e
