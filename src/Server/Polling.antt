-- ===== src/Server/Polling.antt =====
-- The loop of Server::onPoll of src/linear_fcgi_server.cc: it ends, and what it answers.
use linear_fcgi.Common.{ℕ, zero, suc, ◌+◌, ◌<◌, ◌≡◌, refl, sym, ap, ◌∙◌, ◌⊎◌, inl, inr, arith}
use linear_fcgi.Common.{Bool, true, not, List, [], ◌∷◌, ◌++◌, append_assoc}
use linear_fcgi.Common.{some, ltb, length, length-append, ◌&&◌, Bool-cases}
use linear_fcgi.Client.State.{Client, Effect, is_connecting, is_connected}
use linear_fcgi.Client.Calls.{
  LoopEvent, apply_all, take_chunk, read, ReadReply, gone, nothing, chunk,
}
use linear_fcgi.Server.Poll.{
  Round, finished, onward, round, head, tail, Polled, PollEnd, poll_gone, no_memory, poll_data,
  data_threshold, poll_loop, poll,
}
use mathlib.Core.List.{flatten}
use mathlib.Core.Path.{subst}

pub round-cases :
    (r : Round) → ((end : PollEnd) × (r ≡ finished end)) ⊎ ((joined : List ℕ) × (r ≡ onward joined))
round-cases (finished end) = inl (end, refl)
round-cases (onward joined) = inr (joined, refl)

-- A round that goes on has a longer text, which is below the threshold.
round-onward :
    (malloc : ℕ → Bool) (joined joined' : List ℕ) (reply : ReadReply)
    → round malloc joined reply ≡ onward joined'
    → (length joined < length joined') × (length joined' < data_threshold)
unfolding round
round-onward malloc joined joined' gone h = cc
round-onward malloc joined joined' nothing h = cc
round-onward malloc joined joined' (chunk buf) h = ground (arith, length-append joined buf)

module _ (fuel : ℕ) (malloc : ℕ → Bool) (now : ℕ) (between : List (List LoopEvent))
    (joined : List ℕ) (c : Client) (effects : List Effect) where
  pub poll_loop-finished :
      (end : PollEnd)
      → round malloc joined (read now (apply_all (head between) c).0).1 ≡ finished end
      → poll_loop (suc fuel) malloc now between joined c effects
        ≡ some (record {
          client = (read now (apply_all (head between) c).0).0;
          effects = effects ++ (apply_all (head between) c).1;
          end = end;
        })
  unfolding poll_loop
  poll_loop-finished end e = rw (e, poll_loop)

  pub poll_loop-onward :
      (joined' : List ℕ)
      → round malloc joined (read now (apply_all (head between) c).0).1 ≡ onward joined'
      → poll_loop (suc fuel) malloc now between joined c effects
        ≡ poll_loop fuel malloc now
            (tail between)
            joined'
            (read now (apply_all (head between) c).0).0
            (effects ++ (apply_all (head between) c).1)
  unfolding poll_loop
  poll_loop-onward joined' e = rw (e, poll_loop)

-- The round ends the loop, or goes on with a longer text that is below the threshold.
poll_loop_ends :
    (fuel : ℕ) (malloc : ℕ → Bool) (now : ℕ) (between : List (List LoopEvent)) (joined : List ℕ)
    (c : Client) (effects : List Effect)
    → data_threshold < length joined + fuel
    → length joined < data_threshold
    → (p : Polled) × (poll_loop fuel malloc now between joined c effects ≡ some p)
unfolding poll_loop
poll_loop_ends zero malloc now between joined c effects enough below = absurd (omega arith)
poll_loop_ends (suc fuel) malloc now between joined c effects enough below =
    elim (round-cases (round malloc joined (read now (apply_all (head between) c).0).1)) [
      | inl (end, e) ↦ (_, poll_loop-finished fuel malloc now between joined c effects end e)
      | inr (joined', e) ↦
          let (longer, short) =
            round-onward malloc joined joined' (read now (apply_all (head between) c).0).1 e in
          let (p, ended) =
            poll_loop_ends fuel malloc now (tail between) joined' _
              (effects ++ (apply_all (head between) c).1) (omega arith) short in
          (p, poll_loop-onward fuel malloc now between joined c effects joined' e ∙ ended)
    ]

-- Whatever the libuv thread does between the rounds, the loop of a poll ends.
pub poll_ends :
    (malloc : ℕ → Bool) (now : ℕ) (between : List (List LoopEvent)) (c : Client)
    → (p : Polled) × (poll malloc now between c ≡ some p)
unfolding poll
poll_ends malloc now between c =
    poll_loop_ends (suc data_threshold) malloc now between [] c [] (omega arith) (omega arith)

-- A text and what stays queued, as the round leaves them.
abbrev pub Conserves : (all : List ℕ) → Round → Client → Type 0
Conserves all (finished (poll_data text)) c = text ++ flatten c.read_queue ≡ all
Conserves all (finished _) c = Unit
Conserves all (onward text) c = text ++ flatten c.read_queue ≡ all

round-chunk :
    (malloc : ℕ → Bool) (joined buf : List ℕ) (c : Client)
    → Conserves (joined ++ (buf ++ flatten c.read_queue)) (round malloc joined (chunk buf)) c
unfolding round
round-chunk malloc joined [] c = refl
round-chunk malloc joined (b ∷ buf) c =
    let more : ltb 0 (length (b ∷ buf)) ≡ true = ground arith in
    elim (Bool-cases (malloc (length (joined ++ (b ∷ buf))))) [
      | inr full ↦ rw (more, full) tt
      | inl memory ↦ elim (Bool-cases (ltb (length (joined ++ (b ∷ buf))) data_threshold)) [
        | inr reached ↦
            rw (more, memory, reached) (append_assoc joined (b ∷ buf) (flatten c.read_queue))
        | inl again ↦
            rw (more, memory, again) (append_assoc joined (b ∷ buf) (flatten c.read_queue))
      ]
    ]

take_chunk-Conserves :
    (malloc : ℕ → Bool) (joined : List ℕ) (queue : List (List ℕ)) (c : Client)
    → c.read_queue ≡ queue
    → Conserves
        (joined ++ flatten queue)
        (round malloc joined (take_chunk queue c).1)
        (take_chunk queue c).0
unfolding take_chunk flatten
take_chunk-Conserves malloc joined [] c h = unfold round in ap (λ q. joined ++ flatten q) h
take_chunk-Conserves malloc joined (buf ∷ queue) c h =
    round-chunk malloc joined buf (record c { read_queue = queue })

-- What a round adds to its text, it takes from the queue.
pub read-Conserves :
    (malloc : ℕ → Bool) (now : ℕ) (joined : List ℕ) (c : Client)
    → Conserves (joined ++ flatten c.read_queue) (round malloc joined (read now c).1) (read now c).0
unfolding read
read-Conserves malloc now joined c =
    elim (Bool-cases (not (is_connecting c.state) && not (is_connected c.state))) [
      | inl closed ↦ rw closed (unfold round in tt)
      | inr opened ↦
          rw opened
            (take_chunk-Conserves malloc joined c.read_queue (record c { last_access = now }) refl)
    ]

pub finished-Conserves :
    {all text : List ℕ} {p : Polled} (end : PollEnd) (c : Client) (effects : List Effect)
    → some p ≡ some (record { client = c; effects = effects; end = end })
    → p.end ≡ poll_data text
    → Conserves all (finished end) c
    → text ++ flatten p.client.read_queue ≡ all
finished-Conserves poll_gone c effects h e kept = cc
finished-Conserves no_memory c effects h e kept = cc
finished-Conserves (poll_data text) c effects h e kept = cc

poll_loop-conserves :
    (fuel : ℕ) (malloc : ℕ → Bool) (now : ℕ) (joined text : List ℕ) (c : Client)
    (effects : List Effect) (p : Polled)
    → poll_loop fuel malloc now [] joined c effects ≡ some p
    → p.end ≡ poll_data text
    → text ++ flatten p.client.read_queue ≡ joined ++ flatten c.read_queue
unfolding apply_all
poll_loop-conserves zero malloc now joined text c effects p h e = unfold poll_loop in cc
poll_loop-conserves (suc fuel) malloc now joined text c effects p h e =
    let kept = read-Conserves malloc now joined c in
    elim (round-cases (round malloc joined (read now c).1)) [
      | inl (end, f) ↦
          finished-Conserves end (read now c).0 (effects ++ [])
            (sym h ∙ poll_loop-finished fuel malloc now [] joined c effects end f) e
            (subst (λ r. Conserves (joined ++ flatten c.read_queue) r (read now c).0) f kept)
      | inr (joined', f) ↦
          poll_loop-conserves fuel malloc now joined' text (read now c).0 (effects ++ []) p
            (sym (poll_loop-onward fuel malloc now [] joined c effects joined' f) ∙ h) e
          ∙ subst (λ r. Conserves (joined ++ flatten c.read_queue) r (read now c).0) f kept
    ]

-- While the libuv thread is quiet, a poll that answers data answers a front of what is queued, in
-- order, and the rest stays queued.
pub poll_conserves :
    (malloc : ℕ → Bool) (now : ℕ) (text : List ℕ) (c : Client) (p : Polled)
    → poll malloc now [] c ≡ some p
    → p.end ≡ poll_data text
    → text ++ flatten p.client.read_queue ≡ flatten c.read_queue
unfolding poll
poll_conserves malloc now text c p h e =
    poll_loop-conserves (suc data_threshold) malloc now [] text c [] p h e
