-- ===== src/Server/QuietPoll.antt =====
-- The loop of Server::onPoll of src/linear_fcgi_server.cc for a connected client, while the libuv
-- thread is quiet and there is memory.
use linear_fcgi.Common.{ℕ, zero, suc, ◌≡◌, refl, sym, ap, ◌∙◌, ◌⊎◌, inl, inr, arith}
use linear_fcgi.Common.{true, List, [], ◌∷◌, ◌++◌, append_assoc, append-nil}
use linear_fcgi.Common.{some, ltb, length, Bool-cases}
use linear_fcgi.Client.State.{Client, Effect, connected}
use linear_fcgi.Client.Calls.{apply_all, take_chunk, read, nothing, chunk}
use linear_fcgi.Server.Poll.{
  finished, onward, round, Polled, poll_data, data_threshold, poll_loop, poll,
}
use linear_fcgi.Server.Polling.{poll_loop-finished, poll_loop-onward, poll_ends}
use mathlib.Core.List.{flatten}

-- A poll of a connected client while the libuv thread is quiet and there is memory: what it answers
-- and the client that it leaves.
abbrev pub QuietPoll : (now : ℕ) (joined : List ℕ) → Client → List Effect → Polled → Type 0
QuietPoll now joined c effects p =
    (text : List ℕ) × (left : List (List ℕ)) × (p ≡ record {
      client = record c { read_queue = left; last_access = now };
      effects = effects;
      end = poll_data text;
    })
    × (text ++ flatten left ≡ joined ++ flatten c.read_queue)

chunk-round :
    (joined buf : List ℕ)
    → (text : List ℕ) × ((round (λ n. true) joined (chunk buf) ≡ finished (poll_data text))
        ⊎ (round (λ n. true) joined (chunk buf) ≡ onward text))
      × (text ≡ joined ++ buf)
unfolding round
chunk-round joined [] = (joined, inl refl, sym (append-nil joined))
chunk-round joined (b ∷ buf) =
    let more : ltb 0 (length (b ∷ buf)) ≡ true = ground arith in
    elim (Bool-cases (ltb (length (joined ++ (b ∷ buf))) data_threshold)) [
      | inl again ↦ (joined ++ (b ∷ buf), inr (rw (more, again) refl), refl)
      | inr reached ↦ (joined ++ (b ∷ buf), inl (rw (more, reached) refl), refl)
    ]

abbrev pub ready : Client → List (List ℕ) → Client
ready c queue = record c { state = connected; read_queue = queue }

read_buffer :
    (now : ℕ) (buf : List ℕ) (queue : List (List ℕ)) (c : Client)
    → read now (ready c (buf ∷ queue))
      ≡ (record c { state = connected; read_queue = queue; last_access = now }, chunk buf)
unfolding read take_chunk
read_buffer now buf queue c = refl

read_empty :
    (now : ℕ) (c : Client)
    → read now (ready c [])
      ≡ (record c { state = connected; read_queue = []; last_access = now }, nothing)
unfolding read take_chunk
read_empty now c = refl

round-nothing : (joined : List ℕ) → round (λ n. true) joined nothing ≡ finished (poll_data joined)
unfolding round
round-nothing joined = refl

some_path : {a b : Polled} → some a ≡ some b → a ≡ b
some_path h = cc

poll_loop-QuietPoll :
    (fuel : ℕ) (now : ℕ) (joined : List ℕ) (queue : List (List ℕ)) (c : Client) (p : Polled)
    → poll_loop fuel (λ n. true) now [] joined (ready c queue) [] ≡ some p
    → QuietPoll now joined (ready c queue) [] p
unfolding apply_all flatten
poll_loop-QuietPoll zero now joined queue c p h = unfold poll_loop in cc
poll_loop-QuietPoll (suc fuel) now joined [] c p h =
    let e = ap (λ r. round (λ n. true) joined r.1) (read_empty now c) ∙ round-nothing joined in
    let ended =
      sym h
      ∙ poll_loop-finished fuel (λ n. true) now [] joined (ready c []) [] (poll_data joined) e in
    (
      joined,
      [],
      some_path ended
          ∙ ap (λ r. record { client = r.0; effects = []; end = poll_data joined })
              (read_empty now c),
      refl,
    )
poll_loop-QuietPoll (suc fuel) now joined (buf ∷ queue) c p h =
    let (text, kind, longer) = chunk-round joined buf in
    let reads = read_buffer now buf queue c in
    let same = ap (λ t. t ++ flatten queue) longer ∙ append_assoc joined buf (flatten queue) in
    elim kind [
      | inl e ↦
          let ended =
            sym h
            ∙ poll_loop-finished fuel (λ n. true) now [] joined (ready c (buf ∷ queue)) []
                (poll_data text) (ap (λ r. round (λ n. true) joined r.1) reads ∙ e) in
          (
            text,
            queue,
            some_path ended
                ∙ ap (λ r. record { client = r.0; effects = []; end = poll_data text }) reads,
            same,
          )
      | inr e ↦
          let goes_on =
            sym (
              poll_loop-onward fuel (λ n. true) now [] joined (ready c (buf ∷ queue)) [] text
                (ap (λ r. round (λ n. true) joined r.1) reads ∙ e))
            ∙ h in
          let (all, left, parts, kept) =
            poll_loop-QuietPoll fuel now text queue (record c { last_access = now }) p
              (ap (λ r. poll_loop fuel (λ n. true) now [] text r.0 []) (sym reads) ∙ goes_on) in
          (all, left, parts, kept ∙ same)
    ]

pub poll-QuietPoll :
    (now : ℕ) (c : Client)
    → (p : Polled) × (poll (λ n. true) now [] (ready c c.read_queue) ≡ some p)
      × QuietPoll now [] (ready c c.read_queue) [] p
unfolding poll
poll-QuietPoll now c =
    let (p, e) = poll_ends (λ n. true) now [] (ready c c.read_queue) in
    (p, e, poll_loop-QuietPoll (suc data_threshold) now [] c.read_queue c p e)
