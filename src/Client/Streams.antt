-- ===== src/Client/Streams.antt =====
-- The two streams of src/linear_fcgi_client.cc: bytes from the backend through `onRead` and `read`,
-- and messages to it through `write` and `_write`.
use linear_fcgi.Common.{ℕ, zero, suc, ◌+◌, ◌≤◌, ◌≡◌, refl, sym, ap, ◌∙◌, ◌⊎◌, inl, inr, arith}
use linear_fcgi.Common.{true, false, List, [], ◌∷◌, ◌++◌, append-nil, append_assoc}
use linear_fcgi.Common.{none, some, Bool-cases, Option-cases, length, length-append, flatten-append}
use linear_fcgi.Common.{c_str, c_str_of_chars, All, IsChar}
use linear_fcgi.Url.{url_encode, url_decode}
use linear_fcgi.Url.Bounds.{url_encode-IsChar}
use linear_fcgi.Url.RoundTrip.{url_decode-encoded}
use linear_fcgi.Client.State.{connected, Effect, Client}
use linear_fcgi.Client.Callbacks.{
  WriteEnv, decode_message, write_one, write_loop, run_write, on_read, bytes,
}
use linear_fcgi.Client.Calls.{read, chunk, ReadReply}
use mathlib.Core.Path.{subst}
use mathlib.Core.List.{flatten}

-- The callbacks for a list of reads, with the memory for each.
unfoldable pub on_reads : List (List ℕ) → Client → Client
on_reads [] c = c
on_reads (b ∷ bs) c = on_reads bs (on_read true (bytes b) c).0

data_of : ReadReply → List ℕ
data_of (chunk buf) = buf
data_of _ = []

-- What `rounds` calls of `read` return, joined.
unfoldable pub received : (rounds now : ℕ) → Client → List ℕ
unfolding data_of
received zero now c = []
received (suc rounds) now c =
    let (c', reply) = read now c in data_of reply ++ received rounds now c'

on_read-queue :
    (b : List ℕ) (c : Client)
    → c.state ≡ connected
    → (flatten (on_read true (bytes b) c).0.read_queue ≡ flatten c.read_queue ++ b)
      × ((on_read true (bytes b) c).0.state ≡ connected)
      × (length (on_read true (bytes b) c).0.read_queue ≤ length c.read_queue + 1)
unfolding on_read flatten
on_read-queue [] c h = ground (arith, append-nil (flatten c.read_queue))
on_read-queue (x ∷ b) c h = ground (
  arith,
  flatten-append c.read_queue ((x ∷ b) ∷ []),
  append-nil (x ∷ b),
  length-append c.read_queue ((x ∷ b) ∷ []),
)

on_reads-queue :
    (bs : List (List ℕ)) (c : Client)
    → c.state ≡ connected
    → (flatten (on_reads bs c).read_queue ≡ flatten c.read_queue ++ flatten bs)
      × ((on_reads bs c).state ≡ connected)
      × (length (on_reads bs c).read_queue ≤ length c.read_queue + length bs)
unfolding on_reads flatten
on_reads-queue [] c h = (sym (append-nil _), h, omega arith)
on_reads-queue (b ∷ bs) c h =
    let (whole, still, short) = on_read-queue b c h in
    let (rest, stays, fits) = on_reads-queue bs (on_read true (bytes b) c).0 still in
    (
      rest ∙ ap (λ t. t ++ flatten bs) whole ∙ append_assoc (flatten c.read_queue) b (flatten bs),
      stays,
      omega arith,
    )

received-queue :
    (rounds now : ℕ) (queue : List (List ℕ)) (c : Client)
    → c.state ≡ connected
    → c.read_queue ≡ queue
    → length queue ≤ rounds
    → received rounds now c ≡ flatten queue
unfolding received read flatten
received-queue zero now [] c h e fit = refl
received-queue zero now (b ∷ queue) c h e fit = absurd (omega arith)
received-queue (suc rounds) now [] c h e fit =
    ground (arith, received-queue rounds now [] (read now c).0)
received-queue (suc rounds) now (b ∷ queue) c h e fit =
    ground (arith, received-queue rounds now queue (read now c).0)

-- What a connected client is given by the backend, in reads of any size, comes out of `read` whole
-- and in order, behind what was in the queue, when `read` is called often enough.
pub received-on_reads :
    (bs : List (List ℕ)) (rounds now : ℕ) (c : Client)
    → c.state ≡ connected
    → length c.read_queue + length bs ≤ rounds
    → received rounds now (on_reads bs c) ≡ flatten c.read_queue ++ flatten bs
received-on_reads bs rounds now c h fit =
    let (same, still, short) = on_reads-queue bs c h in
    received-queue rounds now (on_reads bs c).read_queue (on_reads bs c) still refl (omega arith)
    ∙ same

-- The sends for messages that decode, without those that uv_write refuses.
unfoldable pub sends : WriteEnv → List (List ℕ) → List Effect
sends env [] = []
sends env (text ∷ texts) = elim (decode_message env text) [
  | none ↦ sends env texts
  | some b ↦ write_one env b (sends env texts)
]

-- The text is one that `_write` stops at.
abbrev pub Stops : WriteEnv → List ℕ → Type 0
Stops env text = (decode_message env text ≡ none) ⊎ (env.req_malloc_ok ≡ false)

abbrev pub Decodes : WriteEnv → List ℕ → Type 0
Decodes env text = (b : List ℕ) × (decode_message env text ≡ some b)

-- The queue was the front alone, or it went on with a text that `_write` stops at.
abbrev pub Ends : WriteEnv → (front queue left : List (List ℕ)) → Type 0
Ends env front queue left =
    ((queue ≡ front) × (left ≡ []))
    ⊎ ((text : List ℕ) × Stops env text × (queue ≡ front ++ (text ∷ left)))

-- How far a round of `_write` came: what it sent, and what is left of the queue.
abbrev pub Progress : WriteEnv → (queue left : List (List ℕ)) → List Effect → Type 0
Progress env queue left effects =
    (front : List (List ℕ)) × All (Decodes env) front
    × (effects ≡ sends env front)
    × Ends env front queue left

Ends-cons :
    (env : WriteEnv) (text : List ℕ) (front queue left : List (List ℕ))
    → Ends env front queue left
    → Ends env (text ∷ front) (text ∷ queue) left
Ends-cons env text front queue left (inl (e, l)) = inl (ap (λ t. text ∷ t) e, l)
Ends-cons env text front queue left (inr (bad, stops, e)) = inr (bad, stops, ap (λ t. text ∷ t) e)

write_loop-Stops :
    (env : WriteEnv) (text : List ℕ) (queue : List (List ℕ))
    → Stops env text
    → write_loop env (text ∷ queue) ≡ (queue, [])
unfolding write_loop
write_loop-Stops env text queue h = elim (Option-cases (decode_message env text)) [
  | inl e ↦ rw (e, write_loop)
  | inr (b, e) ↦ ground arith
]

write_loop-sent :
    (env : WriteEnv) (text b : List ℕ) (queue : List (List ℕ))
    → decode_message env text ≡ some b
    → env.req_malloc_ok ≡ true
    → write_loop env (text ∷ queue)
      ≡ ((write_loop env queue).0, write_one env b (write_loop env queue).1)
unfolding write_loop
write_loop-sent env text b queue e m = rw (e, write_loop, m)

sends-cons :
    (env : WriteEnv) (text b : List ℕ) (texts : List (List ℕ))
    → decode_message env text ≡ some b
    → sends env (text ∷ texts) ≡ write_one env b (sends env texts)
unfolding sends
sends-cons env text b texts e = rw (e, sends)

write_loop-Progress :
    (env : WriteEnv) (queue : List (List ℕ))
    → Progress env queue (write_loop env queue).0 (write_loop env queue).1
write_loop-Progress env [] =
    ([], tt, unfold write_loop sends in refl, inl (refl, unfold write_loop in refl))
write_loop-Progress env (text ∷ queue) = elim (Option-cases (decode_message env text)) [
  | inl e ↦ stopped (inl e)
  | inr (b, e) ↦ elim (Bool-cases env.req_malloc_ok) [
    | inl m ↦
        let (front, all, sent, end) = write_loop-Progress env queue in
        subst (λ r. Progress env (text ∷ queue) r.0 r.1)
          (sym (write_loop-sent env text b queue e m))
          (
            text ∷ front,
            ((b, e), all),
            ap (write_one env b) sent ∙ sym (sends-cons env text b front e),
            Ends-cons env text front queue _ end,
          )
    | inr m ↦ stopped (inr m)
  ]
]
  where
    stopped :
        Stops env text
        → Progress env
            (text ∷ queue)
            (write_loop env (text ∷ queue)).0
            (write_loop env (text ∷ queue)).1
    stopped h =
        subst (λ r. Progress env (text ∷ queue) r.0 r.1) (sym (write_loop-Stops env text queue h))
          ([], tt, unfold sends in refl, inr (text, h, refl))

-- `_write` sends, in order, the messages of a front of the queue, all of which decode, but for those
-- that uv_write refuses. Then the
-- queue is empty, or it went on with a message that does not decode or found no memory, which is
-- dropped, and the messages behind that one stay queued.
pub run_write-Progress :
    (env : WriteEnv) (c : Client)
    → Progress env c.write_queue (run_write env c).0.write_queue (run_write env c).1
unfolding run_write
run_write-Progress env c = write_loop-Progress env c.write_queue

decode_message-url_decode :
    (env : WriteEnv) (encoded text : List ℕ)
    → url_decode env.malloc (c_str encoded) ≡ some text
    → decode_message env encoded ≡ env.base64_decode (c_str text)
unfolding decode_message
decode_message-url_decode env encoded text e = rw (e, decode_message)

-- A client may send `url_encode` of a Base64 text: when no allocation fails, `_write` recovers from
-- it the bytes that the Base64 decoder reads in that text.
pub decode_message-url_encode :
    (env : WriteEnv) (text encoded decoded : List ℕ)
    → ((n : ℕ) → env.malloc n ≡ true)
    → All IsChar text
    → env.base64_decode text ≡ some decoded
    → url_encode env.malloc text ≡ some encoded
    → decode_message env encoded ≡ some decoded
decode_message-url_encode env text encoded decoded ok h b e =
    decode_message-url_decode env encoded text (
      rw (c_str_of_chars encoded (url_encode-IsChar env.malloc text encoded h e))
        (url_decode-encoded env.malloc text encoded ok h e))
    ∙ ap env.base64_decode (c_str_of_chars text h)
    ∙ b
