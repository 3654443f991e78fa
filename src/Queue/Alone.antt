-- ===== src/Queue/Alone.antt =====
-- The operations of src/linear_fcgi_queue.h while no other thread is in them, against a list.
use linear_fcgi.Common.{ℕ, zero, suc, ◌+◌, ◌<◌, ◌≡◌, refl, sym, ap, ◌∙◌, ◌≢◌, arith}
use linear_fcgi.Common.{true, false, List, [], ◌∷◌, ◌++◌, none, some, ◌==◌, length, length-append}
use linear_fcgi.Queue.{
  Pointer, null, Memory, Queue, construct, link, publish, reclaim, peek, advance, sweep, produce,
  consume, count, size,
}
use linear_fcgi.Queue.Chain.{Cells, head, values, IsChain}
use linear_fcgi.Queue.Layout.{
  Layout, waiting, construct-Layout, link-Layout, publish-Layout, reclaim-Layout,
}
use linear_fcgi.Queue.Take.{peek-waiting, advance-Layout, is_empty-Layout, swept-Layout}
use linear_fcgi.Queue.Producing.{waiting-publish}
use mathlib.Core.Path.{subst}

module _ {ℓ} {A : Type ℓ} where
  -- The queue stands for these values, and has this many nodes to delete.
  pub record Holds (q : Queue A) (ts : List A) (old : ℕ) : Type ℓ where
    pub garbage : Cells A
    pub taken : Cells A
    pub end_at : Pointer
    pub end_value : A
    pub layout : Layout q garbage taken [] (end_at, end_value)
    pub stands : waiting taken (end_at, end_value) ≡ ts
    pub counted : length garbage ≡ old

  sweep_done :
      (fuel : ℕ) (q : Queue A) → (q.first == q.divider) ≡ true → sweep (suc fuel) q ≡ some q
  unfolding sweep
  sweep_done fuel q e = ground arith

  sweep_more :
      (fuel : ℕ) (q q' : Queue A)
      → (q.first == q.divider) ≡ false
      → reclaim q ≡ some q'
      → sweep (suc fuel) q ≡ sweep fuel q'
  unfolding sweep
  sweep_more fuel q q' e r = ground arith

  sweep-Layout :
      (fuel : ℕ) (gs : Cells A) {q : Queue A} {ds us : Cells A} (l : Pointer) (v : A)
      → Layout q gs ds us (l, v)
      → length gs < fuel
      → (q' : Queue A) × (sweep fuel q ≡ some q') × Layout q' [] ds us (l, v)
  sweep-Layout zero gs l v y enough = absurd (omega arith)
  sweep-Layout (suc fuel) [] {q} l v y enough = (q, sweep_done fuel q (swept-Layout [] l v y), y)
  sweep-Layout (suc fuel) ((g, w) ∷ gs) {q} l v y enough =
      let (q1, reclaimed, y1) = reclaim-Layout g w y in
      let (q2, swept, y2) = sweep-Layout fuel gs l v y1 (omega arith) in
      (q2, sweep_more fuel q q1 (swept-Layout ((g, w) ∷ gs) l v y) reclaimed ∙ swept, y2)

  produce_parts :
      (fuel : ℕ) (t : A) (at : Pointer) (q q1 q2 : Queue A)
      → link t at q ≡ some q1
      → publish q1 ≡ some q2
      → produce fuel t at q ≡ sweep fuel q2
  unfolding produce
  produce_parts fuel t at q q1 q2 e1 e2 = rw (e1) (rw e2 refl)

  pub produce-Holds :
      (t : A) (at : Pointer) (q : Queue A) (ts : List A) (old : ℕ)
      → Holds q ts old
      → q.nodes at ≡ none
      → at ≢ null
      → (q' : Queue A) × (produce (old + 1) t at q ≡ some q') × Holds q' (ts ++ (t ∷ [])) 0
  produce-Holds t at q ts old h unused ne =
      let (q1, e1, y1) = link-Layout h.end_at at h.end_value t h.layout unused ne in
      let (q2, e2, y2) = publish-Layout h.end_at at h.end_value t y1 in
      let (q3, e3, y3) = sweep-Layout (old + 1) h.garbage at t y2 (omega (arith, h.counted)) in
      (
        q3,
        produce_parts (old + 1) t at q q1 q2 e1 e2 ∙ e3,
        record {
          garbage = [];
          taken = h.taken ++ ((h.end_at, h.end_value) ∷ []);
          end_at = at;
          end_value = t;
          layout = y3;
          stands =
              waiting-publish h.taken h.end_at at h.end_value t ∙ ap (λ r. r ++ (t ∷ [])) h.stands;
          counted = refl;
        },
      )

  consume_parts :
      (q q' : Queue A) (t : A)
      → (q.divider == q.last) ≡ false
      → peek q ≡ some t
      → advance q ≡ some q'
      → consume q ≡ some (q', some t)
  unfolding consume
  consume_parts q q' t e e1 e2 = rw (e, e1) (rw e2 refl)

  consume-none : (q : Queue A) → (q.divider == q.last) ≡ true → consume q ≡ some (q, none)
  unfolding consume
  consume-none q e = rw e refl

  -- What `consume` answers for a list, and what it leaves.
  abbrev pub Consumed : Queue A → List A → ℕ → Type ℓ
  Consumed q [] old = consume q ≡ some (q, none)
  Consumed q (t ∷ ts) old = (q' : Queue A) × (consume q ≡ some (q', some t)) × Holds q' ts (old + 1)

  consume-Layout :
      (ds : Cells A) (q : Queue A) (gs : Cells A) (l : Pointer) (v : A)
      → Layout q gs ds [] (l, v)
      → Consumed q (waiting ds (l, v)) (length gs)
  consume-Layout [] q gs l v y = consume-none q (is_empty-Layout [] l v y)
  consume-Layout ((d, w) ∷ ds) q gs l v y =
      let (t, seen, first) = peek-waiting ds d l w v y in
      let (q', moved, after) = advance-Layout d w (l, v) y in
      subst (λ ts. Consumed q ts (length gs)) (sym first)
        (
          q',
          consume_parts q q' t (is_empty-Layout ((d, w) ∷ ds) l v y) seen moved,
          record {
            garbage = gs ++ ((d, w) ∷ []);
            taken = ds;
            end_at = l;
            end_value = v;
            layout = after;
            stands = refl;
            counted = omega (arith, length-append gs ((d, w) ∷ []));
          },
        )

  pub consume-Holds : (q : Queue A) (ts : List A) (old : ℕ) → Holds q ts old → Consumed q ts old
  consume-Holds q ts old h =
      subst (λ n. Consumed q ts n) h.counted
        (subst (λ r. Consumed q r (length h.garbage)) h.stands
          (consume-Layout h.taken q h.garbage h.end_at h.end_value h.layout))

  count_none : (fuel : ℕ) (memory : Memory A) → count (suc fuel) memory null ≡ some 0
  unfolding count
  count_none fuel memory = refl

  count_next :
      (fuel : ℕ) (memory : Memory A) (a target : Pointer) (v : A) (n : ℕ)
      → a ≢ null
      → memory a ≡ some (record { value = v; next = target })
      → count fuel memory target ≡ some n
      → count (suc fuel) memory a ≡ some (suc n)
  unfolding count
  count_next fuel memory a target v n ne e c = ground arith

  count-chain :
      (fuel : ℕ) (memory : Memory A) (cells : Cells A)
      → IsChain memory cells
      → length cells < fuel
      → count fuel memory (head cells) ≡ some (length (values cells))
  count-chain zero memory cells h enough = absurd (omega arith)
  count-chain (suc fuel) memory [] h enough = count_none fuel memory
  count-chain (suc fuel) memory ((a, v) ∷ cells) (ne, e, h) enough =
      count_next fuel memory a (head cells) v (length (values cells)) ne e
        (count-chain fuel memory cells h (omega arith))

  IsChain-suffix :
      (memory : Memory A) (xs ys : Cells A) → IsChain memory (xs ++ ys) → IsChain memory ys
  IsChain-suffix memory [] ys h = h
  IsChain-suffix memory (x ∷ xs) ys h = IsChain-suffix memory xs ys h.2

  length-values : (cells : Cells A) → length (values cells) ≡ length cells
  length-values [] = refl
  length-values (c ∷ cells) = omega (arith, length-values cells)

  size_from :
      (fuel : ℕ) (q : Queue A) (d target : Pointer) (w : A)
      → q.divider ≡ d
      → q.nodes d ≡ some (record { value = w; next = target })
      → size fuel q ≡ count fuel q.nodes target
  unfolding size
  size_from fuel q d target w same e = rw (ap q.nodes same ∙ e) refl

  size-Layout :
      (ds : Cells A) (fuel : ℕ) (q : Queue A) (gs : Cells A) (l : Pointer) (v : A)
      → Layout q gs ds [] (l, v)
      → length (waiting ds (l, v)) < fuel
      → size fuel q ≡ some (length (waiting ds (l, v)))
  size-Layout [] fuel q gs l v y enough =
      let chain =
        IsChain-suffix q.nodes gs ((l, v) ∷ []) (subst (IsChain q.nodes) y.parts y.chain) in
      size_from fuel q l null v y.at_divider chain.1 ∙ count-chain fuel q.nodes [] tt enough
  size-Layout ((d, w) ∷ ds) fuel q gs l v y enough =
      let rest = ds ++ ((l, v) ∷ []) in
      let chain =
        IsChain-suffix q.nodes gs ((d, w) ∷ rest) (subst (IsChain q.nodes) y.parts y.chain) in
      size_from fuel q d (head rest) w y.at_divider chain.1
      ∙ count-chain fuel q.nodes rest chain.2 (omega (arith, length-values rest))

  -- A queue that no other thread is in works as a list: the constructor makes the empty one; from a
  -- queue that stands for `ts`, `produce` at a free address ends and leaves one for `ts` with the
  -- value behind, with no node left to delete; `consume` takes the first value, or says that there
  -- is none and changes nothing; `size` counts the values.
  pub queue_works :
      (t : A) (at : Pointer) (q : Queue A) (ts : List A) (old : ℕ)
      → Holds q ts old
      → at ≢ null
      → q.nodes at ≡ none
      → Holds (construct t at) [] 0
        × ((q' : Queue A) × (produce (old + 1) t at q ≡ some q') × Holds q' (ts ++ (t ∷ [])) 0)
        × Consumed q ts old
        × (size (length ts + 1) q ≡ some (length ts))
  queue_works t at q ts old h ne unused = (
    record {
      garbage = [];
      taken = [];
      end_at = at;
      end_value = t;
      layout = construct-Layout t at ne;
      stands = refl;
      counted = refl;
    },
    produce-Holds t at q ts old h unused ne,
    consume-Holds q ts old h,
    subst (λ r. size (length r + 1) q ≡ some (length r)) h.stands
        (size-Layout h.taken (length (waiting h.taken (h.end_at, h.end_value)) + 1) q h.garbage
          h.end_at h.end_value h.layout (omega arith)),
  )
