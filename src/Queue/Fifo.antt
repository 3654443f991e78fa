-- ===== src/Queue/Fifo.antt =====
-- The queue of src/linear_fcgi_queue.h under every interleaving of the two threads: the order of the
-- values, the use of memory, and that what was produced can be consumed.
use linear_fcgi.Common.{ℕ, zero, suc, ◌+◌, ◌≤◌, ◌<◌, ◌≡◌, refl, ap, ◌∙◌, ◌≢◌, inl, inr, ◌↔◌, arith}
use linear_fcgi.Common.{false, List, [], ◌∷◌, ◌++◌, none, some, length, length-append}
use linear_fcgi.Queue.{
  Pointer, null, Memory, Queue, change, link, publish, reclaim, peek, advance, destroy,
}
use linear_fcgi.Queue.Chain.{Cells, has, head, IsDistinct, IsChain, IsChain-change}
use linear_fcgi.Queue.Layout.{Layout, waiting, link-Layout, publish-Layout, reclaim-Layout}
use linear_fcgi.Queue.Take.{advance-Layout}
use linear_fcgi.Queue.Threads.{
  Producer, at_rest, linked, sweeping, deleting, Consumer, idle, found, copied, System, started,
  Reach,
}
use linear_fcgi.Queue.Producing.{ProducerHas, ConsumerHas, Inv, started-Inv, uncons}
use linear_fcgi.Queue.Invariant.{divider-waiting, uncons_waiting, Reach-Inv}
use mathlib.Core.Path.{subst}

module _ {ℓ} {A : Type ℓ} where
  -- The values that wait: those published and not taken, in order. The test of `consume` tells
  -- whether there are any, and the value it has copied is the first of them.
  abbrev pub IsFifo : System A → Type ℓ
  IsFifo s =
      (rest : List A) × (s.produced ≡ s.consumed ++ rest)
      × ((s.queue.divider ≡ s.queue.last) ↔ (rest ≡ []))
      × ((t : A) → s.consumer ≡ copied t → (more : List A) × (rest ≡ t ∷ more))

  pub Inv-IsFifo : (s : System A) → Inv s → IsFifo s
  Inv-IsFifo s inv =
      let end : Pointer × A = (inv.end_at, inv.end_value) in
      (
        waiting inv.taken end,
        inv.fifo,
        elim (divider-waiting s inv) [
          | inl (same, e) ↦ (λ h. e, λ h. same)
          | inr (apart, t, rest, seen, e) ↦ (λ h. absurd (apart h), λ h. cc)
        ],
        λ t holds. subst (λ c. ConsumerHas c (waiting inv.taken end)) holds inv.consumer_has,
      )

  -- From a new queue on, under any interleaving of one producer and one consumer, the values taken
  -- are a front of the values published, in their order; `consume` finds the queue empty exactly
  -- when nothing else is published, and the value it has copied is the next one.
  pub queue-IsFifo :
      (t : A) (at : Pointer) (s : System A) → at ≢ null → Reach (started t at) s → IsFifo s
  queue-IsFifo t at s ne r = Inv-IsFifo s (Reach-Inv r (started-Inv t at ne))

  -- The next access of a thread finds its nodes.
  abbrev pub ProducerCan : Producer A → Queue A → Type ℓ
  ProducerCan at_rest q =
      (t : A) (at : Pointer)
      → q.nodes at ≡ none
      → at ≢ null
      → (q' : Queue A) × (link t at q ≡ some q')
  ProducerCan (linked t) q = (q' : Queue A) × (publish q ≡ some q')
  ProducerCan sweeping q = Unit {ℓ}
  ProducerCan deleting q = (q' : Queue A) × (reclaim q ≡ some q')

  abbrev pub ConsumerCan : Consumer A → Queue A → Type ℓ
  ConsumerCan idle q = Unit {ℓ}
  ConsumerCan found q = (t : A) × (peek q ≡ some t)
  ConsumerCan (copied t) q = (q' : Queue A) × (advance q ≡ some q')

  producer_can :
      (p : Producer A) (s : System A) (inv : Inv s)
      → ProducerHas p inv.garbage inv.fresh
      → ProducerCan p s.queue
  producer_can at_rest s inv none_fresh = λ t at unused ne.
      let before =
        subst (λ us. Layout s.queue inv.garbage inv.taken us (inv.end_at, inv.end_value)) none_fresh
          inv.layout in
      let (q', e, after) = link-Layout inv.end_at at inv.end_value t before unused ne in (q', e)
  producer_can (linked t) s inv (at, one_fresh) =
      let before =
        subst (λ us. Layout s.queue inv.garbage inv.taken us (inv.end_at, inv.end_value)) one_fresh
          inv.layout in
      let (q', e, after) = publish-Layout inv.end_at at inv.end_value t before in (q', e)
  producer_can sweeping s inv h = tt
  producer_can deleting s inv (none_fresh, more) =
      let (g, w, rest, split) = uncons inv.garbage more in
      let before =
        subst (λ gs. Layout s.queue gs inv.taken inv.fresh (inv.end_at, inv.end_value)) split
          inv.layout in
      let (q', e, after) = reclaim-Layout g w before in (q', e)

  pub consumer_can :
      (c : Consumer A) (s : System A) (inv : Inv s)
      → ConsumerHas c (waiting inv.taken (inv.end_at, inv.end_value))
      → ConsumerCan c s.queue
  consumer_can idle s inv h = tt
  consumer_can found s inv (t, ts, waits) = elim (divider-waiting s inv) [
    | inl (same, e) ↦ cc
    | inr (apart, u, rest, seen, e) ↦ (u, seen)
  ]
  consumer_can (copied t) s inv (ts, waits) =
      let (d, w, rest, split) = uncons_waiting inv.taken inv.end_at inv.end_value t ts waits in
      let before =
        subst (λ ds. Layout s.queue inv.garbage ds inv.fresh (inv.end_at, inv.end_value)) split
          inv.layout in
      let (q', e, after) = advance-Layout d w (inv.end_at, inv.end_value) before in (q', e)

  -- Under any such interleaving neither thread dereferences an address without a node: wherever it
  -- stands, its next access succeeds.
  pub queue_safe :
      (t : A) (at : Pointer) (s : System A)
      → at ≢ null
      → Reach (started t at) s
      → ProducerCan s.producer s.queue × ConsumerCan s.consumer s.queue
  queue_safe t at s ne r =
      let inv = Reach-Inv r (started-Inv t at ne) in
      (
        producer_can s.producer s inv inv.producer_has,
        consumer_can s.consumer s inv inv.consumer_has,
      )

  destroy_next :
      (fuel : ℕ) (memory : Memory A) (a target : Pointer) (v : A)
      → a ≢ null
      → memory a ≡ some (record { value = v; next = target })
      → destroy (suc fuel) a memory ≡ destroy fuel target (change a none memory)
  unfolding destroy
  destroy_next fuel memory a target v ne e = ground arith

  destroy-chain :
      (cells : Cells A) (fuel : ℕ) (memory : Memory A)
      → IsChain memory cells
      → IsDistinct cells
      → ((p : Pointer) → has p cells ≡ false → memory p ≡ none)
      → length cells < fuel
      → (m : Memory A) × (destroy fuel (head cells) memory ≡ some m) × ((p : Pointer) → m p ≡ none)
  unfolding destroy
  destroy-chain cells zero memory h d owned enough = absurd (omega arith)
  destroy-chain [] (suc fuel) memory h d owned enough = (memory, refl, λ p. owned p refl)
  destroy-chain ((a, v) ∷ cells) (suc fuel) memory (ne, e, h) (out, d) owned enough =
      let left = change a none memory in
      let (m, done, clear) =
        destroy-chain cells fuel left (IsChain-change memory a none cells h out) d
          (λ p outside. unfold change in ground (arith, owned p)) (omega arith) in
      (m, destroy_next fuel memory a (head cells) v ne e ∙ done, clear)

  length-parts :
      (gs ds us : Cells A) (end : Pointer × A)
      → length (gs ++ (ds ++ (end ∷ us))) ≡ length gs + length ds + 1 + length us
  length-parts gs ds us end =
      omega (arith, length-append gs (ds ++ (end ∷ us)), length-append ds (end ∷ us))

  few_fresh : (p : Producer A) (gs us : Cells A) → ProducerHas p gs us → length us ≤ 1
  few_fresh at_rest gs us h = omega (arith, ap length h)
  few_fresh (linked t) gs us (at, h) = omega (arith, ap length h)
  few_fresh sweeping gs us h = omega (arith, ap length h)
  few_fresh deleting gs us (h, n) = omega (arith, ap length h)

  -- Whenever both threads stop, the destructor ends and gives every node back: there is no leak,
  -- whatever was produced, consumed and deleted before.
  pub destroy_all :
      (t : A) (at : Pointer) (s : System A)
      → at ≢ null
      → Reach (started t at) s
      → (m : Memory A) × (destroy (length s.produced + 3) s.queue.first s.queue.nodes ≡ some m)
        × ((p : Pointer) → m p ≡ none)
  destroy_all t at s ne r =
      let inv = Reach-Inv r (started-Inv t at ne) in
      let y = inv.layout in
      let (m, done, clear) =
        destroy-chain y.all (length s.produced + 3) s.queue.nodes y.chain y.distinct y.owned (
          omega (
            arith,
            inv.few,
            ap length y.parts,
            length-parts inv.garbage inv.taken inv.fresh (inv.end_at, inv.end_value),
            few_fresh s.producer inv.garbage inv.fresh inv.producer_has,
          )) in
      (m, ap (λ p. destroy (length s.produced + 3) p s.queue.nodes) y.at_first ∙ done, clear)
