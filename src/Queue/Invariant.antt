-- ===== src/Queue/Invariant.antt =====
-- What every step of the two threads of src/linear_fcgi_queue.h keeps.
use linear_fcgi.Common.{◌≡◌, refl, sym, ap, ◌∙◌, ◌≢◌, ◌⊎◌, inl, inr, arith}
use linear_fcgi.Common.{List, [], ◌∷◌, ◌++◌, some, length, length-append}
use linear_fcgi.Common.{append_assoc}
use linear_fcgi.Queue.{Pointer, Queue, peek, advance}
use linear_fcgi.Queue.Chain.{Cells}
use linear_fcgi.Queue.Layout.{Layout, waiting}
use linear_fcgi.Queue.Take.{peek-waiting, advance-Layout, is_empty-Layout}
use linear_fcgi.Queue.Threads.{
  Consumer, idle, found, copied, System, Step, link_step, publish_step, swept_step, sweep_step,
  delete_step, empty_step, find_step, copy_step, advance_step, Reach, here, next,
}
use linear_fcgi.Queue.Producing.{
  ConsumerHas, Inv, ProducerHas-more, same_some, link-Inv, publish-Inv, delete-Inv, sweep-Inv,
  swept-Inv,
}
use mathlib.Core.Path.{subst}

module _ {ℓ} {A : Type ℓ} where
  -- Something waits.
  pub uncons_waiting :
      (taken : Cells A) (l : Pointer) (v t : A) (ts : List A)
      → waiting taken (l, v) ≡ t ∷ ts
      → (d : Pointer) × (w : A) × (rest : Cells A) × (taken ≡ (d, w) ∷ rest)
  uncons_waiting [] l v t ts h = cc
  uncons_waiting ((d, w) ∷ rest) l v t ts h = (d, w, rest, refl)

  advance-Inv :
      (s : System A) (t : A) (q : Queue A)
      → s.consumer ≡ copied t
      → advance s.queue ≡ some q
      → Inv s
      → Inv (record s { queue = q; consumer = idle; consumed = s.consumed ++ (t ∷ []) })
  advance-Inv s t q holds e inv =
      let end : Pointer × A = (inv.end_at, inv.end_value) in
      let (ts, waits) = subst (λ c. ConsumerHas c (waiting inv.taken end)) holds inv.consumer_has in
      let (d, w, rest, split) = uncons_waiting inv.taken inv.end_at inv.end_value t ts waits in
      let before = subst (λ ds. Layout s.queue inv.garbage ds inv.fresh end) split inv.layout in
      let (v, seen, first_waits) = peek-waiting rest d inv.end_at w inv.end_value before in
      let (q', e', after) = advance-Layout d w end before in
      let left : waiting inv.taken end ≡ t ∷ waiting rest end =
        cc (waits, first_waits, ap (λ ds. waiting ds end) split) in
      record {
        garbage = inv.garbage ++ ((d, w) ∷ []);
        taken = rest;
        fresh = inv.fresh;
        end_at = inv.end_at;
        end_value = inv.end_value;
        layout =
            subst (λ r. Layout r (inv.garbage ++ ((d, w) ∷ [])) rest inv.fresh end)
              (same_some q' q e' e) after;
        producer_has = ProducerHas-more s.producer inv.garbage inv.fresh d w inv.producer_has;
        consumer_has = tt;
        fifo =
            inv.fifo
            ∙ ap (λ r. s.consumed ++ r) left
            ∙ sym (append_assoc s.consumed (t ∷ []) (waiting rest end));
        few = omega (arith, inv.few, ap length split, length-append inv.garbage ((d, w) ∷ []));
      }

  consumer-Inv :
      (s : System A) (c : Consumer A) (inv : Inv s)
      → ConsumerHas c (waiting inv.taken (inv.end_at, inv.end_value))
      → Inv (record s { consumer = c })
  consumer-Inv s c inv has = record {
    garbage = inv.garbage;
    taken = inv.taken;
    fresh = inv.fresh;
    end_at = inv.end_at;
    end_value = inv.end_value;
    layout = inv.layout;
    producer_has = inv.producer_has;
    consumer_has = has;
    fifo = inv.fifo;
    few = inv.few;
  }

  -- The test of `consume` shows whether something waits.
  pub divider-waiting :
      (s : System A) (inv : Inv s)
      → let ts = waiting inv.taken (inv.end_at, inv.end_value) in
        ((s.queue.divider ≡ s.queue.last) × (ts ≡ []))
        ⊎ ((s.queue.divider ≢ s.queue.last)
            × (t : A) × (rest : List A) × (peek s.queue ≡ some t)
            × (ts ≡ t ∷ rest))
  divider-waiting s inv = by_taken inv.taken inv.layout
    where
      by_taken :
          (ds : Cells A)
          → Layout s.queue inv.garbage ds inv.fresh (inv.end_at, inv.end_value)
          → let ts = waiting ds (inv.end_at, inv.end_value) in
            ((s.queue.divider ≡ s.queue.last) × (ts ≡ []))
            ⊎ ((s.queue.divider ≢ s.queue.last)
                × (t : A) × (rest : List A) × (peek s.queue ≡ some t)
                × (ts ≡ t ∷ rest))
      by_taken [] y = inl (y.at_divider ∙ sym y.at_last, refl)
      by_taken ((d, w) ∷ ds) y =
          let (t, seen, waits) = peek-waiting ds d inv.end_at w inv.end_value y in
          let apart = is_empty-Layout ((d, w) ∷ ds) inv.end_at inv.end_value y in
          inr (ground arith, t, waiting ds (inv.end_at, inv.end_value), seen, waits)

  find-Inv :
      (s : System A) → s.queue.divider ≢ s.queue.last → Inv s → Inv (record s { consumer = found })
  find-Inv s apart inv = elim (divider-waiting s inv) [
    | inl (same, e) ↦ absurd (apart same)
    | inr (other, t, rest, seen, waits) ↦ consumer-Inv s found inv (t, rest, waits)
  ]

  copy-Inv :
      (s : System A) (t : A)
      → s.consumer ≡ found
      → peek s.queue ≡ some t
      → Inv s
      → Inv (record s { consumer = copied t })
  copy-Inv s t finds sees inv = elim (divider-waiting s inv) [
    | inl (same, e) ↦
        let (u, us, waits) =
          subst (λ c. ConsumerHas c (waiting inv.taken (inv.end_at, inv.end_value))) finds
            inv.consumer_has in
        cc
    | inr (other, u, rest, seen, waits) ↦ consumer-Inv s (copied t) inv (rest, cc)
  ]

  pub Step-Inv : {s s' : System A} → Step s s' → Inv s → Inv s'
  Step-Inv {s} (link_step t at {q} rests unused ne e) inv = link-Inv s t at q rests unused ne e inv
  Step-Inv {s} (publish_step t {q} links e) inv = publish-Inv s t q links e inv
  Step-Inv {s} (swept_step sweeps same) inv = swept-Inv s sweeps inv
  Step-Inv {s} (sweep_step sweeps apart) inv = sweep-Inv s sweeps apart inv
  Step-Inv {s} (delete_step {q} deletes e) inv = delete-Inv s q deletes e inv
  Step-Inv {s} (empty_step rests same) inv = inv
  Step-Inv {s} (find_step rests apart) inv = find-Inv s apart inv
  Step-Inv {s} (copy_step t finds e) inv = copy-Inv s t finds e inv
  Step-Inv {s} (advance_step t {q} holds e) inv = advance-Inv s t q holds e inv

  pub Reach-Inv : {start s : System A} → Reach start s → Inv start → Inv s
  Reach-Inv here inv = inv
  Reach-Inv (next r step) inv = Step-Inv step (Reach-Inv r inv)
