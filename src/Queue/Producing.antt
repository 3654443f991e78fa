-- ===== src/Queue/Producing.antt =====
-- What holds between the steps of the two threads of src/linear_fcgi_queue.h, and that the steps of
-- the producer keep it.
use linear_fcgi.Common.{◌+◌, ◌≤◌, ◌≡◌, refl, sym, ap, ◌∙◌, ◌≢◌, arith}
use linear_fcgi.Common.{false, List, [], ◌∷◌, ◌++◌, Option, none, some, length, length-append}
use linear_fcgi.Common.{append_assoc}
use linear_fcgi.Queue.{Pointer, null, Queue, link, publish, reclaim}
use linear_fcgi.Queue.Chain.{Cells, values-append}
use linear_fcgi.Queue.Layout.{
  Layout, waiting, is_nil, construct-Layout, link-Layout, publish-Layout, reclaim-Layout,
}
use linear_fcgi.Queue.Take.{swept-Layout}
use linear_fcgi.Queue.Threads.{
  Producer, at_rest, linked, sweeping, deleting, Consumer, idle, found, copied, System, started,
}
use mathlib.Core.Path.{subst}

module _ {ℓ} {A : Type ℓ} where
  abbrev pub ProducerHas : Producer A → (garbage fresh : Cells A) → Type ℓ
  ProducerHas at_rest gs us = us ≡ []
  ProducerHas (linked t) gs us = (at : Pointer) × (us ≡ (at, t) ∷ [])
  ProducerHas sweeping gs us = us ≡ []
  ProducerHas deleting gs us = (us ≡ []) × (is_nil gs ≡ false)

  abbrev pub ConsumerHas : Consumer A → (values : List A) → Type ℓ
  ConsumerHas idle ts = Unit {ℓ}
  ConsumerHas found ts = (t : A) × (rest : List A) × (ts ≡ t ∷ rest)
  ConsumerHas (copied t) ts = (rest : List A) × (ts ≡ t ∷ rest)

  pub record Inv (s : System A) : Type ℓ where
    pub garbage : Cells A
    pub taken : Cells A
    pub fresh : Cells A
    pub end_at : Pointer
    pub end_value : A
    pub layout : Layout s.queue garbage taken fresh (end_at, end_value)
    pub producer_has : ProducerHas s.producer garbage fresh
    pub consumer_has : ConsumerHas s.consumer (waiting taken (end_at, end_value))
    pub fifo : s.produced ≡ s.consumed ++ waiting taken (end_at, end_value)
    pub few : length garbage + length taken ≤ length s.produced

  pub started-Inv : (t : A) (at : Pointer) → at ≢ null → Inv (started t at)
  started-Inv t at ne = record {
    garbage = [];
    taken = [];
    fresh = [];
    end_at = at;
    end_value = t;
    layout = construct-Layout t at ne;
    producer_has = refl;
    consumer_has = tt;
    fifo = refl;
    few = omega arith;
  }

  pub waiting-publish :
      (taken : Cells A) (l at : Pointer) (v t : A)
      → waiting (taken ++ ((l, v) ∷ [])) (at, t) ≡ waiting taken (l, v) ++ (t ∷ [])
  waiting-publish [] l at v t = refl
  waiting-publish ((d, w) ∷ ds) l at v t = values-append (ds ++ ((l, v) ∷ [])) ((at, t) ∷ [])

  -- More values behind those that wait.
  ConsumerHas-more :
      (c : Consumer A) (ts more : List A) → ConsumerHas c ts → ConsumerHas c (ts ++ more)
  ConsumerHas-more idle ts more h = tt
  ConsumerHas-more found ts more (t, rest, e) = (t, rest ++ more, ap (λ r. r ++ more) e)
  ConsumerHas-more (copied t) ts more (rest, e) = (rest ++ more, ap (λ r. r ++ more) e)

  pub ProducerHas-more :
      (p : Producer A) (gs us : Cells A) (d : Pointer) (w : A)
      → ProducerHas p gs us
      → ProducerHas p (gs ++ ((d, w) ∷ [])) us
  ProducerHas-more at_rest gs us d w h = h
  ProducerHas-more (linked t) gs us d w h = h
  ProducerHas-more sweeping gs us d w h = h
  ProducerHas-more deleting [] us d w (e, n) = (e, refl)
  ProducerHas-more deleting (g ∷ gs) us d w (e, n) = (e, refl)

  pub same_some : {o : Option (Queue A)} (q r : Queue A) → o ≡ some q → o ≡ some r → q ≡ r
  same_some q r h k = cc

  pub link-Inv :
      (s : System A) (t : A) (at : Pointer) (q : Queue A)
      → s.producer ≡ at_rest
      → s.queue.nodes at ≡ none
      → at ≢ null
      → link t at s.queue ≡ some q
      → Inv s
      → Inv (record s { queue = q; producer = linked t })
  link-Inv s t at q rests unused ne e inv =
      let none_fresh : inv.fresh ≡ [] =
        subst (λ p. ProducerHas p inv.garbage inv.fresh) rests inv.producer_has in
      let before =
        subst (λ us. Layout s.queue inv.garbage inv.taken us (inv.end_at, inv.end_value)) none_fresh
          inv.layout in
      let (q', e', after) = link-Layout inv.end_at at inv.end_value t before unused ne in
      record {
        garbage = inv.garbage;
        taken = inv.taken;
        fresh = (at, t) ∷ [];
        end_at = inv.end_at;
        end_value = inv.end_value;
        layout =
            subst (λ r. Layout r inv.garbage inv.taken ((at, t) ∷ []) (inv.end_at, inv.end_value))
              (same_some q' q e' e) after;
        producer_has = (at, refl);
        consumer_has = inv.consumer_has;
        fifo = inv.fifo;
        few = inv.few;
      }

  pub publish-Inv :
      (s : System A) (t : A) (q : Queue A)
      → s.producer ≡ linked t
      → publish s.queue ≡ some q
      → Inv s
      → Inv (record s { queue = q; producer = sweeping; produced = s.produced ++ (t ∷ []) })
  publish-Inv s t q links e inv =
      let (at, one_fresh) =
        subst (λ p. ProducerHas p inv.garbage inv.fresh) links inv.producer_has in
      let before =
        subst (λ us. Layout s.queue inv.garbage inv.taken us (inv.end_at, inv.end_value)) one_fresh
          inv.layout in
      let (q', e', after) = publish-Layout inv.end_at at inv.end_value t before in
      let grows = waiting-publish inv.taken inv.end_at at inv.end_value t in
      let old = waiting inv.taken (inv.end_at, inv.end_value) in
      record {
        garbage = inv.garbage;
        taken = inv.taken ++ ((inv.end_at, inv.end_value) ∷ []);
        fresh = [];
        end_at = at;
        end_value = t;
        layout =
            subst
              (λ r.
                Layout r inv.garbage (inv.taken ++ ((inv.end_at, inv.end_value) ∷ [])) [] (at, t))
              (same_some q' q e' e) after;
        producer_has = refl;
        consumer_has =
            subst (ConsumerHas s.consumer) (sym grows)
              (ConsumerHas-more s.consumer old (t ∷ []) inv.consumer_has);
        fifo =
            ap (λ r. r ++ (t ∷ [])) inv.fifo
            ∙ append_assoc s.consumed old (t ∷ [])
            ∙ ap (λ r. s.consumed ++ r) (sym grows);
        few = omega (
          arith,
          inv.few,
          length-append inv.taken ((inv.end_at, inv.end_value) ∷ []),
          length-append s.produced (t ∷ []),
        );
      }

  pub uncons :
      (gs : Cells A)
      → is_nil gs ≡ false
      → (g : Pointer) × (w : A) × (rest : Cells A) × (gs ≡ (g, w) ∷ rest)
  uncons [] h = cc
  uncons ((g, w) ∷ rest) h = (g, w, rest, refl)

  pub delete-Inv :
      (s : System A) (q : Queue A)
      → s.producer ≡ deleting
      → reclaim s.queue ≡ some q
      → Inv s
      → Inv (record s { queue = q; producer = sweeping })
  delete-Inv s q deletes e inv =
      let (none_fresh, more) =
        subst (λ p. ProducerHas p inv.garbage inv.fresh) deletes inv.producer_has in
      let (g, w, rest, split) = uncons inv.garbage more in
      let end : Pointer × A = (inv.end_at, inv.end_value) in
      let before = subst (λ gs. Layout s.queue gs inv.taken inv.fresh end) split inv.layout in
      let (q', e', after) = reclaim-Layout g w before in
      record {
        garbage = rest;
        taken = inv.taken;
        fresh = inv.fresh;
        end_at = inv.end_at;
        end_value = inv.end_value;
        layout = subst (λ r. Layout r rest inv.taken inv.fresh end) (same_some q' q e' e) after;
        producer_has = none_fresh;
        consumer_has = inv.consumer_has;
        fifo = inv.fifo;
        few = omega (arith, inv.few, ap length split);
      }

  -- The queue stays; a thread has learnt something about it.
  pub sweep-Inv :
      (s : System A)
      → s.producer ≡ sweeping
      → s.queue.first ≢ s.queue.divider
      → Inv s
      → Inv (record s { producer = deleting })
  sweep-Inv s sweeps apart inv = record {
    garbage = inv.garbage;
    taken = inv.taken;
    fresh = inv.fresh;
    end_at = inv.end_at;
    end_value = inv.end_value;
    layout = inv.layout;
    producer_has = (
      subst (λ p. ProducerHas p inv.garbage inv.fresh) sweeps inv.producer_has,
      ground (arith, swept-Layout inv.garbage inv.end_at inv.end_value inv.layout),
    );
    consumer_has = inv.consumer_has;
    fifo = inv.fifo;
    few = inv.few;
  }

  pub swept-Inv :
      (s : System A) → s.producer ≡ sweeping → Inv s → Inv (record s { producer = at_rest })
  swept-Inv s sweeps inv = record {
    garbage = inv.garbage;
    taken = inv.taken;
    fresh = inv.fresh;
    end_at = inv.end_at;
    end_value = inv.end_value;
    layout = inv.layout;
    producer_has = subst (λ p. ProducerHas p inv.garbage inv.fresh) sweeps inv.producer_has;
    consumer_has = inv.consumer_has;
    fifo = inv.fifo;
    few = inv.few;
  }
