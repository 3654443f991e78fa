-- ===== src/Queue/Threads.antt =====
-- src/linear_fcgi_queue.h with the producer and the consumer on two threads, a shared access at a
-- time. The memory barriers keep the accesses of each in this order.
use linear_fcgi.Common.{◌≡◌, ◌≢◌, List, [], ◌∷◌, ◌++◌, none, some}
use linear_fcgi.Queue.{Pointer, null, Queue, construct, link, publish, reclaim, peek, advance}

module _ {ℓ} (A : Type ℓ) where
  -- Where the producer stands in `produce`.
  pub data Producer : Type ℓ where
    at_rest : Producer
    linked : A → Producer  -- before the exchange of `last`
    sweeping : Producer  -- before the test of the loop
    deleting : Producer  -- before the body of the loop

  -- Where the consumer stands in `consume`.
  pub data Consumer : Type ℓ where
    idle : Consumer
    found : Consumer  -- the test has shown a value
    copied : A → Consumer  -- before the exchange of `divider`

module _ {ℓ} (A : Type ℓ) where
  -- The queue, both threads, and what was published and taken so far.
  pub record System : Type ℓ where
    pub queue : Queue A
    pub producer : Producer A
    pub consumer : Consumer A
    pub produced : List A
    pub consumed : List A

module _ {ℓ} {A : Type ℓ} where
  abbrev pub started : A → Pointer → System A
  started t at = record {
    queue = construct t at;
    producer = at_rest;
    consumer = idle;
    produced = [];
    consumed = [];
  }

  pub data Step (s : System A) : System A → Type ℓ where
    -- `new` answers an address that is free.
    link_step :
        (t : A) (at : Pointer) {q : Queue A}
        → s.producer ≡ at_rest
        → s.queue.nodes at ≡ none
        → at ≢ null
        → link t at s.queue ≡ some q
        → Step s (record s { queue = q; producer = linked t })
    publish_step :
        (t : A) {q : Queue A}
        → s.producer ≡ linked t
        → publish s.queue ≡ some q
        → Step s (record s { queue = q; producer = sweeping; produced = s.produced ++ (t ∷ []) })
    swept_step :
        s.producer ≡ sweeping
        → s.queue.first ≡ s.queue.divider
        → Step s (record s { producer = at_rest })
    sweep_step :
        s.producer ≡ sweeping
        → s.queue.first ≢ s.queue.divider
        → Step s (record s { producer = deleting })
    delete_step :
        {q : Queue A}
        → s.producer ≡ deleting
        → reclaim s.queue ≡ some q
        → Step s (record s { queue = q; producer = sweeping })
    empty_step : s.consumer ≡ idle → s.queue.divider ≡ s.queue.last → Step s s
    find_step :
        s.consumer ≡ idle → s.queue.divider ≢ s.queue.last → Step s (record s { consumer = found })
    copy_step :
        (t : A)
        → s.consumer ≡ found
        → peek s.queue ≡ some t
        → Step s (record s { consumer = copied t })
    advance_step :
        (t : A) {q : Queue A}
        → s.consumer ≡ copied t
        → advance s.queue ≡ some q
        → Step s (record s { queue = q; consumer = idle; consumed = s.consumed ++ (t ∷ []) })

  pub data Reach (start : System A) : System A → Type ℓ where
    here : Reach start start
    next : {s t : System A} → Reach start s → Step s t → Reach start t
