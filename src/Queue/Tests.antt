-- ===== src/Queue/Tests.antt =====
-- A run of the two threads of src/linear_fcgi_queue.h, and the theorems at its end.
use linear_fcgi.Common.{ℕ, ◌+◌, ◌≡◌, ◌≢◌, refl, arith}
use linear_fcgi.Common.{[], ◌∷◌, none, some, length}
use linear_fcgi.Queue.{
  Pointer, null, Memory, Queue, change, construct, link, publish, peek, destroy, produce, size,
}
use linear_fcgi.Queue.Layout.{construct-Layout}
use linear_fcgi.Queue.Threads.{
  System, started, link_step, publish_step, find_step, copy_step, Reach, here, next, sweeping,
  copied,
}
use linear_fcgi.Queue.Fifo.{IsFifo, queue-IsFifo, ProducerCan, ConsumerCan, queue_safe, destroy_all}
use linear_fcgi.Queue.Drain.{Drained, queue_drains}
use linear_fcgi.Queue.Alone.{Holds, Consumed, queue_works}

abbrev q0 : Queue ℕ
q0 = construct 0 1

abbrev q1 : Queue ℕ
q1 = record (q0) {
  nodes =
      change 1 (some (record { value = 0; next = 2 }))
        (change 2 (some (record { value = 5; next = null })) q0.nodes);
}

abbrev q2 : Queue ℕ
q2 = record (q1) { last = 2 }

q1_lem : link 5 2 q0 ≡ some q1
unfolding link construct change
q1_lem = refl

q2_lem : publish q1 ≡ some q2
unfolding publish construct change
q2_lem = refl

q2_seen : peek q2 ≡ some 5
unfolding peek construct change
q2_seen = refl

q0_free : q0.nodes 2 ≡ none
unfolding construct change
q0_free = refl

q2_apart : q2.divider ≢ q2.last
unfolding construct
q2_apart = omega arith

-- The value 5 is published and copied; the producer is before the test of its loop.
abbrev midway : System ℕ
midway = record {
  queue = q2;
  producer = sweeping;
  consumer = copied 5;
  produced = 5 ∷ [];
  consumed = [];
}

midway_reached : Reach (started 0 1) midway
midway_reached =
    next
      (next
        (next (next here (link_step 5 2 refl q0_free (omega arith) q1_lem))
          (publish_step 5 refl q2_lem))
        (find_step refl q2_apart))
      (copy_step 5 refl q2_seen)

queue-IsFifo_example : IsFifo midway
queue-IsFifo_example = queue-IsFifo 0 1 midway (omega arith) midway_reached

queue_safe_example :
    ProducerCan midway.producer midway.queue × ConsumerCan midway.consumer midway.queue
queue_safe_example = queue_safe 0 1 midway (omega arith) midway_reached

destroy_all_example :
    (m : Memory ℕ) × (destroy (length midway.produced + 3) q2.first q2.nodes ≡ some m)
    × ((p : Pointer) → m p ≡ none)
destroy_all_example = destroy_all 0 1 midway (omega arith) midway_reached

queue_drains_example : Drained midway
queue_drains_example = queue_drains 0 1 midway (omega arith) midway_reached

q0-Holds : Holds q0 [] 0
q0-Holds = record {
  garbage = [];
  taken = [];
  end_at = 1;
  end_value = 0;
  layout = construct-Layout 0 1 (omega arith);
  stands = refl;
  counted = refl;
}

queue_works_example :
    Holds {A = ℕ} (construct 5 2) [] 0
    × ((q' : Queue ℕ) × (produce 1 5 2 q0 ≡ some q') × Holds {A = ℕ} q' (5 ∷ []) 0)
    × Consumed q0 [] 0
    × (size 1 q0 ≡ some 0)
queue_works_example = queue_works 5 2 q0 [] 0 q0-Holds (omega arith) q0_free
