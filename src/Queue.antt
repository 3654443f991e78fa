-- ===== src/Queue.antt =====
-- src/linear_fcgi_queue.h: the lock-free queue of one producer and one consumer, as linked nodes in
-- memory. A result of `none` is a dereference of an address that holds no node.
pub mod Chain
pub mod Layout
pub mod Take
pub mod Threads
pub mod Producing
pub mod Invariant
pub mod Fifo
pub mod Drain
pub mod Alone
mod Tests
use linear_fcgi.Common.{ℕ, zero, suc, ◌+◌, Bool, true, false, Option, none, some, ◌==◌}
use linear_fcgi.Common.{if◌then◌else◌}

abbrev pub Pointer : Type 0
Pointer = ℕ

abbrev pub null : Pointer
null = 0

pub record Node {ℓ} (A : Type ℓ) : Type ℓ where
  pub value : A
  pub next : Pointer

-- `nodes` is the memory: what `new` gave and `delete` did not take back.
pub record Queue {ℓ} (A : Type ℓ) : Type ℓ where
  pub nodes : Pointer → Option (Node A)
  pub first : Pointer
  pub divider : Pointer
  pub last : Pointer

abbrev pub Memory {ℓ} : Type ℓ → Type ℓ
Memory A = Pointer → Option (Node A)

infixl 5 ◌>>=◌
abbrev pub ◌>>=◌ {ℓ κ} : {A : Type ℓ} {B : Type κ} → Option A → (A → Option B) → Option B
none >>= f = none
some a >>= f = f a

module _ {ℓ} {A : Type ℓ} where
  unfoldable pub change : Pointer → Option (Node A) → Memory A → Memory A
  change at cell memory p = if at == p then cell else memory p

  -- Queue::Queue; `at` is what `new` answers, and `t` the value of `T()`.
  unfoldable pub construct : A → Pointer → Queue A
  unfolding change
  construct t at = record {
    nodes = change at (some (record { value = t; next = null })) (λ p. none);
    first = at;
    divider = at;
    last = at;
  }

  -- `last->next = new Node(t)` of Queue::produce.
  unfoldable pub link : A → Pointer → Queue A → Option (Queue A)
  unfolding change
  link t at q = do
    n ← q.nodes q.last
    some (record q {
      nodes =
          change q.last (some (record n { next = at }))
            (change at (some (record { value = t; next = null })) q.nodes);
    })

  -- The exchange of `last` for `last->next`.
  unfoldable pub publish : Queue A → Option (Queue A)
  publish q = do n ← q.nodes q.last; some (record q { last = n.next })

  -- The body of the loop of Queue::produce: the node at `first` is deleted.
  unfoldable pub reclaim : Queue A → Option (Queue A)
  unfolding change
  reclaim q = do
    n ← q.nodes q.first
    some (record q { first = n.next; nodes = change q.first none q.nodes })

  -- `divider->next->value` of Queue::consume.
  unfoldable pub peek : Queue A → Option A
  peek q = do n ← q.nodes q.divider; m ← q.nodes n.next; some m.value

  -- The exchange of `divider` for `divider->next`.
  unfoldable pub advance : Queue A → Option (Queue A)
  advance q = do n ← q.nodes q.divider; some (record q { divider = n.next })

  -- Queue::empty, and the test of Queue::consume.
  abbrev pub is_empty : Queue A → Bool
  is_empty q = q.divider == q.last

  -- The loop of Queue::produce; it has deleted all there is when the fuel is more than the nodes.
  unfoldable pub sweep : (fuel : ℕ) → Queue A → Option (Queue A)
  unfolding reclaim
  sweep zero q = none
  sweep (suc fuel) q = elim (q.first == q.divider) [
    | true ↦ some q
    | false ↦ reclaim q >>= sweep fuel
  ]

  -- Queue::produce without another thread.
  unfoldable pub produce : (fuel : ℕ) → A → Pointer → Queue A → Option (Queue A)
  unfolding link publish sweep
  produce fuel t at q = do linked ← link t at q; published ← publish linked; sweep fuel published

  -- Queue::consume without another thread; the second part is `result` where it returns true.
  unfoldable pub consume : Queue A → Option (Queue A × Option A)
  unfolding peek advance
  consume q =
      if is_empty q
      then some (q, none)
      else (do t ← peek q; moved ← advance q; some (moved, some t))

  -- The loop of Queue::size from the node at `it`.
  unfoldable pub count : (fuel : ℕ) → Memory A → Pointer → Option ℕ
  count zero memory it = none
  count (suc fuel) memory it = elim (it == null) [
    | true ↦ some 0
    | false ↦ do n ← memory it; num ← count fuel memory n.next; some (suc num)
  ]

  -- Queue::size.
  unfoldable pub size : (fuel : ℕ) → Queue A → Option ℕ
  unfolding count
  size fuel q = q.nodes q.divider >>= λ n. count fuel q.nodes n.next

  -- Queue::~Queue from the node at `first`: the memory that it leaves.
  unfoldable pub destroy : (fuel : ℕ) → Pointer → Memory A → Option (Memory A)
  unfolding change
  destroy zero first memory = none
  destroy (suc fuel) first memory = elim (first == null) [
    | true ↦ some memory
    | false ↦ do n ← memory first; destroy fuel n.next (change first none memory)
  ]
