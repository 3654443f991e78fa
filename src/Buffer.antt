-- ===== src/Buffer.antt =====
-- tcp_buffer_t of src/linear_fcgi_client.h: a buffer that owns a block of the heap, and the copies
-- that Client::onRead and Server::onPoll make. A result of `none` is undefined behaviour: the use of
-- a block that is not there, a read behind its end, or a memcpy to NULL.
pub mod Ownership
pub mod Freeing
pub mod Copies
pub mod Safety
pub mod Transfer
mod Tests
use linear_fcgi.Common.{
  ℕ, Bool, List, [], Option, none, some, ◌==◌, if◌then◌else◌, ltb, take, length,
}
use linear_fcgi.Queue.{Pointer, null, ◌>>=◌}

-- What malloc gave and free did not take back.
abbrev pub Heap : Type 0
Heap = Pointer → Option (List ℕ)

pub record TcpBuffer : Type 0 where
  pub ptr : Pointer  -- data
  pub siz : ℕ

unfoldable pub change : Pointer → Option (List ℕ) → Heap → Heap
change at block heap p = if at == p then block else heap p

-- tcp_buffer_t().
abbrev pub blank : TcpBuffer
blank = record { ptr = null; siz = 0 }

-- memcpy(dst, src, siz) for a whole block at `dst`.
unfoldable pub memcpy : (dst src : Pointer) (siz : ℕ) → Heap → Option Heap
unfolding change
memcpy dst src siz heap = if dst == null then none else (do
  block ← heap src
  if ltb (length block) siz then none else some (change dst (some (take siz block)) heap))

-- tcp_buffer_t(const tcp_buffer_t&); `at` is what malloc answers, if it is called.
unfoldable pub copy : (at : Pointer) → TcpBuffer → Heap → Option (TcpBuffer × Heap)
unfolding memcpy
copy at rhs heap =
    if ltb 0 rhs.siz
    then (do
      heap' ← memcpy at rhs.ptr rhs.siz heap
      some (record { ptr = at; siz = rhs.siz }, heap'))
    else some (blank, heap)

-- operator=, which takes nothing from what `this` held.
unfoldable pub assign : (at : Pointer) → (this rhs : TcpBuffer) → Heap → Option (TcpBuffer × Heap)
unfolding memcpy
assign at this rhs heap =
    if ltb 0 rhs.siz
    then (do
      heap' ← memcpy at rhs.ptr rhs.siz heap
      some (record { ptr = at; siz = rhs.siz }, heap'))
    else some (blank, heap)

-- ~tcp_buffer_t: free of a block that is there.
unfoldable pub destroy : TcpBuffer → Heap → Option Heap
unfolding change
destroy b heap =
    if b.ptr == null then some heap else (do block ← heap b.ptr; some (change b.ptr none heap))

-- new Node(t) of Queue::produce: `val` is a copy of `t`, `value` a copy of `val`, and `val` goes.
unfoldable pub make_node :
    (at_val at_value : Pointer) → TcpBuffer → Heap → Option (TcpBuffer × Heap)
make_node at_val at_value t heap = do
  val ← copy at_val t heap
  value ← copy at_value val.0 val.1
  heap' ← destroy val.0 value.1
  some (value.0, heap')

-- The end of Client::onRead for a read of some `bytes`: `clone` is what malloc answers, and `buf`
-- goes when it is in the queue. The answer is the buffer of the new node; without memory for the
-- clone there is none.
unfoldable pub store :
    (clone at_val at_value : Pointer) → List ℕ → Heap → Option (Option TcpBuffer × Heap)
store clone at_val at_value bytes heap = if clone == null then some (none, heap) else (do
  node ←
      make_node at_val at_value (record { ptr = clone; siz = length bytes })
        (change clone (some bytes) heap)
  heap' ← destroy (record { ptr = clone; siz = length bytes }) node.1
  some (some node.0, heap'))

-- A round of Server::onPoll: its blank `buf` is assigned by Queue::consume, the bytes are copied
-- out of it, and it goes.
unfoldable pub fetch : (at : Pointer) → TcpBuffer → Heap → Option (List ℕ × Heap)
fetch at value heap = do
  buf ← assign at blank value heap
  bytes ← if ltb 0 buf.0.siz then buf.1 buf.0.ptr else some []
  heap' ← destroy buf.0 buf.1
  some (bytes, heap')
