-- ===== src/Loop/Start.antt =====
-- Loop::run of src/linear_fcgi_loop.cc, which sets the loop up and starts its thread, and the
-- callbacks of libuv that only handle memory.
use linear_fcgi.Common.{ℕ, ◌%◌, ◌^◌, ◌==◌, ◌≢◌, ◌≡◌, ◌↔◌, ◌⊎◌, refl, arith}
use linear_fcgi.Common.{Bool, false, not, ◌||◌, List, [], ◌∷◌, Option, none, some, if◌then◌else◌}
use linear_fcgi.Buffer.{Heap, change}
use linear_fcgi.Buffer.Ownership.{change-other}
use linear_fcgi.Queue.{Pointer, null, ◌>>=◌}

-- What libuv answers: whether the first two calls return 0, and the result of the last.
pub record StartEnv : Type 0 where
  pub async_init_ok : Bool
  pub timer_init_ok : Bool
  pub thread_create : ℕ

pub data StartCall : Type 0 where
  async_init : StartCall
  timer_init : StartCall
  timer_start : (timeout repeat : ℕ) → StartCall
  thread_create : StartCall

-- Loop::run: its calls, and its result, `none` where an assertion stops the program; `ndebug` is a
-- build without assertions.
unfoldable pub run : (ndebug : Bool) → StartEnv → List StartCall × Option ℕ
run ndebug env =
    if not (env.async_init_ok || ndebug)
    then (async_init ∷ [], none)
    else if not (env.timer_init_ok || ndebug)
    then (async_init ∷ timer_init ∷ [], none)
    else (
      async_init ∷ timer_init ∷ timer_start 1000 1000 ∷ thread_create ∷ [],
      some env.thread_create,
    )

-- uv_buf_t.
pub record UvBuf : Type 0 where
  pub base : Pointer
  pub len : ℕ

-- Loop::onAlloc; `at` is what malloc answers and `memory` what stands in the new block.
unfoldable pub on_alloc :
    (at : Pointer) (memory : List ℕ) (suggested_size : ℕ) → Heap → UvBuf × Heap
unfolding change
on_alloc at memory suggested_size heap = (
  record { base = at; len = suggested_size % 2 ^ 32 },
  if at == null then heap else change at (some memory) heap,
)

-- free, of NULL or of a block that is there.
unfoldable pub free : Pointer → Heap → Option Heap
unfolding change
free p heap = if p == null then some heap else (do block ← heap p; some (change p none heap))

-- Loop::onWrite, of a request that owns its data.
unfoldable pub on_write : (write_req written : Pointer) → Heap → Option Heap
unfolding free
on_write write_req written heap = do heap' ← free written heap; free write_req heap'

-- `run` stops the program exactly when assertions are on and one of its first two calls fails.
run-none :
    (ndebug : Bool) (env : StartEnv)
    → ((run ndebug env).1 ≡ none)
      ↔ ((ndebug ≡ false) × ((env.async_init_ok ≡ false) ⊎ (env.timer_init_ok ≡ false)))
unfolding run
run-none ndebug env = ground arith

-- A write request and its data, in two blocks, are freed, and nothing else is.
on_write-frees :
    (write_req written : Pointer) (r d : List ℕ) (heap : Heap)
    → write_req ≢ null
    → written ≢ null
    → written ≢ write_req
    → heap write_req ≡ some r
    → heap written ≡ some d
    → on_write write_req written heap ≡ some (change write_req none (change written none heap))
unfolding on_write free
on_write-frees write_req written r d heap req_there there apart req_block block =
    let p : (written == null) ≡ false = ground arith in
    let q : (write_req == null) ≡ false = ground arith in
    rw (p, block, q, change-other written none heap write_req apart, req_block) refl
