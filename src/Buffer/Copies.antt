-- ===== src/Buffer/Copies.antt =====
-- The copy constructor and the assignment of a tcp_buffer_t.
use linear_fcgi.Common.{ℕ, ◌<◌, ◌≡◌, ◌≢◌, refl, ap, ◌∙◌, arith}
use linear_fcgi.Common.{true, false, List, [], ◌∷◌, Option, none, some, ◌==◌, ltb, take, length}
use linear_fcgi.Queue.{Pointer, null}
use linear_fcgi.Buffer.{Heap, TcpBuffer, change, blank, memcpy, copy, assign}
use linear_fcgi.Buffer.Ownership.{Holder, Holds, is_blank, has_block, Owned, Owned-new}

take-all : (xs : List ℕ) → take (length xs) xs ≡ xs
take-all [] = refl
take-all (x ∷ xs) = ap (λ t. x ∷ t) (take-all xs)

-- The buffer of a block that holds some bytes.
abbrev pub full : Pointer → List ℕ → TcpBuffer
full at bytes = record { ptr = at; siz = length bytes }

pub copy-block :
    (heap : Heap) (at from : Pointer) (bytes : List ℕ)
    → heap from ≡ some bytes
    → 0 < length bytes
    → at ≢ null
    → copy at (full from bytes) heap ≡ some (full at bytes, change at (some bytes) heap)
unfolding copy memcpy
copy-block heap at from bytes e some_bytes there =
    let positive : ltb 0 (length bytes) ≡ true = ground arith in
    let present : (at == null) ≡ false = ground arith in
    let enough : ltb (length bytes) (length bytes) ≡ false = ground arith in
    rw (positive, present, e, enough, take-all bytes) refl

pub assign-copy :
    (at : Pointer) (this rhs : TcpBuffer) (heap : Heap) → assign at this rhs heap ≡ copy at rhs heap
unfolding assign copy
assign-copy at this rhs heap = refl

pub Owned-with_blank :
    (heap : Heap) (live : List Holder)
    → Owned heap live
    → Owned heap (record { buffer = blank; bytes = [] } ∷ live)
Owned-with_blank heap live o = record {
  null_free = o.null_free;
  counted = λ p h.
      let apart : (null == p) ≡ false = ground arith in rw apart (omega (arith, o.counted p h));
  hold = (is_blank refl refl, o.hold);
}

-- What a copy of a buffer is: another buffer with the same bytes, and a block of its own.
abbrev pub Copied : Heap → List Holder → Holder → Option (TcpBuffer × Heap) → Type 0
Copied heap live x result =
    (b : TcpBuffer) × (heap' : Heap) × (result ≡ some (b, heap'))
    × Owned heap' (record { buffer = b; bytes = x.bytes } ∷ live)

pub copy-Owned :
    (heap : Heap) (live : List Holder) (x : Holder) (at : Pointer)
    → Owned heap live
    → at ≢ null
    → heap at ≡ none
    → Holds heap x
    → Copied heap live x (copy at x.buffer heap)
unfolding copy
copy-Owned heap live x at o there free (is_blank b e) =
    (blank, heap, ap (λ t. copy at t heap) b, rw e (Owned-with_blank heap live o))
copy-Owned heap live x at o there free (has_block live_ptr e size some_bytes) = (
  full at x.bytes,
  change at (some x.bytes) heap,
  ap (λ n. copy at (record { ptr = x.buffer.ptr; siz = n }) heap) size
      ∙ copy-block heap at x.buffer.ptr x.bytes e some_bytes there,
  Owned-new heap live at x.bytes o there free some_bytes,
)
