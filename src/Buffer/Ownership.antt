-- ===== src/Buffer/Ownership.antt =====
-- Who owns the blocks of the heap: the invariant that every block has exactly one buffer, and that
-- the operations of a tcp_buffer_t keep it.
use linear_fcgi.Common.{ℕ, ◌+◌, ◌<◌, ◌≡◌, ◌≢◌, inl, inr, refl, sym, ap, ◌∙◌, arith}
use linear_fcgi.Common.{
  false, List, [], ◌∷◌, ◌++◌, Option, none, some, ◌==◌, ==_iff, ==_refl, if◌then◌else◌, length, All,
  Bool-cases,
}
use linear_fcgi.Queue.{Pointer, null}
use linear_fcgi.Buffer.{Heap, TcpBuffer, change, blank}

-- A buffer object that is alive, and the bytes that it is to hold.
pub record Holder : Type 0 where
  pub buffer : TcpBuffer
  pub bytes : List ℕ

-- How many of the buffers point to an address.
abbrev pub count : Pointer → List Holder → ℕ
count p [] = 0
count p (x ∷ xs) = (if x.buffer.ptr == p then 1 else 0) + count p xs

abbrev pub blocks : Option (List ℕ) → ℕ
blocks none = 0
blocks (some block) = 1

-- A buffer is blank, or it has a block of its size with its bytes.
pub data Holds (heap : Heap) (x : Holder) : Type 0 where
  is_blank : x.buffer ≡ blank → x.bytes ≡ [] → Holds heap x
  has_block :
      x.buffer.ptr ≢ null
      → heap x.buffer.ptr ≡ some x.bytes
      → x.buffer.siz ≡ length x.bytes
      → 0 < length x.bytes
      → Holds heap x

pub record Owned (heap : Heap) (live : List Holder) : Type 0 where
  pub null_free : heap null ≡ none
  pub counted : (p : Pointer) → p ≢ null → count p live ≡ blocks (heap p)
  pub hold : All (Holds heap) live

pub count-append :
    (p : Pointer) (xs ys : List Holder) → count p (xs ++ ys) ≡ count p xs + count p ys
count-append p [] ys = omega arith
count-append p (x ∷ xs) ys = omega (arith, count-append p xs ys)

pub change-same :
    (p : Pointer) (block : Option (List ℕ)) (heap : Heap) → change p block heap p ≡ block
unfolding change
change-same p block heap = rw (==_refl p) refl

pub change-other :
    (at : Pointer) (block : Option (List ℕ)) (heap : Heap) (p : Pointer)
    → at ≢ p
    → change at block heap p ≡ heap p
unfolding change
change-other at block heap p h = let differ : (at == p) ≡ false = ground arith in rw differ refl

-- What does not point to the changed address holds what it held.
Holds-change :
    (at : Pointer) (block : Option (List ℕ)) (heap : Heap) (x : Holder)
    → x.buffer.ptr ≢ at
    → Holds heap x
    → Holds (change at block heap) x
Holds-change at block heap x apart (is_blank b e) = is_blank b e
Holds-change at block heap x apart (has_block live e size some_bytes) =
    has_block live (change-other at block heap x.buffer.ptr (λ h. apart (sym h)) ∙ e) size
      some_bytes

pub All-change :
    (at : Pointer) (block : Option (List ℕ)) (heap : Heap) (xs : List Holder)
    → count at xs ≡ 0
    → All (Holds heap) xs
    → All (Holds (change at block heap)) xs
All-change at block heap [] none_there h = tt
All-change at block heap (x ∷ xs) none_there (h, hs) = (
  Holds-change at block heap x (λ e. absurd (ground (arith, none_there, e))) h,
  All-change at block heap xs (ground arith) hs,
)

pub fresh-count :
    (heap : Heap) (live : List Holder) (at : Pointer)
    → Owned heap live
    → at ≢ null
    → heap at ≡ none
    → count at live ≡ 0
fresh-count heap live at o h e = o.counted at h ∙ ap blocks e

-- A new block for a new buffer.
pub Owned-new :
    (heap : Heap) (live : List Holder) (at : Pointer) (bytes : List ℕ)
    → Owned heap live
    → at ≢ null
    → heap at ≡ none
    → 0 < length bytes
    → Owned
        (change at (some bytes) heap)
        (record { buffer = record { ptr = at; siz = length bytes }; bytes = bytes } ∷ live)
Owned-new heap live at bytes o there free some_bytes =
    let absent = fresh-count heap live at o there free in
    record {
      null_free = change-other at (some bytes) heap null there ∙ o.null_free;
      counted = λ p h. counted p h (o.counted p h);
      hold = (
        has_block there (change-same at (some bytes) heap) refl some_bytes,
        All-change at (some bytes) heap live absent o.hold,
      );
    }
  where
    counted :
        (p : Pointer)
        → p ≢ null
        → count p live ≡ blocks (heap p)
        → (if at == p then 1 else 0) + count p live ≡ blocks (change at (some bytes) heap p)
    counted p h e = elim (Bool-cases (at == p)) [
      | inl same ↦
          let here = (==_iff at p).0 same in
          rw
            (
              sym here,
              ==_refl at,
              change-same at (some bytes) heap,
              fresh-count heap live at o there free,
            )
            (omega arith)
      | inr other ↦
          rw (other, change-other at (some bytes) heap p (λ k. absurd (ground (arith, other, k))))
            (omega (arith, e))
    ]
