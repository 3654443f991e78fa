-- ===== src/Buffer/Transfer.antt =====
-- The way of the bytes that Client::onRead is given, through the node of the queue, to the buffer of
-- Server::onPoll.
use linear_fcgi.Common.{ℕ, ◌<◌, ◌≡◌, ◌≢◌, refl, ap, ◌∙◌, arith}
use linear_fcgi.Common.{
  sym, ◌+◌, Option, none, if◌then◌else◌, true, false, List, [], ◌∷◌, none, some, length, ◌==◌, ltb,
}
use linear_fcgi.Queue.{Pointer, null}
use linear_fcgi.Buffer.{Heap, change, blank, copy, destroy, make_node, store, fetch}
use linear_fcgi.Buffer.Ownership.{
  count, blocks, Holder, Holds, is_blank, has_block, Owned, Owned-new, change-same, change-other,
}
use linear_fcgi.Buffer.Freeing.{destroy-Owned}
use linear_fcgi.Buffer.Copies.{full, copy-block, assign-copy}

-- Three different addresses that malloc may answer one after the other.
pub record AreFree (heap : Heap) (a b c : Pointer) : Type 0 where
  pub a_there : a ≢ null
  pub b_there : b ≢ null
  pub c_there : c ≢ null
  pub a_free : heap a ≡ none
  pub b_free : heap b ≡ none
  pub c_free : heap c ≡ none
  pub a_b : a ≢ b
  pub a_c : a ≢ c
  pub b_c : b ≢ c

abbrev pub holder : Pointer → List ℕ → Holder
holder at bytes = record { buffer = full at bytes; bytes = bytes }

-- A copy of a buffer that a block stands for, to a free address.
copy-full :
    (heap : Heap) (live : List Holder) (from at : Pointer) (bytes : List ℕ)
    → Owned heap live
    → heap from ≡ some bytes
    → 0 < length bytes
    → at ≢ null
    → heap at ≡ none
    → (copy at (full from bytes) heap ≡ some (full at bytes, change at (some bytes) heap))
      × Owned (change at (some bytes) heap) (holder at bytes ∷ live)
copy-full heap live from at bytes o e some_bytes there free = (
  copy-block heap at from bytes e some_bytes there,
  Owned-new heap live at bytes o there free some_bytes,
)

module _ (heap : Heap) (live : List Holder) (clone at_val at_value : Pointer) (bytes : List ℕ)
    (o : Owned heap live) (free : AreFree heap clone at_val at_value)
    (some_bytes : 0 < length bytes) where
  store-Owned :
      (heap' : Heap) × (store clone at_val at_value bytes heap
        ≡ some (some (full at_value bytes), heap'))
      × Owned heap' (holder at_value bytes ∷ live)
  unfolding store make_node
  store-Owned =
      let h0 : Heap = change clone (some bytes) heap in
      let h1 : Heap = change at_val (some bytes) h0 in
      let o0 = Owned-new heap live clone bytes o free.a_there free.a_free some_bytes in
      let val_free = change-other clone (some bytes) heap at_val free.a_b ∙ free.b_free in
      let (e1, o1) =
        copy-full h0 (holder clone bytes ∷ live) clone at_val bytes o0
          (change-same clone (some bytes) heap) some_bytes free.b_there val_free in
      let value_free =
        change-other at_val (some bytes) h0 at_value free.b_c
        ∙ change-other clone (some bytes) heap at_value free.a_c
        ∙ free.c_free in
      let (e2, o2) =
        copy-full h1 (holder at_val bytes ∷ holder clone bytes ∷ live) at_val at_value bytes o1
          (change-same at_val (some bytes) h0) some_bytes free.c_there value_free in
      let (h3, e3, o3) =
        destroy-Owned (change at_value (some bytes) h1) (holder at_value bytes ∷ [])
          (holder at_val bytes) (holder clone bytes ∷ live) o2 in
      let (h4, e4, o4) =
        destroy-Owned h3 (holder at_value bytes ∷ []) (holder clone bytes) live o3 in
      let present : (clone == null) ≡ false = ground (arith, free.a_there) in
      (h4, rw (present, e1, e2, e3, e4) refl, o4)

block_of :
    (heap : Heap) (at : Pointer) (bytes : List ℕ)
    → Holds heap (holder at bytes)
    → 0 < length bytes
    → heap at ≡ some bytes
block_of heap at bytes (is_blank b e) some_bytes =
    let none_there : length bytes ≡ 0 = ap length e in absurd (omega arith)
block_of heap at bytes (has_block there e size more) some_bytes = e

module _ (heap : Heap) (live : List Holder) (node at : Pointer) (bytes : List ℕ)
    (o : Owned heap (holder node bytes ∷ live)) (some_bytes : 0 < length bytes) (there : at ≢ null)
    (free : heap at ≡ none) where
  fetch-Owned :
      (heap' : Heap) × (fetch at (full node bytes) heap ≡ some (bytes, heap'))
      × Owned heap' (holder node bytes ∷ live)
  unfolding fetch
  fetch-Owned =
      let (e, o1) =
        copy-full heap (holder node bytes ∷ live) node at bytes o
          (block_of heap node bytes o.hold.0 some_bytes) some_bytes there free in
      let (h2, e2, o2) =
        destroy-Owned (change at (some bytes) heap) [] (holder at bytes) (holder node bytes ∷ live)
          o1 in
      let positive : ltb 0 (length bytes) ≡ true = ground arith in
      let assigned = assign-copy at blank (full node bytes) heap ∙ e in
      (h2, rw (assigned, positive, change-same at (some bytes) heap, e2) refl, o2)

-- An address that is free stays free when another becomes the block of a new buffer.
stays_free :
    (heap heap' : Heap) (live : List Holder) (node at : Pointer) (bytes : List ℕ)
    → Owned heap live
    → Owned heap' (holder node bytes ∷ live)
    → at ≢ null
    → heap at ≡ none
    → node ≢ at
    → heap' at ≡ none
stays_free heap heap' live node at bytes o o' there free apart =
    let differ : (node == at) ≡ false = ground arith in
    let before = o.counted at there ∙ ap blocks free in
    let after : 0 + count at live ≡ blocks (heap' at) =
      ap (λ b. (if b then 1 else 0) + count at live) (sym differ) ∙ o'.counted at there in
    no_block (heap' at) (omega (arith, before, after))
  where
    no_block : (o : Option (List ℕ)) → blocks o ≡ 0 → o ≡ none
    no_block none h = refl
    no_block (some block) h = absurd (omega arith)

-- With memory for its three copies, the end of `onRead` for a read of some bytes puts a buffer with
-- these bytes into the queue, which owns the one block by which the heap has grown. From there a
-- round of `onPoll` with memory for its copy takes exactly these bytes and leaves no block behind,
-- and the destructor of the node gives back its block; nothing dangles, and the other buffers keep
-- their bytes.
pub store-fetch :
    (heap : Heap) (live : List Holder) (clone at_val at_value at : Pointer) (bytes : List ℕ)
    → Owned heap live
    → AreFree heap clone at_val at_value
    → 0 < length bytes
    → at ≢ null
    → heap at ≡ none
    → at_value ≢ at
    → (h1 : Heap) × (store clone at_val at_value bytes heap ≡ some (some (full at_value bytes), h1))
      × Owned h1 (holder at_value bytes ∷ live)
      × (h2 : Heap) × (fetch at (full at_value bytes) h1 ≡ some (bytes, h2))
      × Owned h2 (holder at_value bytes ∷ live)
      × (h3 : Heap) × (destroy (full at_value bytes) h2 ≡ some h3)
      × Owned h3 live
store-fetch heap live clone at_val at_value at bytes o free some_bytes there at_free apart =
    let (h1, e1, o1) = store-Owned heap live clone at_val at_value bytes o free some_bytes in
    let still = stays_free heap h1 live at_value at bytes o o1 there at_free apart in
    let (h2, e2, o2) = fetch-Owned h1 live at_value at bytes o1 some_bytes there still in
    let (h3, e3, o3) = destroy-Owned h2 [] (holder at_value bytes) live o2 in
    (h1, e1, o1, h2, e2, o2, h3, e3, o3)
