-- ===== src/Buffer/Freeing.antt =====
-- The destructor of a tcp_buffer_t frees the block that the buffer owns, and no other.
use linear_fcgi.Common.{◌+◌, ◌≡◌, ◌≢◌, inl, inr, refl, sym, ap, ◌∙◌, arith}
use linear_fcgi.Common.{
  false, List, [], ◌∷◌, ◌++◌, none, some, ◌==◌, ==_iff, ==_refl, if◌then◌else◌, All, Bool-cases,
}
use linear_fcgi.Queue.{Pointer, null}
use linear_fcgi.Buffer.{Heap, TcpBuffer, change, blank, destroy}
use linear_fcgi.Buffer.Ownership.{
  Holder, count, blocks, Holds, is_blank, has_block, Owned, change-same, change-other, All-change,
}

pub All-middle {κ} :
    (P : Holder → Type κ) (front : List Holder) (x : Holder) (back : List Holder)
    → All P (front ++ (x ∷ back))
    → P x × All P (front ++ back)
All-middle P [] x back (h, hs) = (h, hs)
All-middle P (y ∷ front) x back (h, hs) =
    let (hx, rest) = All-middle P front x back hs in (hx, (h, rest))

count-middle :
    (p : Pointer) (front : List Holder) (x : Holder) (back : List Holder)
    → count p (front ++ (x ∷ back)) ≡ (if x.buffer.ptr == p then 1 else 0) + count p (front ++ back)
count-middle p [] x back = refl
count-middle p (y ∷ front) x back = omega (arith, count-middle p front x back)

-- Without a buffer that does not point to it, an address has as many as before.
count-apart :
    (p : Pointer) (front : List Holder) (x : Holder) (back : List Holder)
    → x.buffer.ptr ≢ p
    → count p (front ++ (x ∷ back)) ≡ count p (front ++ back)
count-apart p front x back apart =
    let differ : (x.buffer.ptr == p) ≡ false = ground arith in
    count-middle p front x back ∙ rw differ (omega arith)

count-there :
    (front : List Holder) (x : Holder) (back : List Holder)
    → count x.buffer.ptr (front ++ (x ∷ back)) ≡ 1 + count x.buffer.ptr (front ++ back)
count-there front x back = count-middle x.buffer.ptr front x back ∙ rw (==_refl x.buffer.ptr) refl

module _ (heap : Heap) (front : List Holder) (x : Holder) (back : List Holder)
    (o : Owned heap (front ++ (x ∷ back))) where
  Owned-blank : x.buffer ≡ blank → Owned heap (front ++ back)
  Owned-blank b = record {
    null_free = o.null_free;
    counted = λ p h.
        sym (count-apart p front x back (λ k. h (sym k ∙ ap (λ (t : TcpBuffer). t.ptr) b)))
        ∙ o.counted p h;
    hold = (All-middle (Holds heap) front x back o.hold).1;
  }

  alone :
      x.buffer.ptr ≢ null
      → heap x.buffer.ptr ≡ some x.bytes
      → count x.buffer.ptr (front ++ back) ≡ 0
  alone live e =
      let before = o.counted x.buffer.ptr live ∙ ap blocks e in
      omega (arith, before, count-there front x back)

  Owned-freed :
      x.buffer.ptr ≢ null
      → heap x.buffer.ptr ≡ some x.bytes
      → Owned (change x.buffer.ptr none heap) (front ++ back)
  Owned-freed live e = record {
    null_free = change-other x.buffer.ptr none heap null live ∙ o.null_free;
    counted = λ p h. elim (Bool-cases (x.buffer.ptr == p)) [
      | inl same ↦
          let here = (==_iff x.buffer.ptr p).0 same in
          rw (sym here, change-same x.buffer.ptr none heap) (alone live e)
      | inr other ↦
          let apart : x.buffer.ptr ≢ p = λ k. absurd (ground (arith, other, k)) in
          rw (change-other x.buffer.ptr none heap p apart)
            (sym (count-apart p front x back apart) ∙ o.counted p h)
    ];
    hold =
        All-change x.buffer.ptr none heap (front ++ back) (alone live e)
          (All-middle (Holds heap) front x back o.hold).1;
  }

  freed :
      x.buffer.ptr ≢ null
      → heap x.buffer.ptr ≡ some x.bytes
      → destroy x.buffer heap ≡ some (change x.buffer.ptr none heap)
  unfolding destroy
  freed live e = let present : (x.buffer.ptr == null) ≡ false = ground arith in rw (present, e) refl

  gone : x.buffer ≡ blank → destroy x.buffer heap ≡ some heap
  unfolding destroy
  gone b = ap (λ t. destroy t heap) b

  destroy-Holds :
      Holds heap x
      → (heap' : Heap) × (destroy x.buffer heap ≡ some heap') × Owned heap' (front ++ back)
  destroy-Holds (is_blank b e) = (heap, gone b, Owned-blank b)
  destroy-Holds (has_block live e size some_bytes) =
      (change x.buffer.ptr none heap, freed live e, Owned-freed live e)

  -- A buffer that goes takes its block with it.
  pub destroy-Owned :
      (heap' : Heap) × (destroy x.buffer heap ≡ some heap') × Owned heap' (front ++ back)
  destroy-Owned = destroy-Holds (All-middle (Holds heap) front x back o.hold).0
