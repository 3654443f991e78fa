-- ===== src/Buffer/Safety.antt =====
-- tcp_buffer_t objects that are made, copied, assigned and destroyed in any order.
use linear_fcgi.Common.{ℕ, ◌<◌, ◌≡◌, ◌≢◌, refl, sym, ap, ◌∙◌}
use linear_fcgi.Common.{List, [], ◌∷◌, ◌++◌, append_assoc, Option, none, some, length, All}
use linear_fcgi.Queue.{Pointer, null}
use linear_fcgi.Buffer.{Heap, TcpBuffer, change, blank, copy, assign, destroy}
use linear_fcgi.Buffer.Ownership.{Holder, Holds, Owned, Owned-new}
use linear_fcgi.Buffer.Freeing.{All-middle, destroy-Owned}
use linear_fcgi.Buffer.Copies.{full, Copied, copy-Owned, assign-copy, Owned-with_blank}
use mathlib.Core.Path.{subst}

-- The heap, and the buffer objects that are alive, in no order.
pub record State : Type 0 where
  pub heap : Heap
  pub live : List Holder

abbrev pub started : State
started = record { heap = λ p. none; live = [] }

-- One constructor, copy, assignment or destructor. malloc answers an address that is free.
pub data Step (s : State) : State → Type 0 where
  blank_step : Step s (record s { live = record { buffer = blank; bytes = [] } ∷ s.live })
  own_step :
      (at : Pointer) (bytes : List ℕ)
      → at ≢ null
      → s.heap at ≡ none
      → 0 < length bytes
      → Step s (record {
        heap = change at (some bytes) s.heap;
        live = record { buffer = full at bytes; bytes = bytes } ∷ s.live;
      })
  copy_step :
      (at : Pointer) (front : List Holder) (x : Holder) (back : List Holder) {b : TcpBuffer}
      {heap' : Heap}
      → s.live ≡ front ++ (x ∷ back)
      → at ≢ null
      → s.heap at ≡ none
      → copy at x.buffer s.heap ≡ some (b, heap')
      → Step s (record { heap = heap'; live = record { buffer = b; bytes = x.bytes } ∷ s.live })
  assign_step :
      (at : Pointer) (front : List Holder) (this : Holder) (back : List Holder) (x : Holder)
      {b : TcpBuffer} {heap' : Heap}
      → s.live ≡ this ∷ (front ++ (x ∷ back))
      → this.buffer ≡ blank
      → at ≢ null
      → s.heap at ≡ none
      → assign at this.buffer x.buffer s.heap ≡ some (b, heap')
      → Step s (record {
        heap = heap';
        live = record { buffer = b; bytes = x.bytes } ∷ (front ++ (x ∷ back));
      })
  destroy_step :
      (front : List Holder) (x : Holder) (back : List Holder) {heap' : Heap}
      → s.live ≡ front ++ (x ∷ back)
      → destroy x.buffer s.heap ≡ some heap'
      → Step s (record { heap = heap'; live = front ++ back })

pub data Reach : State → Type 0 where
  here : Reach started
  next : {s t : State} → Reach s → Step s t → Reach t

-- The result of an operation is the one that a lemma gives.
some_unique {ℓ} : {A : Type ℓ} {a b : A} {o : Option A} → o ≡ some a → o ≡ some b → a ≡ b
some_unique h k = cc

Copied-Owned :
    (heap : Heap) (live : List Holder) (x : Holder) (o : Option (TcpBuffer × Heap)) (b : TcpBuffer)
    (heap' : Heap)
    → o ≡ some (b, heap')
    → Copied heap live x o
    → Owned heap' (record { buffer = b; bytes = x.bytes } ∷ live)
Copied-Owned heap live x o b heap' e (b1, heap1, e1, owned) =
    let same = some_unique e1 e in
    subst (λ (r : TcpBuffer × Heap). Owned r.1 (record { buffer = r.0; bytes = x.bytes } ∷ live))
      same owned

Step-Owned : (s t : State) → Step s t → Owned s.heap s.live → Owned t.heap t.live
Step-Owned s _ blank_step o = Owned-with_blank s.heap s.live o
Step-Owned s _ (own_step at bytes there free some_bytes) o =
    Owned-new s.heap s.live at bytes o there free some_bytes
Step-Owned s _ (copy_step at front x back {b} {heap'} parts there free e) o =
    let held =
      (All-middle (Holds s.heap) front x back (subst (All (Holds s.heap)) parts o.hold)).0 in
    Copied-Owned s.heap s.live x _ b heap' e (copy-Owned s.heap s.live x at o there free held)
Step-Owned s _ (assign_step at front this back x {b} {heap'} parts empty there free e) o =
    let o1 = subst (Owned s.heap) parts o in
    let (heap1, e1, o2) = destroy-Owned s.heap [] this (front ++ (x ∷ back)) o1 in
    let same : heap1 ≡ s.heap =
      some_unique e1 (unfold destroy in ap (λ t. destroy t s.heap) empty) in
    let o3 = subst (λ h. Owned h (front ++ (x ∷ back))) same o2 in
    let held = (All-middle (Holds s.heap) front x back o3.hold).0 in
    Copied-Owned s.heap (front ++ (x ∷ back)) x _ b heap'
      (sym (assign-copy at this.buffer x.buffer s.heap) ∙ e)
      (copy-Owned s.heap (front ++ (x ∷ back)) x at o3 there free held)
Step-Owned s _ (destroy_step front x back {heap'} parts e) o =
    let (heap1, e1, owned) = destroy-Owned s.heap front x back (subst (Owned s.heap) parts o) in
    subst (λ h. Owned h (front ++ back)) (some_unique e1 e) owned

Reach-Owned : (s : State) → Reach s → Owned s.heap s.live
Reach-Owned _ here = record { null_free = refl; counted = λ p h. refl; hold = tt }
Reach-Owned t (next {s} r step) = Step-Owned s t step (Reach-Owned s r)

-- A buffer can be destroyed, and copied to `at`, where the copy has the same bytes.
abbrev pub Usable : Pointer → State → Holder → Type 0
Usable at s x =
    ((heap' : Heap) × (destroy x.buffer s.heap ≡ some heap'))
    × Copied s.heap s.live x (copy at x.buffer s.heap)

All-parts {κ} :
    (P : Holder → Type κ) (front back : List Holder)
    → ((f : List Holder) (x : Holder) (b : List Holder) → front ++ back ≡ f ++ (x ∷ b) → P x)
    → All P back
All-parts P front [] h = tt
All-parts P front (x ∷ back) h = (
  h front x back refl,
  All-parts P (front ++ (x ∷ [])) back
      (λ f y b parts. h f y b (sym (append_assoc front (x ∷ []) back) ∙ parts)),
)

-- From the empty heap on, after any constructors, copies, assignments to blank buffers and
-- destructors, every buffer has the bytes that it was given, in a block that no other buffer has,
-- and every block belongs to a buffer; every buffer can be destroyed, and, where `at` is a free
-- address, be copied to it.
pub Reach-IsSound :
    (s : State) (at : Pointer)
    → Reach s
    → at ≢ null
    → s.heap at ≡ none
    → Owned s.heap s.live × All (Usable at s) s.live
Reach-IsSound s at r there free =
    let owned = Reach-Owned s r in
    (
      owned,
      All-parts (Usable at s) [] s.live (λ front x back parts.
          let (heap', e, rest) =
            destroy-Owned s.heap front x back (subst (Owned s.heap) parts owned) in
          let held =
            (All-middle (Holds s.heap) front x back
              (subst (All (Holds s.heap)) parts owned.hold)).0 in
          ((heap', e), copy-Owned s.heap s.live x at owned there free held)),
    )
