-- ===== src/Buffer/Tests.antt =====
-- The theorems on tcp_buffer_t of src/linear_fcgi_client.h at an input.
use linear_fcgi.Common.{All, ◌≡◌, refl, arith}
use linear_fcgi.Common.{[], ◌∷◌, some, none, codes}
use linear_fcgi.Buffer.{Heap, change, memcpy, copy, destroy, store, fetch}
use linear_fcgi.Buffer.Ownership.{Owned}
use linear_fcgi.Buffer.Copies.{full}
use linear_fcgi.Buffer.Safety.{
  State, own_step, copy_step, destroy_step, Reach, here, next, Usable, Reach-IsSound,
}
use linear_fcgi.Buffer.Transfer.{AreFree, holder, store-fetch}

abbrev empty : Heap
empty p = none

-- A buffer gets a block, is copied, and goes.
abbrev received : State
received = record { heap = change 1 (some (codes "ab")) empty; live = holder 1 (codes "ab") ∷ [] }

abbrev copied : State
copied = record {
  heap = change 2 (some (codes "ab")) received.heap;
  live = holder 2 (codes "ab") ∷ received.live;
}

abbrev left : State
left = record { heap = change 1 none copied.heap; live = holder 2 (codes "ab") ∷ [] }

is_copied : copy 2 (full 1 (codes "ab")) received.heap ≡ some (full 2 (codes "ab"), copied.heap)
unfolding copy memcpy change
is_copied = refl

is_gone : destroy (full 1 (codes "ab")) copied.heap ≡ some left.heap
unfolding destroy change
is_gone = refl

two_free : received.heap 2 ≡ none
unfolding change
two_free = refl

run : Reach left
run =
    next
      (next (next here (own_step 1 (codes "ab") (λ h. omega (arith, h)) refl (omega arith)))
        (copy_step 2 [] (holder 1 (codes "ab")) [] refl (λ h. omega (arith, h)) two_free is_copied))
      (destroy_step (holder 2 (codes "ab") ∷ []) (holder 1 (codes "ab")) [] refl is_gone)

one_free : left.heap 1 ≡ none
unfolding change
one_free = refl

Reach-IsSound_example : Owned left.heap left.live × All (Usable 1 left) left.live
Reach-IsSound_example = Reach-IsSound left 1 run (λ h. omega (arith, h)) one_free

empty-Owned : Owned empty []
empty-Owned = record { null_free = refl; counted = λ p h. refl; hold = tt }

addresses-AreFree : AreFree empty 1 2 3
addresses-AreFree = record {
  a_there = λ h. omega (arith, h);
  b_there = λ h. omega (arith, h);
  c_there = λ h. omega (arith, h);
  a_free = refl;
  b_free = refl;
  c_free = refl;
  a_b = λ h. omega (arith, h);
  a_c = λ h. omega (arith, h);
  b_c = λ h. omega (arith, h);
}

store-fetch_example :
    (h1 : Heap) × (store 1 2 3 (codes "ab") empty ≡ some (some (full 3 (codes "ab")), h1))
    × Owned h1 (holder 3 (codes "ab") ∷ [])
    × (h2 : Heap) × (fetch 1 (full 3 (codes "ab")) h1 ≡ some (codes "ab", h2))
    × Owned h2 (holder 3 (codes "ab") ∷ [])
    × (h3 : Heap) × (destroy (full 3 (codes "ab")) h2 ≡ some h3)
    × Owned h3 []
store-fetch_example =
    store-fetch empty [] 1 2 3 1 (codes "ab") empty-Owned addresses-AreFree (omega arith)
      (λ h. omega (arith, h)) refl (λ h. omega (arith, h))
