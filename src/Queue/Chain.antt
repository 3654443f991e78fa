-- ===== src/Queue/Chain.antt =====
-- Linked nodes in memory: the addresses and values that the `next` pointers lead through to NULL.
use linear_fcgi.Common.{◌≡◌, refl, ap, ◌≢◌, arith}
use linear_fcgi.Common.{Bool, false, ◌||◌, List, [], ◌∷◌, ◌++◌, Option, none, some, ◌==◌}
use linear_fcgi.Queue.{Pointer, null, Node, Memory, change}

abbrev pub Cells {ℓ} : Type ℓ → Type ℓ
Cells A = List (Pointer × A)

module _ {ℓ} {A : Type ℓ} where
  abbrev pub has : Pointer → Cells A → Bool
  has p [] = false
  has p ((a, v) ∷ cells) = (a == p) || has p cells

  -- The address of the first cell, or NULL.
  abbrev pub head : Cells A → Pointer
  head [] = null
  head ((a, v) ∷ cells) = a

  abbrev pub values : Cells A → List A
  values [] = []
  values ((a, v) ∷ cells) = v ∷ values cells

  abbrev pub IsDistinct : Cells A → Type 0
  IsDistinct [] = Unit
  IsDistinct ((a, v) ∷ cells) = (has a cells ≡ false) × IsDistinct cells

  -- Every cell is in memory, and points to the one behind it.
  abbrev pub IsChain : Memory A → Cells A → Type ℓ
  IsChain memory [] = Unit {ℓ}
  IsChain memory ((a, v) ∷ cells) =
      (a ≢ null)
      × (memory a ≡ some (record { value = v; next = head cells }))
      × IsChain memory cells

  pub has-append : (p : Pointer) (xs ys : Cells A) → has p (xs ++ ys) ≡ (has p xs || has p ys)
  has-append p [] ys = refl
  has-append p ((a, v) ∷ xs) ys = ground (arith, has-append p xs ys)

  pub values-append : (xs ys : Cells A) → values (xs ++ ys) ≡ values xs ++ values ys
  values-append [] ys = refl
  values-append ((a, v) ∷ xs) ys = ap (λ t. v ∷ t) (values-append xs ys)

  -- A cell in the middle.
  pub lookup-append :
      (memory : Memory A) (xs ys : Cells A) (a : Pointer) (v : A)
      → IsChain memory (xs ++ ((a, v) ∷ ys))
      → (a ≢ null) × (memory a ≡ some (record { value = v; next = head ys }))
  lookup-append memory [] ys a v (n, e, h) = (n, e)
  lookup-append memory ((b, w) ∷ xs) ys a v (n, e, h) = lookup-append memory xs ys a v h

  -- A change elsewhere.
  pub IsChain-change :
      (memory : Memory A) (at : Pointer) (cell : Option (Node A)) (cells : Cells A)
      → IsChain memory cells
      → has at cells ≡ false
      → IsChain (change at cell memory) cells
  unfolding change
  IsChain-change memory at cell [] h out = tt
  IsChain-change memory at cell ((a, v) ∷ cells) (n, e, h) out =
      (n, ground arith, IsChain-change memory at cell cells h (ground arith))

  pub head-append :
      (xs ys zs : Cells A) (c : Pointer × A) → head (xs ++ (c ∷ ys)) ≡ head (xs ++ (c ∷ zs))
  head-append [] ys zs c = refl
  head-append (x ∷ xs) ys zs c = refl

  -- A node that is linked behind the last one.
  pub IsChain-link :
      (memory : Memory A) (xs : Cells A) (l at : Pointer) (v t : A)
      → IsChain memory (xs ++ ((l, v) ∷ []))
      → IsDistinct (xs ++ ((l, v) ∷ []))
      → has at (xs ++ ((l, v) ∷ [])) ≡ false
      → at ≢ null
      → IsChain
          (change l
            (some (record { value = v; next = at }))
            (change at (some (record { value = t; next = null })) memory))
          (xs ++ ((l, v) ∷ (at, t) ∷ []))
  unfolding change
  IsChain-link memory [] l at v t (n, e, h) d out fresh =
      (n, ground arith, (fresh, ground arith, tt))
  IsChain-link memory ((b, w) ∷ xs) l at v t (n, e, h) (d, ds) out fresh = (
    n,
    ground (arith, has-append b xs ((l, v) ∷ []), head-append xs [] ((at, t) ∷ []) (l, v)),
    IsChain-link memory xs l at v t h ds (ground arith) fresh,
  )

  pub IsDistinct-link :
      (xs : Cells A) (at : Pointer) (t : A)
      → IsDistinct xs
      → has at xs ≡ false
      → IsDistinct (xs ++ ((at, t) ∷ []))
  IsDistinct-link [] at t d out = (refl, tt)
  IsDistinct-link ((b, w) ∷ xs) at t (d, ds) out =
      (ground (arith, has-append b xs ((at, t) ∷ [])), IsDistinct-link xs at t ds (ground arith))

  -- An address without a node is not in the chain.
  pub IsChain-unused :
      (memory : Memory A) (at : Pointer) (cells : Cells A)
      → IsChain memory cells
      → memory at ≡ none
      → has at cells ≡ false
  IsChain-unused memory at [] h unused = refl
  IsChain-unused memory at ((a, v) ∷ cells) (n, e, h) unused =
      ground (arith, IsChain-unused memory at cells h unused)

  pub has-last :
      (p : Pointer) (xs ys : Cells A) (l : Pointer) (v : A)
      → has p (xs ++ ((l, v) ∷ ys)) ≡ false
      → (l == p) ≡ false
  has-last p [] ys l v out = ground arith
  has-last p ((b, w) ∷ xs) ys l v out = ground (arith, has-last p xs ys l v)
