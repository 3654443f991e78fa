-- ===== src/Queue/Take.antt =====
-- What src/linear_fcgi_queue.h reads of the nodes: the next value, and whether one waits.
use linear_fcgi.Common.{◌≡◌, refl, sym, ap, ◌∙◌, arith}
use linear_fcgi.Common.{false, [], ◌∷◌, ◌++◌, some, ◌==◌}
use linear_fcgi.Common.{append_assoc}
use linear_fcgi.Queue.{Pointer, Memory, Queue, peek, advance}
use linear_fcgi.Queue.Chain.{Cells, has, head, IsDistinct, IsChain, has-last, lookup-append}
use linear_fcgi.Queue.Layout.{Layout, waiting, is_nil}
use mathlib.Core.Path.{subst}

module _ {ℓ} {A : Type ℓ} where
  two_nodes :
      (memory : Memory A) (gs rest : Cells A) (d e : Pointer) (w x : A)
      → IsChain memory (gs ++ ((d, w) ∷ (e, x) ∷ rest))
      → (memory d ≡ some (record { value = w; next = e }))
        × (memory e ≡ some (record { value = x; next = head rest }))
  two_nodes memory [] rest d e w x h = (h.1, h.2.1)
  two_nodes memory ((g, v) ∷ gs) rest d e w x h = two_nodes memory gs rest d e w x h.2

  peek_next :
      (q : Queue A) (gs rest : Cells A) (d e : Pointer) (w x : A)
      → IsChain q.nodes (gs ++ ((d, w) ∷ (e, x) ∷ rest))
      → q.divider ≡ d
      → peek q ≡ some x
  unfolding peek
  peek_next q gs rest d e w x h same =
      let (at_d, at_e) = two_nodes q.nodes gs rest d e w x h in
      rw (ap q.nodes same ∙ at_d) (rw at_e refl)

  -- The value that `peek` sees is the first that waits.
  pub peek-waiting :
      {q : Queue A} {gs us : Cells A} (ds : Cells A) (d l : Pointer) (w x : A)
      → Layout q gs ((d, w) ∷ ds) us (l, x)
      → (v : A) × (peek q ≡ some v) × (waiting ((d, w) ∷ ds) (l, x) ≡ v ∷ waiting ds (l, x))
  peek-waiting {q} {gs} {us} [] d l w x y =
      (x, peek_next q gs us d l w x (subst (IsChain q.nodes) y.parts y.chain) y.at_divider, refl)
  peek-waiting {q} {gs} {us} ((e, v) ∷ ds) d l w x y = (
    v,
    peek_next q gs (ds ++ ((l, x) ∷ us)) d e w v (subst (IsChain q.nodes) y.parts y.chain)
        y.at_divider,
    refl,
  )

  -- The node at `divider` becomes garbage.
  pub advance-Layout :
      {q : Queue A} {gs ds us : Cells A} (d : Pointer) (w : A) (end : Pointer × A)
      → Layout q gs ((d, w) ∷ ds) us end
      → (q' : Queue A) × (advance q ≡ some q') × Layout q' (gs ++ ((d, w) ∷ [])) ds us end
  unfolding advance
  advance-Layout {q} {gs} {ds} {us} d w end y =
      let rest = ds ++ (end ∷ us) in
      let node = lookup-append q.nodes gs rest d w (subst (IsChain q.nodes) y.parts y.chain) in
      (
        record q { divider = head rest },
        rw (ap q.nodes y.at_divider ∙ node.1) refl,
        record {
          all = y.all;
          parts = y.parts ∙ sym (append_assoc gs ((d, w) ∷ []) rest);
          chain = y.chain;
          distinct = y.distinct;
          owned = y.owned;
          at_first = y.at_first;
          at_divider = refl;
          at_last = y.at_last;
        },
      )

  IsDistinct-suffix : (xs ys : Cells A) → IsDistinct (xs ++ ys) → IsDistinct ys
  IsDistinct-suffix [] ys d = d
  IsDistinct-suffix (x ∷ xs) ys d = IsDistinct-suffix xs ys d.1

  -- `divider` is at `last` when nothing waits.
  pub is_empty-Layout :
      {q : Queue A} {gs us : Cells A} (ds : Cells A) (l : Pointer) (v : A)
      → Layout q gs ds us (l, v)
      → (q.divider == q.last) ≡ is_nil ds
  is_empty-Layout [] l v y = ground (arith, y.at_divider, y.at_last)
  is_empty-Layout {q} {gs} {us} ((d, w) ∷ ds) l v y =
      let apart = IsDistinct-suffix gs _ (subst IsDistinct y.parts y.distinct) in
      ground (arith, has-last d ds us l v, y.at_divider, y.at_last)

  after_garbage :
      (g l : Pointer) (v : A) (gs ds us : Cells A)
      → has g (gs ++ (ds ++ ((l, v) ∷ us))) ≡ false
      → (g == head (ds ++ ((l, v) ∷ us))) ≡ false
  after_garbage g l v gs [] us out = ground (arith, has-last g gs us l v)
  after_garbage g l v gs ((d, w) ∷ ds) us out =
      ground (arith, has-last g gs (ds ++ ((l, v) ∷ us)) d w)

  -- `first` is at `divider` when there is no garbage.
  pub swept-Layout :
      {q : Queue A} {ds us : Cells A} (gs : Cells A) (l : Pointer) (v : A)
      → Layout q gs ds us (l, v)
      → (q.first == q.divider) ≡ is_nil gs
  swept-Layout [] l v y = let same = y.at_first ∙ ap head y.parts in ground (arith, y.at_divider)
  swept-Layout {q} {ds} {us} ((g, w) ∷ gs) l v y =
      let same : q.first ≡ g = y.at_first ∙ ap head y.parts in
      let apart = subst IsDistinct y.parts y.distinct in
      ground (arith, after_garbage g l v gs ds us apart.0, y.at_divider)
