-- ===== src/Queue/Layout.antt =====
-- The nodes of src/linear_fcgi_queue.h between its pointers, and what each access does to them: from
-- `first` on garbage, from `divider` on a node whose value is taken and those that wait, up to
-- `last`, and behind it what is linked but not published.
use linear_fcgi.Common.{◌≡◌, refl, sym, ap, ◌∙◌, ◌≢◌, arith}
use linear_fcgi.Common.{Bool, true, false, ◌||◌, List, [], ◌∷◌, ◌++◌, none, some, ◌==◌}
use linear_fcgi.Common.{append_assoc}
use linear_fcgi.Queue.{Pointer, null, Memory, Queue, change, construct, link, publish, reclaim}
use linear_fcgi.Queue.Chain.{
  Cells, has, head, values, IsDistinct, IsChain, head-append, has-last, IsChain-unused, has-append,
  lookup-append, IsChain-change, IsChain-link, IsDistinct-link,
}
use mathlib.Core.Path.{subst}

module _ {ℓ} {A : Type ℓ} where
  pub record Layout (q : Queue A) (garbage taken fresh : Cells A) (end : Pointer × A) : Type ℓ where
    pub all : Cells A
    pub parts : all ≡ garbage ++ (taken ++ (end ∷ fresh))
    pub chain : IsChain q.nodes all
    pub distinct : IsDistinct all
    pub owned : (p : Pointer) → has p all ≡ false → q.nodes p ≡ none
    pub at_first : q.first ≡ head all
    pub at_divider : q.divider ≡ head (taken ++ (end ∷ fresh))
    pub at_last : q.last ≡ end.0

  abbrev pub is_nil : Cells A → Bool
  is_nil [] = true
  is_nil (x ∷ xs) = false

  -- The cells behind the node at `divider`, up to `last`.
  abbrev pub behind : Cells A → Cells A
  behind [] = []
  behind (x ∷ xs) = xs

  abbrev pub waiting : Cells A → Pointer × A → List A
  waiting taken end = values (behind (taken ++ (end ∷ [])))

or_false : (b c : Bool) → (b || c) ≡ false → (b ≡ false) × (c ≡ false)
or_false false c h = (refl, h)
or_false true c h = cc

module _ {ℓ} {A : Type ℓ} where
  pub construct-Layout :
      (t : A) (at : Pointer) → at ≢ null → Layout (construct t at) [] [] [] (at, t)
  unfolding construct change
  construct-Layout t at fresh = record {
    all = (at, t) ∷ [];
    parts = refl;
    chain = (fresh, ground arith, tt);
    distinct = (refl, tt);
    owned = λ p out. ground arith;
    at_first = refl;
    at_divider = refl;
    at_last = refl;
  }

  -- The node at `last`.
  last_node :
      {q : Queue A} {gs ds us : Cells A} (l : Pointer) (v : A)
      → Layout q gs ds us (l, v)
      → (l ≢ null) × (q.nodes l ≡ some (record { value = v; next = head us }))
  last_node {q} {gs} {ds} {us} l v y =
      lookup-append q.nodes (gs ++ ds) us l v
        (subst (IsChain q.nodes) (y.parts ∙ sym (append_assoc gs ds ((l, v) ∷ us))) y.chain)

  node_at_last :
      {q : Queue A} {gs ds us : Cells A} (l : Pointer) (v : A)
      → Layout q gs ds us (l, v)
      → q.nodes q.last ≡ some (record { value = v; next = head us })
  node_at_last {q} l v y = ap q.nodes y.at_last ∙ (last_node l v y).1

  pub publish-Layout :
      {q : Queue A} {gs ds : Cells A} (l a : Pointer) (v t : A)
      → Layout q gs ds ((a, t) ∷ []) (l, v)
      → (q' : Queue A) × (publish q ≡ some q') × Layout q' gs (ds ++ ((l, v) ∷ [])) [] (a, t)
  unfolding publish
  publish-Layout {q} {gs} {ds} l a v t y =
      let again = append_assoc ds ((l, v) ∷ []) ((a, t) ∷ []) in
      (
        record q { last = a },
        rw (node_at_last l v y) refl,
        record {
          all = y.all;
          parts = y.parts ∙ ap (λ r. gs ++ r) (sym again);
          chain = y.chain;
          distinct = y.distinct;
          owned = y.owned;
          at_first = y.at_first;
          at_divider = y.at_divider ∙ ap head (sym again);
          at_last = refl;
        },
      )

  not_linked :
      (memory : Memory A) (last at l : Pointer) (v t : A) (all front : Cells A) (p : Pointer)
      → last ≡ l
      → all ≡ front ++ ((l, v) ∷ [])
      → ((p : Pointer) → has p all ≡ false → memory p ≡ none)
      → has p (all ++ ((at, t) ∷ [])) ≡ false
      → change last
          (some (record { value = v; next = at }))
          (change at (some (record { value = t; next = null })) memory)
          p
        ≡ none
  unfolding change
  not_linked memory last at l v t all front p same parts owned outside =
      let (inner, other) =
        or_false (has p all) ((at == p) || false)
          (sym (has-append p all ((at, t) ∷ [])) ∙ outside) in
      let apart = has-last p front [] l v (subst (λ r. has p r ≡ false) parts inner) in
      ground (arith, owned p)

  pub link-Layout :
      {q : Queue A} {gs ds : Cells A} (l at : Pointer) (v t : A)
      → Layout q gs ds [] (l, v)
      → q.nodes at ≡ none
      → at ≢ null
      → (q' : Queue A) × (link t at q ≡ some q') × Layout q' gs ds ((at, t) ∷ []) (l, v)
  unfolding link
  link-Layout {q} {gs} {ds} l at v t y unused ne =
      let out = IsChain-unused q.nodes at y.all y.chain unused in
      let front = gs ++ ds in
      let old : y.all ≡ front ++ ((l, v) ∷ []) = y.parts ∙ sym (append_assoc gs ds ((l, v) ∷ [])) in
      let new = y.all ++ ((at, t) ∷ []) in
      let parts : new ≡ front ++ ((l, v) ∷ (at, t) ∷ []) =
        ap (λ r. r ++ ((at, t) ∷ [])) old ∙ append_assoc front ((l, v) ∷ []) ((at, t) ∷ []) in
      (
        record q {
          nodes =
              change q.last (some (record { value = v; next = at }))
                (change at (some (record { value = t; next = null })) q.nodes);
        },
        rw (node_at_last l v y) refl,
        record {
          all = new;
          parts = parts ∙ append_assoc gs ds ((l, v) ∷ (at, t) ∷ []);
          chain =
              subst
                (λ p.
                  IsChain
                    (change p (some (record { value = v; next = at }))
                      (change at (some (record { value = t; next = null })) q.nodes))
                    new)
                (sym y.at_last)
                (subst
                  (IsChain (
                    change l (some (record { value = v; next = at }))
                      (change at (some (record { value = t; next = null })) q.nodes)))
                  (sym parts)
                  (IsChain-link q.nodes front l at v t (subst (IsChain q.nodes) old y.chain)
                    (subst IsDistinct old y.distinct) (subst (λ r. has at r ≡ false) old out) ne));
          distinct = IsDistinct-link y.all at t y.distinct out;
          owned = λ p outside.
              not_linked q.nodes q.last at l v t y.all front p y.at_last old y.owned outside;
          at_first =
              y.at_first
              ∙ ap head old
              ∙ head-append front [] ((at, t) ∷ []) (l, v)
              ∙ ap head (sym parts);
          at_divider = y.at_divider ∙ head-append ds [] ((at, t) ∷ []) (l, v);
          at_last = y.at_last;
        },
      )

  not_reclaimed :
      (memory : Memory A) (first g : Pointer) (w : A) (rest : Cells A) (p : Pointer)
      → first ≡ g
      → (has p ((g, w) ∷ rest) ≡ false → memory p ≡ none)
      → has p rest ≡ false
      → change first none memory p ≡ none
  unfolding change
  not_reclaimed memory first g w rest p same owned outside = ground arith

  -- The first cell is deleted.
  pub reclaim-Layout :
      {q : Queue A} {gs ds us : Cells A} {end : Pointer × A} (g : Pointer) (w : A)
      → Layout q ((g, w) ∷ gs) ds us end
      → (q' : Queue A) × (reclaim q ≡ some q') × Layout q' gs ds us end
  unfolding reclaim
  reclaim-Layout {q} {gs} {ds} {us} {end} g w y =
      let rest = gs ++ (ds ++ (end ∷ us)) in
      let chain = subst (IsChain q.nodes) y.parts y.chain in
      let apart = subst IsDistinct y.parts y.distinct in
      (
        record q { first = head rest; nodes = change q.first none q.nodes },
        rw (ap q.nodes y.at_first ∙ ap (λ r. q.nodes (head r)) y.parts ∙ chain.1) refl,
        record {
          all = rest;
          parts = refl;
          chain =
              subst (λ p. IsChain (change p none q.nodes) rest) (sym (y.at_first ∙ ap head y.parts))
                (IsChain-change q.nodes g none rest chain.2 apart.0);
          distinct = apart.1;
          owned = λ p outside.
              not_reclaimed q.nodes q.first g w rest p (y.at_first ∙ ap head y.parts)
                (λ out. y.owned p (subst (λ r. has p r ≡ false) (sym y.parts) out)) outside;
          at_first = refl;
          at_divider = y.at_divider;
          at_last = y.at_last;
        },
      )
