-- ===== src/Queries/Split.antt =====
-- `Queries::split` against joining with `&`.
use linear_fcgi.Common.{ℕ, ◌≡◌, refl, sym, ap, ◌∙◌, ◌⊎◌, inl, inr}
use linear_fcgi.Common.{false, List, [], ◌∷◌, ◌++◌, append-nil, append_assoc}
use linear_fcgi.Common.{◌==◌, ==_iff, Bool-cases, All, All-append}
use mathlib.Core.Path.{subst}
use linear_fcgi.Queries.{split_loop, split}

-- The byte does not occur.
abbrev pub Free : ℕ → List ℕ → Type 0
Free c = All (λ b. (b == c) ≡ false)

abbrev pub join : List (List ℕ) → List ℕ
join [] = []
join (w ∷ []) = w
join (w ∷ x ∷ ws) = w ++ (b'&' ∷ join (x ∷ ws))

push_last-shape :
    (tmp : List ℕ) (c : ℕ)
    → (w : List ℕ) × (ws : List (List ℕ)) × (split_loop (tmp ++ (c ∷ [])) [] ≡ w ∷ ws)
unfolding split_loop
push_last-shape [] c = (c ∷ [], [], refl)
push_last-shape (t ∷ tmp) c = (t ∷ (tmp ++ (c ∷ [])), [], refl)

-- Something is left to read, so something is returned.
split_loop-shape :
    (tmp : List ℕ) (c : ℕ) (is : List ℕ)
    → (w : List ℕ) × (ws : List (List ℕ)) × (split_loop tmp (c ∷ is) ≡ w ∷ ws)
unfolding split_loop
split_loop-shape tmp c [] = elim (Bool-cases (c == b'&')) [
  | inl e ↦ (tmp, [], rw e)
  | inr n ↦ rw n (push_last-shape tmp c)
]
split_loop-shape tmp c (d ∷ is) = elim (Bool-cases (c == b'&')) [
  | inl e ↦ (tmp, split_loop [] (d ∷ is), rw e)
  | inr n ↦ rw n (split_loop-shape (tmp ++ (c ∷ [])) d is)
]

-- `&` goes before what the rest is joined to, if there is a rest.
join-cons :
    (tmp : List ℕ) (d : ℕ) (is : List ℕ)
    → join (tmp ∷ split_loop [] (d ∷ is)) ≡ tmp ++ (b'&' ∷ join (split_loop [] (d ∷ is)))
join-cons tmp d is = let (w, ws, e) = split_loop-shape [] d is in rw e

-- The text is back, or all of it but a last `&`.
Rejoins : List (List ℕ) → List ℕ → Type 0
Rejoins ws text = (join ws ≡ text) ⊎ (join ws ++ (b'&' ∷ []) ≡ text)

Rejoins-cons :
    (tmp : List ℕ) (d : ℕ) (is : List ℕ)
    → Rejoins (split_loop [] (d ∷ is)) (d ∷ is)
    → Rejoins (tmp ∷ split_loop [] (d ∷ is)) (tmp ++ (b'&' ∷ d ∷ is))
unfolding Rejoins
Rejoins-cons tmp d is (inl h) = inl (rw (join-cons, h))
Rejoins-cons tmp d is (inr h) = inr (rw (join-cons, append_assoc) (ap (λ t. tmp ++ (b'&' ∷ t)) h))

join-split_loop : (tmp is : List ℕ) → Rejoins (split_loop tmp is) (tmp ++ is)
unfolding split_loop Rejoins
join-split_loop [] [] = inl refl
join-split_loop (t ∷ tmp) [] = inl (sym (append-nil (t ∷ tmp)))
join-split_loop tmp (c ∷ []) = elim (Bool-cases (c == b'&')) [
  | inl e ↦ rw e (inr (ap (λ x. tmp ++ (x ∷ [])) (sym ((==_iff c b'&').0 e))))
  | inr n ↦ rw n (
      subst (Rejoins (split_loop (tmp ++ (c ∷ [])) [])) (append-nil _)
        (join-split_loop (tmp ++ (c ∷ [])) []))
]
join-split_loop tmp (c ∷ d ∷ is) = elim (Bool-cases (c == b'&')) [
  | inl e ↦ rw (e, (==_iff c b'&').0 e) (Rejoins-cons tmp d is (join-split_loop [] (d ∷ is)))
  | inr n ↦ rw n (
      subst (Rejoins (split_loop (tmp ++ (c ∷ [])) (d ∷ is))) (append_assoc tmp (c ∷ []) (d ∷ is))
        (join-split_loop (tmp ++ (c ∷ [])) (d ∷ is)))
]

split_loop-Free : (tmp is : List ℕ) → Free b'&' tmp → All (Free b'&') (split_loop tmp is)
unfolding split_loop
split_loop-Free [] [] h = tt
split_loop-Free (c ∷ tmp) [] h = (h, tt)
split_loop-Free tmp (c ∷ is) h = elim (Bool-cases (c == b'&')) [
  | inl e ↦ rw e (h, split_loop-Free [] is tt)
  | inr n ↦ rw n (split_loop-Free (tmp ++ (c ∷ [])) is (All-append _ tmp (c ∷ []) h (n, tt)))
]

pub split_loop-piece :
    (tmp w rest : List ℕ)
    → Free b'&' w
    → split_loop tmp (w ++ (b'&' ∷ rest)) ≡ (tmp ++ w) ∷ split_loop [] rest
unfolding split_loop
split_loop-piece tmp [] rest h = ap (λ t. t ∷ split_loop [] rest) (sym (append-nil tmp))
split_loop-piece tmp (c ∷ w) rest (hc, hw) = rw hc (
    split_loop-piece (tmp ++ (c ∷ [])) w rest hw
    ∙ ap (λ t. t ∷ split_loop [] rest) (append_assoc tmp (c ∷ []) w))

pub split_loop-last : (tmp w : List ℕ) → Free b'&' w → split_loop tmp w ≡ split_loop (tmp ++ w) []
unfolding split_loop
split_loop-last tmp [] h = rw append-nil
split_loop-last tmp (c ∷ w) (hc, hw) =
    rw hc (split_loop-last (tmp ++ (c ∷ [])) w hw ∙ rw append_assoc)

-- Whatever the text, no word of `split` holds an `&`, and joining the words with `&` gives the text
-- back, or all of it but an `&` at its end.
pub join-split :
    (query_data : List ℕ)
    → All (Free b'&') (split query_data)
      × ((join (split query_data) ≡ query_data)
          ⊎ (join (split query_data) ++ (b'&' ∷ []) ≡ query_data))
unfolding split Rejoins
join-split query_data = (split_loop-Free [] query_data tt, join-split_loop [] query_data)
