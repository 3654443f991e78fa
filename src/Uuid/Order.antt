-- ===== src/Uuid/Order.antt =====
-- uuid_compare of src/uuid/uuid.c orders the 16 bytes as memcmp does.
use linear_fcgi.Common.{ℕ, ◌+◌, ◌*◌, ◌<◌, ◌≡◌, sym, ap, ap₂, ◌∙◌, arith}
use linear_fcgi.Common.{List, [], ◌∷◌, All}
use linear_fcgi.Uuid.Fields.{unpack, shift_in, at, Sign, compare_then, memcmp, compare_fields}
use linear_fcgi.Uuid.Api.{compare}
use linear_fcgi.Uuid.Layout.{IsBytes, at-lt, shape}

-- Comparing a word is comparing its high part and then its last byte.
compare_then_split :
    (a b c d : ℕ) (rest : Sign)
    → b < 256
    → d < 256
    → compare_then (a * 256 + b) (c * 256 + d) rest ≡ compare_then a c (compare_then b d rest)
compare_then_split a b c d rest hb hd = ground arith

shift_in32 :
    (a b c d : ℕ)
    → a < 256
    → b < 256
    → c < 256
    → d < 256
    → shift_in 32 (shift_in 32 (shift_in 32 (shift_in 32 0 a) b) c) d
      ≡ ((a * 256 + b) * 256 + c) * 256 + d
shift_in32 a b c d ha hb hc hd = omega arith

shift_in16 : (a b : ℕ) → a < 256 → b < 256 → shift_in 16 (shift_in 16 0 a) b ≡ a * 256 + b
shift_in16 a b ha hb = omega arith

abbrev word32 : (a b c d : ℕ) → ℕ
word32 a b c d = shift_in 32 (shift_in 32 (shift_in 32 (shift_in 32 0 a) b) c) d

abbrev word16 : (a b : ℕ) → ℕ
word16 a b = shift_in 16 (shift_in 16 0 a) b

compare32 :
    (a b c d a' b' c' d' : ℕ) (rest : Sign)
    → All (λ x. x < 256) (a ∷ b ∷ c ∷ d ∷ a' ∷ b' ∷ c' ∷ d' ∷ [])
    → compare_then (word32 a b c d) (word32 a' b' c' d') rest
      ≡ compare_then a a' (compare_then b b' (compare_then c c' (compare_then d d' rest)))
compare32 a b c d a' b' c' d' rest (ha, (hb, (hc, (hd, (ha', (hb', (hc', (hd', _)))))))) =
    ap₂ (λ x y. compare_then x y rest) (shift_in32 a b c d ha hb hc hd)
      (shift_in32 a' b' c' d' ha' hb' hc' hd')
    ∙ compare_then_split ((a * 256 + b) * 256 + c) d ((a' * 256 + b') * 256 + c') d' rest hd hd'
    ∙ compare_then_split (a * 256 + b) c (a' * 256 + b') c' (compare_then d d' rest) hc hc'
    ∙ compare_then_split a b a' b' (compare_then c c' (compare_then d d' rest)) hb hb'

compare16 :
    (a b a' b' : ℕ) (rest : Sign)
    → All (λ x. x < 256) (a ∷ b ∷ a' ∷ b' ∷ [])
    → compare_then (word16 a b) (word16 a' b') rest ≡ compare_then a a' (compare_then b b' rest)
compare16 a b a' b' rest (ha, (hb, (ha', (hb', _)))) =
    ap₂ (λ x y. compare_then x y rest) (shift_in16 a b ha hb) (shift_in16 a' b' ha' hb')
    ∙ compare_then_split a b a' b' rest hb hb'

-- On two uuid_t, `uuid_compare` answers as memcmp over their 16 bytes does.
pub compare-memcmp :
    (uu1 uu2 : List ℕ) → IsBytes uu1 → IsBytes uu2 → compare uu1 uu2 ≡ memcmp uu1 uu2
unfolding compare compare_fields unpack memcmp
compare-memcmp uu1 uu2 (n1, h1) (n2, h2) =
    let p = λ (i : ℕ). at-lt uu1 i h1 in
    let q = λ (i : ℕ). at-lt uu2 i h2 in
    let at_place = λ (i : ℕ) (rest : Sign). compare_then (at uu1 i) (at uu2 i) rest in
    compare32 (at uu1 0) (at uu1 1) (at uu1 2) (at uu1 3) (at uu2 0) (at uu2 1) (at uu2 2)
      (at uu2 3) _ (p 0, (p 1, (p 2, (p 3, (q 0, (q 1, (q 2, (q 3, tt))))))))
    ∙ ap (λ t. at_place 0 (at_place 1 (at_place 2 (at_place 3 t))))
        (compare16 (at uu1 4) (at uu1 5) (at uu2 4) (at uu2 5) _ (p 4, (p 5, (q 4, (q 5, tt))))
          ∙ ap (λ t. at_place 4 (at_place 5 t))
              (compare16 (at uu1 6) (at uu1 7) (at uu2 6) (at uu2 7) _
                (p 6, (p 7, (q 6, (q 7, tt))))))
    ∙ sym (ap₂ memcmp (shape uu1 n1) (shape uu2 n2))
