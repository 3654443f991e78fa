-- ===== src/Queries/RoundTrip.antt =====
-- `Queries` reads back what a client writes as `key=value&...`.
use linear_fcgi.Common.{ℕ, ◌≡◌, refl, ap, ◌∙◌, arith}
use linear_fcgi.Common.{List, [], ◌∷◌, ◌++◌, none, some, map}
use linear_fcgi.Common.{All, All-append, bytes_eq, if◌then◌else◌}
use linear_fcgi.Common.Map.{Key, find, or_else}
use linear_fcgi.Queries.{split_loop, split, make}
use linear_fcgi.Queries.Split.{Free, join, split_loop-piece, split_loop-last}
use linear_fcgi.Queries.First.{strip, first_value, find-make}

-- `key=value`.
abbrev pub word_of : Key × List ℕ → List ℕ
word_of (key, val) = key ++ (b'=' ∷ val)

-- A query string for a list of fields.
abbrev pub render : List (Key × List ℕ) → List ℕ
render fields = join (map word_of fields)

-- The separators stand in no key, and `&` in no value.
abbrev pub IsField : Key × List ℕ → Type 0
IsField (key, val) = Free b'=' key × Free b'&' key × Free b'&' val

word_of-Free : (field : Key × List ℕ) → IsField field → Free b'&' (word_of field)
word_of-Free (key, val) (h, hk, hv) = All-append _ key (b'=' ∷ val) hk (refl, hv)

word_alone : (key val : List ℕ) → split_loop (word_of (key, val)) [] ≡ word_of (key, val) ∷ []
unfolding split_loop
word_alone [] val = refl
word_alone (c ∷ key) val = refl

split-render :
    (fields : List (Key × List ℕ)) → All IsField fields → split (render fields) ≡ map word_of fields
unfolding split
split-render [] h = unfold split_loop in refl
split-render ((key, val) ∷ []) (h, _) =
    split_loop-last [] (word_of (key, val)) (word_of-Free (key, val) h) ∙ word_alone key val
split-render ((key, val) ∷ field ∷ fields) (h, hs) =
    split_loop-piece [] (word_of (key, val)) (render (field ∷ fields)) (word_of-Free (key, val) h)
    ∙ ap (λ t. word_of (key, val) ∷ t) (split-render (field ∷ fields) hs)

strip-append :
    (key k val : List ℕ)
    → Free b'=' key
    → Free b'=' k
    → strip (key ++ (b'=' ∷ [])) (k ++ (b'=' ∷ val)) ≡ (if bytes_eq k key then some val else none)
unfolding strip bytes_eq
strip-append [] [] val h hk = refl
strip-append [] (c ∷ k) val h hk = ground arith
strip-append (c ∷ key) [] val h hk = ground arith
strip-append (c ∷ key) (d ∷ k) val h hk = ground (arith, strip-append key k val)

first_value-words :
    (key : Key) (fields : List (Key × List ℕ))
    → Free b'=' key
    → All IsField fields
    → first_value key (map word_of fields) ≡ find key fields
unfolding first_value find or_else
first_value-words key [] h hs = refl
first_value-words key ((k, val) ∷ fields) h (hf, hs) =
    ground (arith, strip-append key k val h hf.0, first_value-words key fields h hs)

-- From fields whose keys hold no `=` or `&` and whose values hold no `&`, written `key=value` and
-- joined by `&`, the constructor builds a map with the first value of every key that has no `=`.
pub find-make-render :
    (key : Key) (fields : List (Key × List ℕ))
    → Free b'=' key
    → All IsField fields
    → find key (make (render fields)) ≡ find key fields
find-make-render key fields h hs =
    find-make key (render fields) h
    ∙ ap (first_value key) (split-render fields hs)
    ∙ first_value-words key fields h hs
