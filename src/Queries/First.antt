-- ===== src/Queries/First.antt =====
-- `Queries::parse` and the getters: the first word with a key decides its value.
use linear_fcgi.Common.{ℕ, ◌≡◌, refl, ◌∙◌, arith}
use linear_fcgi.Common.{List, [], ◌∷◌, ◌++◌, Option, none, some}
use linear_fcgi.Common.{◌==◌, Bool-cases, inl, inr, bytes_eq, if◌then◌else◌}
use linear_fcgi.Common.Map.{Key, find, find-insert, or_else}
use linear_fcgi.Queries.{Queries, cut, insert_word, parse_loop, parse, make, split}
use mathlib.Core.Option
use linear_fcgi.Queries.Split.{Free}

-- What is left of a word behind a prefix.
unfoldable pub strip : List ℕ → List ℕ → Option (List ℕ)
strip [] word = some word
strip (p ∷ prefix) [] = none
strip (p ∷ prefix) (c ∷ word) = if p == c then strip prefix word else none

-- What stands behind `key=` in the first word that begins so.
unfoldable pub first_value : Key → List (List ℕ) → Option (List ℕ)
unfolding strip or_else
first_value key [] = none
first_value key (word ∷ words) = or_else (strip (key ++ (b'=' ∷ [])) word) (first_value key words)

value_of : Key → Option (Key × List ℕ) → Option (List ℕ)
value_of key none = none
value_of key (some (k, val)) = if bytes_eq k key then some val else none

value_of-cons :
    (k c : ℕ) (key : Key) (o : Option (Key × List ℕ))
    → value_of (k ∷ key) (Option.map (λ kv. (c ∷ kv.0, kv.1)) o)
      ≡ (if k == c then value_of key o else none)
unfolding value_of bytes_eq
value_of-cons k c key none = ground arith
value_of-cons k c key (some (i, v)) = ground arith

value_of-other :
    (c : ℕ) (o : Option (Key × List ℕ)) → value_of [] (Option.map (λ kv. (c ∷ kv.0, kv.1)) o) ≡ none
unfolding value_of bytes_eq
value_of-other c none = refl
value_of-other c (some (i, v)) = refl

-- Cutting a word at its first `=` and comparing is testing for a prefix.
cut-strip :
    (key word : List ℕ) → Free b'=' key → value_of key (cut word) ≡ strip (key ++ (b'=' ∷ [])) word
unfolding cut strip
cut-strip [] [] h = unfold value_of in refl
cut-strip (k ∷ key) [] h = unfold value_of in refl
cut-strip [] (c ∷ word) h = elim (Bool-cases (c == b'=')) [
  | inl e ↦ unfold value_of bytes_eq in ground arith
  | inr n ↦ ground (arith, value_of-other c (cut word))
]
cut-strip (k ∷ key) (c ∷ word) (hk, h) = elim (Bool-cases (c == b'=')) [
  | inl e ↦ unfold value_of bytes_eq in ground arith
  | inr n ↦ ground (arith, value_of-cons k c key (cut word), cut-strip key word h)
]

find-insert_word :
    (key : Key) (o : Option (Key × List ℕ)) (queries : Queries)
    → find key (insert_word o queries) ≡ or_else (find key queries) (value_of key o)
unfolding insert_word value_of or_else
find-insert_word key none queries = ground arith
find-insert_word key (some (k, val)) queries = ground (arith, find-insert k key val queries)

find-parse_loop :
    (key : Key) (queries : Queries) (words : List (List ℕ))
    → Free b'=' key
    → find key (parse_loop queries words) ≡ or_else (find key queries) (first_value key words)
unfolding parse_loop first_value or_else
find-parse_loop key queries [] h = ground arith
find-parse_loop key queries (word ∷ words) h = ground (
  arith,
  find-parse_loop key (insert_word (cut word) queries) words,
  find-insert_word key (cut word) queries,
  cut-strip key word,
)

-- For a key without `=`, the map that the constructor builds from any text holds what stands behind
-- `key=` in the first word of `split` that begins with `key=`, and nothing if no word does.
pub find-make :
    (key : Key) (query_data : List ℕ)
    → Free b'=' key
    → find key (make query_data) ≡ first_value key (split query_data)
unfolding make parse
find-make key query_data h =
    find-parse_loop key [] (split query_data) h ∙ unfold find or_else in refl
