-- ===== src/Common/Map.antt =====
-- std::map from byte strings: an association list with at most one entry for each key.
use linear_fcgi.Common.Tests.{if◌then◌else◌}
use linear_fcgi.Common.Text.{bytes_eq, bytes_eq_iff, bytes_eq_refl}
use linear_fcgi.Common.Lists.{length}
use Prim.Native.Nat.{ℕ, suc, ◌≤◌}
use mathlib.Core.Path.{◌≡◌, refl}
use mathlib.Core.Bool.{false}
use mathlib.Core.Option
use mathlib.Core.Option.{Option, none, some}
use mathlib.Core.List.{List, [], ◌∷◌}
use native.Mathlib.Omega.{arith}

abbrev pub Key : Type 0
Key = List ℕ

module _ {ℓ} {V : Type ℓ} where
  unfoldable pub find : Key → List (Key × V) → Option V
  unfolding bytes_eq
  find k [] = none
  find k ((j, v) ∷ m) = if bytes_eq j k then some v else find k m

  -- std::map::insert: an entry that is there already stays.
  unfoldable pub insert : Key → V → List (Key × V) → List (Key × V)
  unfolding bytes_eq
  insert k v [] = (k, v) ∷ []
  insert k v ((j, w) ∷ m) = if bytes_eq j k then (j, w) ∷ m else (j, w) ∷ insert k v m

  unfoldable pub erase : Key → List (Key × V) → List (Key × V)
  unfolding bytes_eq
  erase k [] = []
  erase k ((j, w) ∷ m) = if bytes_eq j k then m else (j, w) ∷ erase k m

  -- The assignment `m[k] = f(m[k])` to an entry that is there.
  unfoldable pub update : Key → (V → V) → List (Key × V) → List (Key × V)
  unfolding bytes_eq
  update k f [] = []
  update k f ((j, w) ∷ m) = if bytes_eq j k then (j, f w) ∷ m else (j, w) ∷ update k f m

  -- No key stands twice.
  abbrev pub Absent : Key → List (Key × V) → Type 0
  Absent k [] = Unit
  Absent k ((j, v) ∷ m) = (bytes_eq j k ≡ false) × Absent k m

  abbrev pub IsMap : List (Key × V) → Type 0
  IsMap [] = Unit
  IsMap ((j, v) ∷ m) = Absent j m × IsMap m

  unfoldable pub or_else : Option V → Option V → Option V
  or_else none o = o
  or_else (some v) o = some v

module _ {ℓ} {V : Type ℓ} where
  pub find-insert :
      (k j : Key) (v : V) (m : List (Key × V))
      → find j (insert k v m) ≡ (if bytes_eq k j then or_else (find j m) (some v) else find j m)
  unfolding find insert or_else
  find-insert k j v [] = ground arith
  find-insert k j v ((i, w) ∷ m) =
      ground (arith, bytes_eq_iff i k, bytes_eq_iff k j, bytes_eq_iff i j, find-insert k j v m)

  pub find-insert_new :
      (k : Key) (v : V) (m : List (Key × V)) → find k m ≡ none → find k (insert k v m) ≡ some v
  unfolding or_else
  find-insert_new k v m h = rw (find-insert, bytes_eq_refl, h)

  pub length-insert_new :
      (k : Key) (v : V) (m : List (Key × V))
      → find k m ≡ none
      → length (insert k v m) ≡ suc (length m)
  unfolding find insert
  length-insert_new k v [] h = refl
  length-insert_new k v ((j, w) ∷ m) h = ground (arith, length-insert_new k v m)

  pub find-Absent : (k : Key) (m : List (Key × V)) → Absent k m → find k m ≡ none
  unfolding find
  find-Absent k [] h = refl
  find-Absent k ((j, w) ∷ m) h = ground (arith, find-Absent k m)

  pub find-erase :
      (k j : Key) (m : List (Key × V))
      → IsMap m
      → find j (erase k m) ≡ (if bytes_eq k j then none else find j m)
  unfolding find erase
  find-erase k j [] h = ground arith
  find-erase k j ((i, w) ∷ m) h = ground (
    arith,
    bytes_eq_iff i k,
    bytes_eq_iff k j,
    bytes_eq_iff i j,
    find-erase k j m,
    find-Absent i m,
  )

  pub find-update :
      (k j : Key) (f : V → V) (m : List (Key × V))
      → find j (update k f m) ≡ (if bytes_eq k j then Option.map f (find j m) else find j m)
  unfolding find update
  find-update k j f [] = ground arith
  find-update k j f ((i, w) ∷ m) =
      ground (arith, bytes_eq_iff i k, bytes_eq_iff k j, bytes_eq_iff i j, find-update k j f m)

  pub length-update : (k : Key) (f : V → V) (m : List (Key × V)) → length (update k f m) ≡ length m
  unfolding update
  length-update k f [] = refl
  length-update k f ((i, w) ∷ m) = ground (arith, length-update k f m)

  pub length-erase : (k : Key) (m : List (Key × V)) → length (erase k m) ≤ length m
  unfolding erase
  length-erase k [] = omega arith
  length-erase k ((i, w) ∷ m) = ground (arith, length-erase k m)

  pub length-erase_there :
      (k : Key) (v : V) (m : List (Key × V))
      → find k m ≡ some v
      → suc (length (erase k m)) ≡ length m
  unfolding find erase
  length-erase_there k v [] h = cc
  length-erase_there k v ((i, w) ∷ m) h = ground (arith, length-erase_there k v m)

  pub erase_missing : (k : Key) (m : List (Key × V)) → find k m ≡ none → erase k m ≡ m
  unfolding find erase
  erase_missing k [] h = refl
  erase_missing k ((i, w) ∷ m) h = ground (arith, erase_missing k m)

  Absent-insert :
      (j k : Key) (v : V) (m : List (Key × V))
      → Absent j m
      → bytes_eq k j ≡ false
      → Absent j (insert k v m)
  unfolding insert
  Absent-insert j k v [] h n = (n, tt)
  Absent-insert j k v ((i, w) ∷ m) h n = ground (arith, Absent-insert j k v m)

  Absent-erase : (j k : Key) (m : List (Key × V)) → Absent j m → Absent j (erase k m)
  unfolding erase
  Absent-erase j k [] h = tt
  Absent-erase j k ((i, w) ∷ m) h = ground (arith, Absent-erase j k m)

  Absent-update :
      (j k : Key) (f : V → V) (m : List (Key × V)) → Absent j m → Absent j (update k f m)
  unfolding update
  Absent-update j k f [] h = tt
  Absent-update j k f ((i, w) ∷ m) h = ground (arith, Absent-update j k f m)

  pub insert-IsMap : (k : Key) (v : V) (m : List (Key × V)) → IsMap m → IsMap (insert k v m)
  unfolding insert
  insert-IsMap k v [] h = (tt, tt)
  insert-IsMap k v ((i, w) ∷ m) h =
      ground (arith, insert-IsMap k v m, Absent-insert i k v m, bytes_eq_iff i k, bytes_eq_iff k i)

  pub erase-IsMap : (k : Key) (m : List (Key × V)) → IsMap m → IsMap (erase k m)
  unfolding erase
  erase-IsMap k [] h = tt
  erase-IsMap k ((i, w) ∷ m) h = ground (arith, erase-IsMap k m, Absent-erase i k m)

  pub update-IsMap : (k : Key) (f : V → V) (m : List (Key × V)) → IsMap m → IsMap (update k f m)
  unfolding update
  update-IsMap k f [] h = tt
  update-IsMap k f ((i, w) ∷ m) h = ground (arith, update-IsMap k f m, Absent-update i k f m)
