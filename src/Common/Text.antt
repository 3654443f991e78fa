-- ===== src/Common/Text.antt =====
-- Byte strings: the code points of a literal, equality, and the part of a buffer before its NUL.
use Prim.Native.Char.{code}
use Prim.Native.String.{String}
use Prim.Native.Nat.{ℕ, ◌<◌}
use mathlib.Core.Path.{◌≡◌, refl}
use mathlib.Core.Logic.{◌↔◌}
use mathlib.Core.Bool.{Bool, true, false, ◌&&◌}
use mathlib.Core.List.{List, [], ◌∷◌}
use native.Mathlib.Omega.{arith}
use linear_fcgi.Common.Tests.{◌==◌, if◌then◌else◌}
use linear_fcgi.Common.Lists.{All}

-- The code points of a text: its bytes, if it is ASCII.
abbrev pub codes : String → List ℕ
codes String.[] = []
codes (String.◌∷◌ c s) = code c ∷ codes s

-- std::string's `==`.
unfoldable pub bytes_eq : List ℕ → List ℕ → Bool
bytes_eq [] [] = true
bytes_eq [] (y ∷ ys) = false
bytes_eq (x ∷ xs) [] = false
bytes_eq (x ∷ xs) (y ∷ ys) = x == y && bytes_eq xs ys

pub bytes_eq_iff : (xs ys : List ℕ) → (bytes_eq xs ys ≡ true) ↔ (xs ≡ ys)
unfolding bytes_eq
bytes_eq_iff [] [] = (λ _. refl, λ _. refl)
bytes_eq_iff [] (y ∷ ys) = (λ h. cc, λ h. cc)
bytes_eq_iff (x ∷ xs) [] = (λ h. cc, λ h. cc)
bytes_eq_iff (x ∷ xs) (y ∷ ys) =
    let ih = bytes_eq_iff xs ys in (λ h. ground (arith, ih), λ h. ground (arith, ih))

pub bytes_eq_refl : (xs : List ℕ) → bytes_eq xs xs ≡ true
bytes_eq_refl xs = (bytes_eq_iff xs xs).1 refl

-- A `char` that a C string can hold: not the NUL that ends it.
abbrev pub IsChar : ℕ → Type 0
IsChar b = (0 < b) × (b < 256)

-- What a C function that is given `s.c_str()` sees of `s`.
unfoldable pub c_str : List ℕ → List ℕ
c_str [] = []
c_str (x ∷ xs) = let rest = x ∷ c_str xs in if x == 0 then [] else rest

pub c_str_of_chars : (xs : List ℕ) → All IsChar xs → c_str xs ≡ xs
unfolding c_str
c_str_of_chars [] h = refl
c_str_of_chars (x ∷ xs) h = ground (arith, c_str_of_chars xs)
