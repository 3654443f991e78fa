-- ===== src/Response/Decimal.antt =====
-- Numbers as the standard streams print them in base 10, and how a reader takes them back.
use linear_fcgi.Common.{
  ℕ, zero, suc, ◌+◌, ◌-◌, ◌*◌, ◌/◌, ◌%◌, ◌^◌, ◌<◌, ◌≤◌, ◌≡◌, refl, ap, ◌∙◌, arith,
}
use native.Mathlib.Nat.{pow-suc}
use linear_fcgi.Common.{Bool, true, false, ◌&&◌, List, [], ◌∷◌, ◌++◌, All}
use linear_fcgi.Common.{if◌then◌else◌, leb, ltb, Bool-cases, inl, inr, length}

-- The digits in front of `rest`, with fuel.
print_loop : (fuel n : ℕ) → List ℕ → List ℕ
print_loop zero n rest = rest
print_loop (suc fuel) n rest =
    let more = print_loop fuel (n / 10) ((b'0' + n % 10) ∷ rest) in
    if ltb n 10 then (b'0' + n) ∷ rest else more

-- `os << n`. A number has fewer digits than n + 1.
unfoldable pub decimal : ℕ → List ℕ
unfolding print_loop
decimal n = print_loop (suc n) n []

unfoldable pub is_digit : ℕ → Bool
is_digit c = leb b'0' c && leb c b'9'

-- The number that the digits at the front spell, after `acc`, and what follows them.
unfoldable pub read_digits : ℕ → List ℕ → ℕ × List ℕ
unfolding is_digit
read_digits acc [] = (acc, [])
read_digits acc (c ∷ text) =
    let more = read_digits (acc * 10 + (c - b'0')) text in
    if is_digit c then more else (acc, c ∷ text)

-- No digit follows.
abbrev pub Stops : List ℕ → Type 0
Stops [] = Unit
Stops (c ∷ text) = is_digit c ≡ false

digit : (d : ℕ) → d < 10 → is_digit (b'0' + d) ≡ true
unfolding is_digit
digit d h = ground arith

read_digit :
    (acc d : ℕ) (rest : List ℕ)
    → d < 10
    → read_digits acc ((b'0' + d) ∷ rest) ≡ read_digits (acc * 10 + d) rest
unfolding read_digits
read_digit acc d rest h = rw (digit d h) (ap (λ t. read_digits (acc * 10 + t) rest) (omega arith))

read_digits-print_loop :
    (fuel n : ℕ) (rest : List ℕ)
    → n < fuel
    → read_digits 0 (print_loop fuel n rest) ≡ read_digits n rest
unfolding print_loop
read_digits-print_loop zero n rest h = absurd (omega arith)
read_digits-print_loop (suc fuel) n rest h = elim (Bool-cases (ltb n 10)) [
  | inl small ↦
      rw small (read_digit 0 n rest (ground arith) ∙ ap (λ t. read_digits t rest) (omega arith))
  | inr large ↦ rw large (
      read_digits-print_loop fuel (n / 10) ((b'0' + n % 10) ∷ rest) (ground arith)
      ∙ read_digit (n / 10) (n % 10) rest (omega arith)
      ∙ ap (λ t. read_digits t rest) (omega arith))
]

print_loop-append :
    (fuel n : ℕ) (front rest : List ℕ)
    → print_loop fuel n front ++ rest ≡ print_loop fuel n (front ++ rest)
unfolding print_loop
print_loop-append zero n front rest = refl
print_loop-append (suc fuel) n front rest =
    ground (arith, print_loop-append fuel (n / 10) ((b'0' + n % 10) ∷ front) rest)

read_digits-Stops : (n : ℕ) (rest : List ℕ) → Stops rest → read_digits n rest ≡ (n, rest)
unfolding read_digits
read_digits-Stops n [] h = refl
read_digits-Stops n (c ∷ rest) h = rw h

-- A printed number in front of something that is no digit is read back.
pub read_digits-decimal :
    (n : ℕ) (rest : List ℕ) → Stops rest → read_digits 0 (decimal n ++ rest) ≡ (n, rest)
unfolding decimal
read_digits-decimal n rest h =
    ap (read_digits 0) (print_loop-append (suc n) n [] rest)
    ∙ read_digits-print_loop (suc n) n rest (omega arith)
    ∙ read_digits-Stops n rest h

abbrev pub IsDigit : ℕ → Type 0
IsDigit c = is_digit c ≡ true

print_loop-IsDigit :
    (fuel n : ℕ) (rest : List ℕ) → All IsDigit rest → All IsDigit (print_loop fuel n rest)
unfolding print_loop
print_loop-IsDigit zero n rest h = h
print_loop-IsDigit (suc fuel) n rest h = elim (Bool-cases (ltb n 10)) [
  | inl small ↦ rw small (digit n (ground arith), h)
  | inr large ↦
      rw large (
        print_loop-IsDigit fuel (n / 10) ((b'0' + n % 10) ∷ rest) (digit (n % 10) (omega arith), h))
]

length-print_loop :
    (fuel n : ℕ) (rest : List ℕ) → n < fuel → length rest < length (print_loop fuel n rest)
unfolding print_loop
length-print_loop zero n rest h = absurd (omega arith)
length-print_loop (suc fuel) n rest h =
    ground (arith, length-print_loop fuel (n / 10) ((b'0' + n % 10) ∷ rest))

-- A number is printed as digits, one at least.
pub decimal_shape : (n : ℕ) → All IsDigit (decimal n) × (0 < length (decimal n))
unfolding decimal
decimal_shape n = (print_loop-IsDigit (suc n) n [] tt, length-print_loop (suc n) n [] (omega arith))

length-print_loop-upper :
    (k fuel n : ℕ) (rest : List ℕ)
    → n < 10 ^ suc k
    → length (print_loop fuel n rest) ≤ suc k + length rest
unfolding print_loop
length-print_loop-upper k zero n rest h = omega arith
length-print_loop-upper zero (suc fuel) n rest h =
    let small : ltb n 10 ≡ true = ground arith in rw small (omega arith)
length-print_loop-upper (suc k) (suc fuel) n rest h = elim (Bool-cases (ltb n 10)) [
  | inl small ↦ rw small (omega arith)
  | inr large ↦ rw large (
      omega (
        arith,
        length-print_loop-upper k fuel (n / 10) ((b'0' + n % 10) ∷ rest)
            (omega (arith, pow-suc 10 (suc k))),
      ))
]

-- A number below 10 ^ (k + 1) has at most k + 1 digits.
pub length-decimal : (k n : ℕ) → n < 10 ^ suc k → length (decimal n) ≤ suc k
unfolding decimal
length-decimal k n h = omega (arith, length-print_loop-upper k (suc n) n [] h)
