-- ===== src/Log/Clock.antt =====
-- Log::GetDateTime of src/linear_fcgi_log.cc, and how its text is read back.
use linear_fcgi.Common.{ℕ, zero, suc, ◌+◌, ◌/◌, ◌<◌, ◌≤◌, ◌≡◌, refl, ap, ◌∙◌, arith}
use linear_fcgi.Common.{
  List, [], ◌∷◌, ◌++◌, append_assoc, Option, none, some, codes, take, drop, ltb, if◌then◌else◌,
}
use linear_fcgi.Common.{length, length-append, inl, inr, Bool-cases}
use linear_fcgi.Response.Decimal.{
  decimal, is_digit, read_digits, read_digits-decimal, length-decimal, Stops,
}

-- What localtime_r and gettimeofday answer.
pub record Local : Type 0 where
  pub tm_year : ℕ
  pub tm_mon : ℕ
  pub tm_mday : ℕ
  pub tm_hour : ℕ
  pub tm_min : ℕ
  pub tm_sec : ℕ
  pub tv_usec : ℕ

-- %02d and %03d.
unfoldable pub two_digits : ℕ → List ℕ
two_digits n = if ltb n 10 then b'0' ∷ decimal n else decimal n

unfoldable pub three_digits : ℕ → List ℕ
three_digits n = if ltb n 100 then b'0' ∷ two_digits n else decimal n

-- The text of snprintf before its 32 bytes cut it.
unfoldable pub full_date : Local → List ℕ
full_date t =
    decimal (t.tm_year + 1900)
    ++ (b'-'
        ∷ (two_digits (t.tm_mon + 1)
            ++ (b'-'
                ∷ (two_digits t.tm_mday
                    ++ (b' '
                        ∷ (two_digits t.tm_hour
                            ++ (b':'
                                ∷ (two_digits t.tm_min
                                    ++ (b':'
                                        ∷ (two_digits t.tm_sec
                                            ++ (b'.' ∷ three_digits (t.tv_usec / 1000))))))))))))

-- Log::GetDateTime; `none` when a call fails.
unfoldable pub date_time : Option Local → List ℕ
date_time none = take 31 (codes "ERR: fail to get date")
date_time (some t) = take 31 (full_date t)

-- The k numbers of a text, with one byte behind each, and what follows.
unfoldable pub read_numbers : ℕ → List ℕ → List ℕ × List ℕ
read_numbers zero text = ([], text)
read_numbers (suc k) text =
    let (n, rest) = read_digits 0 text in
    let (ns, rest') = read_numbers k (drop 1 rest) in (n ∷ ns, rest')

read_digits-zero : (text : List ℕ) → read_digits 0 (b'0' ∷ text) ≡ read_digits 0 text
unfolding read_digits
read_digits-zero text = refl

read_digits-two_digits :
    (n : ℕ) (rest : List ℕ) → Stops rest → read_digits 0 (two_digits n ++ rest) ≡ (n, rest)
unfolding two_digits
read_digits-two_digits n rest h = elim (Bool-cases (ltb n 10)) [
  | inl small ↦ rw small (read_digits-zero (decimal n ++ rest) ∙ read_digits-decimal n rest h)
  | inr large ↦ rw large (read_digits-decimal n rest h)
]

read_digits-three_digits :
    (n : ℕ) (rest : List ℕ) → Stops rest → read_digits 0 (three_digits n ++ rest) ≡ (n, rest)
unfolding three_digits
read_digits-three_digits n rest h = elim (Bool-cases (ltb n 100)) [
  | inl small ↦ rw small (read_digits-zero (two_digits n ++ rest) ∙ read_digits-two_digits n rest h)
  | inr large ↦ rw large (read_digits-decimal n rest h)
]

length-two_digits : (n : ℕ) → n < 100 → length (two_digits n) ≤ 2
unfolding two_digits
length-two_digits n h = elim (Bool-cases (ltb n 10)) [
  | inl small ↦ rw small (omega (arith, length-decimal 0 n (ground arith)))
  | inr large ↦ rw large (length-decimal 1 n h)
]

length-three_digits : (n : ℕ) → n < 1000 → length (three_digits n) ≤ 3
unfolding three_digits
length-three_digits n h = elim (Bool-cases (ltb n 100)) [
  | inl small ↦ rw small (omega (arith, length-two_digits n (ground arith)))
  | inr large ↦ rw large (length-decimal 2 n h)
]

-- What a calendar date and a time of day are.
pub record IsLocal (t : Local) : Type 0 where
  pub year_fits : t.tm_year + 1900 < 10000
  pub mon_fits : t.tm_mon < 12
  pub mday_fits : t.tm_mday < 32
  pub hour_fits : t.tm_hour < 24
  pub min_fits : t.tm_min < 60
  pub sec_fits : t.tm_sec < 61
  pub usec_fits : t.tv_usec < 1000000

length-field :
    (k m : ℕ) (xs : List ℕ) (c : ℕ) (ys : List ℕ)
    → length xs ≤ k
    → length ys ≤ m
    → length (xs ++ (c ∷ ys)) ≤ k + suc m
length-field k m xs c ys hx hy = omega (arith, length-append xs (c ∷ ys))

length-full_date : (t : Local) → IsLocal t → length (full_date t) ≤ 23
unfolding full_date
length-full_date t h =
    let year = length-decimal 3 (t.tm_year + 1900) h.year_fits in
    let mon = length-two_digits (t.tm_mon + 1) (omega (arith, h.mon_fits)) in
    let mday = length-two_digits t.tm_mday (omega (arith, h.mday_fits)) in
    let hour = length-two_digits t.tm_hour (omega (arith, h.hour_fits)) in
    let min = length-two_digits t.tm_min (omega (arith, h.min_fits)) in
    let sec = length-two_digits t.tm_sec (omega (arith, h.sec_fits)) in
    let msec = length-three_digits (t.tv_usec / 1000) (omega (arith, h.usec_fits)) in
    length-field 4 18 _ _ _ year (
      length-field 2 15 _ _ _ mon (
        length-field 2 12 _ _ _ mday (
          length-field 2 9 _ _ _ hour
            (length-field 2 6 _ _ _ min (length-field 2 3 _ _ _ sec msec)))))

take-short : (n : ℕ) (xs : List ℕ) → length xs ≤ n → take n xs ≡ xs
take-short zero [] h = refl
take-short zero (x ∷ xs) h = absurd (omega arith)
take-short (suc n) [] h = refl
take-short (suc n) (x ∷ xs) h = ap (λ t. x ∷ t) (take-short n xs (omega arith))

-- The numbers that the text of a date stands for.
abbrev pub numbers : Local → List ℕ
numbers t =
    (t.tm_year + 1900)
    ∷ (t.tm_mon + 1)
    ∷ t.tm_mday
    ∷ t.tm_hour
    ∷ t.tm_min
    ∷ t.tm_sec
    ∷ (t.tv_usec / 1000)
    ∷ []

-- A text from which a number is read back.
abbrev Prints : List ℕ → ℕ → Type 0
Prints xs n = (rest : List ℕ) → Stops rest → read_digits 0 (xs ++ rest) ≡ (n, rest)

-- One number more in front, and the byte behind it.
read_numbers-step :
    (k n c : ℕ) (xs ys rest : List ℕ) {r : List ℕ × List ℕ}
    → Prints xs n
    → Stops (c ∷ [])
    → read_numbers k (ys ++ rest) ≡ r
    → read_numbers (suc k) ((xs ++ (c ∷ ys)) ++ rest) ≡ (n ∷ r.0, r.1)
unfolding read_numbers
read_numbers-step k n c xs ys rest prints stops h =
    rw (append_assoc xs (c ∷ ys) rest, prints (c ∷ (ys ++ rest)) stops, h) refl

read_numbers-last :
    (n : ℕ) (rest : List ℕ) → read_numbers 1 (three_digits n ++ (b':' ∷ rest)) ≡ (n ∷ [], rest)
unfolding read_numbers is_digit
read_numbers-last n rest = rw (read_digits-three_digits n (b':' ∷ rest) refl) refl

read_numbers-full_date :
    (t : Local) (rest : List ℕ) → read_numbers 7 (full_date t ++ (b':' ∷ rest)) ≡ (numbers t, rest)
unfolding full_date is_digit
read_numbers-full_date t rest =
    read_numbers-step 6 _ _ _ _ (b':' ∷ rest) (read_digits-decimal _) refl (
      read_numbers-step 5 _ _ _ _ (b':' ∷ rest) (read_digits-two_digits _) refl (
        read_numbers-step 4 _ _ _ _ (b':' ∷ rest) (read_digits-two_digits _) refl (
          read_numbers-step 3 _ _ _ _ (b':' ∷ rest) (read_digits-two_digits _) refl (
            read_numbers-step 2 _ _ _ _ (b':' ∷ rest) (read_digits-two_digits _) refl (
              read_numbers-step 1 _ _ _ _ (b':' ∷ rest) (read_digits-two_digits _) refl
                (read_numbers-last (t.tv_usec / 1000) rest))))))

-- The numbers of a date are read back from the text that Log::GetDateTime makes of it.
pub read_numbers-date_time :
    (t : Local) (rest : List ℕ)
    → IsLocal t
    → read_numbers 7 (date_time (some t) ++ (b':' ∷ rest)) ≡ (numbers t, rest)
unfolding date_time
read_numbers-date_time t rest h =
    ap (λ d. read_numbers 7 (d ++ (b':' ∷ rest)))
      (take-short 31 (full_date t) (omega (arith, length-full_date t h)))
    ∙ read_numbers-full_date t rest
