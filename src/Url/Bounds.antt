-- ===== src/Url/Bounds.antt =====
-- The buffers of src/urlendecode.c are long enough, and what an encoding is made of.
use linear_fcgi.Common.{ℕ, ◌+◌, ◌*◌, ◌≤◌, ◌≡◌, arith}
use linear_fcgi.Common.{Bool, true, false, List, [], ◌∷◌, none, some}
use linear_fcgi.Common.{IsChar, All, All-append, length, length-append}
use linear_fcgi.Url.{is_plain, encode_loop, url_encode, decode_loop, url_decode}
use linear_fcgi.Url.Chars.{is_safe, length-encode_char, encode_char-safe}

length-encode_loop : (str : List ℕ) → length (encode_loop str) ≤ length str * 3
unfolding encode_loop
length-encode_loop [] = omega arith
length-encode_loop (c ∷ str) =
    rw length-append (omega (arith, length-encode_char c, length-encode_loop str))

-- What `url_encode` writes, the NUL included, fits the `strlen(str) * 3 + 1` bytes that it asked
-- for; it returns NULL exactly when that allocation fails.
pub url_encode_fits :
    (malloc : ℕ → Bool) (str : List ℕ)
    → ((out : List ℕ) → url_encode malloc str ≡ some out → length out + 1 ≤ length str * 3 + 1)
      × (url_encode malloc str ≡ none → malloc (length str * 3 + 1) ≡ false)
      × (malloc (length str * 3 + 1) ≡ false → url_encode malloc str ≡ none)
unfolding url_encode
url_encode_fits malloc str =
    (λ out h. ground (arith, length-encode_loop str), λ h. ground arith, λ h. ground arith)

length-decode_loop : (str : List ℕ) → length (decode_loop str) ≤ length str
unfolding decode_loop
length-decode_loop [] = omega arith
length-decode_loop (c ∷ []) = ground arith
length-decode_loop (c ∷ d ∷ []) = ground arith
length-decode_loop (c ∷ d ∷ e ∷ str) =
    ground (arith, length-decode_loop str, length-decode_loop (d ∷ e ∷ str))

-- What `url_decode` writes for any input, well formed or not, fits the `strlen(str) + 1` bytes that
-- it asked for; it returns NULL exactly when that allocation fails.
pub url_decode_fits :
    (malloc : ℕ → Bool) (str : List ℕ)
    → ((out : List ℕ) → url_decode malloc str ≡ some out → length out + 1 ≤ length str + 1)
      × (url_decode malloc str ≡ none → malloc (length str + 1) ≡ false)
      × (malloc (length str + 1) ≡ false → url_decode malloc str ≡ none)
unfolding url_decode
url_decode_fits malloc str =
    (λ out h. ground (arith, length-decode_loop str), λ h. ground arith, λ h. ground arith)

encode_loop-safe : (str : List ℕ) → All IsChar str → All (λ b. is_safe b ≡ true) (encode_loop str)
unfolding encode_loop
encode_loop-safe [] h = tt
encode_loop-safe (c ∷ str) (hc, hs) =
    All-append (λ b. is_safe b ≡ true) _ _ (encode_char-safe c hc.1) (encode_loop-safe str hs)

-- Every byte that `url_encode` writes for a C string is a letter, a digit or one of `-_.+%`.
pub url_encode_alphabet :
    (malloc : ℕ → Bool) (str out : List ℕ)
    → All IsChar str
    → url_encode malloc str ≡ some out
    → All (λ b. is_safe b ≡ true) out
unfolding url_encode
url_encode_alphabet malloc str out h e = ground (arith, encode_loop-safe str h)

safe-IsChar : (b : ℕ) → is_safe b ≡ true → IsChar b
unfolding is_safe is_plain
safe-IsChar b h = ground arith

All-safe-IsChar : (out : List ℕ) → All (λ b. is_safe b ≡ true) out → All IsChar out
All-safe-IsChar [] h = tt
All-safe-IsChar (b ∷ out) (hb, h) = (safe-IsChar b hb, All-safe-IsChar out h)

-- An encoding is a C string.
pub url_encode-IsChar :
    (malloc : ℕ → Bool) (str out : List ℕ)
    → All IsChar str
    → url_encode malloc str ≡ some out
    → All IsChar out
url_encode-IsChar malloc str out h e = All-safe-IsChar out (url_encode_alphabet malloc str out h e)
