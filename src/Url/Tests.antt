-- ===== src/Url/Tests.antt =====
-- Runs of src/urlendecode.c, after src/tests/urlendecode_test.cc, and the theorems at an input.
use linear_fcgi.Common.{ℕ, ◌+◌, ◌*◌, ◌≤◌, ◌≡◌, refl, arith}
use linear_fcgi.Common.{Bool, true, false, List, none, some, codes, length}
use linear_fcgi.Url.{url_encode, url_decode, encode_loop, encode_char, decode_loop}
use linear_fcgi.Url.RoundTrip.{url_decode-url_encode}
use linear_fcgi.Url.Bounds.{url_encode_fits}
use mathlib.Core.Option

abbrev always : ℕ → Bool
always n = true

abbrev greeting : List ℕ
greeting = codes "a b/c~"

greeting_encoded : url_encode always greeting ≡ some (codes "a+b%2fc%7e")
unfolding url_encode encode_loop encode_char
greeting_encoded = refl

-- An escape that the string cuts short loses its `%`.
cut_escape : url_decode always (codes "x%4") ≡ some (codes "x4")
unfolding url_decode decode_loop
cut_escape = refl

url_decode-url_encode_example :
    Option.bind (url_encode always greeting) (url_decode always) ≡ some greeting
url_decode-url_encode_example = url_decode-url_encode always greeting (λ n. refl) (omega arith)

url_encode_fits_example :
    ((out : List ℕ)
      → url_encode always greeting ≡ some out
      → length out + 1 ≤ length greeting * 3 + 1)
    × (url_encode always greeting ≡ none → always (length greeting * 3 + 1) ≡ false)
    × (always (length greeting * 3 + 1) ≡ false → url_encode always greeting ≡ none)
url_encode_fits_example = url_encode_fits always greeting
