-- ===== src/Url/RoundTrip.antt =====
-- Decoding what src/urlendecode.c encoded.
use linear_fcgi.Common.{ℕ, ◌+◌, ◌*◌, ◌≡◌, refl, ap, ◌∙◌}
use linear_fcgi.Common.{Bool, true, List, [], ◌∷◌, ◌++◌, some, append_assoc, append-nil}
use linear_fcgi.Common.{IsChar, All, length}
use linear_fcgi.Url.{encode_loop, url_encode, decode_loop, url_decode}
use linear_fcgi.Url.Chars.{decode_loop-encode_char}
use mathlib.Core.Option

decode_loop-encode_loop :
    (str rest : List ℕ)
    → All IsChar str
    → decode_loop (encode_loop str ++ rest) ≡ str ++ decode_loop rest
unfolding encode_loop
decode_loop-encode_loop [] rest h = refl
decode_loop-encode_loop (c ∷ str) rest (hc, hs) = rw append_assoc (
    decode_loop-encode_char c (encode_loop str ++ rest) hc
    ∙ ap (λ t. c ∷ t) (decode_loop-encode_loop str rest hs))

decode_loop-nil : decode_loop [] ≡ []
unfolding decode_loop
decode_loop-nil = refl

-- When every allocation succeeds, `url_decode` of what `url_encode` returns for a C string is that
-- string.
pub url_decode-url_encode :
    (malloc : ℕ → Bool) (str : List ℕ)
    → ((n : ℕ) → malloc n ≡ true)
    → All IsChar str
    → Option.bind (url_encode malloc str) (url_decode malloc) ≡ some str
unfolding url_encode url_decode Option.bind
url_decode-url_encode malloc str ok h =
    rw (ok (length str * 3 + 1), ok (length (encode_loop str) + 1)) (ap some whole)
  where
    whole : decode_loop (encode_loop str) ≡ str
    whole = simp (append-nil, decode_loop-nil) at (decode_loop-encode_loop str [] h)

-- The same for an encoding that is at hand.
pub url_decode-encoded :
    (malloc : ℕ → Bool) (str out : List ℕ)
    → ((n : ℕ) → malloc n ≡ true)
    → All IsChar str
    → url_encode malloc str ≡ some out
    → url_decode malloc out ≡ some str
unfolding Option.bind
url_decode-encoded malloc str out ok h e = rw e at (url_decode-url_encode malloc str ok h)
