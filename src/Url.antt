-- ===== src/Url.antt =====
-- src/urlendecode.c: percent encoding. A `char` is its byte, and a C string the list of its chars
-- without the NUL. `malloc n` is `true` when an allocation of n bytes succeeds; a result is `none`
-- where the source returns NULL, and otherwise what it wrote into the buffer before the final NUL.
pub mod Chars
pub mod RoundTrip
pub mod Bounds
mod Tests
use linear_fcgi.Common.{ℕ, ◌+◌, ◌-◌, ◌*◌, ◌/◌, ◌%◌, bit_and, bit_or, Bool, ◌&&◌, ◌||◌, not}
use linear_fcgi.Common.{List, [], ◌∷◌, ◌++◌, Option, none, some, if◌then◌else◌, leb, ltb, ◌==◌}
use linear_fcgi.Common.{codes, length, get_or}

-- <ctype.h> in the C locale, on a byte.
unfoldable pub is_digit : ℕ → Bool
is_digit c = leb b'0' c && leb c b'9'

unfoldable pub is_upper : ℕ → Bool
is_upper c = leb b'A' c && leb c b'Z'

unfoldable pub is_lower : ℕ → Bool
is_lower c = leb b'a' c && leb c b'z'

unfoldable pub is_alnum : ℕ → Bool
unfolding is_digit is_upper is_lower
is_alnum c = is_digit c || is_upper c || is_lower c

unfoldable pub to_lower : ℕ → ℕ
unfolding is_upper
to_lower c = if is_upper c then c + 32 else c

-- The result is a `char`: `- 'a' + 10` is added modulo 256.
unfoldable pub from_hex : ℕ → ℕ
unfolding is_digit to_lower
from_hex ch = if is_digit ch then ch - b'0' else (to_lower ch + (256 - b'a' + 10)) % 256

abbrev hex : List ℕ
hex = codes "0123456789abcdef"

unfoldable pub to_hex : ℕ → ℕ
to_hex code = get_or hex (bit_and code 15) 0

-- `ch >> 4` of a signed `char`: the shift copies the sign bit.
unfoldable pub shift_right_4 : ℕ → ℕ
shift_right_4 ch = if ltb ch 128 then ch / 16 else ch / 16 + 240

unfoldable pub is_plain : ℕ → Bool
unfolding is_alnum
is_plain c = is_alnum c || c == b'-' || c == b'_' || c == b'.'

unfoldable pub encode_char : ℕ → List ℕ
unfolding is_plain to_hex shift_right_4
encode_char c =
    if is_plain c
    then c ∷ []
    else if c == b' '
    then b'+' ∷ []
    else b'%' ∷ to_hex (shift_right_4 c) ∷ to_hex (bit_and c 15) ∷ []

-- The loop of `url_encode`: what goes to `pbuf`.
unfoldable pub encode_loop : List ℕ → List ℕ
encode_loop [] = []
encode_loop (c ∷ str) = encode_char c ++ encode_loop str

unfoldable pub url_encode : (malloc : ℕ → Bool) → List ℕ → Option (List ℕ)
url_encode malloc str = if not (malloc (length str * 3 + 1)) then none else some (encode_loop str)

-- `from_hex(a) << 4 | from_hex(b)`, stored into a `char`.
unfoldable pub hex_pair : ℕ → ℕ → ℕ
unfolding from_hex
hex_pair a b = bit_or (from_hex a * 16 % 256) (from_hex b)

unfoldable pub decode_char : ℕ → ℕ
decode_char c = if c == b'+' then b' ' else c

-- The loop of `url_decode`. `pstr[1] && pstr[2]` asks whether two more chars stand before the NUL;
-- if not, the `%` alone is skipped.
unfoldable pub decode_loop : List ℕ → List ℕ
unfolding hex_pair decode_char
decode_loop [] = []
decode_loop (c ∷ []) = if c == b'%' then [] else decode_char c ∷ []
decode_loop (c ∷ d ∷ []) =
    let rest = decode_loop (d ∷ []) in if c == b'%' then rest else decode_char c ∷ rest
decode_loop (c ∷ d ∷ e ∷ str) =
    let escaped = hex_pair d e ∷ decode_loop str in
    let plain = decode_char c ∷ decode_loop (d ∷ e ∷ str) in if c == b'%' then escaped else plain

unfoldable pub url_decode : (malloc : ℕ → Bool) → List ℕ → Option (List ℕ)
url_decode malloc str = if not (malloc (length str + 1)) then none else some (decode_loop str)
