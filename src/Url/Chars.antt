-- ===== src/Url/Chars.antt =====
-- One character of src/urlendecode.c at a time, by tables over the 256 bytes.
use linear_fcgi.Common.{ℕ, ◌≤◌, ◌<◌, bit_and, ◌≡◌, refl, arith}
use linear_fcgi.Common.{Bool, true, false, ◌&&◌, ◌||◌, List, [], ◌∷◌, ◌++◌}
use linear_fcgi.Common.{◌==◌, ==_iff, length, IsChar, All}
use linear_fcgi.Common.Bits.{every_below, every_below_sound}
use linear_fcgi.Url.{
  is_plain, to_hex, shift_right_4, encode_char, hex_pair, decode_char, decode_loop,
}

-- The two digits that stand for a byte.
unfoldable pub high_digit : ℕ → ℕ
high_digit c = to_hex (shift_right_4 c)

unfoldable pub low_digit : ℕ → ℕ
low_digit c = to_hex (bit_and c 15)

hex_table : every_below 256 (λ c. hex_pair (high_digit c) (low_digit c) == c) ≡ true
unfolding every_below hex_pair high_digit low_digit to_hex shift_right_4
hex_table = refl

pub hex_pair-digits : (c : ℕ) → c < 256 → hex_pair (high_digit c) (low_digit c) ≡ c
hex_pair-digits c h = (==_iff _ _).0 (every_below_sound 256 _ c hex_table h)

-- The alphabet of an encoding.
unfoldable pub is_safe : ℕ → Bool
is_safe c = is_plain c || c == b'+' || c == b'%'

safe_of_plain : (c : ℕ) → is_plain c ≡ true → is_safe c ≡ true
unfolding is_safe
safe_of_plain c h = rw h

safe_plus : is_safe b'+' ≡ true
unfolding is_safe is_plain
safe_plus = refl

safe_percent : is_safe b'%' ≡ true
unfolding is_safe is_plain
safe_percent = refl

digit_table : every_below 256 (λ c. is_safe (high_digit c) && is_safe (low_digit c)) ≡ true
unfolding every_below is_safe is_plain high_digit low_digit to_hex shift_right_4
digit_table = refl

pub digits-safe :
    (c : ℕ) → c < 256 → (is_safe (high_digit c) ≡ true) × (is_safe (low_digit c) ≡ true)
digits-safe c h = ground (arith, every_below_sound 256 _ c digit_table h)

-- A char that is kept is neither of the two that `url_decode` treats specially.
pub plain_not_special : (c : ℕ) → is_plain c ≡ true → ((c == b'%') ≡ false) × ((c == b'+') ≡ false)
unfolding is_plain
plain_not_special c h = ground arith

-- A char other than `%` is decoded alone, whatever follows it.
pub decode_loop-other :
    (c : ℕ) (rest : List ℕ)
    → (c == b'%') ≡ false
    → decode_loop (c ∷ rest) ≡ decode_char c ∷ decode_loop rest
unfolding decode_loop
decode_loop-other c [] h = rw h
decode_loop-other c (d ∷ []) h = rw h
decode_loop-other c (d ∷ e ∷ rest) h = rw h

decode_loop-escape :
    (d e : ℕ) (rest : List ℕ) → decode_loop (b'%' ∷ d ∷ e ∷ rest) ≡ hex_pair d e ∷ decode_loop rest
unfolding decode_loop
decode_loop-escape d e rest = refl

decode_loop-plus : (rest : List ℕ) → decode_loop (b'+' ∷ rest) ≡ b' ' ∷ decode_loop rest
unfolding decode_char
decode_loop-plus rest = decode_loop-other b'+' rest refl

pub decode_loop-encode_char :
    (c : ℕ) (rest : List ℕ) → IsChar c → decode_loop (encode_char c ++ rest) ≡ c ∷ decode_loop rest
unfolding encode_char decode_char high_digit low_digit
decode_loop-encode_char c rest h = ground (
  arith,
  plain_not_special c,
  decode_loop-other c rest,
  decode_loop-plus rest,
  decode_loop-escape (high_digit c) (low_digit c) rest,
  hex_pair-digits c,
)

pub length-encode_char : (c : ℕ) → length (encode_char c) ≤ 3
unfolding encode_char
length-encode_char c = ground arith

pub encode_char-safe : (c : ℕ) → c < 256 → All (λ b. is_safe b ≡ true) (encode_char c)
unfolding encode_char high_digit low_digit
encode_char-safe c h = ground (arith, digits-safe c h, safe_of_plain c, safe_plus, safe_percent)
