-- ===== src/Request/Strtol.antt =====
-- `strtol` on a printed number.
use linear_fcgi.Common.{ℕ, ◌^◌, ◌<◌, ◌≡◌, ap, ◌∙◌, arith}
use linear_fcgi.Common.{false, List, [], ◌∷◌, append-nil, All, IsChar, length}
use linear_fcgi.Common.{c_str_of_chars, ◌==◌}
use linear_fcgi.Response.Decimal.{
  decimal, is_digit, IsDigit, read_digits, read_digits-decimal, decimal_shape,
}
use linear_fcgi.Request.Input.{is_space, skip_spaces, clamp_pos, signed, strtol}

digit-plain :
    (c : ℕ)
    → IsDigit c
    → IsChar c × (is_space c ≡ false) × ((c == b'-') ≡ false) × ((c == b'+') ≡ false)
unfolding is_digit is_space
digit-plain c h = ground arith

pub digits-IsChar : (text : List ℕ) → All IsDigit text → All IsChar text
digits-IsChar [] h = tt
digits-IsChar (c ∷ text) (h, hs) = ((digit-plain c h).0, digits-IsChar text hs)

signed_digits :
    (text : List ℕ)
    → All IsDigit text
    → 0 < length text
    → signed (skip_spaces text) ≡ clamp_pos (read_digits 0 text).0
unfolding signed skip_spaces
signed_digits [] h p = absurd (omega arith)
signed_digits (c ∷ text) (h, hs) p =
    let (_, space, minus, plus) = digit-plain c h in rw (space, minus, plus)

-- strtol reads the decimal digits of a number below 2 ^ 63 as that number, with no range error.
pub strtol-decimal : (n : ℕ) → n < 2 ^ 63 → strtol (decimal n) ≡ (n, false)
unfolding strtol
strtol-decimal n h =
    let (digits, some_digit) = decimal_shape n in
    ap (λ t. signed (skip_spaces t)) (c_str_of_chars (decimal n) (digits-IsChar _ digits))
    ∙ signed_digits (decimal n) digits some_digit
    ∙ ap (λ r. clamp_pos r.0) (read_back n)
    ∙ clamped n h
  where
    read_back : (n : ℕ) → read_digits 0 (decimal n) ≡ (n, [])
    read_back n = rw append-nil at (read_digits-decimal n [] tt)

    clamped : (n : ℕ) → n < 2 ^ 63 → clamp_pos n ≡ (n, false)
    clamped n h = unfold clamp_pos in ground arith
