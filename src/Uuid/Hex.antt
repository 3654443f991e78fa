-- ===== src/Uuid/Hex.antt =====
-- src/uuid/_uuid_impl.c: a UUID as a text of 36 characters.
use linear_fcgi.Common.{
  ℕ, zero, suc, ◌+◌, ◌-◌, ◌*◌, ◌/◌, ◌%◌, ◌^◌, Bool, true, false, not, ◌&&◌, ◌||◌,
}
use linear_fcgi.Common.{List, [], ◌∷◌, Option, none, some, if◌then◌else◌, ltb, leb, ◌==◌}
use linear_fcgi.Common.{drop, bit_and}
use linear_fcgi.Uuid.Fields.{Uuid, Node, at}

-- <ctype.h>'s isxdigit.
unfoldable pub is_xdigit : ℕ → Bool
is_xdigit c = leb b'0' c && leb c b'9' || leb b'a' c && leb c b'f' || leb b'A' c && leb c b'F'

unfoldable pub hex_value : ℕ → ℕ
hex_value c = if leb c b'9' then c - b'0' else if leb c b'F' then c - b'A' + 10 else c - b'a' + 10

-- strtoul(text, NULL, 16) on a text that begins with hexadecimal digits; no field is long enough to
-- pass ULONG_MAX.
unfoldable pub strtoul : ℕ → List ℕ → ℕ
unfolding is_xdigit hex_value
strtoul acc [] = acc
strtoul acc (c ∷ text) =
    let more = strtoul (acc * 16 + hex_value c) text in if is_xdigit c then more else acc

is_dash_place : ℕ → Bool
is_dash_place i = i == 8 || i == 13 || i == 18 || i == 23

-- The loop of _uuid_parse at place `i`, with the rounds left; what lies behind the text is NUL.
unfoldable pub well_formed : (rounds i : ℕ) → List ℕ → Bool
unfolding is_dash_place is_xdigit
well_formed zero i text = true
well_formed (suc rounds) i [] = false
well_formed (suc rounds) i (c ∷ text) =
    let rest = well_formed rounds (i + 1) text in
    if is_dash_place i then c == b'-' && rest else is_xdigit c && rest

-- The loop over `tmp`: byte `i` of the node.
unfoldable pub pair_at : List ℕ → ℕ → ℕ
pair_at text i = strtoul 0 (at text (24 + 2 * i) ∷ at text (25 + 2 * i) ∷ []) % 256

-- _uuid_parse; `none` for -1.
unfoldable pub parse_fields : List ℕ → Option Uuid
unfolding well_formed strtoul pair_at
parse_fields text =
    if not (well_formed 36 0 text)
    then none
    else some (record {
      time_low = strtoul 0 text % 2 ^ 32;
      time_mid = strtoul 0 (drop 9 text) % 2 ^ 16;
      time_hi_and_version = strtoul 0 (drop 14 text) % 2 ^ 16;
      clock_seq_hi_and_reserved = bit_and (strtoul 0 (drop 19 text)) 0xff00 / 2 ^ 8 % 2 ^ 8;
      clock_seq_low = bit_and (strtoul 0 (drop 19 text)) 0x0ff % 2 ^ 8;
      node = (
        pair_at text 0,
        pair_at text 1,
        pair_at text 2,
        pair_at text 3,
        pair_at text 4,
        pair_at text 5,
      );
    })

unfoldable pub hex_digit : ℕ → ℕ
hex_digit d = if ltb d 10 then b'0' + d else b'a' + (d - 10)

-- `%0kx` of a value below 16 ^ k, in front of `rest`.
unfoldable pub print_hex : (k n : ℕ) → List ℕ → List ℕ
unfolding hex_digit
print_hex zero n rest = rest
print_hex (suc k) n rest = print_hex k (n / 16) (hex_digit (n % 16) ∷ rest)

unfoldable pub print_node : Node → List ℕ
unfolding print_hex
print_node (a, b, c, d, e, f) =
    print_hex 2 a (print_hex 2 b (print_hex 2 c (print_hex 2 d (print_hex 2 e (print_hex 2 f [])))))

-- _uuid_unparse.
unfoldable pub unparse_fields : Uuid → List ℕ
unfolding print_hex print_node
unparse_fields u = print_hex 8 u.time_low (
    b'-'
    ∷ print_hex 4 u.time_mid (
        b'-'
        ∷ print_hex 4 u.time_hi_and_version (
            b'-'
            ∷ print_hex 2 u.clock_seq_hi_and_reserved
                (print_hex 2 u.clock_seq_low (b'-' ∷ print_node u.node)))))
