-- ===== src/Uuid/RoundTrip.antt =====
-- The text form of a UUID is read back by _uuid_parse.
use linear_fcgi.Common.{ℕ, zero, suc, ◌+◌, ◌*◌, ◌/◌, ◌%◌, ◌^◌, ◌<◌, ◌≡◌, refl, ap, ◌∙◌, arith}
use linear_fcgi.Common.{true, List, [], ◌∷◌, some, drop, ◌&&◌, bit_and, ◌==◌, ==_iff}
use linear_fcgi.Common.Bits.{every_below, every_below_sound}
use linear_fcgi.Uuid.Fields.{Uuid, unpack}
use linear_fcgi.Uuid.Hex.{
  is_xdigit, hex_value, strtoul, pair_at, well_formed, parse_fields, hex_digit, print_hex,
  print_node, unparse_fields,
}
use native.Mathlib.Nat.{pow-suc}
use linear_fcgi.Uuid.Api.{parse, unparse}
use linear_fcgi.Uuid.Layout.{IsUuid, IsBytes, pack-unpack, unpack-IsUuid}

high_table : every_below 65536 (λ x. bit_and x 0xff00 / 256 == x / 256) ≡ true
unfolding every_below
high_table = refl

bit_and-high : (x : ℕ) → x < 65536 → bit_and x 0xff00 / 256 ≡ x / 256
bit_and-high x h = (==_iff _ _).0 (every_below_sound 65536 _ x high_table h)

low_table : every_below 65536 (λ x. bit_and x 0x0ff == x % 256) ≡ true
unfolding every_below
low_table = refl

bit_and-low : (x : ℕ) → x < 65536 → bit_and x 0x0ff ≡ x % 256
bit_and-low x h = (==_iff _ _).0 (every_below_sound 65536 _ x low_table h)

digit_table : every_below 16 (λ d. is_xdigit (hex_digit d) && hex_value (hex_digit d) == d) ≡ true
unfolding every_below is_xdigit hex_digit hex_value
digit_table = refl

digit_lem :
    (n : ℕ) → (is_xdigit (hex_digit (n % 16)) ≡ true) × (hex_value (hex_digit (n % 16)) ≡ n % 16)
digit_lem n = ground (arith, every_below_sound 16 _ (n % 16) digit_table (omega arith))

strtoul_digit :
    (acc n : ℕ) (rest : List ℕ)
    → strtoul acc (hex_digit (n % 16) ∷ rest) ≡ strtoul (acc * 16 + n % 16) rest
unfolding strtoul
strtoul_digit acc n rest = rw ((digit_lem n).0, (digit_lem n).1)

strtoul-print_hex :
    (k n : ℕ) (rest : List ℕ) → n < 16 ^ k → strtoul 0 (print_hex k n rest) ≡ strtoul n rest
unfolding print_hex
strtoul-print_hex zero n rest h = ap (λ t. strtoul t rest) (omega arith)
strtoul-print_hex (suc k) n rest h =
    strtoul-print_hex k (n / 16) (hex_digit (n % 16) ∷ rest) (omega (arith, pow-suc 16 k))
    ∙ strtoul_digit (n / 16) n rest
    ∙ ap (λ t. strtoul t rest) (omega arith)

strtoul-dash : (n : ℕ) (rest : List ℕ) → strtoul n (b'-' ∷ rest) ≡ n
unfolding strtoul
strtoul-dash n rest = refl

-- A field of k digits with a dash behind it.
strtoul_field : (k n : ℕ) (rest : List ℕ) → n < 16 ^ k → strtoul 0 (print_hex k n (b'-' ∷ rest)) ≡ n
strtoul_field k n rest h = strtoul-print_hex k n (b'-' ∷ rest) h ∙ strtoul-dash n rest

nibble : (n : ℕ) → is_xdigit (hex_digit (n % 16)) ≡ true
nibble n = (digit_lem n).0

well_formed-unparse : (u : Uuid) → well_formed 36 0 (unparse_fields u) ≡ true
unfolding well_formed unparse_fields
well_formed-unparse u = simp nibble

-- The clock sequence is two fields without a dash between them.
clock_text :
    (hi lo : ℕ) (rest : List ℕ)
    → hi < 256
    → lo < 256
    → strtoul 0 (print_hex 2 hi (print_hex 2 lo (b'-' ∷ rest))) ≡ hi * 256 + lo
unfolding print_hex
clock_text hi lo rest hh hl =
    strtoul-print_hex 2 hi (print_hex 2 lo (b'-' ∷ rest)) (omega arith)
    ∙ strtoul_digit hi (lo / 16) (hex_digit (lo % 16) ∷ b'-' ∷ rest)
    ∙ strtoul_digit (hi * 16 + lo / 16 % 16) lo (b'-' ∷ rest)
    ∙ strtoul-dash ((hi * 16 + lo / 16 % 16) * 16 + lo % 16) rest
    ∙ omega arith

pair_text : (b : ℕ) → b < 256 → strtoul 0 (print_hex 2 b []) % 256 ≡ b
unfolding strtoul
pair_text b h = omega (arith, strtoul-print_hex 2 b [] (omega arith))

-- The text behind each dash.
abbrev from_clock : Uuid → List ℕ
from_clock u =
    print_hex 2 u.clock_seq_hi_and_reserved (print_hex 2 u.clock_seq_low (b'-' ∷ print_node u.node))

abbrev from_hi : Uuid → List ℕ
from_hi u = print_hex 4 u.time_hi_and_version (b'-' ∷ from_clock u)

abbrev from_mid : Uuid → List ℕ
from_mid u = print_hex 4 u.time_mid (b'-' ∷ from_hi u)

module _ (u : Uuid) (v : IsUuid u) where
  low_field : strtoul 0 (unparse_fields u) % 2 ^ 32 ≡ u.time_low
  unfolding unparse_fields
  low_field = omega (arith, strtoul_field 8 u.time_low (from_mid u) (omega arith))

  mid_field : strtoul 0 (drop 9 (unparse_fields u)) % 2 ^ 16 ≡ u.time_mid
  unfolding unparse_fields
  mid_field = omega (arith, strtoul_field 4 u.time_mid (from_hi u) (omega arith))

  hi_field : strtoul 0 (drop 14 (unparse_fields u)) % 2 ^ 16 ≡ u.time_hi_and_version
  unfolding unparse_fields
  hi_field = omega (arith, strtoul_field 4 u.time_hi_and_version (from_clock u) (omega arith))

  clock_value :
      strtoul 0 (drop 19 (unparse_fields u)) ≡ u.clock_seq_hi_and_reserved * 256 + u.clock_seq_low
  unfolding unparse_fields
  clock_value =
      clock_text u.clock_seq_hi_and_reserved u.clock_seq_low (print_node u.node) (omega arith)
        (omega arith)

  clock_hi_field :
      bit_and (strtoul 0 (drop 19 (unparse_fields u))) 0xff00 / 2 ^ 8 % 2 ^ 8
      ≡ u.clock_seq_hi_and_reserved
  clock_hi_field = rw clock_value (
      omega
        (arith, bit_and-high (u.clock_seq_hi_and_reserved * 256 + u.clock_seq_low) (omega arith)))

  clock_low_field : bit_and (strtoul 0 (drop 19 (unparse_fields u))) 0x0ff % 2 ^ 8 ≡ u.clock_seq_low
  clock_low_field = rw clock_value (
      omega
        (arith, bit_and-low (u.clock_seq_hi_and_reserved * 256 + u.clock_seq_low) (omega arith)))

  node_fields :
      (pair_at (unparse_fields u) 0 ≡ u.node.0)
      × (pair_at (unparse_fields u) 1 ≡ u.node.1)
      × (pair_at (unparse_fields u) 2 ≡ u.node.2)
      × (pair_at (unparse_fields u) 3 ≡ u.node.3)
      × (pair_at (unparse_fields u) 4 ≡ u.node.4)
      × (pair_at (unparse_fields u) 5 ≡ u.node.5)
  unfolding pair_at unparse_fields
  node_fields = (
    pair_text u.node.0 (omega arith),
    pair_text u.node.1 (omega arith),
    pair_text u.node.2 (omega arith),
    pair_text u.node.3 (omega arith),
    pair_text u.node.4 (omega arith),
    pair_text u.node.5 (omega arith),
  )

  -- A UUID whose fields are in the range of their C types is read back from its text.
  pub parse_fields-unparse_fields : parse_fields (unparse_fields u) ≡ some u
  unfolding parse_fields
  parse_fields-unparse_fields =
      let (n0, n1, n2, n3, n4, n5) = node_fields in
      rw (
        well_formed-unparse u,
        low_field,
        mid_field,
        hi_field,
        clock_hi_field,
        clock_low_field,
        n0,
        n1,
        n2,
        n3,
        n4,
        n5,
      )

-- What `uuid_unparse` writes for a uuid_t, `uuid_parse` reads back as the same 16 bytes.
pub parse-unparse : (uu : List ℕ) → IsBytes uu → parse (unparse uu) ≡ some uu
unfolding parse unparse
parse-unparse uu h =
    rw (parse_fields-unparse_fields (unpack uu) (unpack-IsUuid uu h)) (ap some (pack-unpack uu h))
