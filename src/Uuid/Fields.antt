-- ===== src/Uuid/Fields.antt =====
-- src/uuid/_uuid_impl.c and .h: a UUID by its fields, and as 16 bytes.
use linear_fcgi.Common.{ℕ, ◌+◌, ◌*◌, ◌/◌, ◌%◌, ◌^◌, List, [], ◌∷◌}
use linear_fcgi.Common.{if◌then◌else◌, ltb, ◌==◌, get_or}

-- uuid_node_t: unsigned char[6].
abbrev pub Node : Type 0
Node = ℕ × ℕ × ℕ × ℕ × ℕ × ℕ

abbrev pub bytes_of_node : Node → List ℕ
bytes_of_node (a, b, c, d, e, f) = a ∷ b ∷ c ∷ d ∷ e ∷ f ∷ []

-- struct _uuid_t.
pub record Uuid : Type 0 where
  pub time_low : ℕ  -- uint32_t
  pub time_mid : ℕ  -- uint16_t
  pub time_hi_and_version : ℕ  -- uint16_t
  pub clock_seq_hi_and_reserved : ℕ  -- uint8_t
  pub clock_seq_low : ℕ  -- uint8_t
  pub node : Node

abbrev pub byte : ℕ → ℕ
byte x = x % 256

-- _uuid_pack.
unfoldable pub pack : Uuid → List ℕ
pack src =
    byte (src.time_low / 2 ^ 24)
    ∷ byte (src.time_low / 2 ^ 16)
    ∷ byte (src.time_low / 2 ^ 8)
    ∷ byte src.time_low
    ∷ byte (src.time_mid / 2 ^ 8)
    ∷ byte src.time_mid
    ∷ byte (src.time_hi_and_version / 2 ^ 8)
    ∷ byte src.time_hi_and_version
    ∷ src.clock_seq_hi_and_reserved
    ∷ src.clock_seq_low
    ∷ bytes_of_node src.node

-- One round of the loops of _uuid_unpack on a field of `width` bits.
abbrev pub shift_in : (width acc b : ℕ) → ℕ
shift_in width acc b = (acc * 2 ^ 8 % 2 ^ width + b) % 2 ^ width

abbrev pub at : List ℕ → ℕ → ℕ
at src i = get_or src i 0

-- _uuid_unpack.
unfoldable pub unpack : List ℕ → Uuid
unpack src = record {
  time_low =
      shift_in 32 (shift_in 32 (shift_in 32 (shift_in 32 0 (at src 0)) (at src 1)) (at src 2))
        (at src 3);
  time_mid = shift_in 16 (shift_in 16 0 (at src 4)) (at src 5);
  time_hi_and_version = shift_in 16 (shift_in 16 0 (at src 6)) (at src 7);
  clock_seq_hi_and_reserved = at src 8;
  clock_seq_low = at src 9;
  node = (at src 10, at src 11, at src 12, at src 13, at src 14, at src 15);
}

-- The sign of an int: what a caller of a comparison function may look at.
pub data Sign : Type 0 where
  less equal greater : Sign

-- `if (a != b) return (a < b) ? -1 : 1;` before `rest`.
abbrev pub compare_then : ℕ → ℕ → Sign → Sign
compare_then a b rest = if a == b then rest else if ltb a b then less else greater

-- memcmp on two buffers of one size.
unfoldable pub memcmp : List ℕ → List ℕ → Sign
memcmp (x ∷ xs) (y ∷ ys) = compare_then x y (memcmp xs ys)
memcmp _ _ = equal

-- _uuid_compare.
unfoldable pub compare_fields : Uuid → Uuid → Sign
unfolding memcmp
compare_fields u1 u2 = compare_then u1.time_low u2.time_low (
    compare_then u1.time_mid u2.time_mid (
      compare_then u1.time_hi_and_version u2.time_hi_and_version (
        compare_then u1.clock_seq_hi_and_reserved u2.clock_seq_hi_and_reserved (
          compare_then u1.clock_seq_low u2.clock_seq_low
            (memcmp (bytes_of_node u1.node) (bytes_of_node u2.node))))))
