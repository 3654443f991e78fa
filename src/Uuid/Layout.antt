-- ===== src/Uuid/Layout.antt =====
-- The byte layout of src/uuid/_uuid_impl.c: _uuid_pack and _uuid_unpack undo one another.
use linear_fcgi.Common.{ℕ, zero, suc, ◌/◌, ◌^◌, ◌<◌, ◌≡◌, refl, sym, ap, arith}
use mathlib.Core.Path.{subst}
use linear_fcgi.Common.{List, [], ◌∷◌, length, All}
use linear_fcgi.Uuid.Fields.{Uuid, bytes_of_node, byte, pack, unpack, shift_in, at}

-- The bounds of the C types.
pub record IsUuid (u : Uuid) : Type 0 where
  pub time_low_fits : u.time_low < 2 ^ 32
  pub time_mid_fits : u.time_mid < 2 ^ 16
  pub time_hi_fits : u.time_hi_and_version < 2 ^ 16
  pub clock_hi_fits : u.clock_seq_hi_and_reserved < 2 ^ 8
  pub clock_low_fits : u.clock_seq_low < 2 ^ 8
  pub node_fits : All (λ b. b < 256) (bytes_of_node u.node)

-- A uuid_t.
abbrev pub IsBytes : List ℕ → Type 0
IsBytes uu = (length uu ≡ 16) × All (λ b. b < 256) uu

word32 :
    (x : ℕ)
    → x < 2 ^ 32
    → shift_in 32
        (shift_in 32
          (shift_in 32 (shift_in 32 0 (byte (x / 2 ^ 24))) (byte (x / 2 ^ 16)))
          (byte (x / 2 ^ 8)))
        (byte x)
      ≡ x
word32 x h = omega arith

word16 : (x : ℕ) → x < 2 ^ 16 → shift_in 16 (shift_in 16 0 (byte (x / 2 ^ 8))) (byte x) ≡ x
word16 x h = omega arith

-- A UUID whose fields are in the range of their C types is unpacked from its 16 bytes as it was.
pub unpack-pack : (u : Uuid) → IsUuid u → unpack (pack u) ≡ u
unfolding unpack pack
unpack-pack u v = ground (arith, word32 u.time_low, word16 u.time_mid, word16 u.time_hi_and_version)

-- A list by its elements.
abbrev pub indexed : ℕ → (ℕ → ℕ) → List ℕ
indexed zero f = []
indexed (suc n) f = f 0 ∷ indexed n (λ i. f (suc i))

indexed_lem : (uu : List ℕ) → indexed (length uu) (at uu) ≡ uu
indexed_lem [] = refl
indexed_lem (b ∷ uu) = ap (λ t. b ∷ t) (indexed_lem uu)

pub at-lt : (uu : List ℕ) (i : ℕ) → All (λ b. b < 256) uu → at uu i < 256
at-lt [] i h = omega arith
at-lt (b ∷ uu) zero h = h.0
at-lt (b ∷ uu) (suc i) h = at-lt uu i h.1

pub shape : (uu : List ℕ) → length uu ≡ 16 → uu ≡ indexed 16 (at uu)
shape uu h = sym (subst (λ n. indexed n (at uu) ≡ uu) h (indexed_lem uu))

bytes32 :
    (a b c d : ℕ)
    → a < 256
    → b < 256
    → c < 256
    → d < 256
    → let w = shift_in 32 (shift_in 32 (shift_in 32 (shift_in 32 0 a) b) c) d in
      (byte (w / 2 ^ 24) ≡ a) × (byte (w / 2 ^ 16) ≡ b) × (byte (w / 2 ^ 8) ≡ c) × (byte w ≡ d)
bytes32 a b c d ha hb hc hd = omega arith

bytes16 :
    (a b : ℕ)
    → a < 256
    → b < 256
    → let w = shift_in 16 (shift_in 16 0 a) b in (byte (w / 2 ^ 8) ≡ a) × (byte w ≡ b)
bytes16 a b ha hb = omega arith

-- The 16 bytes of a uuid_t come back when they are packed after unpacking.
pub pack-unpack : (uu : List ℕ) → IsBytes uu → pack (unpack uu) ≡ uu
unfolding unpack pack
pack-unpack uu (n, h) =
    let lt = λ (i : ℕ). at-lt uu i h in
    let (b0, b1, b2, b3) =
      bytes32 (at uu 0) (at uu 1) (at uu 2) (at uu 3) (lt 0) (lt 1) (lt 2) (lt 3) in
    let (b4, b5) = bytes16 (at uu 4) (at uu 5) (lt 4) (lt 5) in
    let (b6, b7) = bytes16 (at uu 6) (at uu 7) (lt 6) (lt 7) in
    rw (b0, b1, b2, b3, b4, b5, b6, b7) (sym (shape uu n))

pub unpack-IsUuid : (uu : List ℕ) → IsBytes uu → IsUuid (unpack uu)
unfolding unpack
unpack-IsUuid uu (n, h) =
    let lt = λ (i : ℕ). at-lt uu i h in
    record {
      time_low_fits = omega arith;
      time_mid_fits = omega arith;
      time_hi_fits = omega arith;
      clock_hi_fits = lt 8;
      clock_low_fits = lt 9;
      node_fits = (lt 10, (lt 11, (lt 12, (lt 13, (lt 14, (lt 15, tt))))));
    }
