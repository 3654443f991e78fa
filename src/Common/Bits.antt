-- ===== src/Common/Bits.antt =====
-- Masks and shifts on one byte as arithmetic, from tables checked by evaluation.
use Prim.Native.Nat.{ℕ, zero, suc, ◌%◌, ◌<◌, bit_and}
use mathlib.Core.Path.{◌≡◌, refl}
use mathlib.Core.Bool.{Bool, true, ◌&&◌}
use native.Mathlib.Omega.{arith}
use linear_fcgi.Common.Tests.{◌==◌, ==_iff}

-- A test that all numbers below a bound pass, by evaluation.
unfoldable pub every_below : (bound : ℕ) → (test : ℕ → Bool) → Bool
every_below zero test = true
every_below (suc k) test = every_below k test && test k

pub every_below_sound :
    (bound : ℕ) (test : ℕ → Bool) (i : ℕ)
    → every_below bound test ≡ true
    → i < bound
    → test i ≡ true
unfolding every_below
every_below_sound zero test i passed below = absurd (omega arith)
every_below_sound (suc k) test i passed below = ground (arith, every_below_sound k test i)

nibble_table : every_below 256 (λ x. bit_and x 15 == x % 16) ≡ true
unfolding every_below
nibble_table = refl

pub bit_and_nibble : (x : ℕ) → x < 256 → bit_and x 15 ≡ x % 16
bit_and_nibble x h = (==_iff _ _).0 (every_below_sound 256 _ x nibble_table h)
