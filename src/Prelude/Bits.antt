-- ===== src/Prelude/Bits.antt =====
-- Masks on one byte as arithmetic, each a table that is checked by evaluation.
use Prim.Native.Nat.{ℕ, zero, suc, ◌+◌, ◌*◌, ◌/◌, ◌%◌, ◌<◌, bit_and, bit_or}
use mathlib.Core.Path.{◌≡◌, refl}
use mathlib.Core.Bool.{Bool, true, false}
use native.Mathlib.Omega.{arith}
use mqtt_async_embedded.Prelude.Tests.{◌==◌, ==_iff, if◌then◌else◌}

-- Whether two functions of a byte agree on every value below a bound.
agree : (f g : ℕ → ℕ) → ℕ → Bool
agree f g zero = true
agree f g (suc bound) = let below = agree f g bound in if f bound == g bound then below else false

-- Functions that were seen to agree are equal on each value in the range.
agree_at : (f g : ℕ → ℕ) (bound x : ℕ) → x < bound → agree f g bound ≡ true → (f x == g x) ≡ true
unfolding agree
agree_at f g zero x inside seen = absurd (omega arith)
agree_at f g (suc bound) x inside seen = ground (arith, agree_at f g bound x)

equal_at : (f g : ℕ → ℕ) (bound x : ℕ) → x < bound → agree f g bound ≡ true → f x ≡ g x
equal_at f g bound x inside seen = (==_iff (f x) (g x)).0 (agree_at f g bound x inside seen)

pub low_bits : (x : ℕ) → x < 256 → bit_and x 127 ≡ x % 128
unfolding agree
low_bits x byte = equal_at (λ y. bit_and y 127) (λ y. y % 128) 256 x byte refl

pub top_bit : (x : ℕ) → x < 256 → bit_and x 128 ≡ x / 128 * 128
unfolding agree
top_bit x byte = equal_at (λ y. bit_and y 128) (λ y. y / 128 * 128) 256 x byte refl

pub set_top_bit : (x : ℕ) → x < 128 → bit_or x 128 ≡ x + 128
unfolding agree
set_top_bit x group = equal_at (λ y. bit_or y 128) (λ y. y + 128) 128 x group refl
